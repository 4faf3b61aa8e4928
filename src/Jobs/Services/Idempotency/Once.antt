-- ===== src/Jobs/Services/Idempotency/Once.antt =====
-- An event is new once, on a platform that does not fail.
use durable_effect.Prelude.{
  String, ◌≡◌, ◌≢◌, refl, true, false, none, some, arith, str_eq, eq_iff, eq_refl,
}
use durable_effect.Jobs.World.{JobWorld, JobEnv, IsReliable, ok, ◌>>=◌}
use durable_effect.Jobs.Platform.{now}
use durable_effect.Jobs.Reliable.{get-reliable, put-reliable, delete-reliable}
use durable_effect.Jobs.Services.Idempotency.{check, mark, mark_new, check_and_mark, clear_mark}

module _ (env : JobEnv) (reliable : IsReliable env) where
  -- On a platform that does not fail: an event that is not marked is new to the first call, which
  -- marks it with the time, and to no later one; another event is as marked as it was. Once its
  -- mark is cleared, it is new again.
  pub check_and_mark-once :
      (event_id other : String) (w : JobWorld)
      → w.store.idempotency event_id ≡ none
      → event_id ≢ other
      → let first = check_and_mark event_id env w in
        let second = check_and_mark event_id env first.1 in
        let cleared = clear_mark event_id env second.1 in
        (first.0 ≡ ok false)
        × (second.0 ≡ ok true)
        × (second.1.store.idempotency event_id ≡ some w.current_time)
        × ((check other env second.1).0 ≡ (check other env w).0)
        × ((check_and_mark event_id env cleared.1).0 ≡ ok false)
  unfolding check check_and_mark mark_new mark clear_mark now ◌>>=◌
  check_and_mark-once event_id other w new differs =
      let apart : str_eq event_id other ≡ false = ground (arith, eq_iff event_id other) in
      simp
        (
          get-reliable env reliable,
          put-reliable env reliable,
          delete-reliable env reliable,
          new,
          eq_refl,
          apart,
        )
        (refl, refl, refl, refl, refl)
