-- ===== src/Purge/Lifecycle.antt =====
-- The purge of a finished workflow from its scheduling to the alarm that finds it due, on a storage
-- that does not fail.
use durable_effect.Prelude.{
  ℕ, ◌+◌, ◌≤◌, ◌<◌, ◌≡◌, refl, Bool, true, false, none, some, arith, ltb, ltb→lt, if◌then◌else◌,
}
use durable_effect.Program.{ok}
use durable_effect.World.{
  Env, World, Store, empty_store, TerminalState, IsReliable, asks, ◌>>=◌, ◌>>◌,
}
use durable_effect.World.Storage.{now, schedule}
use durable_effect.World.Reliable.{
  get-reliable, put_batch-reliable, delete_all-reliable, delete-reliable,
}
use durable_effect.Recovery.Repeated.{later}
use durable_effect.Purge.{
  schedule_purge, execute_purge_if_due, execute_purge_if_scheduled, cancel_purge, is_due,
}

abbrev pub purge_time : Env → World → ℕ
purge_time env w = w.current_time + env.purge.delay_ms

-- the world after a purge has been scheduled
abbrev pub with_purge : TerminalState → Env → World → World
with_purge state env w = record w {
  store = record w.store {
    purge_scheduled = some true;
    purge_at = some (purge_time env w);
    purge_reason = some state;
    alarm_type = some "purge";
  };
  scheduled_time = some (purge_time env w);
}

abbrev pub without_purge : Store → Store
without_purge s = record s {
  purge_scheduled = none;
  purge_at = none;
  purge_reason = none;
  alarm_type = none;
}

pub due-le :
    (purge_at time : ℕ) → 0 < purge_at → purge_at ≤ time → is_due (some purge_at) time ≡ true
due-le a t p h = ground arith

due-lt : (purge_at time : ℕ) → time < purge_at → is_due (some purge_at) time ≡ false
due-lt a t h = ground arith

module _ (env : Env) (reliable : IsReliable env) (enabled : env.purge.enabled ≡ true) where
  pub schedule_purge-reliable :
      (state : TerminalState) (w : World)
      → schedule_purge state env w ≡ (ok tt, with_purge state env w)
  unfolding schedule_purge asks now schedule ◌>>=◌
  schedule_purge-reliable state w = simp (enabled, put_batch-reliable env reliable)

  pub execute_purge-due :
      (w : World)
      → w.store.purge_scheduled ≡ some true
      → is_due w.store.purge_at w.current_time ≡ true
      → execute_purge_if_due env w
        ≡ (ok (some w.store.purge_reason), record w { store = empty_store })
  unfolding execute_purge_if_due execute_purge_if_scheduled asks now ◌>>=◌
  execute_purge-due w s d =
      simp (enabled, get-reliable env reliable, delete_all-reliable env reliable, s, d)

  execute_purge-early :
      (w : World)
      → w.store.purge_scheduled ≡ some true
      → is_due w.store.purge_at w.current_time ≡ false
      → execute_purge_if_due env w ≡ (ok none, w)
  unfolding execute_purge_if_due execute_purge_if_scheduled asks now ◌>>=◌
  execute_purge-early w s d = simp (enabled, get-reliable env reliable, s, d)

  at_purge_time :
      (state : TerminalState) (w : World) (ms : ℕ) (b : Bool)
      → 0 < purge_time env w
      → ltb ms env.purge.delay_ms ≡ b
      → let w' = later ms (with_purge state env w) in
        execute_purge_if_due env w'
        ≡ (if b then (ok none, w') else (ok (some (some state)), record w' { store = empty_store }))
  at_purge_time state w ms true p e =
      execute_purge-early _ refl
        (due-lt (purge_time env w) (w.current_time + ms) (omega (arith, ltb→lt _ _ e)))
  at_purge_time state w ms false p e =
      let late : env.purge.delay_ms ≤ ms = ground arith in
      execute_purge-due _ refl (due-le (purge_time env w) (w.current_time + ms) p (omega arith))

  -- With purges enabled, a storage that does not fail, and a purge time that is not 0: after a
  -- purge has been scheduled, the alarm is set for its time. Before that time the check purges
  -- nothing and changes nothing; from that time on it empties the storage and hands back the state
  -- for which the purge was scheduled.
  pub purge_lifecycle :
      (state : TerminalState) (w : World) (ms : ℕ)
      → 0 < purge_time env w
      → let w' = later ms (schedule_purge state env w).1 in
        (w'.scheduled_time ≡ some (purge_time env w))
        × (execute_purge_if_due env w' ≡ (
            if ltb ms env.purge.delay_ms
            then (ok none, w')
            else (ok (some (some state)), record w' { store = empty_store })))
  purge_lifecycle state w ms p =
      rw (schedule_purge-reliable state w) (refl, at_purge_time state w ms _ p refl)

  -- what the next alarm finds where no purge is on record
  pub execute_purge-absent :
      (w : World) → w.store.purge_scheduled ≡ none → execute_purge_if_due env w ≡ (ok none, w)
  unfolding execute_purge_if_due execute_purge_if_scheduled asks ◌>>=◌
  execute_purge-absent w s = simp (enabled, get-reliable env reliable, s)

  cancel_purge-reliable :
      (w : World) → cancel_purge env w ≡ (ok tt, record w { store = without_purge w.store })
  unfolding cancel_purge asks ◌>>=◌
  cancel_purge-reliable w = simp (enabled, delete-reliable env reliable)

  cancelled_after :
      (state : TerminalState) (w : World)
      → (schedule_purge state >> cancel_purge) env w ≡ (
        ok tt,
        record w { store = without_purge w.store; scheduled_time = some (purge_time env w) },
      )
  unfolding ◌>>=◌
  cancelled_after state w = rw (schedule_purge-reliable state w) (cancel_purge-reliable _)

  -- With purges enabled and a storage that does not fail, a purge that is cancelled leaves no
  -- record, and is not carried out however late an alarm comes; the alarm that was set for it stays
  -- set.
  pub cancel_purge-schedule_purge :
      (state : TerminalState) (w : World) (ms : ℕ)
      → let w' = later ms ((schedule_purge state >> cancel_purge) env w).1 in
        (w'.store ≡ without_purge w.store)
        × (w'.scheduled_time ≡ some (purge_time env w))
        × (execute_purge_if_due env w' ≡ (ok none, w'))
  cancel_purge-schedule_purge state w ms =
      rw (cancelled_after state w) (refl, refl, execute_purge-absent _ refl)
