-- ===== src/Jobs/Debounce/Body.antt =====
-- What the body of a debounce comes to on a platform that does not fail: how it ends and how long it
-- takes are read off its tree, at the store that it begins with.
use durable_effect.Prelude.{ℕ, ◌+◌, ◌≡◌, ◌∙◌, ap, Option, none, some, or_else, arith}
use durable_effect.Jobs.Bodies.{UserError, user_error, DebounceBody}
use durable_effect.Jobs.World.{
  JobStore, JobWorld, JobEnv, IsReliable, Outcome, ok, err, or_die, catch_all, ◌>>=◌,
}
use durable_effect.Jobs.Platform.{elapse}
use durable_effect.Jobs.Reliable.{get-reliable}
use durable_effect.Jobs.Retry.Exhaustion.{later}
use durable_effect.Jobs.Debounce.Record.{get_event_count, get_started_at}
use durable_effect.Jobs.Debounce.Flush.{run_body}

-- the failure that the body ends with
unfoldable pub failure_of : DebounceBody → JobStore → Option UserError
failure_of DebounceBody.done s = none
failure_of (DebounceBody.fail e) s = some e
failure_of (DebounceBody.wait ms k) s = failure_of k s
failure_of (DebounceBody.event_count k) s = failure_of (k (or_else s.event_count 0)) s
failure_of (DebounceBody.debounce_started_at k) s = failure_of (k (or_else s.started_at 0)) s

unfoldable pub time_of : DebounceBody → JobStore → ℕ
time_of DebounceBody.done s = 0
time_of (DebounceBody.fail e) s = 0
time_of (DebounceBody.wait ms k) s = ms + time_of k s
time_of (DebounceBody.event_count k) s = time_of (k (or_else s.event_count 0)) s
time_of (DebounceBody.debounce_started_at k) s = time_of (k (or_else s.started_at 0)) s

abbrev pub ended : Option UserError → Outcome (Unit {0})
ended none = ok tt
ended (some e) = err (user_error e)

later_zero : (w : JobWorld) → w ≡ later 0 w
later_zero w = ap (λ (n : ℕ). record w { current_time = n }) (omega arith)

later-later : (a b : ℕ) (w : JobWorld) → later b (later a w) ≡ later (a + b) w
later-later a b w = ap (λ (n : ℕ). record w { current_time = n }) (omega arith)

module _ (env : JobEnv) (reliable : IsReliable env) where
  pub run_body-ended :
      (b : DebounceBody) (w : JobWorld)
      → run_body b env w ≡ (ended (failure_of b w.store), later (time_of b w.store) w)
  unfolding run_body failure_of time_of or_die catch_all get_event_count get_started_at elapse ◌>>=◌
  run_body-ended DebounceBody.done w = ap (λ v. (ok tt, v)) (later_zero w)
  run_body-ended (DebounceBody.fail e) w = ap (λ v. (err (user_error e), v)) (later_zero w)
  run_body-ended (DebounceBody.wait ms k) w =
      run_body-ended k (later ms w)
      ∙ ap (λ v. (ended (failure_of k w.store), v)) (later-later ms (time_of k w.store) w)
  run_body-ended (DebounceBody.event_count k) w =
      simp (get-reliable env reliable) (run_body-ended (k (or_else w.store.event_count 0)) w)
  run_body-ended (DebounceBody.debounce_started_at k) w =
      simp (get-reliable env reliable) (run_body-ended (k (or_else w.store.started_at 0)) w)
