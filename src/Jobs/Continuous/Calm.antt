-- ===== src/Jobs/Continuous/Calm.antt =====
-- A continuous job's body that ends well, over a state that is there: the state that it leaves,
-- whether it sets it, and how long it takes are read off its tree.
use durable_effect.Prelude.{
  ℕ, ◌+◌, ◌≡◌, refl, ◌∙◌, ap, Bool, true, false, ◌||◌, Option, some, arith,
}
use durable_effect.State.{Unknown}
use durable_effect.Jobs.Bodies.{ContinuousBody}
use durable_effect.Jobs.World.{JobWorld, JobEnv, ok, reads, modify, ◌>>=◌}
use durable_effect.Jobs.Platform.{elapse}
use durable_effect.Jobs.Execution.{holder_state, hold_state}
use durable_effect.Jobs.Continuous.Run.{run_body}

-- It neither fails nor terminates, whatever it reads.
abbrev pub IsCalm : ContinuousBody → Type 0
IsCalm ContinuousBody.done = Unit {0}
IsCalm (ContinuousBody.fail e) = ⊥
IsCalm (ContinuousBody.wait ms k) = IsCalm k
IsCalm (ContinuousBody.read_state k) = (s : Option Unknown) → IsCalm (k s)
IsCalm (ContinuousBody.set_state s k) = IsCalm k
IsCalm (ContinuousBody.update_state fn k) = IsCalm k
IsCalm (ContinuousBody.terminate reason) = ⊥

unfoldable pub final_state : ContinuousBody → Unknown → Unknown
final_state (ContinuousBody.wait ms k) s = final_state k s
final_state (ContinuousBody.read_state k) s = final_state (k (some s)) s
final_state (ContinuousBody.set_state s' k) s = final_state k s'
final_state (ContinuousBody.update_state fn k) s = final_state k (fn (some s))
final_state _ s = s

unfoldable pub sets_state : ContinuousBody → Unknown → Bool
sets_state (ContinuousBody.wait ms k) s = sets_state k s
sets_state (ContinuousBody.read_state k) s = sets_state (k (some s)) s
sets_state (ContinuousBody.set_state s' k) s = true
sets_state (ContinuousBody.update_state fn k) s = true
sets_state _ s = false

unfoldable pub time_of : ContinuousBody → Unknown → ℕ
time_of (ContinuousBody.wait ms k) s = ms + time_of k s
time_of (ContinuousBody.read_state k) s = time_of (k (some s)) s
time_of (ContinuousBody.set_state s' k) s = time_of k s'
time_of (ContinuousBody.update_state fn k) s = time_of k (fn (some s))
time_of _ s = 0

-- a body that does not set the state leaves it
pub sets_state-final_state :
    (b : ContinuousBody) (s : Unknown) → sets_state b s ≡ false → final_state b s ≡ s
unfolding sets_state final_state
sets_state-final_state ContinuousBody.done s e = refl
sets_state-final_state (ContinuousBody.fail x) s e = refl
sets_state-final_state (ContinuousBody.wait ms k) s e = sets_state-final_state k s e
sets_state-final_state (ContinuousBody.read_state k) s e = sets_state-final_state (k (some s)) s e
sets_state-final_state (ContinuousBody.set_state s' k) s e = cc
sets_state-final_state (ContinuousBody.update_state fn k) s e = cc
sets_state-final_state (ContinuousBody.terminate reason) s e = refl

-- the world that holds a state, some time after
abbrev pub holding : JobWorld → Unknown → (dirty : Bool) → ℕ → JobWorld
holding w s dirty ms = record w {
  holder = record { current = some s; dirty = dirty };
  current_time = w.current_time + ms;
}

module _ (env : JobEnv) where
  -- the world after the body
  abbrev ended : ContinuousBody → JobWorld → Unknown → Bool → ℕ → JobWorld
  ended b w s dirty ms = holding w (final_state b s) (dirty || sets_state b s) (ms + time_of b s)

  holding_zero :
      (w : JobWorld) (s : Unknown) (d : Bool) (ms : ℕ)
      → holding w s d ms ≡ holding w s (d || false) (ms + 0)
  holding_zero w s true ms = ap (holding w s true) (omega arith)
  holding_zero w s false ms = ap (holding w s false) (omega arith)

  holding_set :
      (w : JobWorld) (b : ContinuousBody) (s : Unknown) (d : Bool) (ms : ℕ)
      → ended b w s true ms ≡ holding w (final_state b s) (d || true) (ms + time_of b s)
  holding_set w b s true ms = refl
  holding_set w b s false ms = refl

  pub run_body-IsCalm :
      (b : ContinuousBody) (w : JobWorld) (s : Unknown) (d : Bool) (ms : ℕ)
      → IsCalm b
      → run_body b env (holding w s d ms) ≡ (ok tt, ended b w s d ms)
  unfolding run_body final_state sets_state time_of holder_state hold_state reads modify elapse
      ◌>>=◌
  run_body-IsCalm ContinuousBody.done w s d ms h = ap (λ v. (ok tt, v)) (holding_zero w s d ms)
  run_body-IsCalm (ContinuousBody.wait t k) w s d ms h =
      ap (λ (n : ℕ). run_body k env (record (holding w s d ms) { current_time = n })) (omega arith)
      ∙ run_body-IsCalm k w s d (ms + t) h
      ∙ ap (λ (n : ℕ). (ok tt, holding w (final_state k s) (d || sets_state k s) n)) (omega arith)
  run_body-IsCalm (ContinuousBody.read_state k) w s d ms h =
      run_body-IsCalm (k (some s)) w s d ms (h (some s))
  run_body-IsCalm (ContinuousBody.set_state s' k) w s d ms h =
      run_body-IsCalm k w s' true ms h ∙ ap (λ v. (ok tt, v)) (holding_set w k s' d ms)
  run_body-IsCalm (ContinuousBody.update_state fn k) w s d ms h =
      run_body-IsCalm k w (fn (some s)) true ms h
      ∙ ap (λ v. (ok tt, v)) (holding_set w k (fn (some s)) d ms)
  run_body-IsCalm (ContinuousBody.fail x) w s d ms h = elim h [ ]
  run_body-IsCalm (ContinuousBody.terminate reason) w s d ms h = elim h [ ]

  -- the same from the start of a run
  pub run_body-started :
      (b : ContinuousBody) (w : JobWorld) (s : Unknown)
      → IsCalm b
      → run_body b env (record w { holder = record { current = some s; dirty = false } })
        ≡ (ok tt, holding w (final_state b s) (sets_state b s) (time_of b s))
  run_body-started b w s h =
      ap (λ (n : ℕ). run_body b env (record (holding w s false 0) { current_time = n }))
        (omega arith)
      ∙ run_body-IsCalm b w s false 0 h
      ∙ ap (λ (n : ℕ). (ok tt, holding w (final_state b s) (sets_state b s) n)) (omega arith)
