-- ===== src/Executor/Results.antt =====
-- How an exit becomes a result: the search of a cause, and what a result does to the status.
use durable_effect.Prelude.{ℕ, String, ◌≡◌, refl, sym, ◌⊎◌, inl, inr, Option, none, some, List}
use durable_effect.Errors.{Error, PauseSignal, as_pause_signal, as_step_cancelled}
use durable_effect.Program.{Cause, fail, sequential, parallel, failure, Result, ok}
use durable_effect.World.{Env, World, asks, ◌>>=◌}
use durable_effect.World.Storage.{schedule}
use durable_effect.Executor.{
  ExecutionResult, find_in_cause, first_of_two, look_at, find_pause_signal, find_cancel_error,
  handle_exit, handle_failure, cancelled_or_failed,
}

-- the error stands in the cause as a failure
pub data Occurs (e : Error) : Cause → Type 0 where
  here : Occurs e (fail e)
  in_sequential_left : {l r : Cause} → Occurs e l → Occurs e (sequential l r)
  in_sequential_right : {l r : Cause} → Occurs e r → Occurs e (sequential l r)
  in_parallel_left : {l r : Cause} → Occurs e l → Occurs e (parallel l r)
  in_parallel_right : {l r : Cause} → Occurs e r → Occurs e (parallel l r)

-- The documented behaviour of `Cause.failureOption`: it gives a failure that stands in the cause, and
-- finds the failure of a cause that is no more than one.
pub record IsFailureOption (failure_option : Cause → Option Error) : Type 0 where
  pub sound : (cause : Cause) (e : Error) → failure_option cause ≡ some e → Occurs e cause
  pub of_fail : (e : Error) → failure_option (fail e) ≡ some e

module _ {A : Type 0} where
  pub either_of_two :
      (o p : Option A) (a : A) → first_of_two o p ≡ some a → (o ≡ some a) ⊎ (p ≡ some a)
  either_of_two none p a h = inr h
  either_of_two (some b) p a h = inl h

  none_of_two : (o p : Option A) → first_of_two o p ≡ none → (o ≡ none) × (p ≡ none)
  none_of_two none p h = (refl, h)
  none_of_two (some b) p h = cc

  looked_at :
      (look : Error → Option A) (o : Option Error) (a : A)
      → look_at look o ≡ some a
      → (e : Error) × (o ≡ some e) × (look e ≡ some a)
  looked_at look none a h = cc
  looked_at look (some e) a h = (e, refl, h)

module _ {A : Type 0} (failure_option : Cause → Option Error)
    (laws : IsFailureOption failure_option) (look : Error → Option A) where
  -- an error of the cause for which the look gives the answer
  abbrev Found : Cause → A → Type 0
  Found cause a = (e : Error) × Occurs e cause × (look e ≡ some a)

  direct-Found :
      (cause : Cause) (a : A) → look_at look (failure_option cause) ≡ some a → Found cause a
  direct-Found cause a h =
      let (e, s, l) = looked_at look (failure_option cause) a h in (e, laws.sound cause e s, l)

  -- what the search finds is in the cause
  find_in_cause-Found :
      (cause : Cause) (a : A) → find_in_cause failure_option look cause ≡ some a → Found cause a
  unfolding find_in_cause
  find_in_cause-Found (sequential l r) a h = elim (either_of_two _ _ a h) [
    | inl d ↦ direct-Found (sequential l r) a d
    | inr k ↦ elim (either_of_two _ _ a k) [
      | inl d ↦ let (e, o, f) = find_in_cause-Found l a d in (e, in_sequential_left o, f)
      | inr d ↦ let (e, o, f) = find_in_cause-Found r a d in (e, in_sequential_right o, f)
    ]
  ]
  find_in_cause-Found (parallel l r) a h = elim (either_of_two _ _ a h) [
    | inl d ↦ direct-Found (parallel l r) a d
    | inr k ↦ elim (either_of_two _ _ a k) [
      | inl d ↦ let (e, o, f) = find_in_cause-Found l a d in (e, in_parallel_left o, f)
      | inr d ↦ let (e, o, f) = find_in_cause-Found r a d in (e, in_parallel_right o, f)
    ]
  ]
  find_in_cause-Found cause a h = direct-Found cause a h

  -- and it misses none
  find_in_cause-none :
      (e : Error) (cause : Cause) (a : A)
      → Occurs e cause
      → look e ≡ some a
      → ¬ (find_in_cause failure_option look cause ≡ none)
  unfolding find_in_cause
  find_in_cause-none e cause a here l h =
      let f = laws.of_fail e in
      let found : look_at look (failure_option (fail e)) ≡ some a = rw f l in cc
  find_in_cause-none e cause a (in_sequential_left o) l h =
      find_in_cause-none e _ a o l (none_of_two _ _ (none_of_two _ _ h).1).0
  find_in_cause-none e cause a (in_sequential_right o) l h =
      find_in_cause-none e _ a o l (none_of_two _ _ (none_of_two _ _ h).1).1
  find_in_cause-none e cause a (in_parallel_left o) l h =
      find_in_cause-none e _ a o l (none_of_two _ _ (none_of_two _ _ h).1).0
  find_in_cause-none e cause a (in_parallel_right o) l h =
      find_in_cause-none e _ a o l (none_of_two _ _ (none_of_two _ _ h).1).1

as_pause_signal-pause_signal :
    (e : Error) (s : PauseSignal) → as_pause_signal e ≡ some s → e ≡ Error.pause_signal s
unfolding as_pause_signal
as_pause_signal-pause_signal (Error.pause_signal t) s h = cc
as_pause_signal-pause_signal _ s h = cc

as_step_cancelled-step_cancelled :
    (e : Error) (n : String) → as_step_cancelled e ≡ some n → e ≡ Error.step_cancelled n
unfolding as_step_cancelled
as_step_cancelled-step_cancelled (Error.step_cancelled t) n h = cc
as_step_cancelled-step_cancelled _ n h = cc

-- how a cause ends a run that took a time and left the steps completed
pub data EndsAs (cause : Cause) (ms : ℕ) (steps : List String) (w : World)
    : ExecutionResult → World → Type 0 where
  pauses :
      (s : PauseSignal)
      → Occurs (Error.pause_signal s) cause
      → EndsAs cause ms steps w
          (ExecutionResult.paused s.reason s.resume_at s.step_name s.attempt)
          (record w { scheduled_time = some s.resume_at })
  cancels :
      (step_name : String)
      → ((s : PauseSignal) → ¬ Occurs (Error.pause_signal s) cause)
      → Occurs (Error.step_cancelled step_name) cause
      → EndsAs cause ms steps w (ExecutionResult.cancelled (some step_name) steps) w
  fails :
      (e : Error)
      → ((s : PauseSignal) → ¬ Occurs (Error.pause_signal s) cause)
      → ((step_name : String) → ¬ Occurs (Error.step_cancelled step_name) cause)
      → EndsAs cause ms steps w (ExecutionResult.failed e ms steps) w

module _ (env : Env) (laws : IsFailureOption env.failure_option) (cause : Cause) (ms : ℕ)
    (steps : List String) (w : World) where
  pause-Occurs :
      (s : PauseSignal)
      → find_pause_signal env.failure_option cause ≡ some s
      → Occurs (Error.pause_signal s) cause
  unfolding find_pause_signal
  pause-Occurs s h =
      let (e, o, f) = find_in_cause-Found env.failure_option laws as_pause_signal cause s h in
      rw (sym (as_pause_signal-pause_signal e s f)) o

  cancel-Occurs :
      (n : String)
      → find_cancel_error env.failure_option cause ≡ some n
      → Occurs (Error.step_cancelled n) cause
  unfolding find_cancel_error
  cancel-Occurs n h =
      let (e, o, f) = find_in_cause-Found env.failure_option laws as_step_cancelled cause n h in
      rw (sym (as_step_cancelled-step_cancelled e n f)) o

  no_pause :
      find_pause_signal env.failure_option cause ≡ none
      → (s : PauseSignal) → ¬ Occurs (Error.pause_signal s) cause
  unfolding find_pause_signal as_pause_signal
  no_pause h s o = find_in_cause-none env.failure_option laws as_pause_signal _ cause s o refl h

  no_cancel :
      find_cancel_error env.failure_option cause ≡ none
      → (n : String) → ¬ Occurs (Error.step_cancelled n) cause
  unfolding find_cancel_error as_step_cancelled
  no_cancel h n o = find_in_cause-none env.failure_option laws as_step_cancelled _ cause n o refl h

  -- the call ends in a result of the shape that its cause asks for
  abbrev pub Returns : Result ExecutionResult × World → Type 0
  Returns r = (result : ExecutionResult) × (r.0 ≡ ok result) × EndsAs cause ms steps w result r.1

  without_pause :
      (o : Option String)
      → ((s : PauseSignal) → ¬ Occurs (Error.pause_signal s) cause)
      → find_cancel_error env.failure_option cause ≡ o
      → EndsAs cause ms steps w (cancelled_or_failed env cause ms steps o) w
  without_pause none p h = fails _ p (no_cancel h)
  without_pause (some n) p h = cancels n p (cancel-Occurs n h)

  handled :
      (o : Option PauseSignal)
      → find_pause_signal env.failure_option cause ≡ o
      → Returns (handle_failure env cause ms steps o env w)
  unfolding handle_failure schedule ◌>>=◌
  handled none h = (_, refl, without_pause _ (no_pause h) refl)
  handled (some s) h = (_, refl, pauses s (pause-Occurs s h))

  -- Where `Cause.failureOption` behaves as documented, a failed run becomes a pause if a pause
  -- signal stands anywhere in its cause, and the alarm is then set for that signal; else it becomes
  -- a cancellation, with the step's name for its reason, if a cancelled step stands anywhere in it;
  -- else it is a failure. Beside the alarm nothing changes.
  pub handle_exit-EndsAs : Returns (handle_exit (failure cause) ms steps env w)
  unfolding handle_exit asks ◌>>=◌
  handle_exit-EndsAs = handled _ refl
