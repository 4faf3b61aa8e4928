-- ===== src/Executor/Total.antt =====
-- With a storage that does not fail every run of a workflow ends in a result, and a result that is a
-- pause leaves the alarm set.
use durable_effect.Prelude.{ℕ, String, ◌≡◌, refl, Option, none, some, List}
use durable_effect.State.{Unknown}
use durable_effect.Errors.{Error, Key, PauseSignal}
use durable_effect.Program.{Cause, Exit, success, failure, Program, done, halt}
use durable_effect.World.{Env, World, IsReliable}
use durable_effect.World.Outcomes.{
  Post, Post-known, Post-pure, Post-bind, Post-get, Post-put, Post-mono, Post-now, Post-asks,
  Post-schedule, Post-catch,
}
use durable_effect.World.Keeps.{Post-result_of}
use durable_effect.Machine.{get_completed_steps}
use durable_effect.Executor.{
  ExecutionResult, ExecutionContext, run_program, handle_exit, handle_failure, cancelled_or_failed,
  execute_body, execute, find_pause_signal, find_cancel_error,
}
use durable_effect.Executor.Exits.{IsResult, Executes}
use durable_effect.Executor.Frame.{Control, HasControl, step-Keeps, sleep-Keeps, sleep_until-Keeps}

abbrev pub Never : Error → World → Type 0
Never e w = ⊥

-- a pause has set the alarm for its time
abbrev pub HasAlarm : ExecutionResult → Option ℕ → Type 0
HasAlarm (ExecutionResult.paused _ resume_at _ _) scheduled_time = scheduled_time ≡ some resume_at
HasAlarm _ scheduled_time = Unit

module _ (c : Control) (env : Env) (reliable : IsReliable env) where
  run_program-Total :
      (p : Program) (w : World)
      → HasControl c w.store
      → Post (λ _ w'. HasControl c w'.store) Never (run_program p env w)
  unfolding run_program
  run_program-Total (done v) w h = Post-pure _ env w h
  run_program-Total (halt cause) w h = Post-pure _ env w h
  run_program-Total (Program.step config next) w h = Post-bind _ _ env w (
      Post-mono (Post-result_of {E = Never} _ env w (step-Keeps c config) h)
        (λ r w' k. run_program-Total (next r) w' k) (λ e w' n. n))
  run_program-Total (Program.sleep ms next) w h = Post-bind _ _ env w (
      Post-mono (Post-result_of {E = Never} _ env w (sleep-Keeps c ms) h)
        (λ r w' k. run_program-Total (next r) w' k) (λ e w' n. n))
  run_program-Total (Program.sleep_until time next) w h = Post-bind _ _ env w (
      Post-mono (Post-result_of {E = Never} _ env w (sleep_until-Keeps c time) h)
        (λ r w' k. run_program-Total (next r) w' k) (λ e w' n. n))

  abbrev pub Produces : ExecutionResult → World → Type 0
  Produces result w = HasControl c w.store × HasAlarm result w.scheduled_time

  module _ (cause : Cause) (ms : ℕ) (steps : List String) where
    -- what a failure comes to, in a world in which the body has ended
    abbrev Handles : ExecutionResult → World → Type 0
    Handles result w = Produces result w × IsResult env ms steps (failure cause) result

    without_pause :
        (o : Option String) (w : World)
        → HasControl c w.store
        → find_pause_signal env.failure_option cause ≡ none
        → find_cancel_error env.failure_option cause ≡ o
        → Handles (cancelled_or_failed env cause ms steps o) w
    without_pause none w h p q = ((h, tt), IsResult.fails cause p q)
    without_pause (some n) w h p q = ((h, tt), IsResult.cancels cause n p q)

    handle_failure-Handles :
        (o : Option PauseSignal) (w : World)
        → HasControl c w.store
        → find_pause_signal env.failure_option cause ≡ o
        → Post Handles Never (handle_failure env cause ms steps o env w)
    unfolding handle_failure
    handle_failure-Handles none w h p = Post-pure _ env w (without_pause _ w h p refl)
    handle_failure-Handles (some s) w h p =
        Post-bind _ _ env w
          (Post-schedule _ env w (Post-pure _ env _ ((h, refl), IsResult.pauses cause s p)))

  handle_exit-IsResult :
      (exit : Exit Unknown) (ms : ℕ) (steps : List String) (w : World)
      → HasControl c w.store
      → Post
          (λ result w'. Produces result w' × IsResult env ms steps exit result)
          Never
          (handle_exit exit ms steps env w)
  unfolding handle_exit
  handle_exit-IsResult (success v) ms steps w h = Post-pure _ env w ((h, tt), IsResult.completes v)
  handle_exit-IsResult (failure cause) ms steps w h =
      Post-bind _ _ env w (Post-asks _ env w (handle_failure-Handles cause ms steps _ w h refl))

  -- a run from a world on
  abbrev pub Ends :
      (Option Unknown → Program) → Option Unknown → World → ExecutionResult → World → Type 0
  Ends definition input w result w' = Produces result w' × Executes env definition input w result

  execute_body-Ends :
      (definition : Option Unknown → Program) (context : ExecutionContext) (w : World)
      → HasControl c w.store
      → Post (Ends definition context.input w) Never (execute_body definition context env w)
  unfolding execute_body get_completed_steps
  execute_body-Ends definition context w h = Post-bind _ _ env w (
      Post-now env w (
        Post-bind _ _ env w (
          Post-put Key.started_at _ env w
            (Post-bind _ _ env _ (
              Post-put Key.current_pause_index _ env _
                (Post-bind _ _ env _ (
                  Post-mono (Post-known _ (run_program-Total (definition context.input) _ h))
                    (λ exit w1 k. Post-bind _ _ env w1 (
                      Post-now env w1 (
                        Post-bind _ _ env w1 (
                          Post-bind _ _ env w1 (
                            Post-get Key.completed_steps _ env w1
                              (Post-pure _ env w1 (
                                Post-mono (handle_exit-IsResult exit _ _ w1 k.0)
                                  (λ result w' p. (
                                    p.0,
                                    record { exit = exit; run = k.1; is_result = rw k.2 p.1 },
                                  ))
                                  (λ e w' n. n)))
                              (λ _ f. f reliable))))))
                    (λ e w' n. n)))
                (λ _ f. f reliable)))
            (λ _ f. f reliable))))

  pub execute-Ends :
      (definition : Option Unknown → Program) (context : ExecutionContext) (w : World)
      → HasControl c w.store
      → Post (Ends definition context.input w) Never (execute definition context env w)
  unfolding execute
  execute-Ends definition context w h =
      Post-catch _ _ env w (execute_body-Ends definition context w h) (λ e w' n. absurd n)

  -- With a storage that does not fail, a run of any workflow ends in a result, never in an error: the
  -- status and the rest of what the run may not touch are as they were, and where the result is a
  -- pause the alarm stands at its time.
  pub execute-Total :
      (definition : Option Unknown → Program) (context : ExecutionContext) (w : World)
      → HasControl c w.store
      → Post Produces Never (execute definition context env w)
  execute-Total definition context w h =
      Post-mono (execute-Ends definition context w h) (λ result w' k. k.0) (λ e w' n. n)
