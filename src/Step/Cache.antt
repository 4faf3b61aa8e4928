-- ===== src/Step/Cache.antt =====
-- What a step leaves in the storage when it succeeds, and what a later run of the workflow finds.
use durable_effect.Prelude.{
  ℕ, String, ◌≡◌, refl, ap, ◌∙◌, inl, inr, Bool, true, false, Option, none, some, Option-cases,
  if◌then◌else◌, or_else, update_self,
}
use durable_effect.State.{Unknown}
use durable_effect.Errors.{Error}
use durable_effect.Program.{Result, ok, err, RetryConfig, StepConfig}
use durable_effect.World.{Env, World, Store, Action, CachedStepResult, IsReliable, raise, ◌>>=◌}
use durable_effect.World.Outcomes.{
  Post, Post-pure, Post-raise, Post-bind, Post-get, Post-put, Post-mono, Post-ok, Post-world,
  Post-emit_event,
}
use durable_effect.World.Reliable.{get-reliable}
use durable_effect.World.Keeps.{Keeps, keeps_rules}
use durable_effect.Machine.{mark_step_completed}
use durable_effect.Context.{workflow_name, execution_id}
use durable_effect.Executor.Frame.{Control, control, step-Keeps}
use durable_effect.StepContext
use durable_effect.Step.{
  StepCall, step, cached_or_run, run_step, conclude, cache_result, handle_failure, handle_retryable,
  schedule_retry,
}

abbrev pub Any : Error → World → Type 0
Any e w = Unit

-- a result that is stored for the step
abbrev pub Stores : String → Unknown → Store → Type 0
Stores name v s = (r : CachedStepResult) × (s.step_result name ≡ some r) × (r.value ≡ v)

module _ {A : Type 0} where
  ends_somehow : (r : Result A) (w : World) → Post (λ _ _. Unit) Any (r, w)
  ends_somehow (ok a) w = record { ends = tt }
  ends_somehow (err e) w = record { ends = tt }

-- An action whose successes meet the predicate; nothing is said of its failures.
pub record Yields {A : Type 0} (Q : A → World → Type 0) (m : Action A) : Type 0 where
  pub yields : (env : Env) (w : World) → Post Q Any (m env w)

module _ {B : Type 0} {Q : B → World → Type 0} where
  Yields-raise : (e : Error) → Yields Q (raise e)
  Yields-raise e = record { yields = λ env w. Post-raise e env w tt }

  Yields-if : (b : Bool) (m n : Action B) → Yields Q m → Yields Q n → Yields Q (if b then m else n)
  Yields-if true m n h k = h
  Yields-if false m n h k = k

module _ {A B : Type 0} {Q : B → World → Type 0} where
  -- only the last part of a sequence decides
  Yields-bind : (m : Action A) (f : A → Action B) → ((a : A) → Yields Q (f a)) → Yields Q (m >>= f)
  Yields-bind m f k = record {
    yields = λ env w. Post-bind m f env w (
        Post-mono (ends_somehow (m env w).0 (m env w).1) (λ a w' _. (k a).yields env w')
          (λ _ _ _. tt));
  }

ruleset yields_rules = (Yields-raise, Yields-if, Yields-bind)

mark-Keeps-result :
    (name step_name : String) (v : Unknown) → Keeps (Stores step_name v) (mark_step_completed name)
unfolding mark_step_completed
mark-Keeps-result name step_name v = search keeps_rules depth 8

abbrev pub Leaves : String → Unknown → World → Type 0
Leaves name v w = Stores name v w.store

cache_result-Leaves :
    (c : StepCall) (v : Unknown) → Yields (Leaves c.config.name) (cache_result c v)
unfolding cache_result StepContext.set_result
cache_result-Leaves c v = Yields-bind _ _ (λ t. Yields-bind _ _ (λ a. record {
  yields = λ env w. Post-bind _ _ env w (
      Post-put _ _ env w
        (Post-bind _ _ env _ (
          Post-mono
            ((mark-Keeps-result c.config.name c.config.name v).at env _
              (_, update_self w.store.step_result c.config.name _, refl))
            (λ _ w' h.
              Post-bind _ _ env w' (Post-emit_event _ _ _ env w' (λ _. Post-pure v env _ h)))
            (λ _ _ _. tt)))
        (λ _ _. tt));
}))

handle_retryable-Leaves :
    (r : RetryConfig) (name : String) (c : StepCall) (e : Error)
    → Yields (Leaves name) (handle_retryable r c e)
unfolding handle_retryable schedule_retry
handle_retryable-Leaves r name c e = search yields_rules depth 10

handle_failure-Leaves :
    (r : Option RetryConfig) (name : String) (c : StepCall) (e : Error)
    → Yields (Leaves name) (handle_failure r c e)
unfolding handle_failure
handle_failure-Leaves r name c (Error.pause_signal s) = Yields-raise _
handle_failure-Leaves r name c (Error.step_scope_error o n) = Yields-raise _
handle_failure-Leaves none name c e = search yields_rules depth 6
handle_failure-Leaves (some r) name c e = handle_retryable-Leaves r name c e

conclude-Leaves : (c : StepCall) (r : Result Unknown) → Yields (Leaves c.config.name) (conclude c r)
unfolding conclude
conclude-Leaves c (ok v) = cache_result-Leaves c v
conclude-Leaves c (err e) = handle_failure-Leaves c.config.retry c.config.name c e

run_step-Leaves :
    (config : StepConfig) (name : String) (id : Option String)
    → Yields (Leaves config.name) (run_step config name id)
unfolding run_step
run_step-Leaves config name id = Yields-bind _ _ (λ t. Yields-bind _ _ (λ s. Yields-bind _ _ (λ a.
    Yields-bind _ _ (λ _.
      Yields-bind _ _ (λ _. Yields-bind _ _ (λ _. Yields-bind _ _ (λ o. conclude-Leaves _ o)))))))

cached_or_run-Leaves :
    (config : StepConfig) (name : String) (id : Option String) (o : Option CachedStepResult)
    (env : Env) (w : World)
    → w.store.step_result config.name ≡ o
    → Post (Leaves config.name) Any (cached_or_run config name id o env w)
unfolding cached_or_run
cached_or_run-Leaves config name id none env w e = (run_step-Leaves config name id).yields env w
cached_or_run-Leaves config name id (some r) env w e = Post-pure _ env w (r, e, refl)

-- A step that succeeds leaves its result in the storage, whatever the storage does on the way.
pub step-Leaves : (config : StepConfig) → Yields (Leaves config.name) (step config)
unfolding step StepContext.get_result
step-Leaves config = Yields-bind _ _ (λ c. Yields-if _ _ _ (Yields-raise _) (
    Yields-bind _ _ (λ name. Yields-bind _ _ (λ id. record {
      yields = λ env w.
          Post-bind _ _ env w
            (Post-get _ _ env w (cached_or_run-Leaves config name id _ env w refl) (λ _ _. tt));
    }))))

module _ (config : StepConfig) (env : Env) (reliable : IsReliable env) where
  abbrev pub flag : World → Bool
  flag w = or_else w.store.cancelled false

  -- With a storage that does not fail, a step of a workflow whose cancellation flag is set fails
  -- with that and does nothing, neither the effect nor a write nor an event.
  pub step-cancelled :
      (w : World)
      → w.store.cancelled ≡ some true
      → step config env w ≡ (err (Error.step_cancelled config.name), w)
  unfolding step ◌>>=◌
  step-cancelled w h = simp (get-reliable env reliable, h)

  pub step-cached :
      (w : World) (r : CachedStepResult)
      → flag w ≡ false
      → w.store.step_result config.name ≡ some r
      → step config env w ≡ (ok r.value, w)
  unfolding step cached_or_run workflow_name execution_id StepContext.get_result ◌>>=◌
  step-cached w r c s = simp (get-reliable env reliable, c, s)

  pub step-flag : (w : World) (v : Unknown) → (step config env w).0 ≡ ok v → flag w ≡ false
  step-flag w v h = elim (Option-cases w.store.cancelled) [
    | inl e ↦ rw e
    | inr (true, e) ↦ let f = step-cancelled w e in cc
    | inr (false, e) ↦ rw e
  ]

  stored-replay :
      (w : World) (v : Unknown) (time : ℕ)
      → flag w ≡ false
      → Leaves config.name v w
      → let w' = record w { current_time = time } in step config env w' ≡ (ok v, w')
  stored-replay w v time c (r, s, e) =
      step-cached (record w { current_time = time }) r c s
      ∙ ap {A = Unknown} (λ x. (ok x, record w { current_time = time })) e

  -- With a storage that does not fail, a step that has succeeded gives the same value when the body
  -- reaches it again, at any time, and does nothing more: its effect is not run again, nothing is
  -- written and no event is emitted.
  pub step_replay :
      (w : World) (v : Unknown) (time : ℕ)
      → (step config env w).0 ≡ ok v
      → let w' = record (step config env w).1 { current_time = time } in
        step config env w' ≡ (ok v, w')
  step_replay w v time h =
      let kept : control (step config env w).1.store ≡ control w.store =
        Post-world _ ((step-Keeps (control w.store) config).at env w refl) in
      let same : flag (step config env w).1 ≡ flag w =
        ap (λ (c : Control). or_else c.cancelled false) kept in
      stored-replay (step config env w).1 v time (same ∙ step-flag w v h)
        (Post-ok _ v ((step-Leaves config).yields env w) h)
