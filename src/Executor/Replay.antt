-- ===== src/Executor/Replay.antt =====
-- The replay of a body of steps: what the alarm's run from the beginning does with the steps that an
-- earlier run has completed. The storage does not fail.
use durable_effect.Prelude.{
  ℕ, String, ◌≡◌, refl, ap, ◌∙◌, ◌≢◌, true, false, Bool-cases, inl, inr, some, or_else, str_eq,
  eq_iff,
}
use durable_effect.State.{Unknown}
use durable_effect.Program.{Result, ok, Program, done, success, StepConfig}
use durable_effect.World.{Env, World, IsReliable, result_of, ◌>>=◌}
use durable_effect.World.Outcomes.{Post-world, Post-ok}
use durable_effect.Step
use durable_effect.Step.Cache.{Stores, step-cached, step-flag, step-Leaves}
use durable_effect.Step.Isolation.{Elsewhere, step-elsewhere}
use durable_effect.Executor.{run_program}
use durable_effect.Executor.Frame.{Control, control, step-Keeps}

module _ (env : Env) (reliable : IsReliable env) where
  -- The body has come to its end at the second world, and every step on the way has succeeded.
  pub data Completes : Program → World → World → Unknown → Type 0 where
    ends : {v : Unknown} {w : World} → Completes (done v) w w v
    passes :
        {config : StepConfig} {next : Result Unknown → Program} {w w' : World} {x v : Unknown}
        → (Step.step config env w).0 ≡ ok x
        → Completes (next (ok x)) (Step.step config env w).1 w' v
        → Completes (Program.step config next) w w' v

  abbrev RunsOn : World → Type 0
  RunsOn w = or_else w.store.cancelled false ≡ false

  step-flag_kept : (config : StepConfig) (w : World) → RunsOn w → RunsOn (Step.step config env w).1
  step-flag_kept config w h =
      let kept : control (Step.step config env w).1.store ≡ control w.store =
        Post-world _ ((step-Keeps (control w.store) config).at env w refl) in
      ap (λ (c : Control). or_else c.cancelled false) kept ∙ h

  -- a stored result stays through every later step
  step-Stores :
      (config : StepConfig) (name : String) (v : Unknown) (w : World)
      → RunsOn w
      → Stores name v w.store
      → Stores name v (Step.step config env w).1.store
  step-Stores config name v w h s = elim (Bool-cases (str_eq config.name name)) [
    | inl e ↦
        let same : config.name ≡ name = (eq_iff config.name name).0 e in
        let (r, stored, value) = s in
        let found : w.store.step_result config.name ≡ some r = rw same stored in
        rw (step-cached config env reliable w r h found) (r, stored, value)
    | inr e ↦
        let other : config.name ≢ name = λ same.
          let equal : str_eq config.name name ≡ true = (eq_iff config.name name).1 same in cc in
        let (r, stored, value) = s in
        let kept = step-elsewhere config name env w other in
        (r, ap (λ (x : Elsewhere). x.result) kept ∙ stored, value)
  ]

  Completes-Stores :
      (name : String) (x : Unknown) {p : Program} {w w' : World} {v : Unknown}
      → Completes p w w' v
      → RunsOn w
      → Stores name x w.store
      → RunsOn w' × Stores name x w'.store
  Completes-Stores name x ends h s = (h, s)
  Completes-Stores name x (passes {config} {w} e rest) h s =
      Completes-Stores name x rest (step-flag_kept config w h) (step-Stores config name x w h s)

  -- With a storage that does not fail, a body of steps that have all succeeded gives the same
  -- output when it is run again from its beginning, at any time: every step, of any number and with
  -- any names, answers from the storage, no effect is run again, nothing is written and no event is
  -- emitted.
  pub run_program_replay :
      {p : Program} {w w' : World} {v : Unknown} (time : ℕ)
      → Completes p w w' v
      → let w'' = record w' { current_time = time } in run_program p env w'' ≡ (ok (success v), w'')
  unfolding run_program result_of ◌>>=◌
  run_program_replay time ends = refl
  run_program_replay {w'} time (passes {config} {w} {x} e rest) =
      let on = step-flag config env reliable w x e in
      let left = Post-ok _ x ((step-Leaves config).yields env w) e in
      let (on', (r, stored, value)) =
        Completes-Stores config.name x rest (step-flag_kept config w on) left in
      let again : Step.step config env (record w' { current_time = time })
          ≡ (ok x, record w' { current_time = time }) =
        step-cached config env reliable (record w' { current_time = time }) r on' stored
        ∙ ap {A = Unknown} (λ y. (ok y, record w' { current_time = time })) value in
      rw again (run_program_replay time rest)
