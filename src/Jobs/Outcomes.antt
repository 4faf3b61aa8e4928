-- ===== src/Jobs/Outcomes.antt =====
-- What holds of an effect's value and of its failure, whatever the world and whether or not the
-- platform fails: one rule for each way to build an effect.
use durable_effect.Prelude.{Bool, true, false, if◌then◌else◌}
use durable_effect.Jobs.Errors.{JobError}
use durable_effect.Jobs.World.{
  JobEnv, JobWorld, Eff, Outcome, ok, err, die, continue, handle, pure, raise, catch_all, ◌>>=◌,
}

-- A value meets `Q` and a failure meets `E`; of a defect nothing is said.
abbrev pub Meets : {A : Type 0} → (A → Type 0) → (JobError → Type 0) → Outcome A → Type 0
Meets Q E (ok a) = Q a
Meets Q E (err e) = E e
Meets Q E (die e) = Unit {0}

abbrev pub Anything : {A : Type 0} → A → Type 0
Anything a = Unit {0}

pub record Yields {A : Type 0} (Q : A → Type 0) (E : JobError → Type 0) (m : Eff A) : Type 0 where
  pub at : (env : JobEnv) (w : JobWorld) → Meets Q E (m env w).0

module _ {A : Type 0} {Q : A → Type 0} {E : JobError → Type 0} where
  pub Yields-pure : (a : A) → Q a → Yields Q E (pure a)
  Yields-pure a h = record { at = λ env w. h }

  pub Yields-raise : (e : JobError) → E e → Yields Q E (raise e)
  Yields-raise e h = record { at = λ env w. h }

  pub Yields-if :
      (b : Bool) (m n : Eff A) → Yields Q E m → Yields Q E n → Yields Q E (if b then m else n)
  Yields-if true m n h k = h
  Yields-if false m n h k = k

  Meets-catch :
      {F : JobError → Type 0} (r : Outcome A) (handler : JobError → Eff A) (env : JobEnv)
      (w : JobWorld)
      → Meets Q F r
      → ((e : JobError) → F e → Yields Q E (handler e))
      → Meets Q E (handle r handler env w).0
  Meets-catch (ok a) handler env w h k = h
  Meets-catch (err e) handler env w h k = (k e h).at env w
  Meets-catch (die e) handler env w h k = tt

  pub Yields-catch_all :
      {F : JobError → Type 0} (m : Eff A) (handler : JobError → Eff A)
      → Yields Q F m
      → ((e : JobError) → F e → Yields Q E (handler e))
      → Yields Q E (catch_all m handler)
  unfolding catch_all
  Yields-catch_all m handler h k = record {
    at = λ env w. Meets-catch (m env w).0 handler env (m env w).1 (h.at env w) k;
  }

module _ {A : Type 0} where
  Meets-Anything : (r : Outcome A) → Meets Anything Anything r
  Meets-Anything (ok a) = tt
  Meets-Anything (err e) = tt
  Meets-Anything (die e) = tt

  pub Yields-Anything : (m : Eff A) → Yields Anything Anything m
  Yields-Anything m = record { at = λ env w. Meets-Anything (m env w).0 }

module _ {A B : Type 0} {P : A → Type 0} {Q : B → Type 0} {E : JobError → Type 0} where
  Meets-bind :
      (r : Outcome A) (f : A → Eff B) (env : JobEnv) (w : JobWorld)
      → Meets P E r
      → ((a : A) → P a → Yields Q E (f a))
      → Meets Q E (continue r f env w).0
  Meets-bind (ok a) f env w h k = (k a h).at env w
  Meets-bind (err e) f env w h k = h
  Meets-bind (die e) f env w h k = tt

  pub Yields-bind :
      (m : Eff A) (f : A → Eff B)
      → Yields P E m
      → ((a : A) → P a → Yields Q E (f a))
      → Yields Q E (m >>= f)
  unfolding ◌>>=◌
  Yields-bind m f h k = record {
    at = λ env w. Meets-bind (m env w).0 f env (m env w).1 (h.at env w) k;
  }

-- the value of an effect that follows any other
pub Yields-then :
    {A B : Type 0} {Q : B → Type 0} (m : Eff A) (f : A → Eff B)
    → ((a : A) → Yields Q Anything (f a))
    → Yields Q Anything (m >>= f)
Yields-then m f k = Yields-bind m f (Yields-Anything m) (λ a h. k a)
