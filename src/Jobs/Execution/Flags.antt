-- ===== src/Jobs/Execution/Flags.antt =====
-- The flags of an execution's result, whether or not the platform fails.
use durable_effect.Prelude.{ℕ, ◌≡◌, refl, true, false, Option}
use durable_effect.State.{Unknown}
use durable_effect.Jobs.Errors.{JobError}
use durable_effect.Jobs.World.{JobWorld, JobEnv}
use durable_effect.Jobs.Outcomes.{
  Yields, Meets, Anything, Yields-pure, Yields-raise, Yields-if, Yields-catch_all, Yields-bind,
  Yields-then,
}
use durable_effect.Jobs.Execution.{
  ExecuteOptions, ExecutionResult, on_error, finish, is_success, execute_loaded, execute,
}

-- Exactly one of three: it succeeded, it is to be retried, or it was terminated.
pub data IsOneOf (r : ExecutionResult) : Type 0 where
  success :
      r.success ≡ true
      → r.retry_scheduled ≡ false
      → r.terminated ≡ false
      → r.retry_exhausted ≡ false
      → IsOneOf r
  retried :
      r.success ≡ false
      → r.retry_scheduled ≡ true
      → r.terminated ≡ false
      → r.retry_exhausted ≡ false
      → IsOneOf r
  terminated : r.success ≡ false → r.retry_scheduled ≡ false → r.terminated ≡ true → IsOneOf r

-- flags before the success has been decided
abbrev Raised : ExecutionResult → Type 0
Raised r = IsOneOf (record r { success = is_success r }) × (r.rescheduled ≡ false)

abbrev pub HasFlags : ExecutionResult → Type 0
HasFlags r = IsOneOf r × (r.rescheduled ≡ false)

on_error-Raised :
    (o : ExecuteOptions) (attempt : ℕ) (pre : Option Unknown) (e : JobError)
    → Yields Raised Anything (on_error o attempt pre e)
unfolding on_error
on_error-Raised o attempt pre (JobError.retry_scheduled_signal a b) =
    Yields-then _ _ (λ u. Yields-pure _ (IsOneOf.retried refl refl refl refl, refl))
on_error-Raised o attempt pre (JobError.terminate_signal a b) =
    Yields-then _ _ (λ u. Yields-pure _ (IsOneOf.terminated refl refl refl, refl))
on_error-Raised o attempt pre (JobError.retry_exhausted_signal a b c d e f g) =
    Yields-then _ _
      (λ u. Yields-then _ _ (λ v. Yields-pure _ (IsOneOf.terminated refl refl refl, refl)))
on_error-Raised o attempt pre _ = Yields-then _ _ (λ u. Yields-then _ _ (λ v. Yields-raise _ tt))

finish-HasFlags :
    (o : ExecuteOptions) (start attempt : ℕ) (pre : Option Unknown) (r : ExecutionResult)
    → Raised r
    → Yields HasFlags Anything (finish o start attempt pre r)
unfolding finish
finish-HasFlags o start attempt pre r h =
    Yields-then _ _ (λ a. Yields-then _ _ (λ b. Yields-then _ _ (λ c. Yields-pure _ h)))

execute_loaded-HasFlags :
    (o : ExecuteOptions) (start : ℕ) (loaded : Option Unknown)
    → Yields HasFlags Anything (execute_loaded o start loaded)
unfolding execute_loaded
execute_loaded-HasFlags o start loaded = Yields-then _ _ (λ a. Yields-then _ _ (λ attempt.
    Yields-then _ _ (λ id.
      Yields-bind _ _
        (Yields-catch_all {F = Anything} _ _
          (Yields-then _ _ (λ u. Yields-pure _ (IsOneOf.success refl refl refl refl, refl)))
          (λ e h. on_error-Raised o attempt _ e))
        (λ r h. finish-HasFlags o start attempt _ r h))))

-- Whatever the body does, and whether or not the platform fails: where an execution gives a result
-- at all, it says exactly one of three, that the run succeeded, that a retry is scheduled, or that
-- the instance was terminated; it never says that the run was rescheduled.
pub execute-HasFlags :
    (o : ExecuteOptions) (env : JobEnv) (w : JobWorld) → Meets HasFlags Anything (execute o env w).0
unfolding execute
execute-HasFlags o env w =
    let k : Yields HasFlags Anything (execute o) = Yields-then _ _ (λ start. Yields-then _ _ (λ id.
      Yields-then _ _ (λ loaded.
        Yields-if _ _ _ (execute_loaded-HasFlags o start loaded)
          (Yields-pure _ (IsOneOf.terminated refl refl refl, refl))))) in
    k.at env w
