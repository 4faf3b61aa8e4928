-- ===== src/Machine/Recoverability.antt =====
-- `checkRecoverability` against what it decides.
use durable_effect.Prelude.{
  ℕ, ◌+◌, ◌≤◌, String, ◌≡◌, refl, ◌↔◌, true, false, Option, none, some, arith, leb,
}
use durable_effect.State.{PauseReason, WorkflowStatus}
use durable_effect.State.Transitions.{is_terminal_status, is_recoverable_status}
use durable_effect.Errors.{Key}
use durable_effect.World.{Env, World}
use durable_effect.World.Outcomes.{
  Post, Post-if, Post-pure, Post-bind, Post-get, Post-now, Unchanged,
}
use durable_effect.Machine.{
  RecoverabilityInfo, get_status, recoverability, recoverability_of, paused_recoverability,
  check_recoverability,
}

-- Running for the threshold or longer, or paused with a resume time on record.
pub data NeedsRecovery (stale_threshold_ms time : ℕ) (pending : Option ℕ)
    : Option WorkflowStatus → Type 0 where
  stale :
      {running_at : ℕ}
      → running_at + stale_threshold_ms ≤ time
      → NeedsRecovery stale_threshold_ms time pending (some (WorkflowStatus.running running_at))
  waiting :
      {reason : PauseReason} {resume_at : ℕ} {step_name : Option String} (at : ℕ)
      → pending ≡ some at
      → NeedsRecovery stale_threshold_ms time pending
          (some (WorkflowStatus.paused reason resume_at step_name))

module _ (stale_threshold_ms : ℕ) (env : Env) (w : World) where
  abbrev Needs : Option WorkflowStatus → Type 0
  Needs = NeedsRecovery stale_threshold_ms w.current_time w.store.pending_resume_at

  abbrev pub Decides : Option WorkflowStatus → RecoverabilityInfo → World → Type 0
  Decides status info w' = ((info.can_recover ≡ true) ↔ Needs status) × (w' ≡ w)

  not_stale :
      (running_at : ℕ)
      → leb (running_at + stale_threshold_ms) w.current_time ≡ false
      → ¬ Needs (some (WorkflowStatus.running running_at))
  not_stale r e (stale h) = ground arith

  not_waiting :
      {reason : PauseReason} {resume_at : ℕ} {step_name : Option String}
      → w.store.pending_resume_at ≡ none
      → ¬ Needs (some (WorkflowStatus.paused reason resume_at step_name))
  not_waiting e (waiting at h) = cc

  paused-Decides :
      (reason : PauseReason) (resume_at : ℕ) (step_name : Option String) (o : Option ℕ)
      → w.store.pending_resume_at ≡ o
      → Post
          (Decides (some (WorkflowStatus.paused reason resume_at step_name)))
          (Unchanged env w)
          (paused_recoverability o env w)
  unfolding paused_recoverability
  paused-Decides reason at name none e =
      Post-pure _ env w ((λ c. cc, λ h. absurd (not_waiting e h)), refl)
  paused-Decides reason at name (some time) e =
      Post-pure _ env w ((λ c. waiting time e, λ h. refl), refl)

  recoverability-Decides :
      (status : Option WorkflowStatus)
      → Post (Decides status) (Unchanged env w) (recoverability stale_threshold_ms status env w)
  unfolding recoverability recoverability_of is_terminal_status is_recoverable_status
  recoverability-Decides none = Post-pure _ env w ((λ e. cc, λ h. elim h [ ]), refl)
  recoverability-Decides (some (WorkflowStatus.running r)) = Post-bind _ _ env w (
      Post-now env w (
        Post-if _ _ _ env w (λ e. Post-pure _ env w ((λ _. stale (ground arith), λ _. refl), refl))
          (λ e. Post-pure _ env w ((λ c. cc, λ h. absurd (not_stale r e h)), refl))))
  recoverability-Decides (some (WorkflowStatus.paused reason at name)) = Post-bind _ _ env w (
      Post-get Key.pending_resume_at _ env w
        (paused-Decides reason at name w.store.pending_resume_at refl) (λ _ f. (refl, f)))
  recoverability-Decides (some _) = Post-pure _ env w ((λ e. cc, λ h. elim h [ ]), refl)

  -- `checkRecoverability` reads and changes nothing, and answers `canRecover` exactly for a workflow
  -- that has been running for the threshold or longer, or is paused with a resume time on record.
  -- It fails only with a failing storage, and then changes nothing either.
  pub check_recoverability-Decides :
      Post
        (Decides w.store.status)
        (Unchanged env w)
        (check_recoverability stale_threshold_ms env w)
  unfolding check_recoverability get_status
  check_recoverability-Decides =
      Post-bind _ _ env w
        (Post-get Key.status _ env w (recoverability-Decides w.store.status) (λ _ f. (refl, f)))
