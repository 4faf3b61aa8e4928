-- ===== src/Orchestrator/Cancel.antt =====
-- `cancel` on a storage that does not fail: what each status leads to.
use durable_effect.Prelude.{ℕ, String, ◌≡◌, refl, true, false, Option, none, some, List, []}
use durable_effect.State.{
  WorkflowStatus, WorkflowTransition, WorkflowState, StatusTag, TransitionTag, status_tag,
}
use durable_effect.Errors.{Key}
use durable_effect.World.{Env, World, Store, IsReliable, pure, ◌>>◌}
use durable_effect.World.Outcomes.{
  Post, Post-pure, Post-bind, Post-then, Post-mono, Post-catch, Post-unschedule, Post-emit_event,
  Post-get,
}
use durable_effect.World.Reliable.{get-reliable, list-reliable}
use durable_effect.Machine.{
  get_status, get_state, get_completed_steps, set_cancelled, apply_transition_to_status,
}
use durable_effect.Machine.Apply.{Edge, drop_queued, drop_paused, tag_of, Edge-apply_transition}
use durable_effect.Machine.Progress.{with_cancelled, set_cancelled-reliable}
use durable_effect.Executor.Total.{Never}
use durable_effect.Orchestrator.{
  CancelResult, not_found, already_terminal, cancel, cancel_status, cancel_now, emit_cancelled,
}

abbrev pub accepted : StatusTag → CancelResult
accepted tag = record { cancelled = true; reason = none; previous_status = some tag }

-- the answer to a request, by the status
abbrev pub answer : Option WorkflowStatus → CancelResult
answer none = record { cancelled = false; reason = some not_found; previous_status = none }
answer (some (WorkflowStatus.completed _)) = record {
  cancelled = false;
  reason = some already_terminal;
  previous_status = some StatusTag.completed;
}
answer (some (WorkflowStatus.failed _ _)) = record {
  cancelled = false;
  reason = some already_terminal;
  previous_status = some StatusTag.failed;
}
answer (some (WorkflowStatus.cancelled _ _)) = record {
  cancelled = false;
  reason = some already_terminal;
  previous_status = some StatusTag.cancelled;
}
answer (some s) = accepted (status_tag s)

-- the storage after a request: a workflow that waits is cancelled at once, one that is under way or
-- not started has its flag set, and any other is left alone
abbrev pub store_after : Option String → World → Option WorkflowStatus → Store
store_after reason w (some (WorkflowStatus.queued _)) = record (with_cancelled reason w).store {
  status = some (WorkflowStatus.cancelled w.current_time reason);
}
store_after reason w (some (WorkflowStatus.paused _ _ _)) = record (with_cancelled reason w).store {
  status = some (WorkflowStatus.cancelled w.current_time reason);
}
store_after reason w (some (WorkflowStatus.running _)) = (with_cancelled reason w).store
store_after reason w (some WorkflowStatus.pending) = (with_cancelled reason w).store
store_after reason w _ = w.store

-- the alarm after a request: that of a workflow that waited is off
abbrev pub alarm_after_cancel : World → Option WorkflowStatus → Option ℕ
alarm_after_cancel w (some (WorkflowStatus.queued _)) = none
alarm_after_cancel w (some (WorkflowStatus.paused _ _ _)) = none
alarm_after_cancel w _ = w.scheduled_time

module _ (reason : Option String) (env : Env) (reliable : IsReliable env) (w : World) where
  abbrev pub Answers : Option WorkflowStatus → CancelResult → World → Type 0
  Answers status r w' =
      (r ≡ answer status)
      × (w'.store ≡ store_after reason w status)
      × (w'.scheduled_time ≡ alarm_after_cancel w status)
      × (w'.current_time ≡ w.current_time)

  Emits : List String → Option WorkflowState → World → Type 0
  Emits steps state w' =
      Post
        (λ _ w''.
          (w''.store ≡ w'.store)
          × (w''.scheduled_time ≡ w'.scheduled_time)
          × (w''.current_time ≡ w'.current_time))
        Never (emit_cancelled reason steps state env w')

  emit_cancelled-Emits :
      (steps : List String) (state : Option WorkflowState) (w' : World) → Emits steps state w'
  unfolding Emits emit_cancelled
  emit_cancelled-Emits steps none w' = Post-pure _ env w' (refl, refl, refl)
  emit_cancelled-Emits steps (some state) w' =
      Post-emit_event _ _ _ env w' (λ _. (refl, refl, refl))

  abbrev Dropped : StatusTag → CancelResult → World → Type 0
  Dropped tag r w' =
      (r ≡ accepted tag)
      × (w'.store ≡ record (with_cancelled reason w).store {
        status = some (WorkflowStatus.cancelled w.current_time reason);
      })
      × (w'.scheduled_time ≡ none)
      × (w'.current_time ≡ w.current_time)

  cancel_now-Dropped :
      (tag : StatusTag)
      → ((steps : List String)
          → Edge (tag_of w.store.status) TransitionTag.cancel StatusTag.cancelled)
      → Post (Dropped tag) Never (cancel_now reason tag env (with_cancelled reason w))
  unfolding cancel_now get_completed_steps apply_transition_to_status get_state Emits
  cancel_now-Dropped tag edge = Post-bind _ _ env _ (
      Post-bind _ _ env _ (
        Post-get Key.completed_steps _ env _
          (Post-pure _ env _ (
            Post-then _ _ env _ _ _
              (Edge-apply_transition (WorkflowTransition.cancel reason _) _ env _ reliable
                (edge []))
              (Post-bind _ _ env _ (
                Post-then _ _ env _ _ _ (list-reliable env reliable _) (
                  Post-pure _ env _ (
                    Post-bind _ _ env _ (
                      Post-mono (emit_cancelled-Emits _ _ _)
                        (λ _ w' k.
                          Post-bind _ _ env w'
                            (Post-unschedule env w' (Post-pure _ env _ (refl, k.0, refl, k.2))))
                        (λ _ _ n. n))))))))
          (λ _ f. f reliable)))

  dropped :
      (status : WorkflowStatus)
      → w.store.status ≡ some status
      → Edge (some (status_tag status)) TransitionTag.cancel StatusTag.cancelled
      → Post
          (Dropped (status_tag status))
          Never
          ((set_cancelled reason >> cancel_now reason (status_tag status)) env w)
  dropped status s edge =
      Post-then _ _ env w _ _ (set_cancelled-reliable reason env w reliable)
        (cancel_now-Dropped (status_tag status) (λ _. rw s edge))

  flagged :
      (status : WorkflowStatus)
      → Post
          (λ r w'. (r ≡ accepted (status_tag status)) × (w' ≡ with_cancelled reason w))
          Never
          ((set_cancelled reason >> pure (accepted (status_tag status))) env w)
  flagged status =
      Post-then _ _ env w _ _ (set_cancelled-reliable reason env w reliable)
        (Post-pure _ env _ (refl, refl))

  cancel_status-Answers :
      (status : Option WorkflowStatus)
      → w.store.status ≡ status
      → Post (Answers status) Never (cancel_status reason status env w)
  unfolding cancel_status
  cancel_status-Answers none s = Post-pure _ env w (refl, refl, refl, refl)
  cancel_status-Answers (some (WorkflowStatus.completed _)) s =
      Post-pure _ env w (refl, refl, refl, refl)
  cancel_status-Answers (some (WorkflowStatus.failed _ _)) s =
      Post-pure _ env w (refl, refl, refl, refl)
  cancel_status-Answers (some (WorkflowStatus.cancelled _ _)) s =
      Post-pure _ env w (refl, refl, refl, refl)
  cancel_status-Answers (some (WorkflowStatus.queued t)) s =
      dropped (WorkflowStatus.queued t) s drop_queued
  cancel_status-Answers (some (WorkflowStatus.paused a b c)) s =
      dropped (WorkflowStatus.paused a b c) s drop_paused
  cancel_status-Answers (some (WorkflowStatus.running t)) s =
      Post-mono (flagged (WorkflowStatus.running t)) (λ r w' k. (k.0, rw k.1, rw k.1, rw k.1))
        (λ _ _ n. n)
  cancel_status-Answers (some WorkflowStatus.pending) s =
      Post-mono (flagged WorkflowStatus.pending) (λ r w' k. (k.0, rw k.1, rw k.1, rw k.1))
        (λ _ _ n. n)

  -- With a storage that does not fail, a request to cancel always succeeds, and does by the status
  -- what the tables say: a queued or paused workflow is cancelled with the reason and its alarm
  -- goes off; a running or pending one gets the flag, with the reason if there is one, and keeps
  -- its status and its alarm; a finished or missing one is left as it is and the answer says so.
  pub cancel-Answers : Post (Answers w.store.status) Never (cancel reason env w)
  unfolding cancel get_status
  cancel-Answers =
      Post-catch _ _ env w
        (Post-then _ _ env w _ _ (get-reliable env reliable _ _ w) (cancel_status-Answers _ refl))
        (λ e w' n. absurd n)
