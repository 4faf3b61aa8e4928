-- ===== src/Machine/Apply.antt =====
-- What `applyTransition` accepts, what it writes, and where a workflow can go.
use durable_effect.Prelude.{
  ℕ, ◌≡◌, refl, ◌⊎◌, inl, inr, Bool, true, false, Option, none, some, arith,
}
use durable_effect.State.{
  WorkflowStatus, WorkflowTransition, StatusTag, TransitionTag, status_tag, transition_tag,
}
use durable_effect.State.Transitions.{is_valid_transition}
use durable_effect.Errors.{Error, Key}
use durable_effect.Program.{Result, ok}
use durable_effect.World.{Env, World, IsReliable, ◌>>=◌}
use durable_effect.World.Storage.{now}
use durable_effect.World.Outcomes.{
  Post, Post-if, Post-pure, Post-raise, Post-bind, Post-mono, Post-now, Post-get, Post-put,
}
use durable_effect.World.Reliable.{get-reliable, put-reliable}
use durable_effect.Machine.{
  apply_transition, apply_transition_to_status, get_status, validate, is_first,
}

-- The edges of the lifecycle: from nothing or from a status, by a transition, to a status.
pub data Edge : Option StatusTag → TransitionTag → StatusTag → Type 0 where
  create : Edge none TransitionTag.start StatusTag.running
  create_queued : Edge none TransitionTag.queue StatusTag.queued
  begin : Edge (some StatusTag.pending) TransitionTag.start StatusTag.running
  enqueue : Edge (some StatusTag.pending) TransitionTag.queue StatusTag.queued
  dequeue : Edge (some StatusTag.queued) TransitionTag.start StatusTag.running
  drop_queued : Edge (some StatusTag.queued) TransitionTag.cancel StatusTag.cancelled
  finish : Edge (some StatusTag.running) TransitionTag.complete StatusTag.completed
  suspend : Edge (some StatusTag.running) TransitionTag.pause StatusTag.paused
  give_up : Edge (some StatusTag.running) TransitionTag.fail StatusTag.failed
  drop_running : Edge (some StatusTag.running) TransitionTag.cancel StatusTag.cancelled
  restart : Edge (some StatusTag.running) TransitionTag.recover StatusTag.running
  wake : Edge (some StatusTag.paused) TransitionTag.resume StatusTag.running
  drop_paused : Edge (some StatusTag.paused) TransitionTag.cancel StatusTag.cancelled
  recover_paused : Edge (some StatusTag.paused) TransitionTag.recover StatusTag.running

ruleset edges = (
  create, create_queued, begin, enqueue, dequeue, drop_queued, finish, suspend, give_up,
  drop_running, restart, wake, drop_paused, recover_paused,
)

abbrev pub tag_of : Option WorkflowStatus → Option StatusTag
tag_of none = none
tag_of (some status) = some (status_tag status)

-- the status under the key after a call
abbrev pub status_after : {A : Type 0} → Result A × World → Option WorkflowStatus
status_after r = r.1.store.status

validate-Edge :
    (status : Option WorkflowStatus) (t : WorkflowTransition) (time : ℕ) (env : Env) (w : World)
    → (validate status t env w).0 ≡ ok tt
    → Edge (tag_of status) (transition_tag t) (status_tag (apply_transition_to_status t time))
unfolding validate is_valid_transition apply_transition_to_status
validate-Edge status t time env w h = grind (arith, edges)

-- the tests of `validate` on the tags
abbrev pub accepts : Option StatusTag → TransitionTag → Bool
unfolding is_valid_transition
accepts none t = is_first t
accepts (some s) t = is_valid_transition s t

Edge-accepts :
    {o : Option StatusTag} {t : TransitionTag} {tag : StatusTag} → Edge o t tag → accepts o t ≡ true
unfolding is_valid_transition
Edge-accepts create = refl
Edge-accepts _ = refl

abbrev pub Refusal : WorkflowTransition → Env → World → Error → World → Type 0
Refusal t env w e w' =
    (w' ≡ w) × ((accepts (tag_of w.store.status) (transition_tag t) ≡ false) ⊎ ¬ IsReliable env)

-- A validation that passes or fails changes nothing.
validate-Post :
    (status : Option WorkflowStatus) (t : WorkflowTransition) (env : Env) (w : World)
    → Post
        (λ _ w'. (w' ≡ w) × ((validate status t env w).0 ≡ ok tt))
        (λ _ w'. (w' ≡ w) × (accepts (tag_of status) (transition_tag t) ≡ false))
        (validate status t env w)
unfolding validate accepts
validate-Post none t env w =
    Post-if (is_first (transition_tag t)) _ _ env w (λ e. Post-pure _ env w (refl, rw e))
      (λ e. Post-raise _ env w (refl, e))
validate-Post (some s) t env w =
    Post-if (is_valid_transition (status_tag s) (transition_tag t)) _ _ env w
      (λ e. Post-pure _ env w (refl, rw e)) (λ e. Post-raise _ env w (refl, e))

-- the world with another status stored, and all else as it was
abbrev pub with_status : WorkflowStatus → World → World
with_status s w = record w { store = record w.store { status = some s } }

-- Whatever the storage does: an accepted transition follows an edge of the lifecycle, returns the
-- status that the transition makes at the present time, stores that status and changes nothing
-- else; a refused or failed one changes nothing at all.
pub apply_transition-Post :
    (t : WorkflowTransition) (env : Env) (w : World)
    → Post
        (λ s w'.
          Edge (tag_of w.store.status) (transition_tag t) (status_tag s)
          × (s ≡ apply_transition_to_status t w.current_time)
          × (w' ≡ with_status s w))
        (Refusal t env w)
        (apply_transition t env w)
unfolding apply_transition get_status
apply_transition-Post t env w = Post-bind _ _ env w (
    Post-get Key.status _ env w
      (Post-bind _ _ env w (
        Post-mono (validate-Post w.store.status t env w)
          (λ _ w' h. rw h.0 (
            Post-bind _ _ env w (
              Post-now env w (
                Post-bind _ _ env w (
                  Post-put Key.status _ env w
                    (Post-pure _ env _
                      (validate-Edge w.store.status t w.current_time env w h.1, refl, refl))
                    (λ _ f. (refl, inr f)))))))
          (λ _ w' h. (h.0, inl h.1))))
      (λ _ f. (refl, inr f)))

Edge-validate :
    (status : Option WorkflowStatus) (t : WorkflowTransition) (tag : StatusTag) (env : Env)
    (w : World)
    → Edge (tag_of status) (transition_tag t) tag
    → validate status t env w ≡ (ok tt, w)
unfolding validate is_valid_transition
Edge-validate none t tag env w h =
    let e : is_first (transition_tag t) ≡ true = Edge-accepts h in rw e
Edge-validate (some s) t tag env w h =
    let e : is_valid_transition (status_tag s) (transition_tag t) ≡ true = Edge-accepts h in rw e

-- With a storage that does not fail every edge of the lifecycle can be taken, and taking it is
-- what `apply_transition-Post` says.
pub Edge-apply_transition :
    (t : WorkflowTransition) (tag : StatusTag) (env : Env) (w : World)
    → IsReliable env
    → Edge (tag_of w.store.status) (transition_tag t) tag
    → let s = apply_transition_to_status t w.current_time in
      apply_transition t env w ≡ (ok s, with_status s w)
unfolding apply_transition get_status now ◌>>=◌
Edge-apply_transition t tag env w reliable h = simp (
  get-reliable env reliable,
  put-reliable env reliable,
  Edge-validate w.store.status t tag env w h,
)
