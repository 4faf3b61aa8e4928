-- ===== src/Machine/Progress.antt =====
-- The record of a workflow's progress: its first state, the list of completed steps, the counter
-- of recovery attempts and the cancellation flag.
use durable_effect.Prelude.{
  String, ◌≡◌, refl, Bool, true, false, not, ◌||◌, Option, none, some, List, [], arith, or_else,
  includes, includes-append, IsUnique, append-IsUnique, str_eq, non_empty, eq_iff,
}
use durable_effect.State.{Unknown, initial_workflow_state}
use durable_effect.Errors.{Key}
use durable_effect.Program.{ok}
use durable_effect.World.{Env, World, IsReliable, empty_store, ◌>>=◌, ◌>>◌}
use durable_effect.World.Outcomes.{
  Post, Post-if, Post-pure, Post-bind, Post-get, Post-put, Unchanged,
}
use durable_effect.World.Reliable.{get-reliable, put-reliable, put_batch-reliable, list-reliable}
use durable_effect.Machine.{
  get_state, state_of, initialize, initialized, mark_step_completed, set_cancelled,
  store_cancel_reason, is_cancelled,
}

-- the list under the key, as `steps ?? []` reads it
abbrev pub steps_of : World → List String
steps_of w = or_else w.store.completed_steps []

-- With a storage that does not fail, `getState` reads the initial state of types.ts after
-- `initialize` on an empty object.
pub get_state-initialize :
    (name : String) (input : Option Unknown) (id : Option String) (env : Env) (w : World)
    → IsReliable env
    → w.store ≡ empty_store
    → ((initialize name input id >> get_state) env w).0
      ≡ ok (some (initial_workflow_state name input id))
unfolding initialize initialized get_state state_of initial_workflow_state ◌>>=◌
get_state-initialize name input id env w reliable blank =
    simp (put_batch-reliable env reliable, list-reliable env reliable) (ground (arith, blank))

-- a member that is added again changes no test of membership
added_again :
    (has : String → Bool) (name other : String)
    → has name ≡ true
    → has other ≡ (has other || str_eq name other)
added_again has name other h = ground (arith, eq_iff name other)

not-eq_true : (b : Bool) → not b ≡ true → b ≡ false
not-eq_true b h = ground arith

not-eq_false : (b : Bool) → not b ≡ false → b ≡ true
not-eq_false b h = ground arith

-- `markStepCompleted` keeps the list free of duplicates and changes nothing else; afterwards the
-- list has the step, and of the others those that it had.
pub mark_step_completed-Post :
    (name : String) (env : Env) (w : World)
    → IsUnique (steps_of w)
    → Post
        (λ _ w'.
          IsUnique (steps_of w')
          × ((other : String)
              → includes other (steps_of w') ≡ (includes other (steps_of w) || str_eq name other))
          × (w'
              ≡ record w { store = record w.store { completed_steps = w'.store.completed_steps } }))
        (Unchanged env w)
        (mark_step_completed name env w)
unfolding mark_step_completed
mark_step_completed-Post name env w u = Post-bind _ _ env w (
    Post-get Key.completed_steps _ env w
      (Post-if (not (includes name (steps_of w))) _ _ env w
        (λ new.
          Post-put Key.completed_steps _ env w
            (
              append-IsUnique (steps_of w) name u (not-eq_true _ new),
              (λ other. includes-append other name (steps_of w)),
              refl,
            )
            (λ _ f. (refl, f)))
        (λ old. Post-pure _ env w (
          u,
          (λ other. added_again (λ x. includes x (steps_of w)) name other (not-eq_false _ old)),
          refl,
        )))
      (λ _ f. (refl, f)))

-- the second option where the first is none
abbrev pub or_old : Option String → Option String → Option String
or_old none old = old
or_old (some new) old = some new

pub store_cancel_reason-reliable :
    (reason : Option String) (env : Env) (w : World)
    → IsReliable env
    → store_cancel_reason reason env w ≡ (
      ok tt,
      record w { store = record w.store { cancel_reason = or_old reason w.store.cancel_reason } },
    )
unfolding store_cancel_reason
store_cancel_reason-reliable none env w reliable = refl
store_cancel_reason-reliable (some reason) env w reliable = put-reliable env reliable _ _ w

-- the world after a cancellation request has been recorded
abbrev pub with_cancelled : Option String → World → World
with_cancelled reason w = record w {
  store = record w.store {
    cancelled = some true;
    cancel_reason = or_old (non_empty reason) w.store.cancel_reason;
  };
}

pub set_cancelled-reliable :
    (reason : Option String) (env : Env) (w : World)
    → IsReliable env
    → set_cancelled reason env w ≡ (ok tt, with_cancelled reason w)
unfolding set_cancelled ◌>>=◌
set_cancelled-reliable reason env w reliable =
    rw (put-reliable env reliable) (store_cancel_reason-reliable _ env _ reliable)

-- `setCancelled` on a storage that does not fail: the flag that `isCancelled` reads is set, and the
-- reason is stored exactly when it is a text that is not empty; nothing else changes.
pub is_cancelled-set_cancelled :
    (reason : Option String) (env : Env) (w : World)
    → IsReliable env
    → (set_cancelled reason >> is_cancelled) env w ≡ (ok true, with_cancelled reason w)
unfolding is_cancelled ◌>>=◌
is_cancelled-set_cancelled reason env w reliable =
    rw (set_cancelled-reliable reason env w reliable) (rw (get-reliable env reliable))
