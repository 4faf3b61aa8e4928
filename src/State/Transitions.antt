-- ===== src/State/Transitions.antt =====
-- packages/workflow/src/state/transitions.ts: the matrix of allowed transitions and its tests.
use durable_effect.Prelude.{Bool, true, false, List, [], ◌∷◌, includes_by, length, ◌==◌}
use durable_effect.State.{StatusTag, TransitionTag}

-- `===` on the tags of transitions
abbrev pub same_transition : TransitionTag → TransitionTag → Bool
same_transition TransitionTag.start TransitionTag.start = true
same_transition TransitionTag.queue TransitionTag.queue = true
same_transition TransitionTag.resume TransitionTag.resume = true
same_transition TransitionTag.recover TransitionTag.recover = true
same_transition TransitionTag.complete TransitionTag.complete = true
same_transition TransitionTag.pause TransitionTag.pause = true
same_transition TransitionTag.fail TransitionTag.fail = true
same_transition TransitionTag.cancel TransitionTag.cancel = true
same_transition _ _ = false

unfoldable pub valid_transitions : StatusTag → List TransitionTag
valid_transitions StatusTag.pending = TransitionTag.start ∷ TransitionTag.queue ∷ []
valid_transitions StatusTag.queued = TransitionTag.start ∷ TransitionTag.cancel ∷ []
valid_transitions StatusTag.running =
    TransitionTag.complete ∷ TransitionTag.pause ∷ TransitionTag.fail ∷ TransitionTag.cancel
    ∷ TransitionTag.recover ∷ []
valid_transitions StatusTag.paused =
    TransitionTag.resume ∷ TransitionTag.cancel ∷ TransitionTag.recover ∷ []
valid_transitions StatusTag.completed = []
valid_transitions StatusTag.failed = []
valid_transitions StatusTag.cancelled = []

unfoldable pub is_valid_transition : StatusTag → TransitionTag → Bool
unfolding valid_transitions
is_valid_transition from_status transition =
    includes_by same_transition transition (valid_transitions from_status)

unfoldable pub get_valid_transitions : StatusTag → List TransitionTag
unfolding valid_transitions
get_valid_transitions from_status = valid_transitions from_status

unfoldable pub is_terminal_status : StatusTag → Bool
unfolding valid_transitions
is_terminal_status status = length (valid_transitions status) == 0

unfoldable pub is_recoverable_status : StatusTag → Bool
unfolding valid_transitions
is_recoverable_status status =
    includes_by same_transition TransitionTag.recover (valid_transitions status)
