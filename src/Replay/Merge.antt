-- ===== src/Replay/Merge.antt =====
-- Merging adjacent messages that call tools neither drops, adds, changes nor reorders calls.
use cursor_byok_lite.Prelude.{
  ℕ, suc, ◌≡◌, refl, sym, ap, ◌∙◌, List, [], ◌∷◌, ◌++◌, inl, inr, length, append_assoc, append-nil,
  Bool-cases,
}
use cursor_byok_lite.Prelude.Int.{pos}
use cursor_byok_lite.ToolCallId.{ToolCallDescriptor}
use cursor_byok_lite.Replay.{
  Message, renumbered, can_merge_replay_assistant_tool_calls, merged, merge_replay_reasoning,
}
use cursor_byok_lite.Replay.Gathering.{metadata_keeps}
use cursor_byok_lite.Replay.Sequence.{merge_replay_assistant_tool_calls, merge_messages}

-- The calls of some messages in order, each without its place in its message.
pub calls_in : List ToolCallDescriptor → List ToolCallDescriptor
calls_in [] = []
calls_in (call ∷ calls) = record call { index = pos 0 } ∷ calls_in calls

pub calls_of : List Message → List ToolCallDescriptor
calls_of [] = []
calls_of (message ∷ messages) = calls_in message.tool_calls ++ calls_of messages

calls_in-append : (a b : List ToolCallDescriptor) → calls_in (a ++ b) ≡ calls_in a ++ calls_in b
unfolding calls_in
calls_in-append [] b = refl
calls_in-append (call ∷ a) b = ap (λ r. record call { index = pos 0 } ∷ r) (calls_in-append a b)

calls_in-renumbered :
    (n : ℕ) (calls : List ToolCallDescriptor) → calls_in (renumbered n calls) ≡ calls_in calls
unfolding calls_in renumbered
calls_in-renumbered n [] = refl
calls_in-renumbered n (call ∷ calls) =
    ap (λ r. record call { index = pos 0 } ∷ r) (calls_in-renumbered (suc n) calls)

calls_in-merged :
    (last current : Message)
    → calls_in (merged last current).tool_calls
      ≡ calls_in last.tool_calls ++ calls_in current.tool_calls
unfolding merged
calls_in-merged last current =
    let calls = last.tool_calls ++ renumbered (length last.tool_calls) current.tool_calls in
    let joined = record last {
      tool_calls = calls;
      reasoning_content = merge_replay_reasoning last.reasoning_content current.reasoning_content;
    } in
    ap calls_in (metadata_keeps joined current).1
    ∙ calls_in-append last.tool_calls _
    ∙ ap (λ r. calls_in last.tool_calls ++ r)
        (calls_in-renumbered (length last.tool_calls) current.tool_calls)

calls_of-merge :
    (normalized : List Message) (message : Message)
    → calls_of (merge_replay_assistant_tool_calls normalized message)
      ≡ calls_of normalized ++ calls_in message.tool_calls
unfolding calls_of merge_replay_assistant_tool_calls
calls_of-merge [] message = append-nil _
calls_of-merge (last ∷ []) message =
    let first = calls_in last.tool_calls in
    let second = calls_in message.tool_calls in
    let closed : first ++ second ≡ first ++ [] ++ second =
      ap (λ r. r ++ second) (sym (append-nil first)) in
    elim (Bool-cases (can_merge_replay_assistant_tool_calls last message)) [
      | inl e ↦ rw e (append-nil _ ∙ calls_in-merged last message ∙ closed)
      | inr e ↦ rw e (ap (λ r. first ++ r) (append-nil second) ∙ closed)
    ]
calls_of-merge (first ∷ second ∷ messages) message =
    ap (λ r. calls_in first.tool_calls ++ r) (calls_of-merge (second ∷ messages) message)
    ∙ sym (append_assoc (calls_in first.tool_calls) (calls_of (second ∷ messages)) _)

from_normalized :
    (normalized messages : List Message)
    → calls_of (merge_messages normalized messages) ≡ calls_of normalized ++ calls_of messages
unfolding calls_of merge_messages
from_normalized normalized [] = sym (append-nil _)
from_normalized normalized (message ∷ messages) =
    from_normalized (merge_replay_assistant_tool_calls normalized message) messages
    ∙ ap (λ r. r ++ calls_of messages) (calls_of-merge normalized message)
    ∙ append_assoc (calls_of normalized) _ _

-- Merging adjacent assistant messages leaves the calls of all messages what they are, in their order,
-- but for the place that each has in its message.
pub calls_of-merge_messages :
    (messages : List Message) → calls_of (merge_messages [] messages) ≡ calls_of messages
unfolding calls_of
calls_of-merge_messages messages = from_normalized [] messages
