-- ===== src/Replay/Suppression.antt =====
-- No call of a suppressed tool is sent to a provider.
use cursor_byok_lite.Prelude.{
  ℕ, zero, suc, ◌≡◌, refl, Bool, true, false, not, ◌&&◌, ◌||◌, List, [], ◌∷◌, ◌++◌, ◌⊎◌, inl, inr,
  arith, length, is_nil, select, All, All-append, All-map, All-select, select-All, Bool-cases,
  chosen,
}
use cursor_byok_lite.Prelude.Text.{Text, trim_space}
use cursor_byok_lite.ToolCallId.{ToolCallDescriptor}
use cursor_byok_lite.Replay.{Message, is_assistant, is_tool, renumbered, says_more}
use cursor_byok_lite.Replay.Batches.{is_called, coalesce_interleaved_replay_tool_batches}
use cursor_byok_lite.Replay.Sequence.{
  is_suppressed, is_provider_prompt_replay_suppressed_tool_name, skipped_ids, is_skipped,
  filter_from, tool_block, is_responded, trim_from, trim_replay_dangling_assistant_tool_calls,
  filter_provider_suppressed_tool_replay_messages, merge_messages,
  normalize_replay_message_sequence,
}
use cursor_byok_lite.Replay.Gathering.{
  NoneSuppressed, Unsuppressed, renumbered-NoneSuppressed, coalesce_from-Unsuppressed,
}

uncalling :
    (a : Bool) (calls : List ToolCallDescriptor)
    → a && not (is_nil calls) ≡ false
    → (a ≡ false) ⊎ NoneSuppressed calls
uncalling a [] h = inr (record {})
uncalling true (call ∷ calls) h = absurd (ground (arith, h))
uncalling false (call ∷ calls) h = inl refl

kept_calls-NoneSuppressed :
    (n : ℕ) (calls : List ToolCallDescriptor)
    → NoneSuppressed (renumbered n (select (λ call. not (is_suppressed call)) calls))
kept_calls-NoneSuppressed n calls = renumbered-NoneSuppressed n _ (
    All-map (λ call. not (is_suppressed call) ≡ true) _ _ (λ call h. ground (arith, h))
      (select-All _ calls))

filter_from-Unsuppressed :
    (skipped : List Text) (messages : List Message)
    → All Unsuppressed (filter_from skipped messages)
unfolding filter_from
filter_from-Unsuppressed skipped [] = record {}
filter_from-Unsuppressed skipped (message ∷ messages) =
    let calls = renumbered 0 (select (λ call. not (is_suppressed call)) message.tool_calls) in
    let kept = kept_calls-NoneSuppressed 0 message.tool_calls in
    let behind_calls =
      filter_from-Unsuppressed (skipped_ids message.tool_calls ++ skipped) messages in
    let behind = filter_from-Unsuppressed skipped messages in
    elim (Bool-cases (is_assistant message && not (is_nil message.tool_calls))) [
      | inl e ↦ elim (Bool-cases (is_nil calls && not (says_more message))) [
        | inl f ↦ rw (e, f) behind_calls
        | inr f ↦ rw (e, f) (inr kept, behind_calls)
      ]
      | inr e ↦
          elim (Bool-cases (
            is_tool message
            && (is_skipped (trim_space message.tool_call_id) skipped
                || is_provider_prompt_replay_suppressed_tool_name message.name))) [
                  | inl f ↦ rw (e, f) behind
                  | inr f ↦
                      rw (e, f) (uncalling (is_assistant message) message.tool_calls e, behind)
                ]
    ]

block-Unsuppressed :
    (messages : List Message) → All Unsuppressed messages → All Unsuppressed (tool_block messages)
unfolding tool_block
block-Unsuppressed [] h = record {}
block-Unsuppressed (message ∷ messages) (p, h) = elim (Bool-cases (is_tool message)) [
  | inl e ↦ rw e (p, block-Unsuppressed messages h)
  | inr e ↦ rw e (record {})
]

trim_from-Unsuppressed :
    (k : ℕ) (messages : List Message)
    → All Unsuppressed messages
    → All Unsuppressed (trim_from k messages)
unfolding trim_from
trim_from-Unsuppressed k [] h = record {}
trim_from-Unsuppressed (suc k) (message ∷ messages) (p, h) = trim_from-Unsuppressed k messages h
trim_from-Unsuppressed zero (message ∷ messages) (p, h) =
    let block = tool_block messages in
    let calls =
      renumbered 0 (select (λ call. is_responded (trim_space call.id) block) message.tool_calls) in
    let allowed = select (λ result. is_called (trim_space result.tool_call_id) calls) block in
    let rest = trim_from (length block) messages in
    let behind = trim_from-Unsuppressed (length block) messages h in
    chosen (All Unsuppressed) (not (is_assistant message) || is_nil message.tool_calls)
      (not (is_nil calls)) (says_more message) (message ∷ trim_from 0 messages)
      (record message { tool_calls = calls } ∷ allowed ++ rest)
      (record message { tool_calls = [] } ∷ rest) rest
      (λ e. (p, trim_from-Unsuppressed 0 messages h))
      (λ e. (
        elim p [
          | inl no_call ↦ inl no_call
          | inr k ↦ inr (renumbered-NoneSuppressed 0 _ (All-select _ _ message.tool_calls k))
        ],
        All-append _ allowed rest (All-select _ _ block (block-Unsuppressed messages h)) behind,
      ))
      (inr (record {}), behind) behind

-- What a provider is sent has no assistant message that calls a tool which is left out of replays,
-- whatever the messages of the conversation are.
pub normalize_replay_message_sequence-Unsuppressed :
    (messages : List Message) → All Unsuppressed (normalize_replay_message_sequence messages)
unfolding normalize_replay_message_sequence trim_replay_dangling_assistant_tool_calls
    coalesce_interleaved_replay_tool_batches filter_provider_suppressed_tool_replay_messages
normalize_replay_message_sequence-Unsuppressed messages =
    trim_from-Unsuppressed 0 _
      (coalesce_from-Unsuppressed 0 _ (filter_from-Unsuppressed [] (merge_messages [] messages)))
