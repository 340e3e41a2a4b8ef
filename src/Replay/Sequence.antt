-- ===== src/Replay/Sequence.antt =====
-- projector.go: `normalizeReplayMessageSequence` and its steps.
use cursor_byok_lite.Prelude.{
  ℕ, zero, suc, Bool, false, not, ◌&&◌, ◌||◌, List, [], ◌∷◌, ◌++◌, length, is_nil, if◌then◌else◌,
  select,
}
use cursor_byok_lite.Prelude.Text.{Text, codes, str_eq, is_empty, trim_space}
use cursor_byok_lite.ToolCallId.{ToolCallDescriptor}
use cursor_byok_lite.Replay.{
  Message, is_assistant, is_tool, renumbered, says_more, can_merge_replay_assistant_tool_calls,
  merged,
}
use cursor_byok_lite.Replay.Batches.{is_called, coalesce_interleaved_replay_tool_batches}

-- the messages so far and the next one, merged with the last where it can be
unfoldable pub merge_replay_assistant_tool_calls : List Message → Message → List Message
merge_replay_assistant_tool_calls [] message = message ∷ []
merge_replay_assistant_tool_calls (last ∷ []) message =
    if can_merge_replay_assistant_tool_calls last message
    then merged last message ∷ []
    else last ∷ message ∷ []
merge_replay_assistant_tool_calls (first ∷ second ∷ messages) message =
    first ∷ merge_replay_assistant_tool_calls (second ∷ messages) message

-- the loop of `normalizeReplayMessageSequence`
unfoldable pub merge_messages : List Message → List Message → List Message
merge_messages normalized [] = normalized
merge_messages normalized (message ∷ messages) =
    merge_messages (merge_replay_assistant_tool_calls normalized message) messages

unfoldable pub is_provider_prompt_replay_suppressed_tool_name : Text → Bool
is_provider_prompt_replay_suppressed_tool_name tool_name =
    str_eq (trim_space tool_name) (codes "GenerateImage")

abbrev pub is_suppressed : ToolCallDescriptor → Bool
is_suppressed call = is_provider_prompt_replay_suppressed_tool_name call.shape.name

-- the ids of suppressed calls, those that are not empty
unfoldable pub skipped_ids : List ToolCallDescriptor → List Text
skipped_ids [] = []
skipped_ids (call ∷ calls) =
    let rest = skipped_ids calls in
    let id = trim_space call.id in
    if is_suppressed call && not (is_empty id) then id ∷ rest else rest

unfoldable pub is_skipped : Text → List Text → Bool
is_skipped id [] = false
is_skipped id (skipped ∷ ids) = str_eq skipped id || is_skipped id ids

-- the loop of the filter, with the ids of the calls that it took away
unfoldable pub filter_from : List Text → List Message → List Message
filter_from skipped [] = []
filter_from skipped (message ∷ messages) =
    let skipped_too = skipped_ids message.tool_calls ++ skipped in
    let kept_calls = renumbered 0 (select (λ call. not (is_suppressed call)) message.tool_calls) in
    let behind_calls = filter_from skipped_too messages in
    let behind = filter_from skipped messages in
    if is_assistant message && not (is_nil message.tool_calls)
    then (if is_nil kept_calls && not (says_more message)
        then behind_calls
        else record message { tool_calls = kept_calls } ∷ behind_calls)
    else if is_tool message
        && (is_skipped (trim_space message.tool_call_id) skipped
            || is_provider_prompt_replay_suppressed_tool_name message.name)
    then behind
    else message ∷ behind

unfoldable pub filter_provider_suppressed_tool_replay_messages : List Message → List Message
filter_provider_suppressed_tool_replay_messages messages = filter_from [] messages

-- the tool messages at the front
unfoldable pub tool_block : List Message → List Message
tool_block [] = []
tool_block (message ∷ messages) =
    let rest = tool_block messages in if is_tool message then message ∷ rest else []

-- whether a tool message of a block has an id, which is not empty
unfoldable pub is_responded : Text → List Message → Bool
is_responded id [] = false
is_responded id (message ∷ block) =
    (not (is_empty (trim_space message.tool_call_id))
      && str_eq (trim_space message.tool_call_id) id)
    || is_responded id block

-- the loop of the trimming, with the number of messages that the last call took
unfoldable pub trim_from : ℕ → List Message → List Message
trim_from skipped [] = []
trim_from (suc k) (message ∷ messages) = trim_from k messages
trim_from zero (message ∷ messages) =
    let block = tool_block messages in
    let next_tool_calls =
      renumbered 0 (select (λ call. is_responded (trim_space call.id) block) message.tool_calls) in
    let allowed =
      select (λ result. is_called (trim_space result.tool_call_id) next_tool_calls) block in
    let plain = trim_from 0 messages in
    let behind = trim_from (length block) messages in
    if not (is_assistant message) || is_nil message.tool_calls
    then message ∷ plain
    else if not (is_nil next_tool_calls)
    then record message { tool_calls = next_tool_calls } ∷ allowed ++ behind
    else if says_more message
    then record message { tool_calls = [] } ∷ behind
    else behind

unfoldable pub trim_replay_dangling_assistant_tool_calls : List Message → List Message
trim_replay_dangling_assistant_tool_calls messages = trim_from 0 messages

unfoldable pub normalize_replay_message_sequence : List Message → List Message
normalize_replay_message_sequence messages = trim_replay_dangling_assistant_tool_calls (
    coalesce_interleaved_replay_tool_batches
      (filter_provider_suppressed_tool_replay_messages (merge_messages [] messages)))
