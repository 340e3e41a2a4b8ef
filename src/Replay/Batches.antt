-- ===== src/Replay/Batches.antt =====
-- projector.go, `coalesceInterleavedReplayToolBatches`: a provider's batch of tool calls that was
-- written as several messages with the results in between becomes one message with its results.
use cursor_byok_lite.Prelude.{
  ℕ, zero, suc, ◌+◌, Bool, false, not, ◌&&◌, ◌||◌, List, [], ◌∷◌, ◌++◌, Option, none, some, drop,
  is_nil, if◌then◌else◌, on_found, ◌==◌,
}
use cursor_byok_lite.Prelude.Text.{Text, codes, str_eq, is_empty, trim_space, has_prefix}
use cursor_byok_lite.ToolCallId.{ToolCallDescriptor, cut}
use cursor_byok_lite.Replay.{
  Message, is_assistant, is_tool, can_merge_replay_assistant_tool_calls, merged,
}

-- what stands before the first "_"
unfoldable pub before_underscore : Text → Text
before_underscore [] = []
before_underscore (c ∷ s) = let rest = before_underscore s in if c == b'_' then [] else c ∷ rest

unfoldable pub replay_tool_call_group_id : Text → Text
replay_tool_call_group_id tool_call_id =
    let trimmed = trim_space tool_call_id in
    let part = trim_space (before_underscore (drop 3 trimmed)) in
    on_found (cut trimmed)
      (if has_prefix trimmed (codes "tc_") && not (is_empty part) then codes "tc_" ++ part else [])
      λ parts. trim_space parts.0

-- the loop of `replayAssistantToolGroupID` behind a group that was found
unfoldable pub group_of : Text → List ToolCallDescriptor → Text
group_of group [] = group
group_of group (call ∷ calls) =
    let next_group = replay_tool_call_group_id call.id in
    let first = group_of next_group calls in
    let same = group_of group calls in
    if is_empty next_group
    then []
    else if is_empty group
    then first
    else if str_eq group next_group
    then same
    else []

unfoldable pub replay_assistant_tool_group_id : Message → Text
replay_assistant_tool_group_id message =
    if not (is_assistant message) || is_nil message.tool_calls
    then []
    else group_of [] message.tool_calls

-- `toolResults` with `toolResultOrder`: the results by trimmed id, in the order of their first message
abbrev pub Results : Type 0
Results = List (Text × Message)

unfoldable pub put_result : Text → Message → Results → Results
put_result id message [] = (id, message) ∷ []
put_result id message (result ∷ results) =
    let rest = put_result id message results in
    if str_eq result.0 id then (id, message) ∷ results else result ∷ rest

unfoldable pub find_result : Text → Results → Option Message
find_result id [] = none
find_result id (result ∷ results) =
    let rest = find_result id results in if str_eq result.0 id then some result.1 else rest

pub record Gathered : Type 0 where
  pub batch : Message
  pub results : Results
  pub count : ℕ

-- the inner loop: what belongs to the group of a batch, and how many messages that is
unfoldable pub gather : Text → Message → Results → ℕ → List Message → Gathered
gather group batch results count [] = record { batch = batch; results = results; count = count }
gather group batch results count (following ∷ messages) =
    let id = trim_space following.tool_call_id in
    let with_result = gather group batch (put_result id following results) (count + 1) messages in
    let with_calls = gather group (merged batch following) results (count + 1) messages in
    if is_tool following && str_eq (replay_tool_call_group_id following.tool_call_id) group
    then with_result
    else if str_eq (replay_assistant_tool_group_id following) group
        && can_merge_replay_assistant_tool_calls batch following
    then with_calls
    else record { batch = batch; results = results; count = count }

-- the results in the order of the calls
unfoldable pub in_call_order : Results → List ToolCallDescriptor → List Message
in_call_order results [] = []
in_call_order results (call ∷ calls) =
    let rest = in_call_order results calls in
    on_found (find_result (trim_space call.id) results) rest (λ message. message ∷ rest)

unfoldable pub is_called : Text → List ToolCallDescriptor → Bool
is_called id [] = false
is_called id (call ∷ calls) = str_eq (trim_space call.id) id || is_called id calls

-- the results that no call asked for
unfoldable pub uncalled : Results → List ToolCallDescriptor → List Message
uncalled [] calls = []
uncalled (result ∷ results) calls =
    let rest = uncalled results calls in if is_called result.0 calls then rest else result.1 ∷ rest

-- the outer loop, with the number of messages that the last batch took
unfoldable pub coalesce_from : ℕ → List Message → List Message
coalesce_from skipped [] = []
coalesce_from (suc k) (message ∷ messages) = coalesce_from k messages
coalesce_from zero (message ∷ messages) =
    let group = replay_assistant_tool_group_id message in
    let found = gather group message [] 0 messages in
    let calls = found.batch.tool_calls in
    let plain = coalesce_from 0 messages in
    let behind = coalesce_from found.count messages in
    if is_empty group || found.count == 0
    then message ∷ plain
    else found.batch ∷ in_call_order found.results calls ++ uncalled found.results calls ++ behind

unfoldable pub coalesce_interleaved_replay_tool_batches : List Message → List Message
coalesce_interleaved_replay_tool_batches messages = coalesce_from 0 messages
