-- ===== src/Replay.antt =====
-- internal/backend/forwarder/projector.go: the messages of a conversation as a provider takes them.
-- Adjacent assistant messages that only call tools become one, calls of suppressed tools go, batches
-- of calls that stand between each other's results are put together (Replay/Batches), and calls
-- without a result go. Copies of messages need no model: a message is a value.
pub mod Batches
pub mod Sequence
pub mod Answers
pub mod Gathering
pub mod Merge
pub mod Suppression
use cursor_byok_lite.Prelude.{
  ℕ, zero, suc, ◌+◌, ◌≡◌, refl, Bool, true, false, not, ◌&&◌, ◌||◌, List, [], ◌∷◌, ◌++◌, length,
  is_nil, if◌then◌else◌, Option,
}
use cursor_byok_lite.Prelude.Int.{ℤ, pos}
use cursor_byok_lite.Prelude.Text.{Text, codes, str_eq, is_empty, trim_space}
use cursor_byok_lite.ToolCallId.{ToolCallDescriptor, ToolCallFunctionShape}

pub record ImageContent : Type 0 where
  pub mime_type : Text
  pub path : Text
  pub contents : Text

pub record ContentPart : Type 0 where
  pub type_name : Text
  pub text : Text
  pub image : Option ImageContent

pub record Message : Type 0 where
  pub role : Text
  pub content : Text
  pub content_parts : List ContentPart
  pub reasoning_content : Text
  pub reasoning_signature : Text
  pub reasoning_signature_source : Text
  pub open_ai_responses_reasoning_id : Text
  pub open_ai_responses_reasoning_status : Text
  pub open_ai_responses_reasoning_summary : Text
  pub tool_calls : List ToolCallDescriptor
  pub tool_call_id : Text
  pub name : Text

abbrev pub is_assistant : Message → Bool
is_assistant message = str_eq (trim_space message.role) (codes "assistant")

abbrev pub is_tool : Message → Bool
is_tool message = str_eq (trim_space message.role) (codes "tool")

-- the calls with their index replaced by their place, from a number on
unfoldable pub renumbered : ℕ → List ToolCallDescriptor → List ToolCallDescriptor
renumbered n [] = []
renumbered n (call ∷ calls) = record call { index = pos n } ∷ renumbered (suc n) calls

unfoldable pub has_replayable_reasoning_payload : Text → Text → Text → Bool
has_replayable_reasoning_payload content signature source =
    not (is_empty (trim_space content))
    || (not (is_empty (trim_space signature))
        && str_eq (trim_space source) (codes "openai_responses"))

-- a message that says something without its tool calls
abbrev pub says_more : Message → Bool
says_more message =
    not (is_empty (trim_space message.content))
    || not (is_nil message.content_parts)
    || has_replayable_reasoning_payload message.reasoning_content message.reasoning_signature
        message.reasoning_signature_source

unfoldable pub merge_replay_reasoning : Text → Text → Text
merge_replay_reasoning left right =
    let l = trim_space left in
    let r = trim_space right in
    if is_empty l then r else if is_empty r || str_eq r l then l else l ++ codes "\n\n" ++ r

unfoldable pub merge_replay_reasoning_signature : Text → Text → Text
merge_replay_reasoning_signature left right =
    let l = trim_space left in
    let r = trim_space right in if is_empty l then r else if is_empty r || str_eq r l then l else []

abbrev either_text : Text → Text → Text
either_text left right = if is_empty (trim_space left) then right else left

unfoldable pub merge_replay_reasoning_metadata : Message → Message → Message
merge_replay_reasoning_metadata last current =
    let left = trim_space last.reasoning_signature in
    let right = trim_space current.reasoning_signature in
    let merged = merge_replay_reasoning_signature left right in
    if is_empty merged
    then record last {
      reasoning_signature = merged;
      reasoning_signature_source = [];
      open_ai_responses_reasoning_id = [];
      open_ai_responses_reasoning_status = [];
      open_ai_responses_reasoning_summary = [];
    }
    else if is_empty left && not (is_empty right)
    then record last {
      reasoning_signature = merged;
      reasoning_signature_source = trim_space current.reasoning_signature_source;
      open_ai_responses_reasoning_id = current.open_ai_responses_reasoning_id;
      open_ai_responses_reasoning_status = current.open_ai_responses_reasoning_status;
      open_ai_responses_reasoning_summary = current.open_ai_responses_reasoning_summary;
    }
    else if str_eq left right
    then record last {
      reasoning_signature = merged;
      reasoning_signature_source =
          merge_replay_reasoning_signature last.reasoning_signature_source
            current.reasoning_signature_source;
      open_ai_responses_reasoning_id =
          either_text last.open_ai_responses_reasoning_id current.open_ai_responses_reasoning_id;
      open_ai_responses_reasoning_status =
          either_text last.open_ai_responses_reasoning_status
            current.open_ai_responses_reasoning_status;
      open_ai_responses_reasoning_summary =
          if is_empty last.open_ai_responses_reasoning_summary
          then current.open_ai_responses_reasoning_summary
          else last.open_ai_responses_reasoning_summary;
    }
    else record last { reasoning_signature = merged }

unfoldable pub can_merge_replay_assistant_tool_calls : Message → Message → Bool
can_merge_replay_assistant_tool_calls last current =
    (is_assistant last && is_assistant current)
    && (not (is_nil last.tool_calls) && not (is_nil current.tool_calls))
    && (is_empty (trim_space last.tool_call_id) && is_empty (trim_space last.name))
    && (is_empty (trim_space current.tool_call_id) && is_empty (trim_space current.name))
    && (is_empty (trim_space current.content) && is_nil current.content_parts)

-- the last message with the calls and the reasoning of the one that follows it
unfoldable pub merged : Message → Message → Message
merged last current =
    merge_replay_reasoning_metadata
      (record last {
        tool_calls = last.tool_calls ++ renumbered (length last.tool_calls) current.tool_calls;
        reasoning_content = merge_replay_reasoning last.reasoning_content current.reasoning_content;
      })
      current
