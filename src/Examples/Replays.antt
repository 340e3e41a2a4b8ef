-- ===== src/Examples/Replays.antt =====
-- projector.go and tool_result_replay_truncation.go: what is sent to a provider.
use cursor_byok_lite.Prelude.{
  ℕ, ◌+◌, ◌≤◌, ◌≡◌, refl, ◌⊎◌, true, List, [], ◌∷◌, some, arith, length, take, All,
}
use cursor_byok_lite.Prelude.Int.{pos}
use cursor_byok_lite.Prelude.Text.{Text, codes}
use cursor_byok_lite.ToolCallId.{ToolCallDescriptor}
use cursor_byok_lite.Replay.{Message}
use cursor_byok_lite.Replay.Sequence.{merge_messages, normalize_replay_message_sequence}
use cursor_byok_lite.Replay.Answers.{Paired, normalize_replay_message_sequence-Paired}
use cursor_byok_lite.Replay.Gathering.{Unsuppressed}
use cursor_byok_lite.Replay.Suppression.{normalize_replay_message_sequence-Unsuppressed}
use cursor_byok_lite.Replay.Merge.{calls_of, calls_of-merge_messages}
use cursor_byok_lite.Truncation.{
  valid_string, valid_from, lead_byte, truncate_projected_utf8, truncate_projected_replay_text,
}
use cursor_byok_lite.Truncation.Characters.{truncate_projected_utf8_lem}
use cursor_byok_lite.Truncation.Notices.{truncate_projected_replay_text_lem}

abbrev plain : Text → Text → Message
plain role content = record {
  role = role;
  content = content;
  content_parts = [];
  reasoning_content = [];
  reasoning_signature = [];
  reasoning_signature_source = [];
  open_ai_responses_reasoning_id = [];
  open_ai_responses_reasoning_status = [];
  open_ai_responses_reasoning_summary = [];
  tool_calls = [];
  tool_call_id = [];
  name = [];
}

abbrev call : Text → Text → ToolCallDescriptor
call id name = record {
  id = id;
  index = pos 0;
  type_name = codes "function";
  shape = record { name = name; arguments = codes "{}" };
  open_ai_responses_id = [];
  open_ai_responses_call_id = [];
  open_ai_responses_status = [];
}

abbrev calling : List ToolCallDescriptor → Message
calling calls = record (plain (codes "assistant") []) { tool_calls = calls }

abbrev result : Text → Message
result id = record (plain (codes "tool") (codes "done")) { tool_call_id = id }

abbrev conversation : List Message
conversation =
    plain (codes "user") (codes "hi")
    ∷ calling (call (codes "m::1") (codes "Read") ∷ [])
    ∷ result (codes "m::1")
    ∷ calling
        (call (codes "m::2") (codes "Grep") ∷ call (codes "m::3") (codes "GenerateImage") ∷ [])
    ∷ result (codes "m::2")
    ∷ []

normalize_replay_message_sequence-Paired_example :
    Paired (normalize_replay_message_sequence conversation)
normalize_replay_message_sequence-Paired_example =
    normalize_replay_message_sequence-Paired conversation

normalize_replay_message_sequence-Unsuppressed_example :
    All Unsuppressed (normalize_replay_message_sequence conversation)
normalize_replay_message_sequence-Unsuppressed_example =
    normalize_replay_message_sequence-Unsuppressed conversation

calls_of-merge_messages_example : calls_of (merge_messages [] conversation) ≡ calls_of conversation
calls_of-merge_messages_example = calls_of-merge_messages conversation

-- "héllo" with the cut inside a character
abbrev accented : Text
accented = b'h' ∷ 0xC3 ∷ 0xA9 ∷ codes "llo"

truncate_projected_utf8_lem_example :
    (let kept = truncate_projected_utf8 accented (pos 2) in
      (valid_string kept ≡ true)
      × ((m : ℕ) × (kept ≡ take m accented))
      × (length kept ≤ 2)
      × ((2 ≤ length kept + 3) ⊎ (kept ≡ accented)))
unfolding valid_from lead_byte
truncate_projected_utf8_lem_example = truncate_projected_utf8_lem accented 2 (omega arith) refl

abbrev long : Text
long =
    codes
      "0123456789012345678901234567890123456789012345678901234567890123456789012345678901234567890123456789"

truncate_projected_replay_text_lem_example :
    (r : Text) × (truncate_projected_replay_text (codes "Read") long (pos 90) ≡ some r)
    × (length r ≤ 90)
truncate_projected_replay_text_lem_example =
    truncate_projected_replay_text_lem (codes "Read") long 90 (omega arith) (omega arith)
