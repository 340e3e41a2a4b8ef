-- ===== src/History.antt =====
-- internal/backend/forwarder/types.go, file_store.go and token_usage.go: the history of a
-- conversation, how entries are appended to it, and its count of tokens. Times are numbers, 0 the
-- zero time. A payload is its encoded text, and so are the records of the latest request's prefix and
-- of the last provider call, which this code only drops. Kept are the fields of `ConversationFile` that the
-- modelled code reads or writes, and the counts of `turnUsageSnapshot`; a conversation is never nil
-- here.
pub mod Append
pub mod Tokens
pub mod Loop
pub mod Status
mod CurrentRequest
pub mod LoopState
pub mod OpenCalls
use cursor_byok_lite.Prelude.{
  ℕ, ◌+◌, ◌-◌, ◌*◌, ◌^◌, Bool, true, false, not, ◌||◌, ◌&&◌, List, [], ◌∷◌, ◌++◌, Option, none,
  some, leb, ◌==◌, if◌then◌else◌, is_nil,
}
use cursor_byok_lite.Prelude.Int.{ℤ, pos, negsuc, ltb_ℤ, leb_ℤ, add64, sub64}
use cursor_byok_lite.Prelude.Text.{Text, trim_space}

pub record HistoryEntry : Type 0 where
  pub seq : ℤ
  pub turn_seq : ℤ
  pub request_id : Text
  pub role : Text
  pub kind : Text
  pub tool_call_id : Text
  pub parent_tool_call_id : Text
  pub payload : Text
  pub created_at : ℕ

-- The auto compaction's fields of `ConversationFile`.
pub record AutoCompaction : Type 0 where
  pub pending : Bool
  pub prompt_tokens : ℤ
  pub reserve_tokens : ℤ
  pub triggered_at : Text
  pub source_model_call_id : Text

pub record ConversationFile : Type 0 where
  pub schema_version : ℕ
  pub conversation_id : Text
  pub root_conversation_id : Text
  pub parent_conversation_id : Text
  pub parent_tool_call_id : Text
  pub subagent_type_name : Text
  pub mode : Text
  pub context_version : ℤ
  pub current_loop_id : Text
  pub current_loop_status : Text
  pub current_request_id : Text
  pub current_turn_seq : ℤ
  pub token_details_used_tokens : ℕ
  pub token_details_max_tokens : ℕ
  pub auto_compaction : AutoCompaction
  pub latest_request_prefix : Option Text
  pub last_provider_call : Option Text
  pub created_at : ℕ
  pub updated_at : ℕ
  pub next_turn_seq : ℤ
  pub next_entry_seq : ℤ
  pub entries : List HistoryEntry

-- the loop of `contextVersionForEntries`
unfoldable pub max_seq : ℤ → List HistoryEntry → ℤ
max_seq version [] = version
max_seq version (entry ∷ rest) =
    max_seq (if ltb_ℤ version entry.seq then entry.seq else version) rest

unfoldable pub context_version_for_entries : List HistoryEntry → ℤ
context_version_for_entries entries = max_seq (pos 0) entries

-- an entry with its time, its number, and the number that comes next
unfoldable pub stamp : ℕ → ℤ → HistoryEntry → HistoryEntry × ℤ
stamp now next_seq entry =
    let dated : HistoryEntry = record entry {
      created_at = if entry.created_at == 0 then now else entry.created_at;
    } in
    if leb_ℤ entry.seq (pos 0)
    then (record dated { seq = next_seq }, add64 next_seq (pos 1))
    else if leb_ℤ next_seq entry.seq
    then (dated, add64 entry.seq (pos 1))
    else (dated, next_seq)

-- the loop of `appendEntriesInPlace`: the stamped entries, and the next number
unfoldable pub stamp_all : ℕ → ℤ → List HistoryEntry → List HistoryEntry × ℤ
stamp_all now next_seq [] = ([], next_seq)
stamp_all now next_seq (entry ∷ rest) =
    let (stamped, after) = stamp now next_seq entry in
    let (others, last) = stamp_all now after rest in (stamped ∷ others, last)

unfoldable pub max_turn : ℤ → List HistoryEntry → ℤ
max_turn turn [] = turn
max_turn turn (entry ∷ rest) =
    max_turn (if ltb_ℤ turn entry.turn_seq then entry.turn_seq else turn) rest

-- the conversation, and the entries as they were appended
unfoldable pub append_entries_in_place :
    ℕ → ConversationFile → List HistoryEntry → ConversationFile × List HistoryEntry
append_entries_in_place now conversation entries =
    let (assigned, next_seq) = stamp_all now conversation.next_entry_seq entries in
    let after_turns = add64 (max_turn (sub64 conversation.next_turn_seq (pos 1)) entries) (pos 1) in
    let all = conversation.entries ++ assigned in
    if is_nil entries then (conversation, []) else (
      record conversation {
        entries = all;
        next_entry_seq = next_seq;
        next_turn_seq =
            if ltb_ℤ conversation.next_turn_seq after_turns
            then after_turns
            else conversation.next_turn_seq;
        created_at = if conversation.created_at == 0 then now else conversation.created_at;
        updated_at = now;
        context_version = context_version_for_entries all;
      },
      assigned,
    )

abbrev pub projected_conversation_max_tokens : ℕ
projected_conversation_max_tokens = 130_000

abbrev pub compaction_auto_reserve_tokens : ℕ
compaction_auto_reserve_tokens = 10_000

pub record TurnUsageSnapshot : Type 0 where
  pub input_tokens : ℤ
  pub output_tokens : ℤ
  pub cache_read_tokens : ℤ
  pub cache_write_tokens : ℤ

unfoldable pub has_any : TurnUsageSnapshot → Bool
has_any snapshot =
    ltb_ℤ (pos 0) snapshot.input_tokens
    || ltb_ℤ (pos 0) snapshot.output_tokens
    || ltb_ℤ (pos 0) snapshot.cache_read_tokens
    || ltb_ℤ (pos 0) snapshot.cache_write_tokens

abbrev pub non_negative_int64 : ℤ → ℤ
non_negative_int64 (pos n) = pos n
non_negative_int64 (negsuc n) = pos 0

unfoldable pub prompt_tokens_total : TurnUsageSnapshot → ℤ
prompt_tokens_total snapshot =
    add64
      (add64 (non_negative_int64 snapshot.input_tokens)
        (non_negative_int64 snapshot.cache_read_tokens))
      (non_negative_int64 snapshot.cache_write_tokens)

unfoldable pub request_tokens_total : TurnUsageSnapshot → ℤ
request_tokens_total snapshot =
    add64 (prompt_tokens_total snapshot) (non_negative_int64 snapshot.output_tokens)

abbrev pub u32_max : ℕ
u32_max = 2 ^ 32 - 1

unfoldable pub clamp_int64_to_uint32 : ℤ → ℕ
clamp_int64_to_uint32 (pos n) = if leb n u32_max then n else u32_max
clamp_int64_to_uint32 (negsuc n) = 0

abbrev pub no_auto_compaction : AutoCompaction
no_auto_compaction = record {
  pending = false;
  prompt_tokens = pos 0;
  reserve_tokens = pos 0;
  triggered_at = [];
  source_model_call_id = [];
}

unfoldable pub clear_conversation_auto_compaction_state : ConversationFile → ConversationFile
clear_conversation_auto_compaction_state conversation = record conversation {
  auto_compaction = no_auto_compaction;
}

-- The time is given as the source writes it into the file.
unfoldable pub update_conversation_auto_compaction_state :
    ℤ → ℤ → Text → Text → ConversationFile → ConversationFile
update_conversation_auto_compaction_state total reserve_tokens model_call_id at conversation =
    let window =
      if conversation.token_details_max_tokens == 0
      then projected_conversation_max_tokens
      else conversation.token_details_max_tokens in
    let reserve =
      if leb_ℤ reserve_tokens (pos 0) then pos compaction_auto_reserve_tokens else reserve_tokens in
    if leb_ℤ total (pos 0)
    then clear_conversation_auto_compaction_state conversation
    else if ltb_ℤ reserve (sub64 (pos window) total)
    then clear_conversation_auto_compaction_state conversation
    else record conversation {
      auto_compaction = record {
        pending = true;
        prompt_tokens = total;
        reserve_tokens = reserve;
        triggered_at = at;
        source_model_call_id = trim_space model_call_id;
      };
    }

-- what `updateConversationTokenState` does to the conversation; `reserve_tokens` is the reserve of
-- the stream's model, which it looks up
unfoldable pub update_conversation_token_state :
    ℤ → TurnUsageSnapshot → Text → Bool → Text → ConversationFile → ConversationFile
update_conversation_token_state reserve_tokens usage model_call_id finalize at item =
    let total = prompt_tokens_total usage in
    let used : ConversationFile = record item {
      token_details_used_tokens =
          if ltb_ℤ (pos 0) total
          then clamp_int64_to_uint32 total
          else item.token_details_used_tokens;
    } in
    let limited : ConversationFile = record used {
      token_details_max_tokens =
          if used.token_details_max_tokens == 0
          then projected_conversation_max_tokens
          else used.token_details_max_tokens;
    } in
    if not (has_any usage)
    then item
    else if finalize
    then update_conversation_auto_compaction_state (request_tokens_total usage) reserve_tokens
        model_call_id at limited
    else limited
