-- ===== src/History/Loop.antt =====
-- internal/backend/forwarder/file_store.go: the state of the loop of a conversation, which is derived
-- from its history. A payload is read by `encoding/json`: how a metadata payload gives its type and
-- the status among its values, and the payload of a call or a result the id of the call, are
-- parameters; `none` is an error of the decoding.
use cursor_byok_lite.Prelude.{
  ℕ, Bool, true, false, not, ◌&&◌, ◌||◌, List, [], ◌∷◌, ◌++◌, Option, none, some, if◌then◌else◌,
  on_found, is_nil,
}
use cursor_byok_lite.Prelude.Int.{ℤ, pos, ltb_ℤ, eqb_ℤ}
use cursor_byok_lite.Prelude.Text.{Text, codes, str_eq, is_empty, trim_space}
use cursor_byok_lite.Prelude.Store.{insert, erase}
use cursor_byok_lite.Prelude.Decimal.{format_int}
use cursor_byok_lite.Registry.{first_non_empty}
use cursor_byok_lite.History.{HistoryEntry, ConversationFile, context_version_for_entries}

abbrev pub conversation_schema_version : ℕ
conversation_schema_version = 1

abbrev pub has_kind : HistoryEntry → Text → Bool
has_kind entry kind = str_eq (trim_space entry.kind) kind

-- an entry of a request, and of its turn where both are known
abbrev pub is_of : Text → ℤ → HistoryEntry → Bool
is_of request_id turn_seq entry =
    str_eq (trim_space entry.request_id) request_id
    && not (
        ltb_ℤ (pos 0) turn_seq
        && ltb_ℤ (pos 0) entry.turn_seq
        && not (eqb_ℤ entry.turn_seq turn_seq))

unfoldable pub any_of : Text → ℤ → List HistoryEntry → Bool
any_of request_id turn_seq [] = false
any_of request_id turn_seq (entry ∷ entries) =
    is_of request_id turn_seq entry || any_of request_id turn_seq entries

unfoldable pub conversation_has_request_entry : List HistoryEntry → Text → ℤ → Bool
conversation_has_request_entry entries request_id turn_seq =
    let id = trim_space request_id in if is_empty id then false else any_of id turn_seq entries

-- What the loop of `deriveRequestLoopStatus` has seen.
pub record LoopScan : Type 0 where
  pub open_tool_calls : List (Text × Bool)
  pub terminal_status : Text
  pub seen_activity : Bool

-- the type of a metadata payload, and its status
pub record MetadataPayload : Type 0 where
  pub type_name : Text
  pub status : Text

abbrev pub nothing_seen : LoopScan
nothing_seen = record { open_tool_calls = []; terminal_status = []; seen_activity = false }

unfoldable pub scan_metadata : MetadataPayload → LoopScan → LoopScan
scan_metadata payload scan =
    let type_name = trim_space payload.type_name in
    if str_eq type_name (codes "turn_completed")
    then record scan { terminal_status = codes "completed" }
    else if str_eq type_name (codes "provider_error")
    then record scan { terminal_status = codes "provider_error" }
    else if str_eq type_name (codes "failed")
    then record scan { terminal_status = codes "failed" }
    else if str_eq type_name (codes "control")
    then (if str_eq (trim_space payload.status) (codes "canceled")
        then record scan { terminal_status = codes "canceled" }
        else scan)
    else if str_eq type_name (codes "run_request")
    then record scan { seen_activity = true }
    else scan

-- the last entry with a request
unfoldable pub last_request : List HistoryEntry → Option HistoryEntry
last_request [] = none
last_request (entry ∷ entries) =
    on_found (last_request entries)
      (if is_empty (trim_space entry.request_id) then none else some entry) some

abbrev pub idle_or : Text → Text
idle_or status = first_non_empty (trim_space status ∷ codes "idle" ∷ [])

-- the end of `deriveRequestLoopStatus`
unfoldable pub status_of : LoopScan → Text → Text
status_of scan fallback_status =
    if not (is_empty scan.terminal_status)
    then scan.terminal_status
    else if not (is_nil scan.open_tool_calls)
    then codes "waiting_tool"
    else if scan.seen_activity
    then codes "running"
    else idle_or fallback_status

-- the request whose loop it is, with its turn, where the current one is known or not
unfoldable pub loop_request : List HistoryEntry → Text → ℤ → Text × ℤ
loop_request entries request_id turn_seq =
    on_found (last_request entries) (request_id, turn_seq)
      (λ entry.
        if is_empty request_id
        then (trim_space entry.request_id, entry.turn_seq)
        else (request_id, turn_seq))

-- a current request that has no entry
unfoldable pub is_lost : List HistoryEntry → Text → ℤ → Bool
is_lost entries request_id turn_seq =
    not (is_empty request_id) && not (conversation_has_request_entry entries request_id turn_seq)

-- what `deriveConversationLoopState` writes
unfoldable pub with_loop : ConversationFile → Text × ℤ → Text → ConversationFile
with_loop conversation (request_id, turn_seq) status = record conversation {
  schema_version = conversation_schema_version;
  context_version = context_version_for_entries conversation.entries;
  current_request_id = request_id;
  current_turn_seq = turn_seq;
  current_loop_id =
      if is_empty request_id
      then conversation.current_loop_id
      else format_int turn_seq ++ codes ":" ++ request_id;
  current_loop_status = status;
}

module _ (decode_metadata : Text → Option MetadataPayload)
    (decode_call_id : Text → Option Text) where
  unfoldable pub history_entry_tool_call_id : HistoryEntry → Text
  history_entry_tool_call_id entry =
      let id = trim_space entry.tool_call_id in
      if not (is_empty id)
      then id
      else if has_kind entry (codes "tool_call") || has_kind entry (codes "tool_result")
      then on_found (decode_call_id entry.payload) [] trim_space
      else []

  abbrev pub call_key : HistoryEntry → Text
  call_key entry =
      let id = history_entry_tool_call_id entry in
      if is_empty id then codes "entry:" ++ format_int entry.seq else id

  unfoldable pub scan_entry : LoopScan → HistoryEntry → LoopScan
  scan_entry scan entry =
      let id = history_entry_tool_call_id entry in
      if has_kind entry (codes "tool_call")
      then record scan {
        seen_activity = true;
        open_tool_calls = insert (call_key entry) true scan.open_tool_calls;
      }
      else if has_kind entry (codes "tool_result")
      then record scan {
        seen_activity = true;
        open_tool_calls =
            if is_empty id then scan.open_tool_calls else erase id scan.open_tool_calls;
      }
      else if has_kind entry (codes "assistant_text")
          || has_kind entry (codes "prompt_context")
          || has_kind entry (codes "request_context")
          || has_kind entry (codes "user_message")
      then record scan { seen_activity = true }
      else if has_kind entry (codes "metadata")
      then on_found (decode_metadata entry.payload) scan (λ payload. scan_metadata payload scan)
      else scan

  unfoldable pub scan_entries : Text → ℤ → LoopScan → List HistoryEntry → LoopScan
  scan_entries request_id turn_seq scan [] = scan
  scan_entries request_id turn_seq scan (entry ∷ entries) =
      scan_entries request_id turn_seq
        (if is_of request_id turn_seq entry then scan_entry scan entry else scan) entries

  unfoldable pub derive_request_loop_status : List HistoryEntry → Text → ℤ → Text → Text
  derive_request_loop_status entries request_id turn_seq fallback_status =
      let id = trim_space request_id in
      if is_empty id
      then idle_or fallback_status
      else status_of (scan_entries id turn_seq nothing_seen entries) fallback_status

  -- the rest of `deriveConversationLoopState` for the trimmed current request, which may be lost
  unfoldable pub derive_from : ConversationFile → Text → Bool → ConversationFile
  derive_from conversation current lost =
      let entries = conversation.entries in
      let fallback_status =
        if lost then codes "idle" else idle_or conversation.current_loop_status in
      let request =
        loop_request entries (if lost then [] else current)
          (if lost then pos 0 else conversation.current_turn_seq) in
      with_loop conversation request
        (derive_request_loop_status entries request.0 request.1 fallback_status)

  unfoldable pub derive_conversation_loop_state : ConversationFile → ConversationFile
  derive_conversation_loop_state conversation =
      let current = trim_space conversation.current_request_id in
      derive_from conversation current
        (is_lost conversation.entries current conversation.current_turn_seq)
