-- ===== src/Examples/Histories.antt =====
-- rewind.go and file_store.go: a history of two turns, and a run that brings its first message again.
use cursor_byok_lite.Prelude.{
  ◌+◌, ◌≡◌, refl, false, List, [], ◌∷◌, ◌++◌, Option, none, some, arith, length, All, leb,
}
use cursor_byok_lite.Prelude.Int.{ℤ, pos}
use cursor_byok_lite.Prelude.Text.{Text, codes}
use cursor_byok_lite.History.{
  HistoryEntry, ConversationFile, no_auto_compaction, append_entries_in_place,
  update_conversation_auto_compaction_state,
}
use cursor_byok_lite.History.Append.{IsBelow, numbered_from, append_entries_in_place-numbered_from}
use cursor_byok_lite.History.Tokens.{update_conversation_auto_compaction_state-pending}
use cursor_byok_lite.Rewind.{RunIntent, select_run_rewind_match, earlier_history_entry}
use cursor_byok_lite.Rewind.Earliest.{select_run_rewind_match-earliest}

abbrev entry : ℤ → ℤ → Text → Text → HistoryEntry
entry seq turn kind payload = record {
  seq = seq;
  turn_seq = turn;
  request_id = codes "r";
  role = codes "user";
  kind = kind;
  tool_call_id = [];
  parent_tool_call_id = [];
  payload = payload;
  created_at = 3;
}

abbrev first_message : HistoryEntry
first_message = entry (pos 1) (pos 1) (codes "user_message") (codes "m1")

abbrev answer : HistoryEntry
answer = entry (pos 2) (pos 1) (codes "assistant_text") (codes "hello")

abbrev second_message : HistoryEntry
second_message = entry (pos 3) (pos 2) (codes "user_message") (codes "m2")

abbrev conversation : ConversationFile
conversation = record {
  schema_version = 1;
  conversation_id = codes "c";
  root_conversation_id = codes "c";
  parent_conversation_id = [];
  parent_tool_call_id = [];
  subagent_type_name = [];
  mode = codes "agent";
  current_loop_id = [];
  current_loop_status = [];
  current_request_id = codes "r2";
  current_turn_seq = pos 2;
  latest_request_prefix = none;
  last_provider_call = none;
  context_version = pos 3;
  token_details_used_tokens = 0;
  token_details_max_tokens = 130_000;
  auto_compaction = no_auto_compaction;
  created_at = 3;
  updated_at = 3;
  next_turn_seq = pos 3;
  next_entry_seq = pos 4;
  entries = first_message ∷ answer ∷ second_message ∷ [];
}

-- a payload here is the id itself
abbrev message_id : Text → Option Text
message_id payload = some payload

abbrev run_again : RunIntent
run_again = record {
  kind = codes "run";
  prewarm = false;
  user_message_id = some (codes "m1");
  action_case = codes "user_message_action";
  client_turns = some 0;
}

select_run_rewind_match-earliest_example :
    All
      (λ d.
        earlier_history_entry d (select_run_rewind_match second_message (first_message ∷ []) none).0
        ≡ false)
      (second_message ∷ first_message ∷ [])
select_run_rewind_match-earliest_example =
    select_run_rewind_match-earliest second_message (first_message ∷ [])

abbrev fresh_entries : List HistoryEntry
fresh_entries =
    entry (pos 0) (pos 3) (codes "user_message") (codes "m3")
    ∷ entry (pos 0) (pos 3) (codes "assistant_text") (codes "done")
    ∷ []

append_entries_in_place-numbered_from_example :
    (let (after, assigned) = append_entries_in_place 9 conversation fresh_entries in
      (assigned ≡ numbered_from 9 4 fresh_entries)
      × (after.entries ≡ conversation.entries ++ assigned)
      × (after.next_entry_seq ≡ pos (4 + length fresh_entries))
      × All (IsBelow (4 + length fresh_entries)) after.entries)
append_entries_in_place-numbered_from_example =
    append_entries_in_place-numbered_from 9 4 conversation fresh_entries refl
      (omega arith, (omega arith, (omega arith, tt))) (omega arith, (omega arith, tt)) (omega arith)

update_conversation_auto_compaction_state-pending_example :
    (update_conversation_auto_compaction_state
      (pos 125_000)
      (pos 10_000)
      (codes "m")
      (codes "2026-01-01T00:00:00Z")
      conversation).auto_compaction.pending
    ≡ leb 130_000 (125_000 + 10_000)
update_conversation_auto_compaction_state-pending_example =
    update_conversation_auto_compaction_state-pending 125_000 10_000 (codes "m")
      (codes "2026-01-01T00:00:00Z") conversation (omega arith) (omega arith) (omega arith)
      (omega arith) (omega arith)
