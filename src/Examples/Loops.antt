-- ===== src/Examples/Loops.antt =====
-- file_store.go and rewind.go: a conversation whose last turn is run again.
use cursor_byok_lite.Prelude.{
  ◌≡◌, refl, true, List, [], ◌∷◌, ◌++◌, Option, none, some, on_found, if◌then◌else◌,
}
use cursor_byok_lite.Prelude.Int.{ℤ, pos}
use cursor_byok_lite.Prelude.Text.{Text, codes, trim_space, str_eq}
use cursor_byok_lite.History.{HistoryEntry, ConversationFile, no_auto_compaction, stamp_all}
use cursor_byok_lite.History.Loop.{
  MetadataPayload, any_of, derive_conversation_loop_state, derive_from, is_lost,
  conversation_has_request_entry, loop_request, last_request, with_loop, derive_request_loop_status,
  idle_or, scan_entries, scan_entry, history_entry_tool_call_id, status_of,
}
use cursor_byok_lite.History.OpenCalls.Status.{last_end, has_open_call, any_active}
use cursor_byok_lite.History.OpenCalls.Derived.{derive_request_loop_status_lem}
use cursor_byok_lite.Rewind.{RunRewindDecision, no_decision}
use cursor_byok_lite.Rewind.Apply.{
  apply_run_rewind_to_conversation, apply_run_rewind_to_conversation_lem,
}
use cursor_byok_lite.Prelude.Store.{insert}

abbrev entry : ℤ → Text → Text → Text → HistoryEntry
entry turn request kind call = record {
  seq = pos 0;
  turn_seq = turn;
  request_id = request;
  role = codes "user";
  kind = kind;
  tool_call_id = call;
  parent_tool_call_id = [];
  payload = codes "turn_completed";
  created_at = 1;
}

abbrev conversation : ConversationFile
conversation = record {
  schema_version = 0;
  conversation_id = codes "c";
  root_conversation_id = codes "c";
  parent_conversation_id = [];
  parent_tool_call_id = [];
  subagent_type_name = [];
  mode = codes "agent";
  context_version = pos 0;
  current_loop_id = [];
  current_loop_status = codes " running";
  current_request_id = codes "gone";
  current_turn_seq = pos 2;
  token_details_used_tokens = 5000;
  token_details_max_tokens = 0;
  auto_compaction = no_auto_compaction;
  latest_request_prefix = some (codes "{}");
  last_provider_call = some (codes "{}");
  created_at = 1;
  updated_at = 1;
  next_turn_seq = pos 2;
  next_entry_seq = pos 3;
  entries =
      entry (pos 1) (codes "r1") (codes "user_message") []
      ∷ entry (pos 1) (codes "r1") (codes "tool_call") (codes "t1")
      ∷ [];
}

-- a payload here is the type or the id itself
abbrev metadata : Text → Option MetadataPayload
metadata payload = some (record { type_name = payload; status = [] })

abbrev call_id : Text → Option Text
call_id payload = some payload

waiting_test :
    (derive_conversation_loop_state metadata call_id conversation).current_loop_status
    ≡ codes "waiting_tool"
unfolding derive_conversation_loop_state derive_from is_lost conversation_has_request_entry any_of
    loop_request last_request with_loop derive_request_loop_status scan_entries scan_entry
    history_entry_tool_call_id insert status_of trim_space str_eq
waiting_test = refl

-- a request with an answered call and one that is open
abbrev two_calls : List HistoryEntry
two_calls =
    conversation.entries
    ++ entry (pos 1) (codes "r1") (codes "tool_call") (codes "t2")
      ∷ entry (pos 1) (codes "r1") (codes "tool_result") (codes "t1")
      ∷ []

derive_request_loop_status_lem_example :
    derive_request_loop_status metadata call_id two_calls (codes "r1") (pos 1) (codes "idle")
    ≡ on_found
        (last_end metadata call_id (trim_space (codes "r1")) (pos 1) two_calls)
        (if has_open_call metadata call_id (trim_space (codes "r1")) (pos 1) two_calls
          then codes "waiting_tool"
          else if any_active metadata call_id (trim_space (codes "r1")) (pos 1) two_calls
          then codes "running"
          else idle_or (codes "idle"))
        (λ status. status)
unfolding trim_space
derive_request_loop_status_lem_example =
    derive_request_loop_status_lem metadata call_id two_calls (codes "r1") (pos 1) (codes "idle")
      refl

abbrev decision : RunRewindDecision
decision = record no_decision { apply = true; prefix_entries = conversation.entries }

abbrev run : List HistoryEntry
run = entry (pos 2) (codes "r2") (codes "user_message") [] ∷ []

apply_run_rewind_to_conversation_lem_example :
    (let after =
        apply_run_rewind_to_conversation metadata call_id 9 decision run
          (codes " r2")
          (pos 2)
          conversation in
      (after.entries ≡ (stamp_all 9 (pos 1) (decision.prefix_entries ++ run)).0)
      × (after.current_request_id ≡ trim_space (codes " r2"))
      × (after.current_turn_seq ≡ pos 2)
      × (after.token_details_used_tokens ≡ 0)
      × (after.auto_compaction ≡ no_auto_compaction)
      × (after.latest_request_prefix ≡ none)
      × (after.last_provider_call ≡ none))
unfolding any_of trim_space str_eq
apply_run_rewind_to_conversation_lem_example =
    apply_run_rewind_to_conversation_lem metadata call_id 9 decision run (codes " r2") (pos 2)
      conversation refl refl refl
