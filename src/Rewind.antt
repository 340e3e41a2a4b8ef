-- ===== src/Rewind.antt =====
-- internal/backend/forwarder/rewind.go: whether a run goes back to an earlier turn, and what of the
-- history stays. `message_id` decodes a payload as a user message and gives its id: the protocol's
-- code, which is not part of the repository's own. An intent is known by what the code reads of it.
pub mod Decision
pub mod Earliest
pub mod Apply
use cursor_byok_lite.Prelude.{
  ℕ, suc, ◌+◌, Bool, true, false, not, ◌||◌, ◌&&◌, List, [], ◌∷◌, ◌++◌, Option, none, some,
  if◌then◌else◌, length, is_nil, is_some, on_found, ltb,
}
use cursor_byok_lite.Prelude.Int.{ℤ, pos, negsuc, ltb_ℤ, leb_ℤ, eqb_ℤ, add64}
use cursor_byok_lite.Prelude.Text.{Text, codes, is_empty, str_eq, trim_space}
use cursor_byok_lite.History.{HistoryEntry, ConversationFile, max_turn}

-- `user_message_id` is the id of the intent's user message, if it has one; `client_turns` the number
-- of turns in the client's conversation state, if it sent one; `action_case` the kind of its
-- conversation action.
pub record RunIntent : Type 0 where
  pub kind : Text
  pub prewarm : Bool
  pub user_message_id : Option Text
  pub action_case : Text
  pub client_turns : Option ℕ

pub record RunRewindDecision : Type 0 where
  pub evaluated : Bool
  pub apply : Bool
  pub reason : Text
  pub skip_reason : Text
  pub incoming_message_id : Text
  pub has_client_turn_count : Bool
  pub client_turn_count : ℤ
  pub server_tail_turn_seq : ℤ
  pub server_next_turn_seq : ℤ
  pub target_turn_seq : ℤ
  pub target_entry_seq : ℤ
  pub target_request_id : Text
  pub match_count : ℕ
  pub dropped_entry_count : ℕ
  pub dropped_turn_count : ℕ
  pub dropped_seq_start : ℤ
  pub dropped_seq_end : ℤ
  pub prefix_entries : List HistoryEntry

abbrev pub no_decision : RunRewindDecision
no_decision = record {
  evaluated = false;
  apply = false;
  reason = [];
  skip_reason = [];
  incoming_message_id = [];
  has_client_turn_count = false;
  client_turn_count = negsuc 0;
  server_tail_turn_seq = pos 0;
  server_next_turn_seq = pos 0;
  target_turn_seq = pos 0;
  target_entry_seq = pos 0;
  target_request_id = [];
  match_count = 0;
  dropped_entry_count = 0;
  dropped_turn_count = 0;
  dropped_seq_start = pos 0;
  dropped_seq_end = pos 0;
  prefix_entries = [];
}

unfoldable pub should_evaluate_run_rewind : RunIntent → Bool
should_evaluate_run_rewind intent =
    if not (str_eq (trim_space intent.kind) (codes "run"))
      || intent.prewarm
      || not (is_some intent.user_message_id)
    then false
    else str_eq intent.action_case (codes "user_message_action")

unfoldable pub earlier_history_entry : HistoryEntry → HistoryEntry → Bool
earlier_history_entry left right =
    if not (eqb_ℤ left.turn_seq right.turn_seq)
    then ltb_ℤ left.turn_seq right.turn_seq
    else if not (eqb_ℤ left.seq right.seq)
    then ltb_ℤ left.seq right.seq
    else ltb left.created_at right.created_at

-- the first match of a turn
unfoldable pub find_turn : ℤ → List HistoryEntry → Option HistoryEntry
find_turn turn [] = none
find_turn turn (entry ∷ rest) =
    let later = find_turn turn rest in if eqb_ℤ entry.turn_seq turn then some entry else later

-- the earliest of an entry and others
unfoldable pub earliest : HistoryEntry → List HistoryEntry → HistoryEntry
earliest selected [] = selected
earliest selected (entry ∷ rest) =
    earliest (if earlier_history_entry entry selected then entry else selected) rest

-- the loop for `candidate`: the earliest match behind a turn
unfoldable pub earliest_after : ℤ → Option HistoryEntry → List HistoryEntry → Option HistoryEntry
earliest_after turn candidate [] = candidate
earliest_after turn candidate (entry ∷ rest) =
    let better =
      on_found candidate (some entry)
        (λ c. if earlier_history_entry entry c then some entry else some c) in
    earliest_after turn (if leb_ℤ entry.turn_seq turn then candidate else better) rest

abbrev pub first_reason : HistoryEntry → List HistoryEntry → HistoryEntry × Text
first_reason entry rest = (earliest entry rest, codes "earliest_message_id_match")

-- `selectRunRewindMatch` on a list that is not empty, as its caller has it
unfoldable pub select_run_rewind_match :
    HistoryEntry → List HistoryEntry → Option ℕ → HistoryEntry × Text
select_run_rewind_match entry rest none = first_reason entry rest
select_run_rewind_match entry rest (some client_turn_count) =
    on_found (find_turn (add64 (pos client_turn_count) (pos 1)) (entry ∷ rest))
      (on_found (earliest_after (pos client_turn_count) none (entry ∷ rest))
        (first_reason entry rest) (λ c. (c, codes "first_match_after_client_turn_count")))
      λ aligned. (aligned, codes "client_turn_count_aligned")

unfoldable pub prefix_entries_before_turn : List HistoryEntry → ℤ → List HistoryEntry
prefix_entries_before_turn [] target = []
prefix_entries_before_turn (entry ∷ rest) target =
    let prefix = prefix_entries_before_turn rest target in
    if ltb_ℤ entry.turn_seq target then entry ∷ prefix else prefix

pub record DroppedEntryStats : Type 0 where
  pub entries : ℕ
  pub turns : List ℤ
  pub seq_start : ℤ
  pub seq_end : ℤ

unfoldable pub has_turn : ℤ → List ℤ → Bool
has_turn turn [] = false
has_turn turn (t ∷ ts) = eqb_ℤ t turn || has_turn turn ts

-- one round of the loop of `droppedEntryStats`
unfoldable pub count_dropped : ℤ → DroppedEntryStats → HistoryEntry → DroppedEntryStats
count_dropped target stats entry = if ltb_ℤ entry.turn_seq target then stats else record {
  entries = suc stats.entries;
  turns =
      if ltb_ℤ (pos 0) entry.turn_seq && not (has_turn entry.turn_seq stats.turns)
      then entry.turn_seq ∷ stats.turns
      else stats.turns;
  seq_start =
      if ltb_ℤ (pos 0) entry.seq
        && (eqb_ℤ stats.seq_start (pos 0) || ltb_ℤ entry.seq stats.seq_start)
      then entry.seq
      else stats.seq_start;
  seq_end = if ltb_ℤ stats.seq_end entry.seq then entry.seq else stats.seq_end;
}

unfoldable pub count_all_dropped : ℤ → DroppedEntryStats → List HistoryEntry → DroppedEntryStats
count_all_dropped target stats [] = stats
count_all_dropped target stats (entry ∷ rest) =
    count_all_dropped target (count_dropped target stats entry) rest

abbrev pub no_drops : DroppedEntryStats
no_drops = record { entries = 0; turns = []; seq_start = pos 0; seq_end = pos 0 }

unfoldable pub dropped_entry_stats : List HistoryEntry → ℤ → DroppedEntryStats
dropped_entry_stats entries target = count_all_dropped target no_drops entries

unfoldable pub append_replacement_run_entries :
    List HistoryEntry → List HistoryEntry → List HistoryEntry
append_replacement_run_entries prefix entries = prefix ++ entries

-- `maxHistoryTurnSeq`
abbrev pub max_history_turn_seq : List HistoryEntry → ℤ
max_history_turn_seq entries = max_turn (pos 0) entries

module _ (message_id : Text → Option Text) where
  -- a user message with the id
  unfoldable pub is_message : Text → HistoryEntry → Bool
  is_message id entry =
      if not (str_eq (trim_space entry.kind) (codes "user_message")) || is_empty entry.payload
      then false
      else on_found (message_id entry.payload) false (λ found. str_eq (trim_space found) id)

  unfoldable pub find_messages : Text → List HistoryEntry → List HistoryEntry
  find_messages id [] = []
  find_messages id (entry ∷ rest) =
      let others = find_messages id rest in if is_message id entry then entry ∷ others else others

  unfoldable pub find_user_message_entries_by_message_id :
      List HistoryEntry → Text → List HistoryEntry
  find_user_message_entries_by_message_id entries id =
      if is_empty (trim_space id) then [] else find_messages (trim_space id) entries

  -- the end of `decideRunRewind`, for the match that was selected
  unfoldable pub decide_target :
      RunRewindDecision → Option ℕ → List HistoryEntry → HistoryEntry × Text → RunRewindDecision
  decide_target decision client_turns entries (selected, select_reason) =
      let aimed : RunRewindDecision = record decision {
        target_turn_seq = selected.turn_seq;
        target_entry_seq = selected.seq;
        target_request_id = trim_space selected.request_id;
      } in
      let stats = dropped_entry_stats entries selected.turn_seq in
      let tail_beyond_target = ltb_ℤ selected.turn_seq decision.server_tail_turn_seq in
      let client_behind_tail =
        on_found client_turns false (λ n. ltb_ℤ (pos n) decision.server_tail_turn_seq) in
      if leb_ℤ selected.turn_seq (pos 0)
      then record aimed { skip_reason = codes "target_turn_seq_missing" }
      else if not tail_beyond_target && not client_behind_tail
      then record aimed { skip_reason = codes "message_id_at_active_tail" }
      else record aimed {
        apply = true;
        reason = select_reason;
        prefix_entries = prefix_entries_before_turn entries selected.turn_seq;
        dropped_entry_count = stats.entries;
        dropped_turn_count = length stats.turns;
        dropped_seq_start = stats.seq_start;
        dropped_seq_end = stats.seq_end;
      }

  unfoldable pub decide_match :
      RunRewindDecision → Option ℕ → List HistoryEntry → List HistoryEntry → RunRewindDecision
  decide_match decision client_turns entries [] = record decision {
    skip_reason = codes "message_id_not_found";
  }
  decide_match decision client_turns entries (entry ∷ rest) =
      decide_target (record decision { match_count = suc (length rest) }) client_turns entries
        (select_run_rewind_match entry rest client_turns)

  abbrev seen_conversation : RunRewindDecision → Option ConversationFile → RunRewindDecision
  seen_conversation decision none = decision
  seen_conversation decision (some conversation) = record decision {
    server_tail_turn_seq = max_history_turn_seq conversation.entries;
    server_next_turn_seq = conversation.next_turn_seq;
  }

  -- the decision as it stands before the history is searched
  abbrev pub evaluated_decision : RunIntent → Option ConversationFile → RunRewindDecision
  evaluated_decision intent conversation =
      seen_conversation
        (record no_decision {
          evaluated = true;
          incoming_message_id = trim_space (on_found intent.user_message_id [] (λ i. i));
          has_client_turn_count = is_some intent.client_turns;
          client_turn_count = on_found intent.client_turns (negsuc 0) (λ n. pos n);
        })
        conversation

  unfoldable pub decide_run_rewind : RunIntent → Option ConversationFile → RunRewindDecision
  decide_run_rewind intent conversation =
      let decision = evaluated_decision intent conversation in
      let entries = on_found conversation [] (λ c. c.entries) in
      if not (should_evaluate_run_rewind intent)
      then no_decision
      else if is_empty decision.incoming_message_id
      then record decision { skip_reason = codes "missing_message_id" }
      else if is_nil entries
      then record decision { skip_reason = codes "message_id_not_found" }
      else decide_match decision intent.client_turns entries
          (find_user_message_entries_by_message_id entries decision.incoming_message_id)
