-- ===== src/Rewind/Apply.antt =====
-- rewind.go: a decision to go back, carried out on a conversation. An intent counts here by the id of
-- its request. The decoding of payloads is as in History/Loop.
use cursor_byok_lite.Prelude.{
  ℕ, ◌≡◌, refl, ap, ◌∙◌, true, false, not, ◌||◌, List, [], ◌∷◌, ◌++◌, Option, none, inl, inr, arith,
  ltb, ◌==◌, if◌then◌else◌, is_nil, Bool-cases, on_found, or_right,
}
use cursor_byok_lite.Prelude.Int.{ℤ, pos, leb_ℤ}
use cursor_byok_lite.Prelude.Text.{Text, codes, is_empty, trim_space, trim_space_idem}
use cursor_byok_lite.Prelude.Decimal.{format_int}
use cursor_byok_lite.History.{
  HistoryEntry, ConversationFile, stamp, stamp_all, append_entries_in_place,
  projected_conversation_max_tokens, clear_conversation_auto_compaction_state, no_auto_compaction,
}
use cursor_byok_lite.History.Loop.{
  is_of, any_of, MetadataPayload, derive_from, derive_conversation_loop_state, with_loop,
}
use cursor_byok_lite.Rewind.{RunRewindDecision, append_replacement_run_entries}
use cursor_byok_lite.History.LoopState.{derive_conversation_loop_state-current}

unfoldable pub apply_run_rewind_conversation_state : Text → ℤ → ConversationFile → ConversationFile
apply_run_rewind_conversation_state request_id turn_seq conversation =
    let limit = conversation.token_details_max_tokens in
    let cleared = clear_conversation_auto_compaction_state (record conversation {
      token_details_used_tokens = 0;
      token_details_max_tokens = if limit == 0 then projected_conversation_max_tokens else limit;
    }) in
    record cleared {
      latest_request_prefix = none;
      last_provider_call = none;
      current_loop_id = format_int turn_seq ++ codes ":" ++ trim_space request_id;
      current_loop_status = codes "running";
      current_request_id = trim_space request_id;
      current_turn_seq = turn_seq;
    }

abbrev kept_or : Text → Text → Text
kept_or old found = if is_empty (trim_space found) then old else trim_space found

unfoldable pub apply_run_rewind_metadata :
    Option ConversationFile → Text → ℤ → ConversationFile → ConversationFile
apply_run_rewind_metadata origin request_id turn_seq conversation =
    let described = on_found origin conversation (λ file. record conversation {
      conversation_id = kept_or conversation.conversation_id file.conversation_id;
      root_conversation_id = kept_or conversation.root_conversation_id file.root_conversation_id;
      parent_conversation_id = trim_space file.parent_conversation_id;
      parent_tool_call_id = trim_space file.parent_tool_call_id;
      subagent_type_name = trim_space file.subagent_type_name;
      mode = kept_or conversation.mode file.mode;
      token_details_max_tokens =
          if ltb 0 file.token_details_max_tokens
          then file.token_details_max_tokens
          else conversation.token_details_max_tokens;
    }) in
    apply_run_rewind_conversation_state request_id turn_seq described

-- the conversation with its history taken away
abbrev emptied : ConversationFile → ConversationFile
emptied conversation = record conversation {
  entries = [];
  next_entry_seq = pos 1;
  next_turn_seq = pos 1;
}

module _ (decode_metadata : Text → Option MetadataPayload)
    (decode_call_id : Text → Option Text) where
  unfoldable pub apply_run_rewind_to_conversation :
      ℕ → RunRewindDecision → List HistoryEntry → Text → ℤ → ConversationFile → ConversationFile
  apply_run_rewind_to_conversation now decision entries request_id turn_seq conversation =
      let replacement = append_replacement_run_entries decision.prefix_entries entries in
      let filled = (append_entries_in_place now (emptied conversation) replacement).0 in
      if not decision.apply
      then conversation
      else derive_conversation_loop_state decode_metadata decode_call_id
          (apply_run_rewind_conversation_state request_id turn_seq filled)

-- Stamping keeps the requests and the turns.
stamp-is_of :
    (id : Text) (turn : ℤ) (now : ℕ) (next_seq : ℤ) (entry : HistoryEntry)
    → is_of id turn (stamp now next_seq entry).0 ≡ is_of id turn entry
unfolding stamp
stamp-is_of id turn now next_seq entry = elim (Bool-cases (leb_ℤ entry.seq (pos 0))) [
  | inl e ↦ rw e refl
  | inr e ↦ elim (Bool-cases (leb_ℤ next_seq entry.seq)) [
    | inl f ↦ rw (e, f) refl
    | inr f ↦ rw (e, f) refl
  ]
]

stamp-any_of :
    (id : Text) (turn : ℤ) (now : ℕ) (next_seq : ℤ) (entries : List HistoryEntry)
    → any_of id turn (stamp_all now next_seq entries).0 ≡ any_of id turn entries
unfolding any_of stamp_all
stamp-any_of id turn now next_seq [] = refl
stamp-any_of id turn now next_seq (entry ∷ entries) =
    ap (λ b. b || any_of id turn (stamp_all now (stamp now next_seq entry).1 entries).0)
      (stamp-is_of id turn now next_seq entry)
    ∙ ap (λ b. is_of id turn entry || b)
        (stamp-any_of id turn now (stamp now next_seq entry).1 entries)

any_of-append :
    (id : Text) (turn : ℤ) (before entries : List HistoryEntry)
    → any_of id turn entries ≡ true
    → any_of id turn (before ++ entries) ≡ true
unfolding any_of
any_of-append id turn [] entries h = h
any_of-append id turn (entry ∷ before) entries h =
    or_right _ _ (any_of-append id turn before entries h)

some_entry :
    (id : Text) (turn : ℤ) (entries : List HistoryEntry)
    → any_of id turn entries ≡ true
    → is_nil entries ≡ false
unfolding any_of
some_entry id turn [] h = absurd (ground (arith, h))
some_entry id turn (entry ∷ entries) h = refl

-- Entries that are appended to nothing.
refilled :
    (now : ℕ) (conversation : ConversationFile) (entries : List HistoryEntry)
    → is_nil entries ≡ false
    → (append_entries_in_place now (emptied conversation) entries).0.entries
      ≡ (stamp_all now (pos 1) entries).0
unfolding append_entries_in_place
refilled now conversation entries h = rw h refl

-- A decision that applies leaves the entries that it keeps and those of the run, numbered anew where
-- they have no number; the run's request, which some entry of the run belongs to, is the current one
-- with its turn, and the count of tokens, the mark for compaction and the records of the last call to
-- the provider are gone.
pub apply_run_rewind_to_conversation_lem :
    (decode_metadata : Text → Option MetadataPayload) (decode_call_id : Text → Option Text)
    (now : ℕ) (decision : RunRewindDecision) (entries : List HistoryEntry) (request_id : Text)
    (turn_seq : ℤ) (conversation : ConversationFile)
    → decision.apply ≡ true
    → is_empty (trim_space request_id) ≡ false
    → any_of (trim_space request_id) turn_seq entries ≡ true
    → (let after =
          apply_run_rewind_to_conversation decode_metadata decode_call_id now decision entries
            request_id turn_seq conversation in
        (after.entries ≡ (stamp_all now (pos 1) (decision.prefix_entries ++ entries)).0)
        × (after.current_request_id ≡ trim_space request_id)
        × (after.current_turn_seq ≡ turn_seq)
        × (after.token_details_used_tokens ≡ 0)
        × (after.auto_compaction ≡ no_auto_compaction)
        × (after.latest_request_prefix ≡ none)
        × (after.last_provider_call ≡ none))
unfolding apply_run_rewind_to_conversation append_replacement_run_entries
    apply_run_rewind_conversation_state clear_conversation_auto_compaction_state
    derive_conversation_loop_state derive_from with_loop
apply_run_rewind_to_conversation_lem m i now decision entries request_id turn conversation e filled
      own =
    let id = trim_space request_id in
    let all = decision.prefix_entries ++ entries in
    let known = any_of-append id turn decision.prefix_entries entries own in
    let stamped = refilled now conversation all (some_entry id turn all known) in
    let appended = (append_entries_in_place now (emptied conversation) all).0 in
    let there : any_of id turn appended.entries ≡ true =
      ap (any_of id turn) stamped ∙ stamp-any_of id turn now (pos 1) all ∙ known in
    let current =
      derive_conversation_loop_state-current m i
        (apply_run_rewind_conversation_state request_id turn appended) (trim_space_idem request_id)
        filled there in
    rw e (stamped, current.0, current.1, refl, refl, refl, refl)
