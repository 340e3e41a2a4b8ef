-- ===== src/History/LoopState.antt =====
-- Deriving the loop's state a second time changes nothing.
use cursor_byok_lite.Prelude.{
  ◌≡◌, refl, sym, ap, ◌∙◌, Bool, true, false, [], ◌++◌, Option, ◌⊎◌, inl, inr, arith, if◌then◌else◌,
}
use cursor_byok_lite.Prelude.Int.{pos}
use cursor_byok_lite.Prelude.Text.{Text, codes, is_empty, trim_space, trim_space_idem}
use cursor_byok_lite.Prelude.Decimal.{format_int}
use cursor_byok_lite.History.{ConversationFile, context_version_for_entries}
use cursor_byok_lite.History.Loop.{
  conversation_schema_version, any_of, MetadataPayload, derive_request_loop_status, loop_request,
  derive_conversation_loop_state, idle_or, is_lost, with_loop, derive_from,
}
use cursor_byok_lite.History.Status.{loop_status-again}
use cursor_byok_lite.History.CurrentRequest.{
  Settled, loop_request-Settled, loop_request-same, kept_request, known_request,
}

loop_id_same :
    (b : Bool) (old new_id : Text) → (b ≡ true) ⊎ (old ≡ new_id) → (if b then old else new_id) ≡ old
loop_id_same true old new_id h = refl
loop_id_same false old new_id (inl e) = absurd (ground (arith, e))
loop_id_same false old new_id (inr e) = sym e

with_loop-same :
    (c : ConversationFile)
    → c.schema_version ≡ conversation_schema_version
    → c.context_version ≡ context_version_for_entries c.entries
    → (is_empty c.current_request_id ≡ true)
      ⊎ (c.current_loop_id ≡ format_int c.current_turn_seq ++ codes ":" ++ c.current_request_id)
    → with_loop c (c.current_request_id, c.current_turn_seq) c.current_loop_status ≡ c
unfolding with_loop
with_loop-same c schema version loop =
    let written = format_int c.current_turn_seq ++ codes ":" ++ c.current_request_id in
    ap
      (λ n. record c {
        schema_version = n;
        context_version = context_version_for_entries c.entries;
        current_loop_id = if is_empty c.current_request_id then c.current_loop_id else written;
      })
      (sym schema)
    ∙ ap
        (λ n. record c {
          context_version = n;
          current_loop_id = if is_empty c.current_request_id then c.current_loop_id else written;
        })
        (sym version)
    ∙ ap (λ t. record c { current_loop_id = t })
        (loop_id_same (is_empty c.current_request_id) c.current_loop_id written loop)

module _ (decode_metadata : Text → Option MetadataPayload)
    (decode_call_id : Text → Option Text) where
  -- A conversation whose loop state agrees with its history keeps it.
  derive-same :
      (c : ConversationFile)
      → Settled c.entries c.current_request_id c.current_turn_seq
      → c.schema_version ≡ conversation_schema_version
      → c.context_version ≡ context_version_for_entries c.entries
      → (is_empty c.current_request_id ≡ true)
        ⊎ (c.current_loop_id ≡ format_int c.current_turn_seq ++ codes ":" ++ c.current_request_id)
      → derive_request_loop_status decode_metadata decode_call_id c.entries c.current_request_id
          c.current_turn_seq
          (idle_or c.current_loop_status)
        ≡ c.current_loop_status
      → derive_conversation_loop_state decode_metadata decode_call_id c ≡ c
  unfolding derive_conversation_loop_state derive_from Settled
  derive-same c settled schema version loop status =
      let derived = derive_from decode_metadata decode_call_id c in
      let id = c.current_request_id in
      let turn = c.current_turn_seq in
      ap (λ t. derived t (is_lost c.entries t turn)) settled.0
      ∙ ap (derived id) (kept_request c.entries id turn settled)
      ∙ ap
          (λ request. with_loop c request (
            derive_request_loop_status decode_metadata decode_call_id c.entries request.0 request.1
              (idle_or c.current_loop_status)))
          (loop_request-same c.entries id turn settled)
      ∙ ap (with_loop c (id, turn)) status
      ∙ with_loop-same c schema version loop

loop_id_written :
    (b : Bool) (old written : Text) → (b ≡ true) ⊎ ((if b then old else written) ≡ written)
loop_id_written true old written = inl refl
loop_id_written false old written = inr refl

-- Deriving the loop's state from the history a second time changes nothing more.
derive_conversation_loop_state_idem :
    (decode_metadata : Text → Option MetadataPayload) (decode_call_id : Text → Option Text)
    (conversation : ConversationFile)
    → (let derive = derive_conversation_loop_state decode_metadata decode_call_id in
        derive (derive conversation) ≡ derive conversation)
unfolding derive_conversation_loop_state derive_from with_loop
derive_conversation_loop_state_idem m i c =
    let current = trim_space c.current_request_id in
    let lost = is_lost c.entries current c.current_turn_seq in
    let known =
      known_request c.entries current c.current_turn_seq (trim_space_idem c.current_request_id) in
    let request =
      loop_request c.entries (if lost then [] else current)
        (if lost then pos 0 else c.current_turn_seq) in
    derive-same m i (derive_conversation_loop_state m i c)
      (loop_request-Settled c.entries (if lost then [] else current)
        (if lost then pos 0 else c.current_turn_seq) known.0 known.1)
      refl refl (loop_id_written (is_empty request.0) c.current_loop_id _)
      (loop_status-again m i c.entries request.0 request.1
        (if lost then codes "idle" else idle_or c.current_loop_status))

-- A current request that the history knows stays the current one.
pub derive_conversation_loop_state-current :
    (decode_metadata : Text → Option MetadataPayload) (decode_call_id : Text → Option Text)
    (c : ConversationFile)
    → trim_space c.current_request_id ≡ c.current_request_id
    → is_empty c.current_request_id ≡ false
    → any_of c.current_request_id c.current_turn_seq c.entries ≡ true
    → (let after = derive_conversation_loop_state decode_metadata decode_call_id c in
        (after.current_request_id ≡ c.current_request_id)
        × (after.current_turn_seq ≡ c.current_turn_seq))
unfolding derive_conversation_loop_state derive_from with_loop Settled
derive_conversation_loop_state-current m i c trimmed filled own =
    let id = c.current_request_id in
    let turn = c.current_turn_seq in
    let settled : Settled c.entries id turn = (trimmed, inr (filled, own)) in
    let request : loop_request c.entries
          (if is_lost c.entries (trim_space id) turn then [] else trim_space id)
          (if is_lost c.entries (trim_space id) turn then pos 0 else turn)
        ≡ (id, turn) =
      ap
        (λ t.
          loop_request c.entries (if is_lost c.entries t turn then [] else t)
            (if is_lost c.entries t turn then pos 0 else turn))
        trimmed
      ∙ ap (λ b. loop_request c.entries (if b then [] else id) (if b then pos 0 else turn))
          (kept_request c.entries id turn settled)
      ∙ loop_request-same c.entries id turn settled in
    (ap (λ r. r.0) request, ap (λ r. r.1) request)
