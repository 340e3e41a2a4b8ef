-- ===== src/History/OpenCalls/Derived.antt =====
-- The derived status of a request, from what the scan has seen.
use cursor_byok_lite.Prelude.{
  ◌≡◌, refl, sym, ap, ◌∙◌, Bool, true, false, not, ◌||◌, List, [], ◌∷◌, Option, none, some, inl,
  inr, arith, if◌then◌else◌, on_found, is_nil, Bool-cases, Option-cases,
}
use cursor_byok_lite.Prelude.Int.{ℤ}
use cursor_byok_lite.Prelude.Text.{Text, codes, str_eq, is_empty, trim_space}
use cursor_byok_lite.Prelude.Store.{lookup}
use cursor_byok_lite.History.{HistoryEntry}
use cursor_byok_lite.History.Loop.{
  is_of, has_kind, LoopScan, MetadataPayload, nothing_seen, scan_entries, status_of,
  derive_request_loop_status, idle_or,
}
use cursor_byok_lite.History.OpenCalls.{is_open, end_of, end_of_payload}
use cursor_byok_lite.History.OpenCalls.Status.{
  ScannedAll, scan_entries-ScannedAll, open_tool_calls_lem, last_end, has_open_call, any_active,
}

-- An end has a name.
filled : Option Text → Bool
filled none = true
filled (some status) = not (is_empty status)

end_of_payload-filled : (payload : MetadataPayload) → filled (end_of_payload payload) ≡ true
unfolding filled end_of_payload
end_of_payload-filled payload =
    let type_name = trim_space payload.type_name in
    elim (Bool-cases (str_eq type_name (codes "turn_completed"))) [
      | inl a ↦ rw a refl
      | inr a ↦ elim (Bool-cases (str_eq type_name (codes "provider_error"))) [
        | inl b ↦ rw (a, b) refl
        | inr b ↦ elim (Bool-cases (str_eq type_name (codes "failed"))) [
          | inl c ↦ rw (a, b, c) refl
          | inr c ↦ elim (Bool-cases (str_eq type_name (codes "control"))) [
            | inl d ↦ elim (Bool-cases (str_eq (trim_space payload.status) (codes "canceled"))) [
              | inl e ↦ rw (a, b, c, d, e) refl
              | inr e ↦ rw (a, b, c, d, e) refl
            ]
            | inr d ↦ rw (a, b, c, d) refl
          ]
        ]
      ]
    ]

status_by :
    (scan : LoopScan) (last : Option Text) (waits active : Bool) (fallback : Text)
    → scan.terminal_status ≡ on_found last [] (λ status. status)
    → filled last ≡ true
    → is_nil scan.open_tool_calls ≡ not waits
    → scan.seen_activity ≡ active
    → status_of scan fallback
      ≡ on_found last
          (if waits
            then codes "waiting_tool"
            else if active
            then codes "running"
            else idle_or fallback)
          (λ status. status)
unfolding status_of filled
status_by scan none true active fallback end named calls seen = rw (end, calls) refl
status_by scan none false true fallback end named calls seen = rw (end, calls, seen) refl
status_by scan none false false fallback end named calls seen = rw (end, calls, seen) refl
status_by scan (some []) waits active fallback end named calls seen = absurd (ground (arith, named))
status_by scan (some (c ∷ status)) waits active fallback end named calls seen = rw end refl

or_false : (b : Bool) → (b || false) ≡ b
or_false true = refl
or_false false = refl

module _ (decode_metadata : Text → Option MetadataPayload) (decode_call_id : Text → Option Text)
    (request_id : Text) (turn_seq : ℤ) where
  end_of-filled :
      (entry : HistoryEntry) → filled (end_of decode_metadata decode_call_id entry) ≡ true
  unfolding filled
  end_of-filled entry = elim (Bool-cases (has_kind entry (codes "metadata"))) [
    | inr e ↦ rw e refl
    | inl e ↦ elim (Option-cases (decode_metadata entry.payload)) [
      | inl f ↦ rw (e, f) refl
      | inr (payload, f) ↦ rw (e, f) (end_of_payload-filled payload)
    ]
  ]

  last_end-filled :
      (entries : List HistoryEntry)
      → filled (last_end decode_metadata decode_call_id request_id turn_seq entries) ≡ true
  unfolding filled
  last_end-filled [] = refl
  last_end-filled (entry ∷ entries) =
      let last = last_end decode_metadata decode_call_id request_id turn_seq in
      elim (Option-cases (last entries)) [
        | inr (status, e) ↦ rw e (ap filled (sym e) ∙ last_end-filled entries)
        | inl e ↦ elim (Bool-cases (is_of request_id turn_seq entry)) [
          | inl own ↦ rw (e, own) (end_of-filled entry)
          | inr foreign ↦ rw (e, foreign) refl
        ]
      ]

  status_of-entries :
      (entries : List HistoryEntry) (fallback : Text)
      → status_of
          (scan_entries decode_metadata decode_call_id request_id turn_seq nothing_seen entries)
          fallback
        ≡ on_found
            (last_end decode_metadata decode_call_id request_id turn_seq entries)
            (if has_open_call decode_metadata decode_call_id request_id turn_seq entries
              then codes "waiting_tool"
              else if any_active decode_metadata decode_call_id request_id turn_seq entries
              then codes "running"
              else idle_or fallback)
            (λ status. status)
  unfolding status_of ScannedAll filled is_open lookup
  status_of-entries entries fallback =
      let (calls, end, seen) =
        scan_entries-ScannedAll decode_metadata decode_call_id request_id turn_seq entries
          nothing_seen in
      let scan =
        scan_entries decode_metadata decode_call_id request_id turn_seq nothing_seen entries in
      let none_open =
        open_tool_calls_lem decode_metadata decode_call_id request_id turn_seq entries
          scan.open_tool_calls (λ key. calls key ∙ or_false _) in
      let active = seen ∙ or_false _ in
      status_by scan (last_end decode_metadata decode_call_id request_id turn_seq entries)
        (has_open_call decode_metadata decode_call_id request_id turn_seq entries)
        (any_active decode_metadata decode_call_id request_id turn_seq entries) fallback end
        (last_end-filled entries) none_open active

-- The derived status of a request that has an id: the last end that its metadata name; where they name
-- none, waiting_tool if it has a call that no later result answers by its key, else running if it has
-- an entry that shows it at work, and else the fallback or idle. The entries of the request are those
-- with its id, and with its turn where both turns are known. The decoding of payloads may be any.
pub derive_request_loop_status_lem :
    (decode_metadata : Text → Option MetadataPayload) (decode_call_id : Text → Option Text)
    (entries : List HistoryEntry) (request_id : Text) (turn_seq : ℤ) (fallback : Text)
    → is_empty (trim_space request_id) ≡ false
    → (let id = trim_space request_id in
        derive_request_loop_status decode_metadata decode_call_id entries request_id turn_seq
          fallback
        ≡ on_found
            (last_end decode_metadata decode_call_id id turn_seq entries)
            (if has_open_call decode_metadata decode_call_id id turn_seq entries
              then codes "waiting_tool"
              else if any_active decode_metadata decode_call_id id turn_seq entries
              then codes "running"
              else idle_or fallback)
            (λ status. status))
unfolding derive_request_loop_status
derive_request_loop_status_lem m i entries request_id turn_seq fallback named =
    rw named (status_of-entries m i (trim_space request_id) turn_seq entries fallback)
