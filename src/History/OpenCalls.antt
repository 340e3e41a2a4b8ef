-- ===== src/History/OpenCalls.antt =====
-- The status of a loop against a description of the request's entries.
pub mod Status
pub mod Derived
use cursor_byok_lite.Prelude.{
  ◌≡◌, refl, sym, ap, subst, ◌∙◌, Bool, true, false, not, ◌&&◌, ◌||◌, List, [], ◌∷◌, Option, none,
  some, inl, inr, arith, if◌then◌else◌, on_found, is_nil, Bool-cases, Option-cases,
}
use cursor_byok_lite.Prelude.Int.{ℤ}
use cursor_byok_lite.Prelude.Text.{
  Text, codes, str_eq, str_eq_iff, str_eq_refl, is_empty, trim_space,
}
use cursor_byok_lite.Prelude.Store.{lookup, insert, erase, lookup-insert, lookup-erase}
use cursor_byok_lite.History.{HistoryEntry}
use cursor_byok_lite.History.Loop.{
  is_of, has_kind, LoopScan, MetadataPayload, nothing_seen, scan_metadata, scan_entry, scan_entries,
  status_of, derive_request_loop_status, idle_or, history_entry_tool_call_id, call_key,
}

pub is_open : Text → List (Text × Bool) → Bool
is_open key calls = on_found (lookup key calls) false (λ found. true)

is_open-insert :
    (key k : Text) (calls : List (Text × Bool))
    → is_open key (insert k true calls) ≡ (str_eq k key || is_open key calls)
unfolding is_open
is_open-insert key k calls = elim (Bool-cases (str_eq k key)) [
  | inl e ↦ rw (lookup-insert, e) refl
  | inr e ↦ rw (lookup-insert, e) refl
]

is_open-erase :
    (key k : Text) (calls : List (Text × Bool))
    → is_open key (erase k calls) ≡ (is_open key calls && not (str_eq k key))
unfolding is_open
is_open-erase key k calls = elim (Bool-cases (str_eq k key)) [
  | inl e ↦ rw (lookup-erase, e) (ground arith)
  | inr e ↦ rw (lookup-erase, e) (ground arith)
]

-- Entries of text that are part of a request.
abbrev is_text : HistoryEntry → Bool
is_text entry =
    has_kind entry (codes "assistant_text")
    || has_kind entry (codes "prompt_context")
    || has_kind entry (codes "request_context")
    || has_kind entry (codes "user_message")

-- The end of the request that a metadata payload names.
end_of_payload : MetadataPayload → Option Text
end_of_payload payload =
    let type_name = trim_space payload.type_name in
    let canceled =
      if str_eq (trim_space payload.status) (codes "canceled")
      then some (codes "canceled")
      else none in
    if str_eq type_name (codes "turn_completed")
    then some (codes "completed")
    else if str_eq type_name (codes "provider_error")
    then some (codes "provider_error")
    else if str_eq type_name (codes "failed")
    then some (codes "failed")
    else if str_eq type_name (codes "control")
    then canceled
    else none

abbrev starts_run : MetadataPayload → Bool
starts_run payload = str_eq (trim_space payload.type_name) (codes "run_request")

-- A text is no other text.
other_text : (t a b : Text) → str_eq t a ≡ true → str_eq a b ≡ false → str_eq t b ≡ false
other_text t a b e f = ap (λ x. str_eq x b) ((str_eq_iff t a).0 e) ∙ f

record Recorded (scan after : LoopScan) (found : Option Text) (active : Bool) : Type 0 where
  calls : after.open_tool_calls ≡ scan.open_tool_calls
  end : after.terminal_status ≡ on_found found scan.terminal_status (λ status. status)
  seen : after.seen_activity ≡ (active || scan.seen_activity)

scan_metadata-Recorded :
    (payload : MetadataPayload) (scan : LoopScan)
    → Recorded scan (scan_metadata payload scan) (end_of_payload payload) (starts_run payload)
unfolding scan_metadata end_of_payload str_eq
scan_metadata-Recorded payload scan =
    let type_name = trim_space payload.type_name in
    let run = codes "run_request" in
    elim (Bool-cases (str_eq type_name (codes "turn_completed"))) [
      | inl a ↦
          rw (a, other_text type_name _ run a refl)
            (record { calls = refl; end = refl; seen = refl })
      | inr a ↦ elim (Bool-cases (str_eq type_name (codes "provider_error"))) [
        | inl b ↦
            rw (a, b, other_text type_name _ run b refl)
              (record { calls = refl; end = refl; seen = refl })
        | inr b ↦ elim (Bool-cases (str_eq type_name (codes "failed"))) [
          | inl c ↦
              rw (a, b, c, other_text type_name _ run c refl)
                (record { calls = refl; end = refl; seen = refl })
          | inr c ↦ elim (Bool-cases (str_eq type_name (codes "control"))) [
            | inl d ↦ elim (Bool-cases (str_eq (trim_space payload.status) (codes "canceled"))) [
              | inl f ↦
                  rw (a, b, c, d, f, other_text type_name _ run d refl)
                    (record { calls = refl; end = refl; seen = refl })
              | inr f ↦
                  rw (a, b, c, d, f, other_text type_name _ run d refl)
                    (record { calls = refl; end = refl; seen = refl })
            ]
            | inr d ↦ elim (Bool-cases (str_eq type_name (codes "run_request"))) [
              | inl f ↦ rw (a, b, c, d, f) (record { calls = refl; end = refl; seen = refl })
              | inr f ↦ rw (a, b, c, d, f) (record { calls = refl; end = refl; seen = refl })
            ]
          ]
        ]
      ]
    ]

text_is_no_metadata :
    (entry : HistoryEntry) → is_text entry ≡ true → has_kind entry (codes "metadata") ≡ false
unfolding str_eq
text_is_no_metadata entry h = elim (Bool-cases (has_kind entry (codes "metadata"))) [
  | inr e ↦ e
  | inl e ↦
      let kind = trim_space entry.kind in
      absurd (
        ground (
          arith,
          h,
          other_text kind _ (codes "assistant_text") e refl,
          other_text kind _ (codes "prompt_context") e refl,
          other_text kind _ (codes "request_context") e refl,
          other_text kind _ (codes "user_message") e refl,
        ))
]

module _ (decode_metadata : Text → Option MetadataPayload)
    (decode_call_id : Text → Option Text) where
  abbrev is_call : HistoryEntry → Bool
  is_call entry = has_kind entry (codes "tool_call")

  -- A result of the call with a key. A result without an id answers no call.
  abbrev answers : HistoryEntry → Text → Bool
  answers entry key =
      let id = history_entry_tool_call_id decode_metadata decode_call_id entry in
      has_kind entry (codes "tool_result") && not (is_empty id) && str_eq id key

  abbrev end_of : HistoryEntry → Option Text
  end_of entry =
      let found = on_found (decode_metadata entry.payload) none end_of_payload in
      if has_kind entry (codes "metadata") then found else none

  -- Entries that show that the request is at work.
  abbrev is_active : HistoryEntry → Bool
  is_active entry =
      is_call entry
      || has_kind entry (codes "tool_result")
      || is_text entry
      || has_kind entry (codes "metadata")
        && on_found (decode_metadata entry.payload) false starts_run

  abbrev Scanned : HistoryEntry → LoopScan → LoopScan → Type 0
  Scanned entry scan after =
      ((key : Text)
        → is_open key after.open_tool_calls ≡ (
            is_call entry && str_eq (call_key decode_metadata decode_call_id entry) key
            || is_open key scan.open_tool_calls && not (answers entry key)))
      × (after.terminal_status ≡ on_found (end_of entry) scan.terminal_status (λ status. status))
      × (after.seen_activity ≡ (is_active entry || scan.seen_activity))

  keeps : (b : Bool) → b ≡ (b && true)
  keeps true = refl
  keeps false = refl

  scan_entry-Scanned :
      (entry : HistoryEntry) (scan : LoopScan)
      → Scanned entry scan (scan_entry decode_metadata decode_call_id scan entry)
  unfolding scan_entry str_eq
  scan_entry-Scanned entry scan =
      let kind = trim_space entry.kind in
      let id = history_entry_tool_call_id decode_metadata decode_call_id entry in
      let key_of = call_key decode_metadata decode_call_id entry in
      let calls = scan.open_tool_calls in
      elim (Bool-cases (has_kind entry (codes "tool_call"))) [
        | inl a ↦
            rw
              (
                a,
                other_text kind _ (codes "tool_result") a refl,
                other_text kind _ (codes "metadata") a refl,
              )
              (
                λ key.
                    is_open-insert key key_of calls
                    ∙ ap (λ b. str_eq key_of key || b) (keeps (is_open key calls)),
                refl,
                refl,
              )
        | inr a ↦ elim (Bool-cases (has_kind entry (codes "tool_result"))) [
          | inl b ↦ elim (Bool-cases (is_empty id)) [
            | inl n ↦
                rw (a, b, n, other_text kind _ (codes "metadata") b refl)
                  (λ key. keeps (is_open key calls), refl, refl)
            | inr n ↦
                rw (a, b, n, other_text kind _ (codes "metadata") b refl)
                  (λ key. is_open-erase key id calls, refl, refl)
          ]
          | inr b ↦ elim (Bool-cases (is_text entry)) [
            | inl c ↦
                rw (a, b, c, text_is_no_metadata entry c)
                  (λ key. keeps (is_open key calls), refl, refl)
            | inr c ↦ elim (Bool-cases (has_kind entry (codes "metadata"))) [
              | inl d ↦ elim (Option-cases (decode_metadata entry.payload)) [
                | inl m ↦ rw (a, b, c, d, m) (λ key. keeps (is_open key calls), refl, refl)
                | inr (payload, m) ↦
                    let r = scan_metadata-Recorded payload scan in
                    rw (a, b, c, d, m)
                      (λ key. ap (is_open key) r.calls ∙ keeps (is_open key calls), r.end, r.seen)
              ]
              | inr d ↦ rw (a, b, c, d) (λ key. keeps (is_open key calls), refl, refl)
            ]
          ]
        ]
      ]
