-- ===== src/History/Status.antt =====
-- The statuses of a loop: what is derived is a status, and as a fallback it gives itself.
use cursor_byok_lite.Prelude.{
  ◌≡◌, refl, ap, ◌∙◌, Bool, true, false, not, ◌||◌, List, [], ◌∷◌, Option, ◌⊎◌, inl, inr, arith,
  on_found, is_nil, Bool-cases, Option-cases, either,
}
use cursor_byok_lite.Prelude.Int.{ℤ}
use cursor_byok_lite.Prelude.Text.{Text, codes, str_eq, is_empty, trim_space, trim_space_idem}
use cursor_byok_lite.Registry.{first_non_empty}
use cursor_byok_lite.History.{HistoryEntry}
use cursor_byok_lite.History.Loop.{
  is_of, LoopScan, MetadataPayload, nothing_seen, scan_metadata, scan_entry, scan_entries,
  status_of, derive_request_loop_status, idle_or,
}

-- A status that is not empty and stands without spaces.
IsStatus : Text → Type 0
IsStatus status = (trim_space status ≡ status) × (is_empty status ≡ false)

-- The words of the source are statuses.
word : (status : Text) → trim_space status ≡ status → is_empty status ≡ false → IsStatus status
unfolding IsStatus
word status trimmed filled = (trimmed, filled)

idle-IsStatus : IsStatus (codes "idle")
unfolding trim_space
idle-IsStatus = word _ refl refl

completed-IsStatus : IsStatus (codes "completed")
unfolding trim_space
completed-IsStatus = word _ refl refl

provider_error-IsStatus : IsStatus (codes "provider_error")
unfolding trim_space
provider_error-IsStatus = word _ refl refl

failed-IsStatus : IsStatus (codes "failed")
unfolding trim_space
failed-IsStatus = word _ refl refl

canceled-IsStatus : IsStatus (codes "canceled")
unfolding trim_space
canceled-IsStatus = word _ refl refl

waiting_tool-IsStatus : IsStatus (codes "waiting_tool")
unfolding trim_space
waiting_tool-IsStatus = word _ refl refl

running-IsStatus : IsStatus (codes "running")
unfolding trim_space
running-IsStatus = word _ refl refl

trimmed-IsStatus : (s : Text) → is_empty (trim_space s) ≡ false → IsStatus (trim_space s)
unfolding IsStatus
trimmed-IsStatus s h = (trim_space_idem s, h)

idle_or-IsStatus : (status : Text) → IsStatus (idle_or status)
unfolding first_non_empty trim_space
idle_or-IsStatus status = elim (Bool-cases (is_empty (trim_space (trim_space status)))) [
  | inl e ↦ rw e idle-IsStatus
  | inr e ↦ rw e (trimmed-IsStatus (trim_space status) e)
]

idle_or-same : (status : Text) → IsStatus status → idle_or status ≡ status
unfolding IsStatus first_non_empty
idle_or-same status (trimmed, filled) =
    let twice = ap trim_space trimmed ∙ trimmed in
    let full : is_empty (trim_space (trim_space status)) ≡ false = ap is_empty twice ∙ filled in
    rw full twice

-- A terminal status is empty or a status.
Terminal : LoopScan → Type 0
Terminal scan = (is_empty scan.terminal_status ≡ true) ⊎ IsStatus scan.terminal_status

with_word :
    (scan : LoopScan) (status : Text)
    → IsStatus status
    → Terminal (record scan { terminal_status = status })
unfolding Terminal
with_word scan status h = inr h

activity-Terminal :
    (scan : LoopScan) (open_calls : List (Text × Bool))
    → Terminal scan
    → Terminal (record scan { seen_activity = true; open_tool_calls = open_calls })
unfolding Terminal
activity-Terminal scan open_calls h = h

nothing_Terminal : Terminal nothing_seen
unfolding Terminal
nothing_Terminal = inl refl

scan_metadata-Terminal :
    (payload : MetadataPayload) (scan : LoopScan)
    → Terminal scan
    → Terminal (scan_metadata payload scan)
unfolding scan_metadata
scan_metadata-Terminal payload scan h =
    let is = λ (name : Text). str_eq (trim_space payload.type_name) name in
    either Terminal (is (codes "turn_completed")) _ _ (with_word scan _ completed-IsStatus) (
      either Terminal (is (codes "provider_error")) _ _ (with_word scan _ provider_error-IsStatus) (
        either Terminal (is (codes "failed")) _ _ (with_word scan _ failed-IsStatus) (
          either Terminal (is (codes "control")) _ _
            (either Terminal (str_eq (trim_space payload.status) (codes "canceled")) _ _
              (with_word scan _ canceled-IsStatus) h)
            (either Terminal (is (codes "run_request")) _ _
              (activity-Terminal scan scan.open_tool_calls h) h))))

module _ (decode_metadata : Text → Option MetadataPayload)
    (decode_call_id : Text → Option Text) where
  scan_entry-Terminal :
      (scan : LoopScan) (entry : HistoryEntry)
      → Terminal scan
      → Terminal (scan_entry decode_metadata decode_call_id scan entry)
  unfolding scan_entry
  scan_entry-Terminal scan entry h =
      let is = λ (kind : Text). str_eq (trim_space entry.kind) kind in
      let decoded : Terminal
          (on_found (decode_metadata entry.payload) scan (λ p. scan_metadata p scan)) =
        elim (Option-cases (decode_metadata entry.payload)) [
          | inl e ↦ rw e h
          | inr (payload, e) ↦ rw e (scan_metadata-Terminal payload scan h)
        ] in
      either Terminal (is (codes "tool_call")) _ _ (activity-Terminal scan _ h) (
        either Terminal (is (codes "tool_result")) _ _ (activity-Terminal scan _ h) (
          either Terminal
            (is (codes "assistant_text")
              || is (codes "prompt_context")
              || is (codes "request_context")
              || is (codes "user_message"))
            _ _ (activity-Terminal scan scan.open_tool_calls h)
            (either Terminal (is (codes "metadata")) _ _ decoded h)))

  scan_entries-Terminal :
      (id : Text) (turn : ℤ) (scan : LoopScan) (entries : List HistoryEntry)
      → Terminal scan
      → Terminal (scan_entries decode_metadata decode_call_id id turn scan entries)
  unfolding scan_entries
  scan_entries-Terminal id turn scan [] h = h
  scan_entries-Terminal id turn scan (entry ∷ entries) h = elim (Bool-cases (is_of id turn entry)) [
    | inl e ↦ rw e (
        scan_entries-Terminal id turn (scan_entry decode_metadata decode_call_id scan entry) entries
          (scan_entry-Terminal scan entry h))
    | inr e ↦ rw e (scan_entries-Terminal id turn scan entries h)
  ]

  status_of-IsStatus :
      (scan : LoopScan) (fallback : Text) → Terminal scan → IsStatus (status_of scan fallback)
  unfolding status_of Terminal
  status_of-IsStatus scan fallback h = elim (Bool-cases (not (is_empty scan.terminal_status))) [
    | inl e ↦ rw e (elim h [ inl no_word ↦ absurd (ground (arith, e, no_word)) | inr k ↦ k ])
    | inr e ↦ rw e (
        either IsStatus (not (is_nil scan.open_tool_calls)) _ _ waiting_tool-IsStatus
          (either IsStatus scan.seen_activity _ _ running-IsStatus (idle_or-IsStatus fallback)))
  ]

  status_of-again :
      (scan : LoopScan) (fallback : Text)
      → (let status = status_of in status scan (status scan fallback) ≡ status scan fallback)
  unfolding status_of
  status_of-again scan fallback = elim (Bool-cases (not (is_empty scan.terminal_status))) [
    | inl e ↦ rw e refl
    | inr e ↦ elim (Bool-cases (not (is_nil scan.open_tool_calls))) [
      | inl f ↦ rw (e, f) refl
      | inr f ↦ elim (Bool-cases scan.seen_activity) [
        | inl g ↦ rw (e, f, g) refl
        | inr g ↦ rw (e, f, g) (idle_or-same (idle_or fallback) (idle_or-IsStatus fallback))
      ]
    ]
  ]

  -- The status of a request is one, and as a fallback it gives itself.
  pub loop_status-again :
      (entries : List HistoryEntry) (id : Text) (turn : ℤ) (fallback : Text)
      → (let status = derive_request_loop_status decode_metadata decode_call_id entries id turn in
          status (idle_or (status fallback)) ≡ status fallback)
  unfolding derive_request_loop_status
  loop_status-again entries id turn fallback =
      let scan =
        scan_entries decode_metadata decode_call_id (trim_space id) turn nothing_seen entries in
      let terminal =
        scan_entries-Terminal (trim_space id) turn nothing_seen entries nothing_Terminal in
      elim (Bool-cases (is_empty (trim_space id))) [
        | inl e ↦ rw e (
            ap idle_or (idle_or-same _ (idle_or-IsStatus fallback))
            ∙ idle_or-same _ (idle_or-IsStatus fallback))
        | inr e ↦ rw e (
            ap (status_of scan) (idle_or-same _ (status_of-IsStatus scan fallback terminal))
            ∙ status_of-again scan fallback)
      ]
