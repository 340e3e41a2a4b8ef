-- ===== src/History/OpenCalls/Status.antt =====
-- What the derived status of a request says of its entries.
use cursor_byok_lite.Prelude.{
  ◌≡◌, refl, sym, ap, subst, ◌∙◌, Bool, true, false, not, ◌&&◌, ◌||◌, List, [], ◌∷◌, Option, none,
  some, inl, inr, arith, if◌then◌else◌, on_found, is_nil, Bool-cases, or_right,
}
use cursor_byok_lite.Prelude.Int.{ℤ}
use cursor_byok_lite.Prelude.Text.{Text, str_eq, str_eq_iff, str_eq_refl}
use cursor_byok_lite.Prelude.Store.{lookup}
use cursor_byok_lite.History.{HistoryEntry}
use cursor_byok_lite.History.Loop.{
  is_of, LoopScan, MetadataPayload, scan_entry, scan_entries, call_key,
}
use cursor_byok_lite.History.OpenCalls.{
  is_open, is_call, answers, end_of, is_active, scan_entry-Scanned,
}

open_step :
    (left call was answer later : Bool)
    → (left || (call || was && not answer) && not later)
      ≡ ((call && not later || left) || was && not (answer || later))
open_step false false was answer later = ground arith
open_step false true was answer later = ground arith
open_step true false was answer later = ground arith
open_step true true was answer later = ground arith

latest :
    (found here : Option Text) (before : Text)
    → on_found found (on_found here before (λ status. status)) (λ status. status)
      ≡ on_found (on_found found here some) before (λ status. status)
latest none here before = refl
latest (some status) here before = refl

call_is_left :
    (own call same answer later left : Bool)
    → same ≡ true
    → later ≡ false
    → (own && call && not answer || later) ≡ true
    → (own && (call && same) && not answer || left) ≡ true
call_is_left own call same answer later left = ground arith

left_is_call :
    (own call same answer answer' later left : Bool)
    → (same ≡ true → answer ≡ answer')
    → (left ≡ true → later ≡ true)
    → (own && (call && same) && not answer || left) ≡ true
    → (own && call && not answer' || later) ≡ true
left_is_call own call same answer answer' later left = ground arith

module _ (decode_metadata : Text → Option MetadataPayload) (decode_call_id : Text → Option Text)
    (request_id : Text) (turn_seq : ℤ) where
  -- A result of the call with a key among the request's entries.
  abbrev answered : Text → List HistoryEntry → Bool
  answered key [] = false
  answered key (entry ∷ entries) =
      let later = answered key entries in
      is_of request_id turn_seq entry && answers decode_metadata decode_call_id entry key || later

  -- A call of the request that no later entry answers.
  abbrev pub has_open_call : List HistoryEntry → Bool
  has_open_call [] = false
  has_open_call (entry ∷ entries) =
      let later = has_open_call entries in
      is_of request_id turn_seq entry
        && is_call decode_metadata decode_call_id entry
        && not (answered (call_key decode_metadata decode_call_id entry) entries)
      || later

  pub left_open : Text → List HistoryEntry → Bool
  left_open key [] = false
  left_open key (entry ∷ entries) =
      let later = left_open key entries in
      is_of request_id turn_seq entry
        && (is_call decode_metadata decode_call_id entry
            && str_eq (call_key decode_metadata decode_call_id entry) key)
        && not (answered key entries)
      || later

  -- The last end that the request's metadata name.
  abbrev pub last_end : List HistoryEntry → Option Text
  last_end [] = none
  last_end (entry ∷ entries) =
      let later = last_end entries in
      on_found later
        (if is_of request_id turn_seq entry
          then end_of decode_metadata decode_call_id entry
          else none)
        some

  abbrev pub any_active : List HistoryEntry → Bool
  any_active [] = false
  any_active (entry ∷ entries) =
      let later = any_active entries in
      is_of request_id turn_seq entry && is_active decode_metadata decode_call_id entry || later

  unfoldable pub ScannedAll : List HistoryEntry → LoopScan → LoopScan → Type 0
  ScannedAll entries scan after =
      ((key : Text)
        → is_open key after.open_tool_calls ≡ (
            left_open key entries
            || is_open key scan.open_tool_calls && not (answered key entries)))
      × (after.terminal_status
          ≡ on_found (last_end entries) scan.terminal_status (λ status. status))
      × (after.seen_activity ≡ (any_active entries || scan.seen_activity))

  or_assoc : (a b c : Bool) → (a || (b || c)) ≡ ((b || a) || c)
  or_assoc false false c = refl
  or_assoc false true c = refl
  or_assoc true false c = refl
  or_assoc true true c = refl

  and_true : (b : Bool) → b ≡ (b && true)
  and_true true = refl
  and_true false = refl

  pub scan_entries-ScannedAll :
      (entries : List HistoryEntry) (scan : LoopScan)
      → ScannedAll entries scan
          (scan_entries decode_metadata decode_call_id request_id turn_seq scan entries)
  unfolding scan_entries ScannedAll left_open
  scan_entries-ScannedAll [] scan = (λ key. and_true (is_open key scan.open_tool_calls), refl, refl)
  scan_entries-ScannedAll (entry ∷ entries) scan =
      let next = scan_entry decode_metadata decode_call_id scan entry in
      let rest = λ (s : LoopScan).
        scan_entries decode_metadata decode_call_id request_id turn_seq s entries in
      let (calls, end, seen) = scan_entry-Scanned decode_metadata decode_call_id entry scan in
      let step = λ (b : Bool). rest (if b then next else scan) in
      elim (Bool-cases (is_of request_id turn_seq entry)) [
        | inl own ↦
            let (calls_after, end_after, seen_after) = scan_entries-ScannedAll entries next in
            let one : ScannedAll (entry ∷ entries) scan (rest next) = rw own (
              λ key.
                  calls_after key
                  ∙ ap (λ b. left_open key entries || b && not (answered key entries)) (calls key)
                  ∙ open_step (left_open key entries)
                      (is_call decode_metadata decode_call_id entry
                        && str_eq (call_key decode_metadata decode_call_id entry) key)
                      (is_open key scan.open_tool_calls)
                      (answers decode_metadata decode_call_id entry key) (answered key entries),
              end_after
                  ∙ ap (λ t. on_found (last_end entries) t (λ status. status)) end
                  ∙ latest (last_end entries) (end_of decode_metadata decode_call_id entry)
                      scan.terminal_status,
              seen_after
                  ∙ ap (λ b. any_active entries || b) seen
                  ∙ or_assoc (any_active entries) (is_active decode_metadata decode_call_id entry)
                      scan.seen_activity,
            ) in
            subst (ScannedAll (entry ∷ entries) scan) (sym (ap step own)) one
        | inr foreign ↦
            let (calls_after, end_after, seen_after) = scan_entries-ScannedAll entries scan in
            let one : ScannedAll (entry ∷ entries) scan (rest scan) = rw foreign (
              calls_after,
              end_after ∙ latest (last_end entries) none scan.terminal_status,
              seen_after,
            ) in
            subst (ScannedAll (entry ∷ entries) scan) (sym (ap step foreign)) one
      ]

  left_open-has_open_call :
      (key : Text) (entries : List HistoryEntry)
      → left_open key entries ≡ true
      → has_open_call entries ≡ true
  unfolding left_open
  left_open-has_open_call key [] h = absurd (ground (arith, h))
  left_open-has_open_call key (entry ∷ entries) h =
      let mine = call_key decode_metadata decode_call_id entry in
      left_is_call (is_of request_id turn_seq entry) (is_call decode_metadata decode_call_id entry)
        (str_eq mine key) (answered key entries) (answered mine entries) (has_open_call entries)
        (left_open key entries)
        (λ e. ap (λ k. answered k entries) (sym ((str_eq_iff mine key).0 e)))
        (left_open-has_open_call key entries) h

  has_open_call-left_open :
      (entries : List HistoryEntry)
      → has_open_call entries ≡ true
      → (key : Text) × (left_open key entries ≡ true)
  unfolding left_open
  has_open_call-left_open [] h = absurd (ground (arith, h))
  has_open_call-left_open (entry ∷ entries) h =
      let mine = call_key decode_metadata decode_call_id entry in
      elim (Bool-cases (has_open_call entries)) [
        | inl later ↦
            let (key, found) = has_open_call-left_open entries later in (key, or_right _ _ found)
        | inr none_later ↦ (
          mine,
          call_is_left (is_of request_id turn_seq entry)
              (is_call decode_metadata decode_call_id entry) (str_eq mine mine)
              (answered mine entries) (has_open_call entries) (left_open mine entries)
              (str_eq_refl mine) none_later h,
        )
      ]

  -- The table of open calls is empty exactly where the request has no open call.
  pub open_tool_calls_lem :
      (entries : List HistoryEntry) (calls : List (Text × Bool))
      → ((key : Text) → is_open key calls ≡ left_open key entries)
      → is_nil calls ≡ not (has_open_call entries)
  unfolding is_open lookup
  open_tool_calls_lem entries [] same = elim (Bool-cases (has_open_call entries)) [
    | inl e ↦
        let (key, found) = has_open_call-left_open entries e in
        absurd (ground (arith, found, same key))
    | inr e ↦ rw e refl
  ]
  open_tool_calls_lem entries ((key, found) ∷ calls) same =
      let listed : left_open key entries ≡ true = sym (same key) ∙ rw (str_eq_refl key) refl in
      rw (left_open-has_open_call key entries listed) refl
