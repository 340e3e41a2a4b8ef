-- ===== src/Rewind/Earliest.antt =====
-- rewind.go: which of several messages with one id a run goes back to.
use cursor_byok_lite.Prelude.{
  ◌≡◌, true, false, inl, inr, List, [], ◌∷◌, none, arith, All, Bool-cases, subst, sym, ◌⊎◌, ◌≤◌,
}
use cursor_byok_lite.Prelude.Int.{◌≤ℤ◌, ◌<ℤ◌}
use cursor_byok_lite.History.{HistoryEntry}
use cursor_byok_lite.Rewind.{earlier_history_entry, earliest, select_run_rewind_match}

earlier_irrefl : (s : HistoryEntry) → earlier_history_entry s s ≡ false
unfolding earlier_history_entry
earlier_irrefl s = ground arith

-- The order as a relation, with equal keys included.
abbrev IsAtMost : HistoryEntry → HistoryEntry → Type 0
IsAtMost l r =
    (l.turn_seq <ℤ r.turn_seq)
    ⊎ ((l.turn_seq ≤ℤ r.turn_seq)
        × ((l.seq <ℤ r.seq) ⊎ ((l.seq ≤ℤ r.seq) × (l.created_at ≤ r.created_at))))

late-IsAtMost : (l r : HistoryEntry) → earlier_history_entry r l ≡ false → IsAtMost l r
unfolding earlier_history_entry
late-IsAtMost l r h = ground arith

earlier-IsAtMost : (l r : HistoryEntry) → earlier_history_entry l r ≡ true → IsAtMost l r
unfolding earlier_history_entry
earlier-IsAtMost l r h = ground arith

IsAtMost-late : (l r : HistoryEntry) → IsAtMost l r → earlier_history_entry r l ≡ false
unfolding earlier_history_entry
IsAtMost-late l r h = ground arith

IsAtMost-trans : (l m r : HistoryEntry) → IsAtMost l m → IsAtMost m r → IsAtMost l r
IsAtMost-trans l m r (inl a) (inl b) = inl (omega arith)
IsAtMost-trans l m r (inl a) (inr b) = inl (omega arith)
IsAtMost-trans l m r (inr a) (inl b) = inl (omega arith)
IsAtMost-trans l m r (inr (a, inl c)) (inr (b, inl d)) = inr (omega arith, inl (omega arith))
IsAtMost-trans l m r (inr (a, inl c)) (inr (b, inr d)) = inr (omega arith, inl (omega arith))
IsAtMost-trans l m r (inr (a, inr c)) (inr (b, inl d)) = inr (omega arith, inl (omega arith))
IsAtMost-trans l m r (inr (a, inr c)) (inr (b, inr d)) =
    inr (omega arith, inr (omega arith, omega arith))

-- What is not before an entry is not before an earlier one.
earlier-carries :
    (d m s : HistoryEntry)
    → earlier_history_entry m s ≡ true
    → earlier_history_entry d s ≡ false
    → earlier_history_entry d m ≡ false
earlier-carries d m s h g =
    IsAtMost-late m d (IsAtMost-trans m s d (earlier-IsAtMost m s h) (late-IsAtMost s d g))

earliest-carries :
    (d s : HistoryEntry) (es : List HistoryEntry)
    → earlier_history_entry d s ≡ false
    → earlier_history_entry d (earliest s es) ≡ false
unfolding earliest
earliest-carries d s [] h = h
earliest-carries d s (e ∷ es) h = elim (Bool-cases (earlier_history_entry e s)) [
  | inl b ↦ rw b (earliest-carries d e es (earlier-carries d e s b h))
  | inr b ↦ rw b (earliest-carries d s es h)
]

earliest-All :
    (s : HistoryEntry) (es : List HistoryEntry)
    → All (λ d. earlier_history_entry d (earliest s es) ≡ false) es
unfolding earliest
earliest-All s [] = tt
earliest-All s (e ∷ es) = elim (Bool-cases (earlier_history_entry e s)) [
  | inl b ↦
      let first : earliest s (e ∷ es) ≡ earliest e es = rw b in
      subst (λ r. All (λ d. earlier_history_entry d r ≡ false) (e ∷ es)) (sym first)
        (earliest-carries e e es (earlier_irrefl e), earliest-All e es)
  | inr b ↦
      let first : earliest s (e ∷ es) ≡ earliest s es = rw b in
      subst (λ r. All (λ d. earlier_history_entry d r ≡ false) (e ∷ es)) (sym first)
        (earliest-carries e s es b, earliest-All s es)
]

-- Without a count of the client's turns, no match is earlier than the one that is selected.
pub select_run_rewind_match-earliest :
    (e : HistoryEntry) (es : List HistoryEntry)
    → All (λ d. earlier_history_entry d (select_run_rewind_match e es none).0 ≡ false) (e ∷ es)
unfolding select_run_rewind_match
select_run_rewind_match-earliest e es =
    (earliest-carries e e es (earlier_irrefl e), earliest-All e es)
