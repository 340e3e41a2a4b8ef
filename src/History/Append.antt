-- ===== src/History/Append.antt =====
-- file_store.go: the numbers that appended entries get.
use cursor_byok_lite.Prelude.{
  ℕ, suc, ◌+◌, ◌≤◌, ◌≡◌, refl, ap, ◌∙◌, true, List, [], ◌∷◌, ◌++◌, arith, length, All, All-append,
  sym, append-nil, ◌==◌, if◌then◌else◌,
}
use cursor_byok_lite.Prelude.Int.{ℤ, pos, ◌≤ℤ◌, ◌<ℤ◌, leb_ℤ, add64-pos, i64_max}
use cursor_byok_lite.History.{
  HistoryEntry, ConversationFile, stamp, stamp_all, append_entries_in_place,
}

-- An entry that has no number yet.
abbrev pub IsFresh : HistoryEntry → Type 0
IsFresh e = e.seq ≤ℤ pos 0

abbrev pub IsBelow : ℕ → HistoryEntry → Type 0
IsBelow n e = e.seq <ℤ pos n

-- An entry with another number, and the time of the append where it had none.
abbrev pub with_number : ℕ → ℤ → HistoryEntry → HistoryEntry
with_number now number entry = record entry {
  seq = number;
  created_at = if entry.created_at == 0 then now else entry.created_at;
}

-- The entries with the numbers n, n + 1, n + 2, …
abbrev pub numbered_from : ℕ → ℕ → List HistoryEntry → List HistoryEntry
numbered_from now n [] = []
numbered_from now n (e ∷ es) = with_number now (pos n) e ∷ numbered_from now (suc n) es

IsBelow-weaken :
    (m n : ℕ) (es : List HistoryEntry) → m ≤ n → All (IsBelow m) es → All (IsBelow n) es
IsBelow-weaken m n [] le h = tt
IsBelow-weaken m n (e ∷ es) le (he, h) = (omega arith, IsBelow-weaken m n es le h)

stamp-fresh :
    (now n : ℕ) (e : HistoryEntry)
    → IsFresh e
    → n + 1 ≤ i64_max
    → (stamp now (pos n) e).0 ≡ with_number now (pos n) e × ((stamp now (pos n) e).1 ≡ pos (suc n))
unfolding stamp
stamp-fresh now n e f room =
    let p : leb_ℤ e.seq (pos 0) ≡ true = ground arith in
    let q : n + 1 ≡ suc n = omega arith in (rw p refl, rw p (add64-pos n 1 room ∙ ap pos q))

stamp_all-fresh :
    (now n : ℕ) (es : List HistoryEntry)
    → All IsFresh es
    → n + length es ≤ i64_max
    → ((stamp_all now (pos n) es).0 ≡ numbered_from now n es)
      × ((stamp_all now (pos n) es).1 ≡ pos (n + length es))
unfolding stamp_all
stamp_all-fresh now n [] h room = (refl, let q : n ≡ n + 0 = omega arith in ap pos q)
stamp_all-fresh now n (e ∷ es) (f, h) room =
    let (first, after) = stamp-fresh now n e f (omega arith) in
    let (others, last) = stamp_all-fresh now (suc n) es h (omega arith) in
    let q : suc n + length es ≡ n + suc (length es) = omega arith in
    rw (after, first, others) (refl, last ∙ ap pos q)

numbered_from-IsBelow :
    (now n : ℕ) (es : List HistoryEntry) → All (IsBelow (n + length es)) (numbered_from now n es)
numbered_from-IsBelow now n [] = tt
numbered_from-IsBelow now n (e ∷ es) = (
  omega arith,
  IsBelow-weaken (suc n + length es) (n + suc (length es)) (numbered_from now (suc n) es)
      (omega arith) (numbered_from-IsBelow now (suc n) es),
)

-- Entries without a number that are appended to a history stand behind it in their order, each with
-- the next number, the time of the append where it had none, and otherwise as it was. The next number
-- of the history is above all its numbers again. Before the append the numbers are below the next
-- number, and there is room for the new ones.
pub append_entries_in_place-numbered_from :
    (now n : ℕ) (conversation : ConversationFile) (entries : List HistoryEntry)
    → conversation.next_entry_seq ≡ pos n
    → All (IsBelow n) conversation.entries
    → All IsFresh entries
    → n + length entries ≤ i64_max
    → (let (after, assigned) = append_entries_in_place now conversation entries in
        (assigned ≡ numbered_from now n entries)
        × (after.entries ≡ conversation.entries ++ assigned)
        × (after.next_entry_seq ≡ pos (n + length entries))
        × All (IsBelow (n + length entries)) after.entries)
unfolding append_entries_in_place
append_entries_in_place-numbered_from now n c [] next below fresh room =
    let q : n ≡ n + 0 = omega arith in
    (
      refl,
      sym (append-nil c.entries),
      next ∙ ap pos q,
      IsBelow-weaken n (n + 0) c.entries (omega arith) below,
    )
append_entries_in_place-numbered_from now n c (e ∷ es) next below fresh room =
    let (numbers, last) = stamp_all-fresh now n (e ∷ es) fresh room in
    let kept = IsBelow-weaken n (n + suc (length es)) c.entries (omega arith) below in
    rw (next, numbers)
      (
        refl,
        refl,
        last,
        All-append (IsBelow (n + suc (length es))) c.entries (numbered_from now n (e ∷ es)) kept
            (numbered_from-IsBelow now n (e ∷ es)),
      )
