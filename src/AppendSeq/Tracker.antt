-- ===== src/AppendSeq/Tracker.antt =====
-- append_seq.go: what becomes of a request that is quiet for longer than the retention.
use cursor_byok_lite.Prelude.{
  ℕ, ◌-◌, ◌<◌, ◌≡◌, refl, ap, ◌∙◌, true, false, List, [], ◌∷◌, ◌++◌, none, some, arith, length,
  get_elem?,
}
use cursor_byok_lite.Prelude.Int.{pos}
use cursor_byok_lite.Prelude.Text.{Text, trim_space}
use cursor_byok_lite.Prelude.Store.{lookup}
use cursor_byok_lite.AppendSeq.{
  AppendSequenceState, AppendSequenceTracker, append_sequence_retention, expired, blocked, attempt,
  purge, fresh, state_of, is_unordered, outcome, no_ticket, acquire,
}

lookup-purge :
    (cutoff : ℕ) (heap : List AppendSequenceState) (k : Text) (states : List (Text × ℕ))
    → lookup k states ≡ none
    → lookup k (purge cutoff heap states) ≡ none
unfolding lookup purge
lookup-purge cutoff heap k [] h = h
lookup-purge cutoff heap k ((j, address) ∷ rest) h = ground (arith, lookup-purge cutoff heap k rest)

-- An expired state is dropped, wherever it stands, and with it the only state of its key.
purge-expired :
    (cutoff address : ℕ) (k : Text) (state : AppendSequenceState) (before rest : List (Text × ℕ))
    (heap : List AppendSequenceState)
    → get_elem? heap address ≡ some state
    → expired cutoff state ≡ true
    → lookup k before ≡ none
    → lookup k rest ≡ none
    → lookup k (purge cutoff heap (before ++ (k, address) ∷ rest)) ≡ none
unfolding purge lookup
purge-expired cutoff address k state [] rest heap found old first only =
    rw (found, old) (lookup-purge cutoff heap k rest only)
purge-expired cutoff address k state ((j, other) ∷ before) rest heap found old first only =
    let apart : lookup k before ≡ none = ground (arith, first) in
    let deeper = purge-expired cutoff address k state before rest heap found old apart only in
    ground (arith, first, deeper)

get_elem?-append {ℓ} :
    {A : Type ℓ} (xs : List A) (x : A) → get_elem? (xs ++ x ∷ []) (length xs) ≡ some x
get_elem?-append [] x = refl
get_elem?-append (y ∷ xs) x = get_elem?-append xs x

-- `acquire` for a request that has no state, or none that is kept: numbering begins anew.
state_of-fresh :
    (now : ℕ) (k : Text) (tracker : AppendSequenceTracker)
    → lookup k (purge (now - append_sequence_retention) tracker.heap tracker.states) ≡ none
    → get_elem? (state_of now k tracker).0.heap (state_of now k tracker).1 ≡ some (fresh now)
unfolding state_of
state_of-fresh now k tracker h = rw h (get_elem?-append tracker.heap (fresh now))

fresh-attempt : (now n : ℕ) → 1 < n → (attempt now (pos n) (fresh now)).1 ≡ blocked
unfolding attempt fresh
fresh-attempt now n h = ground arith

-- An append that is the next one of its request, and not the first, waits, if the state of the
-- request has expired: the tracker has begun to number anew. The tracker may have states of other
-- requests, in any places, and has one for this request.
pub acquire-expired :
    (now address n : ℕ) (request_id : Text) (state : AppendSequenceState)
    (before rest : List (Text × ℕ)) (tracker : AppendSequenceTracker)
    → tracker.states ≡ before ++ (trim_space request_id, address) ∷ rest
    → lookup (trim_space request_id) before ≡ none
    → lookup (trim_space request_id) rest ≡ none
    → get_elem? tracker.heap address ≡ some state
    → expired (now - append_sequence_retention) state ≡ true
    → is_unordered request_id (pos n) ≡ false
    → state.next ≡ pos n
    → 1 < n
    → (acquire now request_id (pos n) tracker).1 ≡ outcome blocked no_ticket
unfolding acquire
acquire-expired now address n request_id state before rest tracker keys first only found old ordered
      turn later =
    let cutoff = now - append_sequence_retention in
    let gone =
      purge-expired cutoff address (trim_space request_id) state before rest tracker.heap found old
        first only in
    let empty =
      ap (λ m. lookup (trim_space request_id) (purge cutoff tracker.heap m)) keys ∙ gone in
    rw
      (ordered, state_of-fresh now (trim_space request_id) tracker empty, fresh-attempt now n later)
