-- ===== src/AppendSeq.antt =====
-- internal/backend/forwarder/append_seq.go: appends of one request are handled one at a time, in the
-- order of their sequence numbers. The states are objects that the tracker and the tickets share, so
-- they stand in a heap, and a pointer is an index of it. A time is a number, 0 the zero time. The
-- channel `ready` is known by how many times it has been closed and made anew; `none` is nil.
pub mod Queue
pub mod Tracker
use cursor_byok_lite.Prelude.{
  ℕ, suc, ◌+◌, ◌-◌, ◌*◌, Bool, true, false, not, ◌&&◌, ◌||◌, List, [], ◌∷◌, ◌++◌, Option, none,
  some, ltb, ◌==◌, if◌then◌else◌, length, get_elem?, set, on_found,
}
use cursor_byok_lite.Prelude.Int.{ℤ, pos, ltb_ℤ, leb_ℤ, eqb_ℤ, add64}
use cursor_byok_lite.Prelude.Text.{Text, is_empty, trim_space}
use cursor_byok_lite.Prelude.Store.{lookup, insert}

-- ten minutes, in nanoseconds
abbrev pub append_sequence_retention : ℕ
append_sequence_retention = 10 * 60 * 1_000_000_000

pub record AppendSequenceState : Type 0 where
  pub next : ℤ
  pub processing : Bool
  pub ready : Option ℕ
  pub updated_at : ℕ

pub record AppendSequenceTracker : Type 0 where
  pub states : List (Text × ℕ)
  pub heap : List AppendSequenceState

pub record AppendSequenceTicket : Type 0 where
  pub state : Option ℕ
  pub seq : ℤ

abbrev pub new_append_sequence_tracker : AppendSequenceTracker
new_append_sequence_tracker = record { states = []; heap = [] }

unfoldable pub expired : ℕ → AppendSequenceState → Bool
expired cutoff state =
    if state.processing then false else not (state.updated_at == 0) && ltb state.updated_at cutoff

unfoldable pub touch : ℕ → AppendSequenceState → AppendSequenceState
touch now state = record state { updated_at = now }

pub data Attempt : Type 0 where
  stale granted blocked : Attempt

abbrev or_made : Option ℕ → Option ℕ
or_made none = some 0
or_made (some n) = some n

-- One round of the loop of `acquire`, under the lock. After `blocked` the caller waits until `ready`
-- is closed, for the next round, or until its context is done.
unfoldable pub attempt : ℕ → ℤ → AppendSequenceState → AppendSequenceState × Attempt
attempt now append_seq state =
    let next = if leb_ℤ state.next (pos 0) then pos 1 else state.next in
    let ready : AppendSequenceState = record state {
      next = next;
      ready = or_made state.ready;
      updated_at = now;
    } in
    if ltb_ℤ append_seq next
    then (ready, stale)
    else if eqb_ℤ append_seq next && not state.processing
    then (record ready { processing = true }, granted)
    else (ready, blocked)

-- the channel is closed, which wakes all that wait on it, and made anew
abbrev reopened : Option ℕ → Option ℕ
reopened none = some 0
reopened (some n) = some (suc n)

unfoldable pub release : ℕ → ℤ → AppendSequenceState → AppendSequenceState
release now seq state =
    if leb_ℤ seq (pos 0)
    then state
    else if state.processing && eqb_ℤ state.next seq
    then record state {
      processing = false;
      next = add64 state.next (pos 1);
      ready = reopened state.ready;
      updated_at = now;
    }
    else record state { updated_at = now }

-- the keys whose state has not expired
purge : ℕ → List AppendSequenceState → List (Text × ℕ) → List (Text × ℕ)
purge cutoff heap [] = []
purge cutoff heap ((key, address) ∷ rest) =
    let kept = purge cutoff heap rest in
    if on_found (get_elem? heap address) true (expired cutoff) then kept else (key, address) ∷ kept

fresh : ℕ → AppendSequenceState
fresh now = record { next = pos 1; processing = false; ready = some 0; updated_at = now }

-- the address of the request's state
unfoldable pub state_of : ℕ → Text → AppendSequenceTracker → AppendSequenceTracker × ℕ
unfolding purge fresh
state_of now request_id tracker =
    let states = purge (now - append_sequence_retention) tracker.heap tracker.states in
    let address = length tracker.heap in
    on_found (lookup request_id states)
      (
        record { states = insert request_id address states; heap = tracker.heap ++ fresh now ∷ [] },
        address,
      )
      λ found. (
        record {
          states = states;
          heap =
              on_found (get_elem? tracker.heap found) tracker.heap
                (λ state. set tracker.heap found (touch now state));
        },
        found,
      )

-- an append that the tracker does not order: it has no request id, or no number
unfoldable pub is_unordered : Text → ℤ → Bool
is_unordered request_id append_seq = is_empty (trim_space request_id) || leb_ℤ append_seq (pos 0)

pub data AcquireOutcome : Type 0 where
  untracked : AcquireOutcome
  outcome : Attempt → AppendSequenceTicket → AcquireOutcome

abbrev pub no_ticket : AppendSequenceTicket
no_ticket = record { state = none; seq = pos 0 }

abbrev ticket_for : ℕ → ℤ → Attempt → AppendSequenceTicket
ticket_for address seq granted = record { state = some address; seq = seq }
ticket_for address seq _ = no_ticket

-- `Acquire` up to its first wait
unfoldable pub acquire :
    ℕ → Text → ℤ → AppendSequenceTracker → AppendSequenceTracker × AcquireOutcome
unfolding state_of is_unordered attempt
acquire now request_id append_seq tracker =
    let (found, address) = state_of now (trim_space request_id) tracker in
    if is_unordered request_id append_seq
    then (tracker, untracked)
    else on_found (get_elem? found.heap address) (found, untracked)
        λ state.
          let (state', result) = attempt now append_seq state in
          (
            record found { heap = set found.heap address state' },
            outcome result (ticket_for address append_seq result),
          )

-- `Release` of a ticket
unfoldable pub release_ticket :
    ℕ → AppendSequenceTicket → AppendSequenceTracker → AppendSequenceTracker
unfolding release
release_ticket now ticket tracker = on_found ticket.state tracker λ address.
    if leb_ℤ ticket.seq (pos 0)
    then tracker
    else on_found (get_elem? tracker.heap address) tracker
        λ state. record tracker { heap = set tracker.heap address (release now ticket.seq state) }
