-- ===== src/Examples/Appends.antt =====
-- append_seq.go: two appends that arrive in the wrong order, and one that comes after a long pause.
use cursor_byok_lite.Prelude.{◌≡◌, refl, ◌≤◌, false, true, [], ◌∷◌, some, arith, length, All, ◌⊎◌}
use cursor_byok_lite.Prelude.Int.{pos, add64}
use cursor_byok_lite.Prelude.Text.{codes, trim_space, str_eq}
use cursor_byok_lite.Prelude.Store.{lookup}
use cursor_byok_lite.AppendSeq.{
  AppendSequenceState, AppendSequenceTracker, attempt, release, granted, blocked, outcome,
  no_ticket, acquire, expired, is_unordered,
}
use cursor_byok_lite.AppendSeq.Queue.{
  System, Reachable, start, next, first_state, client, waiting, tried, arrives, tries, holders,
  count_up, asleep, finished, releases, IsClosed,
}
use cursor_byok_lite.AppendSeq.Queue.Order.{Served, Reachable-serial}
use cursor_byok_lite.AppendSeq.Queue.Wakes.{Reachable-wakes}
use cursor_byok_lite.AppendSeq.Tracker.{acquire-expired}

-- append 2 arrives before append 1, and append 1 is admitted
abbrev two_waiting : System
two_waiting = record (first_state 5) { clients = client 1 waiting ∷ client 2 waiting ∷ [] }

abbrev one_holding : System
one_holding = tried 6 1 [] (client 2 waiting ∷ []) two_waiting

one_holding-Reachable : Reachable one_holding
one_holding-Reachable =
    next (next (next (start 5) (arrives 2 (omega arith))) (arrives 1 (omega arith)))
      (tries 6 1 [] (client 2 waiting ∷ []) refl)

Reachable-serial_example :
    (holders one_holding.clients ≤ 1)
    × (one_holding.admitted ≡ count_up (length one_holding.admitted))
    × All (Served (length one_holding.admitted)) one_holding.clients
Reachable-serial_example = Reachable-serial one_holding-Reachable

-- append 2 sleeps before append 1 arrives, which is handled and released
abbrev two_asleep : System
two_asleep = tried 6 2 [] [] (record (first_state 5) { clients = client 2 waiting ∷ [] })

abbrev one_handled : System
one_handled =
    tried 7 1 [] (client 2 (asleep 0) ∷ [])
      (record two_asleep { clients = client 1 waiting ∷ client 2 (asleep 0) ∷ [] })

abbrev one_released : System
one_released = record one_handled {
  state = release 8 (pos 1) one_handled.state;
  clients = client 1 finished ∷ client 2 (asleep 0) ∷ [];
}

one_released-Reachable : Reachable one_released
unfolding tried attempt
one_released-Reachable =
    let asleep_two : Reachable two_asleep =
      next (next (start 5) (arrives 2 (omega arith))) (tries 6 2 [] [] refl) in
    let handled : Reachable one_handled =
      next (next asleep_two (arrives 1 (omega arith)))
        (tries 7 1 [] (client 2 (asleep 0) ∷ []) refl) in
    next handled (releases 8 1 [] (client 2 (asleep 0) ∷ []) refl (omega arith))

Reachable-wakes_example :
    (holders one_released.clients ≡ 1)
    ⊎ ((holders one_released.clients ≡ 0)
        × IsClosed 0 one_released.state
        × ((attempt 9 (pos 2) one_released.state).1 ≡ granted))
unfolding tried attempt release add64
Reachable-wakes_example =
    Reachable-wakes 9 2 0 (client 1 finished ∷ []) [] one_released-Reachable refl refl

-- the state of a request that has had three appends
abbrev quiet : AppendSequenceState
quiet = record { next = pos 4; processing = false; ready = some 3; updated_at = 1 }

-- a request that is being handled
abbrev busy : AppendSequenceState
busy = record { next = pos 2; processing = true; ready = some 1; updated_at = 699_000_000_000 }

abbrev tracker : AppendSequenceTracker
tracker = record {
  states = (codes "q", 1) ∷ (trim_space (codes "r"), 0) ∷ [];
  heap = quiet ∷ busy ∷ [];
}

acquire-expired_example :
    (acquire 700_000_000_000 (codes "r") (pos 4) tracker).1 ≡ outcome blocked no_ticket
unfolding lookup expired is_unordered trim_space str_eq
acquire-expired_example =
    acquire-expired 700_000_000_000 0 4 (codes "r") quiet ((codes "q", 1) ∷ []) [] tracker refl refl
      refl refl refl refl refl (omega arith)
