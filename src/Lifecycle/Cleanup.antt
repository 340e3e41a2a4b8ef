-- ===== src/Lifecycle/Cleanup.antt =====
-- broker.go: when a stream leaves the registry.
use cursor_byok_lite.Prelude.{
  ℕ, ◌+◌, ◌<◌, ◌≤◌, ◌≡◌, refl, ap, ◌∙◌, true, false, inl, inr, none, some, List, [], ◌∷◌, arith,
  ◌==◌, is_nil, Bool-cases,
}
use native.Mathlib.Nat.{mod-eq_of_lt}
use cursor_byok_lite.Prelude.Int.{u64_mod}
use cursor_byok_lite.Prelude.Text.{Text, is_empty, trim_space}
use cursor_byok_lite.Stream.{ActiveStream, StreamEvent, StreamSubscriber, is_terminal_stream_status}
use cursor_byok_lite.Backlog.{wake}
use cursor_byok_lite.Backlog.Delivery.{subscribers-publish_event}
use cursor_byok_lite.Registry.{StreamBroker, get, store, stop_terminal_cleanup_timer}
use cursor_byok_lite.Registry.Laws.{IsWellFormed, get-IsEntry, get-store_self, get-remove_self}
use cursor_byok_lite.Broker.{subscribe, publish_stream}
use cursor_byok_lite.Broker.Invariant.{publish-stored}
use cursor_byok_lite.Broker.Subscribed.{subscribe-found}
use cursor_byok_lite.Lifecycle.{
  schedule_stream, schedule_terminal_cleanup, settle, is_removable, remove_if_idle,
  run_scheduled_terminal_cleanup, end_event, finish, complete,
}

-- In a well-formed registry, a cleanup that was armed before a client subscribed to the active stream
-- does nothing when its timer fires after that, if the cleanup sequence has not wrapped around.
pub run-subscribe :
    (now : ℕ) (i : Text) (sequence : ℕ) (stream : ActiveStream) (broker : StreamBroker)
    → IsWellFormed broker
    → get i broker ≡ some stream
    → sequence ≤ stream.terminal_cleanup_seq
    → stream.terminal_cleanup_seq + 1 < u64_mod
    → run_scheduled_terminal_cleanup i sequence (subscribe now i broker).0
      ≡ (subscribe now i broker).0
unfolding run_scheduled_terminal_cleanup
run-subscribe now i sequence stream broker h e old room =
    let (stream', found, seq, _, _, _) = subscribe-found now i stream broker h e in
    let stale : (stream'.terminal_cleanup_seq == sequence) ≡ false =
      ground (arith, mod-eq_of_lt room) in
    rw (found, stale)

-- `RemoveIfIdle` does not remove a stream with a subscriber: it stays, with its log and status.
remove_if_idle-subscribed :
    (i : Text) (stream : ActiveStream) (broker : StreamBroker)
    → get i broker ≡ some stream
    → is_nil stream.subscribers ≡ false
    → ((remove_if_idle i broker).1 ≡ false)
      × ((stream' : ActiveStream) × (get i (remove_if_idle i broker).0 ≡ some stream')
          × (stream'.log ≡ stream.log)
          × (stream'.status ≡ stream.status))
unfolding remove_if_idle is_removable settle stop_terminal_cleanup_timer
remove_if_idle-subscribed i stream broker e q = elim (Bool-cases (is_empty (trim_space i))) [
  | inl m ↦ rw m (refl, (stream, e, refl, refl))
  | inr m ↦ elim (Bool-cases (is_terminal_stream_status stream.status)) [
    | inl t ↦ rw (m, e, q, t) (refl, (_, get-store_self i _ broker, refl, refl))
    | inr t ↦ rw (m, e, q, t) (refl, (_, get-store_self i _ broker, refl, refl))
  ]
]

nil-wake :
    (readers : List (Text × StreamSubscriber))
    → is_nil readers ≡ true
    → is_nil (wake readers) ≡ true
unfolding wake
nil-wake [] h = refl
nil-wake (r ∷ rest) h = cc

schedule-armed :
    (now : ℕ) (i : Text) (stream : ActiveStream) (broker : StreamBroker)
    → get i broker ≡ some stream
    → is_terminal_stream_status stream.status ≡ true
    → is_nil stream.subscribers ≡ true
    → (stream' : ActiveStream) × (get i (schedule_terminal_cleanup now i broker).0 ≡ some stream')
      × (stream'.terminal_cleanup_timer ≡ true)
      × (is_terminal_stream_status stream'.status ≡ true)
      × (is_nil stream'.subscribers ≡ true)
unfolding schedule_terminal_cleanup schedule_stream
schedule-armed now i stream broker e t s = rw (e, s, t) (_, get-store_self i _ broker, refl, t, s)

ended-readers :
    (now : ℕ) (event : StreamEvent) (stream : ActiveStream)
    → event.end ≡ true
    → is_nil stream.subscribers ≡ true
    → ((publish_stream now event stream).status ≡ stream.status)
      × (is_nil (publish_stream now event stream).subscribers ≡ true)
unfolding publish_stream
ended-readers now event stream e s =
    simp e
      (refl, ap is_nil (subscribers-publish_event event stream.log) ∙ nil-wake stream.subscribers s)

-- `finish` on a stream with no reader leaves an armed timer behind.
finish-armed :
    (now : ℕ) (i : Text) (stream : ActiveStream) (event : StreamEvent) (broker : StreamBroker)
    → is_terminal_stream_status stream.status ≡ true
    → event.end ≡ true
    → is_nil stream.subscribers ≡ true
    → (stream' : ActiveStream) × (get i (finish now i stream event broker).0 ≡ some stream')
      × (stream'.terminal_cleanup_timer ≡ true)
      × (is_terminal_stream_status stream'.status ≡ true)
      × (is_nil stream'.subscribers ≡ true)
unfolding finish
finish-armed now i stream event broker t e s =
    let found = get-store_self i stream broker in
    let (same, nobody) = ended-readers now event stream e s in
    rw (publish-stored now i event stream (store i stream broker) found, s)
      (schedule-armed now i (publish_stream now event stream) _ (get-store_self i _ _) (rw same t)
        nobody)

-- A stream in the end state, with no reader, is removed by the timer that is armed for it.
run-removes :
    (i : Text) (stream : ActiveStream) (broker : StreamBroker)
    → is_empty (trim_space i) ≡ false
    → get i broker ≡ some stream
    → is_terminal_stream_status stream.status ≡ true
    → is_nil stream.subscribers ≡ true
    → get i (run_scheduled_terminal_cleanup i stream.terminal_cleanup_seq broker) ≡ none
unfolding run_scheduled_terminal_cleanup remove_if_idle is_removable
run-removes i stream broker m e t s =
    let same : (stream.terminal_cleanup_seq == stream.terminal_cleanup_seq) ≡ true = ground arith in
    let fired : ActiveStream = record stream { terminal_cleanup_timer = false } in
    rw (e, same, s, t, m, get-store_self i fired broker, s, t) (get-remove_self i _)

-- In a well-formed registry, an active stream that is completed while nobody reads it, and had not
-- ended before, has an armed cleanup timer, and is gone once that timer has fired.
pub complete-run :
    (now : ℕ) (i code message : Text) (stream : ActiveStream) (broker : StreamBroker)
    → IsWellFormed broker
    → get i broker ≡ some stream
    → is_terminal_stream_status stream.status ≡ false
    → is_nil stream.subscribers ≡ true
    → (stream' : ActiveStream) × (get i (complete now i code message broker).0 ≡ some stream')
      × (stream'.terminal_cleanup_timer ≡ true)
      × (get i (
            run_scheduled_terminal_cleanup i stream'.terminal_cleanup_seq
              (complete now i code message broker).0)
          ≡ none)
unfolding complete end_event stop_terminal_cleanup_timer
complete-run now i code message stream broker h e t s =
    let named = (get-IsEntry i broker stream h e).named in
    rw (e, t)
      (let (stream', found, armed, ended, nobody) = finish-armed now i _ _ broker refl refl s in
        (stream', found, armed, run-removes i stream' _ named found ended nobody))
