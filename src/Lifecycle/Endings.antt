-- ===== src/Lifecycle/Endings.antt =====
-- broker.go: `Complete`, `Fail` and `Cancel` end a stream once, with one end event.
use cursor_byok_lite.Prelude.{
  ℕ, ◌≡◌, refl, ap, ◌∙◌, true, false, inl, inr, none, some, arith, is_nil, Bool-cases,
}
use cursor_byok_lite.Prelude.Text.{Text, trim_space}
use cursor_byok_lite.Stream.{
  ActiveStream, EventLog, StreamEvent, StreamStatus, is_terminal_stream_status, canceled, completed,
  failed,
}
use cursor_byok_lite.Backlog.{publish_event}
use cursor_byok_lite.Registry.{StreamBroker, get, store, stop_terminal_cleanup_timer}
use cursor_byok_lite.Registry.Laws.{get-store_self, store-get_self}
use cursor_byok_lite.Broker.{publish, publish_stream}
use cursor_byok_lite.Lifecycle.{
  schedule_stream, schedule_terminal_cleanup, end_event, finish, complete, fail, cancel,
}

-- A stream at the id that has ended in a way, with a log.
pub record HasEnded (i : Text) (status : StreamStatus) (log : EventLog) (broker : StreamBroker)
    : Type 0 where
  pub stream : ActiveStream
  pub found : get i broker ≡ some stream
  pub ended : stream.status ≡ status
  pub terminal : is_terminal_stream_status stream.status ≡ true
  pub log_eq : stream.log ≡ log

schedule_stream_keeps :
    (now : ℕ) (stream : ActiveStream)
    → ((schedule_stream now stream).0.status ≡ stream.status)
      × ((schedule_stream now stream).0.log ≡ stream.log)
unfolding schedule_stream stop_terminal_cleanup_timer
schedule_stream_keeps now stream = ground arith

schedule-HasEnded :
    (now : ℕ) (i : Text) (status : StreamStatus) (log : EventLog) (broker : StreamBroker)
    → HasEnded i status log broker
    → HasEnded i status log (schedule_terminal_cleanup now i broker).0
unfolding schedule_terminal_cleanup
schedule-HasEnded now i status log broker h =
    let (kept, same) = schedule_stream_keeps now h.stream in
    record {
      stream = (schedule_stream now h.stream).0;
      found = rw h.found (get-store_self i _ broker);
      ended = kept ∙ h.ended;
      terminal = rw kept h.terminal;
      log_eq = same ∙ h.log_eq;
    }

publish-HasEnded :
    (now : ℕ) (i : Text) (stream : ActiveStream) (event : StreamEvent) (broker : StreamBroker)
    → is_terminal_stream_status stream.status ≡ true
    → event.end ≡ true
    → HasEnded i stream.status
        (publish_event event stream.log)
        (publish now i event (store i stream broker)).0
unfolding publish publish_stream
publish-HasEnded now i stream event broker t e = record {
  stream = publish_stream now event stream;
  found = rw (get-store_self i stream broker) (get-store_self i _ _);
  ended = rw e;
  terminal = rw e t;
  log_eq = rw e;
}

publish-found :
    (now : ℕ) (i : Text) (stream : ActiveStream) (event : StreamEvent) (broker : StreamBroker)
    → (publish now i event (store i stream broker)).1 ≡ none
unfolding publish
publish-found now i stream event broker = rw (get-store_self i stream broker)

finish-HasEnded :
    (now : ℕ) (i : Text) (stream : ActiveStream) (event : StreamEvent) (broker : StreamBroker)
    → is_terminal_stream_status stream.status ≡ true
    → event.end ≡ true
    → HasEnded i stream.status (publish_event event stream.log) (finish now i stream event broker).0
      × ((finish now i stream event broker).1 ≡ none)
unfolding finish
finish-HasEnded now i stream event broker t e =
    let sent = publish-found now i stream event broker in
    let h = publish-HasEnded now i stream event broker t e in
    elim (Bool-cases (is_nil stream.subscribers)) [
      | inl q ↦ rw (sent, q) (schedule-HasEnded now i _ _ _ h, refl)
      | inr q ↦ rw (sent, q) (h, refl)
    ]

-- A stream that has not ended is ended by `Complete`: it is completed, and its log is the log before
-- with the end event published, and no error is reported.
pub complete-HasEnded :
    (now : ℕ) (i code message : Text) (stream : ActiveStream) (broker : StreamBroker)
    → get i broker ≡ some stream
    → is_terminal_stream_status stream.status ≡ false
    → HasEnded i completed
        (publish_event (end_event (trim_space code) (trim_space message)) stream.log)
        (complete now i code message broker).0
      × ((complete now i code message broker).1 ≡ none)
unfolding complete end_event stop_terminal_cleanup_timer
complete-HasEnded now i code message stream broker e q =
    rw (e, q) (finish-HasEnded now i _ _ broker refl refl)

-- `Fail` ends any stream, one that has ended too: it is failed, its log is the log before with the
-- end event published, and no error is reported.
pub fail-HasEnded :
    (now : ℕ) (i code message : Text) (stream : ActiveStream) (broker : StreamBroker)
    → get i broker ≡ some stream
    → HasEnded i failed
        (publish_event (end_event (trim_space code) (trim_space message)) stream.log)
        (fail now i code message broker).0
      × ((fail now i code message broker).1 ≡ none)
unfolding fail end_event stop_terminal_cleanup_timer
fail-HasEnded now i code message stream broker e = rw e (finish-HasEnded now i _ _ broker refl refl)

-- `Cancel` ends any stream, one that has ended too: it is canceled, and no error is reported.
pub cancel-HasEnded :
    (now : ℕ) (i message : Text) (stream : ActiveStream) (broker : StreamBroker)
    → get i broker ≡ some stream
    → (log : EventLog) × HasEnded i canceled log (cancel now i message broker).0
      × ((cancel now i message broker).1 ≡ none)
unfolding cancel end_event stop_terminal_cleanup_timer
cancel-HasEnded now i message stream broker e =
    rw e (let (h, n) = finish-HasEnded now i _ _ broker refl refl in (_, h, n))

-- What a stream that has ended refuses.
module _ {i : Text} {status : StreamStatus} {log : EventLog} {broker : StreamBroker}
    (h : HasEnded i status log broker) where
  pub publish-ended :
      (now : ℕ) (event : StreamEvent)
      → event.end ≡ false
      → publish now i event broker ≡ (broker, none)
  unfolding publish publish_stream
  publish-ended now event e =
      rw (h.found, e, h.terminal) (ap (λ b. (b, none)) (store-get_self i h.stream broker h.found))

  pub complete-ended :
      (now : ℕ) (code message : Text) → complete now i code message broker ≡ (broker, none)
  unfolding complete
  complete-ended now code message = rw (h.found, h.terminal)

-- The three calls that end a stream.
pub data Ending : Type 0 where
  completing failing : Text → Text → Ending
  canceling : Text → Ending

abbrev pub end_stream : ℕ → Text → Ending → StreamBroker → StreamBroker
end_stream now i (completing code message) broker = (complete now i code message broker).0
end_stream now i (failing code message) broker = (fail now i code message broker).0
end_stream now i (canceling message) broker = (cancel now i message broker).0

complete-terminal :
    (now : ℕ) (i code message : Text) (stream : ActiveStream) (broker : StreamBroker)
    → get i broker ≡ some stream
    → is_terminal_stream_status stream.status ≡ true
    → (complete now i code message broker).0 ≡ broker
unfolding complete
complete-terminal now i code message stream broker e q = rw (e, q)

end_stream-HasEnded :
    (now : ℕ) (i : Text) (ending : Ending) (stream : ActiveStream) (broker : StreamBroker)
    → get i broker ≡ some stream
    → (status : StreamStatus) × (log : EventLog) × HasEnded i status log
        (end_stream now i ending broker)
end_stream-HasEnded now i (completing code message) stream broker e =
    elim (Bool-cases (is_terminal_stream_status stream.status)) [
      | inl q ↦ (
        stream.status,
        stream.log,
        rw (complete-terminal now i code message stream broker e q)
            (record { stream = stream; found = e; ended = refl; terminal = q; log_eq = refl }),
      )
      | inr q ↦ (completed, _, (complete-HasEnded now i code message stream broker e q).0)
    ]
end_stream-HasEnded now i (failing code message) stream broker e =
    (failed, _, (fail-HasEnded now i code message stream broker e).0)
end_stream-HasEnded now i (canceling message) stream broker e =
    let (log, h, _) = cancel-HasEnded now i message stream broker e in (canceled, log, h)

-- After an active stream has been completed, failed or canceled, a publication that is not an end
-- event and a completion change nothing, and report no error.
pub end_stream-final :
    (now later : ℕ) (i : Text) (ending : Ending) (stream : ActiveStream) (broker : StreamBroker)
    (event : StreamEvent) (code message : Text)
    → get i broker ≡ some stream
    → event.end ≡ false
    → (publish later i event (end_stream now i ending broker)
        ≡ (end_stream now i ending broker, none))
      × (complete later i code message (end_stream now i ending broker)
          ≡ (end_stream now i ending broker, none))
end_stream-final now later i ending stream broker event code message e q =
    let (_, _, h) = end_stream-HasEnded now i ending stream broker e in
    (publish-ended h later event q, complete-ended h later code message)
