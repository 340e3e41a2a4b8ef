-- ===== src/Reachable/Readers.antt =====
-- broker.go: what a client of a reachable registry reads.
use cursor_byok_lite.Prelude.{
  ℕ, ◌+◌, ◌<◌, ◌≤◌, ◌≡◌, refl, sym, ap, ◌∙◌, true, false, not, ◌&&◌, List, [], ◌∷◌, ◌++◌, some,
  arith, length, All, append_assoc, append-nil,
}
use cursor_byok_lite.Prelude.Int.{u64_mod}
use cursor_byok_lite.Prelude.Text.{Text}
use cursor_byok_lite.Prelude.Store.{lookup}
use cursor_byok_lite.Stream.{ActiveStream, StreamEvent, StreamSubscriber, is_terminal_stream_status}
use cursor_byok_lite.Backlog.{
  stream_backlog_max_events, is_checkpoint_stream_event, publish_event, read_from_cursor,
}
use cursor_byok_lite.Backlog.Invariant.{IsValid, publish_event-IsValid}
use cursor_byok_lite.Backlog.Delivery.{publish_event-counts}
use cursor_byok_lite.Backlog.Unread.{read-publish_plain}
use cursor_byok_lite.Registry.{StreamBroker, get}
use cursor_byok_lite.Registry.Laws.{get-IsEntry}
use cursor_byok_lite.Broker.{publish, publish_stream, read}
use cursor_byok_lite.Broker.Invariant.{get-publish}
use cursor_byok_lite.Reachable.{Reachable, Reachable-IsWellFormed}

-- Publications of one request, each with its time.
pub publish_all : Text → List (ℕ × StreamEvent) → StreamBroker → StreamBroker
publish_all i [] broker = broker
publish_all i ((now, event) ∷ events) broker = publish_all i events (publish now i event broker).0

-- The events with the numbers from n on.
abbrev pub delivered : ℕ → List (ℕ × StreamEvent) → List StreamEvent
delivered n [] = []
delivered n ((now, event) ∷ events) = record event { sequence = n } ∷ delivered (n + 1) events

-- An event that is no checkpoint: a later checkpoint does not take its message away.
abbrev pub IsPlain : ℕ × StreamEvent → Type 0
IsPlain published = is_checkpoint_stream_event published.1 ≡ false

open_publish_stream :
    (now : ℕ) (event : StreamEvent) (stream : ActiveStream)
    → is_terminal_stream_status stream.status ≡ false
    → publish_stream now event stream
      ≡ record stream { log = publish_event event stream.log; updated_at = now }
unfolding publish_stream
open_publish_stream now event stream unended =
    let taken : (not event.end && is_terminal_stream_status stream.status) ≡ false =
      ground (arith, unended) in
    rw taken refl

read-publish_all :
    (i id : Text) (events : List (ℕ × StreamEvent)) (stream : ActiveStream)
    (reader : StreamSubscriber) (b : StreamBroker)
    → get i b ≡ some stream
    → IsValid stream.log
    → is_terminal_stream_status stream.status ≡ false
    → lookup id stream.subscribers ≡ some reader
    → stream.backlog_first_sequence ≤ reader.cursor
    → reader.cursor ≤ stream.next_backlog_sequence
    → stream.next_backlog_sequence + length events ≤ reader.cursor + stream_backlog_max_events
    → stream.next_backlog_sequence + length events < u64_mod
    → All IsPlain events
    → read i reader.cursor (publish_all i events b)
      ≡ some (
          read_from_cursor reader.cursor stream.log
          ++ delivered stream.next_backlog_sequence events)
unfolding publish_all read
read-publish_all i id [] stream reader b e v unended r low high few room plain =
    rw e (ap some (sym (append-nil (read_from_cursor reader.cursor stream.log))))
read-publish_all i id ((now, event) ∷ events) stream reader b e v unended r low high few room
      (p, plain) =
    let log = stream.log in
    let next = log.next_backlog_sequence in
    let one : next + 1 < u64_mod = omega arith in
    let (start, found, same) =
      read-publish_plain event log id reader v one r low high (omega arith) p in
    let count = publish_event-counts event log v.numbering one in
    let after : ActiveStream = record stream { log = publish_event event log; updated_at = now } in
    let stored =
      get-publish now i event stream b e ∙ ap some (open_publish_stream now event stream unended) in
    read-publish_all i id events after (record reader { signaled = true }) (publish now i event b).0
      stored (publish_event-IsValid event log v one) unended found start (omega (arith, count))
      (omega (arith, count)) (omega (arith, count)) plain
    ∙ ap some (
        ap (λ es. es ++ delivered (publish_event event log).next_backlog_sequence events) same
        ∙ ap
            (λ n.
              read_from_cursor reader.cursor log
              ++ record event { sequence = next } ∷ []
              ++ delivered n events)
            count
        ∙ append_assoc (read_from_cursor reader.cursor log) (record event { sequence = next } ∷ [])
            (delivered (next + 1) events))

-- In every reachable registry, when events are published to a request that has not ended and has a
-- subscriber, a read from the subscriber's cursor gives what it gave before and then the published
-- events, each whole, once and in order, with consecutive numbers. The subscriber's cursor is within the
-- log, the events up to the last one are at most 1024 ahead of it and have sequence numbers left, and
-- none of them is a checkpoint.
pub read-delivered :
    {b : StreamBroker} (i id : Text) (stream : ActiveStream) (reader : StreamSubscriber)
    (events : List (ℕ × StreamEvent))
    → Reachable b
    → get i b ≡ some stream
    → is_terminal_stream_status stream.status ≡ false
    → lookup id stream.subscribers ≡ some reader
    → stream.backlog_first_sequence ≤ reader.cursor
    → reader.cursor ≤ stream.next_backlog_sequence
    → stream.next_backlog_sequence + length events ≤ reader.cursor + stream_backlog_max_events
    → stream.next_backlog_sequence + length events < u64_mod
    → All IsPlain events
    → (before : List StreamEvent) × (read i reader.cursor b ≡ some before)
      × (read i reader.cursor (publish_all i events b)
          ≡ some (before ++ delivered stream.next_backlog_sequence events))
unfolding read
read-delivered {b} i id stream reader events reachable e unended r low high few room plain =
    let valid = (get-IsEntry i b stream (Reachable-IsWellFormed reachable) e).log_valid in
    (
      read_from_cursor reader.cursor stream.log,
      rw e refl,
      read-publish_all i id events stream reader b e valid unended r low high few room plain,
    )
