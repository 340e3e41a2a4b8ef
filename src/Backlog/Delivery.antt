-- ===== src/Backlog/Delivery.antt =====
-- broker.go: a published event reaches the readers.
use native.Mathlib.Nat.{mod-eq_of_lt}
use cursor_byok_lite.Prelude.{
  ℕ, ◌+◌, ◌-◌, ◌%◌, ◌<◌, ◌≤◌, ◌≡◌, refl, ap, ◌∙◌, inl, inr, List, [], ◌∷◌, ◌++◌, Option, some,
  arith, length, drop, length-drop, drop-drop, drop-append, Bool-cases,
}
use cursor_byok_lite.Prelude.Int.{u64_mod}
use cursor_byok_lite.Prelude.Text.{Text}
use cursor_byok_lite.Prelude.Store.{lookup}
use cursor_byok_lite.Stream.{EventLog, StreamEvent, StreamSubscriber}
use cursor_byok_lite.Backlog.{
  is_checkpoint_stream_event, tombstone, tombstone_latest_checkpoint, append_event, compact_backlog,
  keep_from, publish_event, read_from_cursor, set_first, set_next, wake,
}
use cursor_byok_lite.Backlog.Invariant.{
  IsLog, IsValid, tombstone_shape, append_event-IsLog, compact_backlog_keeps, first-compact_backlog,
  backlog-compact_backlog, set_first-set_next, publish_event-IsValid,
}
use cursor_byok_lite.Backlog.Retention.{KeptFor, compact_backlog-KeptFor}
use cursor_byok_lite.Backlog.Reads.{read_from_cursor-drop}

abbrev pub numbered_event : StreamEvent → EventLog → StreamEvent
numbered_event event log = record event { sequence = log.next_backlog_sequence }

-- `append_event` puts the numbered event behind as many events as there were.
backlog-append_event :
    (event : StreamEvent) (log : EventLog)
    → (es : List StreamEvent) × ((append_event event log).backlog
        ≡ es ++ numbered_event event log ∷ [])
      × (length es ≡ length log.backlog)
unfolding append_event tombstone_latest_checkpoint
backlog-append_event event log =
    let counted : EventLog = record log {
      next_backlog_sequence = (log.next_backlog_sequence + 1) % u64_mod;
    } in
    let (_, _, _, _, size) = tombstone_shape log.latest_checkpoint counted in
    elim (Bool-cases (is_checkpoint_stream_event (numbered_event event log))) [
      | inl e ↦ ((tombstone log.latest_checkpoint counted).backlog, rw e, size)
      | inr e ↦ (log.backlog, rw e, refl)
    ]

pub append_event_keeps :
    (event : StreamEvent) (log : EventLog)
    → ((append_event event log).next_backlog_sequence ≡ (log.next_backlog_sequence + 1) % u64_mod)
      × ((append_event event log).backlog_first_sequence ≡ log.backlog_first_sequence)
      × ((append_event event log).subscribers ≡ log.subscribers)
unfolding append_event tombstone_latest_checkpoint
append_event_keeps event log =
    let counted : EventLog = record log {
      next_backlog_sequence = (log.next_backlog_sequence + 1) % u64_mod;
    } in
    let (next, first, readers, _, _) = tombstone_shape log.latest_checkpoint counted in
    elim (Bool-cases (is_checkpoint_stream_event (numbered_event event log))) [
      | inl e ↦ (rw e next, rw e first, rw e readers)
      | inr e ↦ (rw e, rw e, rw e)
    ]

-- What a publication does to the fields of a log with numbers.
pub publish_event-counts :
    (event : StreamEvent) (log : EventLog)
    → IsLog log
    → log.next_backlog_sequence + 1 < u64_mod
    → (publish_event event log).next_backlog_sequence ≡ log.next_backlog_sequence + 1
unfolding publish_event
publish_event-counts event log h room = rw (set_first-set_next log h) (
    (compact_backlog_keeps (append_event event log)).0
    ∙ (append_event_keeps event log).0
    ∙ mod-eq_of_lt room)

-- The first number after a publication lies at most at the number of the event, if a subscriber has
-- not read past the end of the log.
first-le :
    (event : StreamEvent) (log : EventLog) (id : Text) (reader : StreamSubscriber)
    → IsLog log
    → log.next_backlog_sequence + 1 < u64_mod
    → lookup id log.subscribers ≡ some reader
    → reader.cursor ≤ log.next_backlog_sequence
    → log.backlog_first_sequence + keep_from (append_event event log) ≤ log.next_backlog_sequence
first-le event log id reader h room r c =
    let after = append_event event log in
    let h' = append_event-IsLog event log h room in
    let (next, first, readers) = append_event_keeps event log in
    let kept : KeptFor reader after (compact_backlog after) =
      compact_backlog-KeptFor after id reader h' (rw readers r) in
    let size = ap length (backlog-compact_backlog after) in
    let dropped = length-drop (keep_from after) after.backlog in
    let (k, _, moved, why) = kept in
    let start = first-compact_backlog after h' in
    ground
      (arith, moved, why, h.next, h'.next, next, first, size, dropped, start, mod-eq_of_lt room)

pub publish_event-fields :
    (event : StreamEvent) (log : EventLog)
    → IsLog log
    → log.next_backlog_sequence + 1 < u64_mod
    → ((publish_event event log).backlog_first_sequence
        ≡ log.backlog_first_sequence + keep_from (append_event event log))
      × ((publish_event event log).backlog
          ≡ drop (keep_from (append_event event log)) (append_event event log).backlog)
unfolding publish_event
publish_event-fields event log h room =
    let after = append_event event log in
    rw (set_first-set_next log h) (
      first-compact_backlog after (append_event-IsLog event log h room)
          ∙ ap (λ n. n + keep_from after) (append_event_keeps event log).1,
      backlog-compact_backlog after,
    )

-- What is left behind the first `length es` events, of which `k` have been dropped.
last_left :
    (k n : ℕ) (es all : List StreamEvent) (e : StreamEvent)
    → all ≡ es ++ e ∷ []
    → k + n ≡ length es
    → drop n (drop k all) ≡ e ∷ []
last_left k n es all e split h =
    drop-drop n k all ∙ ap (drop (k + n)) split ∙ rw h (drop-append es (e ∷ []))

-- When an event is published to a valid log, with a subscriber that waits at its end or before and a
-- sequence number left, a read from the old end gives that event, with its number, and nothing else.
pub read-publish :
    (event : StreamEvent) (log : EventLog) (id : Text) (reader : StreamSubscriber)
    → IsValid log
    → log.next_backlog_sequence + 1 < u64_mod
    → lookup id log.subscribers ≡ some reader
    → reader.cursor ≤ log.next_backlog_sequence
    → read_from_cursor log.next_backlog_sequence (publish_event event log)
      ≡ numbered_event event log ∷ []
read-publish event log id reader v room r c =
    let h = v.numbering in
    let k = keep_from (append_event event log) in
    let (first, events) = publish_event-fields event log h room in
    let (es, split, size) = backlog-append_event event log in
    let low = first-le event log id reader h room r c in
    let n = log.next_backlog_sequence - (log.backlog_first_sequence + k) in
    let count : k + n ≡ length es = omega (arith, h.next, size, low) in
    let read =
      read_from_cursor-drop log.next_backlog_sequence (publish_event event log)
        (publish_event-IsValid event log v room).numbering (rw first low) in
    rw (read, first, events) (last_left k n es _ (numbered_event event log) split count)

tombstone_readers :
    (o : Option StreamEvent) (log : EventLog) → (tombstone o log).subscribers ≡ log.subscribers
tombstone_readers o log = (tombstone_shape o log).2

-- A publication wakes every subscriber, and moves no cursor.
pub subscribers-publish_event :
    (event : StreamEvent) (log : EventLog)
    → (publish_event event log).subscribers ≡ wake log.subscribers
unfolding publish_event set_first set_next
subscribers-publish_event event log =
    let ready = set_first (set_next log).next_backlog_sequence (set_next log) in
    let (_, _, kept) = compact_backlog_keeps (append_event event ready) in
    let (_, _, same) = append_event_keeps event ready in
    let start : ready.subscribers ≡ log.subscribers = ground arith in ap wake (kept ∙ same ∙ start)
