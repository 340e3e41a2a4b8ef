-- ===== src/Backlog/Unread.antt =====
-- broker.go: what a publication leaves of the events that a subscriber has yet to read.
use cursor_byok_lite.Prelude.{
  ℕ, zero, suc, ◌+◌, ◌-◌, ◌<◌, ◌≤◌, ◌≡◌, refl, sym, ap, ◌∙◌, true, false, inl, inr, List, [], ◌∷◌,
  ◌++◌, some, arith, length, drop, length-drop, drop-drop, Bool-cases, some-eq,
}
use native.Mathlib.Nat.{mod-eq_of_lt}
use cursor_byok_lite.Prelude.Int.{u64_mod}
use cursor_byok_lite.Prelude.Text.{Text, str_eq}
use cursor_byok_lite.Prelude.Store.{lookup}
use cursor_byok_lite.Stream.{EventLog, StreamEvent, StreamSubscriber}
use cursor_byok_lite.Backlog.{
  stream_backlog_max_events, is_checkpoint_stream_event, append_event, keep_from, publish_event,
  read_from_cursor, wake,
}
use cursor_byok_lite.Backlog.Invariant.{
  IsLog, IsValid, append_event-IsLog, first-compact_backlog, publish_event-IsValid,
}
use cursor_byok_lite.Backlog.Retention.{compact_backlog-KeptFor}
use cursor_byok_lite.Backlog.Delivery.{
  numbered_event, publish_event-fields, append_event_keeps, subscribers-publish_event,
}
use cursor_byok_lite.Backlog.Reads.{read_from_cursor-drop}

drop-append_le {ℓ} :
    {A : Type ℓ} (n : ℕ) (xs ys : List A) → n ≤ length xs → drop n (xs ++ ys) ≡ drop n xs ++ ys
drop-append_le zero xs ys h = refl
drop-append_le (suc n) [] ys h = absurd (omega arith)
drop-append_le (suc n) (x ∷ xs) ys h = drop-append_le n xs ys (omega arith)

lookup-wake :
    (id : Text) (reader : StreamSubscriber) (readers : List (Text × StreamSubscriber))
    → lookup id readers ≡ some reader
    → lookup id (wake readers) ≡ some (record reader { signaled = true })
unfolding lookup wake
lookup-wake id reader [] e = absurd (ground (arith, e))
lookup-wake id reader ((j, other) ∷ rest) e = elim (Bool-cases (str_eq j id)) [
  | inl f ↦
      let same : other ≡ reader = some-eq (ground (arith, e, f)) in
      rw f
        (ap (λ r. some (let woken : StreamSubscriber = record r { signaled = true } in woken)) same)
  | inr f ↦
      let later : lookup id rest ≡ some reader = ground (arith, e, f) in
      rw f (lookup-wake id reader rest later)
]

-- An event that is no checkpoint leaves the events before it as they are.
backlog-append_plain :
    (event : StreamEvent) (log : EventLog)
    → is_checkpoint_stream_event event ≡ false
    → (append_event event log).backlog ≡ log.backlog ++ numbered_event event log ∷ []
unfolding append_event is_checkpoint_stream_event
backlog-append_plain event log plain = rw plain refl

-- A publication that leaves the unread events and the new one within the limit drops none of them.
first_publish-le :
    (event : StreamEvent) (log : EventLog) (id : Text) (reader : StreamSubscriber)
    → IsLog log
    → log.next_backlog_sequence + 1 < u64_mod
    → lookup id log.subscribers ≡ some reader
    → log.backlog_first_sequence ≤ reader.cursor
    → log.next_backlog_sequence + 1 ≤ reader.cursor + stream_backlog_max_events
    → log.backlog_first_sequence + keep_from (append_event event log) ≤ reader.cursor
first_publish-le event log id reader h room r low few =
    let after = append_event event log in
    let h' = append_event-IsLog event log h room in
    let (next, first, readers) = append_event_keeps event log in
    let (k, events, moved, why) = compact_backlog-KeptFor after id reader h' (rw readers r) in
    let dropped = length-drop k after.backlog in
    let start = first-compact_backlog after h' in
    ground (
      arith,
      why,
      moved,
      ap length events,
      dropped,
      h'.next,
      next,
      first,
      start,
      h.next,
      mod-eq_of_lt room,
    )

pub read-publish_plain :
    (event : StreamEvent) (log : EventLog) (id : Text) (reader : StreamSubscriber)
    → IsValid log
    → log.next_backlog_sequence + 1 < u64_mod
    → lookup id log.subscribers ≡ some reader
    → log.backlog_first_sequence ≤ reader.cursor
    → reader.cursor ≤ log.next_backlog_sequence
    → log.next_backlog_sequence + 1 ≤ reader.cursor + stream_backlog_max_events
    → is_checkpoint_stream_event event ≡ false
    → (let after = publish_event event log in
        (after.backlog_first_sequence ≤ reader.cursor)
        × (lookup id after.subscribers ≡ some (record reader { signaled = true }))
        × (read_from_cursor reader.cursor after
            ≡ read_from_cursor reader.cursor log ++ numbered_event event log ∷ []))
read-publish_plain event log id reader v room r low high few plain =
    let h = v.numbering in
    let c = reader.cursor in
    let k = keep_from (append_event event log) in
    let (first, events) = publish_event-fields event log h room in
    let below = first_publish-le event log id reader h room r low few in
    let fits : c - log.backlog_first_sequence ≤ length log.backlog = omega (arith, h.next) in
    let place : k + (c - (log.backlog_first_sequence + k)) ≡ c - log.backlog_first_sequence =
      omega arith in
    let whole = log.backlog ++ numbered_event event log ∷ [] in
    let start : (publish_event event log).backlog_first_sequence ≤ c = rw first below in
    (
      start,
      ap (lookup id) (subscribers-publish_event event log)
          ∙ lookup-wake id reader log.subscribers r,
      read_from_cursor-drop c (publish_event event log)
            (publish_event-IsValid event log v room).numbering start
          ∙ rw (first, events)
              (ap (λ es. drop (c - (log.backlog_first_sequence + k)) (drop k es))
                  (backlog-append_plain event log plain)
                ∙ drop-drop (c - (log.backlog_first_sequence + k)) k whole
                ∙ ap (λ n. drop n whole) place
                ∙ drop-append_le (c - log.backlog_first_sequence) log.backlog _ fits
                ∙ ap (λ es. es ++ numbered_event event log ∷ [])
                    (sym (read_from_cursor-drop c log h low))),
    )
