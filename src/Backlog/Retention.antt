-- ===== src/Backlog/Retention.antt =====
-- broker.go: what `compactBacklogLocked` may drop.
use cursor_byok_lite.Prelude.{
  ℕ, ◌+◌, ◌-◌, ◌≤◌, ◌≡◌, ap, ◌⊎◌, List, [], ◌∷◌, some, arith, ltb, if◌then◌else◌, length,
  length-drop, drop,
}
use cursor_byok_lite.Prelude.Text.{Text}
use cursor_byok_lite.Prelude.Store.{lookup}
use cursor_byok_lite.Stream.{EventLog, StreamSubscriber}
use cursor_byok_lite.Backlog.{
  stream_backlog_max_events, consumed, keep_from, compact_backlog, min_cursor,
}
use cursor_byok_lite.Backlog.Invariant.{IsLog, first-compact_backlog, backlog-compact_backlog}

pub min_cursor-le : (m : ℕ) (readers : List (Text × StreamSubscriber)) → min_cursor m readers ≤ m
unfolding min_cursor
min_cursor-le m [] = omega arith
min_cursor-le m ((id, reader) ∷ rest) =
    ground (arith, min_cursor-le reader.cursor rest, min_cursor-le m rest)

min_cursor-le-reader :
    (m : ℕ) (readers : List (Text × StreamSubscriber)) (id : Text) (reader : StreamSubscriber)
    → lookup id readers ≡ some reader
    → min_cursor m readers ≤ reader.cursor
unfolding min_cursor lookup
min_cursor-le-reader m [] id reader h = cc
min_cursor-le-reader m ((j, r) ∷ rest) id reader h =
    let lowest = if ltb r.cursor m then r.cursor else m in
    ground (arith, min_cursor-le lowest rest, min_cursor-le-reader lowest rest id reader)

-- The outcome for one reader: the `k` oldest events are dropped and the others kept as they are, the
-- first number moves on by `k`, and an event that the reader has yet to read is among the dropped ones
-- only if the log is full with the others.
abbrev pub KeptFor : StreamSubscriber → EventLog → EventLog → Type 0
KeptFor reader log after =
    (k : ℕ) × (after.backlog ≡ drop k log.backlog)
    × (after.backlog_first_sequence ≡ log.backlog_first_sequence + k)
    × ((k ≡ 0)
        ⊎ (after.backlog_first_sequence ≤ reader.cursor)
        ⊎ (length after.backlog ≡ stream_backlog_max_events))

keep_from_reader :
    (log : EventLog) (id : Text) (reader : StreamSubscriber)
    → lookup id log.subscribers ≡ some reader
    → (keep_from log ≡ 0)
      ⊎ (log.backlog_first_sequence + keep_from log ≤ reader.cursor)
      ⊎ (length log.backlog - keep_from log ≡ stream_backlog_max_events)
unfolding keep_from consumed
keep_from_reader log id reader h =
    ground (arith, min_cursor-le-reader log.next_backlog_sequence log.subscribers id reader)

-- A compaction of a valid log drops the oldest events and changes no other, and its first number
-- moves on with them. It drops an event that a subscriber has not read only to bring the log down to
-- its limit.
pub compact_backlog-KeptFor :
    (log : EventLog) (id : Text) (reader : StreamSubscriber)
    → IsLog log
    → lookup id log.subscribers ≡ some reader
    → KeptFor reader log (compact_backlog log)
compact_backlog-KeptFor log id reader h r =
    let first = first-compact_backlog log h in
    let events = backlog-compact_backlog log in
    (
      keep_from log,
      events,
      first,
      ground (
        arith,
        keep_from_reader log id reader r,
        first,
        ap length events,
        length-drop (keep_from log) log.backlog,
      ),
    )
