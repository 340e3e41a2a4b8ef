-- ===== src/Backlog.antt =====
-- internal/backend/forwarder/broker.go: the event log of one stream, under the stream's lock.
-- Sequence numbers are `uint64`. The laws are in the modules below.
pub mod Invariant
pub mod Reads
pub mod Retention
pub mod Delivery
pub mod Unread
use cursor_byok_lite.Prelude.{
  ℕ, zero, suc, ◌+◌, ◌-◌, ◌%◌, Bool, true, false, not, ◌&&◌, List, [], ◌∷◌, ◌++◌, map, Option, none,
  some, ltb, leb, ◌==◌, if◌then◌else◌, length, drop, is_nil,
}
use cursor_byok_lite.Prelude.Int.{u64_mod}
use cursor_byok_lite.Prelude.Text.{Text}
use cursor_byok_lite.Stream.{
  EventLog, StreamEvent, StreamSubscriber, ServerMessage, checkpoint_update,
  is_terminal_stream_status,
}

abbrev pub stream_backlog_max_events : ℕ
stream_backlog_max_events = 1024

abbrev is_checkpoint_message : Option ServerMessage → Bool
is_checkpoint_message none = false
is_checkpoint_message (some (checkpoint_update c)) = true
is_checkpoint_message (some (ServerMessage.other c)) = false

unfoldable pub is_checkpoint_stream_event : StreamEvent → Bool
is_checkpoint_stream_event event = if event.end then false else is_checkpoint_message event.message

-- `Backlog[0].Sequence`, and 0 if there is none
abbrev head_sequence : List StreamEvent → ℕ
head_sequence [] = 0
head_sequence (e ∷ es) = e.sequence

unfoldable pub first_backlog_sequence : EventLog → ℕ
first_backlog_sequence log =
    if ltb 0 (head_sequence log.backlog)
    then head_sequence log.backlog
    else if ltb 0 log.backlog_first_sequence
    then log.backlog_first_sequence
    else if ltb 0 log.next_backlog_sequence
    then log.next_backlog_sequence
    else 1

-- the loop over the subscribers in `compactBacklogLocked`
unfoldable pub min_cursor : ℕ → List (Text × StreamSubscriber) → ℕ
min_cursor m [] = m
min_cursor m ((id, subscriber) ∷ rest) =
    min_cursor (if ltb subscriber.cursor m then subscriber.cursor else m) rest

-- how many events all subscribers have read
unfoldable pub consumed : EventLog → ℕ
consumed log =
    let first = log.backlog_first_sequence in
    let lowest = min_cursor log.next_backlog_sequence log.subscribers in
    if is_nil log.subscribers
    then 0
    else if ltb first lowest
    then (if ltb (length log.backlog) (lowest - first) then length log.backlog else lowest - first)
    else 0

unfoldable pub keep_from : EventLog → ℕ
keep_from log =
    let n = length log.backlog in
    let k = consumed log in
    if ltb stream_backlog_max_events (n - k) then n - stream_backlog_max_events else k

unfoldable pub compact_backlog : EventLog → EventLog
compact_backlog log =
    if is_nil log.backlog
    then (if ltb 0 log.next_backlog_sequence
        then record log { backlog_first_sequence = log.next_backlog_sequence }
        else log)
    else if keep_from log == 0
    then log
    else record log {
      backlog = drop (keep_from log) log.backlog;
      backlog_first_sequence = (log.backlog_first_sequence + keep_from log) % u64_mod;
    }

-- `retained.Message = nil` at an index, if the event there is the checkpoint `sequence`
unfoldable pub blank : ℕ → ℕ → List StreamEvent → List StreamEvent
blank sequence i [] = []
blank sequence zero (e ∷ es) =
    (if e.sequence == sequence && is_checkpoint_stream_event e
      then record e { message = none }
      else e)
    ∷ es
blank sequence (suc i) (e ∷ es) = e ∷ blank sequence i es

unfoldable pub tombstone : Option StreamEvent → EventLog → EventLog
tombstone none log = log
tombstone (some checkpoint) log =
    if ltb checkpoint.sequence log.backlog_first_sequence then log else record log {
      backlog =
          blank checkpoint.sequence (checkpoint.sequence - log.backlog_first_sequence) log.backlog;
    }

unfoldable pub tombstone_latest_checkpoint : EventLog → EventLog
tombstone_latest_checkpoint log = tombstone log.latest_checkpoint log

-- A sequence of 0 is not set yet.
unfoldable pub set_next : EventLog → EventLog
set_next log =
    if log.next_backlog_sequence == 0
    then record log { next_backlog_sequence = first_backlog_sequence log }
    else log

unfoldable pub set_first : ℕ → EventLog → EventLog
set_first first log =
    if log.backlog_first_sequence == 0 then record log { backlog_first_sequence = first } else log

-- the event with its number, the counter behind it, and the checkpoint that it may supersede
unfoldable pub append_event : StreamEvent → EventLog → EventLog
append_event event log =
    let numbered = record event { sequence = log.next_backlog_sequence } in
    let counted = record log {
      next_backlog_sequence = (log.next_backlog_sequence + 1) % u64_mod;
    } in
    let marked =
      if is_checkpoint_stream_event numbered
      then record (tombstone_latest_checkpoint counted) { latest_checkpoint = some numbered }
      else counted in
    record marked { backlog = marked.backlog ++ numbered ∷ [] }

-- the sends to `Signal`, none of which waits
unfoldable pub wake : List (Text × StreamSubscriber) → List (Text × StreamSubscriber)
wake [] = []
wake ((id, subscriber) ∷ rest) = (id, record subscriber { signaled = true }) ∷ wake rest

-- the part of `Publish` that concerns the log
unfoldable pub publish_event : StreamEvent → EventLog → EventLog
publish_event event log =
    let ready = set_first (set_next log).next_backlog_sequence (set_next log) in
    let compacted = compact_backlog (append_event event ready) in
    record compacted { subscribers = wake compacted.subscribers }

-- where a new reader, whose cursor is 0, begins
unfoldable pub checkpoint_cursor : Option StreamEvent → ℕ → ℕ
checkpoint_cursor none fallback = fallback
checkpoint_cursor (some checkpoint) fallback =
    if ltb 0 checkpoint.sequence then checkpoint.sequence else fallback

-- `ReadFromCursor` behind the checkpoint's case
unfoldable pub read_backlog : ℕ → EventLog → List StreamEvent
read_backlog cursor log =
    let first = log.backlog_first_sequence in
    let from = if ltb cursor first then first else cursor in
    if is_nil log.backlog
    then []
    else if leb log.next_backlog_sequence from
    then []
    else if leb (length log.backlog) (from - first)
    then []
    else drop (from - first) log.backlog

-- the case of a cursor that the backlog no longer reaches: the checkpoint, and what follows it
unfoldable pub read_behind : StreamEvent → EventLog → List StreamEvent
read_behind checkpoint log =
    let first = log.backlog_first_sequence in
    checkpoint
    ∷ (if is_nil log.backlog
        then []
        else if leb first checkpoint.sequence
        then drop (checkpoint.sequence - first + 1) log.backlog
        else log.backlog)

unfoldable pub read_from : Option StreamEvent → ℕ → EventLog → List StreamEvent
read_from none cursor log = read_backlog cursor log
read_from (some checkpoint) cursor log =
    if ltb cursor log.backlog_first_sequence && leb cursor checkpoint.sequence
    then read_behind checkpoint log
    else read_backlog cursor log

-- `ReadFromCursor` from the lock on
unfoldable pub read_from_cursor : ℕ → EventLog → List StreamEvent
read_from_cursor cursor log =
    read_from log.latest_checkpoint
      (if cursor == 0
        then checkpoint_cursor log.latest_checkpoint (first_backlog_sequence log)
        else cursor)
      log

-- the cursor that `Subscribe` gives
unfoldable pub start_cursor : Option StreamEvent → EventLog → ℕ
start_cursor latest log = checkpoint_cursor latest (
    if is_nil log.backlog
    then (if log.next_backlog_sequence == 0 then 1 else log.next_backlog_sequence)
    else log.backlog_first_sequence)

unfoldable pub subscriber_cursor : EventLog → ℕ
subscriber_cursor log = start_cursor log.latest_checkpoint log
