-- ===== src/Examples/Logs.antt =====
-- broker.go: the log of a stream that has one reader.
use cursor_byok_lite.Prelude.{◌≡◌, refl, List, [], ◌∷◌, some, arith, false}
use cursor_byok_lite.Prelude.Text.{Text, codes, str_eq}
use cursor_byok_lite.Prelude.Store.{lookup}
use cursor_byok_lite.Stream.{EventLog, StreamSubscriber}
use cursor_byok_lite.Backlog.{publish_event, read_from_cursor, compact_backlog}
use cursor_byok_lite.Backlog.Invariant.{IsValid, IsValid-readers}
use cursor_byok_lite.Backlog.Retention.{KeptFor, compact_backlog-KeptFor}
use cursor_byok_lite.Backlog.Delivery.{numbered_event, read-publish}
use cursor_byok_lite.Registry.Laws.{get-IsEntry}
use cursor_byok_lite.Reachable.{Reachable-IsWellFormed}
use cursor_byok_lite.Examples.Streams.{
  id, delta, empty_log, opened_stream, one_open, get-one_open, one_open-Reachable,
}

abbrev reader : StreamSubscriber
reader = record { signaled = false; cursor = 1 }

abbrev readers : List (Text × StreamSubscriber)
readers = (codes "s", reader) ∷ []

abbrev one_reader : EventLog
one_reader = record empty_log { subscribers = readers }

one_reader-IsValid : IsValid one_reader
one_reader-IsValid =
    let entry =
      get-IsEntry id one_open opened_stream (Reachable-IsWellFormed one_open-Reachable)
        get-one_open in
    IsValid-readers opened_stream.log entry.log_valid

lookup-readers : lookup (codes "s") readers ≡ some reader
unfolding lookup str_eq
lookup-readers = refl

read-publish_example :
    read_from_cursor 1 (publish_event delta one_reader) ≡ numbered_event delta one_reader ∷ []
read-publish_example =
    read-publish delta one_reader (codes "s") reader one_reader-IsValid (omega arith) lookup-readers
      (omega arith)

compact_backlog-KeptFor_example : KeptFor reader one_reader (compact_backlog one_reader)
compact_backlog-KeptFor_example =
    compact_backlog-KeptFor one_reader (codes "s") reader one_reader-IsValid.numbering
      lookup-readers
