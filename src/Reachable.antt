-- ===== src/Reachable.antt =====
-- internal/backend/forwarder/broker.go: what holds in every registry that the broker's operations
-- reach, in any order and with any arguments. The timers fire when they like.
pub mod Readers
use cursor_byok_lite.Prelude.{ℕ, ◌≡◌, some}
use cursor_byok_lite.Prelude.Text.{Text}
use cursor_byok_lite.Stream.{ActiveStream, StreamEvent}
use cursor_byok_lite.Registry.{StreamBroker, new_stream_broker, StreamRequest, get, open_stream}
use cursor_byok_lite.Registry.Laws.{
  IsWellFormed, new_stream_broker-IsWellFormed, open_stream-IsWellFormed,
}
use cursor_byok_lite.Broker.{subscribe, unsubscribe, advance_subscriber, publish}
use cursor_byok_lite.Broker.Invariant.{
  HasRoom, subscribe-IsWellFormed, unsubscribe-IsWellFormed, advance_subscriber-IsWellFormed,
  publish-IsWellFormed,
}
use cursor_byok_lite.Lifecycle.{
  schedule_terminal_cleanup, run_scheduled_terminal_cleanup, remove_if_idle, complete, fail, cancel,
}
use cursor_byok_lite.Lifecycle.Invariant.{
  schedule_terminal_cleanup-IsWellFormed, run-IsWellFormed, remove_if_idle-IsWellFormed,
  complete-IsWellFormed, fail-IsWellFormed, cancel-IsWellFormed,
}

-- A sequence number of `uint64` is left for one more event of the stream, if there is one.
abbrev pub RoomAt : Text → StreamBroker → Type 0
RoomAt i b = (s : ActiveStream) → get i b ≡ some s → HasRoom s

pub data Step (b : StreamBroker) : StreamBroker → Type 0 where
  opens : (now : ℕ) (i : Text) (request : StreamRequest) → Step b (open_stream now i request b).0
  subscribes : (now : ℕ) (i : Text) → Step b (subscribe now i b).0
  unsubscribes : (i subscriber : Text) → Step b (unsubscribe i subscriber b).0
  advances : (i subscriber : Text) (cursor : ℕ) → Step b (advance_subscriber i subscriber cursor b)
  publishes :
      (now : ℕ) (i : Text) (event : StreamEvent) → RoomAt i b → Step b (publish now i event b).0
  completes :
      (now : ℕ) (i code message : Text) → RoomAt i b → Step b (complete now i code message b).0
  fails : (now : ℕ) (i code message : Text) → RoomAt i b → Step b (fail now i code message b).0
  cancels : (now : ℕ) (i message : Text) → RoomAt i b → Step b (cancel now i message b).0
  schedules : (now : ℕ) (i : Text) → Step b (schedule_terminal_cleanup now i b).0
  fires : (i : Text) (sequence : ℕ) → Step b (run_scheduled_terminal_cleanup i sequence b)
  removes : (i : Text) → Step b (remove_if_idle i b).0

pub data Reachable : StreamBroker → Type 0 where
  start : Reachable new_stream_broker
  next : {b c : StreamBroker} → Reachable b → Step b c → Reachable c

Step-IsWellFormed : {b c : StreamBroker} → Step b c → IsWellFormed b → IsWellFormed c
Step-IsWellFormed {b} (opens now i request) h = open_stream-IsWellFormed now i request b h
Step-IsWellFormed {b} (subscribes now i) h = subscribe-IsWellFormed now i b h
Step-IsWellFormed {b} (unsubscribes i s) h = unsubscribe-IsWellFormed s i b h
Step-IsWellFormed {b} (advances i s cursor) h = advance_subscriber-IsWellFormed s i cursor b h
Step-IsWellFormed {b} (publishes now i event room) h = publish-IsWellFormed now i event b h room
Step-IsWellFormed {b} (completes now i code m room) h = complete-IsWellFormed now i b h room code m
Step-IsWellFormed {b} (fails now i code m room) h = fail-IsWellFormed now i b h room code m
Step-IsWellFormed {b} (cancels now i m room) h = cancel-IsWellFormed now i b h room m
Step-IsWellFormed {b} (schedules now i) h = schedule_terminal_cleanup-IsWellFormed now i b h
Step-IsWellFormed {b} (fires i sequence) h = run-IsWellFormed i sequence b h
Step-IsWellFormed {b} (removes i) h = remove_if_idle-IsWellFormed i b h

-- Every reachable registry is well formed: each stream stands under its own trimmed id, and its log
-- has consecutive numbers from its first one, counts them, and holds at most 1024 events.
pub Reachable-IsWellFormed : {b : StreamBroker} → Reachable b → IsWellFormed b
Reachable-IsWellFormed start = new_stream_broker-IsWellFormed
Reachable-IsWellFormed (next r s) = Step-IsWellFormed s (Reachable-IsWellFormed r)
