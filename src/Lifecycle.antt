-- ===== src/Lifecycle.antt =====
-- internal/backend/forwarder/broker.go: the end of a stream (`Complete`, `Fail`,
-- `Cancel`) and its removal from the registry, at once or by the cleanup timer.
pub mod Endings
pub mod Cleanup
pub mod Invariant
use cursor_byok_lite.Prelude.{
  ℕ, ◌+◌, ◌%◌, Bool, true, false, not, ◌&&◌, ◌||◌, List, [], ◌∷◌, Option, none, some, ◌==◌,
  if◌then◌else◌, is_nil, is_some, on_found,
}
use cursor_byok_lite.Prelude.Int.{u64_mod}
use cursor_byok_lite.Prelude.Text.{Text, codes, is_empty, trim_space}
use cursor_byok_lite.Stream.{
  StreamStatus, TurnPhase, ProviderAction, StreamEvent, EventLog, ActiveStream,
  is_terminal_stream_status, canceled, completed, failed,
}
use cursor_byok_lite.Registry.{
  StreamBroker, BrokerError, request_not_active, first_non_empty, get, store, remove,
  stop_terminal_cleanup_timer,
}
use cursor_byok_lite.Broker.{publish}

-- `scheduleTerminalCleanup` on a stream; `true` if a timer has been armed, for the sequence that
-- the stream then has
unfoldable pub schedule_stream : ℕ → ActiveStream → ActiveStream × Bool
schedule_stream now stream =
    if not (is_nil stream.subscribers)
    then (stop_terminal_cleanup_timer stream, false)
    else if not (is_terminal_stream_status stream.status)
    then (stop_terminal_cleanup_timer stream, false)
    else (
      record stream {
        terminal_cleanup_seq = (stream.terminal_cleanup_seq + 1) % u64_mod;
        terminal_cleanup_timer = true;
        updated_at = now;
      },
      true,
    )

unfoldable pub schedule_terminal_cleanup : ℕ → Text → StreamBroker → StreamBroker × Bool
schedule_terminal_cleanup now request_id broker =
    on_found (get request_id broker) (broker, false)
      λ stream.
        let (stream', armed) = schedule_stream now stream in
        (store request_id stream' broker, armed)

-- `RemoveIfIdle` on a stream: what it writes to the stream, and whether it removes it
unfoldable pub settle : ActiveStream → ActiveStream
settle stream =
    if is_terminal_stream_status stream.status then stop_terminal_cleanup_timer stream else stream

unfoldable pub is_removable : ActiveStream → Bool
is_removable stream =
    if not (is_nil stream.subscribers)
    then false
    else if is_terminal_stream_status stream.status
    then true
    else not (
        stream.provider_active
        || not (is_nil stream.backlog)
        || not (is_empty (trim_space stream.conversation_id)))

unfoldable pub remove_if_idle : Text → StreamBroker → StreamBroker × Bool
unfolding settle is_removable
remove_if_idle request_id broker =
    if is_empty (trim_space request_id)
    then (broker, false)
    else on_found (get request_id broker) (broker, false)
        λ stream.
          if is_removable stream
          then (remove request_id broker, true)
          else (store request_id (settle stream) broker, false)

-- the timer's function, which may run at any time after it was armed; one step here, while the code
-- lets go of the lock before it calls `RemoveIfIdle`
unfoldable pub run_scheduled_terminal_cleanup : Text → ℕ → StreamBroker → StreamBroker
run_scheduled_terminal_cleanup request_id sequence broker =
    on_found (get request_id broker) broker λ stream.
      if not (stream.terminal_cleanup_seq == sequence)
      then broker
      else (let fired =
            store request_id (record stream { terminal_cleanup_timer = false }) broker in
          if not (is_nil stream.subscribers)
          then fired
          else if not (is_terminal_stream_status stream.status)
          then fired
          else (remove_if_idle request_id fired).0)

unfoldable pub end_event : Text → Text → StreamEvent
end_event terminal_code terminal_message = record {
  sequence = 0;
  message = none;
  end = true;
  terminal_error_code = terminal_code;
  terminal_error_message = terminal_message;
}

-- what the three endings have in common: the ended stream is stored, the end event published, and
-- the cleanup scheduled if nobody reads; one step here, while the code lets go of the lock in between
unfoldable pub finish :
    ℕ → Text → ActiveStream → StreamEvent → StreamBroker → StreamBroker × Option BrokerError
finish now request_id stream event broker =
    let (published, failure) = publish now request_id event (store request_id stream broker) in
    if is_some failure
    then (published, failure)
    else if is_nil stream.subscribers
    then ((schedule_terminal_cleanup now request_id published).0, none)
    else (published, none)

unfoldable pub complete : ℕ → Text → Text → Text → StreamBroker → StreamBroker × Option BrokerError
complete now request_id terminal_code terminal_message broker =
    on_found (get request_id broker) (broker, some (request_not_active (trim_space request_id)))
      λ stream.
        if is_terminal_stream_status stream.status
        then (broker, none)
        else finish now request_id
            (record (stop_terminal_cleanup_timer stream) { status = completed; updated_at = now })
            (end_event (trim_space terminal_code) (trim_space terminal_message)) broker

unfoldable pub fail : ℕ → Text → Text → Text → StreamBroker → StreamBroker × Option BrokerError
fail now request_id terminal_code terminal_message broker =
    on_found (get request_id broker) (broker, some (request_not_active (trim_space request_id)))
      λ stream.
        finish now request_id
          (record (stop_terminal_cleanup_timer stream) { status = failed; updated_at = now })
          (end_event (trim_space terminal_code) (trim_space terminal_message)) broker

unfoldable pub cancel : ℕ → Text → Text → StreamBroker → StreamBroker × Option BrokerError
cancel now request_id terminal_message broker =
    on_found (get request_id broker) (broker, some (request_not_active (trim_space request_id)))
      λ stream.
        finish now request_id
          (record (stop_terminal_cleanup_timer stream) {
            provider_cancel = false;
            provider_active = false;
            status = canceled;
            updated_at = now;
          })
          (end_event (codes "canceled") (
            first_non_empty
              (trim_space terminal_message ∷ codes "[canceled] User aborted request" ∷ [])))
          broker
