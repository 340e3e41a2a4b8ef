-- ===== src/Registry.antt =====
-- internal/backend/forwarder/broker.go: the registry of active streams, and `OpenStream`. An
-- operation takes the registry, and the time where it reads the clock, and returns the registry
-- after it; each runs under the locks that the source takes.
pub mod Laws
use cursor_byok_lite.Prelude.{
  ℕ, ◌+◌, ◌%◌, Bool, true, false, not, ◌&&◌, ◌||◌, List, [], ◌∷◌, ◌++◌, Option, none, some, ltb,
  ◌==◌, if◌then◌else◌, length,
}
use cursor_byok_lite.Prelude.Int.{ℤ, pos, u64_mod}
use cursor_byok_lite.Prelude.Text.{Text, codes, str_eq, is_empty, trim_space}
use cursor_byok_lite.Prelude.Store.{lookup, insert, erase}
use cursor_byok_lite.Prelude.Decimal.{format_nat}
use cursor_byok_lite.Stream.{
  AgentMode, agent, StreamStatus, TurnPhase, ProviderAction, StreamEvent, StreamSubscriber,
  EventLog, ActiveStream, is_terminal_stream_status, is_terminal_turn_phase,
}
use cursor_byok_lite.Stream.Mode.{is_supported_active_mode}
use cursor_byok_lite.Backlog.{
  first_backlog_sequence, compact_backlog, publish_event, subscriber_cursor, read_from_cursor,
}

pub record StreamBroker : Type 0 where
  pub streams : List (Text × ActiveStream)
  pub next_id : ℕ

abbrev pub new_stream_broker : StreamBroker
new_stream_broker = record { streams = []; next_id = 0 }

pub data BrokerError : Type 0 where
  request_id_required : BrokerError
  request_not_active : Text → BrokerError
  unsupported_active_mode : AgentMode → BrokerError

unfoldable pub first_non_empty : List Text → Text
first_non_empty [] = []
first_non_empty (value ∷ values) =
    if is_empty (trim_space value) then first_non_empty values else trim_space value

unfoldable pub get : Text → StreamBroker → Option ActiveStream
get request_id broker = lookup (trim_space request_id) broker.streams

-- what the operations write through the pointer that `Get` returned
unfoldable pub store : Text → ActiveStream → StreamBroker → StreamBroker
store request_id stream broker = record broker {
  streams = insert (trim_space request_id) stream broker.streams;
}

unfoldable pub remove : Text → StreamBroker → StreamBroker
remove request_id broker = record broker { streams = erase (trim_space request_id) broker.streams }

-- what an operation writes to the log of a stream
abbrev pub with_log : EventLog → ActiveStream → ActiveStream
with_log log stream = record stream { log = log }

fresh_log : EventLog
fresh_log = record {
  backlog = [];
  backlog_first_sequence = 1;
  next_backlog_sequence = 1;
  latest_checkpoint = none;
  subscribers = [];
}

pub record StreamRequest : Type 0 where
  pub conversation_id : Text
  pub turn_seq : ℤ
  pub model_id : Text
  pub model_name : Text
  pub mode : AgentMode
  pub latest_user_text : Text

-- the stream that `OpenStream` makes
new_stream : ℕ → Text → StreamRequest → ActiveStream
new_stream now request_id request = record {
  request_id = request_id;
  conversation_id = trim_space request.conversation_id;
  turn_seq = request.turn_seq;
  model_id = trim_space request.model_id;
  model_name = trim_space request.model_name;
  mode = request.mode;
  latest_user_text = trim_space request.latest_user_text;
  status = StreamStatus.created;
  provider_active = false;
  provider_cancel = false;
  actor_stopping = false;
  actor_stop = false;
  actor_done = false;
  phase = TurnPhase.unset;
  pending_provider_action = ProviderAction.idle;
  pending_provider_completion = none;
  pending_compaction = false;
  pending_execs = [];
  pending_interactions = [];
  timers = [];
  next_timer_token = 0;
  current_provider_token = 0;
  log = fresh_log;
  terminal_cleanup_timer = false;
  terminal_cleanup_seq = 0;
  created_at = now;
  updated_at = now;
}

-- `if existing.Status == ""`
abbrev or_created : StreamStatus → StreamStatus
or_created StreamStatus.unset = StreamStatus.created
or_created status = status

-- the stream that `OpenStream` finds, with the new request's context
reopen : ℕ → StreamRequest → ActiveStream → ActiveStream
reopen now request existing = record existing {
  conversation_id = trim_space request.conversation_id;
  turn_seq = request.turn_seq;
  model_id = trim_space request.model_id;
  model_name = trim_space request.model_name;
  mode = request.mode;
  latest_user_text = trim_space request.latest_user_text;
  status = or_created existing.status;
  updated_at = now;
}

reopen_or_new : ℕ → Text → StreamRequest → Option ActiveStream → ActiveStream
reopen_or_new now request_id request none = new_stream now request_id request
reopen_or_new now request_id request (some existing) = reopen now request existing

pub data OpenResult : Type 0 where
  no_stream : OpenResult
  opened : ActiveStream → OpenResult
  refused : BrokerError → OpenResult

-- a request id of spaces is no error, and no stream
unfoldable pub open_stream : ℕ → Text → StreamRequest → StreamBroker → StreamBroker × OpenResult
unfolding fresh_log new_stream reopen reopen_or_new
open_stream now request_id request broker =
    let id = trim_space request_id in
    let stream = reopen_or_new now id request (lookup id broker.streams) in
    if is_empty id
    then (broker, no_stream)
    else if not (is_supported_active_mode request.mode)
    then (broker, refused (unsupported_active_mode request.mode))
    else (record broker { streams = insert id stream broker.streams }, opened stream)

-- `stopTerminalCleanupTimerLocked`
unfoldable pub stop_terminal_cleanup_timer : ActiveStream → ActiveStream
stop_terminal_cleanup_timer stream = record stream {
  terminal_cleanup_seq = (stream.terminal_cleanup_seq + 1) % u64_mod;
  terminal_cleanup_timer = false;
}
