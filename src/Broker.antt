-- ===== src/Broker.antt =====
-- internal/backend/forwarder/broker.go: subscribers, publication and reading.
pub mod Invariant
pub mod Subscribed
use cursor_byok_lite.Prelude.{
  ℕ, ◌+◌, ◌%◌, Bool, true, false, not, ◌&&◌, ◌||◌, List, [], ◌∷◌, ◌++◌, Option, none, some, ltb,
  ◌==◌, if◌then◌else◌, length, on_found,
}
use cursor_byok_lite.Prelude.Int.{pos, u64_mod}
use cursor_byok_lite.Prelude.Text.{Text, codes, str_eq, is_empty, trim_space}
use cursor_byok_lite.Prelude.Store.{lookup, insert, erase}
use cursor_byok_lite.Prelude.Decimal.{format_nat}
use cursor_byok_lite.Stream.{
  agent, StreamEvent, StreamSubscriber, EventLog, ActiveStream, is_terminal_stream_status,
  is_terminal_turn_phase,
}
use cursor_byok_lite.Backlog.{
  first_backlog_sequence, compact_backlog, publish_event, subscriber_cursor, read_from_cursor,
}
use cursor_byok_lite.Registry.{
  StreamBroker, BrokerError, request_id_required, request_not_active, StreamRequest, OpenResult,
  no_stream, opened, refused, get, store, with_log, open_stream, stop_terminal_cleanup_timer,
}

pub record Subscription : Type 0 where
  pub subscriber_id : Text
  pub start : ℕ

-- `Subscribe` under the stream's lock
subscribe_stream : ℕ → Text → ActiveStream → ActiveStream
subscribe_stream now subscriber_id stream =
    let log = stream.log in
    let ready =
      if log.backlog_first_sequence == 0
      then record log { backlog_first_sequence = first_backlog_sequence log }
      else log in
    let subscriber : StreamSubscriber = record {
      signaled = false;
      cursor = subscriber_cursor ready;
    } in
    record (stop_terminal_cleanup_timer stream) {
      log = record ready { subscribers = insert subscriber_id subscriber ready.subscribers };
      updated_at = now;
    }

-- the request with which `Subscribe` opens a stream that is not there yet
abbrev placeholder : StreamRequest
placeholder = record {
  conversation_id = [];
  turn_seq = pos 0;
  model_id = [];
  model_name = [];
  mode = agent;
  latest_user_text = [];
}

pub data SubscribeResult : Type 0 where
  subscribed : Subscription → SubscribeResult
  not_subscribed : BrokerError → SubscribeResult

find_or_open : ℕ → Text → StreamBroker → Option ActiveStream → StreamBroker × OpenResult
unfolding open_stream
find_or_open now id broker (some stream) = (broker, opened stream)
find_or_open now id broker none = open_stream now id placeholder broker

-- `broker.nextID.Add(1)`
next_subscriber_id : StreamBroker → ℕ
next_subscriber_id broker = (broker.next_id + 1) % u64_mod

-- `OpenStream` answers `no_stream` only to an empty id, which `subscribe` has turned away
attach_subscriber : ℕ → Text → StreamBroker × OpenResult → StreamBroker × SubscribeResult
unfolding subscribe_stream next_subscriber_id
attach_subscriber now id (broker, opened stream) =
    let subscriber_id = codes "sub-" ++ format_nat (next_subscriber_id broker) in
    let stream' = subscribe_stream now subscriber_id stream in
    let broker' = store id stream' broker in
    let result : Subscription = record {
      subscriber_id = subscriber_id;
      start = subscriber_cursor (
          if stream.backlog_first_sequence == 0
          then record stream.log { backlog_first_sequence = first_backlog_sequence stream.log }
          else stream.log);
    } in
    (record broker' { next_id = next_subscriber_id broker }, subscribed result)
attach_subscriber now id (broker, no_stream) = (broker, not_subscribed request_id_required)
attach_subscriber now id (broker, refused e) = (broker, not_subscribed e)

unfoldable pub subscribe : ℕ → Text → StreamBroker → StreamBroker × SubscribeResult
unfolding find_or_open attach_subscriber
subscribe now request_id broker =
    let id = trim_space request_id in
    if is_empty id
    then (broker, not_subscribed request_id_required)
    else attach_subscriber now id (find_or_open now id broker (get id broker))

unsubscribe_stream : Text → ActiveStream → ActiveStream
unsubscribe_stream subscriber_id stream =
    let log = stream.log in
    with_log
      (compact_backlog
        (record log { subscribers = erase (trim_space subscriber_id) log.subscribers }))
      stream

-- with the number of subscribers that remain
unfoldable pub unsubscribe : Text → Text → StreamBroker → StreamBroker × ℕ
unfolding unsubscribe_stream
unsubscribe request_id subscriber_id broker =
    on_found (get request_id broker) (broker, 0)
      λ stream.
        let stream' = unsubscribe_stream subscriber_id stream in
        (
          store request_id stream' broker,
          length (erase (trim_space subscriber_id) stream.subscribers),
        )

advance_log : Text → ℕ → EventLog → EventLog
advance_log subscriber_id cursor log =
    on_found (lookup (trim_space subscriber_id) log.subscribers) log λ subscriber.
      if ltb subscriber.cursor cursor
      then compact_backlog (record log {
        subscribers =
            insert (trim_space subscriber_id) (record subscriber { cursor = cursor })
              log.subscribers;
      })
      else log

unfoldable pub advance_subscriber : Text → Text → ℕ → StreamBroker → StreamBroker
unfolding advance_log
advance_subscriber request_id subscriber_id cursor broker =
    on_found (get request_id broker) broker λ stream.
      store request_id (with_log (advance_log subscriber_id cursor stream.log) stream) broker

-- `Publish` from the lock on; a terminal stream takes nothing but its end event
unfoldable pub publish_stream : ℕ → StreamEvent → ActiveStream → ActiveStream
publish_stream now event stream =
    if not event.end && is_terminal_stream_status stream.status
    then stream
    else record stream { log = publish_event event stream.log; updated_at = now }

unfoldable pub publish : ℕ → Text → StreamEvent → StreamBroker → StreamBroker × Option BrokerError
publish now request_id event broker =
    on_found (get request_id broker) (broker, some (request_not_active (trim_space request_id)))
      λ stream. (store request_id (publish_stream now event stream) broker, none)

-- the events, or the error
unfoldable pub read : Text → ℕ → StreamBroker → Option (List StreamEvent)
read request_id cursor broker =
    on_found (get request_id broker) none λ stream. some (read_from_cursor cursor stream.log)

-- the loop over the candidates and their locked states
running_of : Text → Text → List (Text × ActiveStream) → List Text
running_of conversation_id keep [] = []
running_of conversation_id keep ((request_id, stream) ∷ rest) =
    let others = running_of conversation_id keep rest in
    if str_eq (trim_space request_id) keep
    then others
    else if not (str_eq (trim_space stream.conversation_id) conversation_id)
        || is_terminal_stream_status stream.status
        || is_terminal_turn_phase stream.phase
    then others
    else request_id ∷ others

unfoldable pub other_conversation_request_ids : Text → Text → StreamBroker → List Text
unfolding running_of
other_conversation_request_ids conversation_id keep_request_id broker =
    if is_empty (trim_space conversation_id)
    then []
    else running_of (trim_space conversation_id) (trim_space keep_request_id) broker.streams
