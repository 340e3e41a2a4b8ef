-- ===== src/Examples/Streams.antt =====
-- broker.go: one request that is opened, published to, subscribed to, completed and removed.
use cursor_byok_lite.Prelude.{
  ◌≡◌, refl, sym, subst, ◌∙◌, some-eq, ◌+◌, ◌<◌, false, List, [], none, some, arith, ◌⊎◌, ◌++◌, ◌∷◌,
}
use cursor_byok_lite.Prelude.Int.{pos, u64_mod}
use cursor_byok_lite.Prelude.Text.{Text, codes, str_eq, trim_space}
use cursor_byok_lite.Prelude.Store.{lookup, insert}
use cursor_byok_lite.Stream.{
  agent, StreamStatus, TurnPhase, ProviderAction, ServerMessage, StreamEvent, EventLog,
  ActiveStream, AgentMode, StreamSubscriber,
}
use cursor_byok_lite.Stream.Mode.{
  is_supported_active_mode, validate_supported_active_mode, mode_alias, parse_mode_alias,
  parse_target_mode_id, parse_mode_alias-mode_alias,
}
use cursor_byok_lite.Registry.{
  StreamBroker, new_stream_broker, StreamRequest, get, open_stream, store,
  stop_terminal_cleanup_timer,
}
use cursor_byok_lite.Registry.Laws.{IsWellFormed}
use cursor_byok_lite.Backlog.{
  is_checkpoint_stream_event, subscriber_cursor, start_cursor, checkpoint_cursor,
}
use cursor_byok_lite.Broker.Invariant.{HasRoom, get-publish}
use cursor_byok_lite.Broker.{publish, publish_stream, read, subscribe}
use cursor_byok_lite.Reachable.{
  RoomAt, Reachable, start, next, opens, publishes, Reachable-IsWellFormed, subscribes,
}
use cursor_byok_lite.Reachable.Readers.{publish_all, delivered, read-delivered}
use cursor_byok_lite.Prelude.Decimal.{format_nat}

abbrev pub request : StreamRequest
request = record {
  conversation_id = codes "c1";
  turn_seq = pos 1;
  model_id = codes "m";
  model_name = codes "m";
  mode = agent;
  latest_user_text = codes "hi";
}

abbrev pub id : Text
id = codes "r1"

abbrev pub delta : StreamEvent
delta = record {
  sequence = 0;
  message = some (ServerMessage.other (codes "text"));
  end = false;
  terminal_error_code = [];
  terminal_error_message = [];
}

abbrev pub one_open : StreamBroker
one_open = (open_stream 10 id request new_stream_broker).0

abbrev pub empty_log : EventLog
empty_log = record {
  backlog = [];
  backlog_first_sequence = 1;
  next_backlog_sequence = 1;
  latest_checkpoint = none;
  subscribers = [];
}

abbrev pub opened_stream : ActiveStream
opened_stream = record {
  request_id = id;
  conversation_id = codes "c1";
  turn_seq = pos 1;
  model_id = codes "m";
  model_name = codes "m";
  mode = agent;
  latest_user_text = codes "hi";
  status = StreamStatus.created;
  provider_active = false;
  provider_cancel = false;
  actor_stopping = false;
  actor_stop = false;
  actor_done = false;
  phase = TurnPhase.unset;
  pending_provider_action = ProviderAction.idle;
  pending_provider_completion = none;
  pending_compaction = false;
  pending_execs = [];
  pending_interactions = [];
  timers = [];
  next_timer_token = 0;
  current_provider_token = 0;
  log = empty_log;
  terminal_cleanup_timer = false;
  terminal_cleanup_seq = 0;
  created_at = 10;
  updated_at = 10;
}

pub get-one_open : get id one_open ≡ some opened_stream
unfolding get open_stream trim_space lookup insert is_supported_active_mode str_eq
get-one_open = refl

pub room : opened_stream.next_backlog_sequence + 1 < u64_mod
room = omega arith

pub one_open-room : RoomAt id one_open
one_open-room s e = subst HasRoom (some-eq (sym get-one_open ∙ e)) room

pub one_open-Reachable : Reachable one_open
one_open-Reachable = next start (opens 10 id request)

abbrev pub published : StreamBroker
published = (publish 11 id delta one_open).0

abbrev pub published_stream : ActiveStream
published_stream = publish_stream 11 delta opened_stream

pub get-published : get id published ≡ some published_stream
get-published = get-publish 11 id delta opened_stream one_open get-one_open

pub published-Reachable : Reachable published
published-Reachable = next one_open-Reachable (publishes 11 id delta one_open-room)

abbrev followed : StreamBroker
followed = (subscribe 12 id one_open).0

abbrev reader : StreamSubscriber
reader = record { signaled = false; cursor = 1 }

abbrev followed_stream : ActiveStream
followed_stream = record opened_stream {
  log = record empty_log { subscribers = (codes "sub-1", reader) ∷ [] };
  terminal_cleanup_seq = 1;
  updated_at = 12;
}

get-followed : get id followed ≡ some followed_stream
unfolding get open_stream trim_space lookup insert is_supported_active_mode str_eq subscribe
    subscriber_cursor start_cursor checkpoint_cursor format_nat store stop_terminal_cleanup_timer
get-followed = refl

read-delivered_example :
    (before : List StreamEvent) × (read id 1 followed ≡ some before)
    × (read id 1 (publish_all id ((13, delta) ∷ (14, delta) ∷ []) followed)
        ≡ some (before ++ delivered 1 ((13, delta) ∷ (14, delta) ∷ [])))
unfolding lookup str_eq is_checkpoint_stream_event
read-delivered_example =
    read-delivered id (codes "sub-1") followed_stream reader ((13, delta) ∷ (14, delta) ∷ [])
      (next one_open-Reachable (subscribes 12 id)) get-followed refl refl (omega arith)
      (omega arith) (omega arith) (omega arith) (refl, (refl, tt))

Reachable-IsWellFormed_example : IsWellFormed published
Reachable-IsWellFormed_example = Reachable-IsWellFormed published-Reachable

parse_mode_alias-mode_alias_example :
    (validate_supported_active_mode AgentMode.plan ≡ some AgentMode.plan)
      × ((name : Text) × (mode_alias AgentMode.plan ≡ some name)
          × (parse_mode_alias name ≡ some AgentMode.plan)
          × (parse_target_mode_id name ≡ some AgentMode.plan))
    ⊎ (validate_supported_active_mode AgentMode.plan ≡ none) × (mode_alias AgentMode.plan ≡ none)
parse_mode_alias-mode_alias_example = parse_mode_alias-mode_alias AgentMode.plan
