-- ===== src/Stream.antt =====
-- internal/backend/forwarder/types.go and actor.go: the events and the state of one active stream.
-- Kept are the fields of `ActiveStream` that the modelled code reads or writes. A pointer to a
-- stream is never nil here, since the broker stores only streams that it has made. A nil map is an
-- empty map, which is how Go reads one. A pending completion is kept without its token usage. A message of the protocol is known as far as the code looks at it: whether it is a
-- checkpoint update, and its encoded content.
pub mod Mode
use cursor_byok_lite.Prelude.{ℕ, Bool, true, false, List, [], ◌∷◌, Option, none, some, ◌≡◌}
use cursor_byok_lite.Prelude.Int.{ℤ}
use cursor_byok_lite.Prelude.Text.{Text}

-- `agentv1.AgentMode`; `other n` is a value of the enumeration that the program does not know.
pub data AgentMode : Type 0 where
  unspecified agent ask plan debug multitask : AgentMode
  other : ℕ → AgentMode

-- `unset` is the empty string.
pub data StreamStatus : Type 0 where
  unset created streaming completed canceled failed : StreamStatus

abbrev pub is_terminal_stream_status : StreamStatus → Bool
is_terminal_stream_status StreamStatus.canceled = true
is_terminal_stream_status StreamStatus.completed = true
is_terminal_stream_status StreamStatus.failed = true
is_terminal_stream_status _ = false

-- `unset` is the empty string.
pub data TurnPhase : Type 0 where
  unset idle provider_running waiting_external awaiting_user compacting : TurnPhase
  completed failed canceled : TurnPhase

abbrev pub is_terminal_turn_phase : TurnPhase → Bool
is_terminal_turn_phase TurnPhase.canceled = true
is_terminal_turn_phase TurnPhase.completed = true
is_terminal_turn_phase TurnPhase.failed = true
is_terminal_turn_phase _ = false

pub data ProviderAction : Type 0 where
  idle start resume : ProviderAction

pub data CompletionDisposition : Type 0 where
  undecided resume_after_external complete_after_external : CompletionDisposition

pub data ServerMessage : Type 0 where
  checkpoint_update : Text → ServerMessage
  other : Text → ServerMessage

pub record StreamEvent : Type 0 where
  pub sequence : ℕ
  pub message : Option ServerMessage
  pub end : Bool
  pub terminal_error_code : Text
  pub terminal_error_message : Text

-- `signaled`: the channel `Signal`, of capacity one, holds a wake-up.
pub record StreamSubscriber : Type 0 where
  pub signaled : Bool
  pub cursor : ℕ

pub record PendingTurnCompletion : Type 0 where
  pub conversation_id : Text
  pub request_id : Text
  pub turn_seq : ℤ
  pub model_call_id : Text
  pub provider_pass : ℤ
  pub disposition : CompletionDisposition

-- The fields of `ActiveStream` that make up the event log and its readers.
pub record EventLog : Type 0 where
  pub backlog : List StreamEvent
  pub backlog_first_sequence : ℕ
  pub next_backlog_sequence : ℕ
  pub latest_checkpoint : Option StreamEvent
  pub subscribers : List (Text × StreamSubscriber)

-- `provider_cancel`, `actor_stop`, `actor_done`: whether the function or channel is there.
-- `pending_interactions` keeps the kind of each interaction, `pending_compaction` whether one is
-- there, `timers` the token of each timer. `terminal_cleanup_timer`: the timer is armed. Times are
-- numbers.
pub record ActiveStream : Type 0 where
  pub request_id : Text
  pub conversation_id : Text
  pub turn_seq : ℤ
  pub model_id : Text
  pub model_name : Text
  pub mode : AgentMode
  pub latest_user_text : Text
  pub status : StreamStatus
  pub provider_active : Bool
  pub provider_cancel : Bool
  pub actor_stopping : Bool
  pub actor_stop : Bool
  pub actor_done : Bool
  pub phase : TurnPhase
  pub pending_provider_action : ProviderAction
  pub pending_provider_completion : Option PendingTurnCompletion
  pub pending_compaction : Bool
  pub pending_execs : List Text
  pub pending_interactions : List (Text × Text)
  pub timers : List (Text × ℕ)
  pub next_timer_token : ℕ
  pub current_provider_token : ℕ
  pub log : EventLog
  pub open log use *
  pub terminal_cleanup_timer : Bool
  pub terminal_cleanup_seq : ℕ
  pub created_at : ℕ
  pub updated_at : ℕ
