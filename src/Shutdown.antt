-- ===== src/Shutdown.antt =====
-- internal/backend/forwarder/broker.go: `Shutdown`, which detaches all streams, and the release of a
-- stream's state from actor.go. A waiter is known by the id of its stream.
use cursor_byok_lite.Prelude.{
  ℕ, ◌≡◌, refl, true, false, ◌⊎◌, inl, inr, List, [], ◌∷◌, none, some, All, if◌then◌else◌, is_nil,
  Bool-cases, Bool,
}
use cursor_byok_lite.Prelude.Text.{Text, trim_space}
use cursor_byok_lite.Prelude.Store.{lookup}
use cursor_byok_lite.Stream.{
  ActiveStream, StreamEvent, StreamStatus, TurnPhase, ProviderAction, canceled,
}
use cursor_byok_lite.Registry.{StreamBroker, request_not_active, get, stop_terminal_cleanup_timer}
use cursor_byok_lite.Broker.{publish, read}
use cursor_byok_lite.Actor.{clear_all_stream_timers}

unfoldable pub release_terminal_stream_state : ℕ → ActiveStream → ActiveStream
release_terminal_stream_state now stream = record stream {
  provider_cancel = false;
  provider_active = false;
  pending_provider_action = ProviderAction.idle;
  pending_provider_completion = none;
  pending_compaction = false;
  pending_execs = [];
  pending_interactions = [];
  updated_at = now;
}

-- the loop's body under the lock; the call of `ProviderCancel` and the closing of `ActorStop` are seen
-- as cleared fields only
unfoldable pub detach : ℕ → ActiveStream → ActiveStream
detach now stream = record (stop_terminal_cleanup_timer stream) {
  provider_cancel = false;
  provider_active = false;
  actor_stopping = true;
  actor_stop = false;
  status = StreamStatus.canceled;
  phase = TurnPhase.canceled;
  log = record stream.log { backlog = []; latest_checkpoint = none; subscribers = [] };
  updated_at = now;
}

-- A stream with an actor is left to the actor to release.
unfoldable pub shutdown_stream : ℕ → ActiveStream → ActiveStream
shutdown_stream now stream =
    if stream.actor_done
    then detach now stream
    else release_terminal_stream_state now (clear_all_stream_timers now (detach now stream))

unfoldable pub shutdown_all : ℕ → List (Text × ActiveStream) → List ActiveStream
shutdown_all now [] = []
shutdown_all now ((id, stream) ∷ rest) = shutdown_stream now stream ∷ shutdown_all now rest

unfoldable pub shutdown_waiters : List (Text × ActiveStream) → List Text
shutdown_waiters [] = []
shutdown_waiters ((id, stream) ∷ rest) =
    let others = shutdown_waiters rest in
    if stream.actor_done then stream.request_id ∷ others else others

pub record Detached : Type 0 where
  pub streams : List ActiveStream
  pub waiters : List Text

unfoldable pub shutdown : ℕ → StreamBroker → StreamBroker × Detached
shutdown now broker = (
  record broker { streams = [] },
  record { streams = shutdown_all now broker.streams; waiters = shutdown_waiters broker.streams },
)

-- A stream that holds nothing back from the garbage collector: it is canceled, nobody reads it, and
-- it is marked as stopping and its actor is left to release it or, where there is none, its timers and pending work are gone.
pub record IsShut (stream : ActiveStream) : Type 0 where
  pub ended : stream.status ≡ canceled
  pub no_provider : stream.provider_active ≡ false
  pub no_cancel : stream.provider_cancel ≡ false
  pub no_cleanup : stream.terminal_cleanup_timer ≡ false
  pub no_events : is_nil stream.backlog ≡ true
  pub no_readers : is_nil stream.subscribers ≡ true
  pub stopping : stream.actor_stopping ≡ true
  pub rest :
      (stream.actor_done ≡ true)
      ⊎ ((is_nil stream.timers ≡ true)
          × (is_nil stream.pending_execs ≡ true)
          × (is_nil stream.pending_interactions ≡ true)
          × (stream.pending_provider_completion ≡ none))

-- A stream without an actor is released at once.
cleared :
    (now : ℕ) (stream : ActiveStream)
    → IsShut (release_terminal_stream_state now (clear_all_stream_timers now (detach now stream)))
unfolding release_terminal_stream_state clear_all_stream_timers detach stop_terminal_cleanup_timer
cleared now stream = elim (Bool-cases (is_nil stream.timers)) [
  | inl e ↦ simp e (record {
    ended = refl;
    no_provider = refl;
    no_cancel = refl;
    no_cleanup = refl;
    no_events = refl;
    no_readers = refl;
    stopping = refl;
    rest = inr (e, refl, refl, refl);
  })
  | inr e ↦ simp e (record {
    ended = refl;
    no_provider = refl;
    no_cancel = refl;
    no_cleanup = refl;
    no_events = refl;
    no_readers = refl;
    stopping = refl;
    rest = inr (refl, refl, refl, refl);
  })
]

either-IsShut :
    (now : ℕ) (stream : ActiveStream) (b : Bool)
    → stream.actor_done ≡ b
    → IsShut (
        if b
        then detach now stream
        else release_terminal_stream_state now (clear_all_stream_timers now (detach now stream)))
unfolding detach stop_terminal_cleanup_timer
either-IsShut now stream true e = record {
  ended = refl;
  no_provider = refl;
  no_cancel = refl;
  no_cleanup = refl;
  no_events = refl;
  no_readers = refl;
  stopping = refl;
  rest = inl e;
}
either-IsShut now stream false e = cleared now stream

shutdown_stream-IsShut : (now : ℕ) (stream : ActiveStream) → IsShut (shutdown_stream now stream)
unfolding shutdown_stream
shutdown_stream-IsShut now stream = either-IsShut now stream stream.actor_done refl

shutdown_all-IsShut : (now : ℕ) (m : List (Text × ActiveStream)) → All IsShut (shutdown_all now m)
unfolding shutdown_all
shutdown_all-IsShut now [] = tt
shutdown_all-IsShut now ((id, stream) ∷ rest) =
    (shutdown_stream-IsShut now stream, shutdown_all-IsShut now rest)

-- After a shutdown every stream that the registry had is shut, and the registry has none: a request
-- is not active, a publication to it is an error that changes nothing, and a read of it an error.
pub shutdown-IsShut :
    (now later : ℕ) (i : Text) (event : StreamEvent) (cursor : ℕ) (broker : StreamBroker)
    → All IsShut (shutdown now broker).1.streams
      × (get i (shutdown now broker).0 ≡ none)
      × (publish later i event (shutdown now broker).0
          ≡ ((shutdown now broker).0, some (request_not_active (trim_space i))))
      × (read i cursor (shutdown now broker).0 ≡ none)
unfolding shutdown get publish read lookup
shutdown-IsShut now later i event cursor broker =
    (shutdown_all-IsShut now broker.streams, refl, refl, refl)
