-- ===== src/Broker/Invariant.antt =====
-- broker.go: subscribing, reading and publishing keep the registry well formed.
use cursor_byok_lite.Prelude.{
  ℕ, ◌+◌, ◌<◌, ◌≡◌, refl, false, not, ◌&&◌, inl, inr, Option, none, some, arith, ltb, ◌==◌,
  Bool-cases, Option-cases,
}
use cursor_byok_lite.Prelude.Int.{u64_mod}
use cursor_byok_lite.Prelude.Text.{Text, is_empty, trim_space}
use cursor_byok_lite.Prelude.Store.{lookup}
use cursor_byok_lite.Stream.{ActiveStream, EventLog, StreamEvent, is_terminal_stream_status}
use cursor_byok_lite.Backlog.{compact_backlog}
use cursor_byok_lite.Backlog.Invariant.{
  IsValid, IsValid-readers, compact_backlog-IsLog, compact_backlog-bounded, publish_event-IsValid,
}
use cursor_byok_lite.Registry.{
  StreamBroker, OpenResult, no_stream, opened, refused, get, store, stop_terminal_cleanup_timer,
}
use cursor_byok_lite.Registry.Laws.{
  IsEntry, IsWellFormed, get-IsEntry, store-IsWellFormed, open_stream-IsWellFormed, ForOpened,
  open_stream-ForOpened, get-store_self,
}
use cursor_byok_lite.Broker.{
  subscribe, subscribe_stream, find_or_open, attach_subscriber, unsubscribe, unsubscribe_stream,
  advance_subscriber, advance_log, publish, publish_stream,
}

pub compact_backlog-IsValid : (log : EventLog) → IsValid log → IsValid (compact_backlog log)
compact_backlog-IsValid log v = record {
  numbering = compact_backlog-IsLog log v.numbering;
  bounded = compact_backlog-bounded log;
}

module _ (subscriber_id : Text) where
  unsubscribe_stream-IsEntry :
      (key : Text) (stream : ActiveStream)
      → IsEntry key stream
      → IsEntry key (unsubscribe_stream subscriber_id stream)
  unfolding unsubscribe_stream
  unsubscribe_stream-IsEntry key stream h = record {
    log_valid = compact_backlog-IsValid _ (IsValid-readers stream.log h.log_valid);
    id_eq = h.id_eq;
    trimmed = h.trimmed;
    named = h.named;
  }

  pub unsubscribe-IsWellFormed :
      (i : Text) (broker : StreamBroker)
      → IsWellFormed broker
      → IsWellFormed (unsubscribe i subscriber_id broker).0
  unfolding unsubscribe
  unsubscribe-IsWellFormed i broker h = elim (Option-cases (get i broker)) [
    | inl e ↦ rw e h
    | inr (stream, e) ↦ rw e (
        store-IsWellFormed i _ broker h
          (unsubscribe_stream-IsEntry (trim_space i) stream (get-IsEntry i broker stream h e)))
  ]

  advance_log-IsValid :
      (cursor : ℕ) (log : EventLog) → IsValid log → IsValid (advance_log subscriber_id cursor log)
  unfolding advance_log
  advance_log-IsValid cursor log v =
      elim (Option-cases (lookup (trim_space subscriber_id) log.subscribers)) [
        | inl e ↦ rw e v
        | inr (subscriber, e) ↦ elim (Bool-cases (ltb subscriber.cursor cursor)) [
          | inl q ↦ rw (e, q) (compact_backlog-IsValid _ (IsValid-readers log v))
          | inr q ↦ rw (e, q) v
        ]
      ]

  pub advance_subscriber-IsWellFormed :
      (i : Text) (cursor : ℕ) (broker : StreamBroker)
      → IsWellFormed broker
      → IsWellFormed (advance_subscriber i subscriber_id cursor broker)
  unfolding advance_subscriber
  advance_subscriber-IsWellFormed i cursor broker h = elim (Option-cases (get i broker)) [
    | inl e ↦ rw e h
    | inr (stream, e) ↦
        let v = get-IsEntry i broker stream h e in
        rw e (
          store-IsWellFormed i _ broker h (record {
            log_valid = advance_log-IsValid cursor stream.log v.log_valid;
            id_eq = v.id_eq;
            trimmed = v.trimmed;
            named = v.named;
          }))
  ]

-- A sequence number is left for one more event.
abbrev pub HasRoom : ActiveStream → Type 0
HasRoom stream = stream.next_backlog_sequence + 1 < u64_mod

pub publish_stream-IsEntry :
    (now : ℕ) (key : Text) (event : StreamEvent) (stream : ActiveStream)
    → HasRoom stream
    → IsEntry key stream
    → IsEntry key (publish_stream now event stream)
unfolding publish_stream
publish_stream-IsEntry now key event stream room v =
    elim (Bool-cases (not event.end && is_terminal_stream_status stream.status)) [
      | inl e ↦ rw e v
      | inr e ↦ rw e (record {
        log_valid = publish_event-IsValid event stream.log v.log_valid room;
        id_eq = v.id_eq;
        trimmed = v.trimmed;
        named = v.named;
      })
    ]

pub publish-IsWellFormed :
    (now : ℕ) (i : Text) (event : StreamEvent) (broker : StreamBroker)
    → IsWellFormed broker
    → ((s : ActiveStream) → get i broker ≡ some s → HasRoom s)
    → IsWellFormed (publish now i event broker).0
unfolding publish
publish-IsWellFormed now i event broker h room = elim (Option-cases (get i broker)) [
  | inl e ↦ rw e h
  | inr (stream, e) ↦ rw e (
      store-IsWellFormed i _ broker h (
        publish_stream-IsEntry now (trim_space i) event stream (room stream e)
          (get-IsEntry i broker stream h e)))
]

-- In a valid log the first number is set.
subscribe_stream-IsEntry :
    (now : ℕ) (subscriber_id key : Text) (stream : ActiveStream)
    → IsEntry key stream
    → IsEntry key (subscribe_stream now subscriber_id stream)
unfolding subscribe_stream stop_terminal_cleanup_timer
subscribe_stream-IsEntry now subscriber_id key stream v =
    let first = v.log_valid.numbering.positive in
    let set : (stream.backlog_first_sequence == 0) ≡ false = ground arith in
    record {
      log_valid = rw set (IsValid-readers stream.log v.log_valid);
      id_eq = v.id_eq;
      trimmed = v.trimmed;
      named = v.named;
    }

find_or_open-opens :
    (now : ℕ) (i : Text) (broker : StreamBroker) (o : Option ActiveStream)
    → IsWellFormed broker
    → get i broker ≡ o
    → IsWellFormed (find_or_open now i broker o).0
      × ForOpened (trim_space i) (find_or_open now i broker o).1
unfolding find_or_open
find_or_open-opens now i broker none h e =
    (open_stream-IsWellFormed now i _ broker h, open_stream-ForOpened now i _ broker h)
find_or_open-opens now i broker (some stream) h e = (h, get-IsEntry i broker stream h e)

attach_subscriber-IsWellFormed :
    (now : ℕ) (i : Text) (broker : StreamBroker) (r : OpenResult)
    → IsWellFormed broker
    → ForOpened (trim_space i) r
    → IsWellFormed (attach_subscriber now i (broker, r)).0
unfolding attach_subscriber
attach_subscriber-IsWellFormed now i broker no_stream h v = h
attach_subscriber-IsWellFormed now i broker (refused e) h v = h
attach_subscriber-IsWellFormed now i broker (opened stream) h v =
    let b =
      store-IsWellFormed i _ broker h (subscribe_stream-IsEntry now _ (trim_space i) stream v) in
    record { at = b.at }

pub subscribe-IsWellFormed :
    (now : ℕ) (i : Text) (broker : StreamBroker)
    → IsWellFormed broker
    → IsWellFormed (subscribe now i broker).0
unfolding subscribe
subscribe-IsWellFormed now i broker h = elim (Bool-cases (is_empty (trim_space i))) [
  | inl e ↦ rw e h
  | inr e ↦
      let key = trim_space i in
      let (b, v) = find_or_open-opens now key broker (get key broker) h refl in
      rw e (
        attach_subscriber-IsWellFormed now key (find_or_open now key broker (get key broker)).0
          (find_or_open now key broker (get key broker)).1 b v)
]

-- What `Publish` does to an active request.
pub publish-stored :
    (now : ℕ) (i : Text) (event : StreamEvent) (stream : ActiveStream) (broker : StreamBroker)
    → get i broker ≡ some stream
    → publish now i event broker ≡ (store i (publish_stream now event stream) broker, none)
unfolding publish
publish-stored now i event stream broker e = rw e

pub get-publish :
    (now : ℕ) (i : Text) (event : StreamEvent) (stream : ActiveStream) (broker : StreamBroker)
    → get i broker ≡ some stream
    → get i (publish now i event broker).0 ≡ some (publish_stream now event stream)
get-publish now i event stream broker e =
    rw (publish-stored now i event stream broker e) (get-store_self i _ broker)
