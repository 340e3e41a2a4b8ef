-- ===== src/Lifecycle/Invariant.antt =====
-- broker.go: ending and removing streams keeps the registry well formed.
use cursor_byok_lite.Prelude.{
  ℕ, ◌≡◌, refl, sym, subst, ◌∙◌, Bool, true, false, inl, inr, some, if◌then◌else◌, is_nil, is_some,
  Bool-cases, Option-cases, some-eq, arith,
}
use cursor_byok_lite.Prelude.Text.{Text, is_empty, trim_space}
use cursor_byok_lite.Stream.{ActiveStream, StreamEvent, is_terminal_stream_status}
use cursor_byok_lite.Registry.{StreamBroker, get, store, stop_terminal_cleanup_timer}
use cursor_byok_lite.Registry.Laws.{
  IsEntry, IsWellFormed, get-IsEntry, store-IsWellFormed, remove-IsWellFormed, get-store_self,
}
use cursor_byok_lite.Broker.{publish}
use cursor_byok_lite.Broker.Invariant.{HasRoom, publish-IsWellFormed}
use cursor_byok_lite.Lifecycle.{
  schedule_stream, schedule_terminal_cleanup, settle, is_removable, remove_if_idle,
  run_scheduled_terminal_cleanup, finish, complete, fail, cancel,
}

-- An entry stays one if the id and the log stay.
same-IsEntry :
    (key : Text) (stream after : ActiveStream)
    → IsEntry key stream
    → after.log ≡ stream.log
    → after.request_id ≡ stream.request_id
    → IsEntry key after
same-IsEntry key stream after h l r = record {
  log_valid = rw l h.log_valid;
  id_eq = rw r h.id_eq;
  trimmed = h.trimmed;
  named = h.named;
}

schedule_stream-same :
    (now : ℕ) (stream : ActiveStream)
    → ((schedule_stream now stream).0.log ≡ stream.log)
      × ((schedule_stream now stream).0.request_id ≡ stream.request_id)
unfolding schedule_stream stop_terminal_cleanup_timer
schedule_stream-same now stream = ground arith

settle-same :
    (stream : ActiveStream)
    → ((settle stream).log ≡ stream.log) × ((settle stream).request_id ≡ stream.request_id)
unfolding settle stop_terminal_cleanup_timer
settle-same stream = ground arith

pub schedule_terminal_cleanup-IsWellFormed :
    (now : ℕ) (i : Text) (broker : StreamBroker)
    → IsWellFormed broker
    → IsWellFormed (schedule_terminal_cleanup now i broker).0
unfolding schedule_terminal_cleanup
schedule_terminal_cleanup-IsWellFormed now i broker h = elim (Option-cases (get i broker)) [
  | inl e ↦ rw e h
  | inr (stream, e) ↦
      let (l, r) = schedule_stream-same now stream in
      rw e (
        store-IsWellFormed i _ broker h
          (same-IsEntry _ stream _ (get-IsEntry i broker stream h e) l r))
]

pub remove_if_idle-IsWellFormed :
    (i : Text) (broker : StreamBroker)
    → IsWellFormed broker
    → IsWellFormed (remove_if_idle i broker).0
unfolding remove_if_idle
remove_if_idle-IsWellFormed i broker h = elim (Bool-cases (is_empty (trim_space i))) [
  | inl m ↦ rw m h
  | inr m ↦ elim (Option-cases (get i broker)) [
    | inl e ↦ rw (m, e) h
    | inr (stream, e) ↦ elim (Bool-cases (is_removable stream)) [
      | inl q ↦ rw (m, e, q) (remove-IsWellFormed i broker h)
      | inr q ↦
          let (l, r) = settle-same stream in
          rw (m, e, q)
            (store-IsWellFormed i _ broker h
              (same-IsEntry _ stream _ (get-IsEntry i broker stream h e) l r))
    ]
  ]
]

-- An `if` between registries, on any test.
if-IsWellFormed :
    (b : Bool) {x y : StreamBroker}
    → IsWellFormed x
    → IsWellFormed y
    → IsWellFormed (if b then x else y)
if-IsWellFormed true hx hy = hx
if-IsWellFormed false hx hy = hy

pub run-IsWellFormed :
    (i : Text) (sequence : ℕ) (broker : StreamBroker)
    → IsWellFormed broker
    → IsWellFormed (run_scheduled_terminal_cleanup i sequence broker)
unfolding run_scheduled_terminal_cleanup
run-IsWellFormed i sequence broker h = elim (Option-cases (get i broker)) [
  | inl e ↦ rw e h
  | inr (stream, e) ↦
      let fired =
        store-IsWellFormed i (record stream { terminal_cleanup_timer = false }) broker h
          (same-IsEntry _ stream _ (get-IsEntry i broker stream h e) refl refl) in
      rw e (
        if-IsWellFormed _ h (
          if-IsWellFormed _ fired
            (if-IsWellFormed _ fired (remove_if_idle-IsWellFormed i _ fired))))
]

same-stream :
    (i : Text) (stream s : ActiveStream) (broker : StreamBroker)
    → get i (store i stream broker) ≡ some s
    → stream ≡ s
same-stream i stream s broker e = some-eq (sym (get-store_self i stream broker) ∙ e)

publish-stored-IsWellFormed :
    (now : ℕ) (i : Text) (stream : ActiveStream) (event : StreamEvent) (broker : StreamBroker)
    → IsWellFormed broker
    → IsEntry (trim_space i) stream
    → HasRoom stream
    → IsWellFormed (publish now i event (store i stream broker)).0
publish-stored-IsWellFormed now i stream event broker h v room =
    publish-IsWellFormed now i event _ (store-IsWellFormed i stream broker h v)
      λ s e. subst HasRoom (same-stream i stream s broker e) room

pub finish-IsWellFormed :
    (now : ℕ) (i : Text) (stream : ActiveStream) (event : StreamEvent) (broker : StreamBroker)
    → IsWellFormed broker
    → IsEntry (trim_space i) stream
    → HasRoom stream
    → IsWellFormed (finish now i stream event broker).0
unfolding finish
finish-IsWellFormed now i stream event broker h v room =
    let p = publish-stored-IsWellFormed now i stream event broker h v room in
    elim (Bool-cases (is_some (publish now i event (store i stream broker)).1)) [
      | inl f ↦ rw f p
      | inr f ↦ elim (Bool-cases (is_nil stream.subscribers)) [
        | inl s ↦ rw (f, s) (schedule_terminal_cleanup-IsWellFormed now i _ p)
        | inr s ↦ rw (f, s) p
      ]
    ]

module _ (now : ℕ) (i : Text) (broker : StreamBroker) (h : IsWellFormed broker)
    (room : (s : ActiveStream) → get i broker ≡ some s → HasRoom s) where
  pub complete-IsWellFormed :
      (code message : Text) → IsWellFormed (complete now i code message broker).0
  unfolding complete stop_terminal_cleanup_timer
  complete-IsWellFormed code message = elim (Option-cases (get i broker)) [
    | inl e ↦ rw e h
    | inr (stream, e) ↦ elim (Bool-cases (is_terminal_stream_status stream.status)) [
      | inl t ↦ rw (e, t) h
      | inr t ↦
          rw (e, t)
            (finish-IsWellFormed now i _ _ broker h
              (same-IsEntry _ stream _ (get-IsEntry i broker stream h e) refl refl) (room stream e))
    ]
  ]

  pub fail-IsWellFormed : (code message : Text) → IsWellFormed (fail now i code message broker).0
  unfolding fail stop_terminal_cleanup_timer
  fail-IsWellFormed code message = elim (Option-cases (get i broker)) [
    | inl e ↦ rw e h
    | inr (stream, e) ↦ rw e (
        finish-IsWellFormed now i _ _ broker h
          (same-IsEntry _ stream _ (get-IsEntry i broker stream h e) refl refl) (room stream e))
  ]

  pub cancel-IsWellFormed : (message : Text) → IsWellFormed (cancel now i message broker).0
  unfolding cancel stop_terminal_cleanup_timer
  cancel-IsWellFormed message = elim (Option-cases (get i broker)) [
    | inl e ↦ rw e h
    | inr (stream, e) ↦ rw e (
        finish-IsWellFormed now i _ _ broker h
          (same-IsEntry _ stream _ (get-IsEntry i broker stream h e) refl refl) (room stream e))
  ]
