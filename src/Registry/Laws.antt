-- ===== src/Registry/Laws.antt =====
-- broker.go: the registry as a map of streams, and its invariant.
use cursor_byok_lite.Prelude.{
  ℕ, ◌≡◌, refl, sym, ap, subst, ◌∙◌, false, inl, inr, Option, none, some, arith, if◌then◌else◌,
  Bool-cases, some-eq,
}
use cursor_byok_lite.Prelude.Text.{
  Text, str_eq, str_eq_iff, str_eq_refl, is_empty, trim_space, trim_space_idem,
}
use cursor_byok_lite.Prelude.Store.{lookup, insert, lookup-insert, lookup-erase, insert-lookup_self}
use cursor_byok_lite.Stream.{ActiveStream}
use cursor_byok_lite.Stream.Mode.{is_supported_active_mode}
use cursor_byok_lite.Backlog.Invariant.{IsValid}
use cursor_byok_lite.Registry.{
  StreamBroker, new_stream_broker, get, store, remove, StreamRequest, OpenResult, open_stream,
  new_stream, reopen, reopen_or_new, fresh_log, no_stream, opened, refused,
}

pub get-store :
    (i j : Text) (stream : ActiveStream) (broker : StreamBroker)
    → get j (store i stream broker)
      ≡ (if str_eq (trim_space i) (trim_space j) then some stream else get j broker)
unfolding get store
get-store i j stream broker = lookup-insert (trim_space i) (trim_space j) stream broker.streams

pub get-store_self :
    (i : Text) (stream : ActiveStream) (broker : StreamBroker)
    → get i (store i stream broker) ≡ some stream
get-store_self i stream broker = simp (get-store, str_eq_refl)

pub get-remove :
    (i j : Text) (broker : StreamBroker)
    → get j (remove i broker)
      ≡ (if str_eq (trim_space i) (trim_space j) then none else get j broker)
unfolding get remove
get-remove i j broker = lookup-erase (trim_space i) (trim_space j) broker.streams

pub get-remove_self : (i : Text) (broker : StreamBroker) → get i (remove i broker) ≡ none
get-remove_self i broker = simp (get-remove, str_eq_refl)

pub get-trim_space : (i : Text) (broker : StreamBroker) → get (trim_space i) broker ≡ get i broker
unfolding get
get-trim_space i broker = rw trim_space_idem

pub store-get_self :
    (i : Text) (stream : ActiveStream) (broker : StreamBroker)
    → get i broker ≡ some stream
    → store i stream broker ≡ broker
unfolding get store
store-get_self i stream broker e =
    ap (λ m. let b : StreamBroker = record broker { streams = m } in b)
      (insert-lookup_self (trim_space i) stream broker.streams e)

-- An entry of the registry: it stands under its stream's trimmed request id, and its log is valid.
pub record IsEntry (key : Text) (stream : ActiveStream) : Type 0 where
  pub log_valid : IsValid stream.log
  pub id_eq : stream.request_id ≡ key
  pub trimmed : trim_space key ≡ key
  pub named : is_empty key ≡ false

pub record IsWellFormed (broker : StreamBroker) : Type 0 where
  pub at :
      (key : Text) (stream : ActiveStream)
      → lookup key broker.streams ≡ some stream
      → IsEntry key stream

pub new_stream_broker-IsWellFormed : IsWellFormed new_stream_broker
unfolding lookup
new_stream_broker-IsWellFormed = record { at = λ key stream e. absurd (let q : ⊥ = cc in q) }

pub get-IsEntry :
    (i : Text) (broker : StreamBroker) (stream : ActiveStream)
    → IsWellFormed broker
    → get i broker ≡ some stream
    → IsEntry (trim_space i) stream
unfolding get
get-IsEntry i broker stream h e = h.at (trim_space i) stream e

insert-IsWellFormed :
    (key : Text) (stream : ActiveStream) (broker : StreamBroker)
    → IsWellFormed broker
    → IsEntry key stream
    → IsWellFormed (record broker { streams = insert key stream broker.streams })
insert-IsWellFormed key stream broker h v = record {
  at = λ j s e. elim (Bool-cases (str_eq key j)) [
    | inl q ↦
        let same : key ≡ j = (str_eq_iff key j).0 q in
        let found : some stream ≡ some s =
          sym (lookup-insert key j stream broker.streams ∙ rw q) ∙ e in
        subst (λ k. IsEntry k s) same (subst (IsEntry key) (some-eq found) v)
    | inr q ↦ h.at j s (sym (lookup-insert key j stream broker.streams ∙ rw q) ∙ e)
  ];
}

pub store-IsWellFormed :
    (i : Text) (stream : ActiveStream) (broker : StreamBroker)
    → IsWellFormed broker
    → IsEntry (trim_space i) stream
    → IsWellFormed (store i stream broker)
unfolding store
store-IsWellFormed i stream broker h v = insert-IsWellFormed (trim_space i) stream broker h v

pub remove-IsWellFormed :
    (i : Text) (broker : StreamBroker) → IsWellFormed broker → IsWellFormed (remove i broker)
unfolding remove
remove-IsWellFormed i broker h = record {
  at = λ j s e. elim (Bool-cases (str_eq (trim_space i) j)) [
    | inl q ↦
        let gone : none ≡ some s = sym (lookup-erase (trim_space i) j broker.streams ∙ rw q) ∙ e in
        absurd (let f : ⊥ = cc gone in f)
    | inr q ↦ h.at j s (sym (lookup-erase (trim_space i) j broker.streams ∙ rw q) ∙ e)
  ];
}

fresh_log-IsValid : IsValid fresh_log
unfolding fresh_log
fresh_log-IsValid = record {
  numbering = record {
    numbered = tt;
    next = refl;
    positive = omega arith;
    word = omega arith;
    checkpoint = tt;
  };
  bounded = omega arith;
}

reopen_or_new-IsEntry :
    (now : ℕ) (key : Text) (request : StreamRequest) (o : Option ActiveStream)
    → trim_space key ≡ key
    → is_empty key ≡ false
    → ((s : ActiveStream) → o ≡ some s → IsEntry key s)
    → IsEntry key (reopen_or_new now key request o)
unfolding reopen_or_new reopen new_stream
reopen_or_new-IsEntry now key request none t n h = record {
  log_valid = fresh_log-IsValid;
  id_eq = refl;
  trimmed = t;
  named = n;
}
reopen_or_new-IsEntry now key request (some s) t n h = record {
  log_valid = (h s refl).log_valid;
  id_eq = (h s refl).id_eq;
  trimmed = t;
  named = n;
}

pub open_stream-IsWellFormed :
    (now : ℕ) (i : Text) (request : StreamRequest) (broker : StreamBroker)
    → IsWellFormed broker
    → IsWellFormed (open_stream now i request broker).0
unfolding open_stream
open_stream-IsWellFormed now i request broker h = elim (Bool-cases (is_empty (trim_space i))) [
  | inl e ↦ rw e h
  | inr e ↦ elim (Bool-cases (is_supported_active_mode request.mode)) [
    | inl m ↦
        rw (e, m)
          (insert-IsWellFormed (trim_space i) _ broker h (
            reopen_or_new-IsEntry now (trim_space i) request (lookup (trim_space i) broker.streams)
              (trim_space_idem i) e (h.at (trim_space i))))
    | inr m ↦ rw (e, m) h
  ]
]

-- What the outcome of `OpenStream` gives.
abbrev pub ForOpened : Text → OpenResult → Type 0
ForOpened key (opened stream) = IsEntry key stream
ForOpened key no_stream = Unit
ForOpened key (refused e) = Unit

pub open_stream-ForOpened :
    (now : ℕ) (i : Text) (request : StreamRequest) (broker : StreamBroker)
    → IsWellFormed broker
    → ForOpened (trim_space i) (open_stream now i request broker).1
unfolding open_stream
open_stream-ForOpened now i request broker h = elim (Bool-cases (is_empty (trim_space i))) [
  | inl e ↦ rw e tt
  | inr e ↦ elim (Bool-cases (is_supported_active_mode request.mode)) [
    | inl m ↦
        rw (e, m)
          (reopen_or_new-IsEntry now (trim_space i) request (lookup (trim_space i) broker.streams)
            (trim_space_idem i) e (h.at (trim_space i)))
    | inr m ↦ rw (e, m) tt
  ]
]
