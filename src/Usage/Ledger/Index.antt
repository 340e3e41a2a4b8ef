-- ===== src/Usage/Ledger/Index.antt =====
-- The index of the recent events finds the one of an id.
use cursor_byok_lite.Prelude.{
  ℕ, zero, suc, ◌+◌, ◌≤◌, ◌≡◌, refl, sym, ap, ◌∙◌, subst, Bool, true, false, not, List, [], ◌∷◌,
  Option, none, some, inl, inr, arith, if◌then◌else◌, on_found, take, select, All, All-map,
  All-select, select-All, Bool-cases,
}
use cursor_byok_lite.Prelude.Text.{Text, str_eq, str_eq_iff, is_empty, trim_space, trim_space_idem}
use cursor_byok_lite.Prelude.Store.{lookup, insert, lookup-insert}
use cursor_byok_lite.Usage.{UsageFileEvent, normalize_usage_event_kind, is_turn}
use cursor_byok_lite.Usage.Document.{
  index_from, build_usage_event_index, normalize_event, upsert_recent_usage_event,
}
use cursor_byok_lite.Usage.Ledger.{Counter, amount, amounts, others}

-- An event as `UpsertEvent` stores it.
pub IsStored : UsageFileEvent → Type 0
IsStored event =
    (trim_space event.event_id ≡ event.event_id)
    × (is_empty event.event_id ≡ false)
    × (normalize_usage_event_kind event.kind ≡ event.kind)

pub Without : Text → List UsageFileEvent → Type 0
Without id events = All (λ event. str_eq event.event_id id ≡ false) events

-- Stored events, no two of one id.
pub Distinct : List UsageFileEvent → Type 0
Distinct [] = Unit
Distinct (event ∷ events) = IsStored event × Without event.event_id events × Distinct events

-- the event of an id
pub find_event : Text → List UsageFileEvent → Option UsageFileEvent
find_event id [] = none
find_event id (event ∷ events) =
    let rest = find_event id events in if str_eq event.event_id id then some event else rest

find_event-Without :
    (id : Text) (events : List UsageFileEvent) → Without id events → find_event id events ≡ none
unfolding find_event Without
find_event-Without id [] h = refl
find_event-Without id (event ∷ events) (e, h) = rw e (find_event-Without id events h)

stored_same :
    (event : UsageFileEvent)
    → IsStored event
    → record event {
      event_id = trim_space event.event_id;
      kind = normalize_usage_event_kind event.kind;
    }
      ≡ event
unfolding IsStored
stored_same event (id, filled, kind) =
    ap (λ t. record event { event_id = t; kind = normalize_usage_event_kind event.kind }) id
    ∙ ap (λ k. record event { kind = k }) kind

found_or : Option UsageFileEvent → Option UsageFileEvent → Option UsageFileEvent
found_or found fallback = on_found found fallback some

or_none : (found : Option UsageFileEvent) → found_or found none ≡ found
unfolding found_or
or_none none = refl
or_none (some event) = refl

-- An event that is found nowhere else may be looked for first or last.
first_or_last :
    (b : Bool) (event : UsageFileEvent) (found fallback : Option UsageFileEvent)
    → (b ≡ true → found ≡ none)
    → found_or found (if b then some event else fallback)
      ≡ found_or (if b then some event else found) fallback
unfolding found_or
first_or_last true event found fallback h = rw (h refl) refl
first_or_last false event found fallback h = refl

Without-eq :
    (event : UsageFileEvent) (id : Text) (events : List UsageFileEvent)
    → Without event.event_id events
    → str_eq event.event_id id ≡ true
    → Without id events
Without-eq event id events h e =
    subst (λ t. Without t events) ((str_eq_iff event.event_id id).0 e) h

lookup-index_from :
    (k : Text) (index : List (Text × UsageFileEvent)) (events : List UsageFileEvent)
    → Distinct events
    → lookup k (index_from index events) ≡ found_or (find_event k events) (lookup k index)
unfolding find_event index_from Distinct found_or IsStored
lookup-index_from k index [] h = refl
lookup-index_from k index (event ∷ events) (stored, apart, h) =
    let kept = record event {
      event_id = trim_space event.event_id;
      kind = normalize_usage_event_kind event.kind;
    } in
    let filled : is_empty (trim_space event.event_id) ≡ false = ap is_empty stored.0 ∙ stored.1 in
    let inserted : lookup k (insert (trim_space event.event_id) kept index)
        ≡ (if str_eq event.event_id k then some event else lookup k index) =
      ap (λ t. lookup k (insert t kept index)) stored.0
      ∙ ap (λ v. lookup k (insert event.event_id v index)) (stored_same event stored)
      ∙ lookup-insert event.event_id k event index in
    rw filled (
      lookup-index_from k (insert (trim_space event.event_id) kept index) events h
      ∙ ap (found_or (find_event k events)) inserted
      ∙ first_or_last (str_eq event.event_id k) event (find_event k events) (lookup k index)
          (λ e. find_event-Without k events (Without-eq event k events apart e)))

-- The index of distinct events finds the event of an id, and nothing else.
pub lookup-build_usage_event_index :
    (k : Text) (events : List UsageFileEvent)
    → Distinct events
    → lookup k (build_usage_event_index events) ≡ find_event k events
unfolding build_usage_event_index found_or lookup
lookup-build_usage_event_index k events h =
    lookup-index_from k [] events h ∙ or_none (find_event k events)

others_all :
    (id : Text) (events : List UsageFileEvent) → Without id events → others id events ≡ events
unfolding Without select
others_all id [] h = refl
others_all id (event ∷ events) (e, h) = rw e (ap (λ r. event ∷ r) (others_all id events h))

-- The amounts of distinct events are those of one id and those of the others.
pub amounts-others :
    (c : Counter) (id : Text) (events : List UsageFileEvent)
    → Distinct events
    → amounts c events ≡ on_found (find_event id events) 0 (amount c) + amounts c (others id events)
unfolding find_event Distinct amounts select
amounts-others c id [] h = omega arith
amounts-others c id (event ∷ events) (stored, apart, h) =
    elim (Bool-cases (str_eq event.event_id id)) [
      | inl e ↦ rw e (
          ap (λ r. amount c event + amounts c r)
            (sym (others_all id events (Without-eq event id events apart e))))
      | inr e ↦ rw e (omega (arith, amounts-others c id events h))
    ]

Without-select :
    (id : Text) (p : UsageFileEvent → Bool) (events : List UsageFileEvent)
    → Without id events
    → Without id (select p events)
unfolding Without
Without-select id p events h = All-select _ p events h

Without-take :
    (id : Text) (n : ℕ) (events : List UsageFileEvent)
    → Without id events
    → Without id (take n events)
unfolding Without
Without-take id zero events h = record {}
Without-take id (suc n) [] h = record {}
Without-take id (suc n) (event ∷ events) (e, h) = (e, Without-take id n events h)

pub Distinct-others :
    (id : Text) (events : List UsageFileEvent) → Distinct events → Distinct (others id events)
unfolding Distinct select
Distinct-others id [] h = h
Distinct-others id (event ∷ events) (stored, apart, h) =
    elim (Bool-cases (not (str_eq event.event_id id))) [
      | inl e ↦
          rw e (stored, Without-select event.event_id _ events apart, Distinct-others id events h)
      | inr e ↦ rw e (Distinct-others id events h)
    ]

pub Distinct-take :
    (n : ℕ) (events : List UsageFileEvent) → Distinct events → Distinct (take n events)
unfolding Distinct
Distinct-take zero events h = record {}
Distinct-take (suc n) [] h = record {}
Distinct-take (suc n) (event ∷ events) (stored, apart, h) =
    (stored, Without-take event.event_id n events apart, Distinct-take n events h)

pub others-Without : (id : Text) (events : List UsageFileEvent) → Without id (others id events)
unfolding Without
others-Without id events =
    All-map (λ event. not (str_eq event.event_id id) ≡ true) _ _ (λ event h. ground (arith, h))
      (select-All _ events)

kind_idem :
    (kind : Text)
    → normalize_usage_event_kind (normalize_usage_event_kind kind) ≡ normalize_usage_event_kind kind
unfolding normalize_usage_event_kind trim_space str_eq
kind_idem kind = elim (Bool-cases (is_turn kind)) [ inl e ↦ rw e refl | inr e ↦ rw e refl ]

-- What `UpsertEvent` makes of an event with an id is stored.
pub normalize_event-IsStored :
    (now : ℕ) (event : UsageFileEvent)
    → is_empty (normalize_event now event).event_id ≡ false
    → IsStored (normalize_event now event)
unfolding IsStored normalize_event
normalize_event-IsStored now event h = (trim_space_idem event.event_id, h, kind_idem event.kind)

pub Distinct-cons :
    (event : UsageFileEvent) (events : List UsageFileEvent)
    → IsStored event
    → Distinct events
    → Distinct (event ∷ others event.event_id events)
unfolding Distinct
Distinct-cons event events stored h =
    (stored, others-Without event.event_id events, Distinct-others event.event_id events h)

trimmed_others :
    (id : Text) (events : List UsageFileEvent)
    → Distinct events
    → select (λ item. not (str_eq (trim_space item.event_id) id)) events ≡ others id events
unfolding Distinct IsStored select
trimmed_others id [] h = refl
trimmed_others id (event ∷ events) (stored, apart, h) =
    ap
      (λ t.
        if not (str_eq t id)
        then event ∷ select (λ item. not (str_eq (trim_space item.event_id) id)) events
        else select (λ item. not (str_eq (trim_space item.event_id) id)) events)
      stored.0
    ∙ ap (λ r. if not (str_eq event.event_id id) then event ∷ r else r) (trimmed_others id events h)

-- A stored event is put in front of the events of other ids.
pub upsert_recent_usage_event-others :
    (event : UsageFileEvent) (events : List UsageFileEvent)
    → IsStored event
    → Distinct events
    → upsert_recent_usage_event events event ≡ event ∷ others event.event_id events
unfolding upsert_recent_usage_event IsStored
upsert_recent_usage_event-others event events stored h =
    let put = λ (t : Text).
      if is_empty t
      then events
      else record event { event_id = t }
        ∷ select (λ item. not (str_eq (trim_space item.event_id) t)) events in
    ap put stored.0
    ∙ ap
        (λ b.
          if b
          then events
          else event
            ∷ select (λ item. not (str_eq (trim_space item.event_id) event.event_id)) events)
        stored.1
    ∙ ap (λ r. event ∷ r) (trimmed_others event.event_id events h)

pub amounts-others-le :
    (c : Counter) (id : Text) (events : List UsageFileEvent)
    → amounts c (others id events) ≤ amounts c events
unfolding amounts select
amounts-others-le c id [] = omega arith
amounts-others-le c id (event ∷ events) = elim (Bool-cases (not (str_eq event.event_id id))) [
  | inl e ↦ rw e (omega (arith, amounts-others-le c id events))
  | inr e ↦ rw e (omega (arith, amounts-others-le c id events))
]

pub Distinct-nil : Distinct []
unfolding Distinct
Distinct-nil = record {}
