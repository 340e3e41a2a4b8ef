-- ===== src/Usage/Ledger/Refinement.antt =====
-- The usage file keeps the sums of the ledger.
use cursor_byok_lite.Prelude.{
  ℕ, ◌+◌, ◌-◌, ◌≤◌, ◌≡◌, refl, sym, ap, ◌∙◌, subst, List, [], ◌∷◌, ◌++◌, Option, inl, inr, arith,
  on_found, length, length-take-le, take, drop, Bool-cases, Option-cases, ◌*◌,
}
use cursor_byok_lite.Prelude.Int.{pos, i64_max}
use cursor_byok_lite.Prelude.Text.{Text, is_empty}
use cursor_byok_lite.Prelude.Store.{lookup}
use cursor_byok_lite.Usage.{
  usage_file_schema_version, usage_recent_event_limit, UsageFileEvent, UsageFileDocument,
  usage_file_event_delta, negate_usage_file_delta,
}
use cursor_byok_lite.Usage.Document.{
  upsert_recent_usage_event, trim_recent_usage_events, build_usage_event_index, normalize_event,
  apply_usage_file_delta, read_usage_file_document, count_event, upsert_event,
  empty_usage_file_document, trim_usage_hourly_buckets, hour, index_from,
}
use cursor_byok_lite.Usage.Ledger.{
  Counter, count, amount, amounts, Ledger, empty_ledger, others, enter, enter_all, come,
}
use cursor_byok_lite.Usage.Ledger.Counting.{
  count-add, count-take_back, amounts-parts, count-no_usage,
}
use cursor_byok_lite.Usage.Ledger.Index.{
  IsStored, Distinct, find_event, lookup-build_usage_event_index, amounts-others, Distinct-take,
  normalize_event-IsStored, Distinct-cons, upsert_recent_usage_event-others, amounts-others-le,
  Distinct-nil,
}
use cursor_byok_lite.Usage.Ledger.Reading.{
  trim_recent-take, read_same, apply_keeps, count_event-recent,
}

-- The document shows a ledger, of which one counter is watched.
Shows : Counter → UsageFileDocument → Ledger → Type 0
Shows c doc ledger =
    (doc.schema_version ≡ usage_file_schema_version)
    × (doc.recent_events ≡ ledger.recent)
    × (doc.event_index ≡ build_usage_event_index ledger.recent)
    × (length ledger.recent ≤ usage_recent_event_limit)
    × Distinct ledger.recent
    × (count c doc.totals ≡ pos (amounts c ledger.recent + amounts c ledger.settled))

-- An event adds at most its amount.
amounts-enter :
    (c : Counter) (event : UsageFileEvent) (ledger : Ledger)
    → (let after = enter event ledger in
        amounts c after.recent + amounts c after.settled
        ≤ amounts c ledger.recent + amounts c ledger.settled + amount c event)
unfolding enter amounts
amounts-enter c event ledger = elim (Bool-cases (is_empty event.event_id)) [
  | inl e ↦ rw e (omega arith)
  | inr e ↦ rw e (
      omega (
        arith,
        amounts-parts c usage_recent_event_limit (event ∷ others event.event_id ledger.recent)
            ledger.settled,
        amounts-others-le c event.event_id ledger.recent,
      ))
]

module _ (format_date format_hour : ℕ → Text) (parse_hour : Text → Option ℕ) where
  -- What counting an event makes of a counter.
  count_event-totals :
      (c : Counter) (doc : UsageFileDocument) (ledger : Ledger) (event : UsageFileEvent)
      → Shows c doc ledger
      → amounts c ledger.recent + amounts c ledger.settled + amount c event ≤ i64_max
      → count c (count_event format_date format_hour parse_hour doc event).totals
        ≡ pos (amounts c (event ∷ others event.event_id ledger.recent) + amounts c ledger.settled)
  unfolding count_event Shows amounts
  count_event-totals c doc ledger event (schema, recent, index, small, distinct, total) fits =
      let id = event.event_id in
      let t = amounts c ledger.recent + amounts c ledger.settled in
      let rest = amounts c (others id ledger.recent) in
      let split = amounts-others c id ledger.recent distinct in
      let found = ap (lookup id) index ∙ lookup-build_usage_event_index id ledger.recent distinct in
      elim (Option-cases (find_event id ledger.recent)) [
        | inl e ↦
            let all = split ∙ ap (λ o. on_found o 0 (amount c) + rest) e in
            rw (found ∙ e) (
              ap (count c)
                (apply_keeps format_date format_hour parse_hour doc event.at
                  (usage_file_event_delta event)).0
              ∙ count-add c doc.totals t event total (omega arith)
              ∙ ap pos (
                  let q : t + amount c event ≡ amount c event + rest + amounts c ledger.settled =
                    omega (arith, all) in
                  q))
        | inr (old, e) ↦
            let all = split ∙ ap (λ o. on_found o 0 (amount c) + rest) e in
            let without =
              apply_usage_file_delta format_date format_hour parse_hour doc old.at
                (negate_usage_file_delta (usage_file_event_delta old)) in
            let less = t - amount c old in
            let counted : count c without.totals ≡ pos less =
              ap (count c) (apply_keeps format_date format_hour parse_hour doc old.at _).0
              ∙ count-take_back c doc.totals t old total (omega (arith, all)) (omega arith) in
            rw (found ∙ e) (
              ap (count c)
                (apply_keeps format_date format_hour parse_hour without event.at
                  (usage_file_event_delta event)).0
              ∙ count-add c without.totals less event counted (omega (arith, all))
              ∙ ap pos (
                  let q : less + amount c event ≡ amount c event + rest + amounts c ledger.settled =
                    omega (arith, all) in
                  q))
      ]

  upsert_counted :
      (c : Counter) (now : ℕ) (doc : UsageFileDocument) (ledger : Ledger) (event : UsageFileEvent)
      → Shows c doc ledger
      → amounts c ledger.recent + amounts c ledger.settled + amount c event ≤ i64_max
      → IsStored event
      → (let counted =
            count_event format_date format_hour parse_hour
              (read_usage_file_document format_date format_hour parse_hour doc)
              event in
          let recent =
            trim_recent_usage_events
              (upsert_recent_usage_event counted.recent_events event)
              usage_recent_event_limit in
          let events = event ∷ others event.event_id ledger.recent in
          Shows c
            (record counted {
              recent_events = recent;
              hourly =
                  trim_usage_hourly_buckets format_date format_hour parse_hour counted.hourly
                    (now - 48 * hour);
              event_index = build_usage_event_index recent;
              schema_version = usage_file_schema_version;
              updated_at = now;
            })
            (record {
              recent = take usage_recent_event_limit events;
              settled = drop usage_recent_event_limit events ++ ledger.settled;
            }))
  unfolding Shows
  upsert_counted c now doc ledger event shows fits stored =
      let (schema, recent, index, small, distinct, total) = shows in
      let size = subst (λ items. length items ≤ usage_recent_event_limit) (sym recent) small in
      let same =
        read_same format_date format_hour parse_hour doc schema size
          (index ∙ ap build_usage_event_index (sym recent)) in
      let trim =
        λ (items : List UsageFileEvent). trim_recent_usage_events items usage_recent_event_limit in
      let events = event ∷ others event.event_id ledger.recent in
      let kept =
        ap (λ items. trim (upsert_recent_usage_event items event))
          (count_event-recent format_date format_hour parse_hour _ event
            ∙ ap (λ d. d.recent_events) same
            ∙ recent)
        ∙ ap trim (upsert_recent_usage_event-others event ledger.recent stored distinct)
        ∙ trim_recent-take events in
      (
        refl,
        kept,
        ap build_usage_event_index kept,
        length-take-le usage_recent_event_limit events,
        Distinct-take usage_recent_event_limit events
            (Distinct-cons event ledger.recent stored distinct),
        ap (λ d. count c (count_event format_date format_hour parse_hour d event).totals) same
            ∙ count_event-totals c doc ledger event shows fits
            ∙ ap pos (sym (amounts-parts c usage_recent_event_limit events ledger.settled)),
      )

  upsert_event-Shows :
      (c : Counter) (now : ℕ) (doc : UsageFileDocument) (ledger : Ledger) (event : UsageFileEvent)
      → Shows c doc ledger
      → amounts c ledger.recent + amounts c ledger.settled + amount c (normalize_event now event)
        ≤ i64_max
      → Shows c
          (upsert_event format_date format_hour parse_hour now event doc)
          (enter (normalize_event now event) ledger)
  unfolding upsert_event enter
  upsert_event-Shows c now doc ledger unchecked shows fits =
      elim (Bool-cases (is_empty (normalize_event now unchecked).event_id)) [
        | inl e ↦ rw e shows
        | inr e ↦ rw e (
            upsert_counted c now doc ledger (normalize_event now unchecked) shows fits
              (normalize_event-IsStored now unchecked e))
      ]

  -- The events that come, upserted one after the other.
  unfoldable pub upsert_all : List (ℕ × UsageFileEvent) → UsageFileDocument → UsageFileDocument
  upsert_all [] doc = doc
  upsert_all ((now, event) ∷ events) doc =
      upsert_all events (upsert_event format_date format_hour parse_hour now event doc)

  upsert_all-Shows :
      (c : Counter) (events : List (ℕ × UsageFileEvent)) (doc : UsageFileDocument) (ledger : Ledger)
      → Shows c doc ledger
      → amounts c ledger.recent + amounts c ledger.settled + come c events ≤ i64_max
      → Shows c (upsert_all events doc) (enter_all events ledger)
  unfolding upsert_all enter_all come
  upsert_all-Shows c [] doc ledger shows fits = shows
  upsert_all-Shows c ((now, event) ∷ events) doc ledger shows fits =
      upsert_all-Shows c events _ _ (upsert_event-Shows c now doc ledger event shows (omega arith))
        (omega (arith, amounts-enter c (normalize_event now event) ledger))

-- After any events, each counter of the totals is the sum of what the events of the ledger add to it:
-- the latest event of each id that is among the recent ones, and the events that were pushed out of
-- these. The events come to an empty document, what they add to the counter is in total below 2^63,
-- and the time formats may be any.
pub upsert_all-Ledger :
    (format_date format_hour : ℕ → Text) (parse_hour : Text → Option ℕ) (c : Counter)
    (events : List (ℕ × UsageFileEvent))
    → come c events ≤ i64_max
    → (let doc = upsert_all format_date format_hour parse_hour events empty_usage_file_document in
        let ledger = enter_all events empty_ledger in
        (doc.recent_events ≡ ledger.recent)
        × (count c doc.totals ≡ pos (amounts c ledger.recent + amounts c ledger.settled)))
unfolding Shows amounts build_usage_event_index index_from
upsert_all-Ledger format_date format_hour parse_hour c events fits =
    let empty_shows : Shows c empty_usage_file_document empty_ledger =
      (refl, refl, refl, omega arith, Distinct-nil, count-no_usage c) in
    let shows =
      upsert_all-Shows format_date format_hour parse_hour c events empty_usage_file_document
        empty_ledger empty_shows (omega arith) in
    (shows.1, shows.5)
