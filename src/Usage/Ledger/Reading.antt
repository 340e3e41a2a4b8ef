-- ===== src/Usage/Ledger/Reading.antt =====
-- What reading the usage file and counting one event leave as it is.
use cursor_byok_lite.Prelude.{
  ℕ, ◌≤◌, ◌≡◌, refl, sym, ap, ◌∙◌, subst, List, [], ◌∷◌, Option, inl, inr, arith, leb, ◌==◌,
  if◌then◌else◌, length, take, take_all, is_nil, Bool-cases, Option-cases,
}
use cursor_byok_lite.Prelude.Text.{Text}
use cursor_byok_lite.Prelude.Store.{lookup}
use cursor_byok_lite.Usage.{
  usage_file_schema_version, usage_recent_event_limit, UsageCounters, UsageFileEvent,
  UsageFileDocument, usage_file_event_delta, negate_usage_file_delta, apply_usage_delta,
}
use cursor_byok_lite.Usage.Document.{
  trim_recent_usage_events, build_usage_event_index, apply_usage_hourly_delta,
  apply_usage_file_delta, read_usage_file_document, count_event,
}

pub trim_recent-take :
    (events : List UsageFileEvent)
    → trim_recent_usage_events events usage_recent_event_limit
      ≡ take usage_recent_event_limit events
unfolding trim_recent_usage_events
trim_recent-take events = elim (Bool-cases (leb (length events) usage_recent_event_limit)) [
  | inl e ↦ rw e (sym (take_all usage_recent_event_limit events (ground arith)))
  | inr e ↦ rw e refl
]

index_either :
    (index : List (Text × UsageFileEvent)) (built : List (Text × UsageFileEvent))
    → index ≡ built
    → (if is_nil index then built else index) ≡ index
index_either [] built e = sym e
index_either (entry ∷ index) built e = refl

module _ (format_date format_hour : ℕ → Text) (parse_hour : Text → Option ℕ) where
  read_current :
      (doc : UsageFileDocument)
      → (let current = record doc { schema_version = usage_file_schema_version } in
          length doc.recent_events ≤ usage_recent_event_limit
          → doc.event_index ≡ build_usage_event_index doc.recent_events
          → read_usage_file_document format_date format_hour parse_hour current ≡ current)
  unfolding read_usage_file_document
  read_current doc small index =
      let current = record doc { schema_version = usage_file_schema_version } in
      let items = doc.recent_events in
      ap
        (λ t. record current {
          recent_events = t;
          event_index =
              if is_nil doc.event_index then build_usage_event_index t else doc.event_index;
        })
        (trim_recent-take items ∙ take_all usage_recent_event_limit items small)
      ∙ ap (λ i. record current { event_index = i }) (index_either doc.event_index _ index)

  -- A document of the current schema is read as it is.
  pub read_same :
      (doc : UsageFileDocument)
      → doc.schema_version ≡ usage_file_schema_version
      → length doc.recent_events ≤ usage_recent_event_limit
      → doc.event_index ≡ build_usage_event_index doc.recent_events
      → read_usage_file_document format_date format_hour parse_hour doc ≡ doc
  read_same doc schema small index =
      subst (λ d. read_usage_file_document format_date format_hour parse_hour d ≡ d)
        (sym (ap (λ n. record doc { schema_version = n }) schema)) (read_current doc small index)

  pub apply_keeps :
      (doc : UsageFileDocument) (at : ℕ) (delta : UsageCounters)
      → (let after = apply_usage_file_delta format_date format_hour parse_hour doc at delta in
          (after.totals ≡ apply_usage_delta doc.totals delta)
          × (after.recent_events ≡ doc.recent_events))
  unfolding apply_usage_file_delta apply_usage_hourly_delta
  apply_keeps doc at delta = elim (Bool-cases (at == 0)) [
    | inl e ↦ rw e (refl, refl)
    | inr e ↦ rw e (refl, refl)
  ]

  pub count_event-recent :
      (doc : UsageFileDocument) (event : UsageFileEvent)
      → (count_event format_date format_hour parse_hour doc event).recent_events ≡ doc.recent_events
  unfolding count_event
  count_event-recent doc event = elim (Option-cases (lookup event.event_id doc.event_index)) [
    | inl e ↦ rw e (apply_keeps doc event.at (usage_file_event_delta event)).1
    | inr (old, e) ↦ rw e (
        (apply_keeps _ event.at (usage_file_event_delta event)).1
        ∙ (apply_keeps doc old.at (negate_usage_file_delta (usage_file_event_delta old))).1)
  ]
