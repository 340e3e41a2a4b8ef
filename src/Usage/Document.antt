-- ===== src/Usage/Document.antt =====
-- usage_store.go: the changes of the document, `UpsertEvent` and `readUsageFileDocument` without the
-- files.
use cursor_byok_lite.Prelude.{
  ℕ, ◌-◌, ◌*◌, ◌/◌, false, not, ◌&&◌, ◌||◌, List, [], ◌∷◌, Option, leb, ltb, ◌==◌, if◌then◌else◌,
  length, take, is_nil, on_found, select,
}
use cursor_byok_lite.Prelude.Int.{add64}
use cursor_byok_lite.Prelude.Text.{Text, str_eq, is_empty, trim_space}
use cursor_byok_lite.Prelude.Store.{lookup, insert}
use cursor_byok_lite.Usage.{
  usage_file_schema_version, usage_recent_event_limit, UsageCounters, no_usage, UsageBucket,
  UsageFileEvent, UsageFileDocument, clamp_non_negative, normalize_usage_event_kind,
  usage_file_event_delta, negate_usage_file_delta, apply_usage_delta,
}

-- the bucket of a key, or a new one at the end, with a change
unfoldable pub add_to_bucket : Text → UsageCounters → List UsageBucket → List UsageBucket
add_to_bucket key delta [] = record { key = key; counters = apply_usage_delta no_usage delta } ∷ []
add_to_bucket key delta (bucket ∷ buckets) =
    let rest = add_to_bucket key delta buckets in
    if str_eq bucket.key key
    then record bucket { counters = apply_usage_delta bucket.counters delta } ∷ buckets
    else bucket ∷ rest

unfoldable pub upsert_recent_usage_event :
    List UsageFileEvent → UsageFileEvent → List UsageFileEvent
upsert_recent_usage_event items event =
    let id = trim_space event.event_id in
    if is_empty id
    then items
    else record event { event_id = id }
      ∷ select (λ item. not (str_eq (trim_space item.event_id) id)) items

unfoldable pub trim_recent_usage_events : List UsageFileEvent → ℕ → List UsageFileEvent
trim_recent_usage_events items limit =
    if limit == 0 || leb (length items) limit then items else take limit items

unfoldable pub index_from :
    List (Text × UsageFileEvent) → List UsageFileEvent → List (Text × UsageFileEvent)
index_from index [] = index
index_from index (event ∷ items) =
    let id = trim_space event.event_id in
    let kind = normalize_usage_event_kind event.kind in
    let more = index_from (insert id (record event { event_id = id; kind = kind }) index) items in
    let same = index_from index items in if is_empty id then same else more

unfoldable pub build_usage_event_index : List UsageFileEvent → List (Text × UsageFileEvent)
build_usage_event_index items = index_from [] items

abbrev pub hour : ℕ
hour = 3600 * 1000000000

-- the event as it is stored, with the time where it has none
unfoldable pub normalize_event : ℕ → UsageFileEvent → UsageFileEvent
normalize_event now event =
    let input = clamp_non_negative event.input_tokens in
    let output = clamp_non_negative event.output_tokens in
    let read = clamp_non_negative event.cache_read_tokens in
    let write = clamp_non_negative event.cache_write_tokens in
    record event {
      event_id = trim_space event.event_id;
      kind = normalize_usage_event_kind event.kind;
      status = trim_space event.status;
      at = if event.at == 0 then now else event.at;
      input_tokens = input;
      output_tokens = output;
      cache_read_tokens = read;
      cache_write_tokens = write;
      total_tokens = add64 (add64 (add64 input output) read) write;
    }

module _ (format_date format_hour : ℕ → Text) (parse_hour : Text → Option ℕ) where
  unfoldable pub apply_usage_hourly_delta :
      UsageFileDocument → ℕ → UsageCounters → UsageFileDocument
  apply_usage_hourly_delta doc at delta =
      if at == 0
      then doc
      else record doc { hourly = add_to_bucket (format_hour (at / hour * hour)) delta doc.hourly }

  unfoldable pub apply_usage_file_delta : UsageFileDocument → ℕ → UsageCounters → UsageFileDocument
  apply_usage_file_delta doc at delta =
      let counted =
        apply_usage_hourly_delta (record doc { totals = apply_usage_delta doc.totals delta }) at
          delta in
      record counted { daily = add_to_bucket (format_date at) delta counted.daily }

  unfoldable pub trim_usage_hourly_buckets : List UsageBucket → ℕ → List UsageBucket
  trim_usage_hourly_buckets items cutoff =
      select
        (λ item.
          on_found (parse_hour (trim_space item.key)) false
            (λ at. not (ltb at (cutoff / hour * hour))))
        items

  -- the hours of the events of a document of an older schema
  unfoldable pub add_hours : UsageFileDocument → List UsageFileEvent → UsageFileDocument
  add_hours doc [] = doc
  add_hours doc (event ∷ items) =
      add_hours (apply_usage_hourly_delta doc event.at (usage_file_event_delta event)) items

  -- `readUsageFileDocument` on a document that was decoded
  unfoldable pub read_usage_file_document : UsageFileDocument → UsageFileDocument
  read_usage_file_document decoded =
      let doc = record decoded {
        schema_version = if decoded.schema_version == 0 then 1 else decoded.schema_version;
      } in
      let hours =
        if ltb doc.schema_version 3 && is_nil doc.hourly
        then add_hours doc doc.recent_events
        else doc in
      let recent = trim_recent_usage_events hours.recent_events usage_recent_event_limit in
      record hours {
        recent_events = recent;
        event_index =
            if is_nil hours.event_index then build_usage_event_index recent else hours.event_index;
      }

  -- the change that an event makes, which takes back that of the event of the same id
  unfoldable pub count_event : UsageFileDocument → UsageFileEvent → UsageFileDocument
  count_event doc event =
      let without = on_found (lookup event.event_id doc.event_index) doc (λ old.
        apply_usage_file_delta doc old.at (negate_usage_file_delta (usage_file_event_delta old))) in
      apply_usage_file_delta without event.at (usage_file_event_delta event)

  -- `UpsertEvent` from the document that was decoded to the one that is written
  unfoldable pub upsert_event : ℕ → UsageFileEvent → UsageFileDocument → UsageFileDocument
  upsert_event now unchecked decoded =
      let event = normalize_event now unchecked in
      let doc = count_event (read_usage_file_document decoded) event in
      let recent =
        trim_recent_usage_events (upsert_recent_usage_event doc.recent_events event)
          usage_recent_event_limit in
      if is_empty event.event_id then decoded else record doc {
        recent_events = recent;
        hourly = trim_usage_hourly_buckets doc.hourly (now - 48 * hour);
        event_index = build_usage_event_index recent;
        schema_version = usage_file_schema_version;
        updated_at = now;
      }

abbrev pub empty_usage_file_document : UsageFileDocument
empty_usage_file_document = record {
  schema_version = usage_file_schema_version;
  updated_at = 0;
  totals = no_usage;
  daily = [];
  hourly = [];
  recent_events = [];
  event_index = [];
}
