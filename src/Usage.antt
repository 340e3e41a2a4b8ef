-- ===== src/Usage.antt =====
-- internal/backend/forwarder/usage_store.go: the file of the tokens and turns that were used. It is
-- the document that is written as JSON and read back before each change; a time is a number of
-- nanoseconds, 0 the zero time. How a time is written as a date or an hour, and an hour read, are
-- parameters: `time.Time.Format` and `time.Parse`.
pub mod Document
pub mod Ledger
use cursor_byok_lite.Prelude.{
  ℕ, zero, suc, ◌+◌, ◌-◌, ◌*◌, ◌/◌, ◌≡◌, refl, Bool, true, false, not, ◌&&◌, ◌||◌, List, [], ◌∷◌,
  ◌++◌, Option, none, some, leb, ltb, ◌==◌, if◌then◌else◌, length, take, is_nil, on_found, select,
}
use cursor_byok_lite.Prelude.Int.{ℤ, pos, ltb_ℤ, add64, sub64}
use cursor_byok_lite.Prelude.Text.{Text, codes, str_eq, is_empty, trim_space}
use cursor_byok_lite.Prelude.Store.{lookup, insert}

abbrev pub usage_file_schema_version : ℕ
usage_file_schema_version = 3

abbrev pub usage_recent_event_limit : ℕ
usage_recent_event_limit = 500

-- The counters that the totals, a day, an hour and a change have in common.
pub record UsageCounters : Type 0 where
  pub provider_calls : ℤ
  pub turns_total : ℤ
  pub valid_turns_total : ℤ
  pub invalid_turns_total : ℤ
  pub input_tokens : ℤ
  pub output_tokens : ℤ
  pub cache_read_tokens : ℤ
  pub cache_write_tokens : ℤ
  pub total_tokens : ℤ

abbrev pub no_usage : UsageCounters
no_usage = record {
  provider_calls = pos 0;
  turns_total = pos 0;
  valid_turns_total = pos 0;
  invalid_turns_total = pos 0;
  input_tokens = pos 0;
  output_tokens = pos 0;
  cache_read_tokens = pos 0;
  cache_write_tokens = pos 0;
  total_tokens = pos 0;
}

-- a day by its date, or an hour by its text
pub record UsageBucket : Type 0 where
  pub key : Text
  pub counters : UsageCounters

pub record UsageFileEvent : Type 0 where
  pub event_id : Text
  pub kind : Text
  pub status : Text
  pub at : ℕ
  pub input_tokens : ℤ
  pub output_tokens : ℤ
  pub cache_read_tokens : ℤ
  pub cache_write_tokens : ℤ
  pub total_tokens : ℤ
  pub usage_present : Bool

pub record UsageFileDocument : Type 0 where
  pub schema_version : ℕ
  pub updated_at : ℕ
  pub totals : UsageCounters
  pub daily : List UsageBucket
  pub hourly : List UsageBucket
  pub recent_events : List UsageFileEvent
  pub event_index : List (Text × UsageFileEvent)

-- `nonNegativeInt64` and `clampNonNegativeInt64`
unfoldable pub clamp_non_negative : ℤ → ℤ
clamp_non_negative value = if ltb_ℤ value (pos 0) then pos 0 else value

abbrev pub is_turn : Text → Bool
is_turn kind = str_eq (trim_space kind) (codes "turn_finalized")

unfoldable pub normalize_usage_event_kind : Text → Text
normalize_usage_event_kind kind =
    if is_turn kind then codes "turn_finalized" else codes "provider_call"

unfoldable pub usage_file_event_delta : UsageFileEvent → UsageCounters
usage_file_event_delta event =
    let done = str_eq (trim_space event.status) (codes "completed") in
    if is_turn (normalize_usage_event_kind event.kind)
    then record no_usage {
      turns_total = pos 1;
      valid_turns_total = if done then pos 1 else pos 0;
      invalid_turns_total = if done then pos 0 else pos 1;
    }
    else record no_usage {
      provider_calls = pos 1;
      input_tokens = clamp_non_negative event.input_tokens;
      output_tokens = clamp_non_negative event.output_tokens;
      cache_read_tokens = clamp_non_negative event.cache_read_tokens;
      cache_write_tokens = clamp_non_negative event.cache_write_tokens;
      total_tokens = clamp_non_negative event.total_tokens;
    }

abbrev minus : ℤ → ℤ
minus n = sub64 (pos 0) n

unfoldable pub negate_usage_file_delta : UsageCounters → UsageCounters
negate_usage_file_delta delta = record {
  provider_calls = minus delta.provider_calls;
  turns_total = minus delta.turns_total;
  valid_turns_total = minus delta.valid_turns_total;
  invalid_turns_total = minus delta.invalid_turns_total;
  input_tokens = minus delta.input_tokens;
  output_tokens = minus delta.output_tokens;
  cache_read_tokens = minus delta.cache_read_tokens;
  cache_write_tokens = minus delta.cache_write_tokens;
  total_tokens = minus delta.total_tokens;
}

abbrev plus : ℤ → ℤ → ℤ
plus count delta = clamp_non_negative (add64 count delta)

-- a change of the totals, a day or an hour
unfoldable pub apply_usage_delta : UsageCounters → UsageCounters → UsageCounters
apply_usage_delta counters delta = record {
  provider_calls = plus counters.provider_calls delta.provider_calls;
  turns_total = plus counters.turns_total delta.turns_total;
  valid_turns_total = plus counters.valid_turns_total delta.valid_turns_total;
  invalid_turns_total = plus counters.invalid_turns_total delta.invalid_turns_total;
  input_tokens = plus counters.input_tokens delta.input_tokens;
  output_tokens = plus counters.output_tokens delta.output_tokens;
  cache_read_tokens = plus counters.cache_read_tokens delta.cache_read_tokens;
  cache_write_tokens = plus counters.cache_write_tokens delta.cache_write_tokens;
  total_tokens = plus counters.total_tokens delta.total_tokens;
}
