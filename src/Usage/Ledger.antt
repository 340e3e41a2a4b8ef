-- ===== src/Usage/Ledger.antt =====
-- What the counters of the usage file stand for: the events that were counted. The recent ones, up to
-- the limit, can still be replaced by a later event of the same id; those that were pushed out stay
-- counted as they are.
pub mod Counting
pub mod Index
mod Reading
pub mod Refinement
use cursor_byok_lite.Prelude.{
  ℕ, zero, suc, ◌+◌, ◌-◌, ◌≡◌, refl, Bool, true, false, not, List, [], ◌∷◌, ◌++◌, Option, none,
  some, if◌then◌else◌, take, drop, select,
}
use cursor_byok_lite.Prelude.Int.{ℤ, pos_part}
use cursor_byok_lite.Prelude.Text.{Text, str_eq, is_empty, trim_space}
use cursor_byok_lite.Usage.{
  usage_recent_event_limit, UsageCounters, UsageFileEvent, usage_file_event_delta,
}
use cursor_byok_lite.Usage.Document.{normalize_event}

-- The counters by name.
pub data Counter : Type 0 where
  calls : Counter
  turns : Counter
  valid : Counter
  invalid : Counter
  input : Counter
  output : Counter
  cache_read : Counter
  cache_write : Counter
  tokens : Counter

abbrev pub count : Counter → UsageCounters → ℤ
count calls counters = counters.provider_calls
count turns counters = counters.turns_total
count valid counters = counters.valid_turns_total
count invalid counters = counters.invalid_turns_total
count input counters = counters.input_tokens
count output counters = counters.output_tokens
count cache_read counters = counters.cache_read_tokens
count cache_write counters = counters.cache_write_tokens
count tokens counters = counters.total_tokens

-- what an event adds to a counter
abbrev pub amount : Counter → UsageFileEvent → ℕ
amount c event = pos_part (count c (usage_file_event_delta event))

unfoldable pub amounts : Counter → List UsageFileEvent → ℕ
amounts c [] = 0
amounts c (event ∷ events) = amount c event + amounts c events

pub record Ledger : Type 0 where
  pub recent : List UsageFileEvent
  pub settled : List UsageFileEvent

abbrev pub empty_ledger : Ledger
empty_ledger = record { recent = []; settled = [] }

abbrev pub others : Text → List UsageFileEvent → List UsageFileEvent
others id events = select (λ item. not (str_eq item.event_id id)) events

-- the ledger with an event, which takes the place of the recent one of its id
unfoldable pub enter : UsageFileEvent → Ledger → Ledger
enter event ledger =
    let events = event ∷ others event.event_id ledger.recent in
    if is_empty event.event_id then ledger else record {
      recent = take usage_recent_event_limit events;
      settled = drop usage_recent_event_limit events ++ ledger.settled;
    }

-- Events with the times at which they come.
unfoldable pub enter_all : List (ℕ × UsageFileEvent) → Ledger → Ledger
enter_all [] ledger = ledger
enter_all ((now, event) ∷ events) ledger =
    enter_all events (enter (normalize_event now event) ledger)

unfoldable pub come : Counter → List (ℕ × UsageFileEvent) → ℕ
come c [] = 0
come c ((now, event) ∷ events) = amount c (normalize_event now event) + come c events
