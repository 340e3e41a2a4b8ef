-- ===== src/Examples/Usages.antt =====
-- usage_store.go: a provider's call that is reported twice, and a turn.
use cursor_byok_lite.Prelude.{ℕ, ◌+◌, ◌≤◌, ◌≡◌, arith, true, List, [], ◌∷◌, Option, none}
use cursor_byok_lite.Prelude.Int.{pos, i64_max, add64}
use cursor_byok_lite.Prelude.Text.{Text, codes, trim_space, str_eq}
use cursor_byok_lite.Prelude.Decimal.{format_nat}
use cursor_byok_lite.Usage.{
  UsageFileEvent, usage_file_event_delta, normalize_usage_event_kind, clamp_non_negative,
}
use cursor_byok_lite.Usage.Document.{normalize_event, empty_usage_file_document}
use cursor_byok_lite.Usage.Ledger.{tokens, count, amounts, empty_ledger, enter_all, come}
use cursor_byok_lite.Usage.Ledger.Refinement.{upsert_all, upsert_all-Ledger}

abbrev event : Text → Text → ℕ → UsageFileEvent
event id kind n = record {
  event_id = id;
  kind = kind;
  status = codes "completed";
  at = 0;
  input_tokens = pos n;
  output_tokens = pos 1;
  cache_read_tokens = pos 0;
  cache_write_tokens = pos 0;
  total_tokens = pos 0;
  usage_present = true;
}

abbrev events : List (ℕ × UsageFileEvent)
events =
    (100, event (codes "call-1") [] 10)
    ∷ (200, event (codes "turn-1") (codes "turn_finalized") 0)
    ∷ (300, event (codes "call-1") [] 12)
    ∷ []

-- the time formats, of which nothing is used
abbrev no_hour : Text → Option ℕ
no_hour s = none

few : come tokens events ≤ i64_max
unfolding come normalize_event usage_file_event_delta normalize_usage_event_kind clamp_non_negative
    trim_space str_eq add64
few = omega arith

upsert_all-Ledger_example :
    (let doc = upsert_all format_nat format_nat no_hour events empty_usage_file_document in
      let ledger = enter_all events empty_ledger in
      (doc.recent_events ≡ ledger.recent)
      × (count tokens doc.totals
          ≡ pos (amounts tokens ledger.recent + amounts tokens ledger.settled)))
upsert_all-Ledger_example = upsert_all-Ledger format_nat format_nat no_hour tokens events few
