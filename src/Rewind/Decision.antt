-- ===== src/Rewind/Decision.antt =====
-- rewind.go: what a decision to go back means for the history.
use cursor_byok_lite.Prelude.{
  ◌+◌, ◌≡◌, refl, true, false, List, ◌∷◌, ◌++◌, Option, none, some, length, All,
}
use cursor_byok_lite.Prelude.Int.{pos, ◌<ℤ◌}
use cursor_byok_lite.Prelude.Text.{Text}
use cursor_byok_lite.History.{HistoryEntry, ConversationFile}
use cursor_byok_lite.Rewind.{RunIntent, RunRewindDecision, is_message, evaluated_decision}

-- An entry of a history.
abbrev pub StandsIn : List HistoryEntry → HistoryEntry → Type 0
StandsIn entries entry =
    (before : List HistoryEntry) × (after : List HistoryEntry) × (entries ≡ before ++ entry ∷ after)

module _ (P : HistoryEntry → Type 0) where
  abbrev Holds : Option HistoryEntry → Type 0
  Holds none = Unit
  Holds (some e) = P e

module _ (message_id : Text → Option Text) where
  abbrev IsMatch : Text → List HistoryEntry → HistoryEntry → Type 0
  IsMatch id entries e = (is_message message_id id e ≡ true) × StandsIn entries e

  -- What it means that a decision applies to a history.
  pub record GoesBack (id : Text) (entries : List HistoryEntry) (d : RunRewindDecision)
      : Type 0 where
    pub entry : HistoryEntry
    pub message : is_message message_id id entry ≡ true
    pub place : StandsIn entries entry
    pub target : d.target_turn_seq ≡ entry.turn_seq
    pub positive : pos 0 <ℤ d.target_turn_seq
    pub prefix_before : All (λ e. e.turn_seq <ℤ d.target_turn_seq) d.prefix_entries
    pub count : length d.prefix_entries + d.dropped_entry_count ≡ length entries

  not_applied :
      (intent : RunIntent) (conversation : Option ConversationFile)
      → (evaluated_decision message_id intent conversation).apply ≡ false
  not_applied intent none = refl
  not_applied intent (some c) = refl
