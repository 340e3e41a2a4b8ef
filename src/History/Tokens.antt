-- ===== src/History/Tokens.antt =====
-- token_usage.go: the count of tokens, and when the next turn is compacted.
use cursor_byok_lite.Prelude.{ℕ, ◌+◌, ◌≤◌, ◌<◌, ◌≡◌, arith, leb}
use cursor_byok_lite.Prelude.Int.{pos, sub64-pos, sub64-neg, i64_max}
use cursor_byok_lite.Prelude.Text.{Text}
use cursor_byok_lite.History.{
  ConversationFile, u32_max, update_conversation_auto_compaction_state,
  clear_conversation_auto_compaction_state,
}

-- A conversation is marked for compaction exactly when its last request has left less room in the
-- context window than the reserve, or just as much. The window has a size, the request and the
-- reserve have tokens, and all fit the machine's integers.
pub update_conversation_auto_compaction_state-pending :
    (total reserve : ℕ) (model_call_id at : Text) (conversation : ConversationFile)
    → 0 < total
    → 0 < reserve
    → 0 < conversation.token_details_max_tokens
    → conversation.token_details_max_tokens ≤ u32_max
    → total ≤ i64_max
    → (update_conversation_auto_compaction_state
        (pos total)
        (pos reserve)
        model_call_id
        at
        conversation).auto_compaction.pending
      ≡ leb conversation.token_details_max_tokens (total + reserve)
unfolding update_conversation_auto_compaction_state clear_conversation_auto_compaction_state
update_conversation_auto_compaction_state-pending total reserve model_call_id at conversation t r w
      m i =
    ground (
      arith,
      sub64-pos conversation.token_details_max_tokens total,
      sub64-neg conversation.token_details_max_tokens total,
    )
