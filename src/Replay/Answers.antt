-- ===== src/Replay/Answers.antt =====
-- The calls of an assistant and the results behind them.
use cursor_byok_lite.Prelude.{
  ℕ, zero, suc, ◌≡◌, refl, sym, ap, Bool, true, false, not, ◌&&◌, ◌||◌, List, [], ◌∷◌, ◌++◌, ◌⊎◌,
  inl, inr, arith, length, is_nil, select, All, All-map, All-select, select-All, Bool-cases, subst,
  All-both, chosen, or_right,
}
use cursor_byok_lite.Prelude.Int.{pos}
use cursor_byok_lite.Prelude.Text.{
  Text, codes, str_eq, str_eq_iff, is_empty, trim_space, str_eq_refl,
}
use cursor_byok_lite.ToolCallId.{ToolCallDescriptor}
use cursor_byok_lite.Replay.{Message, is_assistant, is_tool, renumbered, says_more}
use cursor_byok_lite.Replay.Batches.{is_called}
use cursor_byok_lite.Replay.Sequence.{
  tool_block, is_responded, trim_from, trim_replay_dangling_assistant_tool_calls,
  normalize_replay_message_sequence,
}

abbrev pub is_calling : Message → Bool
is_calling message = is_assistant message && not (is_nil message.tool_calls)

-- The calls are numbered by their places, each has a result in the block, and each result of the
-- block belongs to a call.
pub Answered : List ToolCallDescriptor → List Message → Type 0
Answered calls block =
    (renumbered 0 calls ≡ calls)
    × All (λ call. is_responded (trim_space call.id) block ≡ true) calls
    × All (λ result. is_called (trim_space result.tool_call_id) calls ≡ true) block

-- Each message that calls tools is answered by the tool messages right behind it.
pub Paired : List Message → Type 0
Paired [] = Unit
Paired (message ∷ messages) =
    ((is_calling message ≡ false) ⊎ Answered message.tool_calls (tool_block messages))
    × Paired messages

renumbered_idem :
    (n : ℕ) (calls : List ToolCallDescriptor)
    → renumbered n (renumbered n calls) ≡ renumbered n calls
unfolding renumbered
renumbered_idem n [] = refl
renumbered_idem n (call ∷ calls) =
    ap (λ r. record call { index = pos n } ∷ r) (renumbered_idem (suc n) calls)

renumbered-All :
    (Q : Text → Type 0) (n : ℕ) (calls : List ToolCallDescriptor)
    → All (λ call. Q call.id) calls
    → All (λ call. Q call.id) (renumbered n calls)
unfolding renumbered
renumbered-All Q n [] h = h
renumbered-All Q n (call ∷ calls) (q, h) = (q, renumbered-All Q (suc n) calls h)

is_nil-renumbered :
    (n : ℕ) (calls : List ToolCallDescriptor) → is_nil (renumbered n calls) ≡ is_nil calls
unfolding renumbered
is_nil-renumbered n [] = refl
is_nil-renumbered n (call ∷ calls) = refl

called_among :
    (calls more : List ToolCallDescriptor)
    → ((id : Text) → is_called id calls ≡ true → is_called id more ≡ true)
    → All (λ call. is_called (trim_space call.id) more ≡ true) calls
unfolding is_called
called_among [] more f = record {}
called_among (call ∷ calls) more f = (
  f (trim_space call.id) (rw (str_eq_refl (trim_space call.id)) refl),
  called_among calls more (λ id h. f id (or_right (str_eq (trim_space call.id) id) _ h)),
)

-- A result of no call is not the one of a call.
not_mine :
    (id : Text) (calls : List ToolCallDescriptor) (mine : Text) (filled later : Bool)
    → is_called id calls ≡ true
    → is_called mine calls ≡ false
    → (filled && str_eq mine id) || later ≡ true
    → later ≡ true
not_mine id calls mine filled later c e h = elim (Bool-cases (str_eq mine id)) [
  | inl q ↦ absurd (ground (arith, c, e, ap (λ i. is_called i calls) ((str_eq_iff mine id).0 q)))
  | inr q ↦ ground (arith, h, q)
]

-- A call's result stays in the block when the results of other calls are taken out.
responded-select :
    (id : Text) (calls : List ToolCallDescriptor) (block : List Message)
    → is_called id calls ≡ true
    → is_responded id block ≡ true
    → is_responded id (select (λ r. is_called (trim_space r.tool_call_id) calls) block) ≡ true
unfolding is_responded select
responded-select id calls [] c h = h
responded-select id calls (message ∷ block) c h =
    let mine = trim_space message.tool_call_id in
    let rest = responded-select id calls block c in
    elim (Bool-cases (is_called mine calls)) [
      | inl e ↦ rw e (ground (arith, h, rest))
      | inr e ↦
          rw e (rest (not_mine id calls mine (not (is_empty mine)) (is_responded id block) c e h))
    ]

block-append :
    (block messages : List Message)
    → All (λ message. is_tool message ≡ true) block
    → tool_block messages ≡ []
    → tool_block (block ++ messages) ≡ block
unfolding tool_block
block-append [] messages h e = e
block-append (message ∷ block) messages (t, h) e =
    rw t (ap (λ r. message ∷ r) (block-append block messages h e))

block-All :
    (messages : List Message) → All (λ message. is_tool message ≡ true) (tool_block messages)
unfolding tool_block
block-All [] = record {}
block-All (message ∷ messages) = elim (Bool-cases (is_tool message)) [
  | inl e ↦ rw e (e, block-All messages)
  | inr e ↦ rw e (record {})
]

first_not_tool :
    (message : Message) (messages : List Message)
    → is_tool message ≡ false
    → tool_block (trim_from (length (tool_block messages)) messages) ≡ []
    → tool_block (trim_from 0 (message ∷ messages)) ≡ []
unfolding tool_block trim_from
first_not_tool message messages e behind =
    let block = tool_block messages in
    let calls =
      renumbered 0 (select (λ call. is_responded (trim_space call.id) block) message.tool_calls) in
    let allowed = select (λ result. is_called (trim_space result.tool_call_id) calls) block in
    let rest = trim_from (length block) messages in
    let no_tool : (calls : List ToolCallDescriptor) (more : List Message)
        → tool_block (record message { tool_calls = calls } ∷ more) ≡ [] =
      λ calls more. rw e refl in
    chosen (λ r. tool_block r ≡ []) (not (is_assistant message) || is_nil message.tool_calls)
      (not (is_nil calls)) (says_more message) (message ∷ trim_from 0 messages)
      (record message { tool_calls = calls } ∷ allowed ++ rest)
      (record message { tool_calls = [] } ∷ rest) rest (λ h. no_tool message.tool_calls _)
      (λ h. no_tool calls _) (no_tool [] _) behind

-- Behind a block that was taken there is no tool message.
block-behind :
    (messages : List Message) → tool_block (trim_from (length (tool_block messages)) messages) ≡ []
unfolding tool_block trim_from
block-behind [] = refl
block-behind (message ∷ messages) = elim (Bool-cases (is_tool message)) [
  | inl e ↦ rw e (block-behind messages)
  | inr e ↦ rw e (first_not_tool message messages e (block-behind messages))
]

tool_calls_none : (message : Message) → is_tool message ≡ true → is_calling message ≡ false
unfolding str_eq
tool_calls_none message t =
    let role : trim_space message.role ≡ codes "tool" = (str_eq_iff _ _).0 t in
    ap (λ r. str_eq r (codes "assistant") && not (is_nil message.tool_calls)) role

Paired-append :
    (block messages : List Message)
    → All (λ message. is_tool message ≡ true) block
    → Paired messages
    → Paired (block ++ messages)
unfolding Paired
Paired-append [] messages h p = p
Paired-append (message ∷ block) messages (t, h) p =
    (inl (tool_calls_none message t), Paired-append block messages h p)

not_calling : (a b : Bool) → not a || b ≡ true → a && not b ≡ false
not_calling true true h = refl
not_calling true false h = absurd (ground arith)
not_calling false b h = refl

and_false : (a : Bool) → a && false ≡ false
and_false true = refl
and_false false = refl

-- The message that is kept with some calls, and the results of those.
kept_pair :
    (message : Message) (messages : List Message)
    → (let block = tool_block messages in
        let calls =
          renumbered 0
            (select (λ call. is_responded (trim_space call.id) block) message.tool_calls) in
        let allowed = select (λ result. is_called (trim_space result.tool_call_id) calls) block in
        Answered calls allowed)
unfolding Answered
kept_pair message messages =
    let block = tool_block messages in
    let chosen_calls =
      select (λ call. is_responded (trim_space call.id) block) message.tool_calls in
    let calls = renumbered 0 chosen_calls in
    let Called = λ (call : ToolCallDescriptor). is_called (trim_space call.id) calls ≡ true in
    let Responded = λ (call : ToolCallDescriptor). is_responded (trim_space call.id) block ≡ true in
    (
      renumbered_idem 0 chosen_calls,
      All-map (λ call. Called call × Responded call) _ calls
          (λ call h. responded-select (trim_space call.id) calls block h.0 h.1)
          (All-both Called Responded calls (called_among calls calls (λ id h. h)) (
            renumbered-All (λ id. is_responded (trim_space id) block ≡ true) 0 chosen_calls
              (select-All _ message.tool_calls))),
      select-All _ block,
    )

trim_from-Paired : (k : ℕ) (messages : List Message) → Paired (trim_from k messages)
unfolding Paired trim_from
trim_from-Paired k [] = record {}
trim_from-Paired (suc k) (message ∷ messages) = trim_from-Paired k messages
trim_from-Paired zero (message ∷ messages) =
    let block = tool_block messages in
    let calls =
      renumbered 0 (select (λ call. is_responded (trim_space call.id) block) message.tool_calls) in
    let allowed = select (λ result. is_called (trim_space result.tool_call_id) calls) block in
    let tools : All (λ message. is_tool message ≡ true) allowed =
      All-select (λ m. is_tool m ≡ true) _ block (block-All messages) in
    let rest = trim_from (length block) messages in
    let paired = trim_from-Paired (length block) messages in
    let front = block-append allowed rest tools (block-behind messages) in
    chosen Paired (not (is_assistant message) || is_nil message.tool_calls) (not (is_nil calls))
      (says_more message) (message ∷ trim_from 0 messages)
      (record message { tool_calls = calls } ∷ allowed ++ rest)
      (record message { tool_calls = [] } ∷ rest) rest
      (λ h. (
        inl (not_calling (is_assistant message) (is_nil message.tool_calls) h),
        trim_from-Paired 0 messages,
      ))
      (λ h. (
        inr (subst (Answered calls) (sym front) (kept_pair message messages)),
        Paired-append allowed rest tools paired,
      ))
      (inl (and_false (is_assistant message)), paired) paired

-- In what a provider is sent, each assistant message that calls tools has its calls numbered by their
-- places, each call has its result among the tool messages right behind it, and each of those is the
-- result of one of its calls.
pub normalize_replay_message_sequence-Paired :
    (messages : List Message) → Paired (normalize_replay_message_sequence messages)
unfolding normalize_replay_message_sequence trim_replay_dangling_assistant_tool_calls
normalize_replay_message_sequence-Paired messages = trim_from-Paired 0 _
