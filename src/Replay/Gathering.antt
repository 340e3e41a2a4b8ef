-- ===== src/Replay/Gathering.antt =====
-- Batches of calls that are put together call no tool that was not called before.
use cursor_byok_lite.Prelude.{
  ℕ, zero, suc, ◌+◌, ◌≡◌, refl, sym, subst, true, false, not, ◌&&◌, ◌||◌, List, [], ◌∷◌, ◌++◌, some,
  ◌⊎◌, inl, inr, arith, length, ◌==◌, All, All-append, Bool-cases, Option-cases, some-eq,
}
use cursor_byok_lite.Prelude.Text.{Text, str_eq, is_empty, trim_space}
use cursor_byok_lite.ToolCallId.{ToolCallDescriptor}
use cursor_byok_lite.Replay.{
  Message, is_assistant, is_tool, renumbered, can_merge_replay_assistant_tool_calls, merged,
  merge_replay_reasoning_metadata, merge_replay_reasoning, merge_replay_reasoning_signature,
}
use cursor_byok_lite.Replay.Batches.{
  Results, Gathered, gather, put_result, find_result, in_call_order, uncalled, is_called,
  coalesce_from, replay_assistant_tool_group_id, replay_tool_call_group_id,
}
use cursor_byok_lite.Replay.Sequence.{is_suppressed}

abbrev pub NoneSuppressed : List ToolCallDescriptor → Type 0
NoneSuppressed calls = All (λ call. is_suppressed call ≡ false) calls

-- A message that calls no suppressed tool.
abbrev pub Unsuppressed : Message → Type 0
Unsuppressed message = (is_assistant message ≡ false) ⊎ NoneSuppressed message.tool_calls

pub renumbered-NoneSuppressed :
    (n : ℕ) (calls : List ToolCallDescriptor)
    → NoneSuppressed calls
    → NoneSuppressed (renumbered n calls)
unfolding renumbered
renumbered-NoneSuppressed n [] h = h
renumbered-NoneSuppressed n (call ∷ calls) (q, h) = (q, renumbered-NoneSuppressed (suc n) calls h)

-- Merging the reasoning keeps the role and the calls.
pub metadata_keeps :
    (last current : Message)
    → (let message = merge_replay_reasoning_metadata last current in
        (message.role ≡ last.role) × (message.tool_calls ≡ last.tool_calls))
unfolding merge_replay_reasoning_metadata
metadata_keeps last current =
    let left = trim_space last.reasoning_signature in
    let right = trim_space current.reasoning_signature in
    elim (Bool-cases (is_empty (merge_replay_reasoning_signature left right))) [
      | inl e ↦ rw e (refl, refl)
      | inr e ↦ elim (Bool-cases (is_empty left && not (is_empty right))) [
        | inl f ↦ rw (e, f) (refl, refl)
        | inr f ↦ elim (Bool-cases (str_eq left right)) [
          | inl g ↦ rw (e, f, g) (refl, refl)
          | inr g ↦ rw (e, f, g) (refl, refl)
        ]
      ]
    ]

merged-Unsuppressed :
    (last current : Message)
    → can_merge_replay_assistant_tool_calls last current ≡ true
    → Unsuppressed last
    → Unsuppressed current
    → Unsuppressed (merged last current)
unfolding merged can_merge_replay_assistant_tool_calls
merged-Unsuppressed last current e p q =
    let calls = last.tool_calls ++ renumbered (length last.tool_calls) current.tool_calls in
    let joined = record last {
      tool_calls = calls;
      reasoning_content = merge_replay_reasoning last.reasoning_content current.reasoning_content;
    } in
    let (role, same) = metadata_keeps joined current in
    elim p [
      | inl no_call ↦ inl (rw role no_call)
      | inr h ↦ elim q [
        | inl no_call ↦ absurd (ground (arith, e, no_call))
        | inr k ↦ inr (
            subst NoneSuppressed (sym same) (
              All-append _ last.tool_calls _ h
                (renumbered-NoneSuppressed (length last.tool_calls) current.tool_calls k)))
      ]
    ]

put_result-All :
    (id : Text) (message : Message) (results : Results)
    → Unsuppressed message
    → All (λ r. Unsuppressed r.1) results
    → All (λ r. Unsuppressed r.1) (put_result id message results)
unfolding put_result
put_result-All id message [] p h = (p, h)
put_result-All id message (result ∷ results) p (q, h) = elim (Bool-cases (str_eq result.0 id)) [
  | inl e ↦ rw e (p, h)
  | inr e ↦ rw e (q, put_result-All id message results p h)
]

GatheredUnsuppressed : Gathered → Type 0
GatheredUnsuppressed found = Unsuppressed found.batch × All (λ r. Unsuppressed r.1) found.results

gather-Unsuppressed :
    (group : Text) (batch : Message) (results : Results) (count : ℕ) (messages : List Message)
    → Unsuppressed batch
    → All (λ r. Unsuppressed r.1) results
    → All Unsuppressed messages
    → GatheredUnsuppressed (gather group batch results count messages)
unfolding gather GatheredUnsuppressed
gather-Unsuppressed group batch results count [] p h k = (p, h)
gather-Unsuppressed group batch results count (following ∷ messages) p h (q, k) =
    let id = trim_space following.tool_call_id in
    elim (Bool-cases
      (is_tool following && str_eq (replay_tool_call_group_id following.tool_call_id) group)) [
        | inl e ↦ rw e (
            gather-Unsuppressed group batch (put_result id following results) (count + 1) messages p
              (put_result-All id following results q h) k)
        | inr e ↦
            elim (Bool-cases (
              str_eq (replay_assistant_tool_group_id following) group
              && can_merge_replay_assistant_tool_calls batch following)) [
                | inl f ↦
                    rw (e, f)
                      (gather-Unsuppressed group (merged batch following) results (count + 1)
                        messages (merged-Unsuppressed batch following (ground (arith, f)) p q) h k)
                | inr f ↦ rw (e, f) (p, h)
              ]
      ]

find_result-Unsuppressed :
    (id : Text) (results : Results) (message : Message)
    → All (λ r. Unsuppressed r.1) results
    → find_result id results ≡ some message
    → Unsuppressed message
unfolding find_result
find_result-Unsuppressed id [] message h e = absurd (ground arith)
find_result-Unsuppressed id (result ∷ results) message (q, h) e =
    elim (Bool-cases (str_eq result.0 id)) [
      | inl f ↦
          let same : result.1 ≡ message = some-eq (ground (arith, e, f)) in
          subst Unsuppressed same q
      | inr f ↦ find_result-Unsuppressed id results message h (ground (arith, e, f))
    ]

in_call_order-Unsuppressed :
    (results : Results) (calls : List ToolCallDescriptor)
    → All (λ r. Unsuppressed r.1) results
    → All Unsuppressed (in_call_order results calls)
unfolding in_call_order
in_call_order-Unsuppressed results [] h = record {}
in_call_order-Unsuppressed results (call ∷ calls) h =
    let rest = in_call_order-Unsuppressed results calls h in
    let id = trim_space call.id in
    elim (Option-cases (find_result id results)) [
      | inl e ↦ rw e rest
      | inr (message, e) ↦ rw e (find_result-Unsuppressed id results message h e, rest)
    ]

uncalled-Unsuppressed :
    (results : Results) (calls : List ToolCallDescriptor)
    → All (λ r. Unsuppressed r.1) results
    → All Unsuppressed (uncalled results calls)
unfolding uncalled
uncalled-Unsuppressed [] calls h = record {}
uncalled-Unsuppressed (result ∷ results) calls (q, h) =
    elim (Bool-cases (is_called result.0 calls)) [
      | inl e ↦ rw e (uncalled-Unsuppressed results calls h)
      | inr e ↦ rw e (q, uncalled-Unsuppressed results calls h)
    ]

pub coalesce_from-Unsuppressed :
    (k : ℕ) (messages : List Message)
    → All Unsuppressed messages
    → All Unsuppressed (coalesce_from k messages)
unfolding coalesce_from GatheredUnsuppressed
coalesce_from-Unsuppressed k [] h = record {}
coalesce_from-Unsuppressed (suc k) (message ∷ messages) (p, h) =
    coalesce_from-Unsuppressed k messages h
coalesce_from-Unsuppressed zero (message ∷ messages) (p, h) =
    let group = replay_assistant_tool_group_id message in
    let found = gather group message [] 0 messages in
    let calls = found.batch.tool_calls in
    let (batch, results) = gather-Unsuppressed group message [] 0 messages p (record {}) h in
    let rest = coalesce_from-Unsuppressed found.count messages h in
    elim (Bool-cases (is_empty group || found.count == 0)) [
      | inl e ↦ rw e (p, coalesce_from-Unsuppressed 0 messages h)
      | inr e ↦ rw e (
        batch,
        All-append _ (in_call_order found.results calls ++ uncalled found.results calls) _
            (All-append _ (in_call_order found.results calls) _
              (in_call_order-Unsuppressed found.results calls results)
              (uncalled-Unsuppressed found.results calls results))
            rest,
      )
    ]
