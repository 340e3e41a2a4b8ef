-- ===== src/Actor/Reconcile.antt =====
-- actor.go: when the provider is called, and when a turn ends.
use cursor_byok_lite.Prelude.{
  ℕ, ◌≡◌, refl, true, false, not, ◌||◌, inl, inr, Option, none, some, arith, is_nil, Bool-cases,
}
use cursor_byok_lite.Stream.{
  ActiveStream, ProviderAction, PendingTurnCompletion, is_terminal_stream_status,
}
use cursor_byok_lite.Actor.{
  Effect, waits, completes, drives, act, settle_completion, reconcile_stream, resumes_after,
  clear_pending_provider_completion,
}

-- Nothing is running or awaited.
pub record IsQuiet (stream : ActiveStream) : Type 0 where
  pub unended : is_terminal_stream_status stream.status ≡ false
  pub no_provider : stream.provider_active ≡ false
  pub no_execs : is_nil stream.pending_execs ≡ true
  pub no_interactions : is_nil stream.pending_interactions ≡ true
  pub no_compaction : stream.pending_compaction ≡ false

abbrev pub IsDue : ActiveStream → ActiveStream → Effect → Type 0
IsDue stream after waits = Unit
IsDue stream after drives =
    IsQuiet stream
    × (stream.pending_provider_completion ≡ none)
    × (stream.pending_provider_action ≡ ProviderAction.start)
IsDue stream after (completes completion) =
    IsQuiet stream
    × (stream.pending_provider_completion ≡ some completion)
    × (resumes_after completion.disposition ≡ false)
    × (after.pending_provider_completion ≡ none)

act-IsDue :
    (now : ℕ) (action : ProviderAction) (stream : ActiveStream)
    → IsQuiet stream
    → stream.pending_provider_completion ≡ none
    → stream.pending_provider_action ≡ action
    → IsDue stream (act now action stream).0 (act now action stream).1
unfolding act
act-IsDue now ProviderAction.idle stream q c a = tt
act-IsDue now ProviderAction.resume stream q c a = tt
act-IsDue now ProviderAction.start stream q c a = (q, c, a)

settle_completion-IsDue :
    (now : ℕ) (o : Option PendingTurnCompletion) (stream : ActiveStream)
    → IsQuiet stream
    → stream.pending_provider_completion ≡ o
    → IsDue stream (settle_completion now o stream).0 (settle_completion now o stream).1
unfolding settle_completion act clear_pending_provider_completion
settle_completion-IsDue now none stream q c =
    act-IsDue now stream.pending_provider_action stream q c refl
settle_completion-IsDue now (some completion) stream q c =
    elim (Bool-cases (resumes_after completion.disposition)) [
      | inl r ↦ rw r tt
      | inr r ↦ rw r (q, c, r, refl)
    ]

-- `reconcileStream` calls the provider, or ends a turn as a success, only for a stream that has not
-- ended, while no call of the provider, tool, interaction or compaction is pending: the provider if a start was
-- requested and no completion is pending, the end for the completion that is pending, which is then
-- not pending any more.
pub reconcile_stream-IsDue :
    (now : ℕ) (stream : ActiveStream)
    → IsDue stream (reconcile_stream now stream).0 (reconcile_stream now stream).1
unfolding reconcile_stream
reconcile_stream-IsDue now stream = elim (Bool-cases (is_terminal_stream_status stream.status)) [
  | inl t ↦ rw t tt
  | inr t ↦ elim (Bool-cases stream.provider_active) [
    | inl p ↦ simp (t, p) tt
    | inr p ↦
        elim (Bool-cases
          (not (is_nil stream.pending_execs) || not (is_nil stream.pending_interactions))) [
            | inl w ↦ simp (t, p, w) tt
            | inr w ↦ elim (Bool-cases stream.pending_compaction) [
              | inl c ↦ simp (t, p, w, c) tt
              | inr c ↦
                  let quiet : IsQuiet stream = record {
                    unended = t;
                    no_provider = p;
                    no_execs = ground arith;
                    no_interactions = ground arith;
                    no_compaction = c;
                  } in
                  simp (t, p, w, c)
                    (settle_completion-IsDue now stream.pending_provider_completion stream quiet
                      refl)
            ]
          ]
  ]
]
