-- ===== src/Actor.antt =====
-- internal/backend/forwarder/actor.go: what a stream's actor does next when one of the things that it
-- waits for is there, and the timers of a stream. A timer is known by its token: the Go timer and its
-- goroutine only post an event with the token. The provider's call and the end of a turn are in
-- service.go; here they are the effect that the actor asks for.
pub mod Reconcile
pub mod Timers
use cursor_byok_lite.Prelude.{
  ℕ, ◌+◌, ◌%◌, Bool, true, false, not, ◌||◌, ◌&&◌, List, [], ◌∷◌, ◌++◌, Option, none, some, ◌==◌,
  if◌then◌else◌, is_nil, is_some, on_found,
}
use cursor_byok_lite.Prelude.Int.{u64_mod}
use cursor_byok_lite.Prelude.Text.{Text, codes, is_empty, str_eq, trim_space}
use cursor_byok_lite.Prelude.Store.{lookup, insert, erase}
use cursor_byok_lite.Stream.{
  ActiveStream, TurnPhase, ProviderAction, CompletionDisposition, PendingTurnCompletion, undecided,
  resume_after_external, complete_after_external, is_terminal_stream_status,
}

-- `providerTimerKey`
unfoldable pub provider_timer_key : Text → Text → Text
provider_timer_key kind exec_id =
    if is_empty (trim_space exec_id) then kind else kind ++ (codes ":" ++ trim_space exec_id)

unfoldable pub schedule_stream_timer : ℕ → Text → ActiveStream → ActiveStream
schedule_stream_timer now key stream =
    let token = (stream.next_timer_token + 1) % u64_mod in
    if is_empty (trim_space key) then stream else record stream {
      next_timer_token = token;
      timers = insert (trim_space key) token stream.timers;
      updated_at = now;
    }

unfoldable pub timer_event_matches : Text → ℕ → ActiveStream → Bool
timer_event_matches key token stream =
    if is_empty (trim_space key)
    then false
    else on_found (lookup (trim_space key) stream.timers) false (λ t. t == token)

unfoldable pub clear_stream_timer : ℕ → Text → ActiveStream → ActiveStream
clear_stream_timer now key stream =
    if is_empty (trim_space key)
    then stream
    else if is_some (lookup (trim_space key) stream.timers)
    then record stream { timers = erase (trim_space key) stream.timers; updated_at = now }
    else stream

unfoldable pub clear_all_stream_timers : ℕ → ActiveStream → ActiveStream
clear_all_stream_timers now stream =
    if is_nil stream.timers then stream else record stream { timers = []; updated_at = now }

unfoldable pub set_turn_phase : ℕ → TurnPhase → ActiveStream → ActiveStream
set_turn_phase now phase stream = record stream { phase = phase; updated_at = now }

unfoldable pub should_auto_resume_after_interaction : Text → Bool
should_auto_resume_after_interaction interaction_kind =
    not (str_eq (trim_space interaction_kind) (codes "create_plan"))

-- the loop of `hasPendingAwaitingUserInteraction`
unfoldable pub any_awaiting_user : List (Text × Text) → Bool
any_awaiting_user [] = false
any_awaiting_user ((id, interaction_kind) ∷ rest) =
    not (should_auto_resume_after_interaction interaction_kind) || any_awaiting_user rest

unfoldable pub has_pending_awaiting_user_interaction : ActiveStream → Bool
has_pending_awaiting_user_interaction stream = any_awaiting_user stream.pending_interactions

unfoldable pub clear_pending_provider_completion : ℕ → ActiveStream → ActiveStream
clear_pending_provider_completion now stream = record stream {
  pending_provider_completion = none;
  updated_at = now;
}

-- What `reconcileStream` calls: nothing, `completeSuccessfulTurn`, or `driveProvider`.
pub data Effect : Type 0 where
  waits : Effect
  completes : PendingTurnCompletion → Effect
  drives : Effect

-- the `switch` over the action
unfoldable pub act : ℕ → ProviderAction → ActiveStream → ActiveStream × Effect
act now ProviderAction.start stream = (stream, drives)
act now ProviderAction.resume stream = (
  schedule_stream_timer now (provider_timer_key (codes "provider_resume") [])
      (set_turn_phase now TurnPhase.waiting_external stream),
  waits,
)
act now ProviderAction.idle stream = (set_turn_phase now TurnPhase.idle stream, waits)

abbrev resume_unless_start : ProviderAction → ProviderAction
resume_unless_start ProviderAction.start = ProviderAction.start
resume_unless_start _ = ProviderAction.resume

abbrev resumes_after : CompletionDisposition → Bool
resumes_after resume_after_external = true
resumes_after _ = false

-- from the test of the completion on
unfoldable pub settle_completion :
    ℕ → Option PendingTurnCompletion → ActiveStream → ActiveStream × Effect
settle_completion now none stream = act now stream.pending_provider_action stream
settle_completion now (some completion) stream =
    if resumes_after completion.disposition
    then act now ProviderAction.resume (record stream {
      pending_provider_completion = none;
      pending_provider_action = resume_unless_start stream.pending_provider_action;
      updated_at = now;
    })
    else (clear_pending_provider_completion now stream, completes completion)

-- one step here, while the code acts on a snapshot after it has let go of the lock
unfoldable pub reconcile_stream : ℕ → ActiveStream → ActiveStream × Effect
reconcile_stream now stream =
    if is_terminal_stream_status stream.status
    then (stream, waits)
    else if stream.provider_active
    then (stream, waits)
    else if not (is_nil stream.pending_execs) || not (is_nil stream.pending_interactions)
    then (
      set_turn_phase now
          (if has_pending_awaiting_user_interaction stream
            then TurnPhase.awaiting_user
            else if stream.pending_compaction
            then TurnPhase.compacting
            else TurnPhase.waiting_external)
          stream,
      waits,
    )
    else if stream.pending_compaction
    then (set_turn_phase now TurnPhase.compacting stream, waits)
    else settle_completion now stream.pending_provider_completion stream

abbrev requested : ProviderAction → ProviderAction → ProviderAction
requested ProviderAction.start pending = ProviderAction.start
requested ProviderAction.resume pending = resume_unless_start pending
requested ProviderAction.idle pending = ProviderAction.idle

unfoldable pub request_provider_action : ℕ → ProviderAction → ActiveStream → ActiveStream × Effect
request_provider_action now action stream = reconcile_stream now (record stream {
  pending_provider_action = requested action stream.pending_provider_action;
  updated_at = now;
})

abbrev completes_after : CompletionDisposition → Bool
completes_after complete_after_external = true
completes_after _ = false

unfoldable pub merge_completion_disposition :
    CompletionDisposition → CompletionDisposition → CompletionDisposition
merge_completion_disposition existing incoming =
    if completes_after existing || completes_after incoming
    then complete_after_external
    else if resumes_after existing || resumes_after incoming
    then resume_after_external
    else complete_after_external

unfoldable pub should_resume_after_tool_results : Text → Bool
should_resume_after_tool_results finish_reason =
    let reason = trim_space finish_reason in
    str_eq reason (codes "tool_use")
    || str_eq reason (codes "tool_calls")
    || str_eq reason (codes "function_call")

unfoldable pub completion_disposition_for_external_results :
    Text → Bool → Bool → CompletionDisposition
completion_disposition_for_external_results finish_reason force_complete had_tool_invocation =
    if force_complete
    then complete_after_external
    else if had_tool_invocation || should_resume_after_tool_results finish_reason
    then resume_after_external
    else complete_after_external

unfoldable pub provider_token_matches : ℕ → ActiveStream → Bool
provider_token_matches token stream =
    if token == 0 then false else stream.current_provider_token == token
