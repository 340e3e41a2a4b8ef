-- ===== src/Examples/Actors.antt =====
-- actor.go: a stream whose provider's start was requested, and a timer that is armed again.
use cursor_byok_lite.Prelude.{◌+◌, ◌≡◌, refl, true, false, arith}
use cursor_byok_lite.Prelude.Text.{codes, str_eq, trim_space}
use cursor_byok_lite.Stream.{ActiveStream, ProviderAction}
use cursor_byok_lite.Actor.{schedule_stream_timer, timer_event_matches, reconcile_stream}
use cursor_byok_lite.Actor.Timers.{timer_event_matches-schedule}
use cursor_byok_lite.Actor.Reconcile.{IsDue, reconcile_stream-IsDue}
use cursor_byok_lite.Examples.Streams.{opened_stream}

abbrev started : ActiveStream
started = record opened_stream { pending_provider_action = ProviderAction.start }

reconcile_stream-IsDue_example :
    IsDue started (reconcile_stream 12 started).0 (reconcile_stream 12 started).1
reconcile_stream-IsDue_example = reconcile_stream-IsDue 12 started

abbrev armed : ActiveStream
armed = schedule_stream_timer 12 (codes "k") opened_stream

timer_event_matches-schedule_example :
    (timer_event_matches (codes "k") 1 (schedule_stream_timer 13 (codes "k") armed) ≡ false)
    × (timer_event_matches
          (codes "k")
          (armed.next_timer_token + 1)
          (schedule_stream_timer 13 (codes "k") armed)
        ≡ true)
    × (timer_event_matches (codes "orphan_cancel") 1 (schedule_stream_timer 13 (codes "k") armed)
        ≡ timer_event_matches (codes "orphan_cancel") 1 armed)
unfolding schedule_stream_timer trim_space str_eq
timer_event_matches-schedule_example =
    timer_event_matches-schedule 13 (codes "k") (codes "orphan_cancel") 1 1 armed refl refl
      (omega arith) (omega arith)
