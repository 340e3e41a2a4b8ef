-- ===== src/Examples/Endings.antt =====
-- broker.go: a stream that is subscribed to, ended and removed.
use cursor_byok_lite.Prelude.{◌≡◌, refl, true, false, [], none, some, arith}
use cursor_byok_lite.Prelude.Text.{codes, trim_space}
use cursor_byok_lite.Stream.{ActiveStream, completed, failed, is_terminal_stream_status}
use cursor_byok_lite.Backlog.{publish_event}
use cursor_byok_lite.Registry.{get}
use cursor_byok_lite.Registry.Laws.{IsWellFormed}
use cursor_byok_lite.Broker.{subscribe, publish}
use cursor_byok_lite.Lifecycle.{complete, fail, end_event, run_scheduled_terminal_cleanup}
use cursor_byok_lite.Lifecycle.Endings.{
  HasEnded, complete-HasEnded, fail-HasEnded, canceling, end_stream, end_stream-final,
}
use cursor_byok_lite.Lifecycle.Cleanup.{run-subscribe, complete-run}
use cursor_byok_lite.Reachable.{Reachable-IsWellFormed}
use cursor_byok_lite.Examples.Streams.{
  id, delta, opened_stream, one_open, get-one_open, one_open-Reachable,
}

valid : IsWellFormed one_open
valid = Reachable-IsWellFormed one_open-Reachable

unended : is_terminal_stream_status opened_stream.status ≡ false
unended = refl

end_stream-final_example :
    (publish 13 id delta (end_stream 12 id (canceling []) one_open)
      ≡ (end_stream 12 id (canceling []) one_open, none))
    × (complete 13 id [] [] (end_stream 12 id (canceling []) one_open)
        ≡ (end_stream 12 id (canceling []) one_open, none))
end_stream-final_example =
    end_stream-final 12 13 id (canceling []) opened_stream one_open delta [] [] get-one_open refl

complete-HasEnded_example :
    HasEnded id completed
      (publish_event (end_event (trim_space []) (trim_space [])) opened_stream.log)
      (complete 12 id [] [] one_open).0
    × ((complete 12 id [] [] one_open).1 ≡ none)
complete-HasEnded_example =
    complete-HasEnded 12 id [] [] opened_stream one_open get-one_open unended

fail-HasEnded_example :
    HasEnded id failed
      (publish_event
        (end_event (trim_space (codes "internal")) (trim_space (codes "no key")))
        opened_stream.log)
      (fail 12 id (codes "internal") (codes "no key") one_open).0
    × ((fail 12 id (codes "internal") (codes "no key") one_open).1 ≡ none)
fail-HasEnded_example =
    fail-HasEnded 12 id (codes "internal") (codes "no key") opened_stream one_open get-one_open

run-subscribe_example :
    run_scheduled_terminal_cleanup id 0 (subscribe 12 id one_open).0 ≡ (subscribe 12 id one_open).0
run-subscribe_example =
    run-subscribe 12 id 0 opened_stream one_open valid get-one_open (omega arith) (omega arith)

complete-run_example :
    (stream : ActiveStream) × (get id (complete 12 id [] [] one_open).0 ≡ some stream)
    × (stream.terminal_cleanup_timer ≡ true)
    × (get id (
          run_scheduled_terminal_cleanup id stream.terminal_cleanup_seq
            (complete 12 id [] [] one_open).0)
        ≡ none)
complete-run_example =
    complete-run 12 id [] [] opened_stream one_open valid get-one_open unended refl
