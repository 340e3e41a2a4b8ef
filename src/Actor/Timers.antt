-- ===== src/Actor/Timers.antt =====
-- actor.go: which event of a timer counts.
use cursor_byok_lite.Prelude.{ℕ, ◌+◌, ◌%◌, ◌≤◌, ◌<◌, ◌≡◌, true, false, arith, ◌==◌}
use native.Mathlib.Nat.{mod-eq_of_lt}
use cursor_byok_lite.Prelude.Int.{u64_mod}
use cursor_byok_lite.Prelude.Text.{Text, is_empty, str_eq, trim_space}
use cursor_byok_lite.Prelude.Store.{lookup-insert, lookup-insert_self}
use cursor_byok_lite.Stream.{ActiveStream}
use cursor_byok_lite.Actor.{schedule_stream_timer, timer_event_matches}

-- When a timer with a key that is not blank is armed again, an event of an earlier arming no
-- longer counts, an event of the new one does, and the timer of another key is as it was. Tokens
-- have not wrapped around.
pub timer_event_matches-schedule :
    (now : ℕ) (key other : Text) (token t : ℕ) (stream : ActiveStream)
    → is_empty (trim_space key) ≡ false
    → str_eq (trim_space key) (trim_space other) ≡ false
    → token ≤ stream.next_timer_token
    → stream.next_timer_token + 1 < u64_mod
    → (timer_event_matches key token (schedule_stream_timer now key stream) ≡ false)
      × (timer_event_matches key
            (stream.next_timer_token + 1)
            (schedule_stream_timer now key stream)
          ≡ true)
      × (timer_event_matches other t (schedule_stream_timer now key stream)
          ≡ timer_event_matches other t stream)
unfolding timer_event_matches schedule_stream_timer
timer_event_matches-schedule now key other token t stream named apart old room =
    let next = (stream.next_timer_token + 1) % u64_mod in
    let found = lookup-insert_self (trim_space key) next stream.timers in
    let elsewhere = lookup-insert (trim_space key) (trim_space other) next stream.timers in
    let size = mod-eq_of_lt room in
    let stale : (next == token) ≡ false = ground arith in
    let live : (next == stream.next_timer_token + 1) ≡ true = ground arith in
    (rw (named, found, stale), rw (named, found, live), rw (named, elsewhere, apart))
