-- ===== src/Broker/Subscribed.antt =====
-- broker.go: what `Subscribe` does to a stream that is there.
use cursor_byok_lite.Prelude.{ℕ, ◌+◌, ◌%◌, ◌≡◌, refl, sym, ◌∙◌, false, some, arith, ◌==◌}
use cursor_byok_lite.Prelude.Int.{u64_mod}
use cursor_byok_lite.Prelude.Text.{Text, trim_space}
use cursor_byok_lite.Prelude.Store.{lookup, lookup-insert_self}
use cursor_byok_lite.Stream.{ActiveStream}
use cursor_byok_lite.Registry.{StreamBroker, opened, get, stop_terminal_cleanup_timer}
use cursor_byok_lite.Registry.Laws.{IsWellFormed, get-IsEntry, get-store_self, get-trim_space}
use cursor_byok_lite.Broker.{
  Subscription, subscribed, subscribe, subscribe_stream, find_or_open, attach_subscriber,
}

get-next_id :
    (i : Text) (n : ℕ) (broker : StreamBroker)
    → get i (record broker { next_id = n }) ≡ get i broker
unfolding get
get-next_id i n broker = refl

subscribe-attach :
    (now : ℕ) (i : Text) (stream : ActiveStream) (broker : StreamBroker)
    → IsWellFormed broker
    → get i broker ≡ some stream
    → subscribe now i broker ≡ attach_subscriber now (trim_space i) (broker, opened stream)
unfolding subscribe find_or_open
subscribe-attach now i stream broker h e =
    let entry = get-IsEntry i broker stream h e in
    let key : get (trim_space i) broker ≡ some stream = rw get-trim_space e in rw (entry.named, key)

-- A subscription to a stream of a well-formed registry succeeds: the stream keeps its backlog, gets a
-- new cleanup sequence and no armed cleanup timer, and has the new subscriber, whose cursor is the one
-- that the caller is told.
pub subscribe-found :
    (now : ℕ) (i : Text) (stream : ActiveStream) (broker : StreamBroker)
    → IsWellFormed broker
    → get i broker ≡ some stream
    → (stream' : ActiveStream) × (get i (subscribe now i broker).0 ≡ some stream')
      × (stream'.terminal_cleanup_seq ≡ (stream.terminal_cleanup_seq + 1) % u64_mod)
      × (stream'.terminal_cleanup_timer ≡ false)
      × (stream'.backlog ≡ stream.backlog)
      × ((s : Subscription) × ((subscribe now i broker).1 ≡ subscribed s)
          × (lookup s.subscriber_id stream'.subscribers
              ≡ some (record { signaled = false; cursor = s.start })))
unfolding attach_subscriber subscribe_stream stop_terminal_cleanup_timer
subscribe-found now i stream broker h e =
    let first = (get-IsEntry i broker stream h e).log_valid.numbering.positive in
    let set : (stream.backlog_first_sequence == 0) ≡ false = ground arith in
    rw (subscribe-attach now i stream broker h e, set)
      (
        _,
        get-next_id i _ _ ∙ sym (get-trim_space i _) ∙ get-store_self (trim_space i) _ broker,
        refl,
        refl,
        refl,
        (_, refl, lookup-insert_self _ _ stream.subscribers),
      )
