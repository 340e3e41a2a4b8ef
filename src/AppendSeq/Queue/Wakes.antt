-- ===== src/AppendSeq/Queue/Wakes.antt =====
-- append_seq.go: no wake-up of an append that sleeps is lost.
use cursor_byok_lite.Prelude.{
  ℕ, suc, ◌<◌, ◌≡◌, refl, sym, ap, subst, ◌∙◌, Bool, true, ◌⊎◌, inl, inr, List, [], ◌∷◌, ◌++◌,
  Option, none, some, arith, All, All-append, Bool-cases, some-eq,
}
use cursor_byok_lite.Prelude.Int.{pos}
use cursor_byok_lite.AppendSeq.{
  AppendSequenceState, stale, granted, blocked, attempt, release, or_made, reopened,
}
use cursor_byok_lite.AppendSeq.Queue.{
  Phase, waiting, holding, finished, turned_away, canceled, asleep, Client, client, System, tried,
  Step, arrives, tries, wakes, gives_up, releases, Reachable, start, next, holders, IsClosed,
  channel_of,
}
use cursor_byok_lite.AppendSeq.Queue.Invariant.{
  Inv, Reachable-Inv, All-split, open_clients, one_if, one_if-busy, release-turn,
}
use cursor_byok_lite.AppendSeq.Queue.Order.{next_granted}

-- An append sleeps on a closed channel, or on the current one while an append is being handled or
-- while its own turn is still to come.
abbrev SleepIn : Bool → ℕ → ℕ → ℕ → Phase → Type 0
SleepIn busy turn ready seq (asleep channel) =
    (channel < ready) ⊎ ((channel ≡ ready) × ((busy ≡ true) ⊎ (turn < seq)))
SleepIn busy turn ready seq _ = Unit

abbrev SleepOk : Bool → ℕ → ℕ → Client → Type 0
SleepOk busy turn ready c = SleepIn busy turn ready c.seq c.phase

record Sleepers (s : System) : Type 0 where
  turn : ℕ
  ready : ℕ
  at : s.state.next ≡ pos turn
  current : s.state.ready ≡ some ready
  sleep : All (SleepOk s.state.processing turn ready) s.clients

-- While an append is being handled all may sleep on.
keep_asleep :
    (busy : Bool) (turn ready : ℕ) (cs : List Client)
    → All (SleepOk busy turn ready) cs
    → All (SleepOk true turn ready) cs
keep_asleep busy turn ready [] h = tt
keep_asleep busy turn ready (c ∷ cs) (hc, h) = (still c.phase hc, keep_asleep busy turn ready cs h)
  where
    still : (p : Phase) → SleepIn busy turn ready c.seq p → SleepIn true turn ready c.seq p
    still waiting ok = tt
    still holding ok = tt
    still finished ok = tt
    still turned_away ok = tt
    still canceled ok = tt
    still (asleep channel) (inl closed) = inl closed
    still (asleep channel) (inr (same, why)) = inr (same, inl refl)

-- A new channel closes all channels before it.
wake_sleepers :
    (busy free : Bool) (turn later ready : ℕ) (cs : List Client)
    → All (SleepOk busy turn ready) cs
    → All (SleepOk free later (suc ready)) cs
wake_sleepers busy free turn later ready [] h = tt
wake_sleepers busy free turn later ready (c ∷ cs) (hc, h) =
    (woken c.phase hc, wake_sleepers busy free turn later ready cs h)
  where
    woken : (p : Phase) → SleepIn busy turn ready c.seq p → SleepIn free later (suc ready) c.seq p
    woken waiting ok = tt
    woken holding ok = tt
    woken finished ok = tt
    woken turned_away ok = tt
    woken canceled ok = tt
    woken (asleep channel) (inl closed) = inl (omega arith)
    woken (asleep channel) (inr (same, why)) = inl (omega arith)

placed :
    (busy : Bool) (turn ready : ℕ) {cs : List Client} (before after : List Client) (n : ℕ)
    (p q : Phase)
    → cs ≡ before ++ client n p ∷ after
    → All (SleepOk busy turn ready) cs
    → SleepIn busy turn ready n q
    → All (SleepOk busy turn ready) (before ++ client n q ∷ after)
placed busy turn ready before after n p q e h new =
    let (ok_before, (_, ok_after)) =
      All-split (SleepOk busy turn ready) before (client n p ∷ after)
        (subst (All (SleepOk busy turn ready)) e h) in
    All-append (SleepOk busy turn ready) before (client n q ∷ after) ok_before (new, ok_after)

or_made-some : (o : Option ℕ) (n : ℕ) → o ≡ some n → or_made o ≡ some n
or_made-some none n e = absurd (ground (arith, e))
or_made-some (some m) n e = e

reopened-some : (o : Option ℕ) (n : ℕ) → o ≡ some n → reopened o ≡ some (suc n)
reopened-some none n e = absurd (ground (arith, e))
reopened-some (some m) n e = ap (λ k. some (suc k)) (some-eq e)

-- What a round leaves: the turn, the channel, and a client that sleeps only with a reason.
attempt_lem :
    (now turn ready n : ℕ) (st : AppendSequenceState)
    → st.next ≡ pos turn
    → 0 < turn
    → st.ready ≡ some ready
    → (let (after, result) = attempt now (pos n) st in
        (after.next ≡ pos turn)
        × (after.ready ≡ some ready)
        × ((result ≡ stale) × (after.processing ≡ st.processing)
            ⊎ (result ≡ granted) × (after.processing ≡ true)
            ⊎ (result ≡ blocked)
              × (after.processing ≡ st.processing)
              × ((st.processing ≡ true) ⊎ (turn < n))))
unfolding attempt
attempt_lem now turn ready n st e p r =
    (ground arith, ground (arith, or_made-some st.ready ready r), ground arith)

release-ready :
    (now n ready : ℕ) (st : AppendSequenceState)
    → 0 < n
    → st.processing ≡ true
    → st.next ≡ pos n
    → st.ready ≡ some ready
    → (release now (pos n) st).ready ≡ some (suc ready)
unfolding release
release-ready now n ready st p busy at e = ground (arith, reopened-some st.ready ready e)

Step-Sleepers : {s t : System} → Step s t → Inv s → Sleepers s → Sleepers t
unfolding tried
Step-Sleepers (arrives n p) inv h = record {
  turn = h.turn;
  ready = h.ready;
  at = h.at;
  current = h.current;
  sleep = (tt, h.sleep);
}
Step-Sleepers {s} (tries now n before after e) inv h =
    let positive : 0 < h.turn = ground (arith, inv.positive, inv.next, h.at) in
    let (at, current, verdict) = attempt_lem now h.turn h.ready n s.state h.at positive h.current in
    record {
      turn = h.turn;
      ready = h.ready;
      at = at;
      current = current;
      sleep = elim verdict [
        | inl (r, same) ↦
            rw (r, same)
              (placed s.state.processing h.turn h.ready before after n waiting turned_away e h.sleep
                tt)
        | inr (inl (r, taken)) ↦
            rw (r, taken)
              (placed true h.turn h.ready before after n waiting holding e
                (keep_asleep s.state.processing h.turn h.ready s.clients h.sleep) tt)
        | inr (inr (r, same, why)) ↦
            rw (r, same)
              (placed s.state.processing h.turn h.ready before after n waiting
                (asleep (channel_of (attempt now (pos n) s.state).0.ready)) e h.sleep
                (inr (ap channel_of current, why)))
      ];
    }
Step-Sleepers {s} (wakes n channel before after e closed) inv h = record {
  turn = h.turn;
  ready = h.ready;
  at = h.at;
  current = h.current;
  sleep =
      placed s.state.processing h.turn h.ready before after n (asleep channel) waiting e h.sleep tt;
}
Step-Sleepers {s} (gives_up n channel before after e) inv h = record {
  turn = h.turn;
  ready = h.ready;
  at = h.at;
  current = h.current;
  sleep =
      placed s.state.processing h.turn h.ready before after n (asleep channel) canceled e h.sleep
        tt;
}
Step-Sleepers {s} (releases now n before after e room) inv h =
    let a = open_clients s inv n before after holding e in
    let (busy, _, _) = one_if-busy s.state.processing (holders before) (holders after) a.count in
    let at : s.state.next ≡ pos n = inv.next ∙ ap pos (sym a.ok_n) in
    let positive : 0 < n = omega (arith, inv.positive, a.ok_n) in
    let (turned, free) = release-turn now n s.state positive room at busy in
    record {
      turn = suc n;
      ready = suc h.ready;
      at = turned;
      current = release-ready now n h.ready s.state positive busy at h.current;
      sleep =
          placed (release now (pos n) s.state).processing (suc n) (suc h.ready) before after n
            holding finished e
            (wake_sleepers s.state.processing (release now (pos n) s.state).processing h.turn
              (suc n) h.ready s.clients h.sleep)
            tt;
    }

Reachable-Sleepers : {s : System} → Reachable s → Sleepers s
Reachable-Sleepers (start now) = record {
  turn = 1;
  ready = 0;
  at = refl;
  current = refl;
  sleep = tt;
}
Reachable-Sleepers (next r st) = Step-Sleepers st (Reachable-Inv r) (Reachable-Sleepers r)

-- In every interleaving of the clients of one state, when an append sleeps whose number is the one
-- that comes next, then either exactly one append is being handled, or none is, the channel that this
-- one sleeps on has been closed, which wakes it, and it is admitted if it tries then.
pub Reachable-wakes :
    {s : System} (later n channel : ℕ) (before after : List Client)
    → Reachable s
    → s.clients ≡ before ++ client n (asleep channel) ∷ after
    → s.state.next ≡ pos n
    → (holders s.clients ≡ 1)
      ⊎ ((holders s.clients ≡ 0)
          × IsClosed channel s.state
          × ((attempt later (pos n) s.state).1 ≡ granted))
Reachable-wakes {s} later n channel before after r e at =
    let inv = Reachable-Inv r in
    let h = Reachable-Sleepers r in
    let (_, (mine, _)) =
      All-split (SleepOk s.state.processing h.turn h.ready) before
        (client n (asleep channel) ∷ after)
        (subst (All (SleepOk s.state.processing h.turn h.ready)) e h.sleep) in
    let positive : 0 < n = ground (arith, inv.positive, inv.next, at) in
    elim (Bool-cases s.state.processing) [
      | inl busy ↦ inl (inv.one ∙ ap one_if busy)
      | inr free ↦
          let closed : channel < h.ready = ground (arith, mine, free, h.at, at) in
          inr (
            inv.one ∙ ap one_if free,
            (h.ready, h.current, closed),
            next_granted later n s.state positive at free,
          )
    ]
