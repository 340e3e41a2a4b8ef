-- ===== src/AppendSeq/Queue/Invariant.antt =====
-- append_seq.go: the invariant of the interleavings.
use cursor_byok_lite.Prelude.{
  ℕ, zero, suc, ◌+◌, ◌-◌, ◌<◌, ◌≤◌, ◌≡◌, refl, sym, ap, subst, ◌∙◌, Bool, true, false, ◌⊎◌, inl,
  inr, List, [], ◌∷◌, ◌++◌, arith, All, All-append,
}
use cursor_byok_lite.Prelude.Int.{pos, i64_max, add64, add64-pos}
use cursor_byok_lite.AppendSeq.{
  AppendSequenceState, Attempt, stale, granted, blocked, attempt, release,
}
use cursor_byok_lite.AppendSeq.Queue.{
  Phase, waiting, holding, finished, turned_away, canceled, Client, client, System, tried, Step,
  arrives, tries, wakes, asleep, channel_of, gives_up, releases, Reachable, start, next, held,
  holders, count_up,
}

abbrev pub PhaseOk : ℕ → ℕ → Phase → Type 0
PhaseOk turn n waiting = 0 < n
PhaseOk turn n holding = n ≡ turn
PhaseOk turn n finished = n < turn
PhaseOk turn n turned_away = n < turn
PhaseOk turn n canceled = Unit
PhaseOk turn n (asleep channel) = 0 < n

abbrev pub ClientOk : ℕ → Client → Type 0
ClientOk turn c = PhaseOk turn c.seq c.phase

abbrev pub passed : Bool → ℕ → ℕ
passed true turn = turn
passed false turn = turn - 1

abbrev pub one_if : Bool → ℕ
one_if true = 1
one_if false = 0

pub record Inv (s : System) : Type 0 where
  pub turn : ℕ
  pub next : s.state.next ≡ pos turn
  pub positive : 0 < turn
  pub fits : turn ≤ i64_max
  pub one : holders s.clients ≡ one_if s.state.processing
  pub clients_ok : All (ClientOk turn) s.clients
  pub log : s.admitted ≡ count_up (passed s.state.processing turn)

holders-append : (xs ys : List Client) → holders (xs ++ ys) ≡ holders xs + holders ys
holders-append [] ys = omega arith
holders-append (c ∷ xs) ys = omega (arith, holders-append xs ys)

pub All-split {ℓ κ} :
    {A : Type ℓ} (P : A → Type κ) (xs ys : List A) → All P (xs ++ ys) → All P xs × All P ys
All-split P [] ys h = (tt, h)
All-split P (x ∷ xs) ys (p, h) = let (hx, hy) = All-split P xs ys h in ((p, hx), hy)

-- With no holder the next turn suits every client.
next_turn :
    (turn : ℕ) (cs : List Client)
    → holders cs ≡ 0
    → All (ClientOk turn) cs
    → All (ClientOk (suc turn)) cs
next_turn turn [] free h = tt
next_turn turn (c ∷ cs) free (hc, h) =
    (suits c.phase hc (omega arith), next_turn turn cs (omega arith) h)
  where
    suits : (p : Phase) → PhaseOk turn c.seq p → held p ≡ 0 → PhaseOk (suc turn) c.seq p
    suits waiting ok e = ok
    suits holding ok e = absurd (omega arith)
    suits finished ok e = omega arith
    suits turned_away ok e = omega arith
    suits canceled ok e = tt
    suits (asleep channel) ok e = ok

-- What one round of `acquire` does when the turn is `turn`.
record Turned (turn n : ℕ) (st st' : AppendSequenceState) (result : Attempt) : Type 0 where
  next : st'.next ≡ pos turn
  verdict :
      (result ≡ stale) × (n < turn) × (st'.processing ≡ st.processing)
      ⊎ (result ≡ granted) × (n ≡ turn) × (st.processing ≡ false) × (st'.processing ≡ true)
      ⊎ (result ≡ blocked) × (st'.processing ≡ st.processing)

attempt-Turned :
    (now turn n : ℕ) (st : AppendSequenceState)
    → st.next ≡ pos turn
    → 0 < turn
    → Turned turn n st (attempt now (pos n) st).0 (attempt now (pos n) st).1
unfolding attempt
attempt-Turned now turn n st e p = record { next = ground arith; verdict = ground arith }

module _ (before after : List Client) where
  placed :
      (turn n : ℕ) (p : Phase)
      → All (ClientOk turn) before
      → PhaseOk turn n p
      → All (ClientOk turn) after
      → All (ClientOk turn) (before ++ client n p ∷ after)
  placed turn n p hb hp ha = All-append (ClientOk turn) before (client n p ∷ after) hb (hp, ha)

  holders-placed :
      (n : ℕ) (p : Phase)
      → holders (before ++ client n p ∷ after) ≡ holders before + (held p + holders after)
  holders-placed n p = holders-append before (client n p ∷ after)

count_up-pred : (turn : ℕ) → 0 < turn → count_up (turn - 1) ++ turn ∷ [] ≡ count_up turn
count_up-pred zero h = absurd (omega arith)
count_up-pred (suc k) h =
    ap (λ m. count_up m ++ suc k ∷ []) (let e : suc k - 1 ≡ k = omega arith in e)

-- The clients of a list that holds `client n p`, taken apart.
pub record Apart (s : System) (h : Inv s) (n : ℕ) (p : Phase) (before after : List Client)
    : Type 0 where
  pub ok_before : All (ClientOk h.turn) before
  pub ok_n : PhaseOk h.turn n p
  pub ok_after : All (ClientOk h.turn) after
  pub count : holders before + (held p + holders after) ≡ one_if s.state.processing

pub release-turn :
    (now n : ℕ) (st : AppendSequenceState)
    → 0 < n
    → n < i64_max
    → st.next ≡ pos n
    → st.processing ≡ true
    → ((release now (pos n) st).next ≡ pos (suc n)) × ((release now (pos n) st).processing ≡ false)
unfolding release
release-turn now n st p room e busy =
    let sum : add64 (pos n) (pos 1) ≡ pos (suc n) =
      add64-pos n 1 (omega arith) ∙ ap pos (let q : n + 1 ≡ suc n = omega arith in q) in
    (ground (arith, sum), ground arith)

pub one_if-busy : (b : Bool) (x y : ℕ) → x + (1 + y) ≡ one_if b → (b ≡ true) × (x ≡ 0) × (y ≡ 0)
one_if-busy true x y e = (refl, omega arith, omega arith)
one_if-busy false x y e = absurd (omega arith)

module _ (s : System) (h : Inv s) (n : ℕ) (before after : List Client) where
  pub open_clients :
      (p : Phase) → s.clients ≡ before ++ client n p ∷ after → Apart s h n p before after
  open_clients p e =
      let (ok_before, (ok_n, ok_after)) =
        All-split (ClientOk h.turn) before (client n p ∷ after)
          (subst (All (ClientOk h.turn)) e h.clients_ok) in
      record {
        ok_before = ok_before;
        ok_n = ok_n;
        ok_after = ok_after;
        count = sym (ap holders e ∙ holders-placed before after n p) ∙ h.one;
      }

  tries-Inv :
      (now : ℕ) → s.clients ≡ before ++ client n waiting ∷ after → Inv (tried now n before after s)
  unfolding tried
  tries-Inv now e =
      let tried_state = (attempt now (pos n) s.state).0 in
      let t = attempt-Turned now h.turn n s.state h.next h.positive in
      let a = open_clients waiting e in
      elim t.verdict [
        | inl (r, low, same) ↦ record {
          turn = h.turn;
          next = t.next;
          positive = h.positive;
          fits = h.fits;
          one = rw (r, same) (holders-placed before after n turned_away ∙ a.count);
          clients_ok = rw r (placed before after h.turn n turned_away a.ok_before low a.ok_after);
          log = rw (r, same) h.log;
        }
        | inr (inl (r, turn, free, taken)) ↦ record {
          turn = h.turn;
          next = t.next;
          positive = h.positive;
          fits = h.fits;
          one =
              rw (r, taken)
                (omega (arith, holders-placed before after n holding, a.count, ap one_if free));
          clients_ok = rw r (placed before after h.turn n holding a.ok_before turn a.ok_after);
          log =
              rw (r, taken, turn)
                (ap (λ l. l ++ h.turn ∷ []) (h.log ∙ ap (λ b. count_up (passed b h.turn)) free)
                  ∙ count_up-pred h.turn h.positive);
        }
        | inr (inr (r, same)) ↦ record {
          turn = h.turn;
          next = t.next;
          positive = h.positive;
          fits = h.fits;
          one =
              rw (r, same)
                (holders-placed before after n (asleep (channel_of tried_state.ready)) ∙ a.count);
          clients_ok = rw r (
              placed before after h.turn n (asleep (channel_of tried_state.ready)) a.ok_before
                a.ok_n a.ok_after);
          log = rw (r, same) h.log;
        }
      ]

  wakes-Inv :
      (channel : ℕ)
      → s.clients ≡ before ++ client n (asleep channel) ∷ after
      → Inv (record s { clients = before ++ client n waiting ∷ after })
  wakes-Inv channel e =
      let a = open_clients (asleep channel) e in
      record {
        turn = h.turn;
        next = h.next;
        positive = h.positive;
        fits = h.fits;
        one = holders-placed before after n waiting ∙ a.count;
        clients_ok = placed before after h.turn n waiting a.ok_before a.ok_n a.ok_after;
        log = h.log;
      }

  gives_up-Inv :
      (channel : ℕ)
      → s.clients ≡ before ++ client n (asleep channel) ∷ after
      → Inv (record s { clients = before ++ client n canceled ∷ after })
  gives_up-Inv channel e =
      let a = open_clients (asleep channel) e in
      record {
        turn = h.turn;
        next = h.next;
        positive = h.positive;
        fits = h.fits;
        one = holders-placed before after n canceled ∙ a.count;
        clients_ok = placed before after h.turn n canceled a.ok_before tt a.ok_after;
        log = h.log;
      }

  releases-Inv :
      (now : ℕ)
      → s.clients ≡ before ++ client n holding ∷ after
      → n < i64_max
      → Inv (record s {
        state = release now (pos n) s.state;
        clients = before ++ client n finished ∷ after;
      })
  releases-Inv now e room =
      let a = open_clients holding e in
      let (busy, none_before, none_after) =
        one_if-busy s.state.processing (holders before) (holders after) a.count in
      let at : s.state.next ≡ pos n = h.next ∙ ap pos (sym a.ok_n) in
      let positive : 0 < n = omega (arith, h.positive, a.ok_n) in
      let (next_turned, free) = release-turn now n s.state positive room at busy in
      record {
        turn = suc h.turn;
        next = next_turned ∙ ap (λ k. pos (suc k)) a.ok_n;
        positive = omega arith;
        fits = omega (arith, a.ok_n);
        one =
            rw free
              (omega (arith, holders-placed before after n finished, none_before, none_after));
        clients_ok =
            placed before after (suc h.turn) n finished
              (next_turn h.turn before none_before a.ok_before) (omega (arith, a.ok_n))
              (next_turn h.turn after none_after a.ok_after);
        log = rw free (
            h.log
            ∙ ap (λ b. count_up (passed b h.turn)) busy
            ∙ ap count_up (let q : h.turn ≡ suc h.turn - 1 = omega arith in q));
      }

Step-Inv : {s t : System} → Step s t → Inv s → Inv t
Step-Inv {s} (arrives n p) h = record {
  turn = h.turn;
  next = h.next;
  positive = h.positive;
  fits = h.fits;
  one = omega (arith, h.one);
  clients_ok = (p, h.clients_ok);
  log = h.log;
}
Step-Inv {s} (tries now n before after e) h = tries-Inv s h n before after now e
Step-Inv {s} (wakes n channel before after e closed) h = wakes-Inv s h n before after channel e
Step-Inv {s} (gives_up n channel before after e) h = gives_up-Inv s h n before after channel e
Step-Inv {s} (releases now n before after e room) h = releases-Inv s h n before after now e room

pub Reachable-Inv : {s : System} → Reachable s → Inv s
Reachable-Inv (start now) = record {
  turn = 1;
  next = refl;
  positive = omega arith;
  fits = omega arith;
  one = refl;
  clients_ok = tt;
  log = refl;
}
Reachable-Inv (next r st) = Step-Inv st (Reachable-Inv r)
