-- ===== src/AppendSeq/Queue/Order.antt =====
-- append_seq.go: one append at a time, in the order of the numbers.
use cursor_byok_lite.Prelude.{
  ℕ, zero, suc, ◌<◌, ◌≤◌, ◌≡◌, refl, sym, ap, ◌∙◌, Bool, true, false, List, [], ◌∷◌, arith, length,
  length-append, All,
}
use cursor_byok_lite.Prelude.Int.{pos}
use cursor_byok_lite.AppendSeq.{AppendSequenceState, granted, attempt}
use cursor_byok_lite.AppendSeq.Queue.{
  Phase, waiting, holding, finished, turned_away, canceled, asleep, Client, System, Reachable,
  holders, held, count_up,
}
use cursor_byok_lite.AppendSeq.Queue.Invariant.{PhaseOk, ClientOk, passed, one_if, Reachable-Inv}

length-count_up : (n : ℕ) → length (count_up n) ≡ n
length-count_up zero = refl
length-count_up (suc n) = omega (arith, length-append (count_up n) (suc n ∷ []), length-count_up n)

abbrev ServedIn : ℕ → ℕ → Phase → Type 0
ServedIn n seq waiting = Unit
ServedIn n seq holding = seq ≡ n
ServedIn n seq finished = seq ≤ n
ServedIn n seq turned_away = seq ≤ n
ServedIn n seq canceled = Unit
ServedIn n seq (asleep channel) = Unit

-- What a client's phase says, when `n` appends have been admitted.
abbrev pub Served : ℕ → Client → Type 0
Served n c = ServedIn n c.seq c.phase

served :
    (b : Bool) (turn seq : ℕ) (p : Phase)
    → held p ≤ one_if b
    → PhaseOk turn seq p
    → ServedIn (passed b turn) seq p
served b turn seq waiting le ok = tt
served true turn seq holding le ok = ok
served false turn seq holding le ok = absurd (omega arith)
served true turn seq finished le ok = omega arith
served false turn seq finished le ok = omega arith
served true turn seq turned_away le ok = omega arith
served false turn seq turned_away le ok = omega arith
served b turn seq canceled le ok = tt
served b turn seq (asleep channel) le ok = tt

All-Served :
    (b : Bool) (turn : ℕ) (cs : List Client)
    → holders cs ≤ one_if b
    → All (ClientOk turn) cs
    → All (Served (passed b turn)) cs
All-Served b turn [] le h = tt
All-Served b turn (c ∷ cs) le (hc, h) =
    (served b turn c.seq c.phase (omega arith) hc, All-Served b turn cs (omega arith) h)

one_if-le : (b : Bool) → one_if b ≤ 1
one_if-le true = omega arith
one_if-le false = omega arith

-- In every interleaving at most one append is being handled, the numbers admitted so far are
-- 1, 2, 3, … in this order, each once, the append being handled is the one admitted last, and an
-- append that has been turned away as stale has a number that is at most the newest admitted one.
pub Reachable-serial :
    {s : System}
    → Reachable s
    → (holders s.clients ≤ 1)
      × (s.admitted ≡ count_up (length s.admitted))
      × All (Served (length s.admitted)) s.clients
Reachable-serial {s} r =
    let h = Reachable-Inv r in
    let size : length s.admitted ≡ passed s.state.processing h.turn =
      ap length h.log ∙ length-count_up _ in
    (
      omega (arith, h.one, one_if-le s.state.processing),
      h.log ∙ ap count_up (sym size),
      rw size (All-Served s.state.processing h.turn s.clients (omega (arith, h.one)) h.clients_ok),
    )

pub next_granted :
    (now n : ℕ) (st : AppendSequenceState)
    → 0 < n
    → st.next ≡ pos n
    → st.processing ≡ false
    → (attempt now (pos n) st).1 ≡ granted
unfolding attempt
next_granted now n st p e free = ground arith
