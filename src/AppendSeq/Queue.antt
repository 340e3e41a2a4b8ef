-- ===== src/AppendSeq/Queue.antt =====
-- append_seq.go: the clients of one state, with every interleaving of their calls.
pub mod Invariant
pub mod Order
pub mod Wakes
use cursor_byok_lite.Prelude.{
  ℕ, zero, suc, ◌+◌, ◌<◌, ◌≡◌, Bool, true, false, List, [], ◌∷◌, ◌++◌, Option, none, some,
}
use cursor_byok_lite.Prelude.Int.{ℤ, pos, i64_max}
use cursor_byok_lite.AppendSeq.{
  AppendSequenceState, Attempt, stale, granted, blocked, attempt, release,
}

-- `waiting`: before a round of `acquire`. `asleep`: in the `select` behind it, on the channel that
-- `ready` was then. `turned_away`: its number was stale.
pub data Phase : Type 0 where
  waiting holding finished turned_away canceled : Phase
  asleep : ℕ → Phase

pub record Client : Type 0 where
  pub seq : ℕ
  pub phase : Phase

-- `admitted` is the history of the grants.
pub record System : Type 0 where
  pub state : AppendSequenceState
  pub clients : List Client
  pub admitted : List ℕ

abbrev pub client : ℕ → Phase → Client
client n p = record { seq = n; phase = p }

-- the channel that a round has found or made
abbrev pub channel_of : Option ℕ → ℕ
channel_of none = 0
channel_of (some channel) = channel

abbrev pub after_attempt : AppendSequenceState → Attempt → Phase
after_attempt state stale = turned_away
after_attempt state granted = holding
after_attempt state blocked = asleep (channel_of state.ready)

-- A channel is closed when `ready` is a later one.
abbrev pub IsClosed : ℕ → AppendSequenceState → Type 0
IsClosed channel state = (ready : ℕ) × (state.ready ≡ some ready) × (channel < ready)

abbrev pub admit : Attempt → ℕ → List ℕ → List ℕ
admit granted n log = log ++ n ∷ []
admit _ n log = log

unfoldable pub tried : ℕ → ℕ → List Client → List Client → System → System
tried now n before after s =
    let (state, result) = attempt now (pos n) s.state in
    record {
      state = state;
      clients = before ++ client n (after_attempt state result) ∷ after;
      admitted = admit result n s.admitted;
    }

pub data Step (s : System) : System → Type 0 where
  arrives : (n : ℕ) → 0 < n → Step s (record s { clients = client n waiting ∷ s.clients })
  tries :
      (now n : ℕ) (before after : List Client)
      → s.clients ≡ before ++ client n waiting ∷ after
      → Step s (tried now n before after s)
  wakes :
      (n channel : ℕ) (before after : List Client)
      → s.clients ≡ before ++ client n (asleep channel) ∷ after
      → IsClosed channel s.state
      → Step s (record s { clients = before ++ client n waiting ∷ after })
  gives_up :
      (n channel : ℕ) (before after : List Client)
      → s.clients ≡ before ++ client n (asleep channel) ∷ after
      → Step s (record s { clients = before ++ client n canceled ∷ after })
  releases :
      (now n : ℕ) (before after : List Client)
      → s.clients ≡ before ++ client n holding ∷ after
      → n < i64_max
      → Step s (record s {
        state = release now (pos n) s.state;
        clients = before ++ client n finished ∷ after;
      })

-- the system of a state that `state` has just made
abbrev pub first_state : ℕ → System
first_state now = record {
  state = record { next = pos 1; processing = false; ready = some 0; updated_at = now };
  clients = [];
  admitted = [];
}

pub data Reachable : System → Type 0 where
  start : (now : ℕ) → Reachable (first_state now)
  next : {s t : System} → Reachable s → Step s t → Reachable t

abbrev pub held : Phase → ℕ
held holding = 1
held _ = 0

abbrev pub holders : List Client → ℕ
holders [] = 0
holders (c ∷ cs) = held c.phase + holders cs

-- 1, 2, …, n
abbrev pub count_up : ℕ → List ℕ
count_up zero = []
count_up (suc n) = count_up n ++ suc n ∷ []
