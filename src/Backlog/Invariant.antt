-- ===== src/Backlog/Invariant.antt =====
-- broker.go: the invariant of a stream's event log, kept by compaction and by every publication.
use cursor_byok_lite.Prelude.{
  ℕ, zero, suc, ◌+◌, ◌-◌, ◌%◌, ◌<◌, ◌≤◌, ◌≡◌, refl, ap, subst, ◌∙◌, true, inl, inr, List, [], ◌∷◌,
  ◌++◌, Option, none, some, arith, ltb, length, drop, length-append, length-drop, Bool-cases,
}
use native.Mathlib.Nat.{mod-eq_of_lt}
use cursor_byok_lite.Prelude.Int.{u64_mod}
use cursor_byok_lite.Stream.{EventLog, StreamEvent, StreamSubscriber}
use cursor_byok_lite.Prelude.Text.{Text}
use cursor_byok_lite.Backlog.{
  stream_backlog_max_events, is_checkpoint_stream_event, consumed, keep_from, compact_backlog,
  blank, tombstone, tombstone_latest_checkpoint, set_next, set_first, append_event, publish_event,
}

-- The events carry the numbers from `n` on, with no gap.
abbrev pub Numbered : ℕ → List StreamEvent → Type 0
Numbered n [] = Unit
Numbered n (e ∷ es) = (e.sequence ≡ n) × Numbered (suc n) es

-- The remembered checkpoint is one, and has been published.
abbrev pub CheckpointBelow : ℕ → Option StreamEvent → Type 0
CheckpointBelow n none = Unit
CheckpointBelow n (some e) =
    (0 < e.sequence) × (e.sequence < n) × (is_checkpoint_stream_event e ≡ true)

pub record IsLog (l : EventLog) : Type 0 where
  pub numbered : Numbered l.backlog_first_sequence l.backlog
  pub next : l.next_backlog_sequence ≡ l.backlog_first_sequence + length l.backlog
  pub positive : 0 < l.backlog_first_sequence
  pub word : l.next_backlog_sequence < u64_mod
  pub checkpoint : CheckpointBelow l.next_backlog_sequence l.latest_checkpoint

pub record IsValid (l : EventLog) : Type 0 where
  pub numbering : IsLog l
  pub bounded : length l.backlog ≤ stream_backlog_max_events

Numbered-at : (n m : ℕ) (es : List StreamEvent) → n ≡ m → Numbered n es → Numbered m es
Numbered-at n m es e h = subst (λ k. Numbered k es) e h

pub Numbered-drop : (k n : ℕ) (es : List StreamEvent) → Numbered n es → Numbered (n + k) (drop k es)
Numbered-drop zero n es h = Numbered-at n (n + 0) es (omega arith) h
Numbered-drop (suc k) n [] h = tt
Numbered-drop (suc k) n (e ∷ es) (he, h) =
    Numbered-at (suc n + k) (n + suc k) (drop k es) (omega arith) (Numbered-drop k (suc n) es h)

pub Numbered-append :
    (n : ℕ) (e : StreamEvent) (es : List StreamEvent)
    → Numbered n es
    → e.sequence ≡ n + length es
    → Numbered n (es ++ e ∷ [])
Numbered-append n e [] h q = (omega arith, tt)
Numbered-append n e (x ∷ es) (hx, h) q = (hx, Numbered-append (suc n) e es h (omega arith))

pub length-blank :
    (sequence i : ℕ) (es : List StreamEvent) → length (blank sequence i es) ≡ length es
unfolding blank
length-blank sequence i [] = refl
length-blank sequence zero (e ∷ es) = refl
length-blank sequence (suc i) (e ∷ es) = ap suc (length-blank sequence i es)

pub Numbered-blank :
    (sequence i n : ℕ) (es : List StreamEvent) → Numbered n es → Numbered n (blank sequence i es)
unfolding blank
Numbered-blank sequence i n [] h = h
Numbered-blank sequence zero n (e ∷ es) (he, h) = (ground arith, h)
Numbered-blank sequence (suc i) n (e ∷ es) (he, h) = (he, Numbered-blank sequence i (suc n) es h)

pub keep_from-le : (log : EventLog) → keep_from log ≤ length log.backlog
unfolding keep_from consumed
keep_from-le log = ground arith

pub keep_from-bounded :
    (log : EventLog) → length log.backlog - keep_from log ≤ stream_backlog_max_events
unfolding keep_from consumed
keep_from-bounded log = ground arith

pub compact_backlog-bounded :
    (log : EventLog) → length (compact_backlog log).backlog ≤ stream_backlog_max_events
unfolding compact_backlog
compact_backlog-bounded log =
    ground (arith, keep_from-bounded log, keep_from-le log, length-drop (keep_from log) log.backlog)

-- What a compaction leaves alone, and what it drops.
pub compact_backlog_keeps :
    (log : EventLog)
    → ((compact_backlog log).next_backlog_sequence ≡ log.next_backlog_sequence)
      × ((compact_backlog log).latest_checkpoint ≡ log.latest_checkpoint)
      × ((compact_backlog log).subscribers ≡ log.subscribers)
unfolding compact_backlog
compact_backlog_keeps log = ground arith

pub backlog-compact_backlog :
    (log : EventLog) → (compact_backlog log).backlog ≡ drop (keep_from log) log.backlog
unfolding compact_backlog
backlog-compact_backlog log = ground (arith, keep_from-le log)

pub first-compact_backlog :
    (log : EventLog)
    → IsLog log
    → (compact_backlog log).backlog_first_sequence ≡ log.backlog_first_sequence + keep_from log
unfolding compact_backlog
first-compact_backlog log h = ground (arith, keep_from-le log)

pub compact_backlog-IsLog : (log : EventLog) → IsLog log → IsLog (compact_backlog log)
compact_backlog-IsLog log h =
    let (next, latest, readers) = compact_backlog_keeps log in
    let first = first-compact_backlog log h in
    let events = backlog-compact_backlog log in
    record {
      numbered = rw (first, events) (Numbered-drop (keep_from log) _ log.backlog h.numbered);
      next = omega (
        arith,
        h.next,
        next,
        first,
        ap length events,
        keep_from-le log,
        length-drop (keep_from log) log.backlog,
      );
      positive = omega (arith, first, h.positive);
      word = rw next h.word;
      checkpoint = rw (next, latest) h.checkpoint;
    }

-- A log with a first number already has what `Publish` would set.
pub set_first-set_next :
    (log : EventLog)
    → IsLog log
    → set_first (set_next log).next_backlog_sequence (set_next log) ≡ log
unfolding set_first set_next
set_first-set_next log h = ground arith

pub tombstone_shape :
    (o : Option StreamEvent) (log : EventLog)
    → ((tombstone o log).next_backlog_sequence ≡ log.next_backlog_sequence)
      × ((tombstone o log).backlog_first_sequence ≡ log.backlog_first_sequence)
      × ((tombstone o log).subscribers ≡ log.subscribers)
      × ((tombstone o log).latest_checkpoint ≡ log.latest_checkpoint)
      × (length (tombstone o log).backlog ≡ length log.backlog)
unfolding tombstone
tombstone_shape none log = (refl, refl, refl, refl, refl)
tombstone_shape (some c) log =
    let blanked = length-blank c.sequence (c.sequence - log.backlog_first_sequence) log.backlog in
    (ground arith, ground arith, ground arith, ground arith, ground (arith, blanked))

Numbered-tombstone :
    (o : Option StreamEvent) (n : ℕ) (log : EventLog)
    → Numbered n log.backlog
    → Numbered n (tombstone o log).backlog
unfolding tombstone
Numbered-tombstone none n log h = h
Numbered-tombstone (some c) n log h =
    elim (Bool-cases (ltb c.sequence log.backlog_first_sequence)) [
      | inl e ↦ rw e h
      | inr e ↦
          rw e (Numbered-blank c.sequence (c.sequence - log.backlog_first_sequence) n log.backlog h)
    ]

-- An event with the next number, behind a log that has the numbers of `log` and counts it.
attach-IsLog :
    (log marked : EventLog) (event : StreamEvent)
    → IsLog log
    → log.next_backlog_sequence + 1 < u64_mod
    → marked.next_backlog_sequence ≡ log.next_backlog_sequence + 1
    → marked.backlog_first_sequence ≡ log.backlog_first_sequence
    → length marked.backlog ≡ length log.backlog
    → Numbered log.backlog_first_sequence marked.backlog
    → CheckpointBelow (log.next_backlog_sequence + 1) marked.latest_checkpoint
    → event.sequence ≡ log.next_backlog_sequence
    → IsLog (record marked { backlog = marked.backlog ++ event ∷ [] })
attach-IsLog log marked event h room next first size numbered latest e = record {
  numbered = rw first (Numbered-append _ event marked.backlog numbered (omega (arith, h.next)));
  next = omega (arith, h.next, length-append marked.backlog (event ∷ []));
  positive = omega (arith, h.positive);
  word = omega arith;
  checkpoint = rw next latest;
}

CheckpointBelow-suc :
    (n : ℕ) (o : Option StreamEvent) → CheckpointBelow n o → CheckpointBelow (n + 1) o
CheckpointBelow-suc n none h = tt
CheckpointBelow-suc n (some e) (p, lt, c) = (p, omega arith, c)

pub append_event-IsLog :
    (event : StreamEvent) (log : EventLog)
    → IsLog log
    → log.next_backlog_sequence + 1 < u64_mod
    → IsLog (append_event event log)
unfolding append_event tombstone_latest_checkpoint
append_event-IsLog event log h room =
    let numbered : StreamEvent = record event { sequence = log.next_backlog_sequence } in
    let counted : EventLog = record log {
      next_backlog_sequence = (log.next_backlog_sequence + 1) % u64_mod;
    } in
    let wrap = mod-eq_of_lt room in
    let (next, first, _, _, size) = tombstone_shape log.latest_checkpoint counted in
    elim (Bool-cases (is_checkpoint_stream_event numbered)) [
      | inl e ↦ rw e (
          attach-IsLog log
            (record (tombstone log.latest_checkpoint counted) { latest_checkpoint = some numbered })
            numbered h room (next ∙ wrap) first size
            (Numbered-tombstone log.latest_checkpoint _ counted h.numbered)
            (omega (arith, h.next, h.positive), omega arith, e) refl)
      | inr e ↦ rw e (
          attach-IsLog log counted numbered h room wrap refl refl h.numbered
            (CheckpointBelow-suc _ log.latest_checkpoint h.checkpoint) refl)
    ]

pub IsValid-readers :
    (log : EventLog) {readers : List (Text × StreamSubscriber)}
    → IsValid log
    → IsValid (record log { subscribers = readers })
IsValid-readers log v = record {
  numbering = record {
    numbered = v.numbering.numbered;
    next = v.numbering.next;
    positive = v.numbering.positive;
    word = v.numbering.word;
    checkpoint = v.numbering.checkpoint;
  };
  bounded = v.bounded;
}

-- From a valid log every publication that has a sequence number left makes a valid log.
pub publish_event-IsValid :
    (event : StreamEvent) (log : EventLog)
    → IsValid log
    → log.next_backlog_sequence + 1 < u64_mod
    → IsValid (publish_event event log)
unfolding publish_event
publish_event-IsValid event log v room = rw (set_first-set_next log v.numbering) (
    IsValid-readers _ (record {
      numbering = compact_backlog-IsLog _ (append_event-IsLog event log v.numbering room);
      bounded = compact_backlog-bounded (append_event event log);
    }))
