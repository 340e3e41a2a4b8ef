-- ===== src/Backlog/Reads.antt =====
-- broker.go: what a reader gets from the log.
use cursor_byok_lite.Prelude.{
  ℕ, zero, suc, ◌+◌, ◌-◌, ◌<◌, ◌≤◌, ◌≡◌, subst, inl, inr, List, [], ◌∷◌, Option, none, some, arith,
  is_nil, leb, if◌then◌else◌, Bool-cases, drop, drop_all, drop-nil, Option-cases, true, false, ltb,
  ◌==◌, sym, ap, ◌∙◌,
}
use cursor_byok_lite.Stream.{EventLog, StreamEvent}
use cursor_byok_lite.Backlog.{
  read_backlog, read_behind, read_from, read_from_cursor, start_cursor, checkpoint_cursor,
  subscriber_cursor,
}
use cursor_byok_lite.Backlog.Invariant.{IsLog, CheckpointBelow}

read_backlog-drop :
    (cursor : ℕ) (log : EventLog)
    → IsLog log
    → log.backlog_first_sequence ≤ cursor
    → read_backlog cursor log ≡ drop (cursor - log.backlog_first_sequence) log.backlog
unfolding read_backlog
read_backlog-drop cursor log h le =
    ground (arith, drop_all (cursor - log.backlog_first_sequence) log.backlog, h.next)

read_from-drop :
    (o : Option StreamEvent) (cursor : ℕ) (log : EventLog)
    → IsLog log
    → log.backlog_first_sequence ≤ cursor
    → read_from o cursor log ≡ drop (cursor - log.backlog_first_sequence) log.backlog
unfolding read_from
read_from-drop none cursor log h le = read_backlog-drop cursor log h le
read_from-drop (some c) cursor log h le = ground (arith, read_backlog-drop cursor log h le)

pub read_from_cursor-drop :
    (cursor : ℕ) (log : EventLog)
    → IsLog log
    → log.backlog_first_sequence ≤ cursor
    → read_from_cursor cursor log ≡ drop (cursor - log.backlog_first_sequence) log.backlog
unfolding read_from_cursor
read_from_cursor-drop zero log h le = absurd (omega (arith, h.positive))
read_from_cursor-drop (suc n) log h le =
    ground (arith, read_from-drop log.latest_checkpoint (suc n) log h le)

rest-drop :
    (s first : ℕ) (es : List StreamEvent)
    → (if is_nil es then [] else if leb first s then drop (s - first + 1) es else es)
      ≡ drop (s + 1 - first) es
rest-drop s first [] = rw drop-nil
rest-drop s first (e ∷ es) = elim (Bool-cases (leb first s)) [
  | inl h ↦ let k : s + 1 - first ≡ s - first + 1 = ground arith in rw (h, k)
  | inr h ↦ let k : s + 1 - first ≡ 0 = ground arith in rw (h, k)
]

read_from-behind :
    (o : Option StreamEvent) (c : StreamEvent) (cursor : ℕ) (log : EventLog)
    → o ≡ some c
    → cursor < log.backlog_first_sequence
    → cursor ≤ c.sequence
    → read_from o cursor log ≡ c ∷ drop (c.sequence + 1 - log.backlog_first_sequence) log.backlog
unfolding read_from read_behind
read_from-behind none c cursor log e lt le = cc
read_from-behind (some d) c cursor log e lt le =
    ground (arith, rest-drop c.sequence log.backlog_first_sequence log.backlog)

-- A reader whose cursor is set, before the log's first number and not behind the newest
-- checkpoint, gets that checkpoint, and then every event that the log still has behind it.
read_from_cursor-behind :
    (c : StreamEvent) (cursor : ℕ) (log : EventLog)
    → log.latest_checkpoint ≡ some c
    → 0 < cursor
    → cursor < log.backlog_first_sequence
    → cursor ≤ c.sequence
    → read_from_cursor cursor log
      ≡ c ∷ drop (c.sequence + 1 - log.backlog_first_sequence) log.backlog
unfolding read_from_cursor
read_from_cursor-behind c zero log e p lt le = absurd (omega arith)
read_from_cursor-behind c (suc n) log e p lt le =
    ground (arith, read_from-behind log.latest_checkpoint c (suc n) log e lt le)

-- The newest checkpoint and everything that the log still has behind it, or the whole log where there
-- is no checkpoint.
abbrev pub newest_on : Option StreamEvent → EventLog → List StreamEvent
newest_on none log = log.backlog
newest_on (some c) log =
    let behind = drop (c.sequence - log.backlog_first_sequence) log.backlog in
    if leb log.backlog_first_sequence c.sequence then behind else c ∷ log.backlog

read-start_plain :
    (log : EventLog) → IsLog log → read_from_cursor (start_cursor none log) log ≡ log.backlog
unfolding start_cursor checkpoint_cursor
read-start_plain log h =
    let first = log.backlog_first_sequence in
    elim (Bool-cases (is_nil log.backlog)) [
      | inl e ↦
          let set : (log.next_backlog_sequence == 0) ≡ false = ground (arith, h.next, h.positive) in
          rw (e, set)
            (read_from_cursor-drop log.next_backlog_sequence log h (omega (arith, h.next))
              ∙ nothing_left (log.next_backlog_sequence - first) log.backlog e)
      | inr e ↦
          let none_read : first - first ≡ 0 = omega arith in
          rw e (
            read_from_cursor-drop first log h (omega arith)
            ∙ ap (λ n. drop n log.backlog) none_read)
    ]
  where
    nothing_left : (n : ℕ) (es : List StreamEvent) → is_nil es ≡ true → drop n es ≡ es
    nothing_left n [] e = drop-nil n
    nothing_left n (x ∷ es) e = absurd (ground (arith, e))

read-start_checkpoint :
    (log : EventLog) (c : StreamEvent)
    → IsLog log
    → log.latest_checkpoint ≡ some c
    → 0 < c.sequence
    → read_from_cursor (start_cursor (some c) log) log ≡ newest_on (some c) log
unfolding start_cursor checkpoint_cursor
read-start_checkpoint log c h latest positive =
    let set : ltb 0 c.sequence ≡ true = ground arith in
    elim (Bool-cases (leb log.backlog_first_sequence c.sequence)) [
      | inl e ↦ rw (set, e) (read_from_cursor-drop c.sequence log h (ground (arith, e)))
      | inr e ↦
          let before : c.sequence < log.backlog_first_sequence = ground (arith, e) in
          let all : c.sequence + 1 - log.backlog_first_sequence ≡ 0 = omega arith in
          rw (set, e)
            (read_from_cursor-behind c c.sequence log latest positive before (omega arith)
              ∙ ap (λ n. c ∷ drop n log.backlog) all)
    ]

-- What a new reader gets from the cursor that it is given.
pub read-start :
    (log : EventLog)
    → IsLog log
    → read_from_cursor (subscriber_cursor log) log ≡ newest_on log.latest_checkpoint log
unfolding subscriber_cursor
read-start log h = elim (Option-cases log.latest_checkpoint) [
  | inl e ↦
      ap (λ o. read_from_cursor (start_cursor o log) log) e
      ∙ read-start_plain log h
      ∙ sym (ap (λ o. newest_on o log) e)
  | inr (c, e) ↦
      let below = subst (CheckpointBelow log.next_backlog_sequence) e h.checkpoint in
      ap (λ o. read_from_cursor (start_cursor o log) log) e
      ∙ read-start_checkpoint log c h e below.0
      ∙ sym (ap (λ o. newest_on o log) e)
]
