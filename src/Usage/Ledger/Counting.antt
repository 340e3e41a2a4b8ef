-- ===== src/Usage/Ledger/Counting.antt =====
-- The arithmetic of the counters.
use cursor_byok_lite.Prelude.{
  ℕ, ◌+◌, ◌-◌, ◌≤◌, ◌≡◌, refl, ap, ◌∙◌, Bool, true, false, List, [], ◌∷◌, ◌++◌, inl, inr, arith,
  if◌then◌else◌, take, drop, take-append-drop, Bool-cases,
}
use cursor_byok_lite.Prelude.Int.{ℤ, pos, negsuc, ltb_ℤ, pos_part, add64, sub64, add64-pos, i64_max}
use cursor_byok_lite.Usage.{
  UsageCounters, UsageFileEvent, clamp_non_negative, is_turn, normalize_usage_event_kind,
  usage_file_event_delta, negate_usage_file_delta, apply_usage_delta, no_usage,
}
use cursor_byok_lite.Usage.Ledger.{
  Counter, calls, turns, valid, invalid, input, output, cache_read, cache_write, tokens, count,
  amount, amounts,
}

clamp-pos : (v : ℤ) → clamp_non_negative v ≡ pos (pos_part (clamp_non_negative v))
unfolding clamp_non_negative
clamp-pos (pos n) = let e : ltb_ℤ (pos n) (pos 0) ≡ false = ground arith in rw e refl
clamp-pos (negsuc n) = let e : ltb_ℤ (negsuc n) (pos 0) ≡ true = ground arith in rw e refl

zero_or_one :
    (b : Bool) (m n : ℕ)
    → (if b then pos m else pos n) ≡ pos (pos_part (if b then pos m else pos n))
zero_or_one true m n = refl
zero_or_one false m n = refl

NonNegative : ℤ → Type 0
NonNegative n = n ≡ pos (pos_part n)

-- Every counter is non-negative when the fields are.
every_count :
    (k : UsageCounters)
    → NonNegative k.provider_calls
    → NonNegative k.turns_total
    → NonNegative k.valid_turns_total
    → NonNegative k.invalid_turns_total
    → NonNegative k.input_tokens
    → NonNegative k.output_tokens
    → NonNegative k.cache_read_tokens
    → NonNegative k.cache_write_tokens
    → NonNegative k.total_tokens
    → (c : Counter) → NonNegative (count c k)
every_count k p1 p2 p3 p4 p5 p6 p7 p8 p9 calls = p1
every_count k p1 p2 p3 p4 p5 p6 p7 p8 p9 turns = p2
every_count k p1 p2 p3 p4 p5 p6 p7 p8 p9 valid = p3
every_count k p1 p2 p3 p4 p5 p6 p7 p8 p9 invalid = p4
every_count k p1 p2 p3 p4 p5 p6 p7 p8 p9 input = p5
every_count k p1 p2 p3 p4 p5 p6 p7 p8 p9 output = p6
every_count k p1 p2 p3 p4 p5 p6 p7 p8 p9 cache_read = p7
every_count k p1 p2 p3 p4 p5 p6 p7 p8 p9 cache_write = p8
every_count k p1 p2 p3 p4 p5 p6 p7 p8 p9 tokens = p9

-- A change is never negative.
pub count-delta :
    (c : Counter) (event : UsageFileEvent)
    → count c (usage_file_event_delta event) ≡ pos (amount c event)
unfolding usage_file_event_delta NonNegative
count-delta c event = elim (Bool-cases (is_turn (normalize_usage_event_kind event.kind))) [
  | inl e ↦
      rw e
        (every_count _ refl refl (zero_or_one _ 1 0) (zero_or_one _ 0 1) refl refl refl refl refl c)
  | inr e ↦ rw e (
      every_count _ refl refl refl refl (clamp-pos event.input_tokens)
        (clamp-pos event.output_tokens) (clamp-pos event.cache_read_tokens)
        (clamp-pos event.cache_write_tokens) (clamp-pos event.total_tokens) c)
]

pub count-apply :
    (c : Counter) (counters delta : UsageCounters)
    → count c (apply_usage_delta counters delta)
      ≡ clamp_non_negative (add64 (count c counters) (count c delta))
unfolding apply_usage_delta
count-apply calls counters delta = refl
count-apply turns counters delta = refl
count-apply valid counters delta = refl
count-apply invalid counters delta = refl
count-apply input counters delta = refl
count-apply output counters delta = refl
count-apply cache_read counters delta = refl
count-apply cache_write counters delta = refl
count-apply tokens counters delta = refl

pub count-negate :
    (c : Counter) (delta : UsageCounters)
    → count c (negate_usage_file_delta delta) ≡ sub64 (pos 0) (count c delta)
unfolding negate_usage_file_delta
count-negate calls delta = refl
count-negate turns delta = refl
count-negate valid delta = refl
count-negate invalid delta = refl
count-negate input delta = refl
count-negate output delta = refl
count-negate cache_read delta = refl
count-negate cache_write delta = refl
count-negate tokens delta = refl

clamped_sum : (t a : ℕ) → t + a ≤ i64_max → clamp_non_negative (add64 (pos t) (pos a)) ≡ pos (t + a)
unfolding clamp_non_negative
clamped_sum t a h =
    rw (add64-pos t a h) (let e : ltb_ℤ (pos (t + a)) (pos 0) ≡ false = ground arith in rw e refl)

clamped_difference :
    (t a : ℕ)
    → a ≤ t
    → t ≤ i64_max
    → clamp_non_negative (add64 (pos t) (sub64 (pos 0) (pos a))) ≡ pos (t - a)
unfolding clamp_non_negative add64 sub64
clamped_difference t a h k = ground arith

amounts-append :
    (c : Counter) (a b : List UsageFileEvent) → amounts c (a ++ b) ≡ amounts c a + amounts c b
unfolding amounts
amounts-append c [] b = omega arith
amounts-append c (event ∷ a) b = omega (arith, amounts-append c a b)

-- Taking a list apart keeps the sum.
pub amounts-parts :
    (c : Counter) (n : ℕ) (a b : List UsageFileEvent)
    → amounts c (take n a) + amounts c (drop n a ++ b) ≡ amounts c a + amounts c b
amounts-parts c n a b = omega (
  arith,
  amounts-append c (take n a) (drop n a),
  amounts-append c (drop n a) b,
  ap (amounts c) (take-append-drop n a),
)

-- The totals after an event is added, and after one is taken back.
pub count-add :
    (c : Counter) (totals : UsageCounters) (t : ℕ) (event : UsageFileEvent)
    → count c totals ≡ pos t
    → t + amount c event ≤ i64_max
    → count c (apply_usage_delta totals (usage_file_event_delta event)) ≡ pos (t + amount c event)
count-add c totals t event e h =
    count-apply c totals _
    ∙ ap (λ n. clamp_non_negative (add64 n (count c (usage_file_event_delta event)))) e
    ∙ ap (λ n. clamp_non_negative (add64 (pos t) n)) (count-delta c event)
    ∙ clamped_sum t (amount c event) h

pub count-take_back :
    (c : Counter) (totals : UsageCounters) (t : ℕ) (event : UsageFileEvent)
    → count c totals ≡ pos t
    → amount c event ≤ t
    → t ≤ i64_max
    → count c (apply_usage_delta totals (negate_usage_file_delta (usage_file_event_delta event)))
      ≡ pos (t - amount c event)
count-take_back c totals t event e h k =
    count-apply c totals _
    ∙ ap
        (λ n.
          clamp_non_negative
            (add64 n (count c (negate_usage_file_delta (usage_file_event_delta event)))))
        e
    ∙ ap (λ n. clamp_non_negative (add64 (pos t) n))
        (count-negate c (usage_file_event_delta event) ∙ ap (sub64 (pos 0)) (count-delta c event))
    ∙ clamped_difference t (amount c event) h k

pub count-no_usage : (c : Counter) → count c no_usage ≡ pos 0
count-no_usage calls = refl
count-no_usage turns = refl
count-no_usage valid = refl
count-no_usage invalid = refl
count-no_usage input = refl
count-no_usage output = refl
count-no_usage cache_read = refl
count-no_usage cache_write = refl
count-no_usage tokens = refl
