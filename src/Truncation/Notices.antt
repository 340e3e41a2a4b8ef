-- ===== src/Truncation/Notices.antt =====
-- Cuts with a notice.
use cursor_byok_lite.Prelude.{
  ℕ, suc, ◌+◌, ◌-◌, ◌/◌, ◌≤◌, ◌<◌, ◌≡◌, refl, Bool, true, false, ◌||◌, [], ◌∷◌, ◌++◌, Option, some,
  reverse, inl, inr, arith, leb, if◌then◌else◌, length, length-append, length-reverse, Bool-cases,
}
use cursor_byok_lite.Prelude.Int.{pos, leb_ℤ}
use cursor_byok_lite.Prelude.Text.{Text, codes, str_eq}
use cursor_byok_lite.Prelude.Decimal.{format_nat, length-format_nat-le}
use cursor_byok_lite.Truncation.{
  truncate_projected_utf8, truncate_projected_utf8_suffix, skip_newlines, trim_right_newlines,
  replay_notice, truncate_rounds, truncate_projected_replay_text, middle_notice,
  truncate_middle_rounds, truncate_projected_replay_text_middle,
}
use cursor_byok_lite.Truncation.Characters.{
  length-truncate_projected_utf8-le, length-truncate_projected_utf8_suffix-le,
}

length-skip_newlines-le : (s : Text) → length (skip_newlines s) ≤ length s
unfolding skip_newlines
length-skip_newlines-le [] = omega arith
length-skip_newlines-le (c ∷ s) = ground (arith, length-skip_newlines-le s)

length-trim_right_newlines-le : (s : Text) → length (trim_right_newlines s) ≤ length s
unfolding trim_right_newlines
length-trim_right_newlines-le s = omega (
  arith,
  length-reverse (skip_newlines (reverse s)),
  length-skip_newlines-le (reverse s),
  length-reverse s,
)

length-notice-le :
    (before x y between number behind : Text)
    → length x ≤ length y
    → length (before ++ x ++ between ++ number ++ behind)
      ≤ length (before ++ y ++ between ++ number ++ behind)
length-notice-le before x y between number behind h = omega (
  arith,
  length-append before x,
  length-append (before ++ x) between,
  length-append (before ++ x ++ between) number,
  length-append (before ++ x ++ between ++ number) behind,
  length-append before y,
  length-append (before ++ y) between,
  length-append (before ++ y ++ between) number,
  length-append (before ++ y ++ between ++ number) behind,
)

length-replay_notice-le :
    (tool : Text) (limit kept n original : ℕ)
    → kept ≤ n
    → length (replay_notice tool limit kept original) ≤ length (replay_notice tool limit n original)
unfolding replay_notice
length-replay_notice-le tool limit kept n original h =
    length-notice-le
      (codes "\n\n[truncated: "
        ++ tool
        ++ codes " result exceeded "
        ++ format_nat limit
        ++ codes " bytes; showing ")
      (format_nat kept) (format_nat n) (codes " of ") (format_nat original) (codes " bytes]")
      (length-format_nat-le kept n h)

length-middle_notice-le :
    (tool : Text) (limit kept n original : ℕ)
    → kept ≤ n
    → length (middle_notice tool limit kept original) ≤ length (middle_notice tool limit n original)
unfolding middle_notice
length-middle_notice-le tool limit kept n original h =
    length-notice-le
      (codes "\n\n[truncated: "
        ++ tool
        ++ codes " result exceeded "
        ++ format_nat limit
        ++ codes " bytes; omitted middle; showing ")
      (format_nat kept) (format_nat n) (codes " of ") (format_nat original) (codes " bytes]\n\n")
      (length-format_nat-le kept n h)

-- A round whose output fits returns.
round_returns :
    (full same : Bool) (cut output : Text) (again : Option Text) (n : ℕ)
    → length cut ≤ n
    → (full ≡ false → length output ≤ n)
    → (r : Text) × ((if full
          then some cut
          else if leb (length output) n || same
          then some output
          else again)
        ≡ some r)
      × (length r ≤ n)
round_returns true same cut output again n h k = (cut, refl, h)
round_returns false same cut output again n h k =
    let fits : leb (length output) n ≡ true = ground (arith, k refl) in
    (output, rw fits refl, k refl)

first_round :
    (fuel : ℕ) (tool text : Text) (n : ℕ)
    → (r : Text) × (truncate_rounds (suc fuel) tool text n (replay_notice tool n n (length text))
        ≡ some r)
      × (length r ≤ n)
unfolding truncate_rounds
first_round fuel tool text n =
    let notice = replay_notice tool n n (length text) in
    let kept = truncate_projected_utf8 text (pos (n - length notice)) in
    let next_notice = replay_notice tool n (length kept) (length text) in
    let kept_le = length-truncate_projected_utf8-le text (n - length notice) in
    round_returns (leb n (length notice)) (str_eq next_notice notice)
      (truncate_projected_utf8 text (pos n)) (trim_right_newlines kept ++ next_notice)
      (truncate_rounds fuel tool text n next_notice) n (length-truncate_projected_utf8-le text n)
      (λ room. ground (
        arith,
        length-append (trim_right_newlines kept) next_notice,
        length-trim_right_newlines-le kept,
        kept_le,
        length-replay_notice-le tool n (length kept) n (length text) (omega (arith, kept_le)),
      ))

first_middle_round :
    (fuel : ℕ) (tool text : Text) (n : ℕ)
    → (r : Text) × (truncate_middle_rounds
          (suc fuel)
          tool
          text
          n
          (middle_notice tool n n (length text))
        ≡ some r)
      × (length r ≤ n)
unfolding truncate_middle_rounds
first_middle_round fuel tool text n =
    let notice = middle_notice tool n n (length text) in
    let keep = n - length notice in
    let head = truncate_projected_utf8 text (pos (keep / 2)) in
    let tail = truncate_projected_utf8_suffix text (pos (keep - keep / 2)) in
    let kept = length head + length tail in
    let next_notice = middle_notice tool n kept (length text) in
    let head_le = length-truncate_projected_utf8-le text (keep / 2) in
    let tail_le = length-truncate_projected_utf8_suffix-le text (keep - keep / 2) in
    round_returns (leb n (length notice)) (str_eq next_notice notice)
      (truncate_projected_utf8 text (pos n)) (head ++ next_notice ++ tail)
      (truncate_middle_rounds fuel tool text n next_notice) n
      (length-truncate_projected_utf8-le text n)
      (λ room. ground (
        arith,
        length-append (head ++ next_notice) tail,
        length-append head next_notice,
        head_le,
        tail_le,
        length-middle_notice-le tool n kept n (length text) (omega (arith, head_le, tail_le)),
      ))

-- A text that is longer than a limit above 0 is truncated, notice included, to at most as many bytes
-- as the limit: the loop ends, and its fuel is never used up.
pub truncate_projected_replay_text_lem :
    (tool_name text : Text) (n : ℕ)
    → 0 < n
    → n < length text
    → (r : Text) × (truncate_projected_replay_text tool_name text (pos n) ≡ some r) × (length r ≤ n)
unfolding truncate_projected_replay_text
truncate_projected_replay_text_lem tool_name [] n some_bytes long = absurd (omega arith)
truncate_projected_replay_text_lem tool_name (c ∷ s) n some_bytes long =
    let above : leb_ℤ (pos n) (pos 0) ≡ false = ground arith in
    let short : leb (length (c ∷ s)) n ≡ false = ground arith in
    rw (above, short) (first_round (length s) tool_name (c ∷ s) n)

-- A text of any length, truncated in the middle to a limit above 0, has at most as many bytes as the
-- limit, notice included: the loop ends, and its fuel is never used up.
pub truncate_projected_replay_text_middle_lem :
    (tool_name text : Text) (n : ℕ)
    → 0 < n
    → (r : Text) × (truncate_projected_replay_text_middle tool_name text (pos n) ≡ some r)
      × (length r ≤ n)
unfolding truncate_projected_replay_text_middle
truncate_projected_replay_text_middle_lem tool_name [] n some_bytes =
    ([], ground arith, omega arith)
truncate_projected_replay_text_middle_lem tool_name (c ∷ s) n some_bytes =
    let above : leb_ℤ (pos n) (pos 0) ≡ false = ground arith in
    elim (Bool-cases (leb (length (c ∷ s)) n)) [
      | inl e ↦ rw (above, e) (c ∷ s, refl, ground arith)
      | inr e ↦ rw (above, e) (first_middle_round (length s) tool_name (c ∷ s) n)
    ]
