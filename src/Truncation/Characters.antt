-- ===== src/Truncation/Characters.antt =====
-- Cuts at a character.
use cursor_byok_lite.Prelude.{
  ℕ, zero, suc, ◌+◌, ◌-◌, ◌≤◌, ◌<◌, ◌≡◌, refl, sym, ap, ◌∙◌, true, false, [], ◌∷◌, ◌⊎◌, inl, inr,
  arith, leb, length, take, drop, Bool-cases, length-take-le, Option-cases, on_found, some,
  length-take, ℕ_discrete, take_all, length-drop,
}
use cursor_byok_lite.Prelude.Int.{pos, leb_ℤ}
use cursor_byok_lite.Prelude.Text.{Text}
use cursor_byok_lite.Truncation.{
  valid_from, valid_string, shorten, truncate_projected_utf8, shorten_start,
  truncate_projected_utf8_suffix, lead_byte,
}

lead_byte-le : (c : ℕ) (next : ℕ × ℕ × ℕ) → lead_byte c ≡ some next → next.0 ≤ 3
unfolding lead_byte
lead_byte-le c (k, l, h) e = ground arith

-- A cut of a valid text is inside a character that began before the text, or at most three bytes
-- behind the end of a character.
CutNear : ℕ → ℕ → ℕ → ℕ → Text → Type 0
CutNear k low high n s =
    (n < k) ⊎ ((j : ℕ) × (j ≤ n) × (n ≤ j + 3) × (valid_from k low high (take j s) ≡ true))

boundary :
    (k low high n : ℕ) (s : Text)
    → k ≤ 3
    → valid_from k low high s ≡ true
    → n ≤ length s
    → CutNear k low high n s
unfolding CutNear valid_from
boundary zero low high zero s hk h hn = inr (0, omega arith, omega arith, refl)
boundary (suc k) low high zero s hk h hn = inl (omega arith)
boundary k low high (suc n) [] hk h hn = absurd (omega arith)
boundary (suc k) low high (suc n) (c ∷ s) hk h hn =
    let first : leb low c ≡ true = ground arith in
    let second : leb c high ≡ true = ground arith in
    let rest : valid_from k 0x80 0xBF s ≡ true = ground arith in
    elim (boundary k 0x80 0xBF n s (omega arith) rest (omega arith)) [
      | inl inside ↦ inl (omega arith)
      | inr (j, le, near, v) ↦ inr (suc j, omega arith, omega arith, rw (first, second) v)
    ]
boundary zero low high (suc n) (c ∷ s) hk h hn = elim (Option-cases (lead_byte c)) [
  | inl e ↦ absurd (ground (arith, e))
  | inr (next, e) ↦
      let rest : valid_from next.0 next.1 next.2 s ≡ true =
        sym (ap (λ o. on_found o false (λ next. valid_from next.0 next.1 next.2 s)) e) ∙ h in
      elim (boundary next.0 next.1 next.2 n s (lead_byte-le c next e) rest (omega arith)) [
        | inl inside ↦ inr (0, omega arith, omega (arith, lead_byte-le c next e), refl)
        | inr (j, le, near, v) ↦ inr (suc j, omega arith, omega arith, rw e v)
      ]
]

shorten-take : (s : Text) (k : ℕ) → (m : ℕ) × (m ≤ k) × (shorten s k ≡ take m s)
unfolding shorten
shorten-take s zero = (0, omega arith, refl)
shorten-take s (suc k) = elim (Bool-cases (valid_string (take (suc k) s))) [
  | inl e ↦ (suc k, omega arith, rw e refl)
  | inr e ↦ let (m, le, q) = shorten-take s k in (m, omega arith, rw e q)
]

shorten-valid : (s : Text) (k : ℕ) → valid_string (shorten s k) ≡ true
unfolding shorten valid_from
shorten-valid s zero = refl
shorten-valid s (suc k) = elim (Bool-cases (valid_string (take (suc k) s))) [
  | inl e ↦ rw e e
  | inr e ↦ rw e (shorten-valid s k)
]

shorten-longest :
    (s : Text) (k j : ℕ)
    → j ≤ k
    → k ≤ length s
    → valid_string (take j s) ≡ true
    → j ≤ length (shorten s k)
unfolding shorten
shorten-longest s zero j le hk v = omega arith
shorten-longest s (suc k) j le hk v = elim (Bool-cases (valid_string (take (suc k) s))) [
  | inl e ↦ rw e (omega (arith, length-take (suc k) s hk))
  | inr e ↦ elim (ℕ_discrete j (suc k)) [
    | yes q ↦ absurd (ground (arith, ap (λ i. valid_string (take i s)) q))
    | no q ↦ rw e (shorten-longest s k j (ground arith) (omega arith) v)
  ]
]

-- No prefix of a text that is valid UTF-8 and has at most as many bytes as the limit, which is above
-- 0 and below the length of the text, is longer than what the truncation keeps.
pub truncate_projected_utf8-longest :
    (text : Text) (n j : ℕ)
    → 0 < n
    → n < length text
    → j ≤ n
    → valid_string (take j text) ≡ true
    → j ≤ length (truncate_projected_utf8 text (pos n))
unfolding truncate_projected_utf8
truncate_projected_utf8-longest text n j some_bytes long le v =
    let above : leb_ℤ (pos n) (pos 0) ≡ false = ground arith in
    let short : leb (length text) n ≡ false = ground arith in
    rw (above, short) (shorten-longest text n j le (omega arith) v)

kept_near : (s : Text) (n : ℕ) → valid_string s ≡ true → n ≤ length s → n ≤ length (shorten s n) + 3
unfolding CutNear
kept_near s n v h = elim (boundary 0 0x80 0xBF n s (omega arith) v h) [
  | inl inside ↦ absurd (omega arith)
  | inr (j, le, near, w) ↦ omega (arith, shorten-longest s n j le h w)
]

length-shorten-le : (s : Text) (n : ℕ) → length (shorten s n) ≤ n
length-shorten-le s n =
    let (m, le, q) = shorten-take s n in omega (arith, ap length q, length-take-le m s)

length-shorten_start-le : (s : Text) → length (shorten_start s) ≤ length s
unfolding shorten_start
length-shorten_start-le [] = omega arith
length-shorten_start-le (c ∷ s) = ground (arith, length-shorten_start-le s)

-- A valid text that is truncated to a limit above 0 is a valid prefix of it, has at most as many
-- bytes as the limit, and has at most three bytes less than the limit and the text allow.
pub truncate_projected_utf8_lem :
    (text : Text) (n : ℕ)
    → 0 < n
    → valid_string text ≡ true
    → (let kept = truncate_projected_utf8 text (pos n) in
        (valid_string kept ≡ true)
        × ((m : ℕ) × (kept ≡ take m text))
        × (length kept ≤ n)
        × ((n ≤ length kept + 3) ⊎ (kept ≡ text)))
unfolding truncate_projected_utf8
truncate_projected_utf8_lem text n some_bytes v =
    let above : leb_ℤ (pos n) (pos 0) ≡ false = ground arith in
    elim (Bool-cases (leb (length text) n)) [
      | inl e ↦
          rw (above, e)
            (
              v,
              (length text, sym (take_all (length text) text (omega arith))),
              ground arith,
              inr refl,
            )
      | inr e ↦
          let (m, le, q) = shorten-take text n in
          rw (above, e)
            (
              shorten-valid text n,
              (m, q),
              length-shorten-le text n,
              inl (kept_near text n v (ground arith)),
            )
    ]

-- What a limit keeps is no longer than the limit.
pub length-truncate_projected_utf8-le :
    (text : Text) (n : ℕ) → length (truncate_projected_utf8 text (pos n)) ≤ n
unfolding truncate_projected_utf8
length-truncate_projected_utf8-le text n = ground (arith, length-shorten-le text n)

-- The same at the end of the text.
pub length-truncate_projected_utf8_suffix-le :
    (text : Text) (n : ℕ) → length (truncate_projected_utf8_suffix text (pos n)) ≤ n
unfolding truncate_projected_utf8_suffix
length-truncate_projected_utf8_suffix-le text n = ground (
  arith,
  length-shorten_start-le (drop (length text - n) text),
  length-drop (length text - n) text,
)
