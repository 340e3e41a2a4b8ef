-- ===== src/Semver/Order.antt =====
-- semver.go: the comparison is an order that has releases of the lite channel above the others.
use cursor_byok_lite.Prelude.{
  ℕ, zero, suc, ◌≡◌, refl, ap, ◌∙◌, true, false, not, inl, inr, List, [], ◌∷◌, arith, if◌then◌else◌,
  length, Bool-cases,
}
use cursor_byok_lite.Prelude.Int.{ℤ, pos, negsuc, ltb_ℤ, eqb_ℤ}
use cursor_byok_lite.Prelude.Text.{Text, codes, str_eq, str_eq_refl}
use cursor_byok_lite.Semver.{
  parse_version, version_number_at, compare_ints, compare_from, max, compare_version_numbers,
  prerelease_rank, str_lt, compare_versions,
}

abbrev pub negate : ℤ → ℤ
negate (pos zero) = pos zero
negate (pos (suc n)) = negsuc n
negate (negsuc n) = pos (suc n)

compare_ints-swap : (a b : ℤ) → compare_ints b a ≡ negate (compare_ints a b)
unfolding compare_ints
compare_ints-swap a b = ground arith

eqb_ℤ-swap : (a b : ℤ) → eqb_ℤ b a ≡ eqb_ℤ a b
eqb_ℤ-swap a b = ground arith

compare_from-swap :
    (left right : List ℤ) (n index : ℕ)
    → compare_from right left n index ≡ negate (compare_from left right n index)
unfolding compare_from
compare_from-swap left right zero index = refl
compare_from-swap left right (suc n) index =
    let l = version_number_at left index in
    let r = version_number_at right index in
    elim (Bool-cases (eqb_ℤ l r)) [
      | inl e ↦ rw (eqb_ℤ-swap l r, e) (compare_from-swap left right n (suc index))
      | inr e ↦ rw (eqb_ℤ-swap l r, e) (compare_ints-swap l r)
    ]

max-swap : (a b : ℕ) → max b a ≡ max a b
max-swap a b = ground arith

compare_version_numbers-swap :
    (a b : Text) → compare_version_numbers b a ≡ negate (compare_version_numbers a b)
unfolding compare_version_numbers
compare_version_numbers-swap a b =
    let left = (parse_version a).numbers in
    let right = (parse_version b).numbers in
    rw (max-swap (length left) (length right))
      (compare_from-swap left right (max (length left) (length right)) 0)

str_eq-swap : (s t : Text) → str_eq t s ≡ str_eq s t
unfolding str_eq
str_eq-swap [] [] = refl
str_eq-swap [] (b ∷ t) = refl
str_eq-swap (a ∷ s) [] = refl
str_eq-swap (a ∷ s) (b ∷ t) = ground (arith, str_eq-swap s t)

-- Of two different texts one is less than the other.
str_lt-total : (s t : Text) → str_eq s t ≡ false → str_lt t s ≡ not (str_lt s t)
unfolding str_lt str_eq
str_lt-total [] [] h = cc
str_lt-total [] (b ∷ t) h = refl
str_lt-total (a ∷ s) [] h = refl
str_lt-total (a ∷ s) (b ∷ t) h = ground (arith, str_lt-total s t)

-- The order of two prereleases, the end of `compareVersions`.
abbrev compare_prereleases : Text → Text → ℤ
compare_prereleases left right =
    if not (eqb_ℤ (prerelease_rank left) (prerelease_rank right))
    then compare_ints (prerelease_rank left) (prerelease_rank right)
    else if str_eq left right
    then pos 0
    else if str_lt right left
    then pos 1
    else if str_lt left right
    then negsuc 0
    else pos 0

compare_prereleases-swap : (l r : Text) → compare_prereleases r l ≡ negate (compare_prereleases l r)
compare_prereleases-swap l r = elim (Bool-cases (eqb_ℤ (prerelease_rank l) (prerelease_rank r))) [
  | inl e ↦ elim (Bool-cases (str_eq l r)) [
    | inl q ↦ rw (eqb_ℤ-swap (prerelease_rank l) (prerelease_rank r), e, str_eq-swap l r, q)
    | inr q ↦ elim (Bool-cases (str_lt l r)) [
      | inl h ↦ rw (
        eqb_ℤ-swap (prerelease_rank l) (prerelease_rank r),
        e,
        str_eq-swap l r,
        q,
        str_lt-total l r q,
        h,
      )
      | inr h ↦ rw (
        eqb_ℤ-swap (prerelease_rank l) (prerelease_rank r),
        e,
        str_eq-swap l r,
        q,
        str_lt-total l r q,
        h,
      )
    ]
  ]
  | inr e ↦
      rw (eqb_ℤ-swap (prerelease_rank l) (prerelease_rank r), e)
        (compare_ints-swap (prerelease_rank l) (prerelease_rank r))
]

abbrev after_numbers : ℤ → Text → Text → ℤ
after_numbers result left right =
    if not (eqb_ℤ result (pos 0)) then result else compare_prereleases left right

after_numbers-swap :
    (n : ℤ) (l r : Text) → after_numbers (negate n) r l ≡ negate (after_numbers n l r)
after_numbers-swap (pos zero) l r = compare_prereleases-swap l r
after_numbers-swap (pos (suc n)) l r =
    let p : eqb_ℤ (pos (suc n)) (pos 0) ≡ false = ground arith in
    let q : eqb_ℤ (negsuc n) (pos 0) ≡ false = ground arith in rw (p, q)
after_numbers-swap (negsuc n) l r =
    let p : eqb_ℤ (pos (suc n)) (pos 0) ≡ false = ground arith in
    let q : eqb_ℤ (negsuc n) (pos 0) ≡ false = ground arith in rw (p, q)

-- Comparing two versions the other way round gives the opposite result, whatever the texts are, so
-- of two versions at most one is newer.
pub compare_versions-swap : (a b : Text) → compare_versions b a ≡ negate (compare_versions a b)
unfolding compare_versions
compare_versions-swap a b = rw (compare_version_numbers-swap a b) (
    after_numbers-swap (compare_version_numbers a b) (parse_version a).prerelease
      (parse_version b).prerelease)

other-rank : (t : Text) → str_eq t (codes "lite") ≡ false → ltb_ℤ (prerelease_rank t) (pos 2) ≡ true
unfolding prerelease_rank
other-rank t h = ground arith

-- A lite release is newer than every release with the same numbers that is not a lite release.
pub compare_versions-lite :
    (a b : Text)
    → compare_version_numbers a b ≡ pos 0
    → (parse_version a).prerelease ≡ codes "lite"
    → str_eq (parse_version b).prerelease (codes "lite") ≡ false
    → compare_versions a b ≡ pos 1
unfolding compare_versions prerelease_rank compare_ints
compare_versions-lite a b same lite other =
    let rank : prerelease_rank (parse_version a).prerelease ≡ pos 2 =
      ap prerelease_rank lite ∙ rw (str_eq_refl (codes "lite")) in
    let below = other-rank (parse_version b).prerelease other in rw (same) (ground arith)
