-- ===== src/Semver.antt =====
-- internal/updater/semver.go: the order of the releases that the updater compares. An `int` has 64
-- bits; a comparison is 1, 0 or -1, as in the source.
pub mod Order
use cursor_byok_lite.Prelude.{
  ℕ, zero, suc, ◌+◌, ◌-◌, ◌*◌, ◌≡◌, refl, Bool, true, false, not, ◌&&◌, ◌||◌, List, [], ◌∷◌, ◌++◌,
  map, Option, none, some, leb, ltb, ◌==◌, if◌then◌else◌, length, get_elem?, on_found,
}
use cursor_byok_lite.Prelude.Int.{ℤ, pos, negsuc, ltb_ℤ, eqb_ℤ, i64_max}
use cursor_byok_lite.Prelude.Text.{Text, codes, is_empty, str_eq, trim_space}

pub record SemanticVersion : Type 0 where
  pub numbers : List ℤ
  pub prerelease : Text

-- the digits of a text as a number, `none` on any other byte
unfoldable pub parse_digits : ℕ → Text → Option ℕ
parse_digits n [] = some n
parse_digits n (c ∷ s) =
    let rest = parse_digits (n * 10 + (c - b'0')) s in
    if leb b'0' c && leb c b'9' then rest else none

-- digits, at least one, of a number up to a limit
unfoldable pub parse_limited : ℕ → Text → Option ℕ
parse_limited limit s =
    if is_empty s
    then none
    else on_found (parse_digits 0 s) none (λ n. if leb n limit then some n else none)

abbrev minus : ℕ → ℤ
minus zero = pos zero
minus (suc n) = negsuc n

-- `strconv.Atoi`
unfoldable pub parse_int : Text → Option ℤ
parse_int [] = none
parse_int (c ∷ s) =
    if c == b'-'
    then on_found (parse_limited (i64_max + 1) s) none (λ n. some (minus n))
    else on_found (parse_limited i64_max (if c == b'+' then s else c ∷ s)) none (λ n. some (pos n))

unfoldable pub atoi : Text → ℤ
atoi raw = on_found (parse_int (trim_space raw)) (pos 0) (λ n. n)

abbrev add_to_first : ℕ → List Text → List Text
add_to_first c [] = (c ∷ []) ∷ []
add_to_first c (part ∷ parts) = (c ∷ part) ∷ parts

-- `strings.Split(s, ".")`
unfoldable pub split_dots : Text → List Text
split_dots [] = [] ∷ []
split_dots (c ∷ s) =
    let parts = split_dots s in if c == b'.' then [] ∷ parts else add_to_first c parts

-- what stands before the first "-", and what behind it
unfoldable pub cut_dash : Text → Text × Text
cut_dash [] = ([], [])
cut_dash (c ∷ s) =
    let (before, after) = cut_dash s in if c == b'-' then ([], s) else (c ∷ before, after)

-- `strings.TrimPrefix(s, "v")`
unfoldable pub trim_v : Text → Text
trim_v [] = []
trim_v (c ∷ s) = if c == b'v' then s else c ∷ s

unfoldable pub parse_version : Text → SemanticVersion
parse_version raw =
    let clean = trim_space (trim_v raw) in
    let (core, prerelease) = cut_dash clean in
    if is_empty clean
    then record { numbers = []; prerelease = [] }
    else record { numbers = map atoi (split_dots core); prerelease = prerelease }

unfoldable pub version_number_at : List ℤ → ℕ → ℤ
version_number_at numbers index = on_found (get_elem? numbers index) (pos 0) (λ n. n)

unfoldable pub compare_ints : ℤ → ℤ → ℤ
compare_ints a b = if ltb_ℤ b a then pos 1 else if ltb_ℤ a b then negsuc 0 else pos 0

-- the loop of `compareVersionNumbers` from an index on, over `n` indices
unfoldable pub compare_from : List ℤ → List ℤ → ℕ → ℕ → ℤ
compare_from left right zero index = pos 0
compare_from left right (suc n) index =
    let rest = compare_from left right n (suc index) in
    let left_number = version_number_at left index in
    let right_number = version_number_at right index in
    if not (eqb_ℤ left_number right_number) then compare_ints left_number right_number else rest

abbrev pub max : ℕ → ℕ → ℕ
max a b = if ltb a b then b else a

unfoldable pub compare_version_numbers : Text → Text → ℤ
compare_version_numbers a b =
    let left = (parse_version a).numbers in
    let right = (parse_version b).numbers in
    compare_from left right (max (length left) (length right)) 0

unfoldable pub prerelease_rank : Text → ℤ
prerelease_rank value =
    if str_eq value (codes "lite") then pos 2 else if str_eq value [] then pos 1 else pos 0

-- `a < b` on strings
unfoldable pub str_lt : Text → Text → Bool
str_lt s [] = false
str_lt [] (b ∷ t) = true
str_lt (a ∷ s) (b ∷ t) = ltb a b || (a == b && str_lt s t)

unfoldable pub compare_versions : Text → Text → ℤ
compare_versions a b =
    let result = compare_version_numbers a b in
    let left = (parse_version a).prerelease in
    let right = (parse_version b).prerelease in
    if not (eqb_ℤ result (pos 0))
    then result
    else if not (eqb_ℤ (prerelease_rank left) (prerelease_rank right))
    then compare_ints (prerelease_rank left) (prerelease_rank right)
    else if str_eq left right
    then pos 0
    else if str_lt right left
    then pos 1
    else if str_lt left right
    then negsuc 0
    else pos 0

padded_test : compare_versions (codes "v1.10") (codes "1.10.0") ≡ pos 0
unfolding compare_versions compare_version_numbers parse_version trim_v trim_space cut_dash
    split_dots atoi parse_int parse_limited parse_digits compare_from version_number_at
    prerelease_rank str_eq
padded_test = refl

lite_test : compare_versions (codes "1.2.3-lite") (codes "v1.2.3") ≡ pos 1
unfolding compare_versions compare_version_numbers parse_version trim_v trim_space cut_dash
    split_dots atoi parse_int parse_limited parse_digits compare_from version_number_at
    prerelease_rank str_eq compare_ints
lite_test = refl
