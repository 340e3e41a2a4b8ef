-- ===== src/Prelude/Text.antt =====
-- Go strings as lists of bytes, and the functions of package `strings` that the program calls.
use Prim.Native.Nat.{ℕ, zero, suc, ◌≤◌}
use Prim.Native.Char.{code}
use Prim.Native.String.{String}
use mathlib.Core.Path.{◌≡◌, refl, ap, ◌∙◌, sym}
use mathlib.Core.Bool.{Bool, true, false, ◌&&◌, ◌||◌}
use mathlib.Core.Logic.{◌↔◌, ◌⊎◌, inl, inr}
use mathlib.Core.List.{List, [], ◌∷◌, ◌++◌, reverse, reverse-append, reverse-reverse}
use native.Mathlib.Omega.{arith}
use cursor_byok_lite.Prelude.Tests.{leb, ◌==◌, if◌then◌else◌}
use cursor_byok_lite.Prelude.Lists.{length, length-append}

abbrev pub Text : Type 0
Text = List ℕ

-- The code points of a literal: its bytes, as every literal here is ASCII.
abbrev pub codes : String → Text
codes String.[] = []
codes (String.◌∷◌ c s) = code c ∷ codes s

-- `a == b`
unfoldable pub str_eq : Text → Text → Bool
str_eq [] [] = true
str_eq [] (b ∷ t) = false
str_eq (a ∷ s) [] = false
str_eq (a ∷ s) (b ∷ t) = a == b && str_eq s t

pub str_eq_iff : (s t : Text) → (str_eq s t ≡ true) ↔ (s ≡ t)
unfolding str_eq
str_eq_iff [] [] = ground arith
str_eq_iff [] (b ∷ t) = ground arith
str_eq_iff (a ∷ s) [] = ground arith
str_eq_iff (a ∷ s) (b ∷ t) = ground (arith, str_eq_iff s t)

pub str_eq_refl : (s : Text) → str_eq s s ≡ true
str_eq_refl s = (str_eq_iff s s).1 refl

-- `strings.HasPrefix(s, prefix)`
unfoldable pub has_prefix : Text → Text → Bool
has_prefix s [] = true
has_prefix [] (b ∷ prefix) = false
has_prefix (a ∷ s) (b ∷ prefix) = a == b && has_prefix s prefix

abbrev pub is_empty : Text → Bool
is_empty [] = true
is_empty (c ∷ s) = false

-- `unicode.IsSpace` on a rune of one, two and three bytes of UTF-8.
space_1 : ℕ → Bool
space_1 a = (leb 9 a && leb a 13) || a == 32

space_2 : ℕ → ℕ → Bool
space_2 a b = a == 0xC2 && (b == 0x85 || b == 0xA0)

space_3 : ℕ → ℕ → ℕ → Bool
space_3 a b c =
    (a == 0xE1 && b == 0x9A && c == 0x80)
    || (a == 0xE2 && b == 0x80 && (leb 0x80 c && leb c 0x8A))
    || (a == 0xE2 && b == 0x80 && (c == 0xA8 || c == 0xA9 || c == 0xAF))
    || (a == 0xE2 && b == 0x81 && c == 0x9F)
    || (a == 0xE3 && b == 0x80 && c == 0x80)

-- The number of bytes of a space that begins the text, 0 if none does.
lead_width : Text → ℕ
lead_width [] = 0
lead_width (a ∷ []) = if space_1 a then 1 else 0
lead_width (a ∷ b ∷ []) = if space_1 a then 1 else if space_2 a b then 2 else 0
lead_width (a ∷ b ∷ c ∷ s) =
    if space_1 a then 1 else if space_2 a b then 2 else if space_3 a b c then 3 else 0

-- The same for a space that ends a text, which is given backwards.
last_width : Text → ℕ
last_width [] = 0
last_width (a ∷ []) = if space_1 a then 1 else 0
last_width (a ∷ b ∷ []) = if space_1 a then 1 else if space_2 b a then 2 else 0
last_width (a ∷ b ∷ c ∷ s) =
    if space_1 a then 1 else if space_2 b a then 2 else if space_3 c b a then 3 else 0

-- Drops spaces from the front; the first argument counts the bytes of the space being dropped.
strip : (Text → ℕ) → ℕ → Text → Text
strip width k [] = []
strip width (suc k) (c ∷ s) = strip width k s
strip width zero (c ∷ s) = elim (width (c ∷ s)) [ zero ↦ c ∷ s | suc k ↦ strip width k s ]

-- `strings.TrimSpace`
unfoldable pub trim_space : Text → Text
unfolding lead_width last_width strip space_1 space_2 space_3
trim_space s = reverse (strip last_width 0 (reverse (strip lead_width 0 s)))

ℕ-cases : (n : ℕ) → (n ≡ 0) ⊎ ((k : ℕ) × (n ≡ suc k))
ℕ-cases zero = inl refl
ℕ-cases (suc k) = inr (k, refl)

strip_stops : (width : Text → ℕ) → width [] ≡ 0 → (k : ℕ) (s : Text) → width (strip width k s) ≡ 0
unfolding strip
strip_stops width e k [] = e
strip_stops width e (suc k) (c ∷ s) = strip_stops width e k s
strip_stops width e zero (c ∷ s) = elim (ℕ-cases (width (c ∷ s))) [
  | inl h ↦ rw (h, strip) h
  | inr (k, h) ↦ rw (h, strip) (strip_stops width e k s)
]

strip_stays : (width : Text → ℕ) (s : Text) → width s ≡ 0 → strip width 0 s ≡ s
unfolding strip
strip_stays width [] h = refl
strip_stays width (c ∷ s) h = rw (h, strip)

-- What is left is a suffix.
strip_suffix : (width : Text → ℕ) (k : ℕ) (s : Text) → (p : Text) × (p ++ strip width k s ≡ s)
unfolding strip
strip_suffix width k [] = ([], refl)
strip_suffix width (suc k) (c ∷ s) =
    let r = strip_suffix width k s in (c ∷ r.0, ap (λ t. c ∷ t) r.1)
strip_suffix width zero (c ∷ s) = elim (ℕ-cases (width (c ∷ s))) [
  | inl h ↦ ([], rw (h, strip))
  | inr (k, h) ↦ let r = strip_suffix width k s in (c ∷ r.0, rw (h, strip) (ap (λ t. c ∷ t) r.1))
]

-- A text with no leading space gets none when bytes are taken from its end.
lead_width-append : (p q : Text) → lead_width (p ++ q) ≡ 0 → lead_width p ≡ 0
unfolding lead_width
lead_width-append [] q h = refl
lead_width-append (a ∷ []) [] h = h
lead_width-append (a ∷ []) (b ∷ []) h = ground arith
lead_width-append (a ∷ []) (b ∷ c ∷ q) h = ground arith
lead_width-append (a ∷ b ∷ []) [] h = h
lead_width-append (a ∷ b ∷ []) (c ∷ q) h = ground arith
lead_width-append (a ∷ b ∷ c ∷ p) q h = h

trim_left : Text → Text
trim_left s = strip lead_width 0 s

trim_right : Text → Text
trim_right s = reverse (strip last_width 0 (reverse s))

trim_right-prefix : (s : Text) → (q : Text) × (trim_right s ++ q ≡ s)
unfolding trim_right
trim_right-prefix s =
    let (p, e) = strip_suffix last_width 0 (reverse s) in
    (reverse p, sym (reverse-append p _) ∙ ap reverse e ∙ reverse-reverse s)

trim_left-lead : (s : Text) → lead_width (trim_left s) ≡ 0
unfolding trim_left lead_width
trim_left-lead s = strip_stops lead_width refl 0 s

trim_left-stays : (s : Text) → lead_width s ≡ 0 → trim_left s ≡ s
unfolding trim_left
trim_left-stays s h = strip_stays lead_width s h

trim_right_idem : (s : Text) → trim_right (trim_right s) ≡ trim_right s
unfolding trim_right last_width
trim_right_idem s = ap reverse (
    ap (strip last_width 0) (reverse-reverse _)
    ∙ strip_stays last_width _ (strip_stops last_width refl 0 (reverse s)))

trim_space-parts : (s : Text) → trim_space s ≡ trim_right (trim_left s)
unfolding trim_space trim_right trim_left
trim_space-parts s = refl

-- Trimming a trimmed text changes nothing.
pub trim_space_idem : (s : Text) → trim_space (trim_space s) ≡ trim_space s
trim_space_idem s =
    let t = trim_left s in
    let (q, e) = trim_right-prefix t in
    let lead : lead_width (trim_right t) ≡ 0 =
      lead_width-append (trim_right t) q (ap lead_width e ∙ trim_left-lead s) in
    rw (trim_space-parts s)
      (trim_space-parts _ ∙ ap trim_right (trim_left-stays (trim_right t) lead) ∙ trim_right_idem t)

trim_left-le : (s : Text) → length (trim_left s) ≤ length s
unfolding trim_left
trim_left-le s =
    let (p, f) = strip_suffix lead_width 0 s in
    omega (arith, length-append p (strip lead_width 0 s), ap length f)

trim_right-le : (s : Text) → length (trim_right s) ≤ length s
trim_right-le s =
    let (q, e) = trim_right-prefix s in omega (arith, length-append (trim_right s) q, ap length e)

pub length-trim_space-le : (s : Text) → length (trim_space s) ≤ length s
length-trim_space-le s =
    rw trim_space-parts (omega (arith, trim_left-le s, trim_right-le (trim_left s)))

trim_space_test : trim_space (codes " \t a b\n") ≡ codes "a b"
unfolding trim_space
trim_space_test = refl
