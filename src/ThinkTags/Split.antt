-- ===== src/ThinkTags/Split.antt =====
-- What one piece of text becomes, against a description of the whole text, byte by byte.
pub mod Pieces
use cursor_byok_lite.Prelude.{
  ℕ, zero, suc, ◌+◌, ◌-◌, ◌≤◌, ◌<◌, ◌≡◌, refl, sym, ap, ◌∙◌, subst, Bool, true, false, not, ◌&&◌,
  List, [], ◌∷◌, ◌++◌, Option, none, some, inl, inr, arith, leb, ltb, ◌==◌, if◌then◌else◌, length,
  take, drop, on_found, append_assoc, append-nil, length-append, length-drop, length-take,
  Bool-cases, Option-cases, some-eq, ◌⊎◌, ℕ_discrete,
}
use cursor_byok_lite.Prelude.Text.{
  Text, codes, str_eq, str_eq_iff, str_eq_refl, is_empty, has_prefix,
}
use cursor_byok_lite.ThinkTags.Tags.{
  drop-tag, free_before, has_prefix-append, has_prefix-length, index_of-le, index_of-none,
  index_of-some, length-tag, trailing_from-le,
}
use cursor_byok_lite.ThinkTags.{
  ContentPartKind, text_part, reasoning_part, thinking_completed, AnthropicContentPart,
  ThinkTagParser, tag, kind_of, index_of, trailing_from, trailing_tag_prefix_length, part,
  completed, consume_from, consume, flush, parse, new_parser,
}

-- a byte of the text or of the reasoning, or the end of the reasoning
pub data Item : Type 0 where
  byte : Bool → ℕ → Item
  done : Item

pub bytes : Bool → Text → List Item
bytes thinking [] = []
bytes thinking (c ∷ s) = byte thinking c ∷ bytes thinking s

abbrev pub items_in : ContentPartKind → Text → List Item
items_in text_part s = bytes false s
items_in reasoning_part s = bytes true s
items_in thinking_completed s = done ∷ []

-- The bytes of parts, and the ends.
unfoldable pub items_of : List AnthropicContentPart → List Item
items_of [] = []
items_of (p ∷ parts) = items_in p.kind p.text ++ items_of parts

ends : Bool → List Item
ends false = []
ends true = done ∷ []

-- What a text means, in or out of a reasoning: the number counts the bytes of a tag that are left.
pub meaning : Bool → ℕ → Text → List Item
unfolding ends
meaning thinking k [] = []
meaning thinking (suc k) (c ∷ s) = meaning thinking k s
meaning thinking zero (c ∷ s) =
    let switched = meaning (not thinking) (length (tag thinking) - 1) s in
    let rest = meaning thinking 0 s in
    if has_prefix (c ∷ s) (tag thinking) then ends thinking ++ switched else byte thinking c ∷ rest

skip_bytes :
    (thinking : Bool) (k : ℕ) (s f : Text)
    → k ≤ length s
    → meaning thinking k (s ++ f) ≡ meaning thinking 0 (drop k s ++ f)
unfolding meaning
skip_bytes thinking zero s f h = refl
skip_bytes thinking (suc k) [] f h = absurd (omega arith)
skip_bytes thinking (suc k) (c ∷ s) f h = skip_bytes thinking k s f (omega arith)

-- A text up to its tag, and behind it.
meaning-found :
    (thinking : Bool) (s f : Text) (i : ℕ)
    → index_of (tag thinking) s ≡ some i
    → meaning thinking 0 (s ++ f)
      ≡ bytes thinking (take i s)
        ++ (ends thinking ++ meaning (not thinking) 0 (drop (i + length (tag thinking)) s ++ f))
unfolding meaning bytes index_of
meaning-found thinking [] f i h = absurd (ground (arith, h))
meaning-found thinking (c ∷ s) f i h =
    let wanted = tag thinking in
    let room = index_of-le wanted (c ∷ s) i h in
    let same = has_prefix-append (c ∷ s) f wanted (omega arith) in
    let behind = λ (n : ℕ). ends thinking ++ meaning (not thinking) 0 (drop n (c ∷ s) ++ f) in
    elim (index_of-some wanted c s i h) [
      | inl (e, q) ↦
          let size : 0 + length wanted ≡ length wanted = omega arith in
          let short : length wanted - 1 ≤ length s = omega (arith, length-tag thinking) in
          let start : meaning thinking 0 (c ∷ s ++ f) ≡ behind (0 + length wanted) = rw (same ∙ e) (
            ap (λ r. ends thinking ++ r)
              (skip_bytes (not thinking) (length wanted - 1) s f short
                ∙ ap (λ r. meaning (not thinking) 0 (r ++ f))
                    (drop-tag thinking c s ∙ ap (λ n. drop n (c ∷ s)) (sym size)))) in
          subst
            (λ n.
              meaning thinking 0 (c ∷ s ++ f)
              ≡ bytes thinking (take n (c ∷ s)) ++ behind (n + length wanted))
            (sym q) start
      | inr (e, (j, g, q)) ↦
          let size : suc j + length wanted ≡ suc (j + length wanted) = omega arith in
          let start : meaning thinking 0 (c ∷ s ++ f)
              ≡ byte thinking c ∷ bytes thinking (take j s) ++ behind (suc j + length wanted) =
            rw (same ∙ e) (
              ap (λ r. byte thinking c ∷ r) (meaning-found thinking s f j g)
              ∙ ap (λ n. byte thinking c ∷ (bytes thinking (take j s) ++ behind n)) (sym size)) in
          subst
            (λ n.
              meaning thinking 0 (c ∷ s ++ f)
              ≡ bytes thinking (take n (c ∷ s)) ++ behind (n + length wanted))
            (sym q) start
    ]

meaning-free :
    (thinking : Bool) (n : ℕ) (s f : Text)
    → n ≤ length s
    → ((p : ℕ) → p < n → has_prefix (drop p s ++ f) (tag thinking) ≡ false)
    → meaning thinking 0 (s ++ f) ≡ bytes thinking (take n s) ++ meaning thinking 0 (drop n s ++ f)
unfolding meaning bytes
meaning-free thinking zero s f h free = refl
meaning-free thinking (suc n) [] f h free = absurd (omega arith)
meaning-free thinking (suc n) (c ∷ s) f h free = rw (free 0 (omega arith)) (
    ap (λ r. byte thinking c ∷ r)
      (meaning-free thinking n s f (omega arith) (λ p below. free (suc p) (omega arith))))

-- A text without a tag, up to what may be the start of one.
pub meaning-carried :
    (thinking : Bool) (s f : Text)
    → index_of (tag thinking) s ≡ none
    → (let kept = length s - trailing_tag_prefix_length s (tag thinking) in
        meaning thinking 0 (s ++ f)
        ≡ bytes thinking (take kept s) ++ meaning thinking 0 (drop kept s ++ f))
meaning-carried thinking s f h =
    meaning-free thinking (length s - trailing_tag_prefix_length s (tag thinking)) s f (omega arith)
      (λ p below. free_before (tag thinking) s f p h (length-tag thinking) below)

pub items_of-append :
    (a b : List AnthropicContentPart) → items_of (a ++ b) ≡ items_of a ++ items_of b
unfolding items_of
items_of-append [] b = refl
items_of-append (p ∷ a) b =
    ap (λ r. items_in p.kind p.text ++ r) (items_of-append a b)
    ∙ sym (append_assoc (items_in p.kind p.text) (items_of a) (items_of b))

pub items_of-part :
    (thinking : Bool) (s : Text) → items_of (part (kind_of thinking) s) ≡ bytes thinking s
unfolding items_of part bytes
items_of-part false [] = refl
items_of-part true [] = refl
items_of-part false (c ∷ s) = append-nil _
items_of-part true (c ∷ s) = append-nil _

items_of-completed : (thinking : Bool) → items_of (completed thinking) ≡ ends thinking
unfolding items_of ends
items_of-completed false = refl
items_of-completed true = refl

regroup : (a b c d : List Item) → a ++ (b ++ (c ++ d)) ≡ a ++ b ++ c ++ d
regroup a b c d = sym (append_assoc a b (c ++ d)) ∙ sym (append_assoc (a ++ b) c d)

three_parts :
    (thinking : Bool) (s : Text)
    → items_of (part (kind_of thinking) s ++ completed thinking) ≡ bytes thinking s ++ ends thinking
three_parts thinking s =
    items_of-append (part (kind_of thinking) s) (completed thinking)
    ∙ ap (λ r. r ++ items_of (completed thinking)) (items_of-part thinking s)
    ∙ ap (λ r. bytes thinking s ++ r) (items_of-completed thinking)

-- One piece: its parts, and what is carried over, mean what the input means, whatever follows.
pub consume_from-meaning :
    (fuel : ℕ) (thinking : Bool) (input f : Text)
    → length input < fuel
    → (let (parts, parser) = consume_from fuel thinking input in
        meaning thinking 0 (input ++ f)
        ≡ items_of parts ++ meaning parser.in_think 0 (parser.carry ++ f))
unfolding consume_from items_of
consume_from-meaning zero thinking input f h = absurd (omega arith)
consume_from-meaning (suc fuel) thinking [] f h = refl
consume_from-meaning (suc fuel) thinking (c ∷ s) f h =
    let input = c ∷ s in
    let wanted = tag thinking in
    elim (Option-cases (index_of wanted input)) [
      | inl e ↦
          let kept = length input - trailing_tag_prefix_length input wanted in
          rw e (
            meaning-carried thinking input f e
            ∙ ap (λ r. r ++ meaning thinking 0 (drop kept input ++ f))
                (sym (items_of-part thinking (take kept input))))
      | inr (i, e) ↦
          let rest = drop (i + length wanted) input in
          let (parts, parser) = consume_from fuel (not thinking) rest in
          let before = part (kind_of thinking) (take i input) in
          let after = meaning parser.in_think 0 (parser.carry ++ f) in
          let size : length rest < fuel =
            omega (arith, length-drop (i + length wanted) input, length-tag thinking) in
          rw e (
            meaning-found thinking input f i e
            ∙ ap (λ r. bytes thinking (take i input) ++ (ends thinking ++ r))
                (consume_from-meaning fuel (not thinking) rest f size)
            ∙ regroup (bytes thinking (take i input)) (ends thinking) (items_of parts) after
            ∙ ap (λ r. r ++ items_of parts ++ after) (sym (three_parts thinking (take i input)))
            ∙ ap (λ r. r ++ after) (sym (items_of-append (before ++ completed thinking) parts)))
    ]
