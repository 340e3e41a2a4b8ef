-- ===== src/ThinkTags/Split/Pieces.antt =====
-- A text that comes in pieces.
use cursor_byok_lite.Prelude.{
  ℕ, zero, suc, ◌+◌, ◌-◌, ◌≤◌, ◌<◌, ◌≡◌, refl, sym, ap, ◌∙◌, Bool, false, not, List, [], ◌∷◌, ◌++◌,
  inl, inr, arith, ltb, if◌then◌else◌, length, drop, append_assoc, append-nil, length-drop,
  Option-cases,
}
use cursor_byok_lite.Prelude.Text.{Text, has_prefix}
use cursor_byok_lite.ThinkTags.{
  ThinkTagParser, tag, index_of, trailing_tag_prefix_length, consume_from, consume, flush, parse,
  new_parser,
}
use cursor_byok_lite.ThinkTags.Split.{
  byte, bytes, items_of, meaning, consume_from-meaning, items_of-append, items_of-part,
}
use cursor_byok_lite.ThinkTags.Tags.{has_prefix-length, length-tag, trailing_from-le}

-- What is carried over is shorter than the tag that is looked for.
IsShort : ThinkTagParser → Type 0
IsShort parser = length parser.carry < length (tag parser.in_think)

trailing-le : (s wanted : Text) → trailing_tag_prefix_length s wanted ≤ length wanted - 1
unfolding trailing_tag_prefix_length
trailing-le s wanted =
    let longest = if ltb (length wanted - 1) (length s) then length wanted - 1 else length s in
    let small : longest ≤ length wanted - 1 = ground arith in
    omega (arith, small, trailing_from-le longest s wanted)

consume_from-IsShort :
    (fuel : ℕ) (thinking : Bool) (input : Text)
    → length input < fuel
    → IsShort (consume_from fuel thinking input).1
unfolding consume_from IsShort
consume_from-IsShort zero thinking input h = absurd (omega arith)
consume_from-IsShort (suc fuel) thinking [] h = length-tag thinking
consume_from-IsShort (suc fuel) thinking (c ∷ s) h =
    let input = c ∷ s in
    let wanted = tag thinking in
    elim (Option-cases (index_of wanted input)) [
      | inl e ↦
          let k = trailing_tag_prefix_length input wanted in
          let size = length-drop (length input - k) input in
          rw e (omega (arith, size, trailing-le input wanted, length-tag thinking))
      | inr (i, e) ↦
          let rest = drop (i + length wanted) input in
          let size : length rest < fuel =
            omega (arith, length-drop (i + length wanted) input, length-tag thinking) in
          rw e (consume_from-IsShort fuel (not thinking) rest size)
    ]

meaning-short :
    (thinking : Bool) (s : Text)
    → length s < length (tag thinking)
    → meaning thinking 0 s ≡ bytes thinking s
unfolding meaning bytes
meaning-short thinking [] h = refl
meaning-short thinking (c ∷ s) h =
    let no_tag : has_prefix (c ∷ s) (tag thinking) ≡ false =
      ground (arith, has_prefix-length (c ∷ s) (tag thinking)) in
    rw no_tag (ap (λ r. byte thinking c ∷ r) (meaning-short thinking s (omega arith)))

pub join : List Text → Text
join [] = []
join (piece ∷ pieces) = piece ++ join pieces

consume-meaning :
    (parser : ThinkTagParser) (piece f : Text)
    → IsShort parser
    → (let (parts, after) = consume parser piece in
        (meaning parser.in_think 0 (parser.carry ++ (piece ++ f))
          ≡ items_of parts ++ meaning after.in_think 0 (after.carry ++ f))
        × IsShort after)
unfolding consume items_of
consume-meaning parser [] f short = (refl, short)
consume-meaning parser (c ∷ s) f short =
    let input = parser.carry ++ c ∷ s in
    let enough : length input < suc (length input) = omega arith in
    (
      ap (meaning parser.in_think 0) (sym (append_assoc parser.carry (c ∷ s) f))
          ∙ consume_from-meaning (suc (length input)) parser.in_think input f enough,
      consume_from-IsShort (suc (length input)) parser.in_think input enough,
    )

parse_from :
    (pieces : List Text) (parser : ThinkTagParser)
    → IsShort parser
    → items_of (parse parser pieces) ≡ meaning parser.in_think 0 (parser.carry ++ join pieces)
unfolding parse flush join IsShort
parse_from [] parser short =
    items_of-part parser.in_think parser.carry
    ∙ sym (meaning-short parser.in_think parser.carry short)
    ∙ ap (meaning parser.in_think 0) (sym (append-nil parser.carry))
parse_from (piece ∷ pieces) parser short =
    let (parts, after) = consume parser piece in
    let (same, short_after) = consume-meaning parser piece (join pieces) short in
    items_of-append parts (parse after pieces)
    ∙ ap (λ r. items_of parts ++ r) (parse_from pieces after short_after)
    ∙ sym same

-- The parts of a text, however it is cut into pieces, say what the whole text says: the bytes in front
-- of a tag in order, each as text or as reasoning, the tags not, and an end for each reasoning that is
-- closed. So the pieces do not matter, and no byte is lost or held back.
pub parse-meaning :
    (pieces : List Text) → items_of (parse new_parser pieces) ≡ meaning false 0 (join pieces)
unfolding IsShort
parse-meaning pieces = parse_from pieces new_parser (length-tag false)
