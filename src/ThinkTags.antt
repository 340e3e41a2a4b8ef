-- ===== src/ThinkTags.antt =====
-- internal/backend/agent/model/anthropic.go: reasoning that a model writes into its text between
-- <think> and </think> is split off while the text streams in; openai.go has a copy of the parser. A
-- text that may be the start of a tag is carried over to the next piece. The loop has fuel, one more
-- than the input has bytes: each round takes a whole tag.
pub mod Tags
pub mod Split
use cursor_byok_lite.Prelude.{
  ℕ, zero, suc, ◌+◌, ◌-◌, ◌≡◌, refl, Bool, true, false, not, List, [], ◌∷◌, ◌++◌, Option, none,
  some, leb, ltb, if◌then◌else◌, length, take, drop, on_found,
}
use cursor_byok_lite.Prelude.Text.{Text, codes, str_eq, is_empty, has_prefix}

pub data ContentPartKind : Type 0 where
  text_part : ContentPartKind
  reasoning_part : ContentPartKind
  thinking_completed : ContentPartKind

pub record AnthropicContentPart : Type 0 where
  pub kind : ContentPartKind
  pub text : Text

pub record ThinkTagParser : Type 0 where
  pub carry : Text
  pub in_think : Bool

-- the tag that ends the text or the reasoning
abbrev pub tag : Bool → Text
tag false = codes "<think>"
tag true = codes "</think>"

abbrev pub kind_of : Bool → ContentPartKind
kind_of false = text_part
kind_of true = reasoning_part

-- `strings.Index` for a tag
unfoldable pub index_of : Text → Text → Option ℕ
index_of wanted [] = none
index_of wanted (c ∷ s) =
    let rest = on_found (index_of wanted s) none (λ n. some (suc n)) in
    if has_prefix (c ∷ s) wanted then some 0 else rest

-- the loop of `anthropicTrailingTagPrefixLength` from a size down
unfoldable pub trailing_from : ℕ → Text → Text → ℕ
trailing_from zero s wanted = 0
trailing_from (suc size) s wanted =
    let rest = trailing_from size s wanted in
    if str_eq (drop (length s - suc size) s) (take (suc size) wanted) then suc size else rest

unfoldable pub trailing_tag_prefix_length : Text → Text → ℕ
trailing_tag_prefix_length s wanted =
    let longest = if ltb (length wanted - 1) (length s) then length wanted - 1 else length s in
    trailing_from longest s wanted

-- a part, if it has text
unfoldable pub part : ContentPartKind → Text → List AnthropicContentPart
part kind s = if is_empty s then [] else record { kind = kind; text = s } ∷ []

abbrev pub completed : Bool → List AnthropicContentPart
completed false = []
completed true = record { kind = thinking_completed; text = [] } ∷ []

-- the loop of `Consume`: the parts, and the parser behind them
unfoldable pub consume_from : ℕ → Bool → Text → List AnthropicContentPart × ThinkTagParser
consume_from zero in_think input = ([], record { carry = input; in_think = in_think })
consume_from (suc fuel) in_think [] = ([], record { carry = []; in_think = in_think })
consume_from (suc fuel) in_think (c ∷ s) =
    let input = c ∷ s in
    let wanted = tag in_think in
    let kept = length input - trailing_tag_prefix_length input wanted in
    on_found (index_of wanted input)
      (
        part (kind_of in_think) (take kept input),
        record { carry = drop kept input; in_think = in_think },
      )
      λ i.
        let (parts, parser) = consume_from fuel (not in_think) (drop (i + length wanted) input) in
        (part (kind_of in_think) (take i input) ++ completed in_think ++ parts, parser)

unfoldable pub consume : ThinkTagParser → Text → List AnthropicContentPart × ThinkTagParser
consume parser text =
    let input = parser.carry ++ text in
    if is_empty text then ([], parser) else consume_from (suc (length input)) parser.in_think input

unfoldable pub flush : ThinkTagParser → List AnthropicContentPart × ThinkTagParser
flush parser = (part (kind_of parser.in_think) parser.carry, record parser { carry = [] })

-- The parts of a text that comes in pieces, which end with a flush.
unfoldable pub parse : ThinkTagParser → List Text → List AnthropicContentPart
parse parser [] = (flush parser).0
parse parser (piece ∷ pieces) =
    let (parts, after) = consume parser piece in parts ++ parse after pieces

abbrev pub new_parser : ThinkTagParser
new_parser = record { carry = []; in_think = false }

split_test :
    parse new_parser (codes "a<th" ∷ codes "ink>b</" ∷ codes "think" ∷ codes ">c<" ∷ [])
    ≡ record { kind = text_part; text = codes "a" }
      ∷ record { kind = reasoning_part; text = codes "b" }
      ∷ record { kind = thinking_completed; text = [] }
      ∷ record { kind = text_part; text = codes "c" }
      ∷ record { kind = text_part; text = codes "<" }
      ∷ []
unfolding parse consume consume_from flush part index_of trailing_tag_prefix_length trailing_from
    has_prefix str_eq
split_test = refl
