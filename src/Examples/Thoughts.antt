-- ===== src/Examples/Thoughts.antt =====
-- anthropic.go: tags that are cut by the pieces of a stream.
use cursor_byok_lite.Prelude.{◌≡◌, false, List, [], ◌∷◌}
use cursor_byok_lite.Prelude.Text.{Text, codes}
use cursor_byok_lite.ThinkTags.{new_parser, parse}
use cursor_byok_lite.ThinkTags.Split.{items_of, meaning}
use cursor_byok_lite.ThinkTags.Split.Pieces.{join, parse-meaning}

abbrev pieces : List Text
pieces = codes "a<th" ∷ codes "ink>b</think" ∷ codes ">c<" ∷ []

parse-meaning_example : items_of (parse new_parser pieces) ≡ meaning false 0 (join pieces)
parse-meaning_example = parse-meaning pieces
