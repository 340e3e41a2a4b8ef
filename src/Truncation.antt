-- ===== src/Truncation.antt =====
-- internal/backend/forwarder/tool_result_replay_truncation.go: tool results that are too long for the
-- replay to the model are cut at a character and get a notice. A limit is an `int`; where it is above
-- 0 the loops have it as a number. The loops that write the notice run on fuel, one round per byte of
-- the text; one round is enough, as the number in the notice never gets longer.
pub mod Characters
pub mod Notices
use cursor_byok_lite.Prelude.{
  ℕ, zero, suc, ◌+◌, ◌-◌, ◌*◌, ◌/◌, ◌≡◌, refl, Bool, true, false, not, ◌&&◌, ◌||◌, List, [], ◌∷◌,
  ◌++◌, Option, none, some, reverse, leb, ltb, ◌==◌, if◌then◌else◌, length, take, drop, on_found,
}
use cursor_byok_lite.Prelude.Int.{ℤ, pos, negsuc, leb_ℤ, pos_part}
use cursor_byok_lite.Prelude.Text.{Text, codes, str_eq, trim_space}
use cursor_byok_lite.Prelude.Decimal.{format_nat}

-- the bytes that follow the first byte of a character: their number and the range of the first of them
unfoldable pub lead_byte : ℕ → Option (ℕ × ℕ × ℕ)
lead_byte c =
    if ltb c 0x80
    then some (0, 0x80, 0xBF)
    else if ltb c 0xC2
    then none
    else if ltb c 0xE0
    then some (1, 0x80, 0xBF)
    else if c == 0xE0
    then some (2, 0xA0, 0xBF)
    else if c == 0xED
    then some (2, 0x80, 0x9F)
    else if ltb c 0xF0
    then some (2, 0x80, 0xBF)
    else if c == 0xF0
    then some (3, 0x90, 0xBF)
    else if ltb c 0xF4
    then some (3, 0x80, 0xBF)
    else if c == 0xF4
    then some (3, 0x80, 0x8F)
    else none

-- `utf8.ValidString` where a character still needs some bytes, of which the next is in a range
unfoldable pub valid_from : ℕ → ℕ → ℕ → Text → Bool
valid_from zero low high [] = true
valid_from (suc k) low high [] = false
valid_from (suc k) low high (c ∷ s) = leb low c && leb c high && valid_from k 0x80 0xBF s
valid_from zero low high (c ∷ s) =
    on_found (lead_byte c) false (λ next. valid_from next.0 next.1 next.2 s)

-- `utf8.ValidString`
abbrev pub valid_string : Text → Bool
valid_string s = valid_from 0 0x80 0xBF s

-- the loop of `truncateProjectedUTF8` on the prefix of a length
unfoldable pub shorten : Text → ℕ → Text
shorten text zero = []
shorten text (suc k) =
    let rest = shorten text k in
    if valid_string (take (suc k) text) then take (suc k) text else rest

unfoldable pub truncate_projected_utf8 : Text → ℤ → Text
truncate_projected_utf8 text limit =
    if leb_ℤ limit (pos 0)
    then []
    else if leb (length text) (pos_part limit)
    then text
    else shorten text (pos_part limit)

-- the loop of `truncateProjectedUTF8Suffix` on the suffix from an index on
unfoldable pub shorten_start : Text → Text
shorten_start [] = []
shorten_start (c ∷ s) = let rest = shorten_start s in if valid_string (c ∷ s) then c ∷ s else rest

unfoldable pub truncate_projected_utf8_suffix : Text → ℤ → Text
truncate_projected_utf8_suffix text limit =
    if leb_ℤ limit (pos 0)
    then []
    else if leb (length text) (pos_part limit)
    then text
    else shorten_start (drop (length text - pos_part limit) text)

-- backwards, a text without the newlines that begin it
unfoldable pub skip_newlines : Text → Text
skip_newlines [] = []
skip_newlines (c ∷ s) = let rest = skip_newlines s in if c == b'\n' then rest else c ∷ s

-- `strings.TrimRight(s, "\n")`
unfoldable pub trim_right_newlines : Text → Text
trim_right_newlines s = reverse (skip_newlines (reverse s))

unfoldable pub replay_notice : Text → ℕ → ℕ → ℕ → Text
replay_notice tool_name limit kept original =
    codes "\n\n[truncated: "
    ++ tool_name
    ++ codes " result exceeded "
    ++ format_nat limit
    ++ codes " bytes; showing "
    ++ format_nat kept
    ++ codes " of "
    ++ format_nat original
    ++ codes " bytes]"

-- `none` only when the fuel is used up
unfoldable pub truncate_rounds : ℕ → Text → Text → ℕ → Text → Option Text
truncate_rounds zero tool_name text limit notice = none
truncate_rounds (suc fuel) tool_name text limit notice =
    let kept = truncate_projected_utf8 text (pos (limit - length notice)) in
    let next_notice = replay_notice tool_name limit (length kept) (length text) in
    let output = trim_right_newlines kept ++ next_notice in
    let again = truncate_rounds fuel tool_name text limit next_notice in
    if leb limit (length notice)
    then some (truncate_projected_utf8 text (pos limit))
    else if leb (length output) limit || str_eq next_notice notice
    then some output
    else again

unfoldable pub truncate_projected_replay_text : Text → Text → ℤ → Option Text
truncate_projected_replay_text tool_name text limit =
    let n = pos_part limit in
    if leb_ℤ limit (pos 0) || leb (length text) n
    then some (trim_space text)
    else truncate_rounds (length text) tool_name text n (replay_notice tool_name n n (length text))

unfoldable pub middle_notice : Text → ℕ → ℕ → ℕ → Text
middle_notice tool_name limit kept original =
    codes "\n\n[truncated: "
    ++ tool_name
    ++ codes " result exceeded "
    ++ format_nat limit
    ++ codes " bytes; omitted middle; showing "
    ++ format_nat kept
    ++ codes " of "
    ++ format_nat original
    ++ codes " bytes]\n\n"

unfoldable pub truncate_middle_rounds : ℕ → Text → Text → ℕ → Text → Option Text
truncate_middle_rounds zero tool_name text limit notice = none
truncate_middle_rounds (suc fuel) tool_name text limit notice =
    let keep = limit - length notice in
    let head_limit = keep / 2 in
    let tail_limit = keep - head_limit in
    let head = truncate_projected_utf8 text (pos head_limit) in
    let tail = truncate_projected_utf8_suffix text (pos tail_limit) in
    let next_notice = middle_notice tool_name limit (length head + length tail) (length text) in
    let output = head ++ next_notice ++ tail in
    let again = truncate_middle_rounds fuel tool_name text limit next_notice in
    if leb limit (length notice)
    then some (truncate_projected_utf8 text (pos limit))
    else if leb (length output) limit || str_eq next_notice notice
    then some output
    else again

unfoldable pub truncate_projected_replay_text_middle : Text → Text → ℤ → Option Text
truncate_projected_replay_text_middle tool_name text limit =
    let n = pos_part limit in
    if leb_ℤ limit (pos 0)
    then some []
    else if leb (length text) n
    then some text
    else truncate_middle_rounds (length text) tool_name text n
        (middle_notice tool_name n n (length text))

-- The limit of a tool by its name, `none` where there is none.
unfoldable pub projected_tool_replay_limit : Text → Option ℕ
projected_tool_replay_limit tool_name =
    let name = trim_space tool_name in
    if str_eq name (codes "GenerateImage")
    then some (16 * 1024)
    else if str_eq name (codes "Read")
    then some (64 * 1024)
    else if str_eq name (codes "Shell")
    then some (128 * 1024)
    else if str_eq name (codes "Grep") || str_eq name (codes "Glob")
    then some (32 * 1024)
    else if str_eq name (codes "PatchEdit")
        || str_eq name (codes "PatchEditLines")
        || str_eq name (codes "PatchEditSpan")
    then some (4 * 1024)
    else if str_eq name (codes "Edit")
        || str_eq name (codes "Write")
        || str_eq name (codes "WebFetch")
    then some (32 * 1024)
    else if str_eq name (codes "WebSearch")
    then some (16 * 1024)
    else if str_eq name (codes "CallMcpTool")
        || str_eq name (codes "FetchMcpResource")
        || str_eq name (codes "ListMcpResources")
    then some (32 * 1024)
    else none

cut_test : truncate_projected_utf8 (0xC3 ∷ 0xA9 ∷ 0xC3 ∷ 0xA9 ∷ []) (pos 3) ≡ 0xC3 ∷ 0xA9 ∷ []
unfolding truncate_projected_utf8 shorten valid_from lead_byte
cut_test = refl
