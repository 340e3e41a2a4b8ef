-- ===== src/LineEndings.antt =====
-- internal/backend/forwarder/edit_result_helpers.go and patch_edit_tool.go: line endings. A file that
-- is read back after an edit may differ from what was written in its line endings only, and is then
-- taken for the same; `\n`, `\r\n` and `\r` end a line.
pub mod Lines
use cursor_byok_lite.Prelude.{
  ℕ, zero, suc, ◌+◌, ◌≡◌, refl, Bool, true, false, not, ◌&&◌, ◌||◌, List, [], ◌∷◌, ◌++◌, ◌==◌,
  if◌then◌else◌,
}
use cursor_byok_lite.Prelude.Text.{Text, codes, str_eq, is_empty, trim_space}

-- `strings.ContainsAny(value, "\r\n")`
unfoldable pub contains_line_ending : Text → Bool
contains_line_ending [] = false
contains_line_ending (c ∷ s) = c == b'\r' || c == b'\n' || contains_line_ending s

-- `strings.ReplaceAll(value, "\r\n", "\n")`
unfoldable pub replace_crlf : Text → Text
replace_crlf [] = []
replace_crlf (a ∷ []) = a ∷ []
replace_crlf (a ∷ b ∷ s) =
    let pair = b'\n' ∷ replace_crlf s in
    let single = a ∷ replace_crlf (b ∷ s) in if a == b'\r' && b == b'\n' then pair else single

-- `strings.ReplaceAll(value, "\r", "\n")`
unfoldable pub replace_cr : Text → Text
replace_cr [] = []
replace_cr (c ∷ s) = (if c == b'\r' then b'\n' else c) ∷ replace_cr s

unfoldable pub normalize_line_endings_to_lf : Text → Text
normalize_line_endings_to_lf value =
    if not (contains_line_ending value) then value else replace_cr (replace_crlf value)

pub record NormalizedEditContent : Type 0 where
  pub text : Text
  pub original_offsets : List ℕ

-- one step of the scan: a byte is written, and the index behind what it stands for is noted
abbrev noted : ℕ → ℕ → NormalizedEditContent → NormalizedEditContent
noted byte index rest = record {
  text = byte ∷ rest.text;
  original_offsets = index ∷ rest.original_offsets;
}

-- the loop of `normalizeEditContentLineEndings` from an index on
unfoldable pub scan_from : ℕ → Text → NormalizedEditContent
scan_from index [] = record { text = []; original_offsets = [] }
scan_from index (a ∷ []) =
    noted (if a == b'\r' then b'\n' else a) (index + 1)
      (record { text = []; original_offsets = [] })
scan_from index (a ∷ b ∷ s) =
    let pair = noted b'\n' (index + 2) (scan_from (index + 2) s) in
    let single =
      noted (if a == b'\r' then b'\n' else a) (index + 1) (scan_from (index + 1) (b ∷ s)) in
    if a == b'\r' && b == b'\n' then pair else single

unfoldable pub normalize_edit_content_line_endings : Text → NormalizedEditContent
normalize_edit_content_line_endings content =
    let rest = scan_from 0 content in
    record { text = rest.text; original_offsets = 0 ∷ rest.original_offsets }

-- the content to keep, whether only line endings differ, and whether it is accepted
unfoldable pub reconcile_patch_edit_observed_content : Text → Text → Text × Bool × Bool
reconcile_patch_edit_observed_content expected observed =
    let line_ending_equivalent =
      str_eq (normalize_line_endings_to_lf expected) (normalize_line_endings_to_lf observed) in
    if str_eq observed expected
    then (observed, false, true)
    else if line_ending_equivalent
    then (observed, true, true)
    else (observed, false, false)

unfoldable pub append_patch_edit_message : Text → Text → Text
append_patch_edit_message existing addition =
    let left = trim_space existing in
    let right = trim_space addition in
    if is_empty left then right else if is_empty right then left else left ++ codes "; " ++ right

scan_test :
    normalize_edit_content_line_endings (codes "a\r\nb\rc")
    ≡ record { text = codes "a\nb\nc"; original_offsets = 0 ∷ 1 ∷ 3 ∷ 4 ∷ 5 ∷ 6 ∷ [] }
unfolding normalize_edit_content_line_endings scan_from
scan_test = refl

reconcile_test :
    reconcile_patch_edit_observed_content (codes "a\nb") (codes "a\r\nb")
    ≡ (codes "a\r\nb", true, true)
unfolding reconcile_patch_edit_observed_content str_eq normalize_line_endings_to_lf
    contains_line_ending replace_crlf replace_cr
reconcile_test = refl
