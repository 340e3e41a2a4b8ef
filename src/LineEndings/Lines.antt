-- ===== src/LineEndings/Lines.antt =====
-- Line endings against the lines of a text.
use cursor_byok_lite.Prelude.{
  ℕ, ◌+◌, ◌≡◌, refl, sym, ap, ◌∙◌, ◌↔◌, true, false, ◌&&◌, ◌||◌, List, [], ◌∷◌, ◌++◌, inl, inr,
  arith, ◌==◌, if◌then◌else◌, Bool-cases, ◌≢◌, is_nil,
}
use cursor_byok_lite.Prelude.Text.{Text, str_eq_iff}
use cursor_byok_lite.LineEndings.{
  contains_line_ending, replace_crlf, replace_cr, normalize_line_endings_to_lf, scan_from,
  normalize_edit_content_line_endings, reconcile_patch_edit_observed_content,
}

abbrev add_to_first : ℕ → List Text → List Text
add_to_first c [] = (c ∷ []) ∷ []
add_to_first c (line ∷ rest) = (c ∷ line) ∷ rest

-- The lines of a text, which `\n`, `\r\n` and `\r` separate.
pub lines_of : Text → List Text
lines_of [] = [] ∷ []
lines_of (a ∷ []) = if a == b'\r' || a == b'\n' then [] ∷ [] ∷ [] else (a ∷ []) ∷ []
lines_of (a ∷ b ∷ s) =
    let pair = [] ∷ lines_of s in
    let rest = lines_of (b ∷ s) in
    if a == b'\r' && b == b'\n'
    then pair
    else if a == b'\r' || a == b'\n'
    then [] ∷ rest
    else add_to_first a rest

-- the text with each ending written as `\n`, in one pass
one_pass : Text → Text
one_pass [] = []
one_pass (a ∷ []) = (if a == b'\r' then b'\n' else a) ∷ []
one_pass (a ∷ b ∷ s) =
    let pair = b'\n' ∷ one_pass s in
    let single = (if a == b'\r' then b'\n' else a) ∷ one_pass (b ∷ s) in
    if a == b'\r' && b == b'\n' then pair else single

replaced : (s : Text) → replace_cr (replace_crlf s) ≡ one_pass s
unfolding replace_cr replace_crlf one_pass
replaced [] = refl
replaced (a ∷ []) = refl
replaced (a ∷ b ∷ s) = elim (Bool-cases (a == b'\r' && b == b'\n')) [
  | inl e ↦ rw e (ap (λ r. b'\n' ∷ r) (replaced s))
  | inr e ↦ rw e (ap (λ r. (if a == b'\r' then b'\n' else a) ∷ r) (replaced (b ∷ s)))
]

plain : (s : Text) → contains_line_ending s ≡ false → s ≡ one_pass s
unfolding one_pass contains_line_ending
plain [] h = refl
plain (a ∷ []) h = let e : (a == b'\r') ≡ false = ground arith in rw e refl
plain (a ∷ b ∷ s) h =
    let e : (a == b'\r') ≡ false = ground arith in
    let rest : contains_line_ending (b ∷ s) ≡ false = ground arith in
    rw e (ap (λ r. a ∷ r) (plain (b ∷ s) rest))

normalized : (s : Text) → normalize_line_endings_to_lf s ≡ one_pass s
unfolding normalize_line_endings_to_lf
normalized s = elim (Bool-cases (contains_line_ending s)) [
  | inl e ↦ rw e (replaced s)
  | inr e ↦ rw e (plain s e)
]

scanned : (i : ℕ) (s : Text) → (scan_from i s).text ≡ one_pass s
unfolding scan_from one_pass
scanned i [] = refl
scanned i (a ∷ []) = refl
scanned i (a ∷ b ∷ s) = elim (Bool-cases (a == b'\r' && b == b'\n')) [
  | inl e ↦ rw e (ap (λ r. b'\n' ∷ r) (scanned (i + 2) s))
  | inr e ↦ rw e (ap (λ r. (if a == b'\r' then b'\n' else a) ∷ r) (scanned (i + 1) (b ∷ s)))
]

-- The scan that also notes offsets writes the same text as the replacements of whole endings.
pub normalize_edit_content_line_endings-normalize_line_endings_to_lf :
    (content : Text)
    → (normalize_edit_content_line_endings content).text ≡ normalize_line_endings_to_lf content
unfolding normalize_edit_content_line_endings
normalize_edit_content_line_endings-normalize_line_endings_to_lf content =
    scanned 0 content ∙ sym (normalized content)

split_newlines : Text → List Text
split_newlines [] = [] ∷ []
split_newlines (c ∷ s) =
    let rest = split_newlines s in if c == b'\n' then [] ∷ rest else add_to_first c rest

join_newlines : List Text → Text
join_newlines [] = []
join_newlines (line ∷ []) = line
join_newlines (line ∷ next_line ∷ rest) = line ++ b'\n' ∷ join_newlines (next_line ∷ rest)

split-one_pass : (s : Text) → split_newlines (one_pass s) ≡ lines_of s
unfolding split_newlines one_pass lines_of
split-one_pass [] = refl
split-one_pass (a ∷ []) = ground arith
split-one_pass (a ∷ b ∷ s) = ground (arith, split-one_pass s, split-one_pass (b ∷ s))

join_opened :
    (ls : List Text) → is_nil ls ≡ false → join_newlines ([] ∷ ls) ≡ b'\n' ∷ join_newlines ls
unfolding join_newlines
join_opened [] h = absurd (ground arith)
join_opened (line ∷ rest) h = refl

join-add_to_first :
    (a : ℕ) (ls : List Text) → join_newlines (add_to_first a ls) ≡ a ∷ join_newlines ls
unfolding join_newlines
join-add_to_first a [] = refl
join-add_to_first a (line ∷ []) = refl
join-add_to_first a (line ∷ next_line ∷ rest) = refl

some_first : (a : ℕ) (ls : List Text) → is_nil (add_to_first a ls) ≡ false
some_first a [] = refl
some_first a (line ∷ rest) = refl

some_line : (s : Text) → is_nil (lines_of s) ≡ false
unfolding lines_of
some_line [] = refl
some_line (a ∷ []) = ground arith
some_line (a ∷ b ∷ s) = ground (arith, some_first a (lines_of (b ∷ s)))

join-lines_of : (s : Text) → join_newlines (lines_of s) ≡ one_pass s
unfolding join_newlines one_pass lines_of
join-lines_of [] = refl
join-lines_of (a ∷ []) = ground arith
join-lines_of (a ∷ b ∷ s) = ground (
  arith,
  join_opened (lines_of s) (some_line s),
  join_opened (lines_of (b ∷ s)) (some_line (b ∷ s)),
  join-add_to_first a (lines_of (b ∷ s)),
  join-lines_of s,
  join-lines_of (b ∷ s),
)

-- Two texts are the same with normalized line endings just when they have the same lines.
pub normalize_line_endings_to_lf_iff :
    (s t : Text)
    → (normalize_line_endings_to_lf s ≡ normalize_line_endings_to_lf t) ↔ (lines_of s ≡ lines_of t)
normalize_line_endings_to_lf_iff s t = (
  (λ e.
      sym (split-one_pass s)
      ∙ ap split_newlines (sym (normalized s) ∙ e ∙ normalized t)
      ∙ split-one_pass t),
  (λ e.
      normalized s
      ∙ sym (join-lines_of s)
      ∙ ap join_newlines e
      ∙ join-lines_of t
      ∙ sym (normalized t)),
)

-- Content that is read back after an edit is kept in every case, it is accepted just when it has the
-- lines of the content that was expected, and it is reported as different in its line endings just
-- when it is accepted and is not the expected content byte for byte.
pub reconcile_patch_edit_observed_content_lem :
    (expected observed : Text)
    → (let result = reconcile_patch_edit_observed_content expected observed in
        (result.0 ≡ observed)
        × ((result.2 ≡ true) ↔ (lines_of expected ≡ lines_of observed))
        × ((result.1 ≡ true) ↔ ((lines_of expected ≡ lines_of observed) × (observed ≢ expected))))
unfolding reconcile_patch_edit_observed_content
reconcile_patch_edit_observed_content_lem expected observed =
    let same : observed ≡ expected → lines_of expected ≡ lines_of observed =
      λ e. ap lines_of (sym e) in
    ground (
      arith,
      str_eq_iff observed expected,
      str_eq_iff (normalize_line_endings_to_lf expected) (normalize_line_endings_to_lf observed),
      normalize_line_endings_to_lf_iff expected observed,
      same,
    )
