-- ===== src/ThinkTags/Tags.antt =====
-- Where a tag is found, and what of a text may be the start of one.
use cursor_byok_lite.Prelude.{
  ℕ, zero, suc, ◌+◌, ◌-◌, ◌≤◌, ◌<◌, ◌≡◌, refl, sym, ap, ◌∙◌, subst, Bool, true, false, ◌&&◌, [],
  ◌∷◌, ◌++◌, none, some, inl, inr, arith, leb, ltb, ◌==◌, if◌then◌else◌, length, take, drop,
  length-drop, Bool-cases, Option-cases, some-eq, ◌⊎◌, ℕ_discrete,
}
use cursor_byok_lite.Prelude.Text.{Text, str_eq, str_eq_iff, has_prefix}
use cursor_byok_lite.ThinkTags.{tag, index_of, trailing_from, trailing_tag_prefix_length}

pub has_prefix-length : (s wanted : Text) → has_prefix s wanted ≡ true → length wanted ≤ length s
unfolding has_prefix
has_prefix-length s [] h = omega arith
has_prefix-length [] (b ∷ wanted) h = absurd (ground (arith, h))
has_prefix-length (a ∷ s) (b ∷ wanted) h =
    let rest : has_prefix s wanted ≡ true = ground (arith, h) in
    omega (arith, has_prefix-length s wanted rest)

pub has_prefix-append :
    (s f wanted : Text)
    → length wanted ≤ length s
    → has_prefix (s ++ f) wanted ≡ has_prefix s wanted
unfolding has_prefix
has_prefix-append [] [] [] h = refl
has_prefix-append [] (c ∷ f) [] h = refl
has_prefix-append [] f (b ∷ wanted) h = absurd (omega arith)
has_prefix-append (a ∷ s) f [] h = refl
has_prefix-append (a ∷ s) f (b ∷ wanted) h =
    ap (λ r. a == b && r) (has_prefix-append s f wanted (omega arith))

-- Where an index comes from.
pub index_of-some :
    (wanted : Text) (c : ℕ) (s : Text) (i : ℕ)
    → index_of wanted (c ∷ s) ≡ some i
    → ((has_prefix (c ∷ s) wanted ≡ true) × (i ≡ 0))
      ⊎ ((has_prefix (c ∷ s) wanted ≡ false)
          × ((j : ℕ) × (index_of wanted s ≡ some j) × (i ≡ suc j)))
unfolding index_of
index_of-some wanted c s i h = elim (Bool-cases (has_prefix (c ∷ s) wanted)) [
  | inl e ↦ let found : some 0 ≡ some i = ground (arith, e, h) in inl (e, sym (some-eq found))
  | inr e ↦ elim (Option-cases (index_of wanted s)) [
    | inl f ↦ absurd (ground (arith, e, f, h))
    | inr (j, f) ↦
        let found : some (suc j) ≡ some i = ground (arith, e, f, h) in
        inr (e, (j, f, sym (some-eq found)))
  ]
]

pub index_of-none :
    (wanted : Text) (c : ℕ) (s : Text)
    → index_of wanted (c ∷ s) ≡ none
    → (has_prefix (c ∷ s) wanted ≡ false) × (index_of wanted s ≡ none)
unfolding index_of
index_of-none wanted c s h = elim (Bool-cases (has_prefix (c ∷ s) wanted)) [
  | inl e ↦ absurd (ground (arith, e, h))
  | inr e ↦ elim (Option-cases (index_of wanted s)) [
    | inl f ↦ (e, f)
    | inr (j, f) ↦ absurd (ground (arith, e, f, h))
  ]
]

pub index_of-le :
    (wanted s : Text) (i : ℕ) → index_of wanted s ≡ some i → i + length wanted ≤ length s
unfolding index_of
index_of-le wanted [] i h = absurd (ground (arith, h))
index_of-le wanted (c ∷ s) i h = elim (index_of-some wanted c s i h) [
  | inl (e, zero_index) ↦ omega (arith, has_prefix-length (c ∷ s) wanted e)
  | inr (e, (j, f, q)) ↦ omega (arith, index_of-le wanted s j f)
]

pub length-tag : (thinking : Bool) → 0 < length (tag thinking)
length-tag false = omega arith
length-tag true = omega arith

pub drop-tag :
    (thinking : Bool) (c : ℕ) (s : Text)
    → drop (length (tag thinking) - 1) s ≡ drop (length (tag thinking)) (c ∷ s)
drop-tag false c s = refl
drop-tag true c s = refl

no_tag_at :
    (wanted s : Text) (p : ℕ)
    → index_of wanted s ≡ none
    → p < length s
    → has_prefix (drop p s) wanted ≡ false
no_tag_at wanted [] p h below = absurd (omega arith)
no_tag_at wanted (c ∷ s) zero h below = (index_of-none wanted c s h).0
no_tag_at wanted (c ∷ s) (suc p) h below =
    no_tag_at wanted s p (index_of-none wanted c s h).1 (omega arith)

-- A text that a tag goes beyond is the tag's start.
has_prefix-short :
    (r f wanted : Text)
    → length r < length wanted
    → has_prefix (r ++ f) wanted ≡ true
    → r ≡ take (length r) wanted
unfolding has_prefix
has_prefix-short [] f wanted h e = refl
has_prefix-short (a ∷ r) f [] h e = absurd (omega arith)
has_prefix-short (a ∷ r) f (b ∷ wanted) h e =
    let same : a ≡ b = ground (arith, e) in
    let rest : has_prefix (r ++ f) wanted ≡ true = ground (arith, e) in
    ap (λ x. x ∷ r) same ∙ ap (λ t. b ∷ t) (has_prefix-short r f wanted (omega arith) rest)

pub trailing_from-le : (m : ℕ) (s wanted : Text) → trailing_from m s wanted ≤ m
unfolding trailing_from
trailing_from-le zero s wanted = omega arith
trailing_from-le (suc m) s wanted = ground (arith, trailing_from-le m s wanted)

trailing_from-longest :
    (m : ℕ) (s wanted : Text) (j : ℕ)
    → j ≤ m
    → drop (length s - j) s ≡ take j wanted
    → j ≤ trailing_from m s wanted
unfolding trailing_from
trailing_from-longest zero s wanted j h e = omega arith
trailing_from-longest (suc m) s wanted j h e =
    elim (Bool-cases (str_eq (drop (length s - suc m) s) (take (suc m) wanted))) [
      | inl f ↦ rw f h
      | inr f ↦ elim (ℕ_discrete j (suc m)) [
        | yes q ↦
            let ends_so : str_eq (drop (length s - suc m) s) (take (suc m) wanted) ≡ true =
              (str_eq_iff _ _).1 (subst (λ n. drop (length s - n) s ≡ take n wanted) q e) in
            absurd (ground (arith, f, ends_so))
        | no q ↦ rw f (trailing_from-longest m s wanted j (ground arith) e)
      ]
    ]

pub free_before :
    (wanted s f : Text) (p : ℕ)
    → index_of wanted s ≡ none
    → 0 < length wanted
    → p < length s - trailing_tag_prefix_length s wanted
    → has_prefix (drop p s ++ f) wanted ≡ false
unfolding trailing_tag_prefix_length
free_before wanted s f p h some_tag below =
    let r = drop p s in
    let size = length-drop p s in
    let longest = if ltb (length wanted - 1) (length s) then length wanted - 1 else length s in
    elim (Bool-cases (has_prefix (r ++ f) wanted)) [
      | inr e ↦ e
      | inl e ↦ elim (Bool-cases (leb (length wanted) (length r))) [
        | inl long ↦
            let whole = has_prefix-append r f wanted (ground (arith, long)) in
            absurd (ground (arith, e, whole, no_tag_at wanted s p h (omega (arith, below))))
        | inr short ↦
            let start = has_prefix-short r f wanted (ground (arith, short)) e in
            let place : length s - length r ≡ p = omega (arith, size, below) in
            let fits : length r ≤ longest = ground (arith, short, size) in
            let k =
              trailing_from-longest longest s wanted (length r) fits
                (ap (λ n. drop n s) place ∙ start) in
            absurd (omega (arith, k, size, below))
      ]
    ]
