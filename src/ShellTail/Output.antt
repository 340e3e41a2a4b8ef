-- ===== src/ShellTail/Output.antt =====
-- The buffer against the whole output of the stream.
use cursor_byok_lite.Prelude.{
  ℕ, zero, suc, ◌+◌, ◌-◌, ◌≤◌, ◌<◌, ◌≡◌, refl, sym, ap, ◌∙◌, Bool, true, false, [], ◌∷◌, ◌++◌, inl,
  inr, arith, leb, ltb, ◌==◌, if◌then◌else◌, length, drop, take, Bool-cases, length-append,
  length-drop, drop-drop, drop_all, append-nil, pair-eq, triple-eq, drop-append, take_all,
}
use cursor_byok_lite.Prelude.Int.{
  ℤ, pos, negsuc, pos_part, ltb_ℤ, add64, sub64, add64-pos, sub64-pos, i64_max,
}
use cursor_byok_lite.Prelude.Text.{Text}
use cursor_byok_lite.ShellTail.{
  shell_output_tail_limit, append_bounded_shell_tail, shell_output_since, tail_of,
}

drop-append-left : (n : ℕ) (s t : Text) → n ≤ length s → drop n (s ++ t) ≡ drop n s ++ t
drop-append-left zero s t h = refl
drop-append-left (suc n) [] t h = absurd (omega arith)
drop-append-left (suc n) (c ∷ s) t h = drop-append-left n s t (omega arith)

drop-append-right : (n : ℕ) (s t : Text) → drop (length s + n) (s ++ t) ≡ drop n t
drop-append-right n [] t = ap (λ k. drop k t) (let e : 0 + n ≡ n = omega arith in e)
drop-append-right n (c ∷ s) t =
    ap (λ k. drop k (c ∷ s ++ t))
      (let e : suc (length s) + n ≡ suc (length s + n) = omega arith in e)
    ∙ drop-append-right n s t

-- Dropping from the tail of an output is dropping from the output.
drop-tail :
    (l : ℕ) (s t : Text)
    → drop (length (drop (length s - l) s ++ t) - l) (drop (length s - l) s ++ t)
      ≡ drop (length (s ++ t) - l) (s ++ t)
drop-tail l s t =
    let e = length s - l in
    let kept = drop-append-left e s t (omega arith) in
    ap (λ r. drop (length r - l) r) (sym kept)
    ∙ drop-drop (length (drop e (s ++ t)) - l) e (s ++ t)
    ∙ ap (λ k. drop k (s ++ t))
        (let q : e + (length (drop e (s ++ t)) - l) ≡ length (s ++ t) - l =
            omega (arith, length-drop e (s ++ t), length-append s t) in
          q)

length-tail : (s : Text) → length (tail_of s).0 ≡ length s - (length s - shell_output_tail_limit)
length-tail s = length-drop (length s - shell_output_tail_limit) s

-- The three ways to append, each with the value the source gives.
append-large :
    (s v : Text)
    → shell_output_tail_limit ≤ length v
    → length (s ++ v) ≤ i64_max
    → (
      drop (length v - shell_output_tail_limit) v,
      add64 (tail_of s).1 (pos (length (tail_of s).0 + length v - shell_output_tail_limit)),
    )
      ≡ tail_of (s ++ v)
append-large s v large small =
    let l = shell_output_tail_limit in
    let gone = length s - l in
    let more = length (tail_of s).0 + length v - l in
    pair-eq
      (sym (drop-append-right (length v - l) s v)
        ∙ ap (λ k. drop k (s ++ v))
            (let q : length s + (length v - l) ≡ length (s ++ v) - l =
                omega (arith, length-append s v) in
              q))
      (add64-pos gone more (omega (arith, length-append s v, length-tail s))
        ∙ ap pos (
            let q : gone + more ≡ length (s ++ v) - l =
              omega (arith, length-append s v, length-tail s) in
            q))

append-fitting :
    (s v : Text)
    → length ((tail_of s).0 ++ v) ≤ shell_output_tail_limit
    → 0 < length v
    → ((tail_of s).0 ++ v, (tail_of s).1) ≡ tail_of (s ++ v)
append-fitting s v fits some_bytes =
    let l = shell_output_tail_limit in
    let gone = length s - l in
    let whole : gone ≡ length (s ++ v) - l =
      omega (arith, length-append s v, length-tail s, length-append (tail_of s).0 v) in
    pair-eq (sym (drop-append-left gone s v (omega arith)) ∙ ap (λ k. drop k (s ++ v)) whole)
      (ap pos whole)

append-overfull :
    (s v : Text)
    → shell_output_tail_limit < length ((tail_of s).0 ++ v)
    → length (s ++ v) ≤ i64_max
    → (
      take shell_output_tail_limit
          (drop (length ((tail_of s).0 ++ v) - shell_output_tail_limit) ((tail_of s).0 ++ v)),
      add64 (tail_of s).1 (pos (length ((tail_of s).0 ++ v) - shell_output_tail_limit)),
    )
      ≡ tail_of (s ++ v)
append-overfull s v over small =
    let l = shell_output_tail_limit in
    let gone = length s - l in
    let both = (tail_of s).0 ++ v in
    let excess = length both - l in
    pair-eq
      (take_all l (drop excess both) (omega (arith, length-drop excess both)) ∙ drop-tail l s v)
      (add64-pos gone excess
          (omega (arith, length-append s v, length-tail s, length-append (tail_of s).0 v))
        ∙ ap pos (
            let q : gone + excess ≡ length (s ++ v) - l =
              omega (arith, length-append s v, length-tail s, length-append (tail_of s).0 v) in
            q))

append-empty : (s v : Text) → (length v == 0) ≡ true → s ≡ s ++ v
append-empty s [] e = sym (append-nil s)
append-empty s (c ∷ v) e = absurd (ground arith)

-- Appending a value to the buffer gives the buffer that the longer output leaves when it is written
-- in one piece, as long as the output has fewer than 2^63 bytes.
pub append_bounded_shell_tail-tail_of :
    (output value : Text)
    → length (output ++ value) ≤ i64_max
    → append_bounded_shell_tail (tail_of output).0 (tail_of output).1 value
      ≡ tail_of (output ++ value)
unfolding append_bounded_shell_tail
append_bounded_shell_tail-tail_of s v small = elim (Bool-cases (length v == 0)) [
  | inl e ↦ rw e (ap tail_of (append-empty s v e))
  | inr e ↦ elim (Bool-cases (leb shell_output_tail_limit (length v))) [
    | inl f ↦ rw (e, f) (append-large s v (ground arith) small)
    | inr f ↦ elim (Bool-cases (leb (length ((tail_of s).0 ++ v)) shell_output_tail_limit)) [
      | inl g ↦ rw (e, f, g) (append-fitting s v (ground arith) (ground arith))
      | inr g ↦ rw (e, f, g) (append-overfull s v (ground arith) small)
    ]
  ]
]

abbrev pub later : ℕ → ℕ → ℕ
later a b = if ltb a b then b else a

distance : (a d : ℕ) → d ≤ a → a ≤ i64_max → pos_part (sub64 (pos a) (pos d)) ≡ a - d
distance a d h k = ap pos_part (sub64-pos a d h k)

since_buffer :
    (current : Text) (d o : ℕ)
    → d + length current ≤ i64_max
    → shell_output_since current (pos d) (pos o)
      ≡ (drop (o - d) current, pos (d + length current), ltb o d)
unfolding shell_output_since
since_buffer current d o small =
    let nd : ltb_ℤ (pos d) (pos 0) ≡ false = ground arith in
    let no : ltb_ℤ (pos o) (pos 0) ≡ false = ground arith in
    let sum = add64-pos d (length current) small in
    let end = d + length current in
    let past : ltb_ℤ (pos end) (pos o) ≡ true → drop (end - d) current ≡ drop (o - d) current = λ f.
      drop_all (end - d) current (omega arith) ∙ sym (drop_all (o - d) current (ground arith)) in
    let found : (a : ℕ) (lost : Bool)
        → drop (a - d) current ≡ drop (o - d) current
        → lost ≡ ltb o d
        → d ≤ a
        → a ≤ i64_max
        → ◌≡◌ {A = Text × ℤ × Bool} (drop (pos_part (sub64 (pos a) (pos d))) current, pos end, lost)
            (drop (o - d) current, pos end, ltb o d) =
      λ a lost s l h k. triple-eq (ap (λ n. drop n current) (distance a d h k) ∙ s) refl l in
    elim (Bool-cases (ltb_ℤ (pos o) (pos d))) [
      | inl e ↦ elim (Bool-cases (ltb_ℤ (pos (d + length current)) (pos d))) [
        | inl f ↦ absurd (ground arith)
        | inr f ↦
            rw (shell_output_since, nd, no, e, sum, f)
              (found d true (let z : d - d ≡ o - d = ground arith in ap (λ k. drop k current) z)
                (ground arith) (omega arith) (omega arith))
      ]
      | inr e ↦ elim (Bool-cases (ltb_ℤ (pos (d + length current)) (pos o))) [
        | inl f ↦
            rw (shell_output_since, nd, no, e, sum, f)
              (found (d + length current) false (past f) (ground arith) (omega arith) (omega arith))
        | inr f ↦
            rw (shell_output_since, nd, no, e, sum, f)
              (found o false refl (ground arith) (ground arith) (ground arith))
      ]
    ]

since_tail :
    (output : Text) (o : ℕ)
    → length output ≤ i64_max
    → shell_output_since (tail_of output).0 (tail_of output).1 (pos o) ≡ (
      drop (later o (length output - shell_output_tail_limit)) output,
      pos (length output),
      ltb o (length output - shell_output_tail_limit),
    )
since_tail output o small =
    let gone = length output - shell_output_tail_limit in
    let whole : gone + length (tail_of output).0 ≡ length output =
      omega (arith, length-tail output) in
    since_buffer (tail_of output).0 gone o (omega arith)
    ∙ triple-eq
        (drop-drop (o - gone) gone output
          ∙ ap (λ k. drop k output) (let q : gone + (o - gone) ≡ later o gone = ground arith in q))
        (ap pos whole) refl

-- Reading since an offset gives the bytes of the whole output from there on, or from the first byte
-- that the buffer still holds if that is later, which the flag tells; the new offset is the length
-- of the output. An offset below 0 counts as 0. The output has fewer than 2^63 bytes.
pub shell_output_since-tail_of :
    (output : Text) (offset : ℤ)
    → length output ≤ i64_max
    → shell_output_since (tail_of output).0 (tail_of output).1 offset ≡ (
      drop (later (pos_part offset) (length output - shell_output_tail_limit)) output,
      pos (length output),
      ltb (pos_part offset) (length output - shell_output_tail_limit),
    )
unfolding shell_output_since
shell_output_since-tail_of output (pos o) small = since_tail output o small
shell_output_since-tail_of output (negsuc o) small =
    let below : ltb_ℤ (negsuc o) (pos 0) ≡ true = ground arith in
    rw (below) (since_tail output 0 small)

-- After a value of at most 256 KiB is appended, reading since the end that the reader was last given
-- returns that value and nothing else, and the flag says that nothing is missing, as long as the
-- output has fewer than 2^63 bytes.
pub shell_output_since-append :
    (output value : Text)
    → length value ≤ shell_output_tail_limit
    → length (output ++ value) ≤ i64_max
    → (let before = tail_of output in
        let offset = (shell_output_since before.0 before.1 (pos 0)).1 in
        let after = append_bounded_shell_tail before.0 before.1 value in
        shell_output_since after.0 after.1 offset)
      ≡ (value, pos (length (output ++ value)), false)
shell_output_since-append output value fits small =
    let gone = length (output ++ value) - shell_output_tail_limit in
    let here : later (length output) gone ≡ length output =
      ground (arith, length-append output value) in
    ap
      (λ t.
        shell_output_since t.0 t.1
          (shell_output_since (tail_of output).0 (tail_of output).1 (pos 0)).1)
      (append_bounded_shell_tail-tail_of output value small)
    ∙ ap (λ o. shell_output_since (tail_of (output ++ value)).0 (tail_of (output ++ value)).1 o)
        (ap (λ r. r.1)
          (shell_output_since-tail_of output (pos 0) (omega (arith, length-append output value))))
    ∙ shell_output_since-tail_of (output ++ value) (pos (length output)) small
    ∙ triple-eq (ap (λ k. drop k (output ++ value)) here ∙ drop-append output value) refl
        (ground (arith, length-append output value))
