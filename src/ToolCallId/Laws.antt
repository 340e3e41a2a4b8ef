-- ===== src/ToolCallId/Laws.antt =====
-- tool_call_id.go: the ids are short enough, and tell model calls apart.
use cursor_byok_lite.Prelude.{
  ◌-◌, ◌≤◌, ◌≡◌, ◌≢◌, refl, sym, ap, ◌∙◌, false, inl, inr, [], ◌∷◌, ◌++◌, arith, leb, ltb, ◌==◌,
  if◌then◌else◌, length, take, drop, length-append, length-drop, length-take, Bool-cases,
  Option-cases, take-append,
}
use cursor_byok_lite.Prelude.Text.{Text, codes, is_empty, trim_space, trim_space_idem}
use cursor_byok_lite.ToolCallId.{
  max_provider_tool_call_id_len, has_separator, split_legacy_tool_call_id, short_tool_call_hash,
  shortened, prefix_of, build_provider_safe_tool_call_id, provider_tool_call_id,
  namespace_tool_call_id,
}

filled : (t : Text) → length t ≡ 12 → is_empty t ≡ false
filled [] h = ground arith
filled (c ∷ t) h = refl

module _ (digest : Text → Text) (hex : (s : Text) → length (digest s) ≡ 64) where
  length-short : (value : Text) → length (short_tool_call_hash digest value 12) ≡ 12
  unfolding short_tool_call_hash
  length-short value =
      ground (arith, hex (trim_space value), length-take 12 (digest (trim_space value)))

  length-shortened :
      (prefix raw : Text)
      → length prefix ≤ 15
      → length (shortened digest prefix raw) ≤ max_provider_tool_call_id_len
  unfolding shortened
  length-shortened prefix raw h =
      let hash = short_tool_call_hash digest raw 12 in
      let remaining = 64 - length prefix - length hash - 2 in
      let some_left : (remaining == 0) ≡ false = ground (arith, length-short raw) in
      let suffix = if ltb remaining (length raw) then drop (length raw - remaining) raw else raw in
      let short : length suffix ≤ remaining =
        ground (arith, length-drop (length raw - remaining) raw) in
      rw some_left (
        omega (
          arith,
          short,
          length-short raw,
          length-append prefix (codes "_" ++ (hash ++ (codes "_" ++ suffix))),
          length-append hash (codes "_" ++ suffix),
        ))

  length-build :
      (namespace raw : Text)
      → length namespace ≤ 12
      → length (build_provider_safe_tool_call_id digest namespace raw)
        ≤ max_provider_tool_call_id_len
  unfolding build_provider_safe_tool_call_id
  length-build namespace raw h =
      ground (arith, length-shortened (prefix_of digest namespace) (trim_space raw))

  -- Whatever the stored id, the id that a provider gets has at most 64 bytes, if the digest has 64.
  pub length-provider_tool_call_id-le :
      (id : Text) → length (provider_tool_call_id digest id) ≤ max_provider_tool_call_id_len
  unfolding provider_tool_call_id
  length-provider_tool_call_id-le id = elim (Bool-cases (is_empty (trim_space id))) [
    | inl e ↦ rw e (omega arith)
    | inr e ↦ elim (Option-cases (split_legacy_tool_call_id (trim_space id))) [
      | inl q ↦ rw (e, q) (ground (arith, length-build [] (trim_space id)))
      | inr (parts, q) ↦
          rw (e, q)
            (length-build (short_tool_call_hash digest parts.0 12) parts.1
              (omega (arith, length-short parts.0)))
    ]
  ]

  -- Whatever the ids of the model call and of the tool call, the id that is stored has at most 64
  -- bytes, if the digest has 64.
  pub length-namespace_tool_call_id-le :
      (model raw : Text)
      → length (namespace_tool_call_id digest model raw) ≤ max_provider_tool_call_id_len
  unfolding namespace_tool_call_id
  length-namespace_tool_call_id-le model raw = ground (
    arith,
    length-provider_tool_call_id-le (trim_space raw),
    length-build (short_tool_call_hash digest (trim_space model) 12) (trim_space raw),
    length-short (trim_space model),
  )

  shortened-begins :
      (prefix raw : Text) → (rest : Text) × (shortened digest prefix raw ≡ prefix ++ rest)
  unfolding shortened
  shortened-begins prefix raw =
      let hash = short_tool_call_hash digest raw 12 in
      let remaining = 64 - length prefix - length hash - 2 in
      let suffix = if ltb remaining (length raw) then drop (length raw - remaining) raw else raw in
      elim (Bool-cases (remaining == 0)) [
        | inl e ↦ (codes "_" ++ hash, rw e refl)
        | inr e ↦ (codes "_" ++ (hash ++ (codes "_" ++ suffix)), rw e refl)
      ]

  -- An id made for a namespace begins with it.
  build-begins :
      (namespace raw : Text)
      → is_empty namespace ≡ false
      → is_empty (trim_space raw) ≡ false
      → (rest : Text) × (build_provider_safe_tool_call_id digest namespace raw
          ≡ (codes "tc_" ++ namespace) ++ rest)
  unfolding build_provider_safe_tool_call_id
  build-begins namespace raw n r =
      elim (Bool-cases
        (leb (length ((codes "tc_" ++ namespace) ++ (codes "_" ++ trim_space raw))) 64)) [
          | inl e ↦ (codes "_" ++ trim_space raw, rw (r, n, e) refl)
          | inr e ↦
              let tail = shortened-begins (codes "tc_" ++ namespace) (trim_space raw) in
              (tail.0, rw (r, n, e) tail.1)
        ]

  short-filled : (value : Text) → is_empty (short_tool_call_hash digest value 12) ≡ false
  short-filled value = filled (short_tool_call_hash digest value 12) (length-short value)

  namespaced :
      (model raw : Text)
      → is_empty (trim_space model) ≡ false
      → is_empty (trim_space raw) ≡ false
      → has_separator (trim_space raw) ≡ false
      → (rest : Text) × (namespace_tool_call_id digest model raw
          ≡ (codes "tc_" ++ short_tool_call_hash digest (trim_space model) 12) ++ rest)
  unfolding namespace_tool_call_id
  namespaced model raw m r s =
      let hash = short_tool_call_hash digest (trim_space model) 12 in
      let found =
        build-begins hash (trim_space raw) (short-filled (trim_space model))
          (ap is_empty (trim_space_idem raw) ∙ r) in
      (found.0, rw (r, s, m) found.1)

  -- Tool calls of two model calls whose hashes differ get different ids, also where the provider gave
  -- both the same raw id. The digest has 64 bytes, the model call ids and the raw ids are not blank,
  -- and the raw ids hold no "::".
  pub namespace_tool_call_id-apart :
      (model other raw raw' : Text)
      → is_empty (trim_space model) ≡ false
      → is_empty (trim_space other) ≡ false
      → is_empty (trim_space raw) ≡ false
      → is_empty (trim_space raw') ≡ false
      → has_separator (trim_space raw) ≡ false
      → has_separator (trim_space raw') ≡ false
      → short_tool_call_hash digest (trim_space model) 12
        ≢ short_tool_call_hash digest (trim_space other) 12
      → namespace_tool_call_id digest model raw ≢ namespace_tool_call_id digest other raw'
  namespace_tool_call_id-apart model other raw raw' m o r r' s s' differ e =
      let left = namespaced model raw m r s in
      let right = namespaced other raw' o r' s' in
      let hash = short_tool_call_hash digest (trim_space model) 12 in
      let hash' = short_tool_call_hash digest (trim_space other) 12 in
      let same : drop 3 ((codes "tc_" ++ hash) ++ left.0)
          ≡ drop 3 ((codes "tc_" ++ hash') ++ right.0) =
        ap (drop 3) (sym left.1 ∙ e ∙ right.1) in
      differ (
        sym (take-append hash left.0)
        ∙ (let n = length-short (trim_space model) ∙ sym (length-short (trim_space other)) in
            ap (λ k. take k (hash ++ left.0)) n ∙ ap (take (length hash')) same)
        ∙ take-append hash' right.0)
