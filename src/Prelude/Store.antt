-- ===== src/Prelude/Store.antt =====
-- Go maps with string keys, as association lists. The program never relies on the order of entries.
use mathlib.Core.Path.{◌≡◌, refl, ap, subst}
use mathlib.Core.Logic.{inl, inr}
use mathlib.Core.Option.{Option, none, some}
use mathlib.Core.List.{List, [], ◌∷◌}
use native.Mathlib.Omega.{arith}
use cursor_byok_lite.Prelude.Tests.{if◌then◌else◌, Bool-cases}
use cursor_byok_lite.Prelude.Text.{Text, str_eq, str_eq_iff, str_eq_refl}

module _ {ℓ} {V : Type ℓ} where
  -- `m[k]`
  unfoldable pub lookup : Text → List (Text × V) → Option V
  lookup k [] = none
  lookup k ((j, v) ∷ m) = if str_eq j k then some v else lookup k m

  -- `m[k] = v`
  unfoldable pub insert : Text → V → List (Text × V) → List (Text × V)
  insert k v [] = (k, v) ∷ []
  insert k v ((j, w) ∷ m) = if str_eq j k then (k, v) ∷ m else (j, w) ∷ insert k v m

  -- `delete(m, k)`
  unfoldable pub erase : Text → List (Text × V) → List (Text × V)
  erase k [] = []
  erase k ((j, w) ∷ m) = let rest = erase k m in if str_eq j k then rest else (j, w) ∷ rest

  pub lookup-insert :
      (k j : Text) (v : V) (m : List (Text × V))
      → lookup j (insert k v m) ≡ (if str_eq k j then some v else lookup j m)
  unfolding lookup insert
  lookup-insert k j v [] = refl
  lookup-insert k j v ((i, w) ∷ m) =
      ground (arith, str_eq_iff k j, str_eq_iff i k, str_eq_iff i j, lookup-insert k j v m)

  pub lookup-erase :
      (k j : Text) (m : List (Text × V))
      → lookup j (erase k m) ≡ (if str_eq k j then none else lookup j m)
  unfolding lookup erase
  lookup-erase k j [] = ground arith
  lookup-erase k j ((i, w) ∷ m) =
      ground (arith, str_eq_iff k j, str_eq_iff i k, str_eq_iff i j, lookup-erase k j m)

  pub lookup-insert_self :
      (k : Text) (v : V) (m : List (Text × V)) → lookup k (insert k v m) ≡ some v
  lookup-insert_self k v m = simp (lookup-insert, str_eq_refl)

  pub lookup-erase_self : (k : Text) (m : List (Text × V)) → lookup k (erase k m) ≡ none
  lookup-erase_self k m = simp (lookup-erase, str_eq_refl)

module _ {ℓ} {V : Type ℓ} where
  -- Writing what is there changes nothing.
  pub insert-lookup_self :
      (k : Text) (v : V) (m : List (Text × V)) → lookup k m ≡ some v → insert k v m ≡ m
  unfolding lookup insert
  insert-lookup_self k v [] h = cc
  insert-lookup_self k v ((j, w) ∷ m) h = elim (Bool-cases (str_eq j k)) [
    | inl e ↦
        let same : j ≡ k = (str_eq_iff j k).0 e in
        let value : some w ≡ some v =
          subst (λ b. (if b then some w else lookup k m) ≡ some v) e h in
        rw e (cc)
    | inr e ↦
        let deeper : lookup k m ≡ some v =
          subst (λ b. (if b then some w else lookup k m) ≡ some v) e h in
        rw e (ap (λ r. (j, w) ∷ r) (insert-lookup_self k v m deeper))
  ]
