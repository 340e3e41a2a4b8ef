-- ===== src/Prelude/Letters.antt =====
-- `strings.ToLower`, for texts that are then compared with ASCII words: besides the ASCII letters it
-- maps the two other characters whose lower case is an ASCII letter (the Kelvin sign and the dotted
-- capital I). The rest of Unicode stays outside ASCII either way and is left as it is.
use Prim.Native.Nat.{ℕ, ◌+◌}
use mathlib.Core.Path.{◌≡◌, refl}
use mathlib.Core.Bool.{◌&&◌}
use mathlib.Core.List.{[], ◌∷◌}
use cursor_byok_lite.Prelude.Tests.{leb, ◌==◌, if◌then◌else◌}
use cursor_byok_lite.Prelude.Text.{Text, codes}

lower_1 : ℕ → ℕ
lower_1 a = if leb b'A' a && leb a b'Z' then a + 32 else a

unfoldable pub to_lower : Text → Text
unfolding lower_1
to_lower [] = []
to_lower (a ∷ []) = lower_1 a ∷ []
to_lower (a ∷ b ∷ []) = if a == 0xC4 && b == 0xB0 then b'i' ∷ [] else lower_1 a ∷ to_lower (b ∷ [])
to_lower (a ∷ b ∷ c ∷ s) =
    let kelvin = b'k' ∷ to_lower s in
    let dotted = b'i' ∷ to_lower (c ∷ s) in
    let plain = lower_1 a ∷ to_lower (b ∷ c ∷ s) in
    if a == 0xE2 && b == 0x84 && c == 0xAA
    then kelvin
    else if a == 0xC4 && b == 0xB0
    then dotted
    else plain

to_lower_test : to_lower (codes "Plan") ≡ codes "plan"
unfolding to_lower
to_lower_test = refl
