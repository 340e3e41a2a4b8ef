-- ===== src/Examples/ToolCalls.antt =====
-- tool_call_id.go: the ids of two model calls, with a digest that repeats its first byte.
use cursor_byok_lite.Prelude.{ℕ, zero, suc, ◌≡◌, ◌≢◌, refl, ◌≤◌, [], ◌∷◌, arith, length}
use cursor_byok_lite.Prelude.Text.{Text, codes, trim_space}
use cursor_byok_lite.ToolCallId.{
  max_provider_tool_call_id_len, has_separator, short_tool_call_hash, namespace_tool_call_id,
}
use cursor_byok_lite.ToolCallId.Laws.{
  length-namespace_tool_call_id-le, namespace_tool_call_id-apart,
}

abbrev filling : ℕ → ℕ → Text
filling zero c = []
filling (suc n) c = c ∷ filling n c

abbrev digest : Text → Text
digest [] = filling 64 48
digest (c ∷ s) = filling 64 c

length-filling : (n c : ℕ) → length (filling n c) ≡ n
length-filling zero c = refl
length-filling (suc n) c = omega (arith, length-filling n c)

length-digest : (s : Text) → length (digest s) ≡ 64
length-digest [] = length-filling 64 48
length-digest (c ∷ s) = length-filling 64 c

length-namespace_tool_call_id-le_example :
    length (namespace_tool_call_id digest (codes "m1") (codes "call_0"))
    ≤ max_provider_tool_call_id_len
length-namespace_tool_call_id-le_example =
    length-namespace_tool_call_id-le digest length-digest (codes "m1") (codes "call_0")

hashes_differ :
    short_tool_call_hash digest (trim_space (codes "a1")) 12
    ≢ short_tool_call_hash digest (trim_space (codes "b2")) 12
unfolding short_tool_call_hash trim_space
hashes_differ e = ground arith

namespace_tool_call_id-apart_example :
    namespace_tool_call_id digest (codes "a1") (codes "call_0")
    ≢ namespace_tool_call_id digest (codes "b2") (codes "call_0")
unfolding trim_space has_separator
namespace_tool_call_id-apart_example =
    namespace_tool_call_id-apart digest length-digest (codes "a1") (codes "b2") (codes "call_0")
      (codes "call_0") refl refl refl refl refl refl hashes_differ
