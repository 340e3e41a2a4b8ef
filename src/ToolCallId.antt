-- ===== src/ToolCallId.antt =====
-- internal/backend/agent/model/tool_call_id.go: tool call ids that a provider accepts. `digest` is
-- the text of the SHA-256 sum in hexadecimal, of which only its length is used.
pub mod Laws
use cursor_byok_lite.Prelude.{
  ℕ, ◌-◌, Bool, true, false, not, ◌&&◌, ◌||◌, List, [], ◌∷◌, ◌++◌, Option, none, some, leb, ltb,
  ◌==◌, if◌then◌else◌, length, take, drop, on_found,
}
use cursor_byok_lite.Prelude.Int.{ℤ}
use cursor_byok_lite.Prelude.Text.{Text, codes, is_empty, trim_space}

abbrev pub max_provider_tool_call_id_len : ℕ
max_provider_tool_call_id_len = 64

abbrev pub tool_call_namespace_hash_len : ℕ
tool_call_namespace_hash_len = 12

abbrev pub tool_call_value_hash_len : ℕ
tool_call_value_hash_len = 12

-- `strings.Contains(s, "::")`
unfoldable pub has_separator : Text → Bool
has_separator [] = false
has_separator (a ∷ []) = false
has_separator (a ∷ b ∷ s) = (a == b':' && b == b':') || has_separator (b ∷ s)

abbrev before_rest : ℕ → Option (Text × Text) → Option (Text × Text)
before_rest a none = none
before_rest a (some (before, after)) = some (a ∷ before, after)

-- `strings.Cut(s, "::")`
unfoldable pub cut : Text → Option (Text × Text)
cut [] = none
cut (a ∷ []) = none
cut (a ∷ b ∷ s) =
    let deeper = cut (b ∷ s) in
    if a == b':' && b == b':' then some ([], s) else before_rest a deeper

pub record ToolCallFunctionShape : Type 0 where
  pub name : Text
  pub arguments : Text

pub record ToolCallDescriptor : Type 0 where
  pub id : Text
  pub index : ℤ
  pub type_name : Text
  pub shape : ToolCallFunctionShape
  pub open_ai_responses_id : Text
  pub open_ai_responses_call_id : Text
  pub open_ai_responses_status : Text

pub record ProviderToolCallDescriptor : Type 0 where
  pub id : Text
  pub index : ℤ
  pub type_name : Text
  pub shape : ToolCallFunctionShape

-- `none` is the result with `ok` false
unfoldable pub split_legacy_tool_call_id : Text → Option (Text × Text)
split_legacy_tool_call_id value = on_found (cut (trim_space value)) none λ parts.
    let namespace = trim_space parts.0 in
    let raw = trim_space parts.1 in
    if is_empty namespace || is_empty raw then none else some (namespace, raw)

module _ (digest : Text → Text) where
  unfoldable pub short_tool_call_hash : Text → ℕ → Text
  short_tool_call_hash value size =
      let encoded = digest (trim_space value) in
      if size == 0 || ltb (length encoded) size then encoded else take size encoded

  -- the id of a raw id that must be shortened
  unfoldable pub shortened : Text → Text → Text
  shortened prefix raw =
      let raw_hash = short_tool_call_hash raw tool_call_value_hash_len in
      let remaining = max_provider_tool_call_id_len - length prefix - length raw_hash - 2 in
      let suffix = if ltb remaining (length raw) then drop (length raw - remaining) raw else raw in
      if remaining == 0
      then prefix ++ (codes "_" ++ raw_hash)
      else prefix ++ (codes "_" ++ (raw_hash ++ (codes "_" ++ suffix)))

  abbrev prefix_of : Text → Text
  prefix_of namespace = if is_empty namespace then codes "tc" else codes "tc_" ++ namespace

  unfoldable pub build_provider_safe_tool_call_id : Text → Text → Text
  build_provider_safe_tool_call_id namespace raw =
      let trimmed_raw = trim_space raw in
      let prefix = prefix_of namespace in
      let candidate = prefix ++ (codes "_" ++ trimmed_raw) in
      if is_empty trimmed_raw
      then []
      else if is_empty namespace
          && leb (length trimmed_raw) max_provider_tool_call_id_len
          && not (has_separator trimmed_raw)
      then trimmed_raw
      else if leb (length candidate) max_provider_tool_call_id_len
      then candidate
      else shortened prefix trimmed_raw

  unfoldable pub provider_tool_call_id : Text → Text
  provider_tool_call_id tool_call_id =
      let trimmed = trim_space tool_call_id in
      if is_empty trimmed
      then []
      else on_found (split_legacy_tool_call_id trimmed)
          (if leb (length trimmed) max_provider_tool_call_id_len
            then trimmed
            else build_provider_safe_tool_call_id [] trimmed)
          λ parts.
            build_provider_safe_tool_call_id
              (short_tool_call_hash parts.0 tool_call_namespace_hash_len) parts.1

  unfoldable pub namespace_tool_call_id : Text → Text → Text
  namespace_tool_call_id model_call_id raw_tool_call_id =
      let raw = trim_space raw_tool_call_id in
      let model = trim_space model_call_id in
      if is_empty raw
      then []
      else if has_separator raw
      then provider_tool_call_id raw
      else if is_empty model
      then provider_tool_call_id raw
      else build_provider_safe_tool_call_id
          (short_tool_call_hash model tool_call_namespace_hash_len) raw

  unfoldable pub normalize_tool_call_descriptors :
      List ToolCallDescriptor → List ProviderToolCallDescriptor
  normalize_tool_call_descriptors [] = []
  normalize_tool_call_descriptors (call ∷ calls) =
      record {
        id = provider_tool_call_id call.id;
        index = call.index;
        type_name = call.type_name;
        shape = call.shape;
      }
      ∷ normalize_tool_call_descriptors calls
