-- ===== src/Stream/Mode.antt =====
-- internal/backend/forwarder/types.go: the modes, and their names in the stored history.
use cursor_byok_lite.Prelude.{
  Bool, true, false, Option, none, some, if◌then◌else◌, ◌≡◌, refl, ◌⊎◌, inl, inr,
}
use cursor_byok_lite.Prelude.Text.{Text, codes, str_eq, trim_space}
use cursor_byok_lite.Prelude.Letters.{to_lower}
use cursor_byok_lite.Stream.{AgentMode, agent, ask, plan, debug, multitask}

abbrev pub normalize_mode : AgentMode → AgentMode
normalize_mode mode = mode

abbrev is_known : AgentMode → Bool
is_known agent = true
is_known ask = true
is_known plan = true
is_known debug = true
is_known multitask = true
is_known _ = false

unfoldable pub is_supported_active_mode : AgentMode → Bool
is_supported_active_mode mode = is_known (normalize_mode mode)

-- `none` is the error.
unfoldable pub validate_supported_active_mode : AgentMode → Option AgentMode
unfolding is_supported_active_mode
validate_supported_active_mode mode =
    if is_supported_active_mode (normalize_mode mode) then some (normalize_mode mode) else none

alias : AgentMode → Option Text
alias agent = some (codes "agent")
alias ask = some (codes "ask")
alias plan = some (codes "plan")
alias debug = some (codes "debug")
alias multitask = some (codes "multitask")
alias _ = none

pub mode_alias : AgentMode → Option Text
unfolding alias
mode_alias mode = alias (normalize_mode mode)

-- the `switch` over the names
named : Text → Option AgentMode
named name =
    if str_eq name (codes "agent")
    then some agent
    else if str_eq name (codes "ask")
    then some ask
    else if str_eq name (codes "plan")
    then some plan
    else if str_eq name (codes "debug")
    then some debug
    else if str_eq name (codes "multitask")
    then some multitask
    else none

pub parse_mode_alias : Text → Option AgentMode
unfolding named
parse_mode_alias raw = named (to_lower (trim_space raw))

pub parse_target_mode_id : Text → Option AgentMode
unfolding named
parse_target_mode_id raw = named (to_lower (trim_space raw))

-- A mode's name, as the history stores it, parses back to the mode; a
-- name is given to the supported modes and to no other.
pub parse_mode_alias-mode_alias :
    (mode : AgentMode)
    → (validate_supported_active_mode mode ≡ some mode)
        × ((name : Text) × (mode_alias mode ≡ some name)
            × (parse_mode_alias name ≡ some mode)
            × (parse_target_mode_id name ≡ some mode))
      ⊎ (validate_supported_active_mode mode ≡ none) × (mode_alias mode ≡ none)
unfolding validate_supported_active_mode is_supported_active_mode mode_alias alias parse_mode_alias
    parse_target_mode_id named to_lower trim_space str_eq
parse_mode_alias-mode_alias AgentMode.unspecified = inr (refl, refl)
parse_mode_alias-mode_alias agent = inl (refl, (codes "agent", refl, refl, refl))
parse_mode_alias-mode_alias ask = inl (refl, (codes "ask", refl, refl, refl))
parse_mode_alias-mode_alias plan = inl (refl, (codes "plan", refl, refl, refl))
parse_mode_alias-mode_alias debug = inl (refl, (codes "debug", refl, refl, refl))
parse_mode_alias-mode_alias multitask = inl (refl, (codes "multitask", refl, refl, refl))
parse_mode_alias-mode_alias (AgentMode.other n) = inr (refl, refl)
