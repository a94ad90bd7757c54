-- ===== src/Policy.antt =====
-- The policies that a call passes before its handler runs: the interim service denials of
-- commands/ha.py, effect_policy.py, approval_policy.py and commands/config_mutation.py.
pub mod Interim
pub mod Effect
pub mod Approval
pub mod Canonical
pub mod Marker
use openclaw_hass_node.Prelude.{String, false}
use openclaw_hass_node.Value.{bool, str, Fields, end, field}

-- `_refusal`: the structured refusal that both policies return.
abbrev pub refusal : String → String → Fields
refusal code message =
    field "ok" (bool false) (field "error" (str code) (field "message" (str message) end))
