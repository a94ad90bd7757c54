-- ===== src/Policy/Effect.antt =====
-- effect_policy.py: the gate that every call passes before its handler.
pub mod Household
pub mod Denials
use openclaw_hass_node.Prelude.{
  String, ◌<>◌, ◌≡◌, Bool, true, false, not, ◌&&◌, ◌||◌, Option, none, some, is_some, ◌==◌,
  if◌then◌else◌, contains,
}
use openclaw_hass_node.Value.{Fields}
use openclaw_hass_node.Authz.{Role, user, admin, super_admin}
use openclaw_hass_node.Authz.Services.{partition_dot, service_allowed, service_for_command}
use openclaw_hass_node.Authz.Commands.{user_allowed_commands}
use openclaw_hass_node.Authz.Forbidden.{is_forbidden}
use openclaw_hass_node.Caller.{Caller, CallerRole, turn_role, operator}
use openclaw_hass_node.Policy.{refusal}
use openclaw_hass_node.Policy.Interim.{interim_service_denial}

-- `Effect`
pub data Effect : Type 0 where
  deny auto_allow unclassified : Effect

abbrev denied_parts : String × String → Bool
denied_parts (domain, name) = is_some (interim_service_denial domain name)

-- `classify`
unfoldable pub classify : Option String → Effect
classify none = deny
classify (some service) =
    if denied_parts (partition_dot service)
    then deny
    else if service_allowed service
    then auto_allow
    else unclassified

abbrev pub is_operator : CallerRole → Bool
is_operator operator = true
is_operator (turn_role r) = false

abbrev pub is_user : CallerRole → Bool
is_user (turn_role user) = true
is_user _ = false

not_permitted : String → Fields
not_permitted command = refusal "PERMISSION_DENIED" (command <> " is not permitted for this caller")

-- After the command itself is permitted: what its service may do.
check_service : Caller → String → Option String → Effect → Option Fields
check_service caller command none effect =
    if not (command == "ha.call_service")
    then none
    else if is_operator caller.role
    then none
    else some (refusal "PERMISSION_DENIED" "service is malformed")
check_service caller command (some service) auto_allow = none
check_service caller command (some service) effect =
    if is_operator caller.role
    then none
    else if is_user caller.role
    then some
        (refusal "PERMISSION_DENIED" ("service " <> service <> " is not permitted for this caller"))
    else some (
        refusal "APPROVAL_REQUIRED" (
          "service " <> service
          <> " needs approval; native approval is not available in this build"))

check_command : Caller → String → Fields → Option String → Effect → Option Fields
unfolding not_permitted check_service
check_command caller command params service effect =
    if is_user caller.role && not (contains user_allowed_commands command)
    then some (not_permitted command)
    else if not (is_operator caller.role) && is_forbidden caller.forbidden command params
    then some (not_permitted command)
    else check_service caller command service effect

check_effect : Caller → String → Fields → Option String → Effect → Option Fields
check_effect caller command params (some service) deny =
    some (refusal "SERVICE_DENIED" (command <> " denies " <> service))
check_effect caller command params service effect =
    check_command caller command params service effect

-- `check`: a refusal, or `none` when the call may proceed.
unfoldable pub check : Caller → String → Fields → Option Fields
unfolding check_command check_effect
check caller command params =
    let service = service_for_command command params in
    check_effect caller command params service (classify service)
