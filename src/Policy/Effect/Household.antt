-- ===== src/Policy/Effect/Household.antt =====
-- What the gate lets a household user do.
use openclaw_hass_node.Prelude.{
  String, ◌≡◌, refl, Bool, true, false, not, ◌&&◌, Option, none, some, is_some, ◌==◌, contains,
  arith, inl, inr, Bool-cases, listed, table_all, table_all-listed, List,
}
use openclaw_hass_node.Value.{Fields}
use openclaw_hass_node.Authz.{user}
use openclaw_hass_node.Authz.Services.{
  household_allowed_services, partition_dot, service_allowed, service_for_command,
}
use openclaw_hass_node.Authz.Commands.{user_allowed_commands}
use openclaw_hass_node.Authz.Forbidden.{is_forbidden}
use openclaw_hass_node.Caller.{turn_role}
use openclaw_hass_node.Policy.Interim.{interim_service_denial}
use openclaw_hass_node.Policy.Effect.{
  Effect, deny, auto_allow, unclassified, classify, check, check_effect, check_command,
  check_service,
}

abbrev not_denied : String → String → Bool
not_denied domain name = not (is_some (interim_service_denial domain name))

household_not_denied : table_all not_denied household_allowed_services ≡ true
unfolding household_allowed_services interim_service_denial
household_not_denied = refl

abbrev pub is_auto_allow : Effect → Bool
is_auto_allow auto_allow = true
is_auto_allow _ = false

-- No service of the household table is denied, so the services that need no further judgement are
-- exactly those of the table.
pub classify-household :
    (service : String) → is_auto_allow (classify (some service)) ≡ service_allowed service
unfolding classify service_allowed
classify-household service =
    let (domain, name) = partition_dot service in
    elim (Bool-cases (listed household_allowed_services domain name)) [
      | inl h ↦ ground (
        arith,
        table_all-listed not_denied household_allowed_services domain name household_not_denied h,
      )
      | inr h ↦ ground arith
    ]

-- A household user's service: none for a command that calls none, or one of the table.
abbrev pub is_household_service : String → Option String → Bool
is_household_service command none = not (command == "ha.call_service")
is_household_service command (some service) = service_allowed service

check_effect-user :
    (actor_id : String) (forbidden : List String) (command : String) (params : Fields)
    (service : Option String) (effect : Effect)
    → classify service ≡ effect
    → is_some (
        check_effect
          (record { role = turn_role user; actor_id = actor_id; forbidden = forbidden })
          command
          params
          service
          effect)
      ≡ not (
          contains user_allowed_commands command
          && not (is_forbidden forbidden command params)
          && is_household_service command service)
unfolding check_effect check_command check_service
check_effect-user actor_id forbidden command params none effect e = ground arith
check_effect-user actor_id forbidden command params (some service) deny e =
    ground (arith, classify-household service)
check_effect-user actor_id forbidden command params (some service) auto_allow e =
    ground (arith, classify-household service)
check_effect-user actor_id forbidden command params (some service) unclassified e =
    ground (arith, classify-household service)

-- A household user is refused a call unless its command is in the allowed set, the forbidden set of
-- the caller does not block it, and it calls a service of the household table or is a command that
-- calls no service; otherwise the call may proceed.
pub check-user :
    (actor_id : String) (forbidden : List String) (command : String) (params : Fields)
    → is_some (
        check
          (record { role = turn_role user; actor_id = actor_id; forbidden = forbidden })
          command
          params)
      ≡ not (
          contains user_allowed_commands command
          && not (is_forbidden forbidden command params)
          && is_household_service command (service_for_command command params))
unfolding check
check-user actor_id forbidden command params =
    check_effect-user actor_id forbidden command params (service_for_command command params)
      (classify (service_for_command command params)) refl
