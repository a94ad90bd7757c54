-- ===== src/Policy/Effect/Denials.antt =====
-- Denied services are denied to everyone, and the operator is refused nothing else.
use openclaw_hass_node.Prelude.{
  String, ◌<>◌, ◌≡◌, refl, false, Option, none, some, is_some, arith, ap, ◌∙◌,
}
use openclaw_hass_node.Value.{Fields}
use openclaw_hass_node.Authz.Services.{service_for_command}
use openclaw_hass_node.Caller.{Caller, operator_caller}
use openclaw_hass_node.Policy.{refusal}
use openclaw_hass_node.Policy.Effect.{
  Effect, deny, auto_allow, unclassified, classify, check, check_effect, check_command,
  check_service,
}

-- Whoever calls it, a call whose service is of the denied class is refused `SERVICE_DENIED`.
pub denied-refused :
    (caller : Caller) (command : String) (params : Fields) (service : String)
    → service_for_command command params ≡ some service
    → classify (some service) ≡ deny
    → check caller command params
      ≡ some (refusal "SERVICE_DENIED" (command <> " denies " <> service))
unfolding check
denied-refused caller command params service e d = rw (e, d)

-- The service of a call, if it is of the denied class.
abbrev pub denied_service : Option String → Effect → Option String
denied_service (some service) deny = some service
denied_service _ _ = none

module _ (actor_id command : String) (params : Fields) where
  check_effect-operator :
      (service : Option String) (effect : Effect)
      → is_some (check_effect (operator_caller actor_id) command params service effect)
        ≡ is_some (denied_service service effect)
  unfolding check_effect check_command check_service
  check_effect-operator none effect = ground arith
  check_effect-operator (some service) deny = refl
  check_effect-operator (some service) auto_allow = refl
  check_effect-operator (some service) unclassified = refl

  -- The operator is refused exactly the calls whose service is of the denied class.
  pub check-operator :
      is_some (check (operator_caller actor_id) command params)
      ≡ is_some (
          denied_service
            (service_for_command command params)
            (classify (service_for_command command params)))
  unfolding check
  check-operator =
      check_effect-operator (service_for_command command params)
        (classify (service_for_command command params))

  check_effect-denied_service :
      (caller : Caller) (service : Option String) (effect : Effect)
      → check_effect caller command params service effect ≡ none
      → denied_service service effect ≡ none
  unfolding check_effect
  check_effect-denied_service caller none effect h = refl
  check_effect-denied_service caller (some service) deny h = cc
  check_effect-denied_service caller (some service) auto_allow h = refl
  check_effect-denied_service caller (some service) unclassified h = refl

  -- What any caller may do, the operator may do.
  pub permitted-operator :
      (caller : Caller)
      → check caller command params ≡ none
      → is_some (check (operator_caller actor_id) command params) ≡ false
  unfolding check
  permitted-operator caller h =
      check_effect-operator (service_for_command command params)
        (classify (service_for_command command params))
      ∙ ap is_some (
          check_effect-denied_service caller (service_for_command command params)
            (classify (service_for_command command params)) h)
