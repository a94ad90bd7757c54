-- ===== src/Tests/Dispatch.antt =====
-- The dispatcher with a handler that repeats its parameters, and one that raises.
use openclaw_hass_node.Prelude.{
  String, ◌<>◌, ◌≡◌, ◌≢◌, refl, true, false, Option, none, some, [], ◌∷◌, contains, ℕ, inr,
  if◌then◌else◌, ◌==◌, ◌+◌, List, keep, take, ◌++◌, pos,
}
use openclaw_hass_node.Value.{str, int, dict, Fields, end, field}
use openclaw_hass_node.Authz.{user}
use openclaw_hass_node.Authz.Services.{service_for_command, wrapper_service}
use openclaw_hass_node.Authz.Commands.{user_allowed_commands, registered_commands}
use openclaw_hass_node.Authz.Codes.{
  Number, text, collect_codes, code_at, extended, as_code, double_limit,
}
use openclaw_hass_node.Authz.Codes.Scrub.{Printing}
use openclaw_hass_node.Authz.Forbidden.{is_forbidden}
use openclaw_hass_node.Caller.{Caller, turn_role, operator_caller}
use openclaw_hass_node.Policy.Effect.{check, classify}
use openclaw_hass_node.Policy.Effect.Household.{is_household_service}
use openclaw_hass_node.Dispatch.{Reply, returned, coroutine, Node, Handlers, dispatch}
use openclaw_hass_node.Dispatch.Gate.{
  IsHidden, Call, is_permitted, dispatch-hides, household-dispatch,
}

abbrev quoted : String → String
quoted s = "\"" <> s <> "\""

abbrev plain_number : Number → String
plain_number n = "7"

abbrev plain_printing : Printing
plain_printing = record {
  number_str = plain_number;
  number_json = plain_number;
  number_repr = plain_number;
  text_json = quoted;
  text_repr = quoted;
}

-- The handler of `ping` repeats what it was given; every other is asynchronous and fails.
abbrev echo : Handlers ℕ String
echo = record {
  handler = handler;
  settle = λ command params caller n. (inr "1234 is wrong", n + 1);
}
  where
    handler : String → Fields → Option Caller → ℕ → Reply String × ℕ
    handler command params caller n =
        if command == "ping" then (returned (dict params), n + 1) else (coroutine, n)

abbrev idle : Node ℕ
idle = record { current_caller = none; world = 0; calls = [] }

abbrev household : Caller
household = record { role = turn_role user; actor_id = "u2"; forbidden = [] }

abbrev unlock : Fields
unlock =
    field "domain" (str "lock")
      (field "service" (str "unlock") (field "data" (dict (field "code" (str "1234") end)) end))

-- A permitted call, one that the policy refuses, one with a code that is too large, and one of no
-- registered command.
abbrev huge : Fields
huge = field "code" (int (pos double_limit)) end

abbrev four_calls : List Call
four_calls =
    record { is_async = true; caller = operator_caller "o"; command = "ping"; params = end }
    ∷ record { is_async = true; caller = household; command = "fs.delete"; params = end }
    ∷ record { is_async = false; caller = operator_caller "o"; command = "ping"; params = huge }
    ∷ record { is_async = true; caller = household; command = "pong"; params = end }
    ∷ []

one_permitted : keep is_permitted four_calls ≡ take 1 four_calls
unfolding collect_codes code_at extended as_code registered_commands check service_for_command
    user_allowed_commands is_forbidden
one_permitted = refl

supplied : collect_codes (dict unlock) ≡ some ([] ++ (text "1234" ∷ []))
unfolding collect_codes code_at extended as_code
supplied = refl

dispatch-hides_example :
    IsHidden plain_printing
      (text "1234")
      (dispatch plain_printing echo true (operator_caller "o") "ha.call_service" unlock idle).0
dispatch-hides_example =
    dispatch-hides plain_printing echo (text "1234") [] [] refl (operator_caller "o")
      "ha.call_service" unlock idle supplied

reached : (dispatch plain_printing echo true household "ping" end idle).1.calls ≢ idle.calls
unfolding dispatch registered_commands user_allowed_commands check classify service_for_command
    wrapper_service is_forbidden collect_codes
reached e = cc

household-dispatch_example :
    (contains user_allowed_commands "ping" ≡ true)
    × (is_forbidden [] "ping" end ≡ false)
    × (is_household_service "ping" (service_for_command "ping" end) ≡ true)
household-dispatch_example =
    household-dispatch plain_printing echo true "u2" [] "ping" end idle reached
