-- ===== src/Tests/Policy.antt =====
-- The policies on concrete calls.
use openclaw_hass_node.Prelude.{
  String, ◌≡◌, ◌≢◌, refl, true, false, not, ◌&&◌, none, some, is_some, [], ◌∷◌, contains, arith,
  pos, ℕ,
}
use openclaw_hass_node.Value.{Fields, Value, int, str, dict, end, field, get, has, remove, keys}
use openclaw_hass_node.Authz.{user, admin}
use openclaw_hass_node.Authz.Services.{service_allowed, service_for_command}
use openclaw_hass_node.Authz.Commands.{user_allowed_commands}
use openclaw_hass_node.Authz.Forbidden.{is_forbidden}
use openclaw_hass_node.Caller.{Caller, turn_role, operator, operator_caller}
use openclaw_hass_node.Policy.Approval.{
  destructive, approval_exempt, destructive-not_exempt, exempt-IsAdmin, user_directed,
}
use openclaw_hass_node.Policy.Canonical.{DecimalTuple, canonical}
use openclaw_hass_node.Policy.Effect.{check, classify}
use openclaw_hass_node.Policy.Effect.Household.{
  check-user, classify-household, is_auto_allow, is_household_service,
}
use openclaw_hass_node.Policy.Effect.Denials.{check-operator, denied_service}
use openclaw_hass_node.Policy.Marker.{
  approval_param, consume_approval_marker, approval_bind, Marker, is_expired, expiry_of, purge,
  parse_marker,
}
use openclaw_hass_node.Policy.Marker.Checker.{
  approval_checker, check_all, repeated, first_outcome, check_all-consumes_once,
}
use openclaw_hass_node.Policy.Marker.Once.{
  Request, handle, handle_all, single_use, Grant, authorized-Grant, params-has_no_marker,
}

abbrev admin_caller : Caller
admin_caller = record { role = turn_role admin; actor_id = "u1"; forbidden = [] }

destructive-not_exempt_example : approval_exempt (some admin_caller) "fs.delete" "" ≡ false
unfolding destructive
destructive-not_exempt_example = destructive-not_exempt (some admin_caller) "fs.delete" "" refl

exempt_save : approval_exempt (some admin_caller) "ha.config.scene" "save" ≡ true
unfolding approval_exempt user_directed
exempt_save = refl

exempt-IsAdmin_example :
    (admin_caller.actor_id ≢ "<anonymous>")
    × (turn_role admin ≢ turn_role user)
    × (turn_role admin ≢ operator)
exempt-IsAdmin_example = exempt-IsAdmin admin_caller "ha.config.scene" "save" exempt_save

classify-household_example :
    is_auto_allow (classify (some "lock.unlock")) ≡ service_allowed "lock.unlock"
classify-household_example = classify-household "lock.unlock"

check-user_example :
    is_some (
      check
        (record { role = turn_role user; actor_id = "u2"; forbidden = "ha.logbook" ∷ [] })
        "ha.logbook"
        end)
    ≡ not (
        contains user_allowed_commands "ha.logbook"
        && not (is_forbidden ("ha.logbook" ∷ []) "ha.logbook" end)
        && is_household_service "ha.logbook" (service_for_command "ha.logbook" end))
check-user_example = check-user "u2" ("ha.logbook" ∷ []) "ha.logbook" end

check-operator_example :
    is_some (check (operator_caller "gateway-invoke") "ha.light_turn_on" end)
    ≡ is_some (
        denied_service
          (service_for_command "ha.light_turn_on" end)
          (classify (service_for_command "ha.light_turn_on" end)))
check-operator_example = check-operator "gateway-invoke" "ha.light_turn_on" end

-- A stand-in for the digest, and for the reading of a double.
abbrev plain_digest : String → String
plain_digest s = s

abbrev no_doubles : ℕ → DecimalTuple
no_doubles bits = record { minus = false; raw_digits = ""; exponent = pos 0 }

abbrev bound : String
bound = "{\"action\":\"\",\"command\":\"fs.move\",\"params\":{\"src\":\"/config/a\"}}"

abbrev move_marker : Marker
move_marker = record { id = "m1"; exp = pos 100; bind = bound }

abbrev marker_value : Value
marker_value =
    dict (field "id" (str "m1") (field "exp" (int (pos 100)) (field "bind" (str bound) end)))

abbrev move_at : ℕ → Request
move_at now = record {
  caller = none;
  now = now;
  command = "fs.move";
  action = "";
  params = field "src" (str "/config/a") (field "_openclaw_approval" marker_value end);
}

move_authorized : (handle plain_digest no_doubles (move_at 5_000_000_000) []).answer ≡ none
unfolding consume_approval_marker get keys remove approval_bind canonical is_expired expiry_of purge
move_authorized = refl

single_use_example :
    (handle plain_digest no_doubles (move_at 9_000_000_000) (
      handle_all plain_digest no_doubles
        (move_at 7_000_000_000 ∷ [])
        (handle plain_digest no_doubles (move_at 5_000_000_000) []).used)).answer
    ≢ none
unfolding keys get parse_marker
single_use_example =
    single_use plain_digest no_doubles (move_at 5_000_000_000) (move_at 7_000_000_000 ∷ [])
      (move_at 9_000_000_000) move_marker [] refl move_authorized (omega arith) refl

authorized-Grant_example : Grant plain_digest no_doubles (move_at 5_000_000_000) []
authorized-Grant_example =
    authorized-Grant plain_digest no_doubles (move_at 5_000_000_000) [] move_authorized

params-has_no_marker_example :
    has approval_param (handle plain_digest no_doubles (move_at 5_000_000_000) []).params ≡ false
params-has_no_marker_example =
    params-has_no_marker plain_digest no_doubles (move_at 5_000_000_000) []

-- Two calls of one check: the marker is consumed by the first, and the second repeats its answer.
abbrev move_params : Fields
move_params = (move_at 0).params

check_all-consumes_once_example :
    ((check_all plain_digest no_doubles "fs.move"
        ((none, 5_000_000_000) ∷ (none, 6_000_000_000) ∷ [])
        (approval_checker move_params [])).0
      ≡ repeated plain_digest no_doubles
          ((none, 5_000_000_000) ∷ (none, 6_000_000_000) ∷ [])
          (first_outcome plain_digest no_doubles "fs.move" none 5_000_000_000 move_params
            []).answer)
    × ((check_all plain_digest no_doubles "fs.move"
          ((none, 5_000_000_000) ∷ (none, 6_000_000_000) ∷ [])
          (approval_checker move_params [])).1.params
        ≡ (first_outcome plain_digest no_doubles "fs.move" none 5_000_000_000 move_params
            []).params)
    × ((check_all plain_digest no_doubles "fs.move"
          ((none, 5_000_000_000) ∷ (none, 6_000_000_000) ∷ [])
          (approval_checker move_params [])).1.used
        ≡ (first_outcome plain_digest no_doubles "fs.move" none 5_000_000_000 move_params []).used)
check_all-consumes_once_example =
    check_all-consumes_once plain_digest no_doubles "fs.move" none 5_000_000_000
      ((none, 6_000_000_000) ∷ []) move_params []
