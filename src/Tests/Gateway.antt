-- ===== src/Tests/Gateway.antt =====
-- Invoke requests on a node whose handler of `ping` answers, and failures to reconnect after.
use openclaw_hass_node.Prelude.{
  strip_prefix, sorted_set, strip, find_key, put_key, pop_key, pos, ℕ, ◌+◌, String, ◌<>◌, ◌≡◌, ◌≢◌,
  refl, true, false, ◌&&◌, Option, none, some, [], ◌∷◌, ◌++◌, leb, inr, if◌then◌else◌, ◌==◌, occurs,
}
use openclaw_hass_node.Value.{
  Value, null, bool, int, str, list, dict, nil, cons, Fields, end, field, get, remove, put,
}
use openclaw_hass_node.Authz.Codes.{Number, collect_codes, code_at, extended}
use openclaw_hass_node.Authz.Codes.Mask.{mask_text, form_at, mask_passes, substitute}
use openclaw_hass_node.Authz.Codes.Scrub.{Printing}
use openclaw_hass_node.Authz.Commands.{registered_commands, user_allowed_commands}
use openclaw_hass_node.Authz.Services.{service_for_command}
use openclaw_hass_node.Authz.Forbidden.{is_forbidden}
use openclaw_hass_node.Authz.Codes.Scrub.{
  scrub_codes, walk, masker, all_forms, code_forms, choose_mask,
}
use openclaw_hass_node.Policy.Effect.{check}
use openclaw_hass_node.Relay.Turns.{active_caller, leave_turn, enter_turn}
use openclaw_hass_node.Relay.Turns.Current.{entered}
use openclaw_hass_node.Dispatch.{returned, Node, Handlers, dispatch}
use openclaw_hass_node.Relay.Turns.Current.{after}
use openclaw_hass_node.Gateway.Params.{
  Loaded, loaded, decode_error, decode_invoke_params, out_of_fuel, check_params_shape,
}
use openclaw_hass_node.Gateway.Params.Shape.{
  members, nesting, is_accepted, check_params_shape-within,
}
use openclaw_hass_node.Gateway.Caller.{resolved as accepted, resolve_invoke_caller}
use openclaw_hass_node.Gateway.Invoke.{Libraries, answer, bounded_frame, handle_invoke}
use openclaw_hass_node.Gateway.Invoke.Replies.{IsAnswered, handle_invoke-IsAnswered}
use openclaw_hass_node.Gateway.Reconnect.{Failure, seconds, next_reconnect_delay, is_rate_limited}
use openclaw_hass_node.Gateway.Reconnect.Backoff.{is_limited, delay_after, doubled, backoff-doubles}
use openclaw_hass_node.Tests.Relay.{as_is, admin_principal, two_turns}

abbrev as_number : Number → String
as_number n = "7"

abbrev in_quotes : String → String
in_quotes s = "\"" <> s <> "\""

abbrev printing : Printing
printing = record {
  number_str = as_number;
  number_json = as_number;
  number_repr = as_number;
  text_json = in_quotes;
  text_repr = in_quotes;
}

abbrev answers : Handlers ℕ String
answers = record {
  handler = λ command given caller n. (returned (dict (field "pong" (bool true) end)), n + 1);
  settle = λ command given caller n. (inr "not a coroutine", n);
}

abbrev idle : Node ℕ
idle = record { current_caller = none; world = 0; calls = [] }

abbrev hinted : Fields
hinted = field "_openclaw_caller" (dict (field "sessionKey" (str "ha-assist:a") end)) end

-- `json.loads` of the one text that the requests below carry.
abbrev parse : String → Loaded
parse s = if s == "hinted" then loaded (dict hinted) else decode_error

abbrev libraries : Libraries
libraries = record {
  encodable = λ s. true;
  loads = parse;
  dumps = λ d. some "frame";
  printed = λ v. "";
  lower = as_is;
  frame_id = "f1";
  replacement_id = "f2";
}

abbrev ping_request : Fields
ping_request = field "id" (str "i1") (
    field "nodeId" (str "n1")
      (field "command" (str "ping") (field "paramsJSON" (str "hinted") end)))

pinged :
    (handle_invoke printing answers libraries ping_request 9
      (idle, some (after as_is two_turns))).1.0.calls
    ≡ ("ping", end, some admin_principal) ∷ []
unfolding handle_invoke decode_invoke_params get check_params_shape resolve_invoke_caller strip
    active_caller leave_turn pop_key enter_turn put_key dispatch registered_commands check
    service_for_command is_forbidden remove collect_codes
pinged = refl

handle_invoke-IsAnswered_example :
    IsAnswered printing answers libraries "i1" "n1"
      (decode_invoke_params (λ s. true) parse ping_request)
      (handle_invoke printing answers libraries ping_request 9
        (idle, some (after as_is two_turns))).0
unfolding get
handle_invoke-IsAnswered_example =
    handle_invoke-IsAnswered printing answers libraries ping_request 9
      (idle, some (after as_is two_turns))

abbrev nested : Value
nested = list (cons (dict (field "a" (int (pos 1)) end)) (cons null nil))

check_params_shape-within_example :
    (check_params_shape nested ≢ out_of_fuel)
    × (is_accepted (check_params_shape nested)
        ≡ (leb (members nested) 4096 && leb (nesting nested) 64))
check_params_shape-within_example = check_params_shape-within nested

-- A failure that says so, and one that does not.
abbrev limited : Failure ℕ
limited = record { repr = "PairingError('AUTH_RATE_LIMITED')"; retry_after_ms = none }

abbrev refused : Failure ℕ
refused = record { repr = "ConnectionRefusedError()"; retry_after_ms = none }

is_limited-limited : is_limited limited ≡ true
unfolding is_rate_limited occurs
is_limited-limited = refl

is_limited-refused : is_limited refused ≡ false
unfolding is_rate_limited occurs
is_limited-refused = refl

backoff-doubles_example :
    next_reconnect_delay limited (delay_after ((limited ∷ []) ++ refused ∷ []))
    ≡ (seconds (doubled 1), doubled 1)
unfolding is_rate_limited occurs
backoff-doubles_example =
    backoff-doubles (limited ∷ []) limited is_limited-limited refl refused [] is_limited-refused

-- A supplied code that occurs in the key `ok` masks that key in the policy's refusal. The frame then
-- says that the invoke succeeded, though no handler was called.
abbrev unlock : Fields
unlock =
    field "_openclaw_caller" (dict (field "sessionKey" (str "b") end)) (field "code" (str "ok") end)

abbrev unlocking : Libraries
unlocking = record {
  encodable = λ s. true;
  loads = λ s. loaded (dict unlock);
  dumps = λ d. some "frame";
  printed = λ v. "";
  lower = as_is;
  frame_id = "f1";
  replacement_id = "f2";
}

abbrev delete_request : Fields
delete_request =
    field "id" (str "i1")
      (field "command" (str "fs.delete") (field "paramsJSON" (str "unlock") end))

abbrev ok_of : Option Value → Option Value
ok_of none = none
ok_of (some v) = elim v [ dict d ↦ get "ok" d | w ↦ none ]

abbrev params_of : Option Fields → Option Value
params_of none = none
params_of (some frame) = ok_of (get "params" frame)

masked_refusal :
    (params_of
        (handle_invoke printing answers unlocking delete_request 9
          (idle, some (after as_is (entered "b" none ∷ [])))).0
      ≡ some (bool true))
    × ((handle_invoke printing answers unlocking delete_request 9
          (idle, some (after as_is (entered "b" none ∷ [])))).1.0.calls
        ≡ [])
unfolding handle_invoke get decode_invoke_params check_params_shape resolve_invoke_caller strip
    active_caller enter_turn put_key bounded_frame answer dispatch registered_commands check
    service_for_command user_allowed_commands scrub_codes put mask_text form_at mask_passes
    substitute collect_codes code_at extended is_forbidden remove find_key masker occurs
    strip_prefix walk sorted_set all_forms code_forms choose_mask
masked_refusal = (refl, refl)
