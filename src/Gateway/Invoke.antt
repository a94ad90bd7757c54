-- ===== src/Gateway/Invoke.antt =====
-- gateway_ws.py: one invoke request, from its payload to the result frame.
pub mod Replies
pub mod Reached
use Prim.Native.String.{len}
use openclaw_hass_node.Prelude.{
  ℕ, String, Bool, true, false, Option, none, some, List, [], ◌∷◌, ◌==◌, if◌then◌else◌, ltb,
}
use openclaw_hass_node.Value.{
  Value, null, bool, int, float, str, list, dict, Items, nil, cons, Fields, end, field, get,
}
use openclaw_hass_node.Authz.Codes.Scrub.{Printing}
use openclaw_hass_node.Caller.{Caller}
use openclaw_hass_node.Relay.Turns.{Turns}
use openclaw_hass_node.Dispatch.{
  Result, ok, unknown_command, handler_failed, async_handler, handler_error, overflow_error, Node,
  Handlers, dispatch,
}
use openclaw_hass_node.Gateway.Params.{
  Loaded, Decoded, params, invalid_params, request_too_large, escaped, decode_invoke_params,
}
use openclaw_hass_node.Gateway.Caller.{
  Resolved, resolved, request_expired, permission_denied, resolve_invoke_caller,
}

-- `_MAX_INVOKE_RESULT_BYTES`
abbrev pub max_invoke_result_bytes : ℕ
max_invoke_result_bytes = 25165824

-- `_make_req`, with the text of the new UUID
abbrev pub make_req : String → String → Fields → Fields
make_req id method given =
    field "type" (str "req")
      (field "id" (str id) (field "method" (str method) (field "params" (dict given) end)))

-- `{**base, "ok": ok, ...}` for `base = {"id": invoke_id, "nodeId": node_id}`
abbrev pub reply : String → String → Bool → Fields → Fields
reply invoke_id node_id succeeded rest =
    field "id" (str invoke_id) (field "nodeId" (str node_id) (field "ok" (bool succeeded) rest))

-- `"error": {"code": code, "message": message}`
abbrev pub error_field : String → Value → Fields
error_field code message =
    field "error" (dict (field "code" (str code) (field "message" message end))) end

-- A text that is not empty, or the default.
abbrev pub text_or : Option Value → String → String
text_or (some (str s)) default = if s == "" then default else s
text_or _ default = default

-- `result.get("ok", True) is True`
abbrev pub is_true : Option Value → Bool
is_true none = true
is_true (some (bool b)) = b
is_true _ = false

-- The response to a result: a failed operation is a failed invoke, with its payload kept.
abbrev pub response : String → String → Fields → Fields
response invoke_id node_id result = reply invoke_id node_id (is_true (get "ok" result)) (
    field "payload" (dict result) (
      if is_true (get "ok" result)
      then end
      else error_field (text_or (get "error" result) "COMMAND_ERROR")
          (str (text_or (get "message" result) "Node command failed"))))

-- What is answered to the end of a dispatch.
unfoldable pub answer : {Error : Type 0} → String → String → Result Error → Fields
answer invoke_id node_id (ok (dict result)) = response invoke_id node_id result
answer invoke_id node_id (unknown_command text command) =
    reply invoke_id node_id false (error_field "UNKNOWN_COMMAND" (str command))
answer invoke_id node_id _ =
    reply invoke_id node_id false (error_field "COMMAND_ERROR" (str "Internal command error"))

-- What the client calls: `str.encode`, `json.loads`, `json.dumps` (`none` where it raises), `str` of a value that is no text, `str.lower`,
-- and the UUIDs of the result frame and of its replacement.
pub record Libraries : Type 0 where
  pub encodable : String → Bool
  pub loads : String → Loaded
  pub dumps : Fields → Option String
  pub printed : Value → String
  pub lower : String → String
  pub frame_id : String
  pub replacement_id : String

-- `str(payload.get(key, ""))`
abbrev pub text_of : Libraries → Option Value → String
text_of io none = ""
text_of io (some (str s)) = s
text_of io (some v) = io.printed v

-- `_send_invoke_result`: the frame that is sent, and `none` where `json.dumps` raises.
abbrev pub within_bound : Libraries → String → String → Fields → Option String → Option Fields
within_bound io invoke_id node_id resp none = none
within_bound io invoke_id node_id resp (some encoded) = some (
    if ltb max_invoke_result_bytes (len encoded)
    then make_req io.replacement_id "node.invoke.result" (
        reply invoke_id node_id false (
          error_field "RESULT_TOO_LARGE" (str "Command ran but its result exceeds the size limit")))
    else resp)

unfoldable pub bounded_frame : Libraries → String → String → Fields → Option Fields
bounded_frame io invoke_id node_id resp = within_bound io invoke_id node_id resp (io.dumps resp)

abbrev pub result_frame : Libraries → String → String → Fields → Option Fields
result_frame io invoke_id node_id rest =
    bounded_frame io invoke_id node_id (make_req io.frame_id "node.invoke.result" rest)

-- The frame of a refused caller, which is sent as it is.
abbrev pub refused_frame : Libraries → String → String → String → String → Option Fields
refused_frame io invoke_id node_id code message = some (
    make_req io.frame_id "node.invoke.result"
      (reply invoke_id node_id false (error_field code (str message))))

module _ {World Error : Type 0} (p : Printing) (h : Handlers World Error) (io : Libraries) where
  -- What an invoke changes: the node, and the relay's registry, if there is a relay.
  abbrev pub State : Type 0
  State = Node World × Option Turns

  abbrev pub with_caller :
      String
      → String
      → String
      → Resolved × Fields × Option Turns
      → Node World
      → Option Fields × State
  with_caller invoke_id node_id command (resolved caller, rest, relay) node =
      let (result, node') = dispatch p h true caller command rest node in
      (result_frame io invoke_id node_id (answer invoke_id node_id result), (node', relay))
  with_caller invoke_id node_id command (Resolved.invalid_params, rest, relay) node =
      (refused_frame io invoke_id node_id "INVALID_PARAMS" "Malformed invoke params", (node, relay))
  with_caller invoke_id node_id command (request_expired, rest, relay) node = (
    refused_frame io invoke_id node_id "REQUEST_EXPIRED"
        "That request expired because the Assist turn has ended. Ask again.",
    (node, relay),
  )
  with_caller invoke_id node_id command (permission_denied, rest, relay) node = (
    refused_frame io invoke_id node_id "PERMISSION_DENIED" "No active Assist turn for caller",
    (node, relay),
  )

  abbrev pub with_params : String → String → String → Decoded → ℕ → State → Option Fields × State
  with_params invoke_id node_id command (params given) now (node, relay) =
      with_caller invoke_id node_id command (resolve_invoke_caller io.lower given now relay) node
  with_params invoke_id node_id command invalid_params now (node, relay) = (
    result_frame io invoke_id node_id (
        reply invoke_id node_id false
          (error_field "INVALID_PARAMS" (str "Malformed invoke params"))),
    (node, relay),
  )
  with_params invoke_id node_id command request_too_large now (node, relay) = (
    result_frame io invoke_id node_id (
        reply invoke_id node_id false
          (error_field "REQUEST_TOO_LARGE" (str "Malformed invoke params"))),
    (node, relay),
  )
  with_params invoke_id node_id command escaped now (node, relay) = (none, (node, relay))

  -- `_handle_invoke`: the frame that is sent, or `none` where an exception leaves it, and the state
  -- afterwards.
  unfoldable pub handle_invoke : Fields → ℕ → State → Option Fields × State
  handle_invoke payload now state =
      with_params (text_of io (get "id" payload)) (text_of io (get "nodeId" payload))
        (text_of io (get "command" payload)) (decode_invoke_params io.encodable io.loads payload)
        now state
