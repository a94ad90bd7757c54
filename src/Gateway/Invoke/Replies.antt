-- ===== src/Gateway/Invoke/Replies.antt =====
-- The frame that answers an invoke.
use openclaw_hass_node.Prelude.{
  ℕ, String, ◌≡◌, ◌≢◌, refl, Bool, true, false, ◌⊎◌, inl, inr, Option, none, some, ◌==◌,
  if◌then◌else◌, arith, Bool-cases, eq_iff,
}
use openclaw_hass_node.Value.{
  Value, null, bool, int, float, str, list, dict, Fields, end, field, get,
}
use openclaw_hass_node.Authz.Codes.Scrub.{Printing}
use openclaw_hass_node.Relay.Turns.{Turns}
use openclaw_hass_node.Dispatch.{
  Result, ok, unknown_command, handler_failed, async_handler, handler_error, overflow_error, Node,
  Handlers, dispatch,
}
use openclaw_hass_node.Gateway.Params.{
  Decoded, params, invalid_params, request_too_large, escaped, decode_invoke_params,
}
use openclaw_hass_node.Gateway.Caller.{
  Resolved, resolved, request_expired, permission_denied, resolve_invoke_caller,
}
use openclaw_hass_node.Gateway.Invoke.{
  Libraries, State, text_of, text_or, is_true, make_req, reply, error_field, answer, bounded_frame,
  within_bound, result_frame, with_caller, with_params, handle_invoke,
}

-- An answer to the invoke: its ids, whether it succeeded, and if not, an error with a code.
abbrev pub IsAnswer : String → String → Fields → Type 0
IsAnswer invoke_id node_id d =
    (get "id" d ≡ some (str invoke_id))
    × (get "nodeId" d ≡ some (str node_id))
    × ((get "ok" d ≡ some (bool true))
        ⊎ ((e : Fields) × (code : String) × (get "ok" d ≡ some (bool false))
            × (get "error" d ≡ some (dict e))
            × (get "code" e ≡ some (str code))
            × (code ≢ "")))

abbrev pub IsFrame : String → String → Fields → Type 0
IsFrame invoke_id node_id frame =
    (d : Fields) × (get "type" frame ≡ some (str "req"))
    × (get "method" frame ≡ some (str "node.invoke.result"))
    × (get "params" frame ≡ some (dict d))
    × IsAnswer invoke_id node_id d

text_or-nonempty : (o : Option Value) (default : String) → default ≢ "" → text_or o default ≢ ""
text_or-nonempty none default n = n
text_or-nonempty (some (str s)) default n = elim (Bool-cases (s == "")) [
  | inl e ↦ ground arith
  | inr e ↦ λ k. ground (arith, eq_iff s "")
]
text_or-nonempty (some null) default n = n
text_or-nonempty (some (bool b)) default n = n
text_or-nonempty (some (int b)) default n = n
text_or-nonempty (some (float b)) default n = n
text_or-nonempty (some (list b)) default n = n
text_or-nonempty (some (dict b)) default n = n

-- A plain error.
error-IsAnswer :
    (invoke_id node_id code : String) (message : Value)
    → code ≢ ""
    → IsAnswer invoke_id node_id (reply invoke_id node_id false (error_field code message))
unfolding get
error-IsAnswer invoke_id node_id code message n = (refl, refl, inr (_, code, refl, refl, refl, n))

response-IsAnswer :
    (invoke_id node_id : String) (result : Fields) (succeeded : Bool) (code message : String)
    → code ≢ ""
    → IsAnswer invoke_id node_id (
        reply invoke_id node_id succeeded (
          field "payload"
            (dict result)
            (if succeeded then end else error_field code (str message))))
unfolding get
response-IsAnswer invoke_id node_id result true code message n = (refl, refl, inl refl)
response-IsAnswer invoke_id node_id result false code message n =
    (refl, refl, inr (_, code, refl, refl, refl, n))

make_req-IsFrame :
    (id invoke_id node_id : String) (d : Fields)
    → IsAnswer invoke_id node_id d
    → IsFrame invoke_id node_id (make_req id "node.invoke.result" d)
unfolding get
make_req-IsFrame id invoke_id node_id d a = (d, refl, refl, refl, a)

module _ {Error : Type 0} where
  answer-IsAnswer :
      (invoke_id node_id : String) (r : Result Error)
      → IsAnswer invoke_id node_id (answer invoke_id node_id r)
  unfolding answer
  answer-IsAnswer invoke_id node_id (ok (dict d)) =
      response-IsAnswer invoke_id node_id d (is_true (get "ok" d)) _ _
        (text_or-nonempty (get "error" d) "COMMAND_ERROR" λ e. cc)
  answer-IsAnswer invoke_id node_id (ok null) = error-IsAnswer invoke_id node_id _ _ λ e. cc
  answer-IsAnswer invoke_id node_id (ok (bool b)) = error-IsAnswer invoke_id node_id _ _ λ e. cc
  answer-IsAnswer invoke_id node_id (ok (int b)) = error-IsAnswer invoke_id node_id _ _ λ e. cc
  answer-IsAnswer invoke_id node_id (ok (float b)) = error-IsAnswer invoke_id node_id _ _ λ e. cc
  answer-IsAnswer invoke_id node_id (ok (str b)) = error-IsAnswer invoke_id node_id _ _ λ e. cc
  answer-IsAnswer invoke_id node_id (ok (list b)) = error-IsAnswer invoke_id node_id _ _ λ e. cc
  answer-IsAnswer invoke_id node_id (unknown_command t m) =
      error-IsAnswer invoke_id node_id _ _ λ e. cc
  answer-IsAnswer invoke_id node_id (handler_failed m) =
      error-IsAnswer invoke_id node_id _ _ λ e. cc
  answer-IsAnswer invoke_id node_id (async_handler m) = error-IsAnswer invoke_id node_id _ _ λ e. cc
  answer-IsAnswer invoke_id node_id overflow_error = error-IsAnswer invoke_id node_id _ _ λ e. cc
  answer-IsAnswer invoke_id node_id (handler_error m) = error-IsAnswer invoke_id node_id _ _ λ e. cc

either-IsFrame :
    (invoke_id node_id : String) (b : Bool) (x y : Fields)
    → IsFrame invoke_id node_id x
    → IsFrame invoke_id node_id y
    → IsFrame invoke_id node_id (if b then x else y)
either-IsFrame invoke_id node_id true x y f g = f
either-IsFrame invoke_id node_id false x y f g = g

-- A frame, or no frame since `json.dumps` raised for the answer.
abbrev IsSent : Libraries → String → String → Option Fields → Type 0
IsSent io invoke_id node_id none =
    (d : Fields) × (io.dumps (make_req io.frame_id "node.invoke.result" d) ≡ none)
    × IsAnswer invoke_id node_id d
IsSent io invoke_id node_id (some frame) = IsFrame invoke_id node_id frame

within_bound-IsSent :
    (io : Libraries) (invoke_id node_id : String) (d : Fields) (encoded : Option String)
    → io.dumps (make_req io.frame_id "node.invoke.result" d) ≡ encoded
    → IsAnswer invoke_id node_id d
    → IsSent io invoke_id node_id
        (within_bound io invoke_id node_id (make_req io.frame_id "node.invoke.result" d) encoded)
within_bound-IsSent io invoke_id node_id d none e a = (d, e, a)
within_bound-IsSent io invoke_id node_id d (some encoded) e a =
    either-IsFrame invoke_id node_id _ _ _
      (make_req-IsFrame _ invoke_id node_id _ (error-IsAnswer invoke_id node_id _ _ λ e. cc))
      (make_req-IsFrame _ invoke_id node_id d a)

result_frame-IsSent :
    (io : Libraries) (invoke_id node_id : String) (d : Fields)
    → IsAnswer invoke_id node_id d
    → IsSent io invoke_id node_id (result_frame io invoke_id node_id d)
unfolding bounded_frame
result_frame-IsSent io invoke_id node_id d a =
    within_bound-IsSent io invoke_id node_id d
      (io.dumps (make_req io.frame_id "node.invoke.result" d)) refl a

module _ {World Error : Type 0} (p : Printing) (h : Handlers World Error) (io : Libraries) where
  caller-IsSent :
      (invoke_id node_id command : String) (r : Resolved × Fields × Option Turns)
      (node : Node World)
      → IsSent io invoke_id node_id (with_caller p h io invoke_id node_id command r node).0
  caller-IsSent invoke_id node_id command (resolved c, rest, relay) node =
      result_frame-IsSent io invoke_id node_id _
        (answer-IsAnswer invoke_id node_id (dispatch p h true c command rest node).0)
  caller-IsSent invoke_id node_id command (Resolved.invalid_params, rest, relay) node =
      make_req-IsFrame _ invoke_id node_id _ (error-IsAnswer invoke_id node_id _ _ λ e. cc)
  caller-IsSent invoke_id node_id command (request_expired, rest, relay) node =
      make_req-IsFrame _ invoke_id node_id _ (error-IsAnswer invoke_id node_id _ _ λ e. cc)
  caller-IsSent invoke_id node_id command (permission_denied, rest, relay) node =
      make_req-IsFrame _ invoke_id node_id _ (error-IsAnswer invoke_id node_id _ _ λ e. cc)

  -- What an invoke is answered with, by how its parameters decode.
  abbrev pub IsAnswered : String → String → Decoded → Option Fields → Type 0
  IsAnswered invoke_id node_id escaped none = true ≡ true
  IsAnswered invoke_id node_id escaped (some frame) = false ≡ true
  IsAnswered invoke_id node_id (params given) sent = IsSent io invoke_id node_id sent
  IsAnswered invoke_id node_id invalid_params sent = IsSent io invoke_id node_id sent
  IsAnswered invoke_id node_id request_too_large sent = IsSent io invoke_id node_id sent

  params-IsAnswered :
      (invoke_id node_id command : String) (d : Decoded) (now : ℕ) (node : Node World)
      (relay : Option Turns)
      → IsAnswered invoke_id node_id d
          (with_params p h io invoke_id node_id command d now (node, relay)).0
  params-IsAnswered invoke_id node_id command (params given) now node relay =
      caller-IsSent invoke_id node_id command (resolve_invoke_caller io.lower given now relay) node
  params-IsAnswered invoke_id node_id command invalid_params now node relay =
      result_frame-IsSent io invoke_id node_id _ (error-IsAnswer invoke_id node_id _ _ λ e. cc)
  params-IsAnswered invoke_id node_id command request_too_large now node relay =
      result_frame-IsSent io invoke_id node_id _ (error-IsAnswer invoke_id node_id _ _ λ e. cc)
  params-IsAnswered invoke_id node_id command escaped now node relay = refl

  -- However its handler ends, an invoke request is answered by a `node.invoke.result` request frame with
  -- the request's own id and node id and a Boolean `ok`, where if `ok` is false the frame has an error
  -- with a code that is not empty; the frame that replaces a result over the size limit is such a frame
  -- as well. There are two exceptions: no frame is sent if decoding the parameters raises an error other
  -- than InvalidInvokeParamsError, and none if `json.dumps` raises for an answer of that kind.
  pub handle_invoke-IsAnswered :
      (payload : Fields) (now : ℕ) (state : State p h io)
      → IsAnswered
          (text_of io (get "id" payload))
          (text_of io (get "nodeId" payload))
          (decode_invoke_params io.encodable io.loads payload)
          (handle_invoke p h io payload now state).0
  unfolding handle_invoke
  handle_invoke-IsAnswered payload now (node, relay) =
      params-IsAnswered (text_of io (get "id" payload)) (text_of io (get "nodeId" payload))
        (text_of io (get "command" payload)) (decode_invoke_params io.encodable io.loads payload)
        now node relay
