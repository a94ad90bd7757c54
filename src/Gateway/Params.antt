-- ===== src/Gateway/Params.antt =====
-- gateway_ws.py: decoding the parameters of an invoke request, within bounds.
pub mod Shape
use Prim.Native.String.{len}
use openclaw_hass_node.Prelude.{
  ℕ, zero, suc, ◌+◌, ◌*◌, ◌≤◌, ◌<◌, max, String, ◌≡◌, refl, Bool, true, false, not, ◌&&◌, ◌||◌,
  Option, none, some, List, [], ◌∷◌, ◌==◌, if◌then◌else◌, ltb, leb,
}
use openclaw_hass_node.Value.{
  Value, null, bool, int, float, str, list, dict, Items, nil, cons, Fields, end, field, get,
}

-- `_MAX_PARAMS_JSON_BYTES`, `_MAX_PARAMS_DEPTH`, `_MAX_PARAMS_MEMBERS`
abbrev pub max_params_json_bytes : ℕ
max_params_json_bytes = 524288

abbrev pub max_params_depth : ℕ
max_params_depth = 64

abbrev pub max_params_members : ℕ
max_params_members = 4096

-- The entries of `stack`, the last one first.
abbrev pub Stack : Type 0
Stack = List (Value × ℕ)

-- `stack.extend((child, depth + 1) for child in children)`
unfoldable pub push_items : Items → ℕ → Stack → Stack
push_items nil depth stack = stack
push_items (cons v vs) depth stack = push_items vs depth ((v, depth) ∷ stack)

unfoldable pub push_values : Fields → ℕ → Stack → Stack
push_values end depth stack = stack
push_values (field k v d) depth stack = push_values d depth ((v, depth) ∷ stack)

-- `len(children)`
unfoldable pub count_items : Items → ℕ
count_items nil = 0
count_items (cons v vs) = suc (count_items vs)

unfoldable pub count_fields : Fields → ℕ
count_fields end = 0
count_fields (field k v d) = suc (count_fields d)

-- How the walk ends.
pub data Verdict : Type 0 where
  accepted too_deep too_wide out_of_fuel : Verdict

-- A container with `n` children: the two tests, and else the rest of the walk.
abbrev pub visit : ℕ → ℕ → ℕ → Verdict → Verdict
visit members depth n rest =
    if ltb max_params_depth depth
    then too_deep
    else if ltb max_params_members (members + n)
    then too_wide
    else rest

-- The loop of `_check_params_shape`; every round pops one value, so the number of values is enough
-- fuel.
unfoldable pub shape_loop : ℕ → ℕ → Stack → Verdict
unfolding push_items push_values count_items count_fields
shape_loop zero members stack = out_of_fuel
shape_loop (suc fuel) members [] = accepted
shape_loop (suc fuel) members ((list vs, depth) ∷ stack) =
    let rest = shape_loop fuel (members + count_items vs) (push_items vs (depth + 1) stack) in
    visit members depth (count_items vs) rest
shape_loop (suc fuel) members ((dict d, depth) ∷ stack) =
    let rest = shape_loop fuel (members + count_fields d) (push_values d (depth + 1) stack) in
    visit members depth (count_fields d) rest
shape_loop (suc fuel) members ((v, depth) ∷ stack) = shape_loop fuel members stack

-- The number of values in a value.
unfoldable mutual
  pub nodes : Value → ℕ
  nodes (list vs) = suc (nodes_items vs)
  nodes (dict d) = suc (nodes_fields d)
  nodes v = 1

  pub nodes_items : Items → ℕ
  nodes_items nil = 0
  nodes_items (cons v vs) = nodes v + nodes_items vs

  pub nodes_fields : Fields → ℕ
  nodes_fields end = 0
  nodes_fields (field k v d) = nodes v + nodes_fields d

-- `_check_params_shape`
unfoldable pub check_params_shape : Value → Verdict
unfolding shape_loop nodes
check_params_shape decoded = shape_loop (suc (nodes decoded)) 0 ((decoded, 1) ∷ [])

-- What `json.loads` returns or raises: a JSONDecodeError, or another ValueError, as for an integer of more
-- than 4300 digits.
pub data Loaded : Type 0 where
  loaded : Value → Loaded
  recursion_error : Loaded
  decode_error : Loaded
  value_error : Loaded

-- Decoded parameters, or the `code` of the exception, or a ValueError that is no
-- InvalidInvokeParamsError.
pub data Decoded : Type 0 where
  params : Fields → Decoded
  invalid_params request_too_large escaped : Decoded

abbrev after_shape : Fields → Verdict → Decoded
after_shape d accepted = params d
after_shape d _ = request_too_large

after_load : Loaded → Decoded
after_load recursion_error = request_too_large
after_load decode_error = invalid_params
after_load value_error = escaped
after_load (loaded (dict d)) = after_shape d (check_params_shape (dict d))
after_load (loaded v) = invalid_params

-- `encodable` says whether `raw_json.encode()` succeeds; it raises for a lone surrogate.
module _ (encodable : String → Bool) (loads : String → Loaded) where
  decode_raw : Option Value → Decoded
  unfolding after_load
  decode_raw (some (str raw_json)) =
      if raw_json == ""
      then invalid_params
      else if not (encodable raw_json)
      then escaped
      else if ltb max_params_json_bytes (len raw_json)
      then request_too_large
      else after_load (loads raw_json)
  decode_raw _ = invalid_params

  -- `_decode_invoke_params`
  unfoldable pub decode_invoke_params : Fields → Decoded
  unfolding decode_raw
  decode_invoke_params payload = decode_raw (get "paramsJSON" payload)
