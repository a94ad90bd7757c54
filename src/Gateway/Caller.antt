-- ===== src/Gateway/Caller.antt =====
-- gateway_ws.py: who invokes, from the reserved field of the parameters and the relay's registry.
pub mod Sound
use openclaw_hass_node.Prelude.{
  ℕ, String, Bool, true, false, not, ◌||◌, Option, none, some, List, [], ◌∷◌, ◌==◌, if◌then◌else◌,
  strip,
}
use openclaw_hass_node.Value.{Value, str, dict, Fields, get, remove}
use openclaw_hass_node.Caller.{Caller, operator_caller}
use openclaw_hass_node.Relay.Turns.{Turns, active_caller, recently_ended}

-- `_CALLER_PARAM`, `_INVOKE_CALLER`
abbrev pub caller_hint_param : String
caller_hint_param = "_openclaw_caller"

abbrev pub invoke_caller : Caller
invoke_caller = operator_caller "gateway-invoke"

-- A session key from the hint, no hint, or the exception `CallerRefusedError`.
pub data Hint : Type 0 where
  no_hint : Hint
  names : String → Hint
  malformed : Hint

abbrev pub session_key_of : Value → Option Value
session_key_of (dict d) = get "sessionKey" d
session_key_of v = none

abbrev pub checked_key : Option Value → Hint
checked_key (some (str s)) = if strip s == "" then malformed else names s
checked_key _ = malformed

-- `_pop_caller_hint`: the hint, and the parameters without the field.
unfoldable pub pop_caller_hint : Fields → Hint × Fields
pop_caller_hint params = elim (get caller_hint_param params) [
  | none ↦ (no_hint, params)
  | some hint ↦ (checked_key (session_key_of hint), remove caller_hint_param params)
]

-- The caller, or the code of `CallerRefusedError`.
pub data Resolved : Type 0 where
  resolved : Caller → Resolved
  invalid_params request_expired permission_denied : Resolved

-- Which refusal: whether the turn was there and ended.
abbrev pub refused_after : Bool × Turns → Resolved × Option Turns
refused_after (true, turns) = (request_expired, some turns)
refused_after (false, turns) = (permission_denied, some turns)

module _ (lower : String → String) where
  -- A hint with a session key, by the relay's registry if there is a relay.
  abbrev pub by_registry : String → ℕ → Turns → Option Caller → Resolved × Option Turns
  by_registry key now turns (some caller) = (resolved caller, some turns)
  by_registry key now turns none = refused_after (recently_ended lower key now turns)

  abbrev pub by_relay : String → ℕ → Option Turns → Resolved × Option Turns
  by_relay key now none = (permission_denied, none)
  by_relay key now (some turns) = by_registry key now turns (active_caller lower key turns)

  abbrev pub by_hint : Hint → ℕ → Option Turns → Resolved × Option Turns
  by_hint no_hint now relay = (resolved invoke_caller, relay)
  by_hint malformed now relay = (invalid_params, relay)
  by_hint (names key) now relay = by_relay key now relay

  -- `_resolve_invoke_caller`: the caller, the parameters that are left, and the relay's registry
  -- after the queries. `now` is the clock of the relay.
  unfoldable pub resolve_invoke_caller :
      Fields → ℕ → Option Turns → Resolved × Fields × Option Turns
  unfolding pop_caller_hint
  resolve_invoke_caller params now relay =
      let (hint, rest) = pop_caller_hint params in
      let (answer, relay') = by_hint hint now relay in (answer, rest, relay')
