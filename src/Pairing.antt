-- ===== src/Pairing.antt =====
-- app/node/src/openclaw_node/pairing.py: the pairing state machine.
pub mod Exact
use openclaw_hass_node.Prelude.{String, Bool, true, false, Option, none, some, ◌==◌, if◌then◌else◌}

-- `PairingState`
pub data PairingState : Type 0 where
  unknown pending paired error : PairingState

-- `PairingError`; `Ms` is the type of the delay that the gateway may recommend.
pub record PairingError (Ms : Type 0) : Type 0 where
  pub code : String
  pub message : String
  pub retry_after_ms : Option Ms

-- `x or y`, for a text that may be missing.
abbrev pub or_else : Option String → String → String
or_else none y = y
or_else (some x) y = if x == "" then y else x

module _ {Ms : Type 0} where
  -- `on_connect_response`, with the text of the payload for `str(payload or "")`
  abbrev pub on_connect_response :
      Bool → String → Option String → String → Option Ms → PairingState × Option (PairingError Ms)
  on_connect_response true payload error_code error_message retry_after_ms = (paired, none)
  on_connect_response false payload error_code error_message retry_after_ms =
      let code = or_else error_code "UNKNOWN_ERROR" in
      if code == "PAIRING_REQUIRED" then (pending, none) else (
        error,
        some record {
          code = code;
          message = if error_message == "" then payload else error_message;
          retry_after_ms = retry_after_ms;
        },
      )

-- `on_reconnect`
abbrev pub on_reconnect : PairingState → PairingState
on_reconnect error = error
on_reconnect state = unknown

-- `is_paired`, `is_pending`
abbrev pub is_paired : PairingState → Bool
is_paired paired = true
is_paired state = false

abbrev pub is_pending : PairingState → Bool
is_pending pending = true
is_pending state = false
