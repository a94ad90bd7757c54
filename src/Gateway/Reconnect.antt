-- ===== src/Gateway/Reconnect.antt =====
-- gateway_ws.py: what the client does after a lost or refused connection.
pub mod Backoff
use openclaw_hass_node.Prelude.{
  ℕ, ◌*◌, min, String, Bool, true, false, not, ◌||◌, ◌&&◌, Option, none, some, List, [], ◌∷◌, ◌==◌,
  if◌then◌else◌, leb, occurs, any,
}
use openclaw_hass_node.Pairing.{or_else}

-- `_RECONNECT_DELAY_S`, `_RATE_LIMITED_BACKOFF_BASE_S`, `_RATE_LIMITED_BACKOFF_MAX_S` and
-- `_RATE_LIMITED_BACKOFF_FACTOR`, in seconds. The floats that the code computes with are these
-- natural numbers.
abbrev pub reconnect_delay_s : ℕ
reconnect_delay_s = 5

abbrev pub rate_limited_backoff_base_s : ℕ
rate_limited_backoff_base_s = 30

abbrev pub rate_limited_backoff_max_s : ℕ
rate_limited_backoff_max_s = 300

abbrev pub rate_limited_backoff_factor : ℕ
rate_limited_backoff_factor = 2

-- An exception as the loop sees it: its `repr`, and for a pairing error the recommended delay.
pub record Failure (Ms : Type 0) : Type 0 where
  pub repr : String
  pub retry_after_ms : Option Ms

-- A wait in seconds, or `retry_after_ms / 1000.0`.
pub data Wait (Ms : Type 0) : Type 0 where
  seconds : ℕ → Wait Ms
  recommended : Ms → Wait Ms

-- `is_rate_limited`
unfoldable pub is_rate_limited : String → Bool
is_rate_limited haystack = occurs "AUTH_RATE_LIMITED" haystack || occurs "wait_then_retry" haystack

-- The delay that follows a rate-limited delay.
abbrev pub grown : ℕ → ℕ
grown delay =
    if leb delay 0
    then rate_limited_backoff_base_s
    else min (delay * rate_limited_backoff_factor) rate_limited_backoff_max_s

-- `_next_reconnect_delay`: the wait, and the new `_rate_limited_delay_s`.
unfoldable pub next_reconnect_delay : {Ms : Type 0} → Failure Ms → ℕ → Wait Ms × ℕ
next_reconnect_delay exc delay = elim exc.retry_after_ms [
  | some ms ↦ (recommended ms, 0)
  | none ↦
      if not (is_rate_limited exc.repr)
      then (seconds reconnect_delay_s, 0)
      else (seconds (grown delay), grown delay)
]

-- The client's tokens, and the token file, if there is one.
pub record Tokens : Type 0 where
  pub pair_fallback_enabled : Bool
  pub device_token : String
  pub pairing_token : Option String
  pub persisted : Option String

-- The `triggers`.
abbrev pub invalid_token_triggers : List String
invalid_token_triggers =
    "NOT_PAIRED" ∷ "PAIRING_REQUIRED" ∷ "AUTH_TOKEN_MISMATCH" ∷ "token_mismatch" ∷ []

-- `_maybe_drop_invalid_device_token`; `safe` is what `_token_path_safe_to_unlink` finds, and
-- `unlinks` whether the removal works.
unfoldable pub maybe_drop_invalid_device_token : Bool → Bool → String → Tokens → Tokens
maybe_drop_invalid_device_token safe unlinks haystack t =
    if not t.pair_fallback_enabled
    then t
    else if not (any (λ trigger. occurs trigger haystack) invalid_token_triggers)
    then t
    else if t.device_token == ""
    then t
    else if t.device_token == or_else t.pairing_token ""
    then t
    else record {
      pair_fallback_enabled = t.pair_fallback_enabled;
      device_token = or_else t.pairing_token "";
      pairing_token = t.pairing_token;
      persisted = if safe && unlinks then none else t.persisted;
    }
