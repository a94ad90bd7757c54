-- ===== src/Policy/Marker.antt =====
-- commands/config_mutation.py: a mutation runs only with a native approval marker, bound to the call
-- and used once.
pub mod Once
pub mod Checker
use openclaw_hass_node.Prelude.{
  ℕ, ◌*◌, ◌+◌, String, ◌<>◌, ◌≡◌, refl, Bool, true, false, not, ◌&&◌, ◌||◌, Option, none, some,
  List, [], ◌∷◌, ◌++◌, ◌==◌, if◌then◌else◌, contains, all, keep, is_some, ℤ, pos, negsuc, ltb,
}
use openclaw_hass_node.Value.{
  Value, int, str, dict, Fields, end, field, get, has, keys, put, remove,
}
use openclaw_hass_node.Caller.{Caller}
use openclaw_hass_node.Policy.{refusal}
use openclaw_hass_node.Policy.Approval.{approval_exempt}
use openclaw_hass_node.Policy.Canonical.{DecimalTuple, canonical}

-- `APPROVAL_PARAM`, and the other member of `_RESERVED`
abbrev pub approval_param : String
approval_param = "_openclaw_approval"

abbrev pub caller_param : String
caller_param = "_openclaw_caller"

-- `_USED_IDS`: the ids of consumed markers and their expiry, in seconds.
abbrev pub UsedIds : Type 0
UsedIds = List (String × ℤ)

-- `used_ids[id]`
unfoldable pub expiry_of : String → UsedIds → Option ℤ
expiry_of id [] = none
expiry_of id ((j, exp) ∷ used) = if j == id then some exp else expiry_of id used

-- `_USED_IDS[id] = exp`
unfoldable pub record_use : String → ℤ → UsedIds → UsedIds
record_use id exp [] = (id, exp) ∷ []
record_use id exp ((j, e) ∷ used) =
    let rest = record_use id exp used in if j == id then (id, exp) ∷ used else (j, e) ∷ rest

-- `exp < now`, where `now` is the clock's reading in nanoseconds since the epoch.
unfoldable pub is_expired : ℕ → ℤ → Bool
is_expired now (pos exp) = ltb (exp * 1_000_000_000) now
is_expired now (negsuc exp) = true

-- The loop that deletes the expired ids.
unfoldable pub purge : ℕ → UsedIds → UsedIds
purge now [] = []
purge now ((id, exp) ∷ used) =
    let rest = purge now used in if is_expired now exp then rest else (id, exp) ∷ rest

-- A marker whose shape was checked.
pub record Marker : Type 0 where
  pub id : String
  pub exp : ℤ
  pub bind : String

typed_marker : Option Value → Option Value → Option Value → Option Marker
typed_marker (some (str id)) (some (int exp)) (some (str bind)) =
    if id == "" then none else some (record { id = id; exp = exp; bind = bind })
typed_marker _ _ _ = none

abbrev marker_keys : List String
marker_keys = "id" ∷ "exp" ∷ "bind" ∷ []

-- The shape test: a dict with exactly the three keys, a text id that is not empty, an `int` that is
-- no `bool`, and a text.
unfoldable pub parse_marker : Value → Option Marker
unfolding typed_marker
parse_marker (dict d) =
    if all (contains (keys d)) marker_keys && all (contains marker_keys) (keys d)
    then typed_marker (get "id" d) (get "exp" d) (get "bind" d)
    else none
parse_marker _ = none

-- `require_config_mutation_approval`
unfoldable pub require_config_mutation_approval : String → String → Fields
require_config_mutation_approval command action =
    let target = if action == "" then command else command <> " action=" <> action in
    refusal "PROPOSAL_REQUIRED"
      (target <> ": mutation requires native approval; proposal_id alone is not authorization")

-- What a check leaves: `none` for an authorized call, the parameters without the marker, and the ids.
pub record Outcome : Type 0 where
  pub answer : Option Fields
  pub params : Fields
  pub used : UsedIds

abbrev pub invalid : String → Fields
invalid = refusal "APPROVAL_INVALID"

-- `sha256_hex` is what `hashlib` computes of a text, `as_tuple` how `decimal` reads a double.
module _ (sha256_hex : String → String) (as_tuple : ℕ → DecimalTuple) where
  -- `approval_bind`
  unfoldable pub approval_bind : String → String → Fields → String
  approval_bind command action params = sha256_hex (
      canonical as_tuple (
        dict (
          field "command" (str command) (
            field "action" (str action)
              (field "params" (dict (remove caller_param (remove approval_param params))) end)))))

  -- The checks after the shape, on the purged ids.
  judge : ℕ → String → String → Fields → Marker → UsedIds → Outcome
  judge now command action params marker used =
      if is_expired now marker.exp
      then record {
        answer = some (invalid "approval marker has expired");
        params = params;
        used = used;
      }
      else if not (marker.bind == approval_bind command action params)
      then record {
        answer = some (invalid "approval marker does not match this call");
        params = params;
        used = used;
      }
      else if is_some (expiry_of marker.id used)
      then record {
        answer = some (invalid "approval marker was already used");
        params = params;
        used = used;
      }
      else record { answer = none; params = params; used = record_use marker.id marker.exp used }

  consume_parsed : ℕ → String → String → Fields → Option Marker → UsedIds → Outcome
  unfolding judge
  consume_parsed now command action params none used = record {
    answer = some (invalid "approval marker is malformed");
    params = params;
    used = used;
  }
  consume_parsed now command action params (some marker) used =
      judge now command action params marker (purge now used)

  consume_present : Option Caller → ℕ → String → String → Fields → Option Value → UsedIds → Outcome
  unfolding consume_parsed parse_marker
  consume_present caller now command action params none used = record {
    answer =
        if approval_exempt caller command action
        then none
        else some (require_config_mutation_approval command action);
    params = params;
    used = used;
  }
  consume_present caller now command action params (some marker) used =
      consume_parsed now command action (remove approval_param params) (parse_marker marker) used

  -- `consume_approval_marker`, with `CURRENT_CALLER` and the clock's reading.
  unfoldable pub consume_approval_marker :
      Option Caller → ℕ → String → String → Fields → UsedIds → Outcome
  unfolding consume_present
  consume_approval_marker caller now command action params used =
      consume_present caller now command action params (get approval_param params) used
