-- ===== src/Commands/Filters.antt =====
-- commands/ha.py: the filters of the registry commands, and the check of their parameters.
pub mod Honoured
use openclaw_hass_node.Prelude.{
  String, ◌<>◌, Bool, true, false, not, ◌&&◌, ◌||◌, Option, none, some, is_some, List, [], ◌∷◌,
  ◌++◌, ◌==◌, if◌then◌else◌, contains, sorted_set, keep, strip, strip_prefix,
}
use openclaw_hass_node.Value.{
  Value, null, bool, int, float, str, list, dict, Items, nil, cons, Fields, keys, get,
}
use openclaw_hass_node.Policy.{refusal}
use openclaw_hass_node.Commands.Params.{join}

-- `ENTITY_REGISTRY_FILTERS`
abbrev pub entity_registry_filters : List String
entity_registry_filters = "domain" ∷ "platform" ∷ "area_id" ∷ "device_id" ∷ []

-- `_filter_value`
unfoldable pub filter_value : Option Value → String
filter_value (some (str s)) = strip s
filter_value _ = ""

-- `name in params` with a value that is no text or a blank one
abbrev pub is_unusable : Option Value → Bool
is_unusable none = false
is_unusable (some (str s)) = strip s == ""
is_unusable (some v) = true

abbrev pub first_unusable : Fields → List String → Option Fields
first_unusable params [] = none
first_unusable params (name ∷ names) =
    let rest = first_unusable params names in
    if is_unusable (get name params)
    then some (refusal "INVALID_PARAM" (name <> " must be a non-empty string when supplied"))
    else rest

abbrev pub unknown_or : Fields → List String → List String → List String → Option Fields
unknown_or params names extra [] = first_unusable params names
unknown_or params names extra (k ∷ ks) = some (
    refusal "INVALID_PARAM" (
      "unknown parameter(s): "
      <> join (k ∷ ks)
      <> "; allowed: "
      <> join (sorted_set (names ++ extra))))

-- `filter_param_error`
unfoldable pub filter_param_error : Fields → List String → List String → Option Fields
filter_param_error params names extra =
    unknown_or params names extra
      (sorted_set (keep (λ k. not (contains names k || contains extra k)) (keys params)))

-- A filter that is not empty.
abbrev pub active : String → Bool
active s = not (s == "")

-- `entry.get(name) == text`
abbrev pub text_is : Option Value → String → Bool
text_is (some (str s)) text = s == text
text_is _ text = false

-- `isinstance(v, str) and v.startswith(prefix)`
abbrev pub text_starts : Option Value → String → Bool
text_starts (some (str s)) prefix = is_some (strip_prefix s prefix)
text_starts _ prefix = false

-- The loop of `filter_entity_registry`.
unfoldable pub select_entities : String → String → String → String → List Value → List Value
select_entities domain platform area_id device_id [] = []
select_entities domain platform area_id device_id (dict e ∷ entries) =
    let rest = select_entities domain platform area_id device_id entries in
    if active domain && not (text_starts (get "entity_id" e) (domain <> "."))
    then rest
    else if active platform && not (text_is (get "platform" e) platform)
    then rest
    else if active area_id && not (text_is (get "area_id" e) area_id)
    then rest
    else if active device_id && not (text_is (get "device_id" e) device_id)
    then rest
    else dict e ∷ rest
select_entities domain platform area_id device_id (v ∷ entries) =
    select_entities domain platform area_id device_id entries

-- `filter_entity_registry`
unfoldable pub filter_entity_registry : List Value → Fields → List Value
unfolding filter_value select_entities
filter_entity_registry entries params =
    let domain = filter_value (get "domain" params) in
    let platform = filter_value (get "platform" params) in
    let area_id = filter_value (get "area_id" params) in
    let device_id = filter_value (get "device_id" params) in
    if not (active domain)
      && not (active platform)
      && not (active area_id)
      && not (active device_id)
    then entries
    else select_entities domain platform area_id device_id entries

-- `text in owning`
abbrev pub is_member : Items → String → Bool
is_member nil text = false
is_member (cons v vs) text = text_is (some v) text || is_member vs text

abbrev pub is_owned : Option Value → String → Bool
is_owned (some (list vs)) text = is_member vs text
is_owned _ text = false

-- The loop of `filter_device_registry`, and the function.
unfoldable pub select_devices : String → String → List Value → List Value
select_devices area_id config_entry_id [] = []
select_devices area_id config_entry_id (dict d ∷ devices) =
    let rest = select_devices area_id config_entry_id devices in
    if active area_id && not (text_is (get "area_id" d) area_id)
    then rest
    else if active config_entry_id && not (is_owned (get "config_entries" d) config_entry_id)
    then rest
    else dict d ∷ rest
select_devices area_id config_entry_id (v ∷ devices) =
    select_devices area_id config_entry_id devices

unfoldable pub filter_device_registry : List Value → Fields → List Value
unfolding filter_value select_devices
filter_device_registry devices params =
    let area_id = filter_value (get "area_id" params) in
    let config_entry_id = filter_value (get "config_entry_id" params) in
    if not (active area_id) && not (active config_entry_id)
    then devices
    else select_devices area_id config_entry_id devices
