-- ===== src/Tests/Commands.antt =====
-- The handlers' shared checks on concrete parameters.
use openclaw_hass_node.Prelude.{
  none, keep, strip, strip_prefix, String, ◌≡◌, refl, true, not, ◌&&◌, ◌||◌, is_some, List, [], ◌∷◌,
  contains, any, pos, sorted_set,
}
use openclaw_hass_node.Value.{null, dict, Value, bool, int, str, Fields, end, field, get, keys, put}
use openclaw_hass_node.Authz.Codes.{Number}
use openclaw_hass_node.Authz.Codes.Scrub.{Printing}
use openclaw_hass_node.Authz.Services.Code.{
  body, value_error, normalise_service_code, is_text_code, normalise_service_code-text,
}
use openclaw_hass_node.Commands.Filters.{
  entity_registry_filters, filter_param_error, filter_entity_registry,
}
use openclaw_hass_node.Commands.Filters.Honoured.{is_wanted, filter_entity_registry-keep}
use openclaw_hass_node.Commands.Params.{is_null_at, strict_keys_error, strict_keys_error-exact}

abbrev misspelled : Fields
misspelled = field "path" (str "/config/a") (field "recursve" (bool true) end)

abbrev listing_keys : List String
listing_keys = "path" ∷ "recursive" ∷ []

misspelled_refused : is_some (strict_keys_error misspelled listing_keys []) ≡ true
unfolding strict_keys_error keys sorted_set
misspelled_refused = refl

strict_keys_error-exact_example : is_some (strict_keys_error misspelled listing_keys []) ≡ (
    any (λ k. not (contains listing_keys k)) (keys misspelled)
    || any (λ k. not (contains [] k) && is_null_at misspelled k) listing_keys)
strict_keys_error-exact_example = strict_keys_error-exact misspelled listing_keys []

abbrev four_digits : Number → String
four_digits n = "1234"

abbrev bare : String → String
bare s = s

abbrev digits : Printing
digits = record {
  number_str = four_digits;
  number_json = four_digits;
  number_repr = four_digits;
  text_json = bare;
  text_repr = bare;
}

abbrev front_door : Value → Fields
front_door code = field "entity_id" (str "lock.front") (field "code" code end)

normalised :
    normalise_service_code digits "lock" (front_door (int (pos 1234)))
    ≡ body (front_door (str "1234"))
unfolding normalise_service_code get put
normalised = refl

not_a_code : normalise_service_code digits "lock" (front_door (bool true)) ≡ value_error
unfolding normalise_service_code get
not_a_code = refl

normalise_service_code-text_example :
    (is_text_code (get "code" (front_door (str "1234"))) ≡ true)
    × (get "entity_id" (front_door (str "1234")) ≡ get "entity_id" (front_door (int (pos 1234))))
normalise_service_code-text_example =
    normalise_service_code-text digits "lock" (front_door (int (pos 1234)))
      (front_door (str "1234")) "entity_id" refl refl normalised

abbrev registry : List Value
registry =
    dict (field "entity_id" (str "light.hall") (field "area_id" (str "hall") end))
    ∷ dict (field "entity_id" (str "lock.front") (field "area_id" (str "hall") end))
    ∷ null
    ∷ []

abbrev hall_lights : Fields
hall_lights = field "domain" (str " light ") (field "area_id" (str "hall") end)

hall_lights_usable : filter_param_error hall_lights entity_registry_filters [] ≡ none
unfolding filter_param_error keys get sorted_set strip
hall_lights_usable = refl

hall_lights_found :
    filter_entity_registry registry hall_lights
    ≡ dict (field "entity_id" (str "light.hall") (field "area_id" (str "hall") end)) ∷ []
unfolding filter_entity_registry get strip strip_prefix
hall_lights_found = refl

filter_entity_registry-keep_example :
    filter_entity_registry registry hall_lights ≡ keep (is_wanted hall_lights) registry
filter_entity_registry-keep_example =
    filter_entity_registry-keep hall_lights [] registry hall_lights_usable
