-- ===== src/Authz/Services.antt =====
-- authz.py: the table of everyday-control services, and the canonical `domain.service` that a
-- command would call.
pub mod Canonical
pub mod Code
use openclaw_hass_node.Prelude.{
  get_or, ℕ, String, ◌<>◌, Char, code, ◌≡◌, refl, Bool, true, false, ◌&&◌, ◌||◌, Option, none, some,
  List, [], ◌∷◌, ◌++◌, ◌==◌, if◌then◌else◌, contains, strip, size, all_chars, leb, eqb,
}
use openclaw_hass_node.Value.{Value, str, Fields, get}

-- `_ON_OFF_TOGGLE`
abbrev pub on_off_toggle : List String
on_off_toggle = "turn_on" ∷ "turn_off" ∷ "toggle" ∷ []

-- `HOUSEHOLD_ALLOWED_SERVICES`
unfoldable pub household_allowed_services : List (String × List String)
household_allowed_services =
    ("light", on_off_toggle)
    ∷ ("switch", on_off_toggle)
    ∷ ("input_boolean", on_off_toggle)
    ∷ (
      "media_player",
      on_off_toggle
          ++ "media_play" ∷ "media_pause" ∷ "media_play_pause" ∷ "media_stop" ∷ "media_next_track"
            ∷ "media_previous_track" ∷ "volume_up" ∷ "volume_down" ∷ "volume_mute" ∷ "volume_set"
            ∷ "select_source" ∷ "select_sound_mode" ∷ [],
    )
    ∷ (
      "cover",
      "open_cover" ∷ "close_cover" ∷ "stop_cover" ∷ "toggle" ∷ "set_cover_position"
          ∷ "open_cover_tilt" ∷ "close_cover_tilt" ∷ "stop_cover_tilt" ∷ "toggle_cover_tilt"
          ∷ "set_cover_tilt_position" ∷ [],
    )
    ∷ (
      "climate",
      "turn_on" ∷ "turn_off" ∷ "set_temperature" ∷ "set_hvac_mode" ∷ "set_fan_mode"
          ∷ "set_preset_mode" ∷ "set_humidity" ∷ [],
    )
    ∷ (
      "fan",
      on_off_toggle ++ "set_percentage" ∷ "set_preset_mode" ∷ "oscillate" ∷ "set_direction" ∷ [],
    )
    ∷ (
      "input_select",
      "select_option" ∷ "select_next" ∷ "select_previous" ∷ "select_first" ∷ "select_last" ∷ [],
    )
    ∷ ("input_number", "set_value" ∷ "increment" ∷ "decrement" ∷ [])
    ∷ ("vacuum", "start" ∷ "pause" ∷ "stop" ∷ "return_to_base" ∷ "locate" ∷ "clean_spot" ∷ [])
    ∷ ("humidifier", on_off_toggle ++ "set_humidity" ∷ "set_mode" ∷ [])
    ∷ ("water_heater", "turn_on" ∷ "turn_off" ∷ "set_temperature" ∷ "set_operation_mode" ∷ [])
    ∷ ("remote", on_off_toggle ++ "send_command" ∷ [])
    ∷ ("scene", "turn_on" ∷ [])
    ∷ ("script", "turn_on" ∷ [])
    ∷ ("button", "press" ∷ [])
    ∷ ("lock", "lock" ∷ "unlock" ∷ "open" ∷ [])
    ∷ (
      "alarm_control_panel",
      "alarm_arm_away" ∷ "alarm_arm_home" ∷ "alarm_arm_night" ∷ "alarm_arm_vacation"
          ∷ "alarm_arm_custom_bypass" ∷ "alarm_disarm" ∷ [],
    )
    ∷ []

-- `service.partition(".")`, without the separator: everything before the first dot, and after it.
unfoldable pub partition_dot : String → String × String
partition_dot String.[] = ("", "")
partition_dot (String.◌∷◌ c s) =
    let (domain, name) = partition_dot s in
    if eqb (code c) b'.' then ("", s) else (String.◌∷◌ c domain, name)

abbrev pub in_household_table : String × String → Bool
in_household_table (domain, name) = contains (get_or domain household_allowed_services []) name

-- `service_allowed`
unfoldable pub service_allowed : String → Bool
unfolding household_allowed_services partition_dot
service_allowed service = in_household_table (partition_dot service)

-- `[a-z0-9_]`
abbrev pub is_name_char : Char → Bool
is_name_char ch =
    let c = code ch in (leb b'a' c && leb c b'z') || (leb b'0' c && leb c b'9') || eqb c b'_'

-- `_SERVICE_NAME.fullmatch(value)`, the pattern `^[a-z0-9_]{1,64}$`
unfoldable pub is_service_name : String → Bool
is_service_name value = leb 1 (size value) && leb (size value) 64 && all_chars is_name_char value

-- `_WRAPPER_SERVICES`
unfoldable pub wrapper_service : String → Option String
wrapper_service command =
    if command == "ha.light_turn_on"
    then some "light.turn_on"
    else if command == "ha.light_turn_off"
    then some "light.turn_off"
    else none

-- The loop's body: the value of one key, stripped, if it is a service name.
unfoldable pub name_part : Option Value → Option String
name_part (some (str raw)) =
    let value = strip raw in if is_service_name value then some value else none
name_part _ = none

-- `".".join(parts)` of the two parts
abbrev pub join_parts : Option String → Option String → Option String
join_parts (some domain) (some name) = some (domain <> "." <> name)
join_parts _ _ = none

-- `service_for_command`
unfoldable pub service_for_command : String → Fields → Option String
unfolding wrapper_service name_part
service_for_command command params = elim (wrapper_service command) [
  | some service ↦ some service
  | none ↦
      if command == "ha.call_service"
      then join_parts (name_part (get "domain" params)) (name_part (get "service" params))
      else none
]
