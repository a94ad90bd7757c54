-- ===== src/Authz/Commands.antt =====
-- authz.py: the household `user` policy over the dispatcher's registry, and dispatcher.py's registry
-- of commands.
use openclaw_hass_node.Prelude.{
  String, ◌≡◌, refl, Bool, true, false, not, List, [], ◌∷◌, if◌then◌else◌, contains, all, arith,
  all-of-contains,
}

-- `USER_ALLOWED_COMMANDS`
unfoldable pub user_allowed_commands : List String
user_allowed_commands =
    "ping" ∷ "fs.read" ∷ "fs.list" ∷ "fs.stat" ∷ "fs.glob" ∷ "fs.history" ∷ "fs.diff"
    ∷ "system.which" ∷ "ha.list_states" ∷ "ha.get_state" ∷ "ha.call_service" ∷ "ha.light_turn_on"
    ∷ "ha.light_turn_off" ∷ "ha.list_areas" ∷ "ha.list_devices" ∷ "ha.list_services"
    ∷ "ha.get_config" ∷ "ha.list_events" ∷ "ha.list_config_entries" ∷ "ha.core_logs"
    ∷ "ha.calendar_get_events" ∷ "ha.list_entity_registry" ∷ "ha.logbook" ∷ "ha.history"
    ∷ "ha.list_automations" ∷ "ha.check_config" ∷ "ha.addon_logs" ∷ "ha.list_addons"
    ∷ "ha.addon_info" ∷ "ha.addon_stats" ∷ "ha.addon_changelog" ∷ "ha.addon_documentation"
    ∷ "ha.supervisor_info" ∷ []

-- `USER_FORBIDDEN_COMMANDS`
unfoldable pub user_forbidden_commands : List String
user_forbidden_commands =
    "fs.write" ∷ "fs.delete" ∷ "fs.move" ∷ "fs.restore" ∷ "fs.patch" ∷ "system.run"
    ∷ "system.run.prepare" ∷ "system.execApprovals.get" ∷ "system.execApprovals.set"
    ∷ "ha.reload_config" ∷ "ha.addon_start" ∷ "ha.addon_stop" ∷ "ha.addon_restart"
    ∷ "ha.addon_update" ∷ "ha.update_install" ∷ "ha.config.lovelace" ∷ "ha.config.automation"
    ∷ "ha.config.script" ∷ "ha.config.scene" ∷ "ha.config.helpers" ∷ "ha.config.area_registry"
    ∷ "ha.config.device_registry" ∷ "ha.config.entity_registry" ∷ "ha.config.config_entries" ∷ []

-- The keys of `_REGISTRY`.
unfoldable pub registered_commands : List String
registered_commands =
    "ping" ∷ "fs.read" ∷ "fs.list" ∷ "fs.stat" ∷ "fs.glob" ∷ "fs.write" ∷ "fs.restore"
    ∷ "fs.history" ∷ "fs.diff" ∷ "fs.move" ∷ "fs.delete" ∷ "fs.patch" ∷ "system.run"
    ∷ "system.run.prepare" ∷ "system.which" ∷ "system.execApprovals.get"
    ∷ "system.execApprovals.set" ∷ "ha.list_states" ∷ "ha.get_state" ∷ "ha.call_service"
    ∷ "ha.list_areas" ∷ "ha.list_devices" ∷ "ha.list_services" ∷ "ha.get_config" ∷ "ha.list_events"
    ∷ "ha.list_config_entries" ∷ "ha.core_logs" ∷ "ha.calendar_get_events"
    ∷ "ha.list_entity_registry" ∷ "ha.logbook" ∷ "ha.history" ∷ "ha.reload_config"
    ∷ "ha.light_turn_on" ∷ "ha.light_turn_off" ∷ "ha.list_automations" ∷ "ha.check_config"
    ∷ "ha.addon_logs" ∷ "ha.list_addons" ∷ "ha.addon_info" ∷ "ha.addon_stats" ∷ "ha.addon_changelog"
    ∷ "ha.addon_documentation" ∷ "ha.supervisor_info" ∷ "ha.addon_start" ∷ "ha.addon_stop"
    ∷ "ha.addon_restart" ∷ "ha.addon_update" ∷ "ha.update_install" ∷ "ha.config.lovelace"
    ∷ "ha.config.automation" ∷ "ha.config.script" ∷ "ha.config.scene" ∷ "ha.config.helpers"
    ∷ "ha.config.area_registry" ∷ "ha.config.device_registry" ∷ "ha.config.entity_registry"
    ∷ "ha.config.config_entries" ∷ []

abbrev exactly_one : String → Bool
exactly_one c =
    if contains user_allowed_commands c
    then not (contains user_forbidden_commands c)
    else contains user_forbidden_commands c

registry_split : all exactly_one registered_commands ≡ true
unfolding registered_commands user_allowed_commands user_forbidden_commands
registry_split = refl

-- Every registered command is classified for the household user, as allowed or as forbidden and not
-- as both.
pub registered-classified :
    (command : String)
    → contains registered_commands command ≡ true
    → contains user_allowed_commands command ≡ not (contains user_forbidden_commands command)
registered-classified command h =
    ground (arith, all-of-contains exactly_one registered_commands command registry_split h)

-- Nothing outside the registry is classified.
classified_registered :
    (all (contains registered_commands) user_allowed_commands ≡ true)
    × (all (contains registered_commands) user_forbidden_commands ≡ true)
unfolding registered_commands user_allowed_commands user_forbidden_commands
classified_registered = (refl, refl)

pub allowed-registered :
    (command : String)
    → contains user_allowed_commands command ≡ true
    → (contains registered_commands command ≡ true)
      × (contains user_forbidden_commands command ≡ false)
allowed-registered command h =
    let r =
      all-of-contains (contains registered_commands) user_allowed_commands command
        classified_registered.0 h in
    (r, ground (arith, registered-classified command r))
