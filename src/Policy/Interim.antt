-- ===== src/Policy/Interim.antt =====
-- commands/ha.py: services that no caller may reach through `ha.call_service`.
use openclaw_hass_node.Prelude.{
  String, ◌<>◌, Option, none, some, List, [], ◌∷◌, ◌==◌, if◌then◌else◌, strip_prefix, is_some,
  get_or,
}

-- `_INTERIM_DENIED_SERVICE_PATTERNS`
unfoldable pub interim_denied_service_patterns : List (String × String)
interim_denied_service_patterns =
    ("hassio.addon_start", "use ha.addon_start with node slug policy")
    ∷ ("hassio.addon_stop", "use ha.addon_stop with node slug policy")
    ∷ ("hassio.addon_restart", "use ha.addon_restart with node slug policy")
    ∷ ("hassio.addon_update", "use ha.addon_update with node slug policy")
    ∷ ("hassio.app_start", "use ha.addon_start with node slug policy")
    ∷ ("hassio.app_stop", "use ha.addon_stop with node slug policy")
    ∷ ("hassio.app_restart", "use ha.addon_restart with node slug policy")
    ∷ ("hassio.app_update", "use ha.addon_update with node slug policy")
    ∷ ("hassio.addon_stdin", "use the future service effect-policy path")
    ∷ ("hassio.app_stdin", "use the future service effect-policy path")
    ∷ ("hassio.host_reboot", "use the future host lifecycle approval path")
    ∷ ("hassio.host_shutdown", "use the future host lifecycle approval path")
    ∷ ("hassio.host_update", "use the future host update approval path")
    ∷ ("hassio.supervisor_update", "use the future Supervisor update approval path")
    ∷ ("hassio.mount_reload", "use the dedicated reload/configuration policy path")
    ∷ ("update.*", "use ha.update_install with operator approval")
    ∷ ("shell_command.*", "use system.run with native exec approval")
    ∷ ("python_script.*", "use the future service effect-policy path")
    ∷ ("command_line.*", "use the future service effect-policy path")
    ∷ ("homeassistant.restart", "use the future lifecycle approval path")
    ∷ ("homeassistant.stop", "use the future shutdown approval path")
    ∷ ("*.reload", "use the dedicated reload/configuration policy path")
    ∷ ("*.reload_*", "use the dedicated reload/configuration policy path")
    ∷ []

-- The candidate patterns after the first two.
reload_candidates : String → List String
unfolding strip_prefix
reload_candidates service =
    if service == "reload"
    then "*.reload" ∷ []
    else if is_some (strip_prefix service "reload_")
    then "*.reload_*" ∷ []
    else []

-- The first candidate with a reason; an empty reason counts as none.
first_reason : List String → Option String
unfolding interim_denied_service_patterns
first_reason [] = none
first_reason (pattern ∷ candidates) =
    let reason = get_or pattern interim_denied_service_patterns "" in
    let rest = first_reason candidates in if reason == "" then rest else some reason

-- `_interim_service_denial`
unfoldable pub interim_service_denial : String → String → Option String
unfolding reload_candidates first_reason
interim_service_denial domain service =
    first_reason ((domain <> "." <> service) ∷ (domain <> ".*") ∷ reload_candidates service)
