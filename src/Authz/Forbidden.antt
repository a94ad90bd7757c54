-- ===== src/Authz/Forbidden.antt =====
-- authz.py: the forbidden set of a role, patched by the configuration, and whether it blocks a call.
pub mod Floor
pub mod Privilege
use openclaw_hass_node.Prelude.{
  ℕ, String, ◌<>◌, ◌≡◌, refl, Bool, true, false, not, ◌&&◌, ◌||◌, Option, none, some, List, [], ◌∷◌,
  ◌++◌, ◌==◌, if◌then◌else◌, contains, keep, any, strip_prefix, is_some, sorted_set,
}
use openclaw_hass_node.Value.{Fields}
use openclaw_hass_node.Authz.{Role, user, admin, super_admin, ForbiddenCommandPatch, IdentityConfig}
use openclaw_hass_node.Authz.Services.{service_allowed, service_for_command, wrapper_service}
use openclaw_hass_node.Authz.Commands.{user_forbidden_commands}
use openclaw_hass_node.Authz.Glob.{fnmatchcase}

-- `_CALL_SERVICE_PREFIX`, `_USER_SERVICE_WILDCARD`
abbrev pub call_service_prefix : String
call_service_prefix = "ha.call_service:"

abbrev pub user_service_wildcard : String
user_service_wildcard = "ha.call_service:*"

-- `_USER_NON_REMOVABLE`
unfoldable pub user_non_removable : List String
user_non_removable = user_service_wildcard ∷ user_forbidden_commands

-- `_DEFAULT_FORBIDDEN`
unfoldable pub default_forbidden : Role → List String
default_forbidden user = user_non_removable
default_forbidden admin =
    "fs.write" ∷ "fs.delete" ∷ "fs.move" ∷ "fs.restore" ∷ "fs.patch" ∷ "system.run"
    ∷ "ha.call_service:shell_command.*" ∷ "ha.call_service:python_script.*"
    ∷ "ha.call_service:command_line.*" ∷ "ha.call_service:homeassistant.stop" ∷ []
default_forbidden super_admin = []

-- `e.startswith(_CALL_SERVICE_PREFIX)`
abbrev pub is_service_entry : String → Bool
is_service_entry e = is_some (strip_prefix e call_service_prefix)

-- The entries of `remove` that the role's patch may take out.
removable : Role → List String → List String
removable user remove = keep (λ e. not (contains user_non_removable e)) remove
removable _ remove = remove

-- The defaults after `patch.add` and `patch.remove`
pub patched : Role → Option ForbiddenCommandPatch → List String
unfolding removable
patched role none = default_forbidden role
patched role (some patch) =
    keep (λ e. not (contains (removable role patch.remove) e)) (default_forbidden role ++ patch.add)

pub service_additions : Option ForbiddenCommandPatch → List String
service_additions none = []
service_additions (some patch) = keep is_service_entry patch.add

-- `_inherited_service_prohibitions`; `super_admin` inherits nothing.
pub inherited_service_prohibitions : IdentityConfig → Role → List String
unfolding service_additions
inherited_service_prohibitions identity user =
    service_additions (identity.forbidden_commands admin)
    ++ service_additions (identity.forbidden_commands super_admin)
inherited_service_prohibitions identity admin =
    service_additions (identity.forbidden_commands super_admin)
inherited_service_prohibitions identity super_admin = []

-- `forbidden_for_role`
unfoldable pub forbidden_for_role : IdentityConfig → Role → List String
unfolding patched inherited_service_prohibitions
forbidden_for_role identity role = sorted_set (
    patched role (identity.forbidden_commands role) ++ inherited_service_prohibitions identity role)

-- The patterns behind the prefix of the service entries, in order.
pub service_patterns : List String → List String
service_patterns [] = []
service_patterns (e ∷ entries) =
    let rest = service_patterns entries in
    elim (strip_prefix e call_service_prefix) [ none ↦ rest | some pattern ↦ pattern ∷ rest ]

-- Whether one pattern blocks a service: `*` stands for every service outside the household table.
abbrev pub pattern_blocks : String → String → Bool
pattern_blocks service pattern =
    if pattern == "*" then not (service_allowed service) else fnmatchcase service pattern

-- With any service entry present a malformed service name is blocked.
unfoldable pub patterns_block : List String → Option String → Bool
patterns_block [] service = false
patterns_block (p ∷ ps) none = true
patterns_block (p ∷ ps) (some service) = any (pattern_blocks service) (p ∷ ps)

-- Commands that call a service.
abbrev pub calls_service : String → Bool
calls_service command = command == "ha.call_service" || is_some (wrapper_service command)

-- `is_forbidden`
unfoldable pub is_forbidden : List String → String → Fields → Bool
unfolding service_patterns patterns_block
is_forbidden entries command params =
    if contains entries command
    then true
    else if not (calls_service command)
    then false
    else patterns_block (service_patterns entries) (service_for_command command params)
