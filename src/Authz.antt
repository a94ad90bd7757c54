-- ===== src/Authz.antt =====
-- app/node/src/openclaw_node/authz.py with the identity options of config.py: who an Assist turn
-- speaks for, and which commands and services that role may use. This file has the shared data.
pub mod Services
pub mod Glob
pub mod Commands
pub mod Forbidden
pub mod Turn
pub mod Codes
use openclaw_hass_node.Prelude.{
  String, ◌≡◌, refl, Bool, true, false, Option, none, some, List, [], ◌∷◌, ◌==◌, if◌then◌else◌,
}

-- `Role`
pub data Role : Type 0 where
  user admin super_admin : Role

-- `ForbiddenCommandPatch`
pub record ForbiddenCommandPatch : Type 0 where
  pub add : List String
  pub remove : List String

-- `IdentityConfig`; `forbidden_commands` and `user_agent_map` are dicts.
pub record IdentityConfig : Type 0 where
  pub super_admins : List String
  pub user_agent_map : List (String × String)
  pub default_agent_id : String
  pub user_role_agent_id : String
  pub admin_role_agent_id : String
  pub forbidden_commands : Role → Option ForbiddenCommandPatch

-- `Actor`
pub record Actor : Type 0 where
  pub user_id : String
  pub is_admin : Bool

-- `IdentityConfig()`
abbrev pub default_identity : IdentityConfig
default_identity = record {
  super_admins = [];
  user_agent_map = [];
  default_agent_id = "";
  user_role_agent_id = "";
  admin_role_agent_id = "";
  forbidden_commands = λ _. none;
}
