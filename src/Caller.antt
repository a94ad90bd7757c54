-- ===== src/Caller.antt =====
-- app/node/src/openclaw_node/caller.py: who is invoking a node command.
use openclaw_hass_node.Prelude.{String, Option, none, some, List, []}
use openclaw_hass_node.Authz.{Role, user, Actor, default_identity}
use openclaw_hass_node.Authz.Forbidden.{forbidden_for_role}
use openclaw_hass_node.Authz.Turn.{TurnAuthz}

-- `CallerRole`: the roles of an Assist turn, and the authenticated operator.
pub data CallerRole : Type 0 where
  turn_role : Role → CallerRole
  operator : CallerRole

-- `Caller`
pub record Caller : Type 0 where
  pub role : CallerRole
  pub actor_id : String
  pub forbidden : List String

-- `Caller.operator`
abbrev pub operator_caller : String → Caller
operator_caller actor_id = record { role = operator; actor_id = actor_id; forbidden = [] }

abbrev actor_id_of : Option Actor → String
actor_id_of none = "<anonymous>"
actor_id_of (some actor) = actor.user_id

-- `Caller.from_turn`
abbrev pub from_turn : TurnAuthz → Caller
from_turn authz = record {
  role = turn_role authz.role;
  actor_id = actor_id_of authz.actor;
  forbidden = authz.forbidden;
}

-- `UNTRUSTED`
abbrev pub untrusted : Caller
untrusted = record {
  role = turn_role user;
  actor_id = "<untrusted>";
  forbidden = forbidden_for_role default_identity user;
}
