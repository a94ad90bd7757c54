-- ===== src/Policy/Approval.antt =====
-- approval_policy.py: which gated mutations need no native approval, for whom.
use openclaw_hass_node.Prelude.{
  String, ◌≡◌, ◌≢◌, refl, Bool, true, false, not, ◌||◌, Option, none, some, List, [], ◌∷◌, ◌==◌,
  eq_iff, if◌then◌else◌, listed, table_all, table_all-listed, arith,
}
use openclaw_hass_node.Authz.{user, admin, super_admin}
use openclaw_hass_node.Caller.{Caller, CallerRole, turn_role, operator}

-- `ActionTable`
abbrev pub ActionTable : Type 0
ActionTable = List (String × List String)

abbrev no_action : List String
no_action = "" ∷ []

-- `DESTRUCTIVE`
unfoldable pub destructive : ActionTable
destructive =
    ("ha.config.automation", "delete" ∷ [])
    ∷ ("ha.config.script", "delete" ∷ [])
    ∷ ("ha.config.scene", "delete" ∷ [])
    ∷ ("ha.config.helpers", "delete" ∷ [])
    ∷ ("ha.config.area_registry", "delete" ∷ [])
    ∷ ("ha.config.entity_registry", "remove" ∷ [])
    ∷ ("ha.config.config_entries", "disable" ∷ [])
    ∷ ("fs.delete", no_action)
    ∷ ("fs.move", no_action)
    ∷ ("fs.restore", no_action)
    ∷ ("ha.update_install", no_action)
    ∷ []

-- `USER_DIRECTED`
unfoldable pub user_directed : ActionTable
user_directed =
    ("ha.config.automation", "save" ∷ [])
    ∷ ("ha.config.script", "save" ∷ [])
    ∷ ("ha.config.scene", "save" ∷ [])
    ∷ ("ha.config.helpers", "create" ∷ "update" ∷ [])
    ∷ ("ha.config.area_registry", "create" ∷ "update" ∷ [])
    ∷ ("ha.config.device_registry", "update" ∷ [])
    ∷ ("ha.config.entity_registry", "update" ∷ [])
    ∷ ("ha.config.config_entries", "enable" ∷ [])
    ∷ ("ha.config.lovelace", "save" ∷ "resources_create" ∷ [])
    ∷ []

-- `LIFECYCLE_NO_APPROVAL`; `none` for a role that is no key of it.
unfoldable pub lifecycle_no_approval : CallerRole → Option ActionTable
lifecycle_no_approval (turn_role admin) =
    some (("ha.addon_start", no_action) ∷ ("ha.addon_restart", no_action) ∷ [])
lifecycle_no_approval (turn_role super_admin) = some (
    ("ha.addon_start", no_action)
    ∷ ("ha.addon_stop", no_action)
    ∷ ("ha.addon_restart", no_action)
    ∷ [])
lifecycle_no_approval _ = none

exempt_by : Option ActionTable → String → String → String → Bool
exempt_by none actor_id command action = false
exempt_by (some lifecycle) actor_id command action =
    if actor_id == "<anonymous>"
    then false
    else listed user_directed command action || listed lifecycle command action

-- `approval_exempt`
unfoldable pub approval_exempt : Option Caller → String → String → Bool
unfolding lifecycle_no_approval exempt_by
approval_exempt none command action = false
approval_exempt (some caller) command action =
    exempt_by (lifecycle_no_approval caller.role) caller.actor_id command action

abbrev lifecycle_table : CallerRole → ActionTable
lifecycle_table role = elim (lifecycle_no_approval role) [ none ↦ [] | some t ↦ t ]

abbrev in_no_table : CallerRole → String → String → Bool
in_no_table role command action =
    not (listed user_directed command action || listed (lifecycle_table role) command action)

destructive_apart : (role : CallerRole) → table_all (in_no_table role) destructive ≡ true
unfolding destructive user_directed lifecycle_no_approval
destructive_apart (turn_role user) = refl
destructive_apart (turn_role admin) = refl
destructive_apart (turn_role super_admin) = refl
destructive_apart operator = refl

exempt_by-in_no_table :
    (role : CallerRole) (actor_id command action : String)
    → in_no_table role command action ≡ true
    → exempt_by (lifecycle_no_approval role) actor_id command action ≡ false
unfolding exempt_by lifecycle_no_approval
exempt_by-in_no_table (turn_role user) actor_id command action h = refl
exempt_by-in_no_table (turn_role admin) actor_id command action h = ground arith
exempt_by-in_no_table (turn_role super_admin) actor_id command action h = ground arith
exempt_by-in_no_table operator actor_id command action h = refl

-- A destructive action is exempt for nobody, whatever the caller.
pub destructive-not_exempt :
    (caller : Option Caller) (command action : String)
    → listed destructive command action ≡ true
    → approval_exempt caller command action ≡ false
unfolding approval_exempt
destructive-not_exempt none command action h = refl
destructive-not_exempt (some caller) command action h =
    exempt_by-in_no_table caller.role caller.actor_id command action (
      table_all-listed (in_no_table caller.role) destructive command action
        (destructive_apart caller.role) h)

exempt_by-IsAdmin :
    (role : CallerRole) (actor_id command action : String)
    → exempt_by (lifecycle_no_approval role) actor_id command action ≡ true
    → (actor_id ≢ "<anonymous>") × (role ≢ turn_role user) × (role ≢ operator)
unfolding exempt_by lifecycle_no_approval
exempt_by-IsAdmin (turn_role user) actor_id command action h = cc
exempt_by-IsAdmin (turn_role admin) actor_id command action h =
    (λ e. ground (arith, (eq_iff actor_id "<anonymous>").1 e), λ e. cc, λ e. cc)
exempt_by-IsAdmin (turn_role super_admin) actor_id command action h =
    (λ e. ground (arith, (eq_iff actor_id "<anonymous>").1 e), λ e. cc, λ e. cc)
exempt_by-IsAdmin operator actor_id command action h = cc

-- An exempt call is one of a caller with a user id, in an Assist turn of an HA admin.
pub exempt-IsAdmin :
    (caller : Caller) (command action : String)
    → approval_exempt (some caller) command action ≡ true
    → (caller.actor_id ≢ "<anonymous>") × (caller.role ≢ turn_role user) × (caller.role ≢ operator)
unfolding approval_exempt
exempt-IsAdmin caller command action h =
    exempt_by-IsAdmin caller.role caller.actor_id command action h

exempt_by-addon_stop :
    (role : CallerRole) (actor_id action : String)
    → exempt_by (lifecycle_no_approval role) actor_id "ha.addon_stop" action ≡ true
    → role ≡ turn_role super_admin
unfolding exempt_by lifecycle_no_approval user_directed
exempt_by-addon_stop (turn_role user) actor_id action h = cc
exempt_by-addon_stop (turn_role admin) actor_id action h = ground arith
exempt_by-addon_stop (turn_role super_admin) actor_id action h = refl
exempt_by-addon_stop operator actor_id action h = cc

-- Stopping an add-on without approval is left to `super_admin`.
pub addon_stop-exempt :
    (caller : Caller) (action : String)
    → approval_exempt (some caller) "ha.addon_stop" action ≡ true
    → caller.role ≡ turn_role super_admin
unfolding approval_exempt
addon_stop-exempt caller action h = exempt_by-addon_stop caller.role caller.actor_id action h
