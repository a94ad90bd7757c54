-- ===== src/Authz/Forbidden/Floor.antt =====
-- No configuration takes the household user's floor away.
use openclaw_hass_node.Prelude.{
  String, ◌≡◌, ◌∙◌, true, not, ◌||◌, Option, none, some, ◌++◌, contains, arith, contains-sorted_set,
  contains-append, contains-keep,
}
use openclaw_hass_node.Authz.{Role, user, ForbiddenCommandPatch, IdentityConfig}
use openclaw_hass_node.Authz.Forbidden.{
  user_non_removable, default_forbidden, removable, patched, forbidden_for_role,
  inherited_service_prohibitions,
}

patched-user_non_removable :
    (o : Option ForbiddenCommandPatch) (e : String)
    → contains user_non_removable e ≡ true
    → contains (patched user o) e ≡ true
unfolding patched default_forbidden removable
patched-user_non_removable none e h = h
patched-user_non_removable (some patch) e h = ground (
  arith,
  contains-append user_non_removable patch.add e,
  contains-keep (λ x. not (contains user_non_removable x)) patch.remove e,
  contains-keep (λ x. not (contains (removable user patch.remove) x))
      (user_non_removable ++ patch.add) e,
)

-- Membership in a role's forbidden set: the patched defaults, or what a more privileged role passes
-- down.
pub contains-forbidden_for_role :
    (identity : IdentityConfig) (role : Role) (e : String)
    → contains (forbidden_for_role identity role) e ≡ (
        contains (patched role (identity.forbidden_commands role)) e
        || contains (inherited_service_prohibitions identity role) e)
unfolding forbidden_for_role
contains-forbidden_for_role identity role e =
    contains-sorted_set _ e
    ∙ contains-append (patched role (identity.forbidden_commands role))
        (inherited_service_prohibitions identity role) e

-- Whatever the configuration adds or removes, every command that the household user is forbidden by
-- default, and the wildcard over services, stays forbidden.
pub user_floor :
    (identity : IdentityConfig) (e : String)
    → contains user_non_removable e ≡ true
    → contains (forbidden_for_role identity user) e ≡ true
user_floor identity e h = ground (
  arith,
  contains-forbidden_for_role identity user e,
  patched-user_non_removable (identity.forbidden_commands user) e h,
)
