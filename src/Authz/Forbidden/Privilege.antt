-- ===== src/Authz/Forbidden/Privilege.antt =====
-- Privilege never inverts: a service that a more privileged role may not call, a less privileged one
-- may not call either.
use openclaw_hass_node.Prelude.{
  get_or, ℕ, ◌≤◌, String, ◌<>◌, ◌≡◌, refl, ap, sym, ◌∙◌, Bool, true, false, not, ◌||◌, Option, none,
  some, List, [], ◌∷◌, ◌++◌, contains, any, arith, strip_prefix, strip_prefix-eq_some, is_some,
  append_assoc, contains-keep, contains-append, any-of-contains, any_mono, Bool-cases, Option-cases,
  inl, inr,
}
use mathlib.Core.Bool.{false≢true}
use openclaw_hass_node.Value.{Fields}
use openclaw_hass_node.Authz.{Role, user, admin, super_admin, ForbiddenCommandPatch, IdentityConfig}
use openclaw_hass_node.Authz.Glob.{fnmatchcase, fnmatchcase-prefix, eq_of_fnmatchcase, compile}
use openclaw_hass_node.Authz.Services.{
  service_allowed, is_service_name, service_for_command, household_allowed_services,
}
use openclaw_hass_node.Authz.Services.Canonical.{service_allowed-join}
use openclaw_hass_node.Authz.Forbidden.{
  call_service_prefix, user_service_wildcard, user_non_removable, default_forbidden,
  is_service_entry, patched, removable, service_additions, inherited_service_prohibitions,
  forbidden_for_role, service_patterns, pattern_blocks, patterns_block,
}
use openclaw_hass_node.Authz.Forbidden.Floor.{contains-forbidden_for_role, user_floor}

-- Whether one pattern blocks what `service_for_command` returned.
abbrev pub pattern_test : Option String → String → Bool
pattern_test none pattern = true
pattern_test (some service) pattern = pattern_blocks service pattern

abbrev rest_blocks : Option String → Option String → Bool
rest_blocks service none = false
rest_blocks service (some pattern) = pattern_test service pattern

-- Whether one entry of a forbidden set blocks it.
abbrev pub entry_blocks : Option String → String → Bool
entry_blocks service e = rest_blocks service (strip_prefix e call_service_prefix)

any-service_patterns :
    (service : Option String) (entries : List String)
    → any (pattern_test service) (service_patterns entries) ≡ any (entry_blocks service) entries
unfolding service_patterns
any-service_patterns service [] = refl
any-service_patterns service (e ∷ entries) =
    elim (Option-cases (strip_prefix e call_service_prefix)) [
      | inl h ↦ rw (h, service_patterns) (any-service_patterns service entries)
      | inr (p, h) ↦
          rw (h, service_patterns)
            (ap (λ (t : Bool). pattern_test service p || t) (any-service_patterns service entries))
    ]

patterns_block-any :
    (service : Option String) (ps : List String)
    → patterns_block ps service ≡ any (pattern_test service) ps
unfolding patterns_block
patterns_block-any none [] = refl
patterns_block-any none (p ∷ ps) = refl
patterns_block-any (some service) [] = refl
patterns_block-any (some service) (p ∷ ps) = refl

-- A forbidden set blocks a service through one of its entries.
pub patterns_block-entries :
    (service : Option String) (entries : List String)
    → patterns_block (service_patterns entries) service ≡ any (entry_blocks service) entries
patterns_block-entries service entries =
    patterns_block-any service (service_patterns entries) ∙ any-service_patterns service entries

entry_blocks-is_service_entry :
    (service : Option String) (e : String)
    → entry_blocks service e ≡ true
    → is_service_entry e ≡ true
entry_blocks-is_service_entry service e h =
    elim (Option-cases (strip_prefix e call_service_prefix)) [
      | inl n ↦ cc (ap (rest_blocks service) n)
      | inr (p, k) ↦ rw k
    ]

-- Nothing of a domain outside the table is allowed.
outside_table :
    (domain pattern s : String)
    → is_service_name domain ≡ true
    → get_or domain household_allowed_services [] ≡ []
    → ((t : String) → fnmatchcase t pattern ≡ is_some (strip_prefix t (domain <> ".")))
    → fnmatchcase s pattern ≡ true
    → service_allowed s ≡ false
outside_table domain pattern s v o f h = elim (Option-cases (strip_prefix s (domain <> "."))) [
  | inl e ↦ absurd (false≢true (sym (ap is_some e) ∙ sym (f s) ∙ h))
  | inr (r, e) ↦
      rw (strip_prefix-eq_some s (domain <> ".") e, append_assoc domain "." r)
        (service_allowed-join domain r v ∙ ap (λ (l : List String). contains l r) o)
]

module _ (s : String) where
  shell_command_blocked : fnmatchcase s "shell_command.*" ≡ true → service_allowed s ≡ false
  unfolding is_service_name household_allowed_services compile
  shell_command_blocked =
      outside_table "shell_command" "shell_command.*" s refl refl
        (fnmatchcase-prefix "shell_command.*" "shell_command." refl)

  python_script_blocked : fnmatchcase s "python_script.*" ≡ true → service_allowed s ≡ false
  unfolding is_service_name household_allowed_services compile
  python_script_blocked =
      outside_table "python_script" "python_script.*" s refl refl
        (fnmatchcase-prefix "python_script.*" "python_script." refl)

  command_line_blocked : fnmatchcase s "command_line.*" ≡ true → service_allowed s ≡ false
  unfolding is_service_name household_allowed_services compile
  command_line_blocked =
      outside_table "command_line" "command_line.*" s refl refl
        (fnmatchcase-prefix "command_line.*" "command_line." refl)

  homeassistant_stop_blocked : fnmatchcase s "homeassistant.stop" ≡ true → service_allowed s ≡ false
  unfolding service_allowed compile
  homeassistant_stop_blocked h =
      rw (eq_of_fnmatchcase "homeassistant.stop" "homeassistant.stop" refl s h)

-- What HA admins are forbidden by default lies outside the household table.
default_admin_blocks :
    (s : String)
    → any (entry_blocks (some s)) (default_forbidden admin) ≡ true
    → service_allowed s ≡ false
unfolding default_forbidden strip_prefix
default_admin_blocks s h = ground (
  arith,
  shell_command_blocked s,
  python_script_blocked s,
  command_line_blocked s,
  homeassistant_stop_blocked s,
)

-- The user's wildcard blocks every service outside the table, and every malformed name.
wildcard_blocks :
    (o : Option String)
    → ((s : String) → o ≡ some s → service_allowed s ≡ false)
    → entry_blocks o user_service_wildcard ≡ true
unfolding strip_prefix
wildcard_blocks none h = refl
wildcard_blocks (some s) h = ground (arith, h s refl)

module _ (identity : IdentityConfig) where
  -- A service entry that binds `super_admin` comes from its patch.
  super_admin_entry :
      (o : Option ForbiddenCommandPatch) (e : String)
      → is_service_entry e ≡ true
      → contains (patched super_admin o) e ≡ true
      → contains (service_additions o) e ≡ true
  unfolding patched default_forbidden service_additions
  super_admin_entry none e v h = cc
  super_admin_entry (some patch) e v h = ground (
    arith,
    contains-keep is_service_entry patch.add e,
    contains-keep (λ x. not (contains (removable super_admin patch.remove) x)) patch.add e,
  )

  -- One that binds `admin` is a default, or comes from its patch.
  admin_entry :
      (o : Option ForbiddenCommandPatch) (e : String)
      → is_service_entry e ≡ true
      → contains (patched admin o) e ≡ true
      → (contains (default_forbidden admin) e || contains (service_additions o) e) ≡ true
  unfolding patched service_additions
  admin_entry none e v h = ground arith
  admin_entry (some patch) e v h = ground (
    arith,
    contains-keep is_service_entry patch.add e,
    contains-append (default_forbidden admin) patch.add e,
    contains-keep (λ x. not (contains (removable admin patch.remove) x))
        (default_forbidden admin ++ patch.add) e,
  )

  abbrev role_blocks : Role → Option String → Bool
  role_blocks role o = any (entry_blocks o) (forbidden_for_role identity role)

  super_admin-admin :
      (o : Option String) → role_blocks super_admin o ≡ true → role_blocks admin o ≡ true
  unfolding inherited_service_prohibitions
  super_admin-admin o =
      any_mono (entry_blocks o) (forbidden_for_role identity super_admin)
        (forbidden_for_role identity admin)
        λ e m b.
          any-of-contains (entry_blocks o) (forbidden_for_role identity admin) e
            (ground (
              arith,
              contains-forbidden_for_role identity super_admin e,
              contains-forbidden_for_role identity admin e,
              super_admin_entry (identity.forbidden_commands super_admin) e
                  (entry_blocks-is_service_entry o e b),
            ))
            b

  default_admin-user :
      (o : Option String) (e : String)
      → contains (default_forbidden admin) e ≡ true
      → entry_blocks o e ≡ true
      → role_blocks user o ≡ true
  unfolding user_non_removable
  default_admin-user o e m b =
      any-of-contains (entry_blocks o) (forbidden_for_role identity user) user_service_wildcard
        (user_floor identity user_service_wildcard refl)
        (wildcard_blocks o λ s q. default_admin_blocks s (
          any-of-contains (entry_blocks (some s)) (default_forbidden admin) e m
            (sym (ap (λ t. entry_blocks t e) q) ∙ b)))

  admin-user : (o : Option String) → role_blocks admin o ≡ true → role_blocks user o ≡ true
  unfolding inherited_service_prohibitions
  admin-user o =
      any_mono (entry_blocks o) (forbidden_for_role identity admin)
        (forbidden_for_role identity user)
        λ e m b. elim (Bool-cases (contains (default_forbidden admin) e)) [
          | inl d ↦ default_admin-user o e d b
          | inr d ↦
              any-of-contains (entry_blocks o) (forbidden_for_role identity user) e
                (ground (
                  arith,
                  contains-forbidden_for_role identity admin e,
                  contains-forbidden_for_role identity user e,
                  contains-append (service_additions (identity.forbidden_commands admin))
                      (service_additions (identity.forbidden_commands super_admin)) e,
                  admin_entry (identity.forbidden_commands admin) e
                      (entry_blocks-is_service_entry o e b),
                ))
                b
        ]

-- Whether the service entries of a role's forbidden set block a call.
unfoldable pub service_blocked : IdentityConfig → Role → String → Fields → Bool
service_blocked identity role command params =
    patterns_block (service_patterns (forbidden_for_role identity role))
      (service_for_command command params)

-- How privileged a role is.
abbrev pub rank : Role → ℕ
rank user = 0
rank admin = 1
rank super_admin = 2

module _ (identity : IdentityConfig) (command : String) (params : Fields) where
  step_down :
      (high low : Role)
      → ((o : Option String)
          → role_blocks identity high o ≡ true
          → role_blocks identity low o ≡ true)
      → service_blocked identity high command params ≡ true
      → service_blocked identity low command params ≡ true
  unfolding service_blocked
  step_down high low f h =
      let o = service_for_command command params in
      let via = λ (role : Role). patterns_block-entries o (forbidden_for_role identity role) in
      via low ∙ f o (sym (via high) ∙ h)

-- Whatever the configuration, if the service entries in force for a role block a call, then those in
-- force for every role of at most its rank block it too.
pub privilege_never_inverts :
    (identity : IdentityConfig) (command : String) (params : Fields) (low high : Role)
    → rank low ≤ rank high
    → service_blocked identity high command params ≡ true
    → service_blocked identity low command params ≡ true
privilege_never_inverts identity command params user user r h = h
privilege_never_inverts identity command params user admin r h =
    step_down identity command params admin user (admin-user identity) h
privilege_never_inverts identity command params user super_admin r h =
    step_down identity command params admin user (admin-user identity)
      (step_down identity command params super_admin admin (super_admin-admin identity) h)
privilege_never_inverts identity command params admin user r h = absurd (omega arith)
privilege_never_inverts identity command params admin admin r h = h
privilege_never_inverts identity command params admin super_admin r h =
    step_down identity command params super_admin admin (super_admin-admin identity) h
privilege_never_inverts identity command params super_admin user r h = absurd (omega arith)
privilege_never_inverts identity command params super_admin admin r h = absurd (omega arith)
privilege_never_inverts identity command params super_admin super_admin r h = h
