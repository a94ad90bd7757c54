-- ===== src/Tests/Authz.antt =====
-- authz.py on concrete calls and configurations.
use openclaw_hass_node.Prelude.{
  String, ◌<>◌, ◌≡◌, refl, ◌↔◌, true, false, not, Option, some, [], ◌∷◌, contains, arith, strip,
  strip_prefix, sorted_set, occurs, pos,
}
use openclaw_hass_node.Value.{Value, bool, int, str, list, dict, nil, cons, Fields, end, field, get}
use openclaw_hass_node.Authz.{
  Role, user, admin, super_admin, IdentityConfig, ForbiddenCommandPatch, Actor, default_identity,
}
use openclaw_hass_node.Authz.Services.{
  service_allowed, service_for_command, is_service_name, wrapper_service,
}
use openclaw_hass_node.Authz.Services.Canonical.{IsCanonical, service_for_command-IsCanonical}
use openclaw_hass_node.Authz.Commands.{
  registered_commands, user_allowed_commands, user_forbidden_commands, registered-classified,
}
use openclaw_hass_node.Authz.Forbidden.{
  forbidden_for_role, default_forbidden, user_non_removable, is_forbidden,
}
use openclaw_hass_node.Authz.Forbidden.Floor.{user_floor}
use openclaw_hass_node.Authz.Forbidden.Privilege.{service_blocked, privilege_never_inverts}
use openclaw_hass_node.Authz.Glob.{fnmatchcase}
use openclaw_hass_node.Authz.Turn.{
  SignedTurn, Signed, ignored, is_ascii, resolve_role, derive_actor_signing_secret,
  actor_from_payload, actor_from_signed_body, check_signature,
}
use openclaw_hass_node.Authz.Turn.Roles.{
  IsAuthentic, actor_from_signed_body-IsAuthentic, resolve_role_exact,
}
use openclaw_hass_node.Authz.Codes.{Number, whole, text, number}
use openclaw_hass_node.Authz.Codes.Mask.{mask_text, mask_text-eq_self}
use openclaw_hass_node.Authz.Codes.Scrub.{Printing, scrub_codes}
use openclaw_hass_node.Authz.Codes.Scrub.Exposure.{exposes, scrub_codes-hides}

abbrev service_call : String → String → Fields
service_call domain service = field "domain" (str domain) (field "service" (str service) end)

canonical_service :
    service_for_command "ha.call_service" (service_call " light " "turn_on") ≡ some "light.turn_on"
unfolding service_for_command get is_service_name strip
canonical_service = refl

service_for_command-IsCanonical_example : IsCanonical "light.turn_on"
service_for_command-IsCanonical_example =
    service_for_command-IsCanonical "ha.call_service" (service_call " light " "turn_on")
      "light.turn_on" canonical_service

registered-classified_example :
    contains user_allowed_commands "fs.write" ≡ not (contains user_forbidden_commands "fs.write")
unfolding registered_commands
registered-classified_example = registered-classified "fs.write" refl

-- The user's floor is removed, admins get one more prohibition, and `super_admin` another.
abbrev patched_identity : IdentityConfig
patched_identity = record default_identity { super_admins = "u1" ∷ []; forbidden_commands = patch }
  where
    patch : Role → Option ForbiddenCommandPatch
    patch user = some (record { add = []; remove = "fs.write" ∷ "ha.call_service:*" ∷ [] })
    patch admin = some (record { add = "ha.call_service:lock.*" ∷ []; remove = [] })
    patch super_admin = some (record { add = "ha.call_service:scene.*" ∷ "ping" ∷ []; remove = [] })

user_floor_example : contains (forbidden_for_role patched_identity user) "ha.call_service:*" ≡ true
unfolding user_non_removable
user_floor_example = user_floor patched_identity "ha.call_service:*" refl

scene_blocked :
    service_blocked patched_identity super_admin "ha.call_service" (service_call "scene" "turn_on")
    ≡ true
unfolding service_blocked forbidden_for_role default_forbidden is_forbidden service_for_command get
    is_service_name strip fnmatchcase service_allowed sorted_set strip_prefix wrapper_service
scene_blocked = refl

privilege_never_inverts_example :
    service_blocked patched_identity user "ha.call_service" (service_call "scene" "turn_on") ≡ true
privilege_never_inverts_example =
    privilege_never_inverts patched_identity "ha.call_service" (service_call "scene" "turn_on") user
      super_admin (omega arith) scene_blocked

-- A light stays callable for the user.
light_allowed :
    is_forbidden (forbidden_for_role patched_identity user) "ha.light_turn_on" end ≡ false
unfolding forbidden_for_role default_forbidden is_forbidden user_forbidden_commands service_allowed
    sorted_set user_non_removable strip_prefix wrapper_service service_for_command fnmatchcase
light_allowed = refl

resolve_role_exact_example :
    ((resolve_role patched_identity (some (record { user_id = "u1"; is_admin = true }))
        ≡ super_admin)
      ↔ (true ≡ true))
    × ((resolve_role patched_identity (some (record { user_id = "u1"; is_admin = true })) ≡ user)
        ↔ (true ≡ false))
resolve_role_exact_example =
    resolve_role_exact patched_identity (some (record { user_id = "u1"; is_admin = true }))

-- A stand-in for the keyed hash, in which the signature names its key and its text.
abbrev plain_hmac : String → String → String
plain_hmac key message = key <> "/" <> message

abbrev plain_canonical : SignedTurn → String
plain_canonical turn = turn.text <> "@" <> turn.actor.user_id

abbrev plain_show : Value → String
plain_show v = ""

abbrev signed_body : Fields
signed_body =
    field "actor" (dict (field "user_id" (str " u1 ") (field "is_admin" (bool true) end))) (
      field "actor_ts" (int (pos 1000)) (
        field "text" (str "hi")
          (field "actor_signature" (str "tok/openclaw-hass-node actor-signing v1/hi@u1") end)))

abbrev signer : Actor
signer = record { user_id = "u1"; is_admin = true }

accepted :
    actor_from_signed_body plain_hmac plain_canonical plain_show signed_body "tok" (pos 1300)
    ≡ Signed.accepted signer
unfolding actor_from_signed_body actor_from_payload get strip derive_actor_signing_secret
    check_signature is_ascii
accepted = refl

too_late :
    actor_from_signed_body plain_hmac plain_canonical plain_show signed_body "tok" (pos 1301)
    ≡ ignored
unfolding actor_from_signed_body actor_from_payload get strip derive_actor_signing_secret
    check_signature is_ascii
too_late = refl

actor_from_signed_body-IsAuthentic_example :
    IsAuthentic plain_hmac plain_canonical plain_show signed_body "tok" (pos 1300) signer
actor_from_signed_body-IsAuthentic_example =
    actor_from_signed_body-IsAuthentic plain_hmac plain_canonical plain_show signed_body "tok"
      (pos 1300) signer accepted

-- A stand-in for Python's printing.
abbrev plain_number : Number → String
plain_number (whole (pos n)) = "1234"
plain_number _ = "?"

abbrev quoted : String → String
quoted s = "\"" <> s <> "\""

abbrev plain_printing : Printing
plain_printing = record {
  number_str = plain_number;
  number_json = plain_number;
  number_repr = plain_number;
  text_json = quoted;
  text_repr = quoted;
}

abbrev unlock_result : Value
unlock_result = dict (
    field "said" (str "code 99xx99 ok")
      (field "n" (int (pos 7)) (field "99" (list (cons (str "9") nil)) end)))

scrub_codes-hides_example :
    exposes plain_printing
      (text "99")
      (scrub_codes plain_printing unlock_result (number (whole (pos 7)) ∷ text "99" ∷ []))
    ≡ false
scrub_codes-hides_example =
    scrub_codes-hides plain_printing (text "99") (number (whole (pos 7)) ∷ []) [] refl unlock_result

mask_text-eq_self_example : mask_text "nothing here" ("99" ∷ "1234" ∷ []) "***" ≡ "nothing here"
unfolding occurs
mask_text-eq_self_example = mask_text-eq_self "nothing here" ("99" ∷ "1234" ∷ []) "***" refl

-- Masking joins its neighbours into a new occurrence, and masks that too.
masked_twice : mask_text "1199" ("19" ∷ []) "" ≡ ""
unfolding mask_text strip_prefix occurs
masked_twice = refl
