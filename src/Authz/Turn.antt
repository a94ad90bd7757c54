-- ===== src/Authz/Turn.antt =====
-- authz.py: the actor of an Assist turn, its role, its agent and the policy resolved from them.
pub mod Roles
use openclaw_hass_node.Prelude.{
  ℕ, String, ◌<>◌, ◌≡◌, Bool, true, false, not, ◌&&◌, ◌||◌, Option, none, some, List, [], ◌∷◌, ◌++◌,
  ◌==◌, if◌then◌else◌, contains, strip, ℤ, pos, negsuc, abs_diff, ltb, eqb, get_or, ◌%◌, ◌^◌,
}
use openclaw_hass_node.Value.{
  Value, null, bool, int, float, str, list, dict, Items, nil, cons, Fields, end, field, get,
}
use openclaw_hass_node.Authz.{Role, user, admin, super_admin, IdentityConfig, Actor}
use openclaw_hass_node.Authz.Forbidden.{forbidden_for_role}
use openclaw_hass_node.Files.Lines.{codes}

-- `TurnAuthz`, without the prompt text.
pub record TurnAuthz : Type 0 where
  pub actor : Option Actor
  pub role : Role
  pub agent_id : String
  pub forbidden : List String

-- `bool(value)`; of the floats only the two zeros are false.
unfoldable pub truthy : Option Value → Bool
truthy none = false
truthy (some null) = false
truthy (some (bool b)) = b
truthy (some (int (pos n))) = not (eqb n 0)
truthy (some (int (negsuc n))) = true
truthy (some (float bits)) = not (eqb (bits % 2 ^ 63) 0)
truthy (some (str s)) = not (s == "")
truthy (some (list nil)) = false
truthy (some (list (cons v vs))) = true
truthy (some (dict end)) = false
truthy (some (dict (field k v d))) = true

parsed_actor : Option Value → Option Value → Option Actor
parsed_actor (some (str user_id)) flag =
    if strip user_id == ""
    then none
    else some (record { user_id = strip user_id; is_admin = truthy flag })
parsed_actor _ flag = none

-- `actor_from_payload`
unfoldable pub actor_from_payload : Option Value → Option Actor
unfolding parsed_actor truthy
actor_from_payload (some (dict raw)) = parsed_actor (get "user_id" raw) (get "is_admin" raw)
actor_from_payload _ = none

-- `resolve_role`
unfoldable pub resolve_role : IdentityConfig → Option Actor → Role
resolve_role identity none = user
resolve_role identity (some actor) =
    if actor.is_admin && contains identity.super_admins actor.user_id
    then super_admin
    else if actor.is_admin
    then admin
    else user

role_default : IdentityConfig → Role → String
role_default identity user = identity.user_role_agent_id
role_default identity admin = identity.admin_role_agent_id
role_default identity super_admin = ""

-- Python's `a or b`, for texts.
abbrev or_text : String → String → String
or_text a b = if a == "" then b else a

mapped_agent : IdentityConfig → Option Actor → String
mapped_agent identity none = ""
mapped_agent identity (some actor) = strip (get_or actor.user_id identity.user_agent_map "")

-- `resolve_agent_id`
unfoldable pub resolve_agent_id : IdentityConfig → Option Actor → String
unfolding mapped_agent role_default
resolve_agent_id identity actor = or_text (mapped_agent identity actor) (
    or_text (strip (role_default identity (resolve_role identity actor)))
      (strip identity.default_agent_id))

-- `resolve_turn_authz`
unfoldable pub resolve_turn_authz : IdentityConfig → Option Actor → TurnAuthz
resolve_turn_authz identity actor =
    let role = resolve_role identity actor in
    record {
      actor = actor;
      role = role;
      agent_id = resolve_agent_id identity actor;
      forbidden = forbidden_for_role identity role;
    }

-- `_ACTOR_SIGNATURE_WINDOW_S`
abbrev pub actor_signature_window_s : ℕ
actor_signature_window_s = 300

-- The fields that a signature binds: the payload of `sign_actor`.
pub record SignedTurn : Type 0 where
  pub ts : ℤ
  pub conversation_id : String
  pub language : String
  pub text : String
  pub actor : Actor

-- `isinstance(v, int)`: a `bool` is an `int` too.
abbrev pub int_value : Option Value → Option ℤ
int_value (some (int n)) = some n
int_value (some (bool true)) = some (pos 1)
int_value (some (bool false)) = some (pos 0)
int_value _ = none

-- What `actor_from_signed_body` returns or raises: the actor, none, or the TypeError of
-- `hmac.compare_digest` for a signature that is not ASCII.
pub data Signed : Type 0 where
  accepted : Actor → Signed
  ignored : Signed
  type_error : Signed

-- The text is ASCII.
all_ascii : List ℕ → Bool
all_ascii [] = true
all_ascii (c ∷ cs) = ltb c 128 && all_ascii cs

unfoldable pub is_ascii : String → Bool
unfolding all_ascii codes
is_ascii s = all_ascii (codes s)

-- The checks of the signature fields, the window and the signature itself, in the source's order.
unfoldable pub check_signature : Actor → ℤ → ℤ → String → String → Signed
unfolding is_ascii
check_signature actor now ts signature expected =
    if signature == ""
    then ignored
    else if ltb actor_signature_window_s (abs_diff now ts)
    then ignored
    else if not (is_ascii signature)
    then type_error
    else if signature == expected
    then accepted actor
    else ignored

-- What `hashlib` and `hmac` compute, and Python's `str(value)` of a value that is not a text.
module _ (hmac_hex : String → String → String) (canonical : SignedTurn → String)
    (show : Value → String) where
  abbrev text_or : Option Value → String → String
  text_or none default = default
  text_or (some (str s)) default = s
  text_or (some v) default = show v

  -- `derive_actor_signing_secret`
  unfoldable pub derive_actor_signing_secret : String → String
  derive_actor_signing_secret local_api_token =
      let token = strip local_api_token in
      if token == "" then "" else hmac_hex token "openclaw-hass-node actor-signing v1"

  -- `sign_actor`
  unfoldable pub sign_actor : String → SignedTurn → String
  sign_actor secret turn = hmac_hex secret (canonical turn)

  -- The turn that the body's fields describe.
  unfoldable pub described_turn : Fields → Actor → ℤ → SignedTurn
  described_turn body actor ts = record {
    ts = ts;
    conversation_id = text_or (get "conversation_id" body) "";
    language = text_or (get "language" body) "en";
    text = text_or (get "text" body) "";
    actor = actor;
  }

  pub verified : Fields → String → ℤ → Actor → Option ℤ → Option Value → Signed
  unfolding sign_actor described_turn
  verified body secret now actor (some ts) (some (str signature)) =
      check_signature actor now ts signature (sign_actor secret (described_turn body actor ts))
  verified body secret now actor ts signature = ignored

  from_secret : Fields → String → ℤ → Actor → Signed
  unfolding verified
  from_secret body secret now actor =
      if secret == ""
      then ignored
      else verified body secret now actor (int_value (get "actor_ts" body))
          (get "actor_signature" body)

  from_claim : Fields → String → ℤ → Option Actor → Signed
  unfolding from_secret
  from_claim body local_api_token now none = ignored
  from_claim body local_api_token now (some actor) =
      from_secret body (derive_actor_signing_secret local_api_token) now actor

  -- `actor_from_signed_body`, at the time `now`
  unfoldable pub actor_from_signed_body : Fields → String → ℤ → Signed
  unfolding from_claim
  actor_from_signed_body body local_api_token now =
      from_claim body local_api_token now (actor_from_payload (get "actor" body))
