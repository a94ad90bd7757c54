-- ===== src/Authz/Turn/Roles.antt =====
-- Who may become a privileged role, and what a signature proves.
use openclaw_hass_node.Prelude.{
  ◌≤◌, String, ◌≡◌, ◌≢◌, refl, ap, subst, ◌∙◌, ◌↔◌, Bool, true, false, ◌&&◌, Option, none, some,
  ◌==◌, contains, ℤ, abs_diff, arith, Bool-cases, sym, inl, inr, eq_iff,
}
use mathlib.Core.Bool.{false≢true}
use openclaw_hass_node.Value.{Value, str, Fields, get}
use openclaw_hass_node.Authz.{user, super_admin, IdentityConfig, Actor}
use openclaw_hass_node.Authz.Turn.{
  SignedTurn, accepted, actor_from_payload, resolve_role, int_value, actor_signature_window_s,
  derive_actor_signing_secret, sign_actor, described_turn, check_signature, verified, from_claim,
  actor_from_signed_body,
}

-- The actor, an admin whom the configuration lists.
abbrev pub is_listed_admin : IdentityConfig → Option Actor → Bool
is_listed_admin identity none = false
is_listed_admin identity (some actor) =
    actor.is_admin && contains identity.super_admins actor.user_id

abbrev pub is_ha_admin : Option Actor → Bool
is_ha_admin none = false
is_ha_admin (some actor) = actor.is_admin

-- A turn gets `super_admin` exactly if its actor is an HA admin whom the configuration lists, and
-- `user` exactly if there is no actor or the actor is no HA admin.
pub resolve_role_exact :
    (identity : IdentityConfig) (actor : Option Actor)
    → ((resolve_role identity actor ≡ super_admin) ↔ (is_listed_admin identity actor ≡ true))
      × ((resolve_role identity actor ≡ user) ↔ (is_ha_admin actor ≡ false))
unfolding resolve_role
resolve_role_exact identity none = ((λ h. cc, λ h. cc), (λ h. refl, λ h. refl))
resolve_role_exact identity (some actor) =
    ((λ h. ground arith, λ h. ground arith), (λ h. ground arith, λ h. ground arith))

check_signature-eq_some :
    (a actor : Actor) (now ts : ℤ) (signature expected : String)
    → check_signature a now ts signature expected ≡ accepted actor
    → (a ≡ actor) × (abs_diff now ts ≤ actor_signature_window_s) × (signature ≡ expected)
unfolding check_signature
check_signature-eq_some a actor now ts signature expected h =
    (ground arith, ground arith, ground (arith, eq_iff signature expected))

module _ (hmac_hex : String → String → String) (canonical : SignedTurn → String)
    (show : Value → String) where
  -- What an accepted signature establishes.
  pub record IsAuthentic (body : Fields) (token : String) (now : ℤ) (actor : Actor) : Type 0 where
    pub claimed : actor_from_payload (get "actor" body) ≡ some actor
    pub ts : ℤ
    pub stamped : int_value (get "actor_ts" body) ≡ some ts
    pub fresh : abs_diff now ts ≤ actor_signature_window_s
    pub keyed : derive_actor_signing_secret hmac_hex canonical show token ≢ ""
    pub signed :
        get "actor_signature" body
        ≡ some (
            str (
              sign_actor hmac_hex canonical show
                (derive_actor_signing_secret hmac_hex canonical show token)
                (described_turn hmac_hex canonical show body actor ts)))

  verified-IsAuthentic :
      (body : Fields) (token : String) (now : ℤ) (a actor : Actor) (ts : Option ℤ)
      (signature : Option Value)
      → actor_from_payload (get "actor" body) ≡ some a
      → int_value (get "actor_ts" body) ≡ ts
      → get "actor_signature" body ≡ signature
      → derive_actor_signing_secret hmac_hex canonical show token ≢ ""
      → verified hmac_hex canonical show body
          (derive_actor_signing_secret hmac_hex canonical show token)
          now
          a
          ts
          signature
        ≡ accepted actor
      → IsAuthentic body token now actor
  unfolding verified
  verified-IsAuthentic body token now a actor (some ts) (some (str signature)) p q r n h =
      let expected =
        sign_actor hmac_hex canonical show
          (derive_actor_signing_secret hmac_hex canonical show token)
          (described_turn hmac_hex canonical show body a ts) in
      let c = check_signature-eq_some a actor now ts signature expected h in
      subst (λ (x : Actor). IsAuthentic body token now x) c.0
        (record {
          claimed = p;
          ts = ts;
          stamped = q;
          fresh = c.1;
          keyed = n;
          signed = r ∙ ap (λ (t : String). some (str t)) c.2;
        })
  verified-IsAuthentic body token now a actor none signature p q r n h = cc
  verified-IsAuthentic body token now a actor (some ts) none p q r n h = cc
  verified-IsAuthentic body token now a actor (some ts) (some v) p q r n h = cc

  from_claim-IsAuthentic :
      (body : Fields) (token : String) (now : ℤ) (actor : Actor) (claim : Option Actor)
      → actor_from_payload (get "actor" body) ≡ claim
      → from_claim hmac_hex canonical show body token now claim ≡ accepted actor
      → IsAuthentic body token now actor
  unfolding from_claim
  from_claim-IsAuthentic body token now actor none e h = cc
  from_claim-IsAuthentic body token now actor (some a) e h =
      let secret = derive_actor_signing_secret hmac_hex canonical show token in
      elim (Bool-cases (secret == "")) [
        | inl z ↦ absurd (ground arith)
        | inr z ↦
            verified-IsAuthentic body token now a actor _ _ e refl refl
              (λ q. false≢true (sym z ∙ (eq_iff secret "").1 q)) (rw z at h)
      ]

  -- An actor is accepted from a request body only if it is the actor that the body claims, a local
  -- token is configured, the body carries an integer time within 300 seconds of now, and its signature
  -- is the one that the token's key gives for that actor, time, conversation, language and text.
  pub actor_from_signed_body-IsAuthentic :
      (body : Fields) (token : String) (now : ℤ) (actor : Actor)
      → actor_from_signed_body hmac_hex canonical show body token now ≡ accepted actor
      → IsAuthentic body token now actor
  unfolding actor_from_signed_body
  actor_from_signed_body-IsAuthentic body token now actor h =
      from_claim-IsAuthentic body token now actor (actor_from_payload (get "actor" body)) refl h
