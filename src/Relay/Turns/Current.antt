-- ===== src/Relay/Turns/Current.antt =====
-- Which principal a hint resolves to, after any history of the registry.
use openclaw_hass_node.Prelude.{
  ℕ, String, ◌≡◌, refl, sym, ◌∙◌, true, false, Option, none, some, List, [], ◌∷◌, ◌==◌,
  if◌then◌else◌, arith, eq_iff, eq_refl, strip, find_key, find_key-put_key, find_key-pop_key,
  Option-cases, Bool-cases, ◌⊎◌, inl, inr,
}
use openclaw_hass_node.Authz.Turn.{TurnAuthz}
use openclaw_hass_node.Caller.{Caller}
use openclaw_hass_node.Relay.Turns.{
  Turns, no_turns, principal, enter_turn, subscribed, reset, leave_turn, recently_ended,
  is_candidate, matching, only, active_caller,
}

-- What happens to the registry.
pub data Event : Type 0 where
  entered : String → Option TurnAuthz → Event
  left : String → ℕ → Event
  resolved : String → String → Event
  asked : String → ℕ → Event
  disconnected : Event

-- The principal of the turn in flight under the session key, read off the history, the latest first.
abbrev pub current : String → List Event → Option Caller
current k [] = none
current k (entered j authz ∷ earlier) = if j == k then some (principal authz) else current k earlier
current k (left j now ∷ earlier) = if j == k then none else current k earlier
current k (resolved j key ∷ earlier) = current k earlier
current k (asked hint now ∷ earlier) = current k earlier
current k (disconnected ∷ earlier) = current k earlier

module _ (lower : String → String) where
  abbrev pub step : Event → Turns → Turns
  step (entered k authz) s = enter_turn k authz s
  step (left k now) s = leave_turn lower k now s
  step (resolved k key) s = subscribed k key s
  step (asked hint now) s = (recently_ended lower hint now s).1
  step disconnected s = reset s

  abbrev pub after : List Event → Turns
  after [] = no_turns
  after (e ∷ earlier) = step e (after earlier)

  find_key-after :
      (k : String) (events : List Event) → find_key k (after events).active ≡ current k events
  unfolding enter_turn leave_turn recently_ended find_key
  find_key-after k [] = refl
  find_key-after k (entered j authz ∷ earlier) = ground (
    arith,
    find_key-put_key k j (principal authz) (after earlier).active,
    find_key-after k earlier,
  )
  find_key-after k (left j now ∷ earlier) =
      ground (arith, find_key-pop_key k j (after earlier).active, find_key-after k earlier)
  find_key-after k (resolved j key ∷ earlier) = find_key-after k earlier
  find_key-after k (asked hint now ∷ earlier) = find_key-after k earlier
  find_key-after k (disconnected ∷ earlier) = find_key-after k earlier

  -- No candidate among the entries.
  matching-none :
      (hint : String) (s : Turns) (d : List (String × Caller)) (k : String) (c : Caller)
      → matching lower hint s d ≡ []
      → find_key k d ≡ some c
      → is_candidate lower hint s k ≡ false
  unfolding matching find_key
  matching-none hint s [] k c m f = cc
  matching-none hint s ((j, v) ∷ rest) k c m f =
      ground (arith, matching-none hint s rest k c, eq_iff j k)

  matching-only :
      (hint : String) (s : Turns) (d : List (String × Caller)) (c : Caller)
      → matching lower hint s d ≡ c ∷ []
      → (raw : String) × (find_key raw d ≡ some c) × (is_candidate lower hint s raw ≡ true)
  unfolding matching find_key
  matching-only hint s [] c m = cc
  matching-only hint s ((j, v) ∷ rest) c m = elim (Bool-cases (is_candidate lower hint s j)) [
    | inl here ↦ (j, ground (arith, eq_refl j), here)
    | inr there ↦
        let (raw, found, candidate) = matching-only hint s rest c (ground arith) in
        (raw, ground (arith, eq_iff j raw), candidate)
  ]

  matching_unique :
      (hint : String) (s : Turns) (d : List (String × Caller)) (c c₁ c₂ : Caller) (k₁ k₂ : String)
      → matching lower hint s d ≡ c ∷ []
      → find_key k₁ d ≡ some c₁
      → is_candidate lower hint s k₁ ≡ true
      → find_key k₂ d ≡ some c₂
      → is_candidate lower hint s k₂ ≡ true
      → k₁ ≡ k₂
  unfolding matching find_key
  matching_unique hint s [] c c₁ c₂ k₁ k₂ m f₁ i₁ f₂ i₂ = cc
  matching_unique hint s ((j, v) ∷ rest) c c₁ c₂ k₁ k₂ m f₁ i₁ f₂ i₂ =
      elim (Bool-cases (is_candidate lower hint s j)) [
        | inl here ↦ ground (
          arith,
          matching-none hint s rest k₁ c₁,
          matching-none hint s rest k₂ c₂,
          eq_iff j k₁,
          eq_iff j k₂,
        )
        | inr there ↦
            matching_unique hint s rest c c₁ c₂ k₁ k₂ (ground arith) (ground (arith, eq_iff j k₁))
              i₁ (ground (arith, eq_iff j k₂)) i₂
      ]

  only-some : (cs : List Caller) (c : Caller) → only cs ≡ some c → cs ≡ c ∷ []
  only-some [] c h = cc
  only-some (d ∷ []) c h = ground arith
  only-some (d ∷ e ∷ cs) c h = cc

  -- A resolved hint names exactly one turn in flight: there is a session key whose turn was entered,
  -- with this principal, and not left since; the hint without blanks equals the key's lower case or
  -- that of its canonical key; and every other key has no turn in flight, or the hint does not name it.
  abbrev pub IsSoleTurn : String → List Event → Caller → Type 0
  IsSoleTurn hint events c =
      (raw : String) × (current raw events ≡ some c)
      × (is_candidate lower (lower (strip hint)) (after events) raw ≡ true)
      × ((k : String)
          → (current k events ≡ none)
            ⊎ (is_candidate lower (lower (strip hint)) (after events) k ≡ false)
            ⊎ (k ≡ raw))

  -- After every history of turns entered and left, of subscriptions, queries and disconnects, a hint
  -- that resolves to a principal names exactly one turn in flight, and that turn has the principal.
  pub active_caller-IsSoleTurn :
      (hint : String) (events : List Event) (c : Caller)
      → active_caller lower hint (after events) ≡ some c
      → IsSoleTurn hint events c
  unfolding active_caller
  active_caller-IsSoleTurn hint events c h =
      let s = after events in
      let m = only-some (matching lower (lower (strip hint)) s s.active) c h in
      let (raw, found, candidate) = matching-only (lower (strip hint)) s s.active c m in
      (
        raw,
        sym (find_key-after raw events) ∙ found,
        candidate,
        λ k. elim (Option-cases (current k events)) [
          | inl e ↦ inl e
          | inr (d, e) ↦ elim (Bool-cases (is_candidate lower (lower (strip hint)) s k)) [
            | inl i ↦ inr (
                inr (
                  matching_unique (lower (strip hint)) s s.active c d c k raw m
                    (find_key-after k events ∙ e) i found candidate))
            | inr i ↦ inr (inl i)
          ]
        ],
      )
