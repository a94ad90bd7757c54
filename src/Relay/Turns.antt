-- ===== src/Relay/Turns.antt =====
-- chat_relay.py: the registry of the turns in flight, which is the only source of the caller of a
-- hinted invoke, and of the turns that ended lately.
pub mod Current
pub mod Ended
use openclaw_hass_node.Prelude.{
  ℕ, zero, suc, ◌+◌, ◌-◌, String, ◌≡◌, refl, Bool, true, false, not, ◌||◌, Option, none, some,
  is_some, List, [], ◌∷◌, ◌==◌, if◌then◌else◌, ltb, keep, drop, length, strip, find_key, put_key,
  pop_key,
}
use openclaw_hass_node.Authz.Turn.{TurnAuthz}
use openclaw_hass_node.Caller.{Caller, from_turn, untrusted}

-- `_ENDED_TURN_TTL_S` in nanoseconds of the clock, and `_ENDED_TURN_MAX`
abbrev pub ended_turn_ttl : ℕ
ended_turn_ttl = 300_000_000_000

abbrev pub ended_turn_max : ℕ
ended_turn_max = 256

-- `_active_turns`, `_canonical_by_raw` and `_ended_turns`: dicts in the order of insertion.
pub record Turns : Type 0 where
  pub active : List (String × Caller)
  pub canonical_by_raw : List (String × String)
  pub ended : List (String × ℕ)

abbrev pub no_turns : Turns
no_turns = record { active = []; canonical_by_raw = []; ended = [] }

-- `self._canonical_by_raw.get(raw, raw)`
abbrev pub canonical_key : String → Turns → String
canonical_key raw s = elim (find_key raw s.canonical_by_raw) [ some key ↦ key | none ↦ raw ]

-- `_prune_ended`: what is older than the limit, and then the first entries over the bound.
abbrev pub is_fresh : ℕ → String × ℕ → Bool
is_fresh now (key, t) = not (ltb (t + ended_turn_ttl) now)

unfoldable pub prune_ended : ℕ → List (String × ℕ) → List (String × ℕ)
prune_ended now ended =
    let fresh = keep (is_fresh now) ended in drop (length fresh - ended_turn_max) fresh

-- The principal of a turn: `Caller.from_turn(authz) if authz else UNTRUSTED`
abbrev pub principal : Option TurnAuthz → Caller
principal none = untrusted
principal (some authz) = from_turn authz

-- `_active_turn`, on entry
unfoldable pub enter_turn : String → Option TurnAuthz → Turns → Turns
enter_turn session_key authz s = record {
  active = put_key session_key (principal authz) s.active;
  canonical_by_raw = s.canonical_by_raw;
  ended = s.ended;
}

-- The end of a subscription: `self._canonical_by_raw[session_key] = canonical_key`
abbrev pub subscribed : String → String → Turns → Turns
subscribed session_key key s = record {
  active = s.active;
  canonical_by_raw = put_key session_key key s.canonical_by_raw;
  ended = s.ended;
}

-- `reset`, of this state: the turns in flight stay until they end.
abbrev pub reset : Turns → Turns
reset s = record { active = s.active; canonical_by_raw = []; ended = s.ended }

-- `matches[0] if len(matches) == 1 else None`
abbrev pub only : List Caller → Option Caller
only (caller ∷ []) = some caller
only _ = none

module _ (lower : String → String) where
  -- `_record_ended`
  unfoldable pub record_ended : String → ℕ → Turns → List (String × ℕ)
  unfolding prune_ended
  record_ended session_key now s =
      prune_ended now (
        put_key (lower (canonical_key session_key s)) now (put_key (lower session_key) now s.ended))

  -- `_active_turn`, in its `finally`
  unfoldable pub leave_turn : String → ℕ → Turns → Turns
  unfolding record_ended
  leave_turn session_key now s = record {
    active = pop_key session_key s.active;
    canonical_by_raw = s.canonical_by_raw;
    ended = record_ended session_key now s;
  }

  -- `recently_ended`: the answer, and the state after the pruning.
  unfoldable pub recently_ended : String → ℕ → Turns → Bool × Turns
  unfolding prune_ended
  recently_ended session_key_hint now s =
      let ended = prune_ended now s.ended in
      (
        is_some (find_key (lower (strip session_key_hint)) ended),
        record { active = s.active; canonical_by_raw = s.canonical_by_raw; ended = ended },
      )

  -- The turn `raw` is a candidate for the hint.
  abbrev pub is_candidate : String → Turns → String → Bool
  is_candidate hint s raw = lower raw == hint || lower (canonical_key raw s) == hint

  unfoldable pub matching : String → Turns → List (String × Caller) → List Caller
  matching hint s [] = []
  matching hint s ((raw, caller) ∷ rest) =
      let others = matching hint s rest in
      if is_candidate hint s raw then caller ∷ others else others

  -- `active_caller`
  unfoldable pub active_caller : String → Turns → Option Caller
  unfolding matching
  active_caller session_key_hint s = only (matching (lower (strip session_key_hint)) s s.active)
