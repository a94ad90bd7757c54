-- ===== src/Tests/Relay.antt =====
-- A history of two turns, one of them over, and a gateway that asks for the other.
use openclaw_hass_node.Prelude.{
  ℕ, String, find_key, put_key, pop_key, strip, ◌≡◌, ◌≤◌, refl, true, false, none, some, List, [],
  ◌∷◌, length, all,
}
use openclaw_hass_node.Authz.{admin}
use openclaw_hass_node.Authz.Turn.{TurnAuthz}
use openclaw_hass_node.Caller.{Caller, turn_role}
use openclaw_hass_node.Pairing.{is_paired, is_pending}
use openclaw_hass_node.Pairing.Exact.{
  Event as PairingEvent, response, lost, accepts, awaits, is_refused, pairing_state-exact,
}
use openclaw_hass_node.Pairing.Exact as Exact
use openclaw_hass_node.Relay.Turns.{active_caller, recently_ended, leave_turn, enter_turn, is_fresh}
use openclaw_hass_node.Relay.Turns.Current.{
  Event, entered, left, resolved, asked, after, IsSoleTurn, active_caller-IsSoleTurn,
}
use openclaw_hass_node.Relay.Turns.Ended.{ended-bounded}

-- Lower case, of texts that are in lower case already.
abbrev pub as_is : String → String
as_is s = s

abbrev admin_turn : TurnAuthz
admin_turn = record {
  actor = some record { user_id = "u1"; is_admin = true };
  role = admin;
  agent_id = "main";
  forbidden = [];
}

abbrev pub admin_principal : Caller
admin_principal = record { role = turn_role admin; actor_id = "u1"; forbidden = [] }

-- The latest first.
abbrev pub two_turns : List Event
two_turns =
    left "ha-assist:b" 7
    ∷ resolved "ha-assist:a" "agent:main:ha-assist:a"
    ∷ entered "ha-assist:b" none
    ∷ entered "ha-assist:a" (some admin_turn)
    ∷ []

found :
    active_caller as_is " agent:main:ha-assist:a " (after as_is two_turns) ≡ some admin_principal
unfolding active_caller leave_turn enter_turn find_key put_key pop_key strip
found = refl

active_caller-IsSoleTurn_example :
    IsSoleTurn as_is " agent:main:ha-assist:a " two_turns admin_principal
active_caller-IsSoleTurn_example =
    active_caller-IsSoleTurn as_is " agent:main:ha-assist:a " two_turns admin_principal found

-- The turn that was left is remembered.
ended_lately : (recently_ended as_is "ha-assist:b" 300_000_000_007 (after as_is two_turns)).0 ≡ true
unfolding recently_ended leave_turn enter_turn find_key put_key strip
ended_lately = refl

ended_long_ago :
    (recently_ended as_is "ha-assist:b" 300_000_000_008 (after as_is two_turns)).0 ≡ false
unfolding recently_ended leave_turn enter_turn find_key put_key strip
ended_long_ago = refl

ended-bounded_example :
    (length (after as_is two_turns).ended ≤ 256)
    × (all (is_fresh 9) (after as_is (left "ha-assist:a" 9 ∷ two_turns)).ended ≡ true)
    × (all (is_fresh 9) (after as_is (asked "ha-assist:a" 9 ∷ two_turns)).ended ≡ true)
ended-bounded_example = ended-bounded as_is two_turns "ha-assist:a" 9

-- Approved, lost, and not back yet.
abbrev approved : List (PairingEvent ℕ)
approved =
    response true "" none "" none ∷ lost ∷ response false "" (some "PAIRING_REQUIRED") "" none ∷ []

pairing_state-exact_example :
    (is_paired (Exact.after approved) ≡ accepts approved)
    × (is_pending (Exact.after approved) ≡ awaits approved)
    × (Exact.is_error (Exact.after approved) ≡ is_refused approved)
pairing_state-exact_example = pairing_state-exact approved
