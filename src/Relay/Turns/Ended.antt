-- ===== src/Relay/Turns/Ended.antt =====
-- The bounds on the memory of ended turns.
use openclaw_hass_node.Prelude.{
  ℕ, ◌-◌, ◌≤◌, String, ◌≡◌, true, List, [], ◌∷◌, arith, length, all, keep, length-drop, all-drop,
  all-keep,
}
use openclaw_hass_node.Relay.Turns.{
  is_fresh, prune_ended, record_ended, enter_turn, leave_turn, recently_ended,
}
use openclaw_hass_node.Relay.Turns.Current.{
  Event, entered, left, resolved, asked, disconnected, after,
}

prune_ended-max : (now : ℕ) (d : List (String × ℕ)) → length (prune_ended now d) ≤ 256
unfolding prune_ended
prune_ended-max now d =
    omega (arith, length-drop (length (keep (is_fresh now) d) - 256) (keep (is_fresh now) d))

prune_ended-is_fresh :
    (now : ℕ) (d : List (String × ℕ)) → all (is_fresh now) (prune_ended now d) ≡ true
unfolding prune_ended
prune_ended-is_fresh now d =
    all-drop (is_fresh now) (length (keep (is_fresh now) d) - 256) (keep (is_fresh now) d)
      (all-keep (is_fresh now) d)

module _ (lower : String → String) where
  ended-max : (events : List Event) → length (after lower events).ended ≤ 256
  unfolding enter_turn leave_turn record_ended recently_ended
  ended-max [] = omega arith
  ended-max (entered k authz ∷ earlier) = ended-max earlier
  ended-max (left k now ∷ earlier) = prune_ended-max now _
  ended-max (resolved k key ∷ earlier) = ended-max earlier
  ended-max (asked hint now ∷ earlier) = prune_ended-max now _
  ended-max (disconnected ∷ earlier) = ended-max earlier

  -- After every history of the registry at most 256 ended turns are remembered, and right after a
  -- turn is left or a hint is looked up, all that are remembered ended at most 300 seconds ago.
  pub ended-bounded :
      (events : List Event) (k : String) (now : ℕ)
      → (length (after lower events).ended ≤ 256)
        × (all (is_fresh now) (after lower (left k now ∷ events)).ended ≡ true)
        × (all (is_fresh now) (after lower (asked k now ∷ events)).ended ≡ true)
  unfolding leave_turn record_ended recently_ended
  ended-bounded events k now =
      (ended-max events, prune_ended-is_fresh now _, prune_ended-is_fresh now _)
