-- ===== src/Gateway/Caller/Sound.antt =====
-- What a resolved caller is.
use openclaw_hass_node.Prelude.{
  ℕ, String, ◌≡◌, ◌≢◌, refl, sym, true, false, ◌⊎◌, inl, inr, some, List, Option-cases,
}
use openclaw_hass_node.Value.{Value, Fields, get, has, remove, remove_absent, get-has}
use openclaw_hass_node.Caller.{Caller, operator}
use openclaw_hass_node.Relay.Turns.{Turns}
use openclaw_hass_node.Relay.Turns.Current.{Event, resolved, after, IsSoleTurn}
use openclaw_hass_node.Gateway.Caller.{
  caller_hint_param, invoke_caller, pop_caller_hint, resolved as accepted, resolve_invoke_caller,
}

-- They are what was sent, without the hint.
pop_caller_hint-remove :
    (params : Fields) → (pop_caller_hint params).1 ≡ remove caller_hint_param params
unfolding pop_caller_hint
pop_caller_hint-remove params = elim (Option-cases (get caller_hint_param params)) [
  | inl e ↦
      rw (e, pop_caller_hint)
        (sym (remove_absent caller_hint_param params (get-has caller_hint_param params e)))
  | inr (hint, e) ↦ rw (e, pop_caller_hint) refl
]

module _ (lower : String → String) where
  -- What a resolved caller may be: the operator where there is no hint, and with a hint the principal
  -- of the one turn in flight that its session key names, which is not the operator.
  abbrev pub IsEntitled : Fields → List Event → Caller → Type 0
  IsEntitled params events c =
      ((has caller_hint_param params ≡ false) × (c ≡ invoke_caller))
      ⊎ ((key : String) × (has caller_hint_param params ≡ true)
          × (c.role ≢ operator)
          × IsSoleTurn lower key events c)

  -- The parameters that are left are those that were sent, without the field.
  pub resolve_invoke_caller-removes :
      (params : Fields) (now : ℕ) (events : List Event)
      → (resolve_invoke_caller lower params now (some (after lower events))).1
        ≡ remove caller_hint_param params
  unfolding resolve_invoke_caller
  resolve_invoke_caller-removes params now events = pop_caller_hint-remove params
