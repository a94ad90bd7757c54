-- ===== src/Pairing/Exact.antt =====
-- What the pairing state says about the responses and the losses of the connection so far.
use openclaw_hass_node.Prelude.{
  String, ◌≡◌, refl, ◌∙◌, Bool, true, false, not, ◌&&◌, Option, List, [], ◌∷◌, ◌==◌, arith,
}
use openclaw_hass_node.Pairing.{
  PairingState, unknown, pending, paired, error, or_else, on_connect_response, on_reconnect,
  is_paired, is_pending,
}

-- What happens to the machine: the gateway's answer to a connect, or the loss of the connection.
pub data Event (Ms : Type 0) : Type 0 where
  response : Bool → String → Option String → String → Option Ms → Event Ms
  lost : Event Ms

abbrev pub is_error : PairingState → Bool
is_error error = true
is_error _ = false

on_reconnect-is_error : (s : PairingState) → is_error (on_reconnect s) ≡ is_error s
on_reconnect-is_error unknown = refl
on_reconnect-is_error pending = refl
on_reconnect-is_error paired = refl
on_reconnect-is_error error = refl

on_reconnect-is_paired : (s : PairingState) → is_paired (on_reconnect s) ≡ false
on_reconnect-is_paired unknown = refl
on_reconnect-is_paired pending = refl
on_reconnect-is_paired paired = refl
on_reconnect-is_paired error = refl

on_reconnect-is_pending : (s : PairingState) → is_pending (on_reconnect s) ≡ false
on_reconnect-is_pending unknown = refl
on_reconnect-is_pending pending = refl
on_reconnect-is_pending paired = refl
on_reconnect-is_pending error = refl

module _ {Ms : Type 0} where
  abbrev pub step : Event Ms → PairingState → PairingState
  step (response ok payload code message retry) state =
      (on_connect_response ok payload code message retry).0
  step lost state = on_reconnect state

  -- The state after the events, the latest first.
  abbrev pub after : List (Event Ms) → PairingState
  after [] = unknown
  after (e ∷ earlier) = step e (after earlier)

  -- The latest event is an accepted connect, a refusal that asks for approval, another refusal.
  abbrev pub accepts : List (Event Ms) → Bool
  accepts (response ok payload code message retry ∷ earlier) = ok
  accepts _ = false

  abbrev pub awaits : List (Event Ms) → Bool
  awaits (response ok payload code message retry ∷ earlier) =
      not ok && (or_else code "UNKNOWN_ERROR" == "PAIRING_REQUIRED")
  awaits _ = false

  -- The latest response, behind any losses, is a refusal that does not ask for approval.
  abbrev pub is_refused : List (Event Ms) → Bool
  is_refused [] = false
  is_refused (response ok payload code message retry ∷ earlier) =
      not ok && not (or_else code "UNKNOWN_ERROR" == "PAIRING_REQUIRED")
  is_refused (lost ∷ earlier) = is_refused earlier

  after-is_error : (events : List (Event Ms)) → is_error (after events) ≡ is_refused events
  after-is_error [] = refl
  after-is_error (response true payload code message retry ∷ earlier) = refl
  after-is_error (response false payload code message retry ∷ earlier) = ground arith
  after-is_error (lost ∷ earlier) = on_reconnect-is_error (after earlier) ∙ after-is_error earlier

  -- After every sequence of connect responses and lost connections the machine is paired exactly if
  -- the latest of them is an accepted connect, pending exactly if it is a refusal with the code
  -- PAIRING_REQUIRED, and in the error state exactly if the latest response, whatever was lost since,
  -- is a refusal with another code.
  pub pairing_state-exact :
      (events : List (Event Ms))
      → (is_paired (after events) ≡ accepts events)
        × (is_pending (after events) ≡ awaits events)
        × (is_error (after events) ≡ is_refused events)
  pairing_state-exact [] = (refl, refl, refl)
  pairing_state-exact (response true payload code message retry ∷ earlier) = (refl, refl, refl)
  pairing_state-exact (response false payload code message retry ∷ earlier) =
      (ground arith, ground arith, ground arith)
  pairing_state-exact (lost ∷ earlier) = (
    on_reconnect-is_paired (after earlier),
    on_reconnect-is_pending (after earlier),
    on_reconnect-is_error (after earlier) ∙ after-is_error earlier,
  )
