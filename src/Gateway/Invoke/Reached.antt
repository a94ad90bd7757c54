-- ===== src/Gateway/Invoke/Reached.antt =====
-- When an invoke reaches a handler.
use openclaw_hass_node.Prelude.{
  String, ◌≡◌, Bool, true, false, Option, none, some, List, ◌∷◌, if◌then◌else◌, contains,
}
use openclaw_hass_node.Value.{Fields, has, remove}
use openclaw_hass_node.Authz.Commands.{registered_commands}
use openclaw_hass_node.Authz.Codes.Scrub.{Printing}
use openclaw_hass_node.Caller.{Caller}
use openclaw_hass_node.Policy.Effect.{check}
use openclaw_hass_node.Relay.Turns.{Turns}
use openclaw_hass_node.Relay.Turns.Current.{Event}
use openclaw_hass_node.Dispatch.{Node, Handlers}
use openclaw_hass_node.Gateway.Caller.{caller_hint_param}
use openclaw_hass_node.Gateway.Caller.Sound.{IsEntitled}
use openclaw_hass_node.Gateway.Invoke.{Libraries}

module _ {World Error : Type 0} (p : Printing) (h : Handlers World Error) (io : Libraries) where
  -- The handler was called, once, for a caller that is entitled to be the caller and to the command.
  abbrev pub IsReached :
      String
      → Fields
      → List Event
      → Fields
      → List (String × Fields × Option Caller)
      → List (String × Fields × Option Caller)
      → Type 0
  IsReached command given events rest before calls =
      (c : Caller) × IsEntitled io.lower given events c
      × (rest ≡ remove caller_hint_param given)
      × (has caller_hint_param rest ≡ false)
      × (contains registered_commands command ≡ true)
      × (check c command rest ≡ none)
      × (calls ≡ (command, rest, some c) ∷ before)

  abbrev chosen :
      String → Fields → Caller → Node World → Bool → List (String × Fields × Option Caller)
  chosen command rest c node b = if b then (command, rest, some c) ∷ node.calls else node.calls
