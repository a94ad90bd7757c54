-- ===== src/Dispatch.antt =====
-- app/node/src/openclaw_node/commands/dispatcher.py: from a command name to its handler, through the
-- policy gate, with the supplied codes masked in everything that leaves.
pub mod Gate
use openclaw_hass_node.Prelude.{
  String, ◌<>◌, ◌≡◌, refl, Bool, true, false, not, Option, none, some, List, [], ◌∷◌, ◌==◌,
  if◌then◌else◌, contains, ◌⊎◌, inl, inr,
}
use openclaw_hass_node.Value.{Value, str, dict, Fields}
use openclaw_hass_node.Authz.Commands.{registered_commands}
use openclaw_hass_node.Authz.Codes.{Code, collect_codes}
use openclaw_hass_node.Authz.Codes.Scrub.{Printing, scrub_codes}
use openclaw_hass_node.Caller.{Caller}
use openclaw_hass_node.Policy.Effect.{check}

-- How a handler ends: with a result, with a coroutine still to be awaited, or by raising.
pub data Reply (Error : Type 0) : Type 0 where
  returned : Value → Reply Error
  coroutine : Reply Error
  raised : Error → Reply Error

-- What a dispatch ends with: a result, or one of the dispatcher's exceptions with its text, or the
-- handler's own, or the OverflowError of `collect_codes`. An UnknownCommandError has the masked command
-- as well.
pub data Result (Error : Type 0) : Type 0 where
  ok : Value → Result Error
  unknown_command : String → String → Result Error
  handler_failed : String → Result Error
  async_handler : String → Result Error
  overflow_error : Result Error
  handler_error : Error → Result Error

-- The node as the dispatcher sees it: `CURRENT_CALLER`, whatever the handlers may change, and the
-- calls that reached a handler, with the caller that each saw.
pub record Node (World : Type 0) : Type 0 where
  pub current_caller : Option Caller
  pub world : World
  pub calls : List (String × Fields × Option Caller)

-- The handlers of the registry: a handler sees the parameters and the current caller. `settle` awaits
-- the coroutine that a handler returned.
pub record Handlers (World Error : Type 0) : Type 0 where
  pub handler : String → Fields → Option Caller → World → Reply Error × World
  pub settle : String → Fields → Option Caller → World → (Value ⊎ Error) × World

abbrev pub text_in : Value → String
text_in (str s) = s
text_in v = ""

-- `scrub_codes(command, codes)`, which is a text
unfoldable pub masked_name : Printing → String → List Code → String
unfolding scrub_codes
masked_name p command codes = text_in (scrub_codes p (str command) codes)

-- The texts of the three exceptions of the dispatcher
abbrev pub unknown_text : Printing → String → String
unknown_text p name = "No handler registered for command: " <> p.text_repr name

abbrev pub failed_text : Printing → String → String
failed_text p name = "Handler failed for command: " <> p.text_repr name

abbrev pub async_text : Printing → String → String
async_text p command =
    "Command " <> p.text_repr command <> " is async; use dispatch_async() instead"

module _ {World Error : Type 0} (p : Printing) (h : Handlers World Error) where
  -- The `except` clause: with a supplied code in play the handler's own error is withheld.
  failure : String → List Code → Error → Result Error
  unfolding masked_name
  failure command [] e = handler_error e
  failure command (c ∷ codes) e = handler_failed (failed_text p (masked_name p command (c ∷ codes)))

  finish : String → List Code → Reply Error → Result Error
  unfolding failure
  finish command codes (returned v) = ok (scrub_codes p v codes)
  finish command codes coroutine = async_handler (async_text p command)
  finish command codes (raised e) = failure command codes e

  settled : (Value ⊎ Error) × World → Reply Error × World
  settled (inl v, world) = (returned v, world)
  settled (inr e, world) = (raised e, world)

  -- In `dispatch_async` a coroutine is awaited.
  await_reply : Bool → String → Fields → Option Caller → Reply Error × World → Reply Error × World
  unfolding settled
  await_reply true command params caller (coroutine, world) =
      settled (h.settle command params caller world)
  await_reply is_async command params caller reply = reply

  -- `CURRENT_CALLER.set(caller)`, the handler, and `CURRENT_CALLER.reset(token)`.
  run_handler : Bool → Caller → String → Fields → List Code → Node World → Result Error × Node World
  unfolding await_reply finish
  run_handler is_async caller command params codes node =
      let (reply, world') =
        await_reply is_async command params (some caller)
          (h.handler command params (some caller) node.world) in
      (
        finish command codes reply,
        record {
          current_caller = node.current_caller;
          world = world';
          calls = (command, params, some caller) ∷ node.calls;
        },
      )

  gate :
      Bool
      → Caller
      → String
      → Fields
      → List Code
      → Option Fields
      → Node World
      → Result Error × Node World
  unfolding run_handler
  gate is_async caller command params codes (some refused) node =
      (ok (scrub_codes p (dict refused) codes), node)
  gate is_async caller command params codes none node =
      run_handler is_async caller command params codes node

  with_codes :
      Bool → Caller → String → Fields → Option (List Code) → Node World → Result Error × Node World
  unfolding gate masked_name
  with_codes is_async caller command params none node = (overflow_error, node)
  with_codes is_async caller command params (some codes) node =
      if not (contains registered_commands command)
      then (
        unknown_command (unknown_text p (masked_name p command codes))
            (masked_name p command codes),
        node,
      )
      else gate is_async caller command params codes (check caller command params) node

  -- `dispatch`, and with the flag `dispatch_async`
  unfoldable pub dispatch : Bool → Caller → String → Fields → Node World → Result Error × Node World
  unfolding with_codes
  dispatch is_async caller command params node =
      with_codes is_async caller command params (collect_codes (dict params)) node
