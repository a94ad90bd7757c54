-- ===== src/Dispatch/Gate.antt =====
-- A handler runs only behind the gate, and nothing leaves the dispatcher unmasked.
use openclaw_hass_node.Prelude.{
  String, ◌≡◌, ◌≢◌, refl, Bool, true, false, not, ◌&&◌, Option, none, some, is_some, List, [], ◌∷◌,
  ◌++◌, ◌==◌, if◌then◌else◌, contains, Bool-cases, ◌⊎◌, inl, inr, arith, ◌∙◌,
}
use openclaw_hass_node.Value.{Value, str, dict, Fields}
use openclaw_hass_node.Authz.{user}
use openclaw_hass_node.Authz.Commands.{registered_commands, user_allowed_commands}
use openclaw_hass_node.Authz.Services.{service_for_command}
use openclaw_hass_node.Authz.Codes.{Code, collect_codes}
use openclaw_hass_node.Authz.Codes.Scrub.{Printing, scrub_codes, walk}
use openclaw_hass_node.Authz.Codes.Scrub.Exposure.{code_str, exposes, scrub_codes-hides}
use openclaw_hass_node.Authz.Forbidden.{is_forbidden}
use openclaw_hass_node.Caller.{Caller, turn_role}
use openclaw_hass_node.Policy.Effect.{check}
use openclaw_hass_node.Policy.Effect.Household.{check-user, is_household_service}
use openclaw_hass_node.Dispatch.{
  Reply, returned, coroutine, raised, Result, ok, unknown_command, handler_failed, async_handler,
  handler_error, Node, Handlers, failure, finish, settled, await_reply, run_handler, gate,
  with_codes, overflow_error, unknown_text, failed_text, masked_name, dispatch,
}

-- A result shows nothing of a code. An exception of the dispatcher is made of fixed words and the repr
-- of a name that shows nothing of it.
abbrev pub HidesName : Printing → Code → String → (String → String) → Type 0
HidesName p c text sentence =
    (name : String) × (text ≡ sentence name) × (exposes p c (str name) ≡ false)

abbrev pub IsHidden : {Error : Type 0} → Printing → Code → Result Error → Type 0
IsHidden p c (ok v) = exposes p c v ≡ false
IsHidden p c (unknown_command text name) =
    (text ≡ unknown_text p name) × (exposes p c (str name) ≡ false)
IsHidden p c (handler_failed text) = HidesName p c text (failed_text p)
IsHidden p c (async_handler text) = false ≡ true
IsHidden p c (handler_error e) = false ≡ true
IsHidden p c overflow_error = false ≡ true

-- The call of a registered command whose codes can be collected and that the policy does not refuse.
abbrev pub permitted : Caller → String → Fields → Bool
permitted caller command params =
    is_some (collect_codes (dict params))
    && contains registered_commands command
    && not (is_some (check caller command params))

-- A call of `dispatch`, or with the flag of `dispatch_async`.
pub record Call : Type 0 where
  pub is_async : Bool
  pub caller : Caller
  pub command : String
  pub params : Fields

abbrev pub is_permitted : Call → Bool
is_permitted r = permitted r.caller r.command r.params

-- The log after the calls reached their handlers, in order.
abbrev pub logged :
    List Call → List (String × Fields × Option Caller) → List (String × Fields × Option Caller)
logged [] calls = calls
logged (r ∷ rs) calls = logged rs ((r.command, r.params, some r.caller) ∷ calls)

module _ {World Error : Type 0} (p : Printing) (h : Handlers World Error) where
  gate-calls :
      (is_async : Bool) (caller : Caller) (command : String) (params : Fields) (codes : List Code)
      (o : Option Fields) (node : Node World)
      → ((gate p h is_async caller command params codes o node).1.calls
          ≡ (if is_some o then node.calls else (command, params, some caller) ∷ node.calls))
        × ((gate p h is_async caller command params codes o node).1.current_caller
            ≡ node.current_caller)
  unfolding gate run_handler
  gate-calls is_async caller command params codes none node = (refl, refl)
  gate-calls is_async caller command params codes (some r) node = (refl, refl)

  with_codes-calls :
      (is_async : Bool) (caller : Caller) (command : String) (params : Fields)
      (o : Option (List Code)) (node : Node World)
      → ((with_codes p h is_async caller command params o node).1.calls ≡ (
          if is_some o
            && contains registered_commands command
            && not (is_some (check caller command params))
          then (command, params, some caller) ∷ node.calls
          else node.calls))
        × ((with_codes p h is_async caller command params o node).1.current_caller
            ≡ node.current_caller)
  unfolding with_codes
  with_codes-calls is_async caller command params none node = (refl, refl)
  with_codes-calls is_async caller command params (some codes) node =
      let g = gate-calls is_async caller command params codes (check caller command params) node in
      (ground (arith, g.0), ground (arith, g.1))

  pub dispatch-calls :
      (is_async : Bool) (caller : Caller) (command : String) (params : Fields) (node : Node World)
      → ((dispatch p h is_async caller command params node).1.calls ≡ (
          if permitted caller command params
          then (command, params, some caller) ∷ node.calls
          else node.calls))
        × ((dispatch p h is_async caller command params node).1.current_caller
            ≡ node.current_caller)
  unfolding dispatch
  dispatch-calls is_async caller command params node =
      with_codes-calls is_async caller command params (collect_codes (dict params)) node

  -- A call that no handler sees changes nothing.
  with_codes-unchanged :
      (is_async : Bool) (caller : Caller) (command : String) (params : Fields)
      (o : Option (List Code)) (node : Node World)
      → (is_some o
          && contains registered_commands command
          && not (is_some (check caller command params)))
        ≡ false
      → (with_codes p h is_async caller command params o node).1 ≡ node
  unfolding with_codes gate
  with_codes-unchanged is_async caller command params none node e = refl
  with_codes-unchanged is_async caller command params (some codes) node e = ground arith

  pub refused-unchanged :
      (is_async : Bool) (caller : Caller) (command : String) (params : Fields) (node : Node World)
      → permitted caller command params ≡ false
      → (dispatch p h is_async caller command params node).1 ≡ node
  unfolding dispatch
  refused-unchanged is_async caller command params node e =
      with_codes-unchanged is_async caller command params (collect_codes (dict params)) node e

  -- The node after a series of calls.
  unfoldable pub dispatch_all : List Call → Node World → Node World
  dispatch_all [] node = node
  dispatch_all (r ∷ rs) node =
      dispatch_all rs (dispatch p h r.is_async r.caller r.command r.params node).1

  -- With a code in play the handler's error is withheld.
  withheld :
      (command : String) (c : Code) (after : List Code) (e : Error) (before : List Code)
      → failure p h command (before ++ (c ∷ after)) e
        ≡ handler_failed (failed_text p (masked_name p command (before ++ (c ∷ after))))
  unfolding failure
  withheld command c after e [] = refl
  withheld command c after e (x ∷ before) = refl

  module _ (c : Code) (before after : List Code) (written : (code_str p c == "") ≡ false) where
    abbrev given : List Code
    given = before ++ (c ∷ after)

    -- The masked name shows nothing.
    name-hides : (command : String) → exposes p c (str (masked_name p command given)) ≡ false
    unfolding masked_name scrub_codes walk
    name-hides command = scrub_codes-hides p c before after written (str command)

    failure-hides : (command : String) (e : Error) → IsHidden p c (failure p h command given e)
    failure-hides command e =
        rw (withheld command c after e before)
          (masked_name p command given, refl, name-hides command)

    finish-settled-hides :
        (command : String) (s : (Value ⊎ Error) × World)
        → IsHidden p c (finish p h command given (settled p h s).0)
    unfolding finish settled
    finish-settled-hides command (inl v, w) = scrub_codes-hides p c before after written v
    finish-settled-hides command (inr e, w) = failure-hides command e

    finish-await-hides :
        (command : String) (params : Fields) (caller : Option Caller) (r : Reply Error × World)
        → IsHidden p c (finish p h command given (await_reply p h true command params caller r).0)
    unfolding finish await_reply
    finish-await-hides command params caller (returned v, w) =
        scrub_codes-hides p c before after written v
    finish-await-hides command params caller (coroutine, w) =
        finish-settled-hides command (h.settle command params caller w)
    finish-await-hides command params caller (raised e, w) = failure-hides command e

    gate-hides :
        (caller : Caller) (command : String) (params : Fields) (o : Option Fields)
        (node : Node World)
        → IsHidden p c (gate p h true caller command params given o node).0
    unfolding gate run_handler
    gate-hides caller command params none node =
        finish-await-hides command params (some caller)
          (h.handler command params (some caller) node.world)
    gate-hides caller command params (some r) node =
        scrub_codes-hides p c before after written (dict r)

    if-hides :
        (b : Bool) (x y : Result Error × Node World)
        → IsHidden p c x.0
        → IsHidden p c y.0
        → IsHidden p c (if b then x else y).0
    if-hides true x y f g = f
    if-hides false x y f g = g

    -- For every code that the parameters supply, at any depth, and whose printed form is not empty: a value
    -- that `dispatch_async` returns shows nothing of it, whatever the handler does; and the handler's
    -- own error is never let through: what is raised instead is an exception whose text is fixed words
    -- and the repr of a masked command name that shows nothing of the code.
    pub dispatch-hides :
        (caller : Caller) (command : String) (params : Fields) (node : Node World)
        → collect_codes (dict params) ≡ some (before ++ (c ∷ after))
        → IsHidden p c (dispatch p h true caller command params node).0
    unfolding dispatch with_codes
    dispatch-hides caller command params node e = rw e (
        if-hides (not (contains registered_commands command)) _ _ (refl, name-hides command)
          (gate-hides caller command params (check caller command params) node))

module _ {World Error : Type 0} (p : Printing) (h : Handlers World Error) where
  -- A call of a household user reaches its handler only if the command is in the allowed set, the
  -- caller's forbidden set does not block it, and it calls a service of the household table or none.
  pub household-dispatch :
      (is_async : Bool) (actor_id : String) (forbidden : List String) (command : String)
      (params : Fields) (node : Node World)
      → (dispatch p h is_async
          (record { role = turn_role user; actor_id = actor_id; forbidden = forbidden })
          command
          params
          node).1.calls
        ≢ node.calls
      → (contains user_allowed_commands command ≡ true)
        × (is_forbidden forbidden command params ≡ false)
        × (is_household_service command (service_for_command command params) ≡ true)
  household-dispatch is_async actor_id forbidden command params node reached =
      let caller : Caller = record {
        role = turn_role user;
        actor_id = actor_id;
        forbidden = forbidden;
      } in
      let calls = (dispatch-calls p h is_async caller command params node).0 in
      let verdict = check-user actor_id forbidden command params in
      elim (Bool-cases (permitted caller command params)) [
        | inl e ↦
            (ground (arith, verdict, e), ground (arith, verdict, e), ground (arith, verdict, e))
        | inr e ↦ absurd (reached (calls ∙ rw e))
      ]
