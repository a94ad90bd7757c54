-- ===== src/Policy/Marker/Checker.antt =====
-- commands/config_mutation.py: the one-shot check of the handlers that gate only some paths.
use openclaw_hass_node.Prelude.{ℕ, String, ◌≡◌, refl, ap, Option, none, some, List, [], ◌∷◌}
use openclaw_hass_node.Value.{Fields}
use openclaw_hass_node.Caller.{Caller}
use openclaw_hass_node.Policy.Canonical.{DecimalTuple}
use openclaw_hass_node.Policy.Marker.{UsedIds, Outcome, consume_approval_marker}

-- The list `result` of the closure, which has at most one element; the parameters; the used ids.
pub record Checker : Type 0 where
  pub result : Option (Option Fields)
  pub params : Fields
  pub used : UsedIds

-- `approval_checker`: the closure before its first call.
abbrev pub approval_checker : Fields → UsedIds → Checker
approval_checker params used = record { result = none; params = params; used = used }

module _ (sha256_hex : String → String) (as_tuple : ℕ → DecimalTuple) where
  -- One call of `check`.
  unfoldable pub check_once : Option Caller → ℕ → String → Checker → Option Fields × Checker
  check_once caller now command s = elim s.result [
    | some answer ↦ (answer, s)
    | none ↦
        let outcome =
          consume_approval_marker sha256_hex as_tuple caller now command "" s.params s.used in
        (
          outcome.answer,
          record { result = some outcome.answer; params = outcome.params; used = outcome.used },
        )
  ]

  -- The answers of a series of calls, in order, and what they leave. Each call has its own clock
  -- reading and its own current caller.
  unfoldable pub check_all :
      String → List (Option Caller × ℕ) → Checker → List (Option Fields) × Checker
  unfolding check_once
  check_all command [] s = ([], s)
  check_all command ((caller, now) ∷ later) s =
      let (answer, s') = check_once caller now command s in
      let (answers, end) = check_all command later s' in (answer ∷ answers, end)

  abbrev pub repeated : List (Option Caller × ℕ) → Option Fields → List (Option Fields)
  repeated [] answer = []
  repeated (c ∷ cs) answer = answer ∷ repeated cs answer

  check_all-settled :
      (command : String) (calls : List (Option Caller × ℕ)) (answer : Option Fields)
      (params : Fields) (used : UsedIds)
      → check_all command calls (record { result = some answer; params = params; used = used })
        ≡ (repeated calls answer, record { result = some answer; params = params; used = used })
  unfolding check_all check_once
  check_all-settled command [] answer params used = refl
  check_all-settled command ((caller, now) ∷ later) answer params used =
      ap (λ (r : List (Option Fields) × Checker). (answer ∷ r.0, r.1))
        (check_all-settled command later answer params used)

  abbrev pub first_outcome : String → Option Caller → ℕ → Fields → UsedIds → Outcome
  first_outcome command caller now params used =
      consume_approval_marker sha256_hex as_tuple caller now command "" params used

  -- However often the check of a handler is called, and with whatever clock readings and callers later
  -- on: every call has the answer of the first, and the parameters and the used ids are afterwards as
  -- one consumption of the marker, at the first call, leaves them.
  pub check_all-consumes_once :
      (command : String) (caller : Option Caller) (now : ℕ) (later : List (Option Caller × ℕ))
      (params : Fields) (used : UsedIds)
      → ((check_all command ((caller, now) ∷ later) (approval_checker params used)).0
          ≡ repeated ((caller, now) ∷ later) (first_outcome command caller now params used).answer)
        × ((check_all command ((caller, now) ∷ later) (approval_checker params used)).1.params
            ≡ (first_outcome command caller now params used).params)
        × ((check_all command ((caller, now) ∷ later) (approval_checker params used)).1.used
            ≡ (first_outcome command caller now params used).used)
  unfolding check_all check_once
  check_all-consumes_once command caller now later params used =
      let outcome = first_outcome command caller now params used in
      let e = check_all-settled command later outcome.answer outcome.params outcome.used in
      (
        ap (λ (r : List (Option Fields) × Checker). outcome.answer ∷ r.0) e,
        ap (λ (r : List (Option Fields) × Checker). r.1.params) e,
        ap (λ (r : List (Option Fields) × Checker). r.1.used) e,
      )
