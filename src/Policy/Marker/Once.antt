-- ===== src/Policy/Marker/Once.antt =====
-- A marker authorizes one call.
use openclaw_hass_node.Prelude.{
  ℕ, ◌≤◌, String, ◌≡◌, ◌≢◌, refl, ap, ◌∙◌, true, false, Option, none, some, List, [], ◌∷◌, ◌==◌,
  eq_iff, if◌then◌else◌, ℤ, pos, negsuc, arith, ◌⊎◌, inl, inr, Bool-cases,
}
use openclaw_hass_node.Value.{Value, Fields, get, has, remove, has-remove_self, get-has}
use openclaw_hass_node.Caller.{Caller}
use openclaw_hass_node.Policy.Approval.{approval_exempt}
use openclaw_hass_node.Policy.Canonical.{DecimalTuple}
use openclaw_hass_node.Policy.Marker.{
  approval_param, UsedIds, expiry_of, record_use, is_expired, purge, Marker, parse_marker, Outcome,
  approval_bind, judge, consume_parsed, consume_present, consume_approval_marker,
}

is_expired_mono :
    (now later : ℕ) (exp : ℤ)
    → now ≤ later
    → is_expired now exp ≡ true
    → is_expired later exp ≡ true
unfolding is_expired
is_expired_mono now later (pos e) le h = ground arith
is_expired_mono now later (negsuc e) le h = refl

-- Purging keeps what has not expired.
expiry_of-purge :
    (now : ℕ) (id : String) (exp : ℤ) (used : UsedIds)
    → is_expired now exp ≡ false
    → expiry_of id used ≡ some exp
    → expiry_of id (purge now used) ≡ some exp
unfolding expiry_of purge
expiry_of-purge now id exp [] n h = h
expiry_of-purge now id exp ((j, e) ∷ used) n h = ground (arith, expiry_of-purge now id exp used)

expiry_of-record_use :
    (id : String) (exp : ℤ) (used : UsedIds) (j : String)
    → expiry_of j (record_use id exp used) ≡ (if id == j then some exp else expiry_of j used)
unfolding expiry_of record_use
expiry_of-record_use id exp [] j = refl
expiry_of-record_use id exp ((i, e) ∷ used) j =
    ground (arith, expiry_of-record_use id exp used j, eq_iff i id, eq_iff i j, eq_iff id j)

-- A marker can authorize nothing more: it has expired, or its id is recorded with its expiry.
pub IsSpent : ℕ → Marker → UsedIds → Type 0
IsSpent now marker used =
    (is_expired now marker.exp ≡ true) ⊎ (expiry_of marker.id used ≡ some marker.exp)

module _ (sha256_hex : String → String) (as_tuple : ℕ → DecimalTuple) where
  judge-IsSpent :
      (now : ℕ) (command action : String) (params : Fields) (marker other : Marker) (used : UsedIds)
      → expiry_of marker.id used ≡ some marker.exp
      → expiry_of marker.id (judge sha256_hex as_tuple now command action params other used).used
        ≡ some marker.exp
  unfolding judge
  judge-IsSpent now command action params marker other used h =
      ground
        (arith, expiry_of-record_use other.id other.exp used marker.id, eq_iff other.id marker.id)

  -- A check at a later time keeps a spent marker spent, whatever it decides.
  consume_parsed-IsSpent :
      (now later : ℕ) (command action : String) (params : Fields) (marker : Marker)
      (o : Option Marker) (used : UsedIds)
      → now ≤ later
      → IsSpent now marker used
      → IsSpent later marker
          (consume_parsed sha256_hex as_tuple later command action params o used).used
  unfolding consume_parsed IsSpent
  consume_parsed-IsSpent now later command action params marker o used le (inl e) =
      inl (is_expired_mono now later marker.exp le e)
  consume_parsed-IsSpent now later command action params marker none used le (inr r) = inr r
  consume_parsed-IsSpent now later command action params marker (some other) used le (inr r) =
      elim (Bool-cases (is_expired later marker.exp)) [
        | inl e ↦ inl e
        | inr e ↦ inr (
            judge-IsSpent later command action params marker other (purge later used)
              (expiry_of-purge later marker.id marker.exp used e r))
      ]

  consume-IsSpent :
      (now later : ℕ) (caller : Option Caller) (command action : String) (params : Fields)
      (marker : Marker) (v : Option Value) (used : UsedIds)
      → now ≤ later
      → IsSpent now marker used
      → IsSpent later marker
          (consume_present sha256_hex as_tuple caller later command action params v used).used
  unfolding consume_present
  consume-IsSpent now later caller command action params marker none used le s =
      consume_parsed-IsSpent now later command action params marker none used le s
  consume-IsSpent now later caller command action params marker (some v) used le s =
      consume_parsed-IsSpent now later command action (remove approval_param params) marker
        (parse_marker v) used le s

  -- An authorization records the marker.
  judge-records :
      (now : ℕ) (command action : String) (params : Fields) (marker : Marker) (used : UsedIds)
      → (judge sha256_hex as_tuple now command action params marker used).answer ≡ none
      → (is_expired now marker.exp ≡ false)
        × (marker.bind ≡ approval_bind sha256_hex as_tuple command action params)
        × (expiry_of marker.id used ≡ none)
        × (expiry_of marker.id
              (judge sha256_hex as_tuple now command action params marker used).used
            ≡ some marker.exp)
  unfolding judge
  judge-records now command action params marker used h = (
    ground arith,
    ground (arith, eq_iff marker.bind (approval_bind sha256_hex as_tuple command action params)),
    ground arith,
    ground (
      arith,
      expiry_of-record_use marker.id marker.exp used marker.id,
      (eq_iff marker.id marker.id).1 refl,
    ),
  )

  -- A spent marker is refused.
  judge_spent :
      (now : ℕ) (command action : String) (params : Fields) (marker : Marker) (used : UsedIds)
      → IsSpent now marker used
      → (judge sha256_hex as_tuple now command action params marker (purge now used)).answer ≢ none
  unfolding judge IsSpent
  judge_spent now command action params marker used (inl e) = ground arith
  judge_spent now command action params marker used (inr r) =
      ground (arith, expiry_of-purge now marker.id marker.exp used)

-- One call of the check.
pub record Request : Type 0 where
  pub caller : Option Caller
  pub now : ℕ
  pub command : String
  pub action : String
  pub params : Fields

-- The clock never goes back.
abbrev pub InOrder : ℕ → List Request → ℕ → Type 0
InOrder start [] end = start ≤ end
InOrder start (r ∷ rs) end = (start ≤ r.now) × InOrder r.now rs end

module _ (sha256_hex : String → String) (as_tuple : ℕ → DecimalTuple) where
  abbrev pub handle : Request → UsedIds → Outcome
  handle r used =
      consume_approval_marker sha256_hex as_tuple r.caller r.now r.command r.action r.params used

  -- The ids after a sequence of checks.
  unfoldable pub handle_all : List Request → UsedIds → UsedIds
  handle_all [] used = used
  handle_all (r ∷ rs) used = handle_all rs (handle r used).used

  -- The marker that a request presents, if it is well formed.
  abbrev marker_of : Option Value → Option Marker
  marker_of none = none
  marker_of (some v) = parse_marker v

  abbrev pub presented : Request → Option Marker
  presented r = marker_of (get approval_param r.params)

  handle_all-IsSpent :
      (start finish : ℕ) (marker : Marker) (rs : List Request) (used : UsedIds)
      → InOrder start rs finish
      → IsSpent start marker used
      → (now : ℕ) × (now ≤ finish) × IsSpent now marker (handle_all rs used)
  unfolding handle_all
  handle_all-IsSpent start finish marker [] used o s = (start, o, s)
  handle_all-IsSpent start finish marker (r ∷ rs) used o s =
      handle_all-IsSpent r.now finish marker rs _ o.1 (
        unfold consume_approval_marker in
        consume-IsSpent sha256_hex as_tuple start r.now r.caller r.command r.action r.params marker
          (get approval_param r.params) used o.0 s)

  authorized :
      (r : Request) (marker : Marker) (o : Option Value) (used : UsedIds)
      → marker_of o ≡ some marker
      → (consume_present sha256_hex as_tuple r.caller r.now r.command r.action r.params o
          used).answer
        ≡ none
      → IsSpent r.now marker
          (consume_present sha256_hex as_tuple r.caller r.now r.command r.action r.params o
            used).used
  unfolding consume_present consume_parsed IsSpent
  authorized r marker none used e h = cc
  authorized r marker (some v) used e h = rw e (
      inr
        (judge-records sha256_hex as_tuple r.now r.command r.action (remove approval_param r.params)
          marker (purge r.now used) (rw e at h)).3)

  refused :
      (r : Request) (marker : Marker) (o : Option Value) (used : UsedIds)
      → marker_of o ≡ some marker
      → IsSpent r.now marker used
      → (consume_present sha256_hex as_tuple r.caller r.now r.command r.action r.params o
          used).answer
        ≢ none
  unfolding consume_present consume_parsed
  refused r marker none used e s = cc
  refused r marker (some v) used e s = rw e (
      judge_spent sha256_hex as_tuple r.now r.command r.action (remove approval_param r.params)
        marker used s)

  IsSpent-mono :
      (now later : ℕ) (marker : Marker) (used : UsedIds)
      → now ≤ later
      → IsSpent now marker used
      → IsSpent later marker used
  unfolding IsSpent
  IsSpent-mono now later marker used le (inl e) = inl (is_expired_mono now later marker.exp le e)
  IsSpent-mono now later marker used le (inr r) = inr r

  -- Once a request with a marker was authorized, no later request that presents the same marker is,
  -- whatever its command, action and parameters and whatever requests were checked in between, as
  -- long as the clock does not go back.
  pub single_use :
      (first : Request) (between : List Request) (again : Request) (marker : Marker)
      (used : UsedIds)
      → presented first ≡ some marker
      → (handle first used).answer ≡ none
      → InOrder first.now between again.now
      → presented again ≡ some marker
      → (handle again (handle_all between (handle first used).used)).answer ≢ none
  unfolding consume_approval_marker
  single_use first between again marker used p h o q =
      let (now, le, s) =
        handle_all-IsSpent first.now again.now marker between (handle first used).used o
          (authorized first marker (get approval_param first.params) used p h) in
      refused again marker (get approval_param again.params)
        (handle_all between (handle first used).used) q
        (IsSpent-mono now again.now marker (handle_all between (handle first used).used) le s)

  -- Why a request was authorized.
  pub data Grant (r : Request) (used : UsedIds) : Type 0 where
    exempt :
        get approval_param r.params ≡ none
        → approval_exempt r.caller r.command r.action ≡ true
        → Grant r used
    marked :
        (marker : Marker)
        → presented r ≡ some marker
        → is_expired r.now marker.exp ≡ false
        → marker.bind
          ≡ approval_bind sha256_hex as_tuple r.command r.action (remove approval_param r.params)
        → expiry_of marker.id (purge r.now used) ≡ none
        → Grant r used

  parsed-Grant :
      (r : Request) (used : UsedIds) (o : Option Marker)
      → presented r ≡ o
      → (consume_parsed sha256_hex as_tuple r.now r.command r.action
          (remove approval_param r.params)
          o
          used).answer
        ≡ none
      → Grant r used
  unfolding consume_parsed
  parsed-Grant r used none e h = cc
  parsed-Grant r used (some marker) e h =
      let (fresh, bound, unused, recorded) =
        judge-records sha256_hex as_tuple r.now r.command r.action (remove approval_param r.params)
          marker (purge r.now used) h in
      marked marker e fresh bound unused

  present-Grant :
      (r : Request) (used : UsedIds) (o : Option Value)
      → get approval_param r.params ≡ o
      → (consume_present sha256_hex as_tuple r.caller r.now r.command r.action r.params o
          used).answer
        ≡ none
      → Grant r used
  unfolding consume_present
  present-Grant r used none e h = exempt e (ground arith)
  present-Grant r used (some v) e h = parsed-Grant r used (parse_marker v) (ap marker_of e) h

  -- A request is authorized only if it carries no marker and its caller is exempt, or if it carries a
  -- well-formed marker that has not expired, is bound to this command, action and parameters, and whose
  -- id is not among the ids used and not yet expired.
  pub authorized-Grant :
      (r : Request) (used : UsedIds) → (handle r used).answer ≡ none → Grant r used
  unfolding consume_approval_marker
  authorized-Grant r used h = present-Grant r used (get approval_param r.params) refl h

  params-consume_parsed :
      (now : ℕ) (command action : String) (params : Fields) (o : Option Marker) (used : UsedIds)
      → (consume_parsed sha256_hex as_tuple now command action params o used).params ≡ params
  unfolding consume_parsed judge
  params-consume_parsed now command action params none used = refl
  params-consume_parsed now command action params (some marker) used = ground arith

  has_no_marker :
      (r : Request) (used : UsedIds) (o : Option Value)
      → get approval_param r.params ≡ o
      → has approval_param
          (consume_present sha256_hex as_tuple r.caller r.now r.command r.action r.params o
            used).params
        ≡ false
  unfolding consume_present
  has_no_marker r used none e = get-has approval_param r.params e
  has_no_marker r used (some v) e =
      ap (has approval_param) (
        params-consume_parsed r.now r.command r.action (remove approval_param r.params)
          (parse_marker v) used)
      ∙ has-remove_self approval_param r.params

  -- Whatever the answer, the parameters that go on hold no marker.
  pub params-has_no_marker :
      (r : Request) (used : UsedIds) → has approval_param (handle r used).params ≡ false
  unfolding consume_approval_marker
  params-has_no_marker r used = has_no_marker r used (get approval_param r.params) refl
