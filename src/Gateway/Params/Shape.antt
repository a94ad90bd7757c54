-- ===== src/Gateway/Params/Shape.antt =====
-- The iterative walk accepts exactly the values within the bounds, and always ends.
use openclaw_hass_node.Prelude.{
  ℕ, zero, suc, ◌+◌, ◌≤◌, ◌<◌, max, ◌≡◌, ◌≢◌, refl, ◌∙◌, ap, ap₂, sym, ltb-false→le, Bool, true,
  false, ◌&&◌, [], ◌∷◌, ltb, leb, arith, Bool-cases, inl, inr,
}
use openclaw_hass_node.Value.{Value, list, dict, Items, nil, cons, Fields, end, field}
use openclaw_hass_node.Gateway.Params.{
  max_params_depth, max_params_members, Stack, push_items, push_values, count_items, count_fields,
  Verdict, accepted, out_of_fuel, visit, shape_loop, nodes, nodes_items, nodes_fields,
  check_params_shape,
}

-- How deep the containers of a value are nested, and how many members they have together.
unfoldable mutual
  pub nesting : Value → ℕ
  nesting (list vs) = suc (nesting_items vs)
  nesting (dict d) = suc (nesting_fields d)
  nesting v = 0

  pub nesting_items : Items → ℕ
  nesting_items nil = 0
  nesting_items (cons v vs) = max (nesting v) (nesting_items vs)

  pub nesting_fields : Fields → ℕ
  nesting_fields end = 0
  nesting_fields (field k v d) = max (nesting v) (nesting_fields d)

unfoldable mutual
  pub members : Value → ℕ
  members (list vs) = count_items vs + members_items vs
  members (dict d) = count_fields d + members_fields d
  members v = 0

  pub members_items : Items → ℕ
  members_items nil = 0
  members_items (cons v vs) = members v + members_items vs

  pub members_fields : Fields → ℕ
  members_fields end = 0
  members_fields (field k v d) = members v + members_fields d

-- The same over a stack.
all_members : Stack → ℕ
all_members [] = 0
all_members ((v, d) ∷ stack) = members v + all_members stack

all_nodes : Stack → ℕ
all_nodes [] = 0
all_nodes ((v, d) ∷ stack) = nodes v + all_nodes stack

-- A value at a depth: a scalar fits anywhere up to one below the limit.
abbrev fits : ℕ → ℕ → Bool
fits depth n = leb (depth + n) 65

all_fit : Stack → Bool
all_fit [] = true
all_fit ((v, d) ∷ stack) = fits d (nesting v) && all_fit stack

fits-max : (d m n : ℕ) → fits d (max m n) ≡ (fits d m && fits d n)
fits-max d m n = ground arith

&&-rotate : (a b c : Bool) → (a && (b && c)) ≡ ((b && a) && c)
&&-rotate true true c = refl
&&-rotate true false c = refl
&&-rotate false true c = refl
&&-rotate false false c = refl

all_members-push_items :
    (vs : Items) (d : ℕ) (stack : Stack)
    → all_members (push_items vs d stack) ≡ members_items vs + all_members stack
unfolding all_members push_items members
all_members-push_items nil d stack = omega arith
all_members-push_items (cons v vs) d stack =
    omega (arith, all_members-push_items vs d ((v, d) ∷ stack))

all_members-push_values :
    (vs : Fields) (d : ℕ) (stack : Stack)
    → all_members (push_values vs d stack) ≡ members_fields vs + all_members stack
unfolding all_members push_values members
all_members-push_values end d stack = omega arith
all_members-push_values (field k v vs) d stack =
    omega (arith, all_members-push_values vs d ((v, d) ∷ stack))

all_nodes-push_items :
    (vs : Items) (d : ℕ) (stack : Stack)
    → all_nodes (push_items vs d stack) ≡ nodes_items vs + all_nodes stack
unfolding all_nodes push_items nodes
all_nodes-push_items nil d stack = omega arith
all_nodes-push_items (cons v vs) d stack = omega (arith, all_nodes-push_items vs d ((v, d) ∷ stack))

all_nodes-push_values :
    (vs : Fields) (d : ℕ) (stack : Stack)
    → all_nodes (push_values vs d stack) ≡ nodes_fields vs + all_nodes stack
unfolding all_nodes push_values nodes
all_nodes-push_values end d stack = omega arith
all_nodes-push_values (field k v vs) d stack =
    omega (arith, all_nodes-push_values vs d ((v, d) ∷ stack))

all_fit-push_items :
    (vs : Items) (d : ℕ) (stack : Stack)
    → d ≤ 65
    → all_fit (push_items vs d stack) ≡ (fits d (nesting_items vs) && all_fit stack)
unfolding all_fit push_items nesting
all_fit-push_items nil d stack h = ground arith
all_fit-push_items (cons v vs) d stack h =
    all_fit-push_items vs d ((v, d) ∷ stack) h
    ∙ &&-rotate (fits d (nesting_items vs)) (fits d (nesting v)) (all_fit stack)
    ∙ ap (λ (b : Bool). b && all_fit stack) (sym (fits-max d (nesting v) (nesting_items vs)))

all_fit-push_values :
    (vs : Fields) (d : ℕ) (stack : Stack)
    → d ≤ 65
    → all_fit (push_values vs d stack) ≡ (fits d (nesting_fields vs) && all_fit stack)
unfolding all_fit push_values nesting
all_fit-push_values end d stack h = ground arith
all_fit-push_values (field k v vs) d stack h =
    all_fit-push_values vs d ((v, d) ∷ stack) h
    ∙ &&-rotate (fits d (nesting_fields vs)) (fits d (nesting v)) (all_fit stack)
    ∙ ap (λ (b : Bool). b && all_fit stack) (sym (fits-max d (nesting v) (nesting_fields vs)))

abbrev pub is_accepted : Verdict → Bool
is_accepted accepted = true
is_accepted _ = false

-- Every value on the stack lies at a depth that the walk can reach.
all_reachable : Stack → Bool
all_reachable [] = true
all_reachable ((v, d) ∷ stack) = leb d 65 && all_reachable stack

all_reachable-push_items :
    (vs : Items) (d : ℕ) (stack : Stack)
    → d ≤ 65
    → all_reachable stack ≡ true
    → all_reachable (push_items vs d stack) ≡ true
unfolding all_reachable push_items
all_reachable-push_items nil d stack h r = r
all_reachable-push_items (cons v vs) d stack h r =
    all_reachable-push_items vs d ((v, d) ∷ stack) h (ground arith)

all_reachable-push_values :
    (vs : Fields) (d : ℕ) (stack : Stack)
    → d ≤ 65
    → all_reachable stack ≡ true
    → all_reachable (push_values vs d stack) ≡ true
unfolding all_reachable push_values
all_reachable-push_values end d stack h r = r
all_reachable-push_values (field k v vs) d stack h r =
    all_reachable-push_values vs d ((v, d) ∷ stack) h (ground arith)

-- What the walk of a stack decides.
stack_within : ℕ → Stack → Bool
stack_within seen stack = leb (seen + all_members stack) 4096 && all_fit stack

-- One container: what is decided of the stack with its children decides of the stack with it.
container_step :
    (seen depth n below nest rest_members : ℕ) (rest_fit : Bool) (rest : Verdict)
    → (depth ≤ 64
        → seen + n ≤ 4096
        → is_accepted rest
          ≡ (leb (seen + n + (below + rest_members)) 4096 && (fits (depth + 1) nest && rest_fit)))
    → is_accepted (visit seen depth n rest)
      ≡ (leb (seen + (n + below + rest_members)) 4096 && (fits depth (suc nest) && rest_fit))
container_step seen depth n below nest rest_members rest_fit rest h =
    elim (Bool-cases (ltb max_params_depth depth)) [
      | inl deep ↦ ground arith
      | inr shallow ↦ elim (Bool-cases (ltb max_params_members (seen + n))) [
        | inl wide ↦ ground arith
        | inr narrow ↦
            let k = h (ltb-false→le 64 depth shallow) (ltb-false→le 4096 (seen + n) narrow) in
            ground arith
      ]
    ]

scalar_step :
    (seen depth rest_members : ℕ) (rest_fit : Bool) (rest : Verdict)
    → depth ≤ 65
    → is_accepted rest ≡ (leb (seen + rest_members) 4096 && rest_fit)
    → is_accepted rest ≡ (leb (seen + (0 + rest_members)) 4096 && (fits depth 0 && rest_fit))
scalar_step seen depth rest_members rest_fit rest le h = ground arith

-- The walk of a stack, with more fuel than values, accepts it exactly if it is within the bounds.
module _ (fuel : ℕ)
    (ih : (seen : ℕ) (stack : Stack)
      → all_nodes stack < fuel
      → all_reachable stack ≡ true
      → seen ≤ 4096
      → is_accepted (shape_loop fuel seen stack) ≡ stack_within seen stack) where
  list_step :
      (seen : ℕ) (vs : Items) (d : ℕ) (stack : Stack)
      → nodes_items vs + all_nodes stack < fuel
      → all_reachable stack ≡ true
      → is_accepted (shape_loop (suc fuel) seen ((list vs, d) ∷ stack))
        ≡ stack_within seen ((list vs, d) ∷ stack)
  unfolding shape_loop stack_within all_members all_fit members nesting
  list_step seen vs d stack f r =
      container_step seen d (count_items vs) (members_items vs) (nesting_items vs)
        (all_members stack) (all_fit stack) _
        λ le nar.
          ih (seen + count_items vs) (push_items vs (d + 1) stack)
            (omega (arith, all_nodes-push_items vs (d + 1) stack))
            (all_reachable-push_items vs (d + 1) stack (omega arith) r) nar
          ∙ ap₂ (λ (m : ℕ) (b : Bool). leb (seen + count_items vs + m) 4096 && b)
              (all_members-push_items vs (d + 1) stack)
              (all_fit-push_items vs (d + 1) stack (omega arith))

  dict_step :
      (seen : ℕ) (vs : Fields) (d : ℕ) (stack : Stack)
      → nodes_fields vs + all_nodes stack < fuel
      → all_reachable stack ≡ true
      → is_accepted (shape_loop (suc fuel) seen ((dict vs, d) ∷ stack))
        ≡ stack_within seen ((dict vs, d) ∷ stack)
  unfolding shape_loop stack_within all_members all_fit members nesting
  dict_step seen vs d stack f r =
      container_step seen d (count_fields vs) (members_fields vs) (nesting_fields vs)
        (all_members stack) (all_fit stack) _
        λ le nar.
          ih (seen + count_fields vs) (push_values vs (d + 1) stack)
            (omega (arith, all_nodes-push_values vs (d + 1) stack))
            (all_reachable-push_values vs (d + 1) stack (omega arith) r) nar
          ∙ ap₂ (λ (m : ℕ) (b : Bool). leb (seen + count_fields vs + m) 4096 && b)
              (all_members-push_values vs (d + 1) stack)
              (all_fit-push_values vs (d + 1) stack (omega arith))

shape_loop-within :
    (fuel seen : ℕ) (stack : Stack)
    → all_nodes stack < fuel
    → all_reachable stack ≡ true
    → seen ≤ 4096
    → is_accepted (shape_loop fuel seen stack) ≡ stack_within seen stack
unfolding shape_loop stack_within all_members all_fit all_nodes all_reachable members nesting nodes
shape_loop-within zero seen stack f r le = elim f [ ]
shape_loop-within (suc fuel) seen [] f r le = ground arith
shape_loop-within (suc fuel) seen ((list vs, d) ∷ stack) f r le =
    list_step fuel (shape_loop-within fuel) seen vs d stack (omega arith) (ground arith)
shape_loop-within (suc fuel) seen ((dict vs, d) ∷ stack) f r le =
    dict_step fuel (shape_loop-within fuel) seen vs d stack (omega arith) (ground arith)
shape_loop-within (suc fuel) seen ((v, d) ∷ stack) f r le =
    scalar_step seen d (all_members stack) (all_fit stack) _ (ground arith)
      (shape_loop-within fuel seen stack (omega arith) (ground arith) le)

visit-ends :
    (seen depth n : ℕ) (rest : Verdict) → rest ≢ out_of_fuel → visit seen depth n rest ≢ out_of_fuel
visit-ends seen depth n rest h = elim (Bool-cases (ltb max_params_depth depth)) [
  | inl deep ↦ ground arith
  | inr shallow ↦ elim (Bool-cases (ltb max_params_members (seen + n))) [
    | inl wide ↦ ground arith
    | inr narrow ↦ ground arith
  ]
]

shape_loop-ends :
    (fuel seen : ℕ) (stack : Stack)
    → all_nodes stack < fuel
    → shape_loop fuel seen stack ≢ out_of_fuel
unfolding shape_loop all_nodes nodes
shape_loop-ends zero seen stack f = elim f [ ]
shape_loop-ends (suc fuel) seen [] f = λ e. cc
shape_loop-ends (suc fuel) seen ((list vs, d) ∷ stack) f = visit-ends seen d (count_items vs) _ (
    shape_loop-ends fuel (seen + count_items vs) (push_items vs (d + 1) stack)
      (omega (arith, all_nodes-push_items vs (d + 1) stack)))
shape_loop-ends (suc fuel) seen ((dict vs, d) ∷ stack) f = visit-ends seen d (count_fields vs) _ (
    shape_loop-ends fuel (seen + count_fields vs) (push_values vs (d + 1) stack)
      (omega (arith, all_nodes-push_values vs (d + 1) stack)))
shape_loop-ends (suc fuel) seen ((v, d) ∷ stack) f = shape_loop-ends fuel seen stack (omega arith)

-- For every JSON value the walk of `_check_params_shape` ends, and it accepts the value exactly if
-- all the containers together have at most 4096 members and no container lies deeper than 64.
pub check_params_shape-within :
    (decoded : Value)
    → (check_params_shape decoded ≢ out_of_fuel)
      × (is_accepted (check_params_shape decoded)
          ≡ (leb (members decoded) 4096 && leb (nesting decoded) 64))
unfolding check_params_shape stack_within all_members all_fit all_nodes all_reachable
check_params_shape-within decoded = (
  shape_loop-ends (suc (nodes decoded)) 0 ((decoded, 1) ∷ []) (omega arith),
  shape_loop-within (suc (nodes decoded)) 0 ((decoded, 1) ∷ []) (omega arith) refl (omega arith)
      ∙ ground arith,
)
