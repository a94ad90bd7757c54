-- ===== src/Commands/Params.antt =====
-- commands/params.py: the check of the keys of a handler's parameters.
use openclaw_hass_node.Prelude.{
  String, ◌<>◌, ◌≡◌, refl, ap₂, ◌∙◌, Bool, true, false, not, ◌&&◌, ◌||◌, Option, none, some,
  is_some, List, [], ◌∷◌, if◌then◌else◌, contains, sorted_set, any, keep, any-sorted_set, arith,
}
use openclaw_hass_node.Value.{null, Fields, keys, get}
use openclaw_hass_node.Policy.{refusal}

-- `", ".join(texts)`
abbrev pub join : List String → String
join [] = ""
join (s ∷ []) = s
join (s ∷ rest) = s <> ", " <> join rest

-- `name in params and params[name] is None`
abbrev pub is_null_at : Fields → String → Bool
is_null_at params name = elim (get name params) [
  | none ↦ false
  | some v ↦ elim v [ null ↦ true | w ↦ false ]
]

-- The loop over `sorted(allowed - nullable)`.
abbrev pub first_null : Fields → List String → Option Fields
first_null params [] = none
first_null params (name ∷ names) =
    let rest = first_null params names in
    if is_null_at params name
    then some (refusal "INVALID_PARAM" (name <> " must not be null; omit it instead"))
    else rest

abbrev pub keys_error : Fields → List String → List String → List String → Option Fields
keys_error params allowed nullable [] =
    first_null params (sorted_set (keep (λ k. not (contains nullable k)) allowed))
keys_error params allowed nullable (k ∷ ks) = some (
    refusal "INVALID_PARAM"
      ("unknown parameter(s): " <> join (k ∷ ks) <> "; allowed: " <> join (sorted_set allowed)))

-- `strict_keys_error`
unfoldable pub strict_keys_error : Fields → List String → List String → Option Fields
strict_keys_error params allowed nullable =
    keys_error params allowed nullable
      (sorted_set (keep (λ k. not (contains allowed k)) (keys params)))

any-keep : (p q : String → Bool) (xs : List String) → any p (keep q xs) ≡ any (λ x. q x && p x) xs
any-keep p q [] = refl
any-keep p q (x ∷ xs) = ground (arith, any-keep p q xs)

-- What is kept by a test, and whether there is any.
any-keep_self : (q : String → Bool) (xs : List String) → any (λ x. true) (keep q xs) ≡ any q xs
any-keep_self q [] = refl
any-keep_self q (x ∷ xs) = ground (arith, any-keep_self q xs)

first_null-any :
    (params : Fields) (names : List String)
    → is_some (first_null params names) ≡ any (is_null_at params) names
first_null-any params [] = refl
first_null-any params (name ∷ names) = ground (arith, first_null-any params names)

keys_error-any :
    (params : Fields) (allowed nullable ks : List String)
    → is_some (keys_error params allowed nullable ks) ≡ (
        any (λ k. true) ks
        || any (is_null_at params) (sorted_set (keep (λ k. not (contains nullable k)) allowed)))
keys_error-any params allowed nullable [] = first_null-any params _
keys_error-any params allowed nullable (k ∷ ks) = refl

-- The parameters are refused exactly if one of their keys is not allowed, or an allowed key for which
-- null has no meaning is given as null.
pub strict_keys_error-exact :
    (params : Fields) (allowed nullable : List String)
    → is_some (strict_keys_error params allowed nullable) ≡ (
        any (λ k. not (contains allowed k)) (keys params)
        || any (λ k. not (contains nullable k) && is_null_at params k) allowed)
unfolding strict_keys_error
strict_keys_error-exact params allowed nullable =
    keys_error-any params allowed nullable _
    ∙ ap₂ (λ (a b : Bool). a || b)
        (any-sorted_set (λ k. true) _ ∙ any-keep_self (λ k. not (contains allowed k)) (keys params))
        (any-sorted_set (is_null_at params) _
          ∙ any-keep (is_null_at params) (λ k. not (contains nullable k)) allowed)
