-- ===== src/Authz/Codes/Mask.antt =====
-- authz.py, `_mask_text`: masking forms in a text until none is left.
use openclaw_hass_node.Prelude.{
  ℕ, zero, suc, ◌-◌, String, ◌<>◌, Char, ◌≡◌, refl, Bool, true, false, not, Option, none, some,
  List, [], ◌∷◌, ◌==◌, if◌then◌else◌, strip_prefix, is_some, occurs, size, any, all, arith,
  Bool-cases, inl, inr,
}

-- The first form, in order, that stands at the beginning of the text.
unfoldable pub form_at : List String → String → Option String
form_at [] s = none
form_at (form ∷ forms) s =
    let rest = form_at forms s in if is_some (strip_prefix s form) then some form else rest

-- `pattern.sub(mask, text)` for the alternation of the forms; the number counts what is left of a
-- match to pass over.
unfoldable pub substitute : List String → String → ℕ → String → String
unfolding form_at
substitute forms mask skip String.[] = ""
substitute forms mask (suc skip) (String.◌∷◌ c s) = substitute forms mask skip s
substitute forms mask zero (String.◌∷◌ c s) = elim (form_at forms (String.◌∷◌ c s)) [
  | none ↦ String.◌∷◌ c (substitute forms mask zero s)
  | some form ↦ mask <> substitute forms mask (size form - 1) s
]

-- `any(form in text for form in forms)`
abbrev pub any_occurs : List String → String → Bool
any_occurs forms s = any (λ form. occurs form s) forms

-- The passes; the text is dropped when none of them succeeds.
unfoldable pub mask_passes : ℕ → List String → String → String → String
unfolding substitute
mask_passes zero forms mask s = ""
mask_passes (suc n) forms mask s =
    let masked = substitute forms mask zero s in
    let rest = mask_passes n forms mask masked in if any_occurs forms masked then rest else masked

-- `_mask_text`, with `_MASK_PASSES` passes
unfoldable pub mask_text : String → List String → String → String
unfolding mask_passes
mask_text s [] mask = s
mask_text s (form ∷ forms) mask = mask_passes 8 (form ∷ forms) mask s

abbrev pub all_nonempty : List String → Bool
all_nonempty = all (λ (form : String). not (form == ""))

pub occurs_empty : (form : String) → (form == "") ≡ false → occurs form "" ≡ false
unfolding occurs strip_prefix
occurs_empty String.[] h = h
occurs_empty (String.◌∷◌ c form) h = refl

-- Nothing but the empty text occurs in the empty text.
pub any_occurs_empty :
    (forms : List String) → all_nonempty forms ≡ true → any_occurs forms "" ≡ false
any_occurs_empty [] h = refl
any_occurs_empty (form ∷ forms) h = ground (arith, occurs_empty form, any_occurs_empty forms)

mask_passes-clean :
    (n : ℕ) (forms : List String) (mask s : String)
    → all_nonempty forms ≡ true
    → any_occurs forms (mask_passes n forms mask s) ≡ false
unfolding mask_passes
mask_passes-clean zero forms mask s h = any_occurs_empty forms h
mask_passes-clean (suc n) forms mask s h =
    elim (Bool-cases (any_occurs forms (substitute forms mask zero s))) [
      | inl e ↦ rw e (mask_passes-clean n forms mask (substitute forms mask zero s) h)
      | inr e ↦ rw e e
    ]

-- A masked text holds none of the forms.
pub mask_text-clean :
    (s : String) (forms : List String) (mask : String)
    → all_nonempty forms ≡ true
    → any_occurs forms (mask_text s forms mask) ≡ false
unfolding mask_text
mask_text-clean s [] mask h = refl
mask_text-clean s (form ∷ forms) mask h = mask_passes-clean 8 (form ∷ forms) mask s h

form_at-eq_none :
    (forms : List String) (s : String) → any_occurs forms s ≡ false → form_at forms s ≡ none
unfolding form_at occurs
form_at-eq_none [] s h = refl
form_at-eq_none (form ∷ forms) String.[] h = ground (arith, form_at-eq_none forms "")
form_at-eq_none (form ∷ forms) (String.◌∷◌ c s) h =
    ground (arith, form_at-eq_none forms (String.◌∷◌ c s))

-- Each suffix of a text in which no form occurs is free of them too.
any_occurs-tail :
    (forms : List String) (c : Char) (s : String)
    → any_occurs forms (String.◌∷◌ c s) ≡ false
    → any_occurs forms s ≡ false
unfolding occurs
any_occurs-tail [] c s h = refl
any_occurs-tail (form ∷ forms) c s h = ground (arith, any_occurs-tail forms c s)

substitute-eq_self :
    (forms : List String) (mask s : String)
    → any_occurs forms s ≡ false
    → substitute forms mask zero s ≡ s
unfolding substitute
substitute-eq_self forms mask String.[] h = refl
substitute-eq_self forms mask (String.◌∷◌ c s) h = ground (
  arith,
  form_at-eq_none forms (String.◌∷◌ c s) h,
  substitute-eq_self forms mask s (any_occurs-tail forms c s h),
)

-- A text that holds none of the forms is left as it is.
pub mask_text-eq_self :
    (s : String) (forms : List String) (mask : String)
    → any_occurs forms s ≡ false
    → mask_text s forms mask ≡ s
unfolding mask_text mask_passes
mask_text-eq_self s [] mask h = refl
mask_text-eq_self s (form ∷ forms) mask h =
    ground (arith, substitute-eq_self (form ∷ forms) mask s h)
