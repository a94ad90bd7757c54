-- ===== src/Authz/Codes/Scrub/Exposure.antt =====
-- What a reader of a value could see of a code, and that a scrubbed value shows nothing of it.
use openclaw_hass_node.Prelude.{
  String, ◌≡◌, refl, Bool, true, false, not, ◌||◌, List, [], ◌∷◌, ◌++◌, ◌==◌, eq_iff, any, keep,
  arith, Bool-cases, inl, inr, contains, occurs, any-of-contains, ◌∙◌, ap, contains-append,
  contains-keep,
}
use openclaw_hass_node.Value.{
  Value, null, bool, int, float, str, list, dict, Items, nil, cons, Fields, end, field,
}
use openclaw_hass_node.Authz.Codes.{Number, whole, double, Code, text, number, number_eq}
use openclaw_hass_node.Authz.Codes.Mask.{any_occurs}
use openclaw_hass_node.Authz.Codes.Scrub.{
  Printing, code_forms, all_forms, numbers, insert_by_size, sort_by_size, ordered_forms, masker,
  scrub_codes,
}
use openclaw_hass_node.Authz.Codes.Scrub.Clean.{
  is_clean, clean_items, clean_fields, scrub_codes-clean,
}

-- `str(code)`
abbrev pub code_str : Printing → Code → String
code_str p (text s) = s
code_str p (number n) = p.number_str n

abbrev pub is_code_number : Code → Number → Bool
is_code_number (text s) n = false
is_code_number (number m) n = number_eq n m

-- Whether some text or key in a value holds the code as it is written, or some number equals it.
module _ (p : Printing) (c : Code) where
  unfoldable mutual
    pub exposes : Value → Bool
    exposes null = false
    exposes (bool b) = false
    exposes (int n) = is_code_number c (whole n)
    exposes (float bits) = is_code_number c (double bits)
    exposes (str s) = occurs (code_str p c) s
    exposes (list vs) = exposes_items vs
    exposes (dict d) = exposes_fields d

    pub exposes_items : Items → Bool
    exposes_items nil = false
    exposes_items (cons v vs) = exposes v || exposes_items vs

    pub exposes_fields : Fields → Bool
    exposes_fields end = false
    exposes_fields (field k v d) = occurs (code_str p c) k || exposes v || exposes_fields d

contains-insert_by_size :
    (a : String) (xs : List String) (b : String)
    → contains (insert_by_size a xs) b ≡ (a == b || contains xs b)
unfolding insert_by_size
contains-insert_by_size a [] b = refl
contains-insert_by_size a (x ∷ xs) b = ground (arith, contains-insert_by_size a xs b)

contains-sort_by_size :
    (xs : List String) (b : String) → contains (sort_by_size xs) b ≡ contains xs b
unfolding sort_by_size
contains-sort_by_size [] b = refl
contains-sort_by_size (x ∷ xs) b =
    contains-insert_by_size x (sort_by_size xs) b
    ∙ ap (λ (t : Bool). x == b || t) (contains-sort_by_size xs b)

module _ (p : Printing) (c : Code) (after : List Code) where
  code_forms-code_str : contains (code_forms p c) (code_str p c) ≡ true
  unfolding code_forms
  code_forms-code_str = go c
    where
      go : (d : Code) → contains (code_forms p d) (code_str p d) ≡ true
      go (text s) = ground (arith, (eq_iff s s).1 refl)
      go (number n) = ground (arith, (eq_iff (p.number_str n) (p.number_str n)).1 refl)

  all_forms-code_str :
      (before : List Code) → contains (all_forms p (before ++ (c ∷ after))) (code_str p c) ≡ true
  unfolding all_forms
  all_forms-code_str [] = ground (
    arith,
    contains-append (code_forms p c) (all_forms p after) (code_str p c),
    code_forms-code_str,
  )
  all_forms-code_str (b ∷ before) = ground (
    arith,
    contains-append (code_forms p b) (all_forms p (before ++ (c ∷ after))) (code_str p c),
    all_forms-code_str before,
  )

numbers-is_code_number :
    (c : Code) (after before : List Code) (n : Number)
    → is_code_number c n ≡ true
    → any (number_eq n) (numbers (before ++ (c ∷ after))) ≡ true
unfolding numbers
numbers-is_code_number (text s) after [] n h = cc
numbers-is_code_number (number m) after [] n h = ground arith
numbers-is_code_number c after (text s ∷ before) n h = numbers-is_code_number c after before n h
numbers-is_code_number c after (number m ∷ before) n h =
    ground (arith, numbers-is_code_number c after before n h)

module _ (p : Printing) (c : Code) (before after : List Code)
    (written : (code_str p c == "") ≡ false) where
  abbrev given : List Code
  given = before ++ (c ∷ after)

  form_listed : contains (ordered_forms p given) (code_str p c) ≡ true
  unfolding ordered_forms
  form_listed =
      contains-sort_by_size (keep (λ (n : String). not (n == "")) (all_forms p given))
        (code_str p c)
      ∙ contains-keep (λ (n : String). not (n == "")) (all_forms p given) (code_str p c)
      ∙ ground (arith, all_forms-code_str p c after before)

  text_safe :
      (s : String)
      → not (any_occurs (ordered_forms p given) s) ≡ true
      → occurs (code_str p c) s ≡ false
  text_safe s h = elim (Bool-cases (occurs (code_str p c) s)) [
    | inl e ↦ ground (
      arith,
      any-of-contains (λ form. occurs form s) (ordered_forms p given) (code_str p c) form_listed e,
    )
    | inr e ↦ e
  ]

  number_safe :
      (n : Number) → not (any (number_eq n) (numbers given)) ≡ true → is_code_number c n ≡ false
  number_safe n h = elim (Bool-cases (is_code_number c n)) [
    | inl e ↦ ground (arith, numbers-is_code_number c after before n e)
    | inr e ↦ e
  ]

  mutual
    unfolding is_clean exposes masker

    clean-not_exposes : (v : Value) → is_clean (masker p given) v ≡ true → exposes p c v ≡ false
    clean-not_exposes null h = refl
    clean-not_exposes (bool b) h = refl
    clean-not_exposes (int n) h = number_safe (whole n) h
    clean-not_exposes (float bits) h = number_safe (double bits) h
    clean-not_exposes (str s) h = text_safe s h
    clean-not_exposes (list vs) h = clean-not_exposes_items vs h
    clean-not_exposes (dict d) h = clean-not_exposes_fields d h

    clean-not_exposes_items :
        (vs : Items) → clean_items (masker p given) vs ≡ true → exposes_items p c vs ≡ false
    clean-not_exposes_items nil h = refl
    clean-not_exposes_items (cons v vs) h =
        ground (arith, clean-not_exposes v, clean-not_exposes_items vs)

    clean-not_exposes_fields :
        (d : Fields) → clean_fields (masker p given) d ≡ true → exposes_fields p c d ≡ false
    clean-not_exposes_fields end h = refl
    clean-not_exposes_fields (field k v d) h =
        ground (arith, text_safe k, clean-not_exposes v, clean-not_exposes_fields d)

  -- Whatever the value, scrubbing it of a list of codes leaves nothing of a listed code whose printed
  -- form is not empty: no text and no key holds that form, and no number equals the code.
  pub scrub_codes-hides : (value : Value) → exposes p c (scrub_codes p value given) ≡ false
  scrub_codes-hides value =
      clean-not_exposes (scrub_codes p value given) (scrub_codes-clean p given value)
