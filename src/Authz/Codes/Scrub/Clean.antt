-- ===== src/Authz/Codes/Scrub/Clean.antt =====
-- Nothing that leaves through `scrub_codes` holds a supplied code.
use openclaw_hass_node.Prelude.{
  String, ◌≡◌, refl, Bool, true, false, not, ◌&&◌, List, [], ◌∷◌, ◌==◌, keep, arith, all-keep, ◌∙◌,
  ap,
}
use openclaw_hass_node.Value.{
  Value, null, bool, int, float, str, list, dict, Items, nil, cons, Fields, end, field, put,
}
use openclaw_hass_node.Authz.Codes.{whole, double, Code}
use openclaw_hass_node.Authz.Codes.Mask.{
  any_occurs, mask_text, all_nonempty, mask_text-clean, any_occurs_empty,
}
use openclaw_hass_node.Authz.Codes.Scrub.{
  Printing, all_forms, insert_by_size, sort_by_size, ordered_forms, choose_mask, mask_candidates,
  Masker, masker, equals_code, walk, walk_items, walk_fields, scrub_codes,
}

-- No text or key in a value holds a form, and no number in it equals a code.
module _ (m : Masker) where
  unfoldable mutual
    pub is_clean : Value → Bool
    is_clean null = true
    is_clean (bool b) = true
    is_clean (int n) = not (equals_code m (whole n))
    is_clean (float bits) = not (equals_code m (double bits))
    is_clean (str s) = not (any_occurs m.forms s)
    is_clean (list vs) = clean_items vs
    is_clean (dict d) = clean_fields d

    pub clean_items : Items → Bool
    clean_items nil = true
    clean_items (cons v vs) = is_clean v && clean_items vs

    pub clean_fields : Fields → Bool
    clean_fields end = true
    clean_fields (field k v d) = not (any_occurs m.forms k) && is_clean v && clean_fields d

  clean_fields-put :
      (k : String) (v : Value) (d : Fields)
      → any_occurs m.forms k ≡ false
      → is_clean v ≡ true
      → clean_fields d ≡ true
      → clean_fields (put k v d) ≡ true
  unfolding is_clean put
  clean_fields-put k v end hk hv h = ground arith
  clean_fields-put k v (field j w d) hk hv h = ground (arith, clean_fields-put k v d)

  module _ (nonempty : all_nonempty m.forms ≡ true)
      (masked : any_occurs m.forms m.mask ≡ false) where
    mutual
      unfolding is_clean walk

      walk-clean : (v : Value) → is_clean (walk m v) ≡ true
      walk-clean null = refl
      walk-clean (bool b) = refl
      walk-clean (int n) = ground arith
      walk-clean (float bits) = ground arith
      walk-clean (str s) = ground (arith, mask_text-clean s m.forms m.mask nonempty)
      walk-clean (list vs) = walk_items-clean vs
      walk-clean (dict d) = walk_fields-clean end d refl

      walk_items-clean : (vs : Items) → clean_items (walk_items m vs) ≡ true
      walk_items-clean nil = refl
      walk_items-clean (cons v vs) = ground (arith, walk-clean v, walk_items-clean vs)

      walk_fields-clean :
          (done d : Fields) → clean_fields done ≡ true → clean_fields (walk_fields m done d) ≡ true
      walk_fields-clean done end h = h
      walk_fields-clean done (field k v d) h =
          walk_fields-clean (put (mask_text k m.forms m.mask) (walk m v) done) d (
            clean_fields-put (mask_text k m.forms m.mask) (walk m v) done
              (mask_text-clean k m.forms m.mask nonempty) (walk-clean v) h)

all_nonempty-insert_by_size :
    (a : String) (xs : List String)
    → all_nonempty (insert_by_size a xs) ≡ (not (a == "") && all_nonempty xs)
unfolding insert_by_size
all_nonempty-insert_by_size a [] = refl
all_nonempty-insert_by_size a (x ∷ xs) = ground (arith, all_nonempty-insert_by_size a xs)

all_nonempty-sort_by_size : (xs : List String) → all_nonempty (sort_by_size xs) ≡ all_nonempty xs
unfolding sort_by_size
all_nonempty-sort_by_size [] = refl
all_nonempty-sort_by_size (x ∷ xs) =
    all_nonempty-insert_by_size x (sort_by_size xs)
    ∙ ap (λ (t : Bool). not (x == "") && t) (all_nonempty-sort_by_size xs)

choose_mask-clean :
    (forms candidates : List String)
    → all_nonempty forms ≡ true
    → any_occurs forms (choose_mask forms candidates) ≡ false
unfolding choose_mask
choose_mask-clean forms [] h = any_occurs_empty forms h
choose_mask-clean forms (m ∷ candidates) h = ground (arith, choose_mask-clean forms candidates h)

module _ (p : Printing) (codes : List Code) where
  pub ordered_forms-nonempty : all_nonempty (ordered_forms p codes) ≡ true
  unfolding ordered_forms
  ordered_forms-nonempty =
      all_nonempty-sort_by_size (keep (λ (n : String). not (n == "")) (all_forms p codes))
      ∙ all-keep (λ (n : String). not (n == "")) (all_forms p codes)

  -- What `scrub_codes` returns is clean of the codes that it was given.
  pub scrub_codes-clean :
      (value : Value) → is_clean (masker p codes) (scrub_codes p value codes) ≡ true
  unfolding scrub_codes
  scrub_codes-clean value =
      walk-clean (masker p codes) ordered_forms-nonempty
        (choose_mask-clean (ordered_forms p codes) mask_candidates ordered_forms-nonempty) value
