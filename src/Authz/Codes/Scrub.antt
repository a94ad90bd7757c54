-- ===== src/Authz/Codes/Scrub.antt =====
-- authz.py, `scrub_codes` and `redact_code`: masking every supplied code in a value.
pub mod Clean
pub mod Exposure
use openclaw_hass_node.Prelude.{
  ℕ, zero, suc, ◌-◌, String, ◌<>◌, Char, ◌≡◌, refl, Bool, true, false, not, ◌&&◌, ◌||◌, Option,
  none, some, List, [], ◌∷◌, ◌++◌, ◌==◌, if◌then◌else◌, size, any, all, keep, leb, ltb, map,
}
use openclaw_hass_node.Value.{
  Value, null, bool, int, float, str, list, dict, Items, nil, cons, Fields, end, field, put,
}
use openclaw_hass_node.Authz.Codes.{
  Number, whole, double, Code, text, number, number_eq, collect_codes, collect_fields,
}
use openclaw_hass_node.Authz.Codes.Mask.{any_occurs, mask_text}

-- How Python prints: `str`, `json.dumps` and `repr` of a number, and the last two of a text.
pub record Printing : Type 0 where
  pub number_str : Number → String
  pub number_json : Number → String
  pub number_repr : Number → String
  pub text_json : String → String
  pub text_repr : String → String

-- `s[:-1]`
unfoldable pub but_last : String → String
but_last String.[] = ""
but_last (String.◌∷◌ c String.[]) = ""
but_last (String.◌∷◌ c (String.◌∷◌ d s)) = String.◌∷◌ c (but_last (String.◌∷◌ d s))

-- `s[1:-1]`
unfoldable pub inner_text : String → String
unfolding but_last
inner_text String.[] = ""
inner_text (String.◌∷◌ c s) = but_last s

-- The forms of one code.
unfoldable pub code_forms : Printing → Code → List String
unfolding inner_text
code_forms p (text s) = s ∷ p.text_json s ∷ p.text_repr s ∷ inner_text (p.text_json s) ∷ []
code_forms p (number n) = p.number_str n ∷ p.number_json n ∷ p.number_repr n ∷ []

unfoldable pub all_forms : Printing → List Code → List String
unfolding code_forms
all_forms p [] = []
all_forms p (c ∷ codes) = code_forms p c ++ all_forms p codes

unfoldable pub numbers : List Code → List Number
numbers [] = []
numbers (text s ∷ codes) = numbers codes
numbers (number n ∷ codes) = n ∷ numbers codes

-- `sorted(..., key=len, reverse=True)`
unfoldable pub insert_by_size : String → List String → List String
insert_by_size a [] = a ∷ []
insert_by_size a (x ∷ xs) =
    let rest = insert_by_size a xs in if ltb (size x) (size a) then a ∷ x ∷ xs else x ∷ rest

unfoldable pub sort_by_size : List String → List String
unfolding insert_by_size
sort_by_size [] = []
sort_by_size (x ∷ xs) = insert_by_size x (sort_by_size xs)

unfoldable pub ordered_forms : Printing → List Code → List String
unfolding all_forms sort_by_size
ordered_forms p codes = sort_by_size (keep (λ (n : String). not (n == "")) (all_forms p codes))

-- `_MASK_CANDIDATES`
abbrev pub mask_candidates : List String
mask_candidates = "[redacted]" ∷ "***" ∷ "<masked>" ∷ []

-- The first candidate that holds no form, and else the empty text.
unfoldable pub choose_mask : List String → List String → String
choose_mask forms [] = ""
choose_mask forms (m ∷ candidates) =
    let rest = choose_mask forms candidates in if any_occurs forms m then rest else m

-- What `walk` closes over.
pub record Masker : Type 0 where
  pub forms : List String
  pub codes : List Number
  pub mask : String

unfoldable pub masker : Printing → List Code → Masker
unfolding ordered_forms numbers choose_mask
masker p codes =
    let forms = ordered_forms p codes in
    record { forms = forms; codes = numbers codes; mask = choose_mask forms mask_candidates }

abbrev pub equals_code : Masker → Number → Bool
equals_code m n = any (number_eq n) m.codes

-- `walk`; a dict is built anew, key by key.
unfoldable mutual
  pub walk : Masker → Value → Value
  walk m null = null
  walk m (bool b) = bool b
  walk m (int n) = if equals_code m (whole n) then str m.mask else int n
  walk m (float bits) = if equals_code m (double bits) then str m.mask else float bits
  walk m (str s) = str (mask_text s m.forms m.mask)
  walk m (list vs) = list (walk_items m vs)
  walk m (dict d) = dict (walk_fields m end d)

  pub walk_items : Masker → Items → Items
  walk_items m nil = nil
  walk_items m (cons v vs) = cons (walk m v) (walk_items m vs)

  pub walk_fields : Masker → Fields → Fields → Fields
  walk_fields m done end = done
  walk_fields m done (field k v d) =
      walk_fields m (put (mask_text k m.forms m.mask) (walk m v) done) d

-- `scrub_codes`
unfoldable pub scrub_codes : Printing → Value → List Code → Value
unfolding masker walk
scrub_codes p value codes = walk (masker p codes) value

-- `_mask_code_keys`
unfoldable mutual
  pub mask_code_keys : Value → Value
  mask_code_keys (list vs) = list (mask_code_items vs)
  mask_code_keys (dict d) = dict (mask_code_fields d)
  mask_code_keys v = v

  pub mask_code_items : Items → Items
  mask_code_items nil = nil
  mask_code_items (cons v vs) = cons (mask_code_keys v) (mask_code_items vs)

  pub mask_code_fields : Fields → Fields
  mask_code_fields end = end
  mask_code_fields (field k v d) =
      field k (if k == "code" then str "[redacted]" else mask_code_keys v) (mask_code_fields d)

-- `redact_code`; `none` where `collect_codes` raises
unfoldable pub redact_code : Printing → Fields → Option Value
unfolding scrub_codes mask_code_keys collect_codes
redact_code p params = elim (collect_codes (dict params)) [
  | none ↦ none
  | some codes ↦ some (scrub_codes p (mask_code_keys (dict params)) codes)
]
