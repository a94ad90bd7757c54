-- ===== src/Authz/Glob.antt =====
-- `fnmatch.fnmatchcase` of the standard library: shell patterns over service names.
use openclaw_hass_node.Prelude.{
  ℕ, zero, suc, String, Char, code, ◌≡◌, refl, sym, ap, ◌∙◌, Bool, true, false, not, ◌&&◌, ◌||◌,
  Option, none, some, List, [], ◌∷◌, if◌then◌else◌, size, eqb, leb, any, arith, strip_prefix,
  strip_prefix-eq_some, append-nil, is_some, Option-cases, inl, inr,
}

pub data Token : Type 0 where
  star any_char : Token
  literal : Char → Token
  class : Bool → List (ℕ × ℕ) → Token

-- What stands before the first `]`, and what follows it.
until_bracket : String → Option (String × String)
until_bracket String.[] = none
until_bracket (String.◌∷◌ c s) =
    let rest = until_bracket s in
    if eqb (code c) b']'
    then some ("", s)
    else elim rest [ none ↦ none | some (body, after) ↦ some (String.◌∷◌ c body, after) ]

-- A `]` that stands first belongs to the class.
class_body : String → Option (String × String)
unfolding until_bracket
class_body String.[] = none
class_body (String.◌∷◌ c s) =
    if eqb (code c) b']'
    then elim (until_bracket s) [
      | none ↦ none
      | some (body, after) ↦ some (String.◌∷◌ c body, after)
    ]
    else until_bracket (String.◌∷◌ c s)

-- The characters and ranges of a class: `a-z` is a range, and a `-` at either end is itself. A range
-- that is the wrong way round holds nothing.
ranges : String → List (ℕ × ℕ)
ranges (String.◌∷◌ c (String.◌∷◌ h (String.◌∷◌ d s))) =
    let one = (code c, code c) ∷ ranges (String.◌∷◌ h (String.◌∷◌ d s)) in
    let range = (code c, code d) ∷ ranges s in if eqb (code h) b'-' then range else one
ranges (String.◌∷◌ c s) = (code c, code c) ∷ ranges s
ranges String.[] = []

-- After a `[`: the class and the rest of the pattern; `none` where no `]` closes it.
class_token : String → Option (Token × String)
unfolding class_body ranges
class_token String.[] = none
class_token (String.◌∷◌ c s) =
    let negated = eqb (code c) b'!' in
    elim (class_body (if negated then s else String.◌∷◌ c s)) [
      | none ↦ none
      | some (body, after) ↦ some (class negated (ranges body), after)
    ]

-- The token that a pattern begins with, and what follows it. A `[` that nothing closes is itself.
next_token : Char → String → Token × String
unfolding class_token
next_token c s =
    if eqb (code c) b'*'
    then (star, s)
    else if eqb (code c) b'?'
    then (any_char, s)
    else if eqb (code c) b'['
    then (elim (class_token s) [ none ↦ (literal c, s) | some (t, after) ↦ (t, after) ])
    else (literal c, s)

-- The pattern's tokens. Every round takes a character, so the pattern's size is enough fuel.
unfoldable pub compile : ℕ → String → List Token
unfolding next_token
compile zero s = []
compile (suc n) String.[] = []
compile (suc n) (String.◌∷◌ c s) = let (t, after) = next_token c s in t ∷ compile n after

abbrev in_range : ℕ → ℕ × ℕ → Bool
in_range c (lo, hi) = leb lo c && leb c hi

accepts : Token → Char → Bool
accepts star c = true
accepts any_char c = true
accepts (literal d) c = eqb (code c) (code d)
accepts (class negated rs) c = if any (in_range (code c)) rs then not negated else negated

-- Some suffix of `s` satisfies `f`.
any_suffix : (String → Bool) → String → Bool
any_suffix f String.[] = f ""
any_suffix f (String.◌∷◌ c s) = f (String.◌∷◌ c s) || any_suffix f s

matches : List Token → String → Bool
unfolding accepts any_suffix
matches [] String.[] = true
matches [] (String.◌∷◌ c s) = false
matches (star ∷ ts) s = any_suffix (matches ts) s
matches (t ∷ ts) String.[] = false
matches (t ∷ ts) (String.◌∷◌ c s) = accepts t c && matches ts s

-- `fnmatch.fnmatchcase(name, pattern)`
unfoldable pub fnmatchcase : String → String → Bool
unfolding compile matches
fnmatchcase name pattern = matches (compile (size pattern) pattern) name

abbrev pub literals : String → List Token → List Token
literals String.[] ts = ts
literals (String.◌∷◌ c s) ts = literal c ∷ literals s ts

any_suffix-star : (s : String) → matches (star ∷ []) s ≡ true
unfolding matches
any_suffix-star String.[] = refl
any_suffix-star (String.◌∷◌ c s) = any_suffix-star s

abbrev matches_rest : List Token → Option String → Bool
matches_rest ts none = false
matches_rest ts (some r) = matches ts r

-- Characters that are not special match themselves, and the rest of the pattern what follows.
matches-literals :
    (t : String) (ts : List Token) (s : String)
    → matches (literals t ts) s ≡ matches_rest ts (strip_prefix s t)
unfolding matches strip_prefix
matches-literals String.[] ts s = refl
matches-literals (String.◌∷◌ d t) ts String.[] = refl
matches-literals (String.◌∷◌ d t) ts (String.◌∷◌ c s) = ground (arith, matches-literals t ts s)

-- A prefix, followed by anything.
fnmatchcase-prefix_tokens :
    (t s : String) → matches (literals t (star ∷ [])) s ≡ is_some (strip_prefix s t)
fnmatchcase-prefix_tokens t s =
    matches-literals t (star ∷ []) s ∙ elim (Option-cases (strip_prefix s t)) [
      | inl e ↦ rw e
      | inr (r, e) ↦ rw e (any_suffix-star r)
    ]

eq_of_matches_rest :
    (s t : String) (o : Option String) → strip_prefix s t ≡ o → matches_rest [] o ≡ true → s ≡ t
unfolding matches
eq_of_matches_rest s t none e m = cc
eq_of_matches_rest s t (some String.[]) e m = strip_prefix-eq_some s t e ∙ append-nil t
eq_of_matches_rest s t (some (String.◌∷◌ c r)) e m = cc

module _ (pattern t : String) where
  -- A pattern that is a prefix and a star accepts the names that begin so.
  pub fnmatchcase-prefix :
      compile (size pattern) pattern ≡ literals t (star ∷ [])
      → (s : String) → fnmatchcase s pattern ≡ is_some (strip_prefix s t)
  unfolding fnmatchcase
  fnmatchcase-prefix h s = rw h (fnmatchcase-prefix_tokens t s)

  -- A pattern with no special character accepts only itself.
  pub eq_of_fnmatchcase :
      compile (size pattern) pattern ≡ literals t []
      → (s : String) → fnmatchcase s pattern ≡ true
      → s ≡ t
  unfolding fnmatchcase
  eq_of_fnmatchcase h s m =
      eq_of_matches_rest s t (strip_prefix s t) refl
        (sym (matches-literals t [] s) ∙ ap (λ (ts : List Token). matches ts s) (sym h) ∙ m)

class_test : fnmatchcase "light.turn_on" "[!a-k]?[f-h]*_o[]n]" ≡ true
unfolding fnmatchcase
class_test = refl

reversed_range_test : fnmatchcase "b" "[c-a]" ≡ false
unfolding fnmatchcase
reversed_range_test = refl
