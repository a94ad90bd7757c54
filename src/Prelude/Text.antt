-- ===== src/Prelude/Text.antt =====
-- Texts: Python's `str` methods that the program calls, by recursion on the characters, and sets of
-- texts as lists.
use Prim.Native.Nat.{ℕ, suc, Ordering}
use Prim.Native.Char.{Char, code}
use Prim.Native.String.{String, compare, ◌++◌ as ◌<>◌}
use Prim.Native.String.append
use mathlib.Core.Path.{◌≡◌, refl, ap, ap₂, ◌∙◌}
use mathlib.Core.Logic.{inl, inr}
use mathlib.Core.Bool.{Bool, true, false, ◌&&◌, ◌||◌}
use mathlib.Core.List.{List, [], ◌∷◌, ◌++◌}
use mathlib.Core.Option.{Option, none, some}
use native.Mathlib.Omega.{arith}
use text.Mathlib.Text.{◌==◌}
use text.Mathlib.TextEquality.{eq_iff, codes_equal}
use openclaw_hass_node.Prelude.Tests.{if◌then◌else◌, leb, eqb, Bool-cases}
use openclaw_hass_node.Prelude.Lists.{any, keep}

-- `len(s)`
abbrev pub size : String → ℕ
size String.[] = 0
size (String.◌∷◌ c s) = suc (size s)

-- Every character of `s` satisfies `p`.
abbrev pub all_chars : (Char → Bool) → String → Bool
all_chars p String.[] = true
all_chars p (String.◌∷◌ c s) = p c && all_chars p s

-- `s.startswith(prefix)`, and what `s[len(prefix):]` leaves.
unfoldable pub strip_prefix : String → String → Option String
strip_prefix s String.[] = some s
strip_prefix String.[] (String.◌∷◌ d t) = none
strip_prefix (String.◌∷◌ c s) (String.◌∷◌ d t) =
    let rest = strip_prefix s t in if eqb (code c) (code d) then rest else none

abbrev pub is_some {ℓ} : {A : Type ℓ} → Option A → Bool
is_some none = false
is_some (some a) = true

-- `part in s`, for texts.
unfoldable pub occurs : String → String → Bool
unfolding strip_prefix
occurs part String.[] = is_some (strip_prefix String.[] part)
occurs part (String.◌∷◌ c s) = is_some (strip_prefix (String.◌∷◌ c s) part) || occurs part s

-- `str.strip()` removes what `str.isspace()` accepts, character by character.
abbrev pub is_space : Char → Bool
is_space ch =
    let c = code ch in
    (leb 9 c && leb c 13)
    || (leb 28 c && leb c 32)
    || eqb c 0x85
    || eqb c 0xa0
    || eqb c 0x1680
    || (leb 0x2000 c && leb c 0x200a)
    || eqb c 0x2028
    || eqb c 0x2029
    || eqb c 0x202f
    || eqb c 0x205f
    || eqb c 0x3000

unfoldable pub lstrip : String → String
lstrip String.[] = ""
lstrip (String.◌∷◌ c s) = let rest = lstrip s in if is_space c then rest else String.◌∷◌ c s

unfoldable pub rstrip : String → String
rstrip String.[] = ""
rstrip (String.◌∷◌ c s) =
    let rest = rstrip s in if rest == "" && is_space c then "" else String.◌∷◌ c rest

unfoldable pub strip : String → String
unfolding lstrip rstrip
strip s = rstrip (lstrip s)

-- `a in xs` for a set or a tuple of texts.
abbrev pub contains : List String → String → Bool
contains [] a = false
contains (x ∷ xs) a = x == a || contains xs a

pub contains-append :
    (xs ys : List String) (a : String) → contains (xs ++ ys) a ≡ (contains xs a || contains ys a)
contains-append [] ys a = refl
contains-append (x ∷ xs) ys a = ground (arith, contains-append xs ys a)

-- A set difference, or an intersection, keeps what its test accepts.
pub contains-keep :
    (p : String → Bool) (xs : List String) (a : String)
    → contains (keep p xs) a ≡ (contains xs a && p a)
contains-keep p [] a = refl
contains-keep p (x ∷ xs) a = ground (arith, contains-keep p xs a, eq_iff x a)

-- `sorted(set(xs))`: by code points, each text once.
unfoldable pub insert_sorted : String → List String → List String
insert_sorted a [] = a ∷ []
insert_sorted a (x ∷ xs) =
    let rest = insert_sorted a xs in
    elim (compare a x) [ Ordering.lt ↦ a ∷ x ∷ xs | Ordering.eq ↦ x ∷ xs | Ordering.gt ↦ x ∷ rest ]

unfoldable pub sorted_set : List String → List String
unfolding insert_sorted
sorted_set [] = []
sorted_set (x ∷ xs) = insert_sorted x (sorted_set xs)

contains-insert_sorted :
    (a : String) (xs : List String) (b : String)
    → contains (insert_sorted a xs) b ≡ (a == b || contains xs b)
unfolding insert_sorted
contains-insert_sorted a [] b = refl
contains-insert_sorted a (x ∷ xs) b =
    ground (arith, contains-insert_sorted a xs b, eq_iff a x, eq_iff x b, eq_iff a b)

-- Sorting changes no membership.
pub contains-sorted_set :
    (xs : List String) (a : String) → contains (sorted_set xs) a ≡ contains xs a
unfolding sorted_set
contains-sorted_set [] a = refl
contains-sorted_set (x ∷ xs) a =
    contains-insert_sorted x (sorted_set xs) a
    ∙ ap (λ (t : Bool). x == a || t) (contains-sorted_set xs a)

pub any-insert_sorted :
    (p : String → Bool) (a : String) (xs : List String)
    → any p (insert_sorted a xs) ≡ (p a || any p xs)
unfolding insert_sorted
any-insert_sorted p a [] = refl
any-insert_sorted p a (x ∷ xs) = ground (arith, any-insert_sorted p a xs, eq_iff a x)

-- Nor any test over the elements.
pub any-sorted_set : (p : String → Bool) (xs : List String) → any p (sorted_set xs) ≡ any p xs
unfolding sorted_set
any-sorted_set p [] = refl
any-sorted_set p (x ∷ xs) =
    any-insert_sorted p x (sorted_set xs) ∙ ap (λ (t : Bool). p x || t) (any-sorted_set p xs)

-- An element that satisfies a test makes `any` true.
pub any-of-contains :
    (p : String → Bool) (xs : List String) (a : String)
    → contains xs a ≡ true
    → p a ≡ true
    → any p xs ≡ true
any-of-contains p [] a h k = cc
any-of-contains p (x ∷ xs) a h k = ground (arith, any-of-contains p xs a, eq_iff x a)

-- A test over more elements is true wherever it was.
pub any_mono :
    (p : String → Bool) (xs ys : List String)
    → ((a : String) → contains xs a ≡ true → p a ≡ true → any p ys ≡ true)
    → any p xs ≡ true
    → any p ys ≡ true
any_mono p [] ys f h = cc
any_mono p (x ∷ xs) ys f h = elim (Bool-cases (p x)) [
  | inl e ↦ f x (ground (arith, eq_iff x x)) e
  | inr e ↦ any_mono p xs ys (λ a m. f a (ground arith)) (ground arith)
]

-- `strip_prefix` finds the prefix exactly when the text is the prefix and what it leaves.
pub strip_prefix-append : (t s : String) → strip_prefix (t <> s) t ≡ some s
unfolding strip_prefix
strip_prefix-append String.[] s = rw append.nil
strip_prefix-append (String.◌∷◌ c t) s = rw append.cons (ground (arith, strip_prefix-append t s))

pub append_assoc : (s t u : String) → (s <> t) <> u ≡ s <> (t <> u)
append_assoc String.[] t u = rw (append.nil t, append.nil (t <> u))
append_assoc (String.◌∷◌ c s) t u =
    rw (append.cons c s t, append.cons c s (t <> u), append.cons c (s <> t) u)
      (ap (λ (r : String). String.◌∷◌ c r) (append_assoc s t u))

pub append-nil : (s : String) → s <> "" ≡ s
append-nil String.[] = append.nil ""
append-nil (String.◌∷◌ c s) =
    append.cons c s "" ∙ ap (λ (r : String). String.◌∷◌ c r) (append-nil s)

-- What `strip_prefix` found was there.
pub strip_prefix-eq_some : (s t : String) {r : String} → strip_prefix s t ≡ some r → s ≡ t <> r
unfolding strip_prefix
strip_prefix-eq_some s String.[] {r} h = rw (append.nil r) (ground arith)
strip_prefix-eq_some String.[] (String.◌∷◌ d t) h = cc
strip_prefix-eq_some (String.◌∷◌ c s) (String.◌∷◌ d t) {r} h = rw (append.cons d t r) (
    ap₂ (λ (a : Char) (u : String). String.◌∷◌ a u) (codes_equal c d (ground arith))
      (strip_prefix-eq_some s t (ground arith)))
