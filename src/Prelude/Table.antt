-- ===== src/Prelude/Table.antt =====
-- Constant tables: dicts from texts, and dicts from texts to sets of texts.
use Prim.Native.String.{String}
use mathlib.Core.Path.{◌≡◌}
use mathlib.Core.Bool.{Bool, true, ◌&&◌}
use mathlib.Core.List.{List, [], ◌∷◌}
use mathlib.Core.Option.{Option, none, some}
use native.Mathlib.Omega.{arith}
use text.Mathlib.Text.{◌==◌}
use text.Mathlib.TextEquality.{eq_iff}
use openclaw_hass_node.Prelude.Tests.{if◌then◌else◌}
use openclaw_hass_node.Prelude.Lists.{all}
use openclaw_hass_node.Prelude.Text.{contains}

-- `d.get(key, default)`
abbrev pub get_or {ℓ} : {V : Type ℓ} → String → List (String × V) → V → V
get_or k [] d = d
get_or k ((j, v) ∷ rest) d = if j == k then v else get_or k rest d

-- `a in table.get(k, frozenset())`
abbrev pub listed : List (String × List String) → String → String → Bool
listed table k a = contains (get_or k table []) a

pub all-of-contains :
    (p : String → Bool) (xs : List String) (a : String)
    → all p xs ≡ true
    → contains xs a ≡ true
    → p a ≡ true
all-of-contains p [] a h k = cc
all-of-contains p (x ∷ xs) a h k = ground (arith, all-of-contains p xs a, eq_iff x a)

-- A test of every key with every member of its set.
abbrev pub table_all : (String → String → Bool) → List (String × List String) → Bool
table_all p [] = true
table_all p ((k, v) ∷ rest) = all (p k) v && table_all p rest

-- What holds over the table holds of whatever is listed.
pub table_all-listed :
    (p : String → String → Bool) (table : List (String × List String)) (k a : String)
    → table_all p table ≡ true
    → listed table k a ≡ true
    → p k a ≡ true
table_all-listed p [] k a h l = cc
table_all-listed p ((j, v) ∷ rest) k a h l =
    ground (arith, table_all-listed p rest k a, all-of-contains (p j) v a, eq_iff j k)

-- `d.get(key)`, `d[key] = value` and `d.pop(key, None)`: a key that is present keeps its place.
unfoldable pub find_key {ℓ} : {V : Type ℓ} → String → List (String × V) → Option V
find_key k [] = none
find_key k ((j, v) ∷ rest) = let found = find_key k rest in if j == k then some v else found

unfoldable pub put_key {ℓ} : {V : Type ℓ} → String → V → List (String × V) → List (String × V)
put_key k w [] = (k, w) ∷ []
put_key k w ((j, v) ∷ rest) =
    let others = put_key k w rest in if j == k then (j, w) ∷ rest else (j, v) ∷ others

unfoldable pub pop_key {ℓ} : {V : Type ℓ} → String → List (String × V) → List (String × V)
pop_key k [] = []
pop_key k ((j, v) ∷ rest) =
    let others = pop_key k rest in if j == k then others else (j, v) ∷ others

module _ {ℓ} {V : Type ℓ} where
  pub find_key-put_key :
      (k l : String) (w : V) (d : List (String × V))
      → find_key k (put_key l w d) ≡ (if l == k then some w else find_key k d)
  unfolding find_key put_key
  find_key-put_key k l w [] = ground arith
  find_key-put_key k l w ((j, v) ∷ rest) =
      ground (arith, find_key-put_key k l w rest, eq_iff j k, eq_iff j l, eq_iff l k)

  pub find_key-pop_key :
      (k l : String) (d : List (String × V))
      → find_key k (pop_key l d) ≡ (if l == k then none else find_key k d)
  unfolding find_key pop_key
  find_key-pop_key k l [] = ground arith
  find_key-pop_key k l ((j, v) ∷ rest) =
      ground (arith, find_key-pop_key k l rest, eq_iff j k, eq_iff j l, eq_iff l k)
