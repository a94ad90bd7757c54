-- ===== src/Value.antt =====
-- The values of JSON, which command parameters, results and gateway frames are made of: Python's
-- `dict[str, Any]` and what it holds. A dict keeps its insertion order; a float is the bit pattern
-- of its IEEE 754 double.
use openclaw_hass_node.Prelude.{
  ℕ, ◌/◌, ◌%◌, ◌^◌, String, ◌≡◌, refl, Bool, false, not, Option, none, some, List, [], ◌∷◌, arith,
  ◌==◌, eq_iff, if◌then◌else◌, contains, ℤ, eqb,
}

mutual
  pub data Value : Type 0 where
    null : Value
    bool : Bool → Value
    int : ℤ → Value
    float : ℕ → Value
    str : String → Value
    list : Items → Value
    dict : Fields → Value

  pub data Items : Type 0 where
    nil : Items
    cons : Value → Items → Items

  pub data Fields : Type 0 where
    end : Fields
    field : String → Value → Fields → Fields

-- `math.isfinite`: the eleven bits of the exponent are not all set.
unfoldable pub is_finite : ℕ → Bool
is_finite bits = not (eqb ((bits / 2 ^ 52) % 2048) 2047)

-- `d.get(k)`; `none` where the key is missing.
unfoldable pub get : String → Fields → Option Value
get k end = none
get k (field j v d) = if j == k then some v else get k d

-- `set(d)`, in insertion order
unfoldable pub keys : Fields → List String
keys end = []
keys (field k v d) = k ∷ keys d

-- `d.pop(k)`, `del d[k]`, and `{k: v for ... if k not in reserved}` for one key
unfoldable pub remove : String → Fields → Fields
remove k end = end
remove k (field j v d) = let rest = remove k d in if j == k then rest else field j v rest

-- `d[k] = v`: in place where the key is there, and else at the end.
unfoldable pub put : String → Value → Fields → Fields
put k v end = field k v end
put k v (field j w d) = let rest = put k v d in if j == k then field j v d else field j w rest

-- `k in d`
unfoldable pub has : String → Fields → Bool
unfolding keys
has k d = contains (keys d) k

pub has-remove_self : (k : String) (d : Fields) → has k (remove k d) ≡ false
unfolding has remove
has-remove_self k end = refl
has-remove_self k (field j v d) = ground (arith, has-remove_self k d)

pub get-remove :
    (k j : String) (d : Fields) → get j (remove k d) ≡ (if k == j then none else get j d)
unfolding get remove
get-remove k j end = ground arith
get-remove k j (field i v d) = ground (arith, get-remove k j d, eq_iff i k, eq_iff i j, eq_iff k j)

-- A key is present exactly when it is found.
pub has-get : (k : String) (d : Fields) → has k d ≡ false → get k d ≡ none
unfolding has get
has-get k end h = refl
has-get k (field j v d) h = ground (arith, has-get k d)

pub get-has : (k : String) (d : Fields) → get k d ≡ none → has k d ≡ false
unfolding has get
get-has k end h = refl
get-has k (field j v d) h = ground (arith, get-has k d)

pub remove_absent : (k : String) (d : Fields) → has k d ≡ false → remove k d ≡ d
unfolding has remove
remove_absent k end h = refl
remove_absent k (field j v d) h = ground (arith, remove_absent k d)
