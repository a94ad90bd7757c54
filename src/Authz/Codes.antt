-- ===== src/Authz/Codes.antt =====
-- authz.py: the lock and alarm codes that a call supplies.
pub mod Mask
pub mod Scrub
use openclaw_hass_node.Prelude.{
  ℕ, ◌+◌, ◌-◌, ◌*◌, ◌/◌, ◌%◌, ◌^◌, max, String, ◌≡◌, refl, Bool, true, false, not, ◌&&◌, ◌||◌,
  Option, none, some, List, [], ◌∷◌, ◌++◌, ◌==◌, if◌then◌else◌, eqb, leb, ℤ, pos, negsuc,
}
use openclaw_hass_node.Value.{
  Value, null, bool, int, float, str, list, dict, Items, nil, cons, Fields, end, field, is_finite,
}

-- `int | float`
pub data Number : Type 0 where
  whole : ℤ → Number
  double : ℕ → Number

-- An element of `codes`
pub data Code : Type 0 where
  text : String → Code
  number : Number → Code

-- A double's magnitude times 2 ^ 1074.
unfoldable pub scaled_double : ℕ → ℕ
scaled_double bits =
    let exponent = (bits / 2 ^ 52) % 2048 in
    let fraction = bits % 2 ^ 52 in
    if eqb exponent 0 then fraction else (fraction + 2 ^ 52) * 2 ^ (exponent - 1)

unfoldable pub is_negative : ℕ → Bool
is_negative bits = leb (2 ^ 63) bits

eq_double : ℤ → ℕ → Bool
unfolding scaled_double is_negative
eq_double (pos n) bits =
    let magnitude = scaled_double bits in
    eqb (n * 2 ^ 1074) magnitude && (not (is_negative bits) || eqb magnitude 0)
eq_double (negsuc n) bits = eqb ((n + 1) * 2 ^ 1074) (scaled_double bits) && is_negative bits

int_eq : ℤ → ℤ → Bool
int_eq (pos m) (pos n) = eqb m n
int_eq (negsuc m) (negsuc n) = eqb m n
int_eq _ _ = false

-- Python's `==` on numbers: exact, and false where a double is not finite and the codes are.
unfoldable pub number_eq : Number → Number → Bool
unfolding eq_double int_eq
number_eq (whole m) (whole n) = int_eq m n
number_eq (whole m) (double y) = is_finite y && eq_double m y
number_eq (double x) (whole n) = is_finite x && eq_double n x
number_eq (double x) (double y) =
    is_finite x && is_finite y && (eqb x y || (eqb (scaled_double x) 0 && eqb (scaled_double y) 0))

-- What the value of a `code` key is: a code that is collected, no code, or an integer for which
-- `math.isfinite` raises OverflowError.
pub data Found : Type 0 where
  found : Code → Found
  no_code : Found
  too_large : Found

-- The integers that no double holds: they round to 2 ^ 1024 or more.
abbrev pub double_limit : ℕ
double_limit = 2 ^ 1024 - 2 ^ 970

abbrev pub int_code : ℤ → ℕ → Found
int_code n magnitude = if leb double_limit magnitude then too_large else found (number (whole n))

-- A text that is not empty, or a finite number.
unfoldable pub as_code : Value → Found
as_code (str s) = if s == "" then no_code else found (text s)
as_code (int (pos n)) = int_code (pos n) n
as_code (int (negsuc n)) = int_code (negsuc n) (n + 1)
as_code (float bits) = if is_finite bits then found (number (double bits)) else no_code
as_code _ = no_code

unfoldable pub code_at : String → Value → Found
unfolding as_code
code_at key v = if key == "code" then as_code v else no_code

-- `found.extend(...)`, of lists that may not be there since an exception was raised
unfoldable pub extended : Option (List Code) → Option (List Code) → Option (List Code)
extended none rest = none
extended (some codes) none = none
extended (some codes) (some more) = some (codes ++ more)

-- `collect_codes`; `none` where it raises OverflowError
unfoldable mutual
  unfolding extended

  pub collect_codes : Value → Option (List Code)
  collect_codes (list vs) = collect_items vs
  collect_codes (dict d) = collect_fields d
  collect_codes _ = some []

  pub collect_items : Items → Option (List Code)
  collect_items nil = some []
  collect_items (cons v vs) = extended (collect_codes v) (collect_items vs)

  pub collect_fields : Fields → Option (List Code)
  collect_fields end = some []
  collect_fields (field k v d) =
      extended
        (elim (code_at k v) [
          | found c ↦ some (c ∷ [])
          | no_code ↦ collect_codes v
          | too_large ↦ none
        ])
        (collect_fields d)
