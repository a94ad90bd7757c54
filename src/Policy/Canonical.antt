-- ===== src/Policy/Canonical.antt =====
-- commands/config_mutation.py, `_canonical`: the text of a call that an approval is bound to. Keys
-- are sorted by UTF-16 code units and numbers print as ECMAScript prints them.
use openclaw_hass_node.Prelude.{
  ℕ, zero, suc, ◌+◌, ◌-◌, ◌/◌, ◌%◌, ◌^◌, String, ◌<>◌, Char, code, ◌≡◌, refl, Bool, true, false,
  not, ◌&&◌, List, [], ◌∷◌, ◌==◌, if◌then◌else◌, size, ℤ, pos, negsuc, leb, ltb, eqb,
}
use openclaw_hass_node.Value.{
  Value, null, bool, int, float, str, list, dict, Items, nil, cons, Fields, end, field, is_finite,
}

digit : ℕ → String
digit zero = "0"
digit (suc zero) = "1"
digit (suc (suc zero)) = "2"
digit (suc (suc (suc zero))) = "3"
digit (suc (suc (suc (suc zero)))) = "4"
digit n =
    if eqb n 5
    then "5"
    else if eqb n 6
    then "6"
    else if eqb n 7
    then "7"
    else if eqb n 8
    then "8"
    else if eqb n 9
    then "9"
    else if eqb n 10
    then "a"
    else if eqb n 11
    then "b"
    else if eqb n 12
    then "c"
    else if eqb n 13
    then "d"
    else if eqb n 14
    then "e"
    else "f"

-- `str(n)`: each round divides by ten, so `n + 1` rounds are enough.
decimal_within : ℕ → ℕ → String
unfolding digit
decimal_within zero n = ""
decimal_within (suc fuel) n = elim (n / 10) [
  | zero ↦ digit n
  | suc m ↦ decimal_within fuel (suc m) <> digit (n % 10)
]

unfoldable pub decimal : ℕ → String
unfolding decimal_within
decimal n = decimal_within (suc n) n

unfoldable pub int_text : ℤ → String
unfolding decimal
int_text (pos n) = decimal n
int_text (negsuc n) = "-" <> decimal (n + 1)

-- One character of `_es_string`
unfoldable pub es_char : Char → String
unfolding digit
es_char ch =
    let c = code ch in
    if eqb c 34
    then "\\\""
    else if eqb c 92
    then "\\\\"
    else if eqb c 8
    then "\\b"
    else if eqb c 12
    then "\\f"
    else if eqb c 10
    then "\\n"
    else if eqb c 13
    then "\\r"
    else if eqb c 9
    then "\\t"
    else if ltb c 32
    then "\\u00" <> digit (c / 16) <> digit (c % 16)
    else String.◌∷◌ ch ""

es_chars : String → String
unfolding es_char
es_chars String.[] = ""
es_chars (String.◌∷◌ c s) = es_char c <> es_chars s

-- `_es_string`; a text holds no lone surrogates.
unfoldable pub es_string : String → String
unfolding es_chars
es_string value = "\"" <> es_chars value <> "\""

-- The code units of `key.encode("utf-16-be")`
unfoldable pub utf16 : String → List ℕ
utf16 String.[] = []
utf16 (String.◌∷◌ ch s) =
    let c = code ch in
    let rest = utf16 s in
    if ltb c 0x10000
    then c ∷ rest
    else (0xd800 + (c - 0x10000) / 0x400) ∷ (0xdc00 + (c - 0x10000) % 0x400) ∷ rest

unfoldable pub units_before : List ℕ → List ℕ → Bool
units_before [] [] = false
units_before [] (y ∷ ys) = true
units_before (x ∷ xs) [] = false
units_before (x ∷ xs) (y ∷ ys) =
    let rest = units_before xs ys in if ltb x y then true else if ltb y x then false else rest

insert_by_key : String × String → List (String × String) → List (String × String)
unfolding utf16 units_before
insert_by_key (k, t) [] = (k, t) ∷ []
insert_by_key (k, t) ((j, u) ∷ rest) =
    let later = insert_by_key (k, t) rest in
    if units_before (utf16 j) (utf16 k) then (j, u) ∷ later else (k, t) ∷ (j, u) ∷ rest

sort_by_key : List (String × String) → List (String × String)
unfolding insert_by_key
sort_by_key [] = []
sort_by_key (p ∷ ps) = insert_by_key p (sort_by_key ps)

join_members : List (String × String) → String
unfolding es_string
join_members [] = ""
join_members ((k, t) ∷ []) = es_string k <> ":" <> t
join_members ((k, t) ∷ p ∷ ps) = es_string k <> ":" <> t <> "," <> join_members (p ∷ ps)

zeros : ℕ → String
zeros zero = ""
zeros (suc n) = "0" <> zeros n

take_text : ℕ → String → String
take_text zero s = ""
take_text (suc n) String.[] = ""
take_text (suc n) (String.◌∷◌ c s) = String.◌∷◌ c (take_text n s)

drop_text : ℕ → String → String
drop_text zero s = s
drop_text (suc n) String.[] = ""
drop_text (suc n) (String.◌∷◌ c s) = drop_text n s

-- `digits.rstrip("0")`
strip_zeros : String → String
strip_zeros String.[] = ""
strip_zeros (String.◌∷◌ c s) =
    let rest = strip_zeros s in if rest == "" && eqb (code c) b'0' then "" else String.◌∷◌ c rest

-- `len(raw_digits) + exponent`
point_position : ℕ → ℤ → ℤ
point_position n (pos e) = pos (n + e)
point_position n (negsuc e) = if ltb e n then pos (n - (e + 1)) else negsuc (e - n)

scientific : String → ℤ → String
unfolding drop_text take_text decimal
scientific digits n =
    let tail = if ltb 1 (size digits) then "." <> drop_text 1 digits else "" in
    take_text 1 digits <> tail <> (elim n [
      | pos zero ↦ "e-1"
      | pos (suc m) ↦ "e+" <> decimal m
      | negsuc m ↦ "e-" <> decimal (m + 2)
    ])

es_digits : String → ℤ → String
unfolding scientific zeros
es_digits digits (pos n) =
    if leb (size digits) n && leb n 21
    then digits <> zeros (n - size digits)
    else if ltb 0 n && leb n 21
    then take_text n digits <> "." <> drop_text n digits
    else if eqb n 0
    then "0." <> digits
    else scientific digits (pos n)
es_digits digits (negsuc m) =
    if ltb m 5 then "0." <> zeros (m + 1) <> digits else scientific digits (negsuc m)

-- `Decimal(repr(value)).as_tuple()`: whether the sign is a minus, the digits and the exponent.
pub record DecimalTuple : Type 0 where
  pub minus : Bool
  pub raw_digits : String
  pub exponent : ℤ

module _ (as_tuple : ℕ → DecimalTuple) where
  -- `_es_number`
  unfoldable pub es_number : ℕ → String
  unfolding es_digits strip_zeros point_position
  es_number bits =
      if not (is_finite bits)
      then "null"
      else if eqb (bits % 2 ^ 63) 0
      then "0"
      else let t = as_tuple bits in
        let body =
          es_digits (strip_zeros t.raw_digits) (point_position (size t.raw_digits) t.exponent) in
        (if t.minus then "-" <> body else body)

  unfoldable mutual
    unfolding es_number join_members sort_by_key int_text es_string

    -- `_canonical`
    pub canonical : Value → String
    canonical null = "null"
    canonical (bool true) = "true"
    canonical (bool false) = "false"
    canonical (int n) = int_text n
    canonical (float bits) = es_number bits
    canonical (str s) = es_string s
    canonical (list vs) = "[" <> canonical_items vs <> "]"
    canonical (dict d) = "{" <> join_members (sort_by_key (canonical_members d)) <> "}"

    pub canonical_items : Items → String
    canonical_items nil = ""
    canonical_items (cons v nil) = canonical v
    canonical_items (cons v (cons w vs)) = canonical v <> "," <> canonical_items (cons w vs)

    pub canonical_members : Fields → List (String × String)
    canonical_members end = []
    canonical_members (field k v d) = (k, canonical v) ∷ canonical_members d

abbrev sample_tuple : ℕ → DecimalTuple
sample_tuple bits = record { minus = true; raw_digits = "1250"; exponent = negsuc 1 }

abbrev large_tuple : ℕ → DecimalTuple
large_tuple bits = record { minus = false; raw_digits = "15"; exponent = pos 29 }

-- {"b": [-12, null, -12.5], "a\n": "x\""} and 1.5e30
canonical_test :
    (canonical sample_tuple (
        dict (
          field "b"
            (list (cons (int (negsuc 11)) (cons null (cons (float 1) nil))))
            (field "a\n" (str "x\"") end)))
      ≡ "{\"a\\n\":\"x\\\"\",\"b\":[-12,null,-12.5]}")
    × (canonical large_tuple (float 1) ≡ "1.5e+30")
unfolding canonical is_finite
canonical_test = (refl, refl)

decimal_test : decimal 1_700_000_000 ≡ "1700000000"
unfolding decimal
decimal_test = refl
