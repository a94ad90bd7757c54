-- ===== src/Files/Lines.antt =====
-- Bytes, lines of bytes, and texts as lists of code points.
use openclaw_hass_node.Prelude.{
  ℕ, zero, suc, ◌+◌, ◌/◌, ◌%◌, ◌≤◌, ◌≡◌, refl, ap, ◌∙◌, String, code, Bool, true, false, ◌&&◌,
  Option, none, some, List, [], ◌∷◌, ◌++◌, if◌then◌else◌, eqb, ltb, length, take, drop, arith,
}

abbrev pub Bytes : Type 0
Bytes = List ℕ

-- A text by its code points.
unfoldable pub codes : String → List ℕ
codes String.[] = []
codes (String.◌∷◌ c s) = code c ∷ codes s

-- `a == b`
unfoldable pub bytes_eq : Bytes → Bytes → Bool
bytes_eq [] [] = true
bytes_eq [] (y ∷ ys) = false
bytes_eq (x ∷ xs) [] = false
bytes_eq (x ∷ xs) (y ∷ ys) = eqb x y && bytes_eq xs ys

pub eq_of_bytes_eq : (xs ys : Bytes) → bytes_eq xs ys ≡ true → xs ≡ ys
unfolding bytes_eq
eq_of_bytes_eq [] [] h = refl
eq_of_bytes_eq [] (y ∷ ys) h = cc
eq_of_bytes_eq (x ∷ xs) [] h = cc
eq_of_bytes_eq (x ∷ xs) (y ∷ ys) h = ground (arith, eq_of_bytes_eq xs ys)

-- `text.encode("utf-8")`, of one code point and of a text
abbrev pub utf8_char : ℕ → Bytes
utf8_char c =
    if ltb c 0x80
    then c ∷ []
    else if ltb c 0x800
    then (0xc0 + c / 64) ∷ (0x80 + c % 64) ∷ []
    else if ltb c 0x10000
    then (0xe0 + c / 4096) ∷ (0x80 + (c / 64) % 64) ∷ (0x80 + c % 64) ∷ []
    else (0xf0 + c / 262144)
      ∷ (0x80 + (c / 4096) % 64)
      ∷ (0x80 + (c / 64) % 64)
      ∷ (0x80 + c % 64)
      ∷ []

unfoldable pub utf8 : List ℕ → Bytes
utf8 [] = []
utf8 (c ∷ cs) = utf8_char c ++ utf8 cs

-- `lines[i]`, and `none` out of range
unfoldable pub get_elem? {ℓ} : {A : Type ℓ} → List A → ℕ → Option A
get_elem? [] i = none
get_elem? (x ∷ xs) zero = some x
get_elem? (x ∷ xs) (suc i) = get_elem? xs i

module _ {ℓ} {A : Type ℓ} where
  pub take-append-drop : (n : ℕ) (xs : List A) → take n xs ++ drop n xs ≡ xs
  take-append-drop zero xs = refl
  take-append-drop (suc n) [] = refl
  take-append-drop (suc n) (x ∷ xs) = ap (λ (ys : List A). x ∷ ys) (take-append-drop n xs)

  drop-nil : (n : ℕ) → drop {A = A} n [] ≡ []
  drop-nil zero = refl
  drop-nil (suc n) = refl

  pub drop-drop : (m n : ℕ) (xs : List A) → drop n (drop m xs) ≡ drop (m + n) xs
  drop-drop zero n xs = ground arith
  drop-drop (suc m) n [] = ground (arith, drop-nil n, drop-nil (suc m + n))
  drop-drop (suc m) n (x ∷ xs) =
      let e : suc (m + n) ≡ suc m + n = omega arith in
      drop-drop m n xs ∙ ap (λ (k : ℕ). drop k (x ∷ xs)) e

  -- An element stands at the head of what is left.
  pub drop-get_elem? :
      (i : ℕ) (xs : List A) (x : A) → get_elem? xs i ≡ some x → drop i xs ≡ x ∷ drop (i + 1) xs
  unfolding get_elem?
  drop-get_elem? zero [] x h = cc
  drop-get_elem? (suc i) [] x h = cc
  drop-get_elem? zero (y ∷ ys) x h = ground arith
  drop-get_elem? (suc i) (y ∷ ys) x h = ground (arith, drop-get_elem? i ys x)

  pub length-take : (n : ℕ) (xs : List A) → n ≤ length xs → length (take n xs) ≡ n
  length-take zero xs h = refl
  length-take (suc n) [] h = omega arith
  length-take (suc n) (x ∷ xs) h = omega (arith, length-take n xs)

-- `_split_lines_keep_ends`: a line takes its newline along; what follows the last newline is a line
-- unless it is empty.
abbrev pub onto_first : ℕ → List Bytes → List Bytes
onto_first b [] = (b ∷ []) ∷ []
onto_first b (l ∷ ls) = (b ∷ l) ∷ ls

unfoldable pub split_lines_keep_ends : Bytes → List Bytes
split_lines_keep_ends [] = []
split_lines_keep_ends (b ∷ bs) =
    let rest = split_lines_keep_ends bs in if eqb b 10 then (b ∷ []) ∷ rest else onto_first b rest

-- `b"".join(lines)`
unfoldable pub join_bytes : List Bytes → Bytes
join_bytes [] = []
join_bytes (l ∷ ls) = l ++ join_bytes ls

onto_first-join : (b : ℕ) (ls : List Bytes) → join_bytes (onto_first b ls) ≡ b ∷ join_bytes ls
unfolding join_bytes
onto_first-join b [] = refl
onto_first-join b (l ∷ ls) = refl

-- Splitting loses nothing: whatever the bytes, their lines joined are the bytes.
pub join-split_lines : (bytes : Bytes) → join_bytes (split_lines_keep_ends bytes) ≡ bytes
unfolding split_lines_keep_ends join_bytes
join-split_lines [] = refl
join-split_lines (b ∷ bs) =
    ground (arith, join-split_lines bs, onto_first-join b (split_lines_keep_ends bs))
