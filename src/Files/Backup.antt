-- ===== src/Files/Backup.antt =====
-- backup_store.py: the store that keeps the bytes of each file before it is changed.
pub mod Store
pub mod Entry
pub mod Captured
use openclaw_hass_node.Prelude.{
  ℕ, zero, suc, ◌+◌, ◌-◌, ◌/◌, ◌%◌, ◌^◌, String, ◌<>◌, Char, Bool, true, false, not, ◌&&◌, ◌||◌,
  Option, none, some, List, [], ◌∷◌, ◌++◌, ◌==◌, if◌then◌else◌, eqb, leb, ltb, ℤ, pos, negsuc,
  length, keep, map, find_key, put_key, pop_key, contains,
}
use openclaw_hass_node.Value.{
  Value, null, bool, int, float, str, list, dict, Items, nil, cons, Fields, end, field, get,
}
use openclaw_hass_node.Authz.Turn.{truthy}
use openclaw_hass_node.Files.Lines.{Bytes, codes, utf8, get_elem?}

-- `Op`
pub data Op : Type 0 where
  write : Op
  delete : Op
  move_src : Op
  move_dst : Op
  restore : Op
  patch : Op

unfoldable pub op_text : Op → String
op_text write = "write"
op_text delete = "delete"
op_text move_src = "move-src"
op_text move_dst = "move-dst"
op_text restore = "restore"
op_text patch = "patch"

-- The errors that the store raises, and the `ValueError` of a selector or a timestamp
pub data BackupError : Type 0 where
  corrupt_index_line : BackupError
  index_line_not_object : BackupError
  index_line_missing_field : String → BackupError
  unknown_op : String → BackupError
  encoded_path_too_long : String → BackupError
  object_not_present : String → BackupError
  object_evicted : String → String → BackupError
  no_versions_for_path : String → BackupError
  version_out_of_range : ℤ → String → BackupError
  no_such_proposal : String → BackupError
  no_version_at_time : String → String → BackupError
  no_version_with_sha : String → String → BackupError
  selector_required : BackupError
  value_error : BackupError

pub data Outcome (A : Type 0) : Type 0 where
  returned : A → Outcome A
  raised : BackupError → Outcome A

abbrev pub and_then : {A B : Type 0} → Outcome A → (A → Outcome B) → Outcome B
and_then (returned a) f = f a
and_then (raised e) f = raised e

-- `Version`
pub record Version : Type 0 where
  pub ts : String
  pub proposal_id : String
  pub sha256 : String
  pub size : ℤ
  pub op : Op
  pub actor : String
  pub prev_sha256 : Option String
  pub evicted : Bool

-- `_validate_op`
unfoldable pub validate_op : String → Outcome Op
validate_op value =
    if value == "write"
    then returned write
    else if value == "delete"
    then returned delete
    else if value == "move-src"
    then returned move_src
    else if value == "move-dst"
    then returned move_dst
    else if value == "restore"
    then returned restore
    else if value == "patch"
    then returned patch
    else raised (unknown_op value)

-- `urllib.parse.quote(path, safe='')`: a letter, a digit and `_.-~` stand for themselves, another byte
-- for `%` and two hexadecimal digits.
abbrev pub is_unreserved : ℕ → Bool
is_unreserved b =
    (leb 65 b && leb b 90)
    || (leb 97 b && leb b 122)
    || (leb 48 b && leb b 57)
    || eqb b 95
    || eqb b 46
    || eqb b 45
    || eqb b 126

abbrev pub hex_digit : ℕ → ℕ
hex_digit n = if ltb n 10 then 48 + n else 55 + n

unfoldable pub quote : Bytes → List ℕ
quote [] = []
quote (b ∷ bs) =
    let rest = quote bs in
    if is_unreserved b then b ∷ rest else 37 ∷ hex_digit (b / 16) ∷ hex_digit (b % 16) ∷ rest

-- `_INDEX_NAME_MAX`. With the suffix `.jsonl` a name of this length has 256 bytes; that a file system may
-- refuse such a name is an error of the operating system, which the store has none of here.
abbrev pub index_name_max : ℕ
index_name_max = 250

-- `_encode_path`
unfoldable pub encode_path : String → Outcome (List ℕ)
unfolding quote utf8 codes
encode_path path =
    let encoded = quote (utf8 (codes path)) in
    if ltb index_name_max (length encoded)
    then raised (encoded_path_too_long path)
    else returned encoded

-- The payload of `to_json`
abbrev pub text_value : Option String → Value
text_value none = null
text_value (some s) = str s

abbrev pub evicted_field : Bool → Fields
evicted_field true = field "evicted" (bool true) end
evicted_field false = end

unfoldable pub payload : Version → Fields
unfolding op_text
payload v = field "ts" (str (Version.ts v)) (
    field "proposal_id" (str (Version.proposal_id v)) (
      field "sha256" (str (Version.sha256 v)) (
        field "size" (int (Version.size v)) (
          field "op" (str (op_text (Version.op v))) (
            field "actor" (str (Version.actor v)) (
              field "prev_sha256" (text_value (Version.prev_sha256 v))
                (evicted_field (Version.evicted v))))))))

-- A selector of `resolve_version`: the four keyword arguments
pub record Selector : Type 0 where
  pub version : Option ℤ
  pub proposal_id : Option String
  pub at : Option String
  pub sha256 : Option String

-- The number of arguments that are given.
abbrev pub given {ℓ} : {A : Type ℓ} → Option A → ℕ
given none = 0
given (some x) = 1

-- `versions[-1]`
unfoldable pub last {ℓ} : {A : Type ℓ} → List A → Option A
last [] = none
last (x ∷ []) = some x
last (x ∷ y ∷ xs) = last (y ∷ xs)

-- `versions[version - 1] if version > 0 else versions[version]`, where 0 and what is out of range
-- give `none`
unfoldable pub at_position {ℓ} : {A : Type ℓ} → List A → ℤ → Option A
unfolding get_elem?
at_position xs (pos zero) = none
at_position xs (pos (suc n)) = get_elem? xs n
at_position xs (negsuc n) = if ltb n (length xs) then get_elem? xs (length xs - suc n) else none

abbrev pub or_raise : {A : Type 0} → BackupError → Option A → Outcome A
or_raise e none = raised e
or_raise e (some a) = returned a

-- A side of a diff: a position, or a digest
pub data Side : Type 0 where
  position : ℤ → Side
  digest : String → Side
