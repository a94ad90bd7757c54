-- ===== src/Files/History.antt =====
-- commands/fs_write.py: handle_fs_history and handle_fs_diff, and BackupStore.diff of backup_store.py.
use openclaw_hass_node.Prelude.{
  String, ◌<>◌, Char, code, Bool, true, ◌&&◌, ◌||◌, Option, none, some, List, [], ◌∷◌, ◌==◌,
  if◌then◌else◌, eqb, leb, size, all_chars, ℤ, pos, ◌⊎◌, inl, inr,
}
use openclaw_hass_node.Value.{
  Value, null, bool, int, str, list, dict, Items, nil, cons, Fields, end, field, get,
}
use openclaw_hass_node.Commands.Params.{strict_keys_error}
use openclaw_hass_node.Policy.{refusal}
use openclaw_hass_node.Files.Lines.{Bytes}
use openclaw_hass_node.Files.Backup.{
  Side, position, digest, BackupError, Outcome, returned, raised, Version, op_text, text_value,
}
use openclaw_hass_node.Files.Backup.Store.{Store, history, resolve_side}

-- `_HISTORY_KEYS`, `_DIFF_KEYS` and `_DIFF_NULLABLE`
abbrev pub history_keys : List String
history_keys = "path" ∷ []

abbrev pub diff_keys : List String
diff_keys = "path" ∷ "from_version" ∷ "to_version" ∷ []

abbrev pub diff_nullable : List String
diff_nullable = "to_version" ∷ []

-- An element of `versions`
abbrev pub version_entry : Version → Fields
version_entry v = field "version_id" (str (Version.sha256 v)) (
    field "ts" (str (Version.ts v)) (
      field "proposal_id" (str (Version.proposal_id v)) (
        field "sha256" (str (Version.sha256 v)) (
          field "size" (int (Version.size v)) (
            field "op" (str (op_text (Version.op v))) (
              field "actor" (str (Version.actor v)) (
                field "prev_sha256" (text_value (Version.prev_sha256 v))
                  (field "evicted" (bool (Version.evicted v)) end))))))))

unfoldable pub version_entries : List Version → Items
unfolding op_text
version_entries [] = nil
version_entries (v ∷ vs) = cons (dict (version_entry v)) (version_entries vs)

-- `c in "0123456789abcdef"`, of a character in lower case
abbrev pub is_hex : Char → Bool
is_hex c =
    (leb 48 (code c) && leb (code c) 57)
    || (leb 97 (code c) && leb (code c) 102)
    || (leb 65 (code c) && leb (code c) 70)

-- The first six parameters are those of the backup store; `int_of_text` is `int` of a text (`none` where it raises),
-- `read_live` the bytes of a file or the text of the error, `unified_diff` what difflib renders of two decoded
-- sides with their labels, and `error_text` the text of an error of the store.
module _ (printed : Value → String) (parsed_int : Value → Option ℤ) (Line : Type 0)
    (dumps : Fields → Line) (loads : Line → Option Value) (sha256 : Bytes → String)
    (not_after : String → String → Option Bool) (int_of_text : String → Option ℤ)
    (read_live : String → String ⊎ Bytes) (unified_diff : Bytes × String → Bytes × String → String)
    (error_text : BackupError → String) where
  abbrev pub shown_text : Value → String
  shown_text (str s) = s
  shown_text v = printed v

  abbrev pub path_text : Option Value → String
  path_text none = ""
  path_text (some v) = shown_text v

  abbrev pub history_reply : String → Outcome (List Version) → Fields
  history_reply path (raised e) = refusal "STORE_ERROR" (error_text e)
  history_reply path (returned versions) =
      field "ok" (bool true)
        (field "path" (str path) (field "versions" (list (version_entries versions)) end))

  abbrev pub history_valid : Store Line → Fields → Option Fields → Fields
  history_valid store params (some invalid) = invalid
  history_valid store params none =
      let path = path_text (get "path" params) in
      if path == ""
      then refusal "MISSING_PARAM" "path is required"
      else history_reply path
          (history printed parsed_int Line dumps loads sha256 not_after store path)

  -- `handle_fs_history`
  unfoldable pub handle_fs_history : Store Line → Fields → Fields
  unfolding strict_keys_error history version_entries
  handle_fs_history store params =
      history_valid store params (strict_keys_error params history_keys [])

  -- `_coerce`
  abbrev pub number_or_digest : String → Option ℤ → Side
  number_or_digest s none = digest s
  number_or_digest s (some n) = position n

  abbrev pub coerce_text : String → Side
  coerce_text s =
      if eqb (size s) 64 && all_chars is_hex s then digest s else number_or_digest s (int_of_text s)

  unfoldable pub coerce : Value → Side
  coerce (int n) = position n
  coerce (bool b) = position (pos (if b then 1 else 0))
  coerce v = coerce_text (shown_text v)

  -- `BackupStore.diff`: the text, or the text of the error
  abbrev pub diff_live : String → Bytes × String → String ⊎ Bytes → String ⊎ String
  diff_live path from_side (inl reason) = inl reason
  diff_live path from_side (inr bytes) = inr (unified_diff from_side (bytes, path <> ":current"))

  abbrev pub diff_sides : Bytes × String → Outcome (Bytes × String) → String ⊎ String
  diff_sides from_side (raised e) = inl (error_text e)
  diff_sides from_side (returned to_side) = inr (unified_diff from_side to_side)

  abbrev pub diff_from :
      Store Line → String → Option Side → Outcome (Bytes × String) → String ⊎ String
  diff_from store path to_version (raised e) = inl (error_text e)
  diff_from store path none (returned from_side) = diff_live path from_side (read_live path)
  diff_from store path (some side) (returned from_side) =
      diff_sides from_side
        (resolve_side printed parsed_int Line dumps loads sha256 not_after store path side)

  unfoldable pub diff : Store Line → String → Side → Option Side → String ⊎ String
  unfolding resolve_side
  diff store path from_version to_version =
      diff_from store path to_version
        (resolve_side printed parsed_int Line dumps loads sha256 not_after store path from_version)

  abbrev pub diff_reply : String → String ⊎ String → Fields
  diff_reply path (inl reason) = refusal "DIFF_ERROR" reason
  diff_reply path (inr text) =
      field "ok" (bool true) (field "path" (str path) (field "diff" (str text) end))

  abbrev pub to_side : Option Value → Option Side
  to_side none = none
  to_side (some null) = none
  to_side (some v) = some (coerce v)

  abbrev pub diff_given : Store Line → String → Option Value → Option Value → Fields
  diff_given store path none to_raw = refusal "MISSING_PARAM" "from_version is required"
  diff_given store path (some null) to_raw = refusal "MISSING_PARAM" "from_version is required"
  diff_given store path (some from_raw) to_raw =
      diff_reply path (diff store path (coerce from_raw) (to_side to_raw))

  abbrev pub diff_valid : Store Line → Fields → Option Fields → Fields
  diff_valid store params (some invalid) = invalid
  diff_valid store params none =
      let path = path_text (get "path" params) in
      if path == ""
      then refusal "MISSING_PARAM" "path is required"
      else diff_given store path (get "from_version" params) (get "to_version" params)

  -- `handle_fs_diff`
  unfoldable pub handle_fs_diff : Store Line → Fields → Fields
  unfolding strict_keys_error coerce diff
  handle_fs_diff store params =
      diff_valid store params (strict_keys_error params diff_keys diff_nullable)
