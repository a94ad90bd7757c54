-- ===== src/Tests/Files.antt =====
-- The patch applier, the backup store and the handlers that write files, on concrete data.
use openclaw_hass_node.Prelude.{
  ℕ, suc, ◌-◌, String, ◌<>◌, ◌≡◌, ◌≢◌, refl, Bool, true, false, ◌&&◌, Option, none, some, List, [],
  ◌∷◌, ◌++◌, if◌then◌else◌, leb, length, ℤ, pos, negsuc, ◌<◌, inl, ◌⊎◌, find_key, sorted_set, ◌==◌,
}
use openclaw_hass_node.Value.{Value, int, str, dict, Fields, end, field, get, keys, remove}
use openclaw_hass_node.Policy.Canonical.{DecimalTuple, canonical}
use openclaw_hass_node.Policy.Marker.{
  consume_approval_marker, is_expired, approval_bind, expiry_of, purge,
}
use openclaw_hass_node.Files.Lines.{Bytes, codes, utf8, split_lines_keep_ends, join_bytes}
use openclaw_hass_node.Files.Patch.{
  PatchApplyError, ok, failed, out_of_fuel, patch_lines, apply_unified_diff,
}
use openclaw_hass_node.Files.Patch.Patched.{
  Hunk, IsPatched, parse_hunks, apply_unified_diff-IsPatched,
}
use openclaw_hass_node.Files.Patch.Ends.{apply_unified_diff-ends}
use openclaw_hass_node.Files.Backup.{
  position, write, BackupError, Outcome, returned, Version, quote, encode_path, payload,
}
use openclaw_hass_node.Files.Backup.Store.{Store, capture, new_version, history, resolve_side}
use openclaw_hass_node.Files.Backup.Entry.{ReadsBack}
use openclaw_hass_node.Files.Backup.Captured.{capture-resolve_side}
use openclaw_hass_node.Files.Write.{
  is_storage, target, contents, done, World, Backups, backup_store,
}
use openclaw_hass_node.Files.Write.Handlers.{handle_fs_write, handle_fs_patch, handle_fs_restore}
use openclaw_hass_node.Files.Write.Gated.{handle_fs-IsGated}
use openclaw_hass_node.Files.Write.Admission.{IsGated}
use openclaw_hass_node.Files.Move.{
  FileWorld, replaced, trashed_to, trash_failed, moved, trashed, handle_fs_delete, handle_fs_move,
}
use openclaw_hass_node.Files.Confine.{relative_to_root, path_of_text, beneath}
use openclaw_hass_node.Files.Move.Gated.{IsGatedDelete, IsGatedMove, handle_fs_move_delete-IsGated}

abbrev ascii_digit : ℕ → Option ℕ
ascii_digit c = if leb 48 c && leb c 57 then some (c - 48) else none

-- "a\nb\n", and a patch that makes it "a\nc\n"
abbrev two_lines : Bytes
two_lines = 97 ∷ 10 ∷ 98 ∷ 10 ∷ []

abbrev change_second : String
change_second = "@@ -1,2 +1,2 @@\n a\n-b\n+c\n"

change_second_applies :
    apply_unified_diff ascii_digit two_lines change_second ≡ ok (97 ∷ 10 ∷ 99 ∷ 10 ∷ [], 1)
unfolding apply_unified_diff
change_second_applies = refl

apply_unified_diff-IsPatched_example :
    (hs : List Hunk) × (out : List Bytes) × (parse_hunks ascii_digit
        (suc (length (patch_lines change_second)))
        (patch_lines change_second)
      ≡ some hs)
    × (0 < 1)
    × (1 ≡ length hs)
    × IsPatched hs 0 (split_lines_keep_ends two_lines) out
    × ((97 ∷ 10 ∷ 99 ∷ 10 ∷ []) ≡ join_bytes out)
apply_unified_diff-IsPatched_example =
    apply_unified_diff-IsPatched ascii_digit two_lines change_second (97 ∷ 10 ∷ 99 ∷ 10 ∷ []) 1
      change_second_applies

apply_unified_diff-ends_example :
    apply_unified_diff ascii_digit two_lines "no patch" ≢ failed out_of_fuel
apply_unified_diff-ends_example = apply_unified_diff-ends ascii_digit two_lines "no patch"

-- The index lines of the tests are the payloads themselves, and a digest is one letter for a byte.
abbrev read_payload : Fields → Option Value
read_payload d = some (dict d)

abbrev write_payload : Fields → Fields
write_payload d = d

abbrev short_digest : Bytes → String
short_digest [] = ""
short_digest (b ∷ bs) = "d" <> short_digest bs

abbrev printed : Value → String
printed v = "other"

abbrev no_int : Value → Option ℤ
no_int v = none

abbrev always_after : String → String → Option Bool
always_after ts at = some true

abbrev empty_store : Store Fields
empty_store = record { objects = []; index = [] }

payloads_read_back :
    ReadsBack printed no_int Fields write_payload read_payload short_digest always_after
payloads_read_back = λ v. (payload v, refl, λ k. refl)

abbrev captured : Store Fields × Outcome Version
captured =
    capture printed no_int Fields write_payload read_payload short_digest always_after
      "2026-01-02T03:04:05Z" empty_store "/config/a.yaml" two_lines "p1" write "agent"

abbrev first_version : Version
first_version =
    new_version printed no_int Fields write_payload read_payload short_digest always_after
      "2026-01-02T03:04:05Z" empty_store "/config/a.yaml" two_lines "p1" write "agent"

capture-resolve_side_example :
    (captured.1 ≡ returned first_version)
    × (history printed no_int Fields write_payload read_payload short_digest always_after captured.0
          "/config/a.yaml"
        ≡ returned ([] ++ (first_version ∷ [])))
    × (resolve_side printed no_int Fields write_payload read_payload short_digest always_after
          captured.0 "/config/a.yaml"
          (position (negsuc 0))
        ≡ returned (two_lines, "/config/a.yaml" <> "@" <> "2026-01-02T03:04:05Z"))
unfolding encode_path history find_key
capture-resolve_side_example =
    capture-resolve_side printed no_int Fields write_payload read_payload short_digest always_after
      payloads_read_back "2026-01-02T03:04:05Z" empty_store "/config/a.yaml" two_lines "p1" write
      "agent" (quote (utf8 (codes "/config/a.yaml"))) [] refl refl (λ other e. cc)

-- A call of each handler on a protected file, with a marker that binds the call of fs.write.
abbrev bound : String
bound =
    "{\"action\":\"\",\"command\":\"fs.write\",\"params\":{\"content\":\"hi\",\"path\":\"/config/a.yaml\"}}"

abbrev plain_digest : String → String
plain_digest s = s

abbrev no_doubles : ℕ → DecimalTuple
no_doubles bits = record { minus = false; raw_digits = ""; exponent = pos 0 }

abbrev write_params : Fields
write_params = field "path" (str "/config/a.yaml") (
    field "content" (str "hi") (
      field "_openclaw_approval"
        (dict (field "id" (str "m1") (field "exp" (int (pos 100)) (field "bind" (str bound) end))))
        end))

abbrev one_file : World
one_file = record {
  resolve = λ path. target path;
  read = λ path. contents two_lines;
  write_file = λ path bytes. done;
  purge_trash = λ path. 0;
}

abbrev quoted : String → String
quoted s = "'" <> s <> "'"

abbrev no_base64 : String → String ⊎ Bytes
no_base64 s = inl "Incorrect padding"

abbrev patch_error : PatchApplyError → String
patch_error e = "mismatch"

abbrev store_error : BackupError → String
store_error e = "No versions recorded"

abbrev the_store : Backups (Store Fields)
the_store =
    backup_store printed no_int Fields write_payload read_payload short_digest always_after
      "2026-01-02T03:04:05Z"

-- The call is admitted, and writes.
write_happens :
    (handle_fs_write plain_digest no_doubles none 5_000_000_000 printed no_int quoted no_base64
      short_digest ascii_digit patch_error store_error
      (Store Fields)
      one_file
      the_store
      write_params
      []
      empty_store).written
    ≡ some ("/config/a.yaml", 104 ∷ 105 ∷ [])
unfolding handle_fs_write sorted_set keys get consume_approval_marker is_expired approval_bind
    canonical remove expiry_of purge capture
write_happens = refl

-- A path with a `.` component is not taken for a storage path.
dotted_storage : is_storage "/config/./.storage/auth" ≡ false
unfolding is_storage
dotted_storage = refl

handle_fs-IsGated_example :
    IsGated plain_digest no_doubles none 5_000_000_000 printed no_int quoted no_base64 short_digest
      ascii_digit patch_error store_error
      (Store Fields)
      one_file
      the_store
      write_params
      empty_store
      (handle_fs_write plain_digest no_doubles none 5_000_000_000 printed no_int quoted no_base64
        short_digest ascii_digit patch_error store_error
        (Store Fields)
        one_file
        the_store
        write_params
        []
        empty_store)
    × IsGated plain_digest no_doubles none 5_000_000_000 printed no_int quoted no_base64
        short_digest ascii_digit patch_error store_error
        (Store Fields)
        one_file
        the_store
        write_params
        empty_store
        (handle_fs_patch plain_digest no_doubles none 5_000_000_000 printed no_int quoted no_base64
          short_digest ascii_digit patch_error store_error
          (Store Fields)
          one_file
          the_store
          write_params
          []
          empty_store)
    × IsGated plain_digest no_doubles none 5_000_000_000 printed no_int quoted no_base64
        short_digest ascii_digit patch_error store_error
        (Store Fields)
        one_file
        the_store
        write_params
        empty_store
        (handle_fs_restore plain_digest no_doubles none 5_000_000_000 printed no_int quoted
          no_base64 short_digest ascii_digit patch_error store_error
          (Store Fields)
          one_file
          the_store
          write_params
          []
          empty_store)
handle_fs-IsGated_example =
    handle_fs-IsGated plain_digest no_doubles none 5_000_000_000 printed no_int quoted no_base64
      short_digest ascii_digit patch_error store_error (Store Fields) one_file the_store
      write_params [] empty_store

-- Moving and deleting.
abbrev file_world : FileWorld
file_world = record {
  world = one_file;
  exists = λ path. path == "/config/a.yaml";
  missing = "No such file or directory";
  replace_file = λ src dst. replaced;
  trash_file = λ path. trashed_to "system trash";
}

abbrev delete_bound : String
delete_bound =
    "{\"action\":\"\",\"command\":\"fs.delete\",\"params\":{\"path\":\"/config/a.yaml\"}}"

abbrev delete_params : Fields
delete_params = field "path" (str "/config/a.yaml") (
    field "_openclaw_approval"
      (dict
        (field "id" (str "m2") (field "exp" (int (pos 100)) (field "bind" (str delete_bound) end))))
      end)

delete_happens :
    (handle_fs_delete printed quoted
      (Store Fields)
      file_world
      the_store
      plain_digest
      no_doubles
      none
      5_000_000_000
      delete_params
      []
      empty_store).effect
    ≡ some (trashed "/config/a.yaml")
unfolding handle_fs_delete sorted_set keys get consume_approval_marker is_expired approval_bind
    canonical remove expiry_of purge capture
delete_happens = refl

-- A move between unprotected paths needs no marker.
abbrev share_world : FileWorld
share_world = record {
  world = one_file;
  exists = λ path. path == "/share/a.yaml";
  missing = "No such file or directory";
  replace_file = λ src dst. replaced;
  trash_file = λ path. trash_failed "not supported";
}

abbrev move_params : Fields
move_params = field "src" (str "/share/a.yaml") (field "dst" (str "/share/b.yaml") end)

move_happens :
    (handle_fs_move printed quoted
      (Store Fields)
      share_world
      the_store
      plain_digest
      no_doubles
      none
      5_000_000_000
      move_params
      []
      empty_store).effect
    ≡ some (moved "/share/a.yaml" "/share/b.yaml")
unfolding handle_fs_move sorted_set keys get capture
move_happens = refl

handle_fs_move_delete-IsGated_example :
    IsGatedDelete printed quoted (Store Fields) file_world the_store delete_params empty_store (
      handle_fs_delete printed quoted
        (Store Fields)
        file_world
        the_store
        plain_digest
        no_doubles
        none
        5_000_000_000
        delete_params
        []
        empty_store)
    × IsGatedMove printed quoted (Store Fields) file_world the_store delete_params empty_store (
        handle_fs_move printed quoted
          (Store Fields)
          file_world
          the_store
          plain_digest
          no_doubles
          none
          5_000_000_000
          delete_params
          []
          empty_store)
handle_fs_move_delete-IsGated_example =
    handle_fs_move_delete-IsGated printed quoted (Store Fields) file_world the_store plain_digest
      no_doubles none 5_000_000_000 delete_params [] empty_store

-- The `.` component is gone when the path is opened beneath its root.
dotted_storage_opens :
    relative_to_root "/config/./.storage/auth" (path_of_text "/config" ∷ [])
    ≡ beneath (path_of_text "/config") (".storage" ∷ "auth" ∷ [])
unfolding relative_to_root
dotted_storage_opens = refl
