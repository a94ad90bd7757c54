-- ===== src/Exec/Document.antt =====
-- exec_approvals.py: the stored policy document, what a caller sees of it, and the two commands
-- that read and replace it.
pub mod FirstWins
pub mod Redacted
pub mod Replaced
use openclaw_hass_node.Prelude.{
  ℕ, zero, suc, String, ◌<>◌, Bool, true, false, not, ◌&&◌, ◌||◌, Option, none, some, List, [], ◌∷◌,
  ◌==◌, if◌then◌else◌, strip, ℤ, pos,
}
use openclaw_hass_node.Value.{
  Value, null, bool, int, float, str, list, dict, Items, nil, cons, Fields, end, field, get, put,
  remove,
}
use openclaw_hass_node.Policy.{refusal}
use openclaw_hass_node.Files.Lines.{Bytes}
use openclaw_hass_node.Exec.Schema.{invalid_param, validate_document}

-- `_DEFAULT_POLICY`
abbrev pub default_policy : Fields
default_policy = field "security" (str "deny") (
    field "ask" (str "on-miss")
      (field "askFallback" (str "deny") (field "autoAllowSkills" (bool false) end)))

-- `_default_document`
abbrev pub default_document : Fields
default_document =
    field "version" (int (pos 1))
      (field "defaults" (dict default_policy) (field "agents" (dict end) end))

-- `x if isinstance(x, dict) else {}`
abbrev pub dict_or_empty : Option Value → Fields
dict_or_empty (some (dict d)) = d
dict_or_empty _ = end

-- `value if isinstance(value, str) else None`
abbrev pub text_of : Option Value → Option String
text_of (some (str s)) = some s
text_of _ = none

-- `stored_str`, of the `socket` of a document
unfoldable pub socket_text : String → Fields → Option String
socket_text name document = text_of (get name (dict_or_empty (get "socket" document)))

-- `_redact_document`
abbrev pub put_path : Option String → Fields → Fields
put_path none document = remove "socket" document
put_path (some path) document =
    if not (strip path == "")
    then put "socket" (dict (field "path" (str (strip path)) end)) document
    else remove "socket" document

unfoldable pub redact_document : Fields → Fields
unfolding socket_text
redact_document document = put_path (socket_text "path" document) document

-- `pick_path` and `pick_token` of `_merge_socket`, on the incoming and the stored text
unfoldable pub pick_path : Option String → Option String → Option String
pick_path none stored = stored
pick_path (some incoming) none = some incoming
pick_path (some incoming) (some stored) =
    if incoming == strip stored then some stored else some incoming

unfoldable pub pick_token : Option String → Option String → Option String
pick_token none stored = stored
pick_token (some incoming) stored = some incoming

-- `{field: value for field, value in picked.items() if value is not None}`
abbrev pub add_text : String → Option String → Fields → Fields
add_text name none d = d
add_text name (some s) d = field name (str s) d

unfoldable pub picked_socket : Option String → Option String → Fields
picked_socket path token = add_text "path" path (add_text "token" token end)

abbrev pub put_socket : Fields → Fields → Fields
put_socket end document = remove "socket" document
put_socket (field k v d) document = put "socket" (dict (field k v d)) document

-- `_merge_socket`
unfoldable pub merge_socket : Fields → Fields → Fields
unfolding socket_text pick_path pick_token picked_socket
merge_socket document current =
    put_socket
      (picked_socket (pick_path (socket_text "path" document) (socket_text "path" current))
        (pick_token (socket_text "token" document) (socket_text "token" current)))
      document

-- What the path of the document holds: no file, a file that cannot be read, or bytes.
pub data File : Type 0 where
  missing : File
  unreadable : File
  content : Bytes → File

-- One round of `_approvals_write_lock`: the lock is held, the lock file was replaced, or a call of the
-- operating system failed.
pub data Attempt : Type 0 where
  held : Attempt
  replaced : Attempt
  failed : Attempt

-- `_LOCK_ACQUIRE_ATTEMPTS`
abbrev pub lock_acquire_attempts : ℕ
lock_acquire_attempts = 5

-- `_approvals_write_lock`: whether the body runs, under the outcomes of the rounds
unfoldable pub acquires : ℕ → List Attempt → Bool
acquires zero attempts = false
acquires (suc n) [] = false
acquires (suc n) (held ∷ attempts) = true
acquires (suc n) (replaced ∷ attempts) = acquires n attempts
acquires (suc n) (failed ∷ attempts) = false

-- What the operating system does for one call of the writer, and the text of its error: whether the
-- directory is there, the rounds of the lock, whether the temporary file is created, and whether it is
-- written and put in place. `reread` is what the read after that finds if it is not the file just put
-- in place: a file that cannot be read, or that something else removed or replaced.
pub record Disk : Type 0 where
  pub directory_made : Bool
  pub attempts : List Attempt
  pub file_created : Bool
  pub file_written : Bool
  pub reread : Option File
  pub reason : String

-- `json.loads(raw.decode("utf-8"))`: a value, an error that `_read_snapshot` catches (UnicodeDecodeError
-- or ValueError), or RecursionError, which it does not.
pub data Loads : Type 0 where
  parsed : Value → Loads
  value_error recursion_error : Loads

-- `loads` is `json.loads` of the decoded bytes; `serialize` is `_serialize_document`, and `none` where
-- `json.dumps` or `encode` raises an error that is no OSError; `sha256` is a digest in hexadecimal, and
-- `shown` prints a list of texts.
module _ (shown : List String → String) (loads : Bytes → Loads) (serialize : Fields → Option Bytes)
    (sha256 : Bytes → String) where
  -- `_MISSING_HASH`
  abbrev pub missing_hash : String
  missing_hash = "missing:" <> sha256 []

  -- The document of parsed content, if it passes the schema.
  abbrev pub accepted : Fields → Option Fields → Fields
  accepted document none = document
  accepted document (some error) = default_document

  abbrev pub document_of : Loads → Option Fields
  document_of (parsed (dict d)) = some (accepted d (validate_document shown (dict d)))
  document_of (parsed _) = some default_document
  document_of value_error = some default_document
  document_of recursion_error = none

  abbrev pub with_raw : Bytes → Option Fields → Option (Fields × Option Bytes)
  with_raw raw none = none
  with_raw raw (some document) = some (document, some raw)

  -- `_read_snapshot`: the document, and the raw bytes where the file could be read; `none` where an
  -- exception escapes.
  unfoldable pub read_snapshot : File → Option (Fields × Option Bytes)
  unfolding validate_document
  read_snapshot missing = some (default_document, none)
  read_snapshot unreadable = some (default_document, none)
  read_snapshot (content raw) = with_raw raw (document_of (loads raw))

  -- The `exists`, `hash` and `file` of `_snapshot`
  abbrev pub exists : Option Bytes → Bool
  exists none = false
  exists (some raw) = true

  abbrev pub hash_of : Option Bytes → String
  hash_of none = missing_hash
  hash_of (some raw) = sha256 raw

  abbrev pub shape : String → Option (Fields × Option Bytes) → Option Fields
  shape path none = none
  shape path (some (document, raw)) = some (
      field "path" (str path) (
        field "exists" (bool (exists raw))
          (field "hash" (str (hash_of raw)) (field "file" (dict (redact_document document)) end))))

  -- `_snapshot`, redacted, for the path `path`
  unfoldable pub snapshot : String → File → Option Fields
  unfolding read_snapshot redact_document
  snapshot path file = shape path (read_snapshot file)

  -- `handle_system_exec_approvals_get`
  unfoldable pub handle_system_exec_approvals_get : String → File → Option Fields
  unfolding snapshot
  handle_system_exec_approvals_get path file = snapshot path file

  -- `raw_base_hash.strip() if isinstance(raw_base_hash, str) else ""`
  abbrev pub base_hash_of : Option Value → String
  base_hash_of (some (str s)) = strip s
  base_hash_of _ = ""

  -- The comparison of the caller's base hash with the file under the lock
  unfoldable pub check_base : String → Option Bytes → Option Fields
  check_base base_hash none =
      if not (base_hash == "") && not (base_hash == missing_hash)
      then some (refusal "INVALID_REQUEST" "exec approvals changed; reload and retry")
      else none
  check_base base_hash (some raw) =
      if sha256 raw == ""
      then some (refusal "INVALID_REQUEST" "exec approvals base hash unavailable; reload and retry")
      else if base_hash == ""
      then some (refusal "INVALID_REQUEST" "exec approvals base hash required; reload and retry")
      else if not (base_hash == sha256 raw)
      then some (refusal "INVALID_REQUEST" "exec approvals changed; reload and retry")
      else none

  abbrev pub io_error : String → Fields
  io_error reason = refusal "IO_ERROR" ("Could not write approvals document: " <> reason)

  -- What the snapshot after `os.replace` reads.
  abbrev pub seen : Option File → File → File
  seen none new = new
  seen (some other) new = other

  -- The temporary file, once created, is written and put in place, and the reply is the snapshot.
  abbrev pub put_in_place : String → Disk → File → Option Bytes → File × Option Fields
  put_in_place path disk file none = (file, none)
  put_in_place path disk file (some new) =
      if Disk.file_written disk
      then (content new, snapshot path (seen (Disk.reread disk) (content new)))
      else (file, some (io_error (Disk.reason disk)))

  -- The body under the lock, after the comparison: `none` as the reply where an exception escapes.
  unfoldable pub replace :
      String → Disk → Fields → File → Fields → Option Fields → File × Option Fields
  unfolding snapshot merge_socket
  replace path disk document file current (some error) = (file, some error)
  replace path disk document file current none =
      if Disk.file_created disk
      then put_in_place path disk file (serialize (merge_socket document current))
      else (file, some (io_error (Disk.reason disk)))

  abbrev pub set_locked :
      String → Disk → String → File → Fields → Option (Fields × Option Bytes) → File × Option Fields
  set_locked path disk base_hash file document none = (file, none)
  set_locked path disk base_hash file document (some (current, raw)) =
      replace path disk document file current (check_base base_hash raw)

  abbrev pub set_checked :
      String → Disk → String → File → Fields → Option Fields → File × Option Fields
  set_checked path disk base_hash file document (some error) = (file, some error)
  set_checked path disk base_hash file document none =
      if not (Disk.directory_made disk)
      then (file, some (io_error (Disk.reason disk)))
      else if acquires lock_acquire_attempts (Disk.attempts disk)
      then set_locked path disk base_hash file document (read_snapshot file)
      else (file, some (io_error (Disk.reason disk)))

  abbrev pub set_document : String → Disk → String → File → Option Value → File × Option Fields
  set_document path disk base_hash file (some (dict document)) =
      set_checked path disk base_hash file document (validate_document shown (dict document))
  set_document path disk base_hash file _ =
      (file, some (refusal "INVALID_PARAM" "file must be an object"))

  -- `handle_system_exec_approvals_set`: the file afterwards, and the reply
  unfoldable pub handle_system_exec_approvals_set :
      String → Disk → Fields → File → File × Option Fields
  unfolding validate_document acquires check_base replace read_snapshot
  handle_system_exec_approvals_set path disk params file =
      set_document path disk (base_hash_of (get "baseHash" params)) file (get "file" params)
