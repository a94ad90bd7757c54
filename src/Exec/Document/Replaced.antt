-- ===== src/Exec/Document/Replaced.antt =====
-- exec_approvals.py: when the stored document is replaced, and by what; and that what is read of it
-- always passes the schema.
use openclaw_hass_node.Prelude.{
  String, ◌≡◌, refl, ◌∙◌, ap, Bool, true, false, not, Option, none, some, List, ◌==◌, eq_iff,
  if◌then◌else◌, arith, Bool-cases, Option-cases, ◌⊎◌, inl, inr,
}
use openclaw_hass_node.Value.{Value, null, bool, int, float, str, list, dict, Fields, get, keys}
use openclaw_hass_node.Files.Lines.{Bytes}
use openclaw_hass_node.Exec.Schema.{validate_document}
use openclaw_hass_node.Exec.Document.{
  default_document, accepted, document_of, File, missing, unreadable, content, Disk, acquires,
  lock_acquire_attempts, merge_socket, Loads, parsed, value_error, recursion_error, with_raw, seen,
  put_in_place, set_locked, missing_hash, read_snapshot, snapshot, base_hash_of, check_base,
  replace, set_checked, set_document, handle_system_exec_approvals_set,
}

module _ (shown : List String → String) (loads : Bytes → Loads) (serialize : Fields → Option Bytes)
    (sha256 : Bytes → String) where
  default_document-IsValid : validate_document shown (dict default_document) ≡ none
  unfolding validate_document get keys
  default_document-IsValid = refl

  accepted-IsValid :
      (d : Fields)
      → validate_document shown
          (dict (accepted shown loads serialize sha256 d (validate_document shown (dict d))))
        ≡ none
  accepted-IsValid d = elim (Option-cases (validate_document shown (dict d))) [
    | inl e ↦
        ap (λ o. validate_document shown (dict (accepted shown loads serialize sha256 d o))) e ∙ e
    | inr (error, e) ↦
        ap (λ o. validate_document shown (dict (accepted shown loads serialize sha256 d o))) e
        ∙ default_document-IsValid
  ]

  -- A document that passes the schema, if there is one.
  abbrev pub IsValidRead : Option (Fields × Option Bytes) → Type 0
  IsValidRead none = true ≡ true
  IsValidRead (some (document, raw)) = validate_document shown (dict document) ≡ none

  with_raw-IsValid :
      (raw : Bytes) (l : Loads)
      → IsValidRead
          (with_raw shown loads serialize sha256 raw (document_of shown loads serialize sha256 l))
  with_raw-IsValid raw value_error = default_document-IsValid
  with_raw-IsValid raw recursion_error = refl
  with_raw-IsValid raw (parsed (dict d)) = accepted-IsValid d
  with_raw-IsValid raw (parsed null) = default_document-IsValid
  with_raw-IsValid raw (parsed (bool b)) = default_document-IsValid
  with_raw-IsValid raw (parsed (int n)) = default_document-IsValid
  with_raw-IsValid raw (parsed (float n)) = default_document-IsValid
  with_raw-IsValid raw (parsed (str t)) = default_document-IsValid
  with_raw-IsValid raw (parsed (list vs)) = default_document-IsValid

  -- The document that a snapshot is read with passes the schema, whatever the file holds: no file, one
  -- that cannot be read, bytes that do not parse, or a value the schema refuses.
  pub read_snapshot-IsValid :
      (file : File) → IsValidRead (read_snapshot shown loads serialize sha256 file)
  unfolding read_snapshot
  read_snapshot-IsValid missing = default_document-IsValid
  read_snapshot-IsValid unreadable = default_document-IsValid
  read_snapshot-IsValid (content raw) = with_raw-IsValid raw (loads raw)

  -- The base hash of a call is that of the file.
  abbrev pub BaseMatches : String → Option Bytes → Type 0
  BaseMatches base_hash none =
      (base_hash ≡ "") ⊎ (base_hash ≡ missing_hash shown loads serialize sha256)
  BaseMatches base_hash (some raw) = base_hash ≡ sha256 raw

  check_base-BaseMatches :
      (base_hash : String) (raw : Option Bytes)
      → check_base shown loads serialize sha256 base_hash raw ≡ none
      → BaseMatches base_hash raw
  unfolding check_base
  check_base-BaseMatches base_hash none h = elim (Bool-cases (base_hash == "")) [
    | inl e ↦ inl (ground (arith, eq_iff base_hash ""))
    | inr e ↦ elim (Bool-cases (base_hash == missing_hash shown loads serialize sha256)) [
      | inl f ↦ inr (ground (arith, eq_iff base_hash (missing_hash shown loads serialize sha256)))
      | inr f ↦ ground arith
    ]
  ]
  check_base-BaseMatches base_hash (some raw) h = ground (arith, eq_iff base_hash (sha256 raw))

  -- The file was replaced by the merge of a document with the stored socket, and the reply is the
  -- snapshot of what the read after that finds.
  abbrev pub IsMerged : String → Disk → Fields → Fields → File × Option Fields → Type 0
  IsMerged path disk document current result =
      (new : Bytes) × (serialize (merge_socket document current) ≡ some new)
      × (result.0 ≡ content new)
      × (result.1
          ≡ snapshot shown loads serialize sha256 path
              (seen shown loads serialize sha256 (Disk.reread disk) (content new)))

  abbrev pub IsReplaced : String → Disk → Fields → File → File × Option Fields → Type 0
  IsReplaced path disk params file result =
      (document : Fields) × (current : Fields) × (raw : Option Bytes) × (get "file" params
        ≡ some (dict document))
      × (validate_document shown (dict document) ≡ none)
      × (read_snapshot shown loads serialize sha256 file ≡ some (current, raw))
      × BaseMatches (base_hash_of shown loads serialize sha256 (get "baseHash" params)) raw
      × IsMerged path disk document current result

  -- The file that the guards before leave, or what comes after them.
  guard-cases :
      (b : Bool) (file : File) (error result : File × Option Fields)
      (P : File × Option Fields → Type 0)
      → error.0 ≡ file
      → (result.0 ≡ file) ⊎ P result
      → ((if b then result else error).0 ≡ file) ⊎ P (if b then result else error)
  guard-cases true file error result P e r = r
  guard-cases false file error result P e r = inl e

  put_in_place-cases :
      (path : String) (disk : Disk) (document current : Fields) (file : File) (bytes : Option Bytes)
      → serialize (merge_socket document current) ≡ bytes
      → let result = put_in_place shown loads serialize sha256 path disk file bytes in
        (result.0 ≡ file) ⊎ IsMerged path disk document current result
  put_in_place-cases path disk document current file none e = inl refl
  put_in_place-cases path disk document current file (some new) e =
      guard-cases (Disk.file_written disk) file _ _ (IsMerged path disk document current) refl
        (inr (new, e, refl, refl))

  replace-cases :
      (path : String) (disk : Disk) (document : Fields) (file : File) (current : Fields)
      (error : Option Fields)
      → let result = replace shown loads serialize sha256 path disk document file current error in
        (result.0 ≡ file) ⊎ ((error ≡ none) × IsMerged path disk document current result)
  unfolding replace
  replace-cases path disk document file current (some error) = inl refl
  replace-cases path disk document file current none =
      guard-cases (Disk.file_created disk) file _ _
        (λ result. (◌≡◌ {A = Option Fields} none none) × IsMerged path disk document current result)
        refl
        (elim (put_in_place-cases path disk document current file _ refl) [
          | inl e ↦ inl e
          | inr m ↦ inr (refl, m)
        ])

  abbrev IsCommitted : String → Disk → String → File → Fields → File × Option Fields → Type 0
  IsCommitted path disk base_hash file document result =
      (current : Fields) × (raw : Option Bytes) × (read_snapshot shown loads serialize sha256 file
        ≡ some (current, raw))
      × BaseMatches base_hash raw
      × IsMerged path disk document current result

  set_locked-cases :
      (path : String) (disk : Disk) (base_hash : String) (file : File) (document : Fields)
      (read : Option (Fields × Option Bytes))
      → read_snapshot shown loads serialize sha256 file ≡ read
      → let result =
          set_locked shown loads serialize sha256 path disk base_hash file document read in
        (result.0 ≡ file) ⊎ IsCommitted path disk base_hash file document result
  set_locked-cases path disk base_hash file document none e = inl refl
  set_locked-cases path disk base_hash file document (some (current, raw)) e =
      elim (replace-cases path disk document file current
        (check_base shown loads serialize sha256 base_hash raw)) [
          | inl same ↦ inl same
          | inr (passed, m) ↦ inr (current, raw, e, check_base-BaseMatches base_hash raw passed, m)
        ]

  -- The guards before the lock leave the file.
  guarded-cases :
      (a b : Bool) (file : File) (error : Option Fields) (result : File × Option Fields)
      (P : File × Option Fields → Type 0)
      → (result.0 ≡ file) ⊎ P result
      → let guarded : File × Option Fields =
          if not a then (file, error) else if b then result else (file, error) in
        (guarded.0 ≡ file) ⊎ P guarded
  guarded-cases false b file error result P r = inl refl
  guarded-cases true false file error result P r = inl refl
  guarded-cases true true file error result P r = r

  set_checked-cases :
      (path : String) (disk : Disk) (base_hash : String) (file : File) (document : Fields)
      (error : Option Fields)
      → let result =
          set_checked shown loads serialize sha256 path disk base_hash file document error in
        (result.0 ≡ file) ⊎ ((error ≡ none) × IsCommitted path disk base_hash file document result)
  set_checked-cases path disk base_hash file document (some error) = inl refl
  set_checked-cases path disk base_hash file document none =
      guarded-cases (Disk.directory_made disk) (acquires lock_acquire_attempts (Disk.attempts disk))
        file _ _
        (λ result.
          (◌≡◌ {A = Option Fields} none none)
          × IsCommitted path disk base_hash file document result)
        (elim (set_locked-cases path disk base_hash file document _ refl) [
          | inl e ↦ inl e
          | inr c ↦ inr (refl, c)
        ])

  set_document-cases :
      (path : String) (disk : Disk) (base_hash : String) (file : File) (v : Option Value)
      → let result = set_document shown loads serialize sha256 path disk base_hash file v in
        (result.0 ≡ file)
        ⊎ ((document : Fields) × (v ≡ some (dict document))
            × (validate_document shown (dict document) ≡ none)
            × IsCommitted path disk base_hash file document result)
  set_document-cases path disk base_hash file (some (dict d)) =
      elim (set_checked-cases path disk base_hash file d (validate_document shown (dict d))) [
        | inl e ↦ inl e
        | inr (e, c) ↦ inr (d, refl, e, c)
      ]
  set_document-cases path disk base_hash file none = inl refl
  set_document-cases path disk base_hash file (some null) = inl refl
  set_document-cases path disk base_hash file (some (bool b)) = inl refl
  set_document-cases path disk base_hash file (some (int n)) = inl refl
  set_document-cases path disk base_hash file (some (float n)) = inl refl
  set_document-cases path disk base_hash file (some (str t)) = inl refl
  set_document-cases path disk base_hash file (some (list vs)) = inl refl

  -- A call of the writer, under any outcome of the operating system and whether it returns or raises,
  -- leaves the file as it is, or it puts in place the serialized merge of the caller's document with the
  -- stored socket; then the document passes the schema, the caller's base hash was that of the file
  -- replaced (where no file was read: it was blank, or the hash of a missing file), and the reply is the
  -- snapshot of what the read after that finds, be it the file put in place or not.
  pub handle_system_exec_approvals_set-cases :
      (path : String) (disk : Disk) (params : Fields) (file : File)
      → let result =
          handle_system_exec_approvals_set shown loads serialize sha256 path disk params file in
        (result.0 ≡ file) ⊎ IsReplaced path disk params file result
  unfolding handle_system_exec_approvals_set
  handle_system_exec_approvals_set-cases path disk params file =
      elim (set_document-cases path disk
        (base_hash_of shown loads serialize sha256 (get "baseHash" params)) file
        (get "file" params)) [
          | inl e ↦ inl e
          | inr (document, sent, checked, (current, raw, read, base, merged)) ↦
              inr (document, current, raw, sent, checked, read, base, merged)
        ]
