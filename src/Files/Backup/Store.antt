-- ===== src/Files/Backup/Store.antt =====
-- backup_store.py: the lines of an index file, and the operations of the store.
use openclaw_hass_node.Prelude.{
  ℕ, ◌+◌, String, ◌<>◌, Bool, true, false, not, ◌&&◌, Option, none, some, List, [], ◌∷◌, ◌++◌, ◌==◌,
  if◌then◌else◌, eqb, ℤ, pos, length, keep, find_key, put_key,
}
use openclaw_hass_node.Value.{Value, null, int, str, dict, Fields, get}
use openclaw_hass_node.Authz.Turn.{truthy}
use openclaw_hass_node.Files.Lines.{Bytes}
use openclaw_hass_node.Files.Backup.{
  Side, position, digest, Op, corrupt_index_line, index_line_not_object, index_line_missing_field,
  object_not_present, object_evicted, no_versions_for_path, version_out_of_range, no_such_proposal,
  no_version_at_time, no_version_with_sha, selector_required, value_error, Outcome, returned,
  raised, and_then, or_raise, Version, validate_op, encode_path, payload, Selector, given, last,
  at_position,
}

-- `ts.replace("Z", "+00:00")`
unfoldable pub replace_z : String → String
replace_z String.[] = ""
replace_z (String.◌∷◌ c s) =
    let rest = replace_z s in if String.◌∷◌ c "" == "Z" then "+00:00" <> rest else String.◌∷◌ c rest

-- The objects by digest, and the lines of each index file by the path it is the index of. Every file
-- that the store writes ends with a newline, so a file is the list of its lines.
pub record Store (Line : Type 0) : Type 0 where
  pub objects : List (String × Bytes)
  pub index : List (List ℕ × List Line)

abbrev pub same_name : List ℕ → List ℕ → Bool
same_name [] [] = true
same_name [] (y ∷ ys) = false
same_name (x ∷ xs) [] = false
same_name (x ∷ xs) (y ∷ ys) = eqb x y && same_name xs ys

-- The lines of an index file, and `none` where there is no such file
unfoldable pub read_index {ℓ} : {A : Type ℓ} → List ℕ → List (List ℕ × A) → Option A
read_index name [] = none
read_index name ((other, lines) ∷ files) =
    let rest = read_index name files in if same_name other name then some lines else rest

unfoldable pub write_index {ℓ} : {A : Type ℓ} → List ℕ → A → List (List ℕ × A) → List (List ℕ × A)
write_index name lines [] = (name, lines) ∷ []
write_index name lines ((other, old) ∷ files) =
    let rest = write_index name lines files in
    if same_name other name then (other, lines) ∷ files else (other, old) ∷ rest

unfoldable pub unlink_index {ℓ} : {A : Type ℓ} → List ℕ → List (List ℕ × A) → List (List ℕ × A)
unlink_index name [] = []
unlink_index name ((other, old) ∷ files) =
    let rest = unlink_index name files in if same_name other name then rest else (other, old) ∷ rest

abbrev pub lines_or_empty {ℓ} : {A : Type ℓ} → Option (List A) → List A
lines_or_empty none = []
lines_or_empty (some lines) = lines

-- `printed` is `str` of a value that is no text, and `parsed_int` is `int` of one that is no integer
-- (`none` where it raises).
module _ (printed : Value → String) (parsed_int : Value → Option ℤ) where
  abbrev pub str_of : Value → String
  str_of (str s) = s
  str_of v = printed v

  abbrev pub int_of : Value → Outcome ℤ
  int_of (int n) = returned n
  int_of v = or_raise corrupt_index_line (parsed_int v)

  -- `data[name]`
  abbrev pub item : String → Fields → Outcome Value
  item name entry = or_raise (index_line_missing_field name) (get name entry)

  abbrev pub optional_str : Option Value → Option String
  optional_str none = none
  optional_str (some null) = none
  optional_str (some v) = some (str_of v)

  -- `from_json`, of the decoded line; the fields are read in the order of the constructor's arguments
  unfoldable pub version_of : Fields → Outcome Version
  unfolding validate_op
  version_of entry = and_then (item "ts" entry) λ t. and_then (item "proposal_id" entry) λ p.
      and_then (item "sha256" entry) λ h. and_then (item "size" entry) λ n.
        and_then (int_of n) λ count. and_then (item "op" entry) λ o.
          and_then (validate_op (str_of o)) λ kind. and_then (item "actor" entry) λ a.
            returned (record {
              ts = str_of t;
              proposal_id = str_of p;
              sha256 = str_of h;
              size = count;
              op = kind;
              actor = str_of a;
              prev_sha256 = optional_str (get "prev_sha256" entry);
              evicted = truthy (get "evicted" entry);
            })

  abbrev pub version_of_value : Option Value → Outcome Version
  version_of_value none = raised corrupt_index_line
  version_of_value (some (dict entry)) = version_of entry
  version_of_value (some v) = raised index_line_not_object

  -- `dumps` and `loads` are `json.dumps` and `json.loads` of one line (`none` where it raises), `sha256` is a
  -- digest in hexadecimal, and `not_after` compares two instants that `fromisoformat` reads.
  module _ (Line : Type 0) (dumps : Fields → Line) (loads : Line → Option Value)
      (sha256 : Bytes → String) (not_after : String → String → Option Bool) where
    -- `to_json` and `from_json`
    unfoldable pub to_json : Version → Line
    unfolding payload
    to_json v = dumps (payload v)

    unfoldable pub from_json : Line → Outcome Version
    unfolding version_of
    from_json line = version_of_value (loads line)

    -- `[Version.from_json(line) for line in handle]`
    unfoldable pub parse_lines : List Line → Outcome (List Version)
    unfolding from_json
    parse_lines [] = returned []
    parse_lines (line ∷ lines) =
        and_then (from_json line) λ v. and_then (parse_lines lines) λ vs. returned (v ∷ vs)

    -- `history`
    unfoldable pub history : Store Line → String → Outcome (List Version)
    unfolding parse_lines read_index encode_path
    history store path =
        and_then (encode_path path)
          λ name. parse_lines (lines_or_empty (read_index name (Store.index store)))

    -- `_last_sha`, where an error of the history is no version
    abbrev pub newest : Outcome (List Version) → Option Version
    newest (raised e) = none
    newest (returned versions) = last versions

    abbrev pub sha_of : Option Version → Option String
    sha_of none = none
    sha_of (some v) = some (Version.sha256 v)

    unfoldable pub last_sha : Store Line → String → Option String
    unfolding history last
    last_sha store path = sha_of (newest (history store path))

    -- The body of an object is written once.
    abbrev pub add_object :
        String → Bytes → List (String × Bytes) → Option Bytes → List (String × Bytes)
    add_object sha prior_bytes objects none = put_key sha prior_bytes objects
    add_object sha prior_bytes objects (some present) = objects

    -- `_atomic_append_line`
    abbrev pub append_line : List ℕ → Line → List (List ℕ × List Line) → List (List ℕ × List Line)
    append_line name line files =
        write_index name (lines_or_empty (read_index name files) ++ (line ∷ [])) files

    -- `capture`, at the time `now`: the object stays where the path has no index file.
    abbrev pub append_version :
        Store Line → Version → Outcome (List ℕ) → Store Line × Outcome Version
    append_version store v (raised e) = (store, raised e)
    append_version store v (returned name) = (
      record {
        objects = Store.objects store;
        index = append_line name (to_json v) (Store.index store);
      },
      returned v,
    )

    abbrev pub stored : Store Line → String → Bytes → Store Line
    stored store sha prior_bytes = record {
      objects =
          add_object sha prior_bytes (Store.objects store) (find_key sha (Store.objects store));
      index = Store.index store;
    }

    abbrev pub new_version : String → Store Line → String → Bytes → String → Op → String → Version
    new_version now store path prior_bytes proposal_id op actor = record {
      ts = now;
      proposal_id = proposal_id;
      sha256 = sha256 prior_bytes;
      size = pos (length prior_bytes);
      op = op;
      actor = actor;
      prev_sha256 = last_sha store path;
      evicted = false;
    }

    unfoldable pub capture :
        String → Store Line → String → Bytes → String → Op → String → Store Line × Outcome Version
    unfolding last_sha to_json write_index encode_path
    capture now store path prior_bytes proposal_id op actor =
        append_version (stored store (sha256 prior_bytes) prior_bytes)
          (new_version now store path prior_bytes proposal_id op actor) (encode_path path)

    -- `fetch_object`
    unfoldable pub fetch_object : Store Line → String → Outcome Bytes
    fetch_object store sha = or_raise (object_not_present sha) (find_key sha (Store.objects store))

    -- `next(v for v in versions if test(v))`
    abbrev pub first : (Version → Bool) → List Version → Option Version
    first test [] = none
    first test (v ∷ vs) = if test v then some v else first test vs

    -- `[v for v in versions if _parse_iso(v.ts) <= at_dt]`
    abbrev pub keep_if : Option Bool → Version → Outcome (List Version) → Outcome (List Version)
    keep_if none v rest = raised value_error
    keep_if (some b) v rest = and_then rest λ vs. returned (if b then v ∷ vs else vs)

    unfoldable pub up_to : String → List Version → Outcome (List Version)
    unfolding replace_z
    up_to at [] = returned []
    up_to at (v ∷ vs) =
        keep_if (not_after (replace_z (Version.ts v)) (replace_z at)) v (up_to at vs)

    -- The search of `resolve_version` in a history that is not empty
    unfoldable pub select : String → Selector → List Version → Outcome Version
    unfolding at_position last up_to
    select path selector versions = elim (Selector.version selector) [
      | some n ↦ or_raise (version_out_of_range n path) (at_position versions n)
      | none ↦ elim (Selector.proposal_id selector) [
        | some p ↦ or_raise (no_such_proposal p) (first (λ v. Version.proposal_id v == p) versions)
        | none ↦ elim (Selector.sha256 selector) [
          | some h ↦
              or_raise (no_version_with_sha h path)
                (last (keep (λ v. Version.sha256 v == h) versions))
          | none ↦ elim (Selector.at selector) [
            | none ↦ raised selector_required
            | some t ↦
                and_then (up_to t versions)
                  λ candidates. or_raise (no_version_at_time t path) (last candidates)
          ]
        ]
      ]
    ]

    abbrev pub select_some : String → Selector → List Version → Outcome Version
    select_some path selector [] = raised (no_versions_for_path path)
    select_some path selector (v ∷ vs) = select path selector (v ∷ vs)

    -- `resolve_version`
    unfoldable pub resolve_version : Store Line → String → Selector → Outcome Version
    unfolding history select
    resolve_version store path selector =
        if not (
          eqb
            (given (Selector.version selector)
              + given (Selector.proposal_id selector)
              + given (Selector.at selector)
              + given (Selector.sha256 selector))
            1)
        then raised selector_required
        else and_then (history store path) λ versions. select_some path selector versions

    -- `rename_history`
    abbrev pub moved : Store Line → List ℕ → List ℕ → List Line → Option (List Line) → Store Line
    moved store src dst lines none = record {
      objects = Store.objects store;
      index = write_index dst lines (unlink_index src (Store.index store));
    }
    moved store src dst lines (some present) = record {
      objects = Store.objects store;
      index = unlink_index src (write_index dst (lines ++ present) (Store.index store));
    }

    abbrev pub rename_lines :
        Store Line → List ℕ → Option (List Line) → Outcome (List ℕ) → Store Line × Outcome Bool
    rename_lines store src none dst = (store, returned false)
    rename_lines store src (some lines) (raised e) = (store, raised e)
    rename_lines store src (some lines) (returned dst) =
        (moved store src dst lines (read_index dst (Store.index store)), returned true)

    abbrev pub rename_from :
        Store Line → Outcome (List ℕ) → Outcome (List ℕ) → Store Line × Outcome Bool
    rename_from store (raised e) dst = (store, raised e)
    rename_from store (returned src) dst =
        rename_lines store src (read_index src (Store.index store)) dst

    unfoldable pub rename_history : Store Line → String → String → Store Line × Outcome Bool
    unfolding read_index write_index unlink_index encode_path
    rename_history store src dst = rename_from store (encode_path src) (encode_path dst)

    -- `_resolve_side`: the bytes and the timestamp that the label shows
    abbrev pub by_position : String → ℤ → Selector
    by_position path n = record { version = some n; proposal_id = none; at = none; sha256 = none }

    abbrev pub fetch_side : Store Line → String → Version → Outcome (Bytes × String)
    fetch_side store path v =
        if Version.evicted v
        then raised (object_evicted (Version.sha256 v) path)
        else and_then (fetch_object store (Version.sha256 v))
            λ bytes. returned (bytes, path <> "@" <> Version.ts v)

    unfoldable pub resolve_side : Store Line → String → Side → Outcome (Bytes × String)
    unfolding resolve_version history fetch_object last
    resolve_side store path (position n) =
        and_then (resolve_version store path (by_position path n)) λ v. fetch_side store path v
    resolve_side store path (digest h) = and_then (history store path) λ versions.
        and_then
          (or_raise (no_version_with_sha h path)
            (last (keep (λ v. Version.sha256 v == h) versions)))
          λ v. fetch_side store path v
