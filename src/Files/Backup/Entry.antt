-- ===== src/Files/Backup/Entry.antt =====
-- backup_store.py: a version that is written to an index file is read back.
use openclaw_hass_node.Prelude.{String, ◌≡◌, refl, ◌∙◌, Bool, true, false, Option, none, some, ℤ}
use openclaw_hass_node.Value.{Value, dict, Fields, get}
use openclaw_hass_node.Authz.Turn.{truthy}
use openclaw_hass_node.Files.Lines.{Bytes}
use openclaw_hass_node.Files.Backup.{
  Op, write, delete, move_src, move_dst, restore, patch, op_text, returned, Version, validate_op,
  text_value, evicted_field, payload,
}
use openclaw_hass_node.Files.Backup.Store.{version_of, optional_str, to_json, from_json}

validate_op-op_text : (o : Op) → validate_op (op_text o) ≡ returned o
unfolding validate_op op_text
validate_op-op_text write = refl
validate_op-op_text delete = refl
validate_op-op_text move_src = refl
validate_op-op_text move_dst = refl
validate_op-op_text restore = refl
validate_op-op_text patch = refl

module _ (printed : Value → String) (parsed_int : Value → Option ℤ) (Line : Type 0)
    (dumps : Fields → Line) (loads : Line → Option Value) (sha256 : Bytes → String)
    (not_after : String → String → Option Bool) where
  -- `json.loads` reads what `json.dumps` writes for a version, whatever the order of the keys.
  abbrev pub ReadsBack : Type 0
  ReadsBack =
      (v : Version)
      → (entry : Fields) × (loads (dumps (payload v)) ≡ some (dict entry))
        × ((k : String) → get k entry ≡ get k (payload v))

  version_of_cong :
      (d e : Fields)
      → ((k : String) → get k e ≡ get k d)
      → version_of printed parsed_int e ≡ version_of printed parsed_int d
  unfolding version_of
  version_of_cong d e g =
      rw
        (
          g "ts",
          g "proposal_id",
          g "sha256",
          g "size",
          g "op",
          g "actor",
          g "prev_sha256",
          g "evicted",
        )
        refl

  optional_str-text_value :
      (o : Option String) → optional_str printed parsed_int (some (text_value o)) ≡ o
  optional_str-text_value none = refl
  optional_str-text_value (some s) = refl

  evicted-payload : (b : Bool) → truthy (get "evicted" (evicted_field b)) ≡ b
  unfolding truthy get
  evicted-payload true = refl
  evicted-payload false = refl

  version_of-payload : (v : Version) → version_of printed parsed_int (payload v) ≡ returned v
  unfolding version_of payload get
  version_of-payload v =
      rw
        (validate_op-op_text v.op, optional_str-text_value v.prev_sha256, evicted-payload v.evicted)
        refl

  pub from_json-to_json :
      ReadsBack
      → (v : Version)
      → from_json printed parsed_int Line dumps loads sha256 not_after
          (to_json printed parsed_int Line dumps loads sha256 not_after v)
        ≡ returned v
  unfolding from_json to_json
  from_json-to_json reads v =
      let (e, l, g) = reads v in rw (l) (version_of_cong (payload v) e g ∙ version_of-payload v)
