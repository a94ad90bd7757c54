-- ===== src/Exec/Schema.antt =====
-- exec_approvals.py: the closed schema of the policy document.
use openclaw_hass_node.Prelude.{
  ℕ, ◌+◌, ◌/◌, ◌%◌, ◌^◌, String, ◌<>◌, Bool, true, false, not, ◌&&◌, ◌||◌, Option, none, some, List,
  [], ◌∷◌, ◌++◌, ◌==◌, if◌then◌else◌, eqb, keep, contains, all_chars, sorted_set, pos, negsuc,
}
use openclaw_hass_node.Value.{
  Value, bool, int, float, str, list, dict, Items, nil, cons, Fields, end, field, get, keys,
  is_finite,
}
use openclaw_hass_node.Policy.{refusal}
use openclaw_hass_node.Policy.Canonical.{decimal}
use openclaw_hass_node.Exec.Argv.{is_js_whitespace}

abbrev pub invalid_param : String → Option Fields
invalid_param message = some (refusal "INVALID_PARAM" message)

-- `if error is not None: return error`, and the rest
infixr 30 ◌or_else◌
abbrev pub ◌or_else◌ : Option Fields → Option Fields → Option Fields
some error or_else rest = some error
none or_else rest = rest

abbrev pub check_that : Bool → String → Option Fields
check_that true message = none
check_that false message = invalid_param message

-- `_VALID_SECURITY`, `_VALID_ASK`, `_POLICY_FIELDS` and the fields of entries
abbrev pub valid_security : List String
valid_security = "deny" ∷ "allowlist" ∷ "full" ∷ []

abbrev pub valid_ask : List String
valid_ask = "off" ∷ "on-miss" ∷ "always" ∷ []

abbrev pub policy_fields : List String
policy_fields = "security" ∷ "ask" ∷ "askFallback" ∷ "autoAllowSkills" ∷ []

abbrev pub allowlist_entry_fields : List String
allowlist_entry_fields =
    "id" ∷ "pattern" ∷ "source" ∷ "commandText" ∷ "argPattern" ∷ "lastUsedAt" ∷ "lastUsedCommand"
    ∷ "lastResolvedPath" ∷ []

abbrev pub mcp_tool_fields : List String
mcp_tool_fields = "server" ∷ "tool" ∷ "source" ∷ "addedAt" ∷ "lastUsedAt" ∷ []

-- `_is_one_of`, of a value that may be missing: a missing one passes.
abbrev pub is_one_of : Option Value → List String → Bool
is_one_of none allowed = true
is_one_of (some (str s)) allowed = contains allowed s
is_one_of (some v) allowed = false

abbrev pub is_text : Option Value → Bool
is_text (some (str s)) = true
is_text _ = false

-- `entry.get(name) == text`
abbrev pub is_the_text : Option Value → String → Bool
is_the_text (some (str s)) text = s == text
is_the_text _ text = false

abbrev pub is_missing : Option Value → Bool
is_missing none = true
is_missing (some v) = false

-- `_validate_optional_string`
unfoldable pub validate_optional_string : String → Fields → String → Option Fields
validate_optional_string scope container name =
    check_that (is_missing (get name container) || is_text (get name container))
      (scope <> "." <> name <> " must be a string")

-- `_validate_min_length_string`
unfoldable pub validate_min_length_string : String → Option Value → Option Fields
validate_min_length_string scope (some (str s)) =
    check_that (not (s == "")) (scope <> " must be a non-empty string")
validate_min_length_string scope v = invalid_param (scope <> " must be a non-empty string")

-- `_validate_non_blank_string`
unfoldable pub validate_non_blank_string : String → Option Value → Option Fields
unfolding is_js_whitespace
validate_non_blank_string scope (some (str s)) =
    check_that (not (s == "")) (scope <> " must be a non-empty string")
    or_else check_that (not (all_chars is_js_whitespace s))
        (scope <> " must contain a non-whitespace character")
validate_non_blank_string scope v = invalid_param (scope <> " must be a non-empty string")

-- `value < 0` for a double that is no NaN
abbrev pub is_negative_double : ℕ → Bool
is_negative_double bits = eqb ((bits / 2 ^ 63) % 2) 1 && not (eqb (bits % 2 ^ 63) 0)

-- `_validate_timestamp`
unfoldable pub validate_timestamp : String → Fields → String → Bool → Option Fields
validate_timestamp scope container name required = elim (get name container) [
  | none ↦ check_that (not required) (scope <> "." <> name <> " is required")
  | some v ↦ elim v [
    | int n ↦ elim n [
      | pos k ↦ none
      | negsuc k ↦ invalid_param (scope <> "." <> name <> " must be greater than or equal to 0")
    ]
    | float bits ↦
        check_that (is_finite bits) (scope <> "." <> name <> " must be a finite number")
        or_else check_that (not (is_negative_double bits))
            (scope <> "." <> name <> " must be greater than or equal to 0")
    | other ↦ invalid_param (scope <> "." <> name <> " must be a number")
  ]
]

-- `set(entry) - allowed`
abbrev pub unknown_keys : Fields → List String → List String
unknown_keys d allowed = keep (λ k. not (contains allowed k)) (keys d)

abbrev pub is_empty : List String → Bool
is_empty [] = true
is_empty (x ∷ xs) = false

-- `shown` prints a list of texts, as an f-string does.
module _ (shown : List String → String) where
  abbrev pub check_known : String → Fields → List String → Option Fields
  check_known scope d allowed =
      check_that (is_empty (unknown_keys d allowed))
        (scope <> " contains unknown fields: " <> shown (sorted_set (unknown_keys d allowed)))

  -- `_validate_allowlist_entry`
  unfoldable pub validate_allowlist_entry : String → Value → Option Fields
  unfolding validate_optional_string validate_min_length_string validate_timestamp
  validate_allowlist_entry scope (dict d) =
      check_known scope d allowlist_entry_fields
      or_else check_that (is_text (get "pattern" d)) (scope <> ".pattern must be a string")
      or_else (if is_missing (get "id" d)
          then none
          else validate_min_length_string (scope <> ".id") (get "id" d))
      or_else check_that
          (is_missing (get "source" d) || is_the_text (get "source" d) "allow-always")
          (scope <> ".source must be 'allow-always'")
      or_else validate_optional_string scope d "commandText"
      or_else validate_optional_string scope d "argPattern"
      or_else validate_optional_string scope d "lastUsedCommand"
      or_else validate_optional_string scope d "lastResolvedPath"
      or_else validate_timestamp scope d "lastUsedAt" false
  validate_allowlist_entry scope v = invalid_param (scope <> " must be an object")

  -- `_validate_mcp_tool`
  unfoldable pub validate_mcp_tool : String → Value → Option Fields
  unfolding validate_non_blank_string validate_timestamp
  validate_mcp_tool scope (dict d) =
      check_known scope d mcp_tool_fields
      or_else validate_non_blank_string (scope <> ".server") (get "server" d)
      or_else validate_non_blank_string (scope <> ".tool") (get "tool" d)
      or_else check_that (is_the_text (get "source" d) "allow-always")
          (scope <> ".source must be 'allow-always'")
      or_else validate_timestamp scope d "addedAt" true
      or_else validate_timestamp scope d "lastUsedAt" false
  validate_mcp_tool scope v = invalid_param (scope <> " must be an object")

  -- `for index, entry in enumerate(entries)`
  unfoldable pub validate_entries :
      (String → Value → Option Fields) → String → ℕ → Items → Option Fields
  validate_entries check scope index nil = none
  validate_entries check scope index (cons v vs) =
      check (scope <> "[" <> decimal index <> "]") v
      or_else validate_entries check scope (index + 1) vs

  abbrev pub validate_list :
      (String → Value → Option Fields) → String → Option Value → Option Fields
  validate_list check scope none = none
  validate_list check scope (some (list vs)) = validate_entries check scope 0 vs
  validate_list check scope (some v) = invalid_param (scope <> " must be a list")

  abbrev pub is_bool : Option Value → Bool
  is_bool none = true
  is_bool (some (bool b)) = true
  is_bool (some v) = false

  -- `_validate_policy`
  unfoldable pub validate_policy : String → Fields → Bool → Option Fields
  unfolding validate_allowlist_entry validate_mcp_tool validate_entries
  validate_policy scope policy allow_allowlist =
      check_known scope policy
        (policy_fields ++ (if allow_allowlist then "allowlist" ∷ "mcpTools" ∷ [] else []))
      or_else check_that (is_one_of (get "security" policy) valid_security)
          (scope <> ".security must be one of " <> shown (sorted_set valid_security))
      or_else check_that (is_one_of (get "ask" policy) valid_ask)
          (scope <> ".ask must be one of " <> shown (sorted_set valid_ask))
      or_else check_that (is_one_of (get "askFallback" policy) valid_security)
          (scope <> ".askFallback must be one of " <> shown (sorted_set valid_security))
      or_else check_that (is_bool (get "autoAllowSkills" policy))
          (scope <> ".autoAllowSkills must be boolean")
      or_else validate_list validate_allowlist_entry (scope <> ".allowlist")
          (get "allowlist" policy)
      or_else validate_list validate_mcp_tool (scope <> ".mcpTools") (get "mcpTools" policy)

  -- `for agent_id, policy in agents.items()`
  unfoldable pub validate_agents : Fields → Option Fields
  unfolding validate_policy
  validate_agents end = none
  validate_agents (field agent_id (dict policy) agents) =
      validate_policy ("file.agents." <> agent_id) policy true or_else validate_agents agents
  validate_agents (field agent_id v agents) =
      invalid_param "file.agents entries must be policy objects"

  -- `version == 1`, and no boolean
  abbrev pub is_version_one : Option Value → Bool
  is_version_one (some (int (pos n))) = eqb n 1
  is_version_one (some (float bits)) = eqb bits 0x3ff0_0000_0000_0000
  is_version_one _ = false

  unfoldable pub all_texts : Fields → Bool
  all_texts end = true
  all_texts (field k v d) = is_text (some v) && all_texts d

  unfoldable pub validate_socket : Option Value → Option Fields
  unfolding all_texts
  validate_socket none = none
  validate_socket (some (dict socket)) =
      check_that (is_empty (unknown_keys socket ("path" ∷ "token" ∷ []))) "file.socket is invalid"
      or_else check_that (all_texts socket) "file.socket values must be strings"
  validate_socket (some v) = invalid_param "file.socket is invalid"

  abbrev pub validate_defaults : Option Value → Option Fields
  validate_defaults none = none
  validate_defaults (some (dict defaults)) = validate_policy "file.defaults" defaults false
  validate_defaults (some v) = invalid_param "file.defaults must be an object"

  abbrev pub validate_all_agents : Option Value → Option Fields
  validate_all_agents none = none
  validate_all_agents (some (dict agents)) = validate_agents agents
  validate_all_agents (some v) = invalid_param "file.agents must be an object"

  abbrev pub document_fields : List String
  document_fields = "version" ∷ "socket" ∷ "defaults" ∷ "agents" ∷ []

  -- `_validate_document`
  unfoldable pub validate_document : Value → Option Fields
  unfolding validate_policy validate_agents validate_socket
  validate_document (dict d) =
      check_that (is_empty (unknown_keys d document_fields)) "file contains unknown fields"
      or_else check_that (is_version_one (get "version" d)) "file.version must be 1"
      or_else validate_socket (get "socket" d)
      or_else validate_defaults (get "defaults" d)
      or_else validate_all_agents (get "agents" d)
  validate_document v = invalid_param "file must be an object"
