-- ===== src/Exec/Prepare.antt =====
-- exec_approvals.py: the policy that applies to an agent, and the plan that `system.run.prepare` binds
-- an approval to.
use openclaw_hass_node.Prelude.{
  String, Bool, true, false, not, ◌&&◌, ◌||◌, Option, none, some, List, [], ◌∷◌, ◌++◌, ◌==◌, ◌<>◌,
  if◌then◌else◌, eqb, ltb, strip, any,
}
use openclaw_hass_node.Value.{
  Value, null, bool, str, list, dict, Items, nil, cons, Fields, end, field, get,
}
use openclaw_hass_node.Policy.{refusal}
use openclaw_hass_node.Files.Lines.{Bytes, codes, utf8, bytes_eq}
use openclaw_hass_node.Exec.Argv.{
  Checked, valid, refused, validate_argv, validate_env, resolve_command_text,
}
use openclaw_hass_node.Exec.Document.{
  default_policy, dict_or_empty, text_of, File, Loads, read_snapshot,
}

-- `rule` of `_resolve_policy`
pub record Rule : Type 0 where
  pub pattern : String
  pub arg_pattern : Option String
  pub allow_always : Bool

-- `a < b`, of bytes
unfoldable pub bytes_lt : Bytes → Bytes → Bool
bytes_lt xs [] = false
bytes_lt [] (y ∷ ys) = true
bytes_lt (x ∷ xs) (y ∷ ys) = let rest = bytes_lt xs ys in ltb x y || (eqb x y && rest)

abbrev pub encoded : String → Bytes
encoded s = utf8 (codes s)

-- `item.get(name) or ""`
abbrev pub text_or_empty : Option String → String
text_or_empty none = ""
text_or_empty (some s) = s

abbrev pub source_text : Bool → String
source_text allow_always = if allow_always then "allow-always" else ""

-- `key(a) < key(b)`, of the triples that the rules are sorted by
unfoldable pub rule_lt : Rule → Rule → Bool
unfolding bytes_lt bytes_eq utf8 codes
rule_lt a b =
    let p = encoded (Rule.pattern a) in
    let q = encoded (Rule.pattern b) in
    let r = encoded (text_or_empty (Rule.arg_pattern a)) in
    let s = encoded (text_or_empty (Rule.arg_pattern b)) in
    let t = encoded (source_text (Rule.allow_always a)) in
    let u = encoded (source_text (Rule.allow_always b)) in
    bytes_lt p q || (bytes_eq p q && (bytes_lt r s || (bytes_eq r s && bytes_lt t u)))

-- `rules.sort(key=...)`, a stable sort
unfoldable pub insert_rule : Rule → List Rule → List Rule
unfolding rule_lt
insert_rule rule [] = rule ∷ []
insert_rule rule (x ∷ xs) =
    let rest = insert_rule rule xs in if rule_lt x rule then x ∷ rest else rule ∷ x ∷ xs

unfoldable pub sort_rules : List Rule → List Rule
unfolding insert_rule
sort_rules [] = []
sort_rules (rule ∷ rules) = insert_rule rule (sort_rules rules)

-- `key in seen`
abbrev pub same_text : Option String → Option String → Bool
same_text none none = true
same_text none (some t) = false
same_text (some s) none = false
same_text (some s) (some t) = s == t

abbrev pub same_flag : Bool → Bool → Bool
same_flag true b = b
same_flag false b = not b

abbrev pub same_rule : Rule → Rule → Bool
same_rule a b =
    (Rule.pattern a == Rule.pattern b)
    && same_text (Rule.arg_pattern a) (Rule.arg_pattern b)
    && same_flag (Rule.allow_always a) (Rule.allow_always b)

-- `entry.get("source") == "allow-always"`
abbrev pub is_allow_always : Option String → Bool
is_allow_always none = false
is_allow_always (some s) = s == "allow-always"

-- The rule of an entry; an entry without a pattern is skipped.
abbrev pub rule_with : Option String → Fields → Option Rule
rule_with none entry = none
rule_with (some text) entry = some (record {
  pattern = text;
  arg_pattern = text_of (get "argPattern" entry);
  allow_always = is_allow_always (text_of (get "source" entry));
})

unfoldable pub rule_of : Value → Option Rule
rule_of (dict entry) = rule_with (text_of (get "pattern" entry)) entry
rule_of v = none

abbrev pub add_rule : Option Rule → List Rule → List Rule
add_rule none rules = rules
add_rule (some rule) rules = if any (same_rule rule) rules then rules else rules ++ (rule ∷ [])

-- `for entry in entries`
unfoldable pub add_rules : Items → List Rule → List Rule
unfolding rule_of
add_rules nil rules = rules
add_rules (cons entry entries) rules = add_rules entries (add_rule (rule_of entry) rules)

abbrev pub items_or_empty : Option Value → Items
items_or_empty (some (list vs)) = vs
items_or_empty _ = nil

abbrev pub allow_always_field : Bool → Fields
allow_always_field true = field "source" (str "allow-always") end
allow_always_field false = end

abbrev pub rule_tail : Option String → Bool → Fields
rule_tail none allow_always = allow_always_field allow_always
rule_tail (some s) allow_always = field "argPattern" (str s) (allow_always_field allow_always)

unfoldable pub rule_items : List Rule → Items
rule_items [] = nil
rule_items (rule ∷ rules) =
    cons
      (dict (
        field "pattern" (str (Rule.pattern rule))
          (rule_tail (Rule.arg_pattern rule) (Rule.allow_always rule))))
      (rule_items rules)

-- `x.get(name, default)`
abbrev pub or_value : Option Value → Value → Value
or_value none v = v
or_value (some w) v = w

-- `agents.get(agent_id) if agent_id else None`
abbrev pub agent_policy : Option String → Fields → Fields
agent_policy none agents = end
agent_policy (some agent_id) agents =
    if agent_id == "" then end else dict_or_empty (get agent_id agents)

-- `field` of `_resolve_policy`
abbrev pub resolved_field : Fields → Fields → Fields → String → Value
resolved_field exact wildcard defaults name = or_value (get name exact) (
    or_value (get name wildcard)
      (or_value (get name defaults) (or_value (get name default_policy) null)))

-- `_resolve_policy`
unfoldable pub resolve_policy : Fields → Option String → Fields
unfolding add_rules sort_rules rule_items
resolve_policy document agent_id =
    let defaults = dict_or_empty (get "defaults" document) in
    let agents = dict_or_empty (get "agents" document) in
    let wildcard = dict_or_empty (get "*" agents) in
    let exact = agent_policy agent_id agents in
    let rules =
      add_rules (items_or_empty (get "allowlist" exact))
        (add_rules (items_or_empty (get "allowlist" wildcard)) []) in
    field "security" (resolved_field exact wildcard defaults "security") (
      field "ask" (resolved_field exact wildcard defaults "ask") (
        field "askFallback" (resolved_field exact wildcard defaults "askFallback") (
          field "autoAllowSkills" (resolved_field exact wildcard defaults "autoAllowSkills")
            (field "allowlistRules" (list (rule_items (sort_rules rules))) end))))

-- What `resolve_safe` and `is_dir` make of a proposed working directory.
pub data Resolution : Type 0 where
  directory : String → Resolution
  not_a_directory : String → Resolution
  no_allowed_roots : Resolution
  out_of_bounds : Resolution

-- `isinstance(x, str) and x.strip()`, where a missing text and `None` pass
abbrev pub is_filled : Option Value → Bool
is_filled none = true
is_filled (some null) = true
is_filled (some (str s)) = not (strip s == "")
is_filled (some v) = false

abbrev pub text_value : Option String → Value
text_value none = null
text_value (some s) = str s

unfoldable pub text_items : List String → Items
text_items [] = nil
text_items (s ∷ ss) = cons (str s) (text_items ss)

abbrev pub invalid_param : String → Fields
invalid_param = refusal "INVALID_PARAM"

-- `resolve` stands for `resolve_safe` and `is_dir`, `quoted` for `repr`; the others are the parameters of
-- `read_snapshot`.
module _ (resolve : String → Resolution) (quoted : String → String) (shown : List String → String)
    (loads : Bytes → Loads) (serialize : Fields → Option Bytes) (sha256 : Bytes → String) where
  -- `_validate_cwd`
  abbrev pub checked_cwd : String → Resolution → Checked (Option String)
  checked_cwd cwd (directory path) = valid (some path)
  checked_cwd cwd (not_a_directory path) =
      refused (invalid_param ("cwd is not a directory: " <> quoted cwd))
  checked_cwd cwd no_allowed_roots =
      refused (refusal "NO_ALLOWED_ROOTS" "No filesystem roots configured")
  checked_cwd cwd out_of_bounds =
      refused (refusal "PATH_NOT_ALLOWED" ("cwd is outside the allowed roots: " <> quoted cwd))

  unfoldable pub validate_cwd : Option Value → Checked (Option String)
  validate_cwd none = valid none
  validate_cwd (some null) = valid none
  validate_cwd (some (str s)) =
      if strip s == ""
      then refused (invalid_param "cwd must be a non-empty string")
      else checked_cwd s (resolve s)
  validate_cwd (some v) = refused (invalid_param "cwd must be a non-empty string")

  abbrev pub plan_reply :
      List String → String → Option String → Option String → Fields → Fields → Fields
  plan_reply argv text preview cwd params policy =
      field "plan"
        (dict (
          field "argv" (list (text_items argv)) (
            field "cwd" (text_value cwd) (
              field "commandText" (str text) (
                field "commandPreview" (text_value preview) (
                  field "agentId" (or_value (get "agentId" params) null) (
                    field "sessionKey" (or_value (get "sessionKey" params) null)
                      (field "policySnapshot" (dict policy) end))))))))
        (field "execPolicy"
          (dict (
            field "security" (or_value (get "security" policy) null)
              (field "ask" (or_value (get "ask" policy) null) end)))
          (field "allowAlwaysCoverage"
            (dict (field "complete" (bool false) (field "patterns" (list nil) end))) end))

  -- The reply, or `none` where an exception escapes the read of the stored document.
  abbrev pub planned :
      List String
      → String
      → Option String
      → Option String
      → Fields
      → Option (Fields × Option Bytes)
      → Option Fields
  planned argv text preview cwd params none = none
  planned argv text preview cwd params (some (document, raw)) = some (
      plan_reply argv text preview cwd params
        (resolve_policy document (text_of (get "agentId" params))))

  -- The checks after the working directory's
  abbrev pub prepare_named :
      List String → String → Option String → File → Fields → Checked (Option String) → Option Fields
  prepare_named argv text preview file params (refused error) = some error
  prepare_named argv text preview file params (valid cwd) =
      if not (is_filled (get "agentId" params))
      then some (invalid_param "agentId must be a non-empty string")
      else if not (is_filled (get "sessionKey" params))
      then some (invalid_param "sessionKey must be a non-empty string")
      else planned argv text preview cwd params (read_snapshot shown loads serialize sha256 file)

  abbrev pub prepare_env :
      List String → String → Option String → File → Fields → Option Fields → Option Fields
  prepare_env argv text preview file params (some error) = some error
  prepare_env argv text preview file params none =
      prepare_named argv text preview file params (validate_cwd (get "cwd" params))

  abbrev pub prepare_text :
      List String → File → Fields → Checked (String × Option String) → Option Fields
  prepare_text argv file params (refused error) = some error
  prepare_text argv file params (valid (text, preview)) =
      prepare_env argv text preview file params (validate_env (get "env" params))

  abbrev pub prepare_argv : File → Fields → Checked (List String) → Option Fields
  prepare_argv file params (refused error) = some error
  prepare_argv file params (valid argv) =
      prepare_text argv file params (resolve_command_text argv (get "rawCommand" params))

  -- `handle_system_run_prepare`
  unfoldable pub handle_system_run_prepare : File → Fields → Option Fields
  unfolding validate_argv validate_env resolve_command_text validate_cwd read_snapshot
      resolve_policy text_items
  handle_system_run_prepare file params =
      prepare_argv file params (validate_argv (get "command" params))
