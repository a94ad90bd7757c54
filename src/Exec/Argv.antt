-- ===== src/Exec/Argv.antt =====
-- exec_approvals.py: argument vectors, and the text that an approver is shown for one.
use openclaw_hass_node.Prelude.{
  ℕ, String, ◌<>◌, Char, code, Bool, true, false, not, ◌&&◌, ◌||◌, Option, none, some, List, [],
  ◌∷◌, ◌==◌, if◌then◌else◌, eqb, leb, ltb, any, length, size, strip, contains,
}
use openclaw_hass_node.Value.{
  Value, null, bool, str, list, dict, Items, nil, cons, Fields, end, field,
}
use openclaw_hass_node.Policy.{refusal}

-- A checked value, or the error payload.
pub data Checked (A : Type 0) : Type 0 where
  valid : A → Checked A
  refused : Fields → Checked A

-- `_MAX_ARGV`, `_MAX_ARG_LEN`
abbrev pub max_argv : ℕ
max_argv = 256

abbrev pub max_arg_len : ℕ
max_arg_len = 8192

-- `_JS_WHITESPACE`
unfoldable pub is_js_whitespace : Char → Bool
is_js_whitespace ch =
    let c = code ch in
    (leb 0x9 c && leb c 0xd)
    || eqb c 0x20
    || eqb c 0xa0
    || eqb c 0x1680
    || eqb c 0x2028
    || eqb c 0x2029
    || eqb c 0x202f
    || eqb c 0x205f
    || eqb c 0x3000
    || eqb c 0xfeff
    || (leb 0x2000 c && leb c 0x200a)

-- `any(test(char) for char in text)`
abbrev pub any_char : (Char → Bool) → String → Bool
any_char p String.[] = false
any_char p (String.◌∷◌ c s) = p c || any_char p s

-- The texts of a list of texts, and `none` where another value stands.
abbrev pub also : String → Option (List String) → Option (List String)
also s none = none
also s (some ss) = some (s ∷ ss)

unfoldable pub texts : Items → Option (List String)
texts nil = some []
texts (cons (str s) vs) = also s (texts vs)
texts (cons v vs) = none

abbrev invalid_param : String → Fields
invalid_param = refusal "INVALID_PARAM"

abbrev pub has_nul : String → Bool
has_nul = any_char (λ c. eqb (code c) 0)

-- The tests of a list of texts.
abbrev pub checked_texts : List String → Checked (List String)
checked_texts [] = refused (invalid_param "command must be a non-empty list of strings")
checked_texts (arg ∷ args) =
    if arg == ""
    then refused (invalid_param "command[0] must be a non-empty executable name")
    else if ltb max_argv (length (arg ∷ args))
    then refused (invalid_param "command has more than 256 arguments")
    else if any (λ item. ltb max_arg_len (size item)) (arg ∷ args)
    then refused (invalid_param "command contains an argument longer than 8192")
    else if any has_nul (arg ∷ args)
    then refused (invalid_param "command arguments must not contain NUL bytes")
    else valid (arg ∷ args)

abbrev pub checked_items : Option (List String) → Checked (List String)
checked_items none = refused (invalid_param "command must be a non-empty list of strings")
checked_items (some args) = checked_texts args

-- `_validate_argv`
unfoldable pub validate_argv : Option Value → Checked (List String)
unfolding texts
validate_argv none = refused (refusal "MISSING_PARAM" "command is required")
validate_argv (some null) = refused (refusal "MISSING_PARAM" "command is required")
validate_argv (some (list vs)) = checked_items (texts vs)
validate_argv (some v) = refused (invalid_param "command must be a list of strings")

-- `_validate_env`
abbrev pub is_binding : String → Value → Bool
is_binding key (str s) = not (key == "")
is_binding key v = false

unfoldable pub all_bindings : Fields → Bool
all_bindings end = true
all_bindings (field k v d) = is_binding k v && all_bindings d

abbrev env_error : Fields
env_error = invalid_param "env must be an object of non-empty string keys and values"

unfoldable pub validate_env : Option Value → Option Fields
unfolding all_bindings
validate_env none = none
validate_env (some null) = none
validate_env (some (dict d)) = if all_bindings d then none else some env_error
validate_env (some v) = some env_error

-- `arg.replace('"', '\\"')`
unfoldable pub escape_quotes : String → String
escape_quotes String.[] = ""
escape_quotes (String.◌∷◌ c s) =
    let rest = escape_quotes s in if eqb (code c) 34 then "\\\"" <> rest else String.◌∷◌ c rest

-- `_JS_QUOTE_TRIGGERS`
abbrev pub is_quote_trigger : Char → Bool
is_quote_trigger c = is_js_whitespace c || eqb (code c) 34

-- `_format_exec_command`: one argument, and `" ".join(parts)`
unfoldable pub format_arg : String → String
unfolding escape_quotes is_js_whitespace
format_arg arg =
    if arg == ""
    then "\"\""
    else if not (any_char is_quote_trigger arg)
    then arg
    else "\"" <> (escape_quotes arg <> "\"")

unfoldable pub format_exec_command : List String → String
unfolding format_arg
format_exec_command [] = ""
format_exec_command (arg ∷ []) = format_arg arg
format_exec_command (arg ∷ args) = format_arg arg <> (" " <> format_exec_command args)

-- `_INLINE_SHELL_ARGV0`, `_INLINE_SHELL_FLAGS`
abbrev pub inline_shell_argv0 : String
inline_shell_argv0 = "/bin/sh"

abbrev pub inline_shell_flags : List String
inline_shell_flags = "-c" ∷ "-lc" ∷ []

-- `_inline_shell_payload`
unfoldable pub inline_shell_payload : List String → Option String
inline_shell_payload (argv0 ∷ flag ∷ script ∷ []) =
    if argv0 == inline_shell_argv0 && contains inline_shell_flags flag
    then if strip script == "" then none else some (strip script)
    else none
inline_shell_payload _ = none

-- `raw_command.strip() if isinstance(raw_command, str) else ""`
abbrev pub raw_text : Option Value → Option String
raw_text none = some ""
raw_text (some null) = some ""
raw_text (some (str s)) = some (strip s)
raw_text (some v) = none

abbrev pub is_payload : String → Option String → Bool
is_payload raw none = false
is_payload raw (some payload) = raw == payload

-- The payload, if it differs from the text.
abbrev pub preview : String → Option String → Option String
preview text none = none
preview text (some payload) = if payload == text then none else some payload

abbrev pub mismatch : String → Fields
mismatch text = field "ok" (bool false) (
    field "error" (str "RAW_COMMAND_MISMATCH") (
      field "message" (str "INVALID_REQUEST: rawCommand does not match command")
        (field "inferred" (str text) (field "formattedArgv" (str text) end))))

abbrev pub bound_text : List String → Option String → Checked (String × Option String)
bound_text argv none = refused (invalid_param "rawCommand must be a string")
bound_text argv (some raw) =
    let text = format_exec_command argv in
    let payload = inline_shell_payload argv in
    if raw == ""
    then valid (text, preview text payload)
    else if not (raw == text) && not (is_payload raw payload)
    then refused (mismatch text)
    else valid (text, preview text payload)

-- `_resolve_command_text`
unfoldable pub resolve_command_text : List String → Option Value → Checked (String × Option String)
unfolding format_exec_command inline_shell_payload
resolve_command_text argv raw_command = bound_text argv (raw_text raw_command)
