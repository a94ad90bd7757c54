-- ===== src/Lib.antt =====
-- The OpenClaw Home Assistant node: a program that runs beside Home Assistant, holds a WebSocket
-- to an agent gateway, and executes the commands that the gateway invokes, for the operator or on
-- behalf of a Home Assistant user who talks to the agent (an Assist turn). This library models its
-- decision core, from the invoke request to the handler and back, from the sources in
-- app/node/src/openclaw_node.
--
-- How the parts interact. The relay (chat_relay.py) runs the Assist turns; for each it resolves a
-- role, an agent and a list of forbidden commands (authz.py) and keeps them as a Caller
-- (caller.py) while the turn is in flight. The gateway client (gateway_ws.py) decodes an invoke
-- request, resolves its caller through the relay, and passes it to the dispatcher
-- (commands/dispatcher.py), which asks the effect policy (effect_policy.py), runs the handler, and
-- masks supplied codes in what comes back. Handlers that change files or configuration consume a
-- one-shot approval marker first (commands/config_mutation.py), unless the approval policy
-- (approval_policy.py) exempts the caller.
--
-- Which file models which part:
-- - Value: JSON values, and dicts by their fields in order. A float is its 64 bits.
-- - Authz: authz.py and the records of config.py. Services has the household service table,
--   service_for_command and normalise_service_code, Commands the command classes, Forbidden the
--   lists of a role and is_forbidden, Turn the signed actor and resolve_role, resolve_agent_id and
--   resolve_turn_authz, Codes the masking (collect_codes, scrub_codes, redact_code), Glob the
--   matcher fnmatch.fnmatchcase that is_forbidden uses.
-- - Caller: caller.py.
-- - Policy: Interim the denials of commands/ha.py, Effect effect_policy.py, Approval
--   approval_policy.py, Canonical and Marker commands/config_mutation.py, with approval_checker in
--   Marker/Checker.
-- - Commands: Params is commands/params.py, Filters the registry filters of commands/ha.py.
-- - Files: Lines has bytes and their lines, Patch the application of a unified diff in
--   commands/fs_patch.py, Backup backup_store.py with the operations of BackupStore in
--   Backup/Store, and Write the handlers of commands/fs_write.py and commands/fs_patch.py:
--   pass_gates is the approval check with the tests of the path, capture_and_write the capture and
--   the write. The handlers use the store through the record Backups, which backup_store fills.
--   Move is commands/fs_move_delete.py: pass_move has the checks of both paths. History has
--   handle_fs_history, handle_fs_diff and BackupStore.diff, and Confine safe_path.py and
--   _relative_to_root of safe_fd.py.
-- - Exec: commands/exec_approvals.py. Argv is the argument vector and the text shown for it,
--   Schema _validate_document, Document the snapshot, _redact_document, _merge_socket and the two
--   handlers of the policy document, Prepare _resolve_policy and handle_system_run_prepare.
-- - Dispatch: commands/dispatcher.py; a Boolean tells dispatch_async from dispatch.
-- - Pairing: pairing.py.
-- - Relay/Turns: the registry of turns in flight and of ended turns in chat_relay.py.
-- - Gateway: gateway_ws.py. Params is _decode_invoke_params, Caller _resolve_invoke_caller, Invoke
--   _handle_invoke and _send_invoke_result, Reconnect _next_reconnect_delay and
--   _maybe_drop_invalid_device_token.
-- - Tests: runs on concrete data, and the theorems at such data.
--
-- State is passed explicitly: the used marker ids, the node that the handlers change with the log
-- of the calls that reached them, the turns of the relay, the backup store, the file of the policy
-- document. Exceptions are constructors of result types, or `none` where one escapes a handler.
-- Dicts are lists of pairs in the order of insertion.
--
-- Bounds and fuel. The walk over the parameters' shape pops one value in each round, so one more
-- round than there are values is enough fuel, which is proved. Masking makes eight passes, as the
-- code does. Printing an integer divides it by ten in each round, and the glob compiler takes a
-- character of the pattern in each round, so the number and the pattern's length are enough fuel.
-- The loop over the hunks of a patch takes at least one line in each round, so one more round than
-- there are lines is enough, which is proved. The lock of the policy document is tried five times,
-- as in the code. Every other recursion is structural.
--
-- What is a parameter: HMAC-SHA-256 and SHA-256 as functions of texts; json.loads, json.dumps and
-- str.encode, with their failures; str, repr and json.dumps of numbers and texts where codes are
-- masked; the digits of a float, as Decimal(repr(value)) gives them; str.lower; the UUIDs; whether
-- the token file is safe to remove and its removal works; the handlers that the dispatcher runs;
-- the characters that \d matches, with their values; base64; the comparison of two ISO timestamps;
-- what difflib renders; Path.resolve; what resolving, reading and writing a path does (World), and
-- replacing and trashing (FileWorld), and what the operating system does for the writer of the
-- policy document (Disk), with what the read after the replacement finds. The handlers of files
-- take the current caller and one clock reading for a whole call. Clocks are arguments, in
-- nanoseconds.
--
-- Not modelled: the connect handshake and the event router of gateway_ws.py, the streaming of
-- chat_relay.py, the listing and reading of files, the contents of the trash, the system calls of
-- safe_fd.py, errors of the operating system inside the backup store, its meta.json and the
-- rendering of diffs, the shell and the Home Assistant handlers, the HTTP API, the store of tokens
-- and keys, start-up, the integration under custom_components, the scripts and the plugin. Logging
-- is left out. What the pure code raises beside the errors it names is modelled where it reaches
-- the result: OverflowError of math.isfinite for an integer code of 2^1024 or more, the errors of
-- decoding and encoding invoke parameters, RecursionError and encoding errors of the policy
-- document, ValueError of int for a number of a patch with more than 4300 digits, and TypeError of
-- hmac.compare_digest for a signature that is not ASCII. The names of index files are not checked
-- against the limit of the file system.
pub mod Prelude
pub mod Value
pub mod Authz
pub mod Caller
pub mod Policy
pub mod Dispatch
pub mod Commands
pub mod Files
pub mod Exec
pub mod Pairing
pub mod Relay
pub mod Gateway
mod Tests
