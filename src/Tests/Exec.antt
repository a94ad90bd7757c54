-- ===== src/Tests/Exec.antt =====
-- The exec approvals document on concrete data.
use openclaw_hass_node.Prelude.{
  String, ◌≡◌, refl, true, Option, none, some, List, [], ◌∷◌, pos, ◌⊎◌, strip, ◌≢◌, sym, ◌∙◌,
}
use openclaw_hass_node.Value.{int, str, dict, Fields, end, field, get, keys}
use openclaw_hass_node.Files.Lines.{Bytes}
use openclaw_hass_node.Exec.Schema.{validate_document}
use openclaw_hass_node.Exec.Document.{
  socket_text, redact_document, merge_socket, File, unreadable, content, Disk, held, replaced,
  acquires, Loads, parsed, value_error, read_snapshot, check_base, replace,
  handle_system_exec_approvals_set,
}
use openclaw_hass_node.Exec.Document.Redacted.{merge_socket-redact_document}
use openclaw_hass_node.Exec.Document.Replaced.{IsReplaced, handle_system_exec_approvals_set-cases}
use openclaw_hass_node.Exec.Document.FirstWins.{
  set_all, handle_system_exec_approvals_set-first_wins,
}

-- A document whose socket path ends with a space.
abbrev with_socket : Fields
with_socket = field "version" (int (pos 1)) (
    field "socket" (dict (field "path" (str "/run/exec.sock ") (field "token" (str "t0k3n") end)))
      (field "agents" (dict end) end))

merge_socket-redact_document_example :
    (socket_text "path" (merge_socket (redact_document with_socket) with_socket)
      ≡ socket_text "path" with_socket)
    × (socket_text "token" (merge_socket (redact_document with_socket) with_socket)
        ≡ socket_text "token" with_socket)
    × (get "agents" (merge_socket (redact_document with_socket) with_socket)
        ≡ get "agents" with_socket)
    × (socket_text "token" (redact_document with_socket) ≡ none)
merge_socket-redact_document_example = merge_socket-redact_document with_socket "agents" refl

abbrev shown : List String → String
shown names = "names"

-- An empty file does not parse, and every other parses. A digest tells only it from the others.
abbrev loads : Bytes → Loads
loads [] = value_error
loads (b ∷ bs) = parsed (dict with_socket)

abbrev serialize : Fields → Option Bytes
serialize d = some (123 ∷ 125 ∷ 10 ∷ [])

abbrev short_digest : Bytes → String
short_digest [] = "e"
short_digest (b ∷ bs) = "dd"

-- The read after the write fails.
abbrev failing_disk : Disk
failing_disk = record {
  directory_made = true;
  attempts = replaced ∷ held ∷ [];
  file_created = true;
  file_written = true;
  reread = some unreadable;
  reason = "";
}

abbrev new_document : Fields
new_document = field "version" (int (pos 1)) (field "agents" (dict end) end)

abbrev stored_bytes : Bytes
stored_bytes = 123 ∷ 125 ∷ []

abbrev set_params : String → Fields
set_params base_hash = field "file" (dict new_document) (field "baseHash" (str base_hash) end)

abbrev set_result : String → Bytes → File × Option Fields
set_result base_hash stored =
    handle_system_exec_approvals_set shown loads serialize short_digest "/data/exec-approvals.json"
      failing_disk (set_params base_hash) (content stored)

handle_system_exec_approvals_set-cases_example :
    ((set_result " dd " stored_bytes).0 ≡ content stored_bytes)
    ⊎ IsReplaced shown loads serialize short_digest "/data/exec-approvals.json" failing_disk
        (set_params " dd ")
        (content stored_bytes)
        (set_result " dd " stored_bytes)
handle_system_exec_approvals_set-cases_example =
    handle_system_exec_approvals_set-cases shown loads serialize short_digest
      "/data/exec-approvals.json" failing_disk (set_params " dd ") (content stored_bytes)

written : (set_result "e" []).0 ≡ content (123 ∷ 125 ∷ 10 ∷ [])
unfolding handle_system_exec_approvals_set get validate_document keys strip acquires read_snapshot
    check_base replace
written = refl

changed : (set_result "e" []).0 ≢ content []
changed e = absurd (content-not_empty (sym written ∙ e))
  where
    content-not_empty : content (123 ∷ 125 ∷ 10 ∷ []) ≢ content []
    content-not_empty e = cc

short_digest-distinct : (other : Bytes) → short_digest other ≡ short_digest [] → other ≡ []
short_digest-distinct [] e = refl
short_digest-distinct (b ∷ bs) e = cc

handle_system_exec_approvals_set-first_wins_example :
    IsReplaced shown loads serialize short_digest "/data/exec-approvals.json" failing_disk
      (set_params "e")
      (content [])
      (set_result "e" [])
    × (set_all shown loads serialize short_digest "/data/exec-approvals.json"
          ((failing_disk, set_params " e ") ∷ [])
          (set_result "e" []).0
        ≡ (set_result "e" []).0)
unfolding get strip
handle_system_exec_approvals_set-first_wins_example =
    handle_system_exec_approvals_set-first_wins shown loads serialize short_digest
      "/data/exec-approvals.json" failing_disk (set_params "e") []
      ((failing_disk, set_params " e ") ∷ []) short_digest-distinct (refl, refl) changed
