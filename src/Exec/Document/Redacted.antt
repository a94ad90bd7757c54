-- ===== src/Exec/Document/Redacted.antt =====
-- exec_approvals.py: the document that a caller reads, edits and writes back.
use openclaw_hass_node.Prelude.{
  String, ◌≡◌, refl, ◌∙◌, ap, false, not, Option, none, some, ◌==◌, eq_iff, eq_refl, if◌then◌else◌,
  strip, arith, Bool-cases, inl, inr,
}
use openclaw_hass_node.Value.{Value, str, dict, Fields, end, field, get, put, remove, get-remove}
use openclaw_hass_node.Exec.Document.{
  dict_or_empty, text_of, socket_text, put_path, redact_document, pick_path, pick_token,
  picked_socket, put_socket, merge_socket,
}

get-put_self : (k : String) (v : Value) (d : Fields) → get k (put k v d) ≡ some v
unfolding get put
get-put_self k v end = ground (arith, eq_refl k)
get-put_self k v (field j w d) = ground (arith, get-put_self k v d)

get-put_other :
    (k j : String) (v : Value) (d : Fields) → (k == j) ≡ false → get j (put k v d) ≡ get j d
unfolding get put
get-put_other k j v end h = ground arith
get-put_other k j v (field i w d) h =
    ground (arith, get-put_other k j v d, eq_iff i k, eq_iff i j, eq_iff k j)

-- The socket of a document, as a dict.
abbrev socket_of : Fields → Fields
socket_of d = dict_or_empty (get "socket" d)

socket_of-put : (socket d : Fields) → socket_of (put "socket" (dict socket) d) ≡ socket
socket_of-put socket d = ap dict_or_empty (get-put_self "socket" (dict socket) d)

socket_of-remove : (d : Fields) → socket_of (remove "socket" d) ≡ end
socket_of-remove d = ap dict_or_empty (get-remove "socket" "socket" d)

socket_of-put_socket : (socket d : Fields) → socket_of (put_socket socket d) ≡ socket
socket_of-put_socket end d = socket_of-remove d
socket_of-put_socket (field k v s) d = socket_of-put (field k v s) d

-- What a redacted document shows of the stored path.
abbrev shown_path : Option String → Option String
shown_path none = none
shown_path (some p) = if not (strip p == "") then some (strip p) else none

-- The socket that a redacted document has.
abbrev shown_socket : Option String → Fields
shown_socket none = end
shown_socket (some p) = if not (strip p == "") then field "path" (str (strip p)) end else end

socket_of-put_path :
    (path : Option String) (d : Fields) → socket_of (put_path path d) ≡ shown_socket path
socket_of-put_path none d = socket_of-remove d
socket_of-put_path (some p) d = elim (Bool-cases (strip p == "")) [
  | inl e ↦ ground (arith, socket_of-remove d)
  | inr e ↦ ground (arith, socket_of-put (field "path" (str (strip p)) end) d)
]

-- A field of the redacted socket.
text_in : String → Fields → Option String
text_in name socket = text_of (get name socket)

socket_text-redact :
    (name : String) (d : Fields)
    → socket_text name (redact_document d) ≡ text_in name (shown_socket (socket_text "path" d))
unfolding socket_text redact_document text_in
socket_text-redact name d = ap (text_in name) (socket_of-put_path (socket_text "path" d) d)

path_in-shown : (path : Option String) → text_in "path" (shown_socket path) ≡ shown_path path
unfolding text_in get
path_in-shown none = refl
path_in-shown (some p) = elim (Bool-cases (strip p == "")) [
  | inl e ↦ ground arith
  | inr e ↦ ground arith
]

token_in-shown : (path : Option String) → text_in "token" (shown_socket path) ≡ none
unfolding text_in get
token_in-shown none = refl
token_in-shown (some p) = elim (Bool-cases (strip p == "")) [
  | inl e ↦ ground arith
  | inr e ↦ ground arith
]

-- The stored path comes back, whatever of it was shown.
pick_path-shown : (stored : Option String) → pick_path (shown_path stored) stored ≡ stored
unfolding pick_path
pick_path-shown none = refl
pick_path-shown (some p) = elim (Bool-cases (strip p == "")) [
  | inl e ↦ ground arith
  | inr e ↦ ground (arith, eq_refl (strip p))
]

pick_token-none : (stored : Option String) → pick_token none stored ≡ stored
unfolding pick_token
pick_token-none stored = refl

-- The fields of a socket that was picked.
path_in-picked : (path token : Option String) → text_in "path" (picked_socket path token) ≡ path
unfolding text_in get picked_socket
path_in-picked none none = refl
path_in-picked none (some t) = refl
path_in-picked (some p) token = refl

token_in-picked : (path token : Option String) → text_in "token" (picked_socket path token) ≡ token
unfolding text_in get picked_socket
token_in-picked none none = refl
token_in-picked none (some t) = refl
token_in-picked (some p) none = refl
token_in-picked (some p) (some t) = refl

-- The socket of a merged document, of any two documents.
pub socket_text-merge_path :
    (document current : Fields)
    → socket_text "path" (merge_socket document current)
      ≡ pick_path (socket_text "path" document) (socket_text "path" current)
unfolding socket_text merge_socket text_in
socket_text-merge_path document current =
    ap (text_in "path") (socket_of-put_socket _ document) ∙ path_in-picked _ _

pub socket_text-merge_token :
    (document current : Fields)
    → socket_text "token" (merge_socket document current)
      ≡ pick_token (socket_text "token" document) (socket_text "token" current)
unfolding socket_text merge_socket text_in
socket_text-merge_token document current =
    ap (text_in "token") (socket_of-put_socket _ document)
    ∙ token_in-picked (pick_path (socket_text "path" document) (socket_text "path" current)) _

merged_path :
    (d : Fields) → socket_text "path" (merge_socket (redact_document d) d) ≡ socket_text "path" d
merged_path d =
    socket_text-merge_path (redact_document d) d
    ∙ ap (λ p. pick_path p (socket_text "path" d))
        (socket_text-redact "path" d ∙ path_in-shown (socket_text "path" d))
    ∙ pick_path-shown (socket_text "path" d)

pub socket_text-redact_token : (d : Fields) → socket_text "token" (redact_document d) ≡ none
socket_text-redact_token d = socket_text-redact "token" d ∙ token_in-shown (socket_text "path" d)

merged_token :
    (d : Fields) → socket_text "token" (merge_socket (redact_document d) d) ≡ socket_text "token" d
merged_token d =
    socket_text-merge_token (redact_document d) d
    ∙ ap (λ t. pick_token t (socket_text "token" d)) (socket_text-redact_token d)
    ∙ pick_token-none (socket_text "token" d)

-- The other keys of a document.
get-put_path :
    (k : String) (path : Option String) (d : Fields)
    → ("socket" == k) ≡ false
    → get k (put_path path d) ≡ get k d
get-put_path k none d h = ground (arith, get-remove "socket" k d)
get-put_path k (some p) d h = elim (Bool-cases (strip p == "")) [
  | inl e ↦ ground (arith, get-remove "socket" k d)
  | inr e ↦ ground (arith, get-put_other "socket" k (dict (field "path" (str (strip p)) end)) d)
]

get-put_socket :
    (k : String) (socket d : Fields)
    → ("socket" == k) ≡ false
    → get k (put_socket socket d) ≡ get k d
get-put_socket k end d h = ground (arith, get-remove "socket" k d)
get-put_socket k (field j v s) d h = get-put_other "socket" k (dict (field j v s)) d h

merged_other :
    (k : String) (d : Fields)
    → ("socket" == k) ≡ false
    → get k (merge_socket (redact_document d) d) ≡ get k d
unfolding merge_socket redact_document
merged_other k d h =
    get-put_socket k _ (redact_document d) h ∙ get-put_path k (socket_text "path" d) d h

-- A document that is redacted for a caller and written back unchanged onto the stored one keeps the
-- stored socket path, the stored socket token and every key but `socket`; and what the caller was shown
-- had no token.
pub merge_socket-redact_document :
    (d : Fields) (k : String)
    → ("socket" == k) ≡ false
    → (socket_text "path" (merge_socket (redact_document d) d) ≡ socket_text "path" d)
      × (socket_text "token" (merge_socket (redact_document d) d) ≡ socket_text "token" d)
      × (get k (merge_socket (redact_document d) d) ≡ get k d)
      × (socket_text "token" (redact_document d) ≡ none)
merge_socket-redact_document d k h =
    (merged_path d, merged_token d, merged_other k d h, socket_text-redact_token d)
