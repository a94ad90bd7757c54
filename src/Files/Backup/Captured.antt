-- ===== src/Files/Backup/Captured.antt =====
-- backup_store.py: what is captured can be restored.
use openclaw_hass_node.Prelude.{
  ℕ, ◌+◌, String, ◌<>◌, ◌≡◌, refl, ap, ◌∙◌, sym, subst, Bool, true, false, Option, some, List, [],
  ◌∷◌, ◌++◌, ℤ, negsuc, arith, length, find_key, find_key-put_key, eq_refl, Option-cases, inl, inr,
  length-append,
}
use openclaw_hass_node.Value.{Value, Fields}
use openclaw_hass_node.Files.Lines.{Bytes, get_elem?}
use openclaw_hass_node.Files.Backup.{
  position, Op, Outcome, returned, raised, and_then, Version, encode_path, last, at_position,
}
use openclaw_hass_node.Files.Backup.Store.{
  Store, same_name, read_index, write_index, lines_or_empty, to_json, from_json, parse_lines,
  history, append_version, stored, new_version, capture, fetch_object, select, select_some,
  resolve_version, by_position, resolve_side,
}
use openclaw_hass_node.Files.Backup.Entry.{ReadsBack, from_json-to_json}

same_name_refl : (name : List ℕ) → same_name name name ≡ true
same_name_refl [] = refl
same_name_refl (x ∷ xs) = ground (arith, same_name_refl xs)

read_index-write_index :
    (A : Type 0) (name : List ℕ) (lines : A) (files : List (List ℕ × A))
    → read_index name (write_index name lines files) ≡ some lines
unfolding read_index write_index
read_index-write_index A name lines [] = ground (arith, same_name_refl name)
read_index-write_index A name lines ((other, old) ∷ files) =
    ground (arith, read_index-write_index A name lines files)

-- The last element of a list.
get_elem?-snoc :
    (A : Type 0) (xs : List A) (x : A) → get_elem? (xs ++ (x ∷ [])) (length xs) ≡ some x
unfolding get_elem?
get_elem?-snoc A [] x = refl
get_elem?-snoc A (y ∷ ys) x = get_elem?-snoc A ys x

at_position-snoc :
    (A : Type 0) (xs : List A) (x : A) → at_position (xs ++ (x ∷ [])) (negsuc 0) ≡ some x
unfolding at_position
at_position-snoc A xs x =
    let n : length (xs ++ (x ∷ [])) ≡ length xs + 1 = length-append xs (x ∷ []) in
    rw (n) (ground (arith, get_elem?-snoc A xs x))

last-snoc : (A : Type 0) (xs : List A) (x : A) → last (xs ++ (x ∷ [])) ≡ some x
unfolding last
last-snoc A [] x = refl
last-snoc A (y ∷ []) x = refl
last-snoc A (y ∷ z ∷ xs) x = last-snoc A (z ∷ xs) x

-- One more version is added to whatever was parsed.
abbrev with_last : Outcome (List Version) → Version → Outcome (List Version)
with_last vs v = and_then vs λ ws. returned (ws ++ (v ∷ []))

and_then-with_last :
    (v : Version) (o : Outcome Version) (p q : Outcome (List Version))
    → q ≡ with_last p v
    → ◌≡◌ {A = Outcome (List Version)}
        (and_then o λ w. and_then q λ ws. returned (w ∷ ws))
        (with_last (and_then o λ w. and_then p λ ws. returned (w ∷ ws)) v)
and_then-with_last v (raised e) p q h = refl
and_then-with_last v (returned w) (raised e) q h = rw (h) refl
and_then-with_last v (returned w) (returned ws) q h = rw (h) refl

module _ (printed : Value → String) (parsed_int : Value → Option ℤ) (Line : Type 0)
    (dumps : Fields → Line) (loads : Line → Option Value) (sha256 : Bytes → String)
    (not_after : String → String → Option Bool) where
  parse_lines-snoc :
      (lines : List Line) (line : Line) (v : Version)
      → from_json printed parsed_int Line dumps loads sha256 not_after line ≡ returned v
      → parse_lines printed parsed_int Line dumps loads sha256 not_after (lines ++ (line ∷ []))
        ≡ with_last (parse_lines printed parsed_int Line dumps loads sha256 not_after lines) v
  unfolding parse_lines
  parse_lines-snoc [] line v e =
      ap (λ (o : Outcome Version). and_then {B = List Version} o λ w. returned (w ∷ [])) e
  parse_lines-snoc (l ∷ ls) line v e =
      and_then-with_last v (from_json printed parsed_int Line dumps loads sha256 not_after l)
        (parse_lines printed parsed_int Line dumps loads sha256 not_after ls) _
        (parse_lines-snoc ls line v e)

  -- The history after one more line.
  history-append_version :
      ReadsBack printed parsed_int Line dumps loads sha256 not_after
      → (store : Store Line) (v : Version) (path : String) (name : List ℕ)
      → encode_path path ≡ returned name
      → history printed parsed_int Line dumps loads sha256 not_after
          (append_version printed parsed_int Line dumps loads sha256 not_after store v
            (returned name)).0
          path
        ≡ with_last (history printed parsed_int Line dumps loads sha256 not_after store path) v
  unfolding history
  history-append_version reads store v path name e =
      let line = to_json printed parsed_int Line dumps loads sha256 not_after v in
      let old = lines_or_empty (read_index name (Store.index store)) in
      rw (e, read_index-write_index (List Line) name (old ++ (line ∷ [])) (Store.index store))
        (parse_lines-snoc old line v
          (from_json-to_json printed parsed_int Line dumps loads sha256 not_after reads v))

  -- A capture of a path whose name is short enough appends the version.
  capture-append_version :
      (now : String) (store : Store Line) (path : String) (prior_bytes : Bytes)
      (proposal_id : String) (op : Op) (actor : String) (name : List ℕ)
      → encode_path path ≡ returned name
      → capture printed parsed_int Line dumps loads sha256 not_after now store path prior_bytes
          proposal_id op actor
        ≡ append_version printed parsed_int Line dumps loads sha256 not_after
            (stored printed parsed_int Line dumps loads sha256 not_after store
              (sha256 prior_bytes)
              prior_bytes)
            (new_version printed parsed_int Line dumps loads sha256 not_after now store path
              prior_bytes proposal_id op actor)
            (returned name)
  unfolding capture
  capture-append_version now store path prior_bytes proposal_id op actor name e =
      ap
        (append_version printed parsed_int Line dumps loads sha256 not_after
          (stored printed parsed_int Line dumps loads sha256 not_after store (sha256 prior_bytes)
            prior_bytes)
          (new_version printed parsed_int Line dumps loads sha256 not_after now store path
            prior_bytes proposal_id op actor))
        e

  -- The object of a capture, where no other bytes have its digest.
  fetch_object-stored :
      (store : Store Line) (v : Version) (name : List ℕ) (prior_bytes : Bytes)
      → ((other : Bytes)
          → find_key (sha256 prior_bytes) (Store.objects store) ≡ some other
          → other ≡ prior_bytes)
      → fetch_object printed parsed_int Line dumps loads sha256 not_after
          (append_version printed parsed_int Line dumps loads sha256 not_after
            (stored printed parsed_int Line dumps loads sha256 not_after store
              (sha256 prior_bytes)
              prior_bytes)
            v
            (returned name)).0
          (sha256 prior_bytes)
        ≡ returned prior_bytes
  unfolding fetch_object
  fetch_object-stored store v name prior_bytes h =
      elim (Option-cases (find_key (sha256 prior_bytes) (Store.objects store))) [
        | inl e ↦
            rw
              (
                e,
                find_key-put_key (sha256 prior_bytes) (sha256 prior_bytes) prior_bytes
                    (Store.objects store),
                eq_refl (sha256 prior_bytes),
              )
              refl
        | inr (other, e) ↦ rw (e, e, h other e) refl
      ]

  -- An object does not change what a history is.
  history-stored :
      (store : Store Line) (path : String) (prior_bytes : Bytes)
      → history printed parsed_int Line dumps loads sha256 not_after
          (stored printed parsed_int Line dumps loads sha256 not_after store
            (sha256 prior_bytes)
            prior_bytes)
          path
        ≡ history printed parsed_int Line dumps loads sha256 not_after store path
  unfolding history
  history-stored store path prior_bytes = refl

  -- The newest version of a history that ends with it.
  select_some-snoc :
      (path : String) (vs : List Version) (v : Version)
      → select_some printed parsed_int Line dumps loads sha256 not_after path
          (by_position printed parsed_int Line dumps loads sha256 not_after path (negsuc 0))
          (vs ++ (v ∷ []))
        ≡ returned v
  unfolding select
  select_some-snoc path [] v = refl
  select_some-snoc path (w ∷ ws) v = rw (at_position-snoc Version (w ∷ ws) v) refl

  resolve_side-snoc :
      (store : Store Line) (path : String) (vs : List Version) (v : Version) (bytes : Bytes)
      → history printed parsed_int Line dumps loads sha256 not_after store path
        ≡ returned (vs ++ (v ∷ []))
      → Version.evicted v ≡ false
      → fetch_object printed parsed_int Line dumps loads sha256 not_after store (Version.sha256 v)
        ≡ returned bytes
      → resolve_side printed parsed_int Line dumps loads sha256 not_after store path
          (position (negsuc 0))
        ≡ returned (bytes, path <> "@" <> Version.ts v)
  unfolding resolve_side resolve_version
  resolve_side-snoc store path vs v bytes h e f = rw (h, select_some-snoc path vs v, e, f) refl

  -- A capture of bytes for a path whose encoded name is short enough and whose history can be read returns
  -- its version, appends exactly it to the history, and makes version -1 of the path resolve to those
  -- bytes and the time of the capture; a line reads back as it was written, and no other bytes with the same
  -- digest are in the store.
  pub capture-resolve_side :
      ReadsBack printed parsed_int Line dumps loads sha256 not_after
      → (now : String) (store : Store Line) (path : String) (prior_bytes : Bytes)
        (proposal_id : String) (op : Op) (actor : String) (name : List ℕ) (versions : List Version)
      → encode_path path ≡ returned name
      → history printed parsed_int Line dumps loads sha256 not_after store path ≡ returned versions
      → ((other : Bytes)
          → find_key (sha256 prior_bytes) (Store.objects store) ≡ some other
          → other ≡ prior_bytes)
      → let result =
          capture printed parsed_int Line dumps loads sha256 not_after now store path prior_bytes
            proposal_id op actor in
        let v =
          new_version printed parsed_int Line dumps loads sha256 not_after now store path
            prior_bytes proposal_id op actor in
        (result.1 ≡ returned v)
        × (history printed parsed_int Line dumps loads sha256 not_after result.0 path
            ≡ returned (versions ++ (v ∷ [])))
        × (resolve_side printed parsed_int Line dumps loads sha256 not_after result.0 path
              (position (negsuc 0))
            ≡ returned (prior_bytes, path <> "@" <> now))
  capture-resolve_side reads now store path prior_bytes proposal_id op actor name versions e h
        fresh =
      let v =
        new_version printed parsed_int Line dumps loads sha256 not_after now store path prior_bytes
          proposal_id op actor in
      let kept =
        stored printed parsed_int Line dumps loads sha256 not_after store (sha256 prior_bytes)
          prior_bytes in
      let after =
        append_version printed parsed_int Line dumps loads sha256 not_after kept v
          (returned name) in
      let same : capture printed parsed_int Line dumps loads sha256 not_after now store path
            prior_bytes proposal_id op actor
          ≡ after =
        capture-append_version now store path prior_bytes proposal_id op actor name e in
      let grown : history printed parsed_int Line dumps loads sha256 not_after after.0 path
          ≡ returned (versions ++ (v ∷ [])) =
        history-append_version reads kept v path name e
        ∙ ap (λ (o : Outcome (List Version)). with_last o v)
            (history-stored store path prior_bytes ∙ h) in
      let restored : resolve_side printed parsed_int Line dumps loads sha256 not_after after.0 path
            (position (negsuc 0))
          ≡ returned (prior_bytes, path <> "@" <> now) =
        resolve_side-snoc after.0 path versions v prior_bytes grown refl
          (fetch_object-stored store v name prior_bytes fresh) in
      subst
        (λ (r : Store Line × Outcome Version).
          (r.1 ≡ returned v)
          × (history printed parsed_int Line dumps loads sha256 not_after r.0 path
              ≡ returned (versions ++ (v ∷ [])))
          × (resolve_side printed parsed_int Line dumps loads sha256 not_after r.0 path
                (position (negsuc 0))
              ≡ returned (prior_bytes, path <> "@" <> now)))
        (sym same) (refl, grown, restored)
