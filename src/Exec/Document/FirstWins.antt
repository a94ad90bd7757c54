-- ===== src/Exec/Document/FirstWins.antt =====
-- exec_approvals.py: writers that name the hash of the same version of the document.
use openclaw_hass_node.Prelude.{
  String, ◌≡◌, ◌≢◌, refl, ◌∙◌, sym, subst, ap, true, Option, none, some, List, [], ◌∷◌, inl, inr,
}
use openclaw_hass_node.Value.{Fields, get}
use openclaw_hass_node.Files.Lines.{Bytes}
use openclaw_hass_node.Exec.Document.{
  File, content, Disk, Loads, document_of, with_raw, read_snapshot, base_hash_of,
  handle_system_exec_approvals_set,
}
use openclaw_hass_node.Exec.Document.Replaced.{
  BaseMatches, IsReplaced, handle_system_exec_approvals_set-cases,
}

module _ (shown : List String → String) (loads : Bytes → Loads) (serialize : Fields → Option Bytes)
    (sha256 : Bytes → String) where
  -- The bytes that a snapshot names are those of the file.
  with_raw-snd :
      (raw : Bytes) (o : Option Fields) (current : Fields) (named : Option Bytes)
      → with_raw shown loads serialize sha256 raw o ≡ some (current, named)
      → named ≡ some raw
  with_raw-snd raw none current named e = cc
  with_raw-snd raw (some document) current named e = cc

  read_snapshot-content :
      (raw : Bytes) (current : Fields) (named : Option Bytes)
      → read_snapshot shown loads serialize sha256 (content raw) ≡ some (current, named)
      → named ≡ some raw
  unfolding read_snapshot
  read_snapshot-content raw current named e =
      with_raw-snd raw (document_of shown loads serialize sha256 (loads raw)) current named e

  -- The calls of a series name the hash of these bytes.
  abbrev pub NamesHash : Bytes → List (Disk × Fields) → Type 0
  NamesHash raw [] = true ≡ true
  NamesHash raw (call ∷ calls) =
      (base_hash_of shown loads serialize sha256 (get "baseHash" call.1) ≡ sha256 raw)
      × NamesHash raw calls

  -- The file after a series of calls.
  unfoldable pub set_all : String → List (Disk × Fields) → File → File
  set_all path [] file = file
  set_all path (call ∷ calls) file =
      set_all path calls
        (handle_system_exec_approvals_set shown loads serialize sha256 path call.0 call.1 file).0

  BaseMatches-content :
      (base_hash : String) (new : Bytes) (current : Fields) (named : Option Bytes)
      → read_snapshot shown loads serialize sha256 (content new) ≡ some (current, named)
      → BaseMatches shown loads serialize sha256 base_hash named
      → base_hash ≡ sha256 new
  BaseMatches-content base_hash new current named e b =
      subst (BaseMatches shown loads serialize sha256 base_hash)
        (read_snapshot-content new current named e) b

  -- A call that names another hash than the file's leaves the file.
  handle_system_exec_approvals_set-stale :
      (path : String) (disk : Disk) (params : Fields) (new : Bytes)
      → base_hash_of shown loads serialize sha256 (get "baseHash" params) ≢ sha256 new
      → (handle_system_exec_approvals_set shown loads serialize sha256 path disk params
          (content new)).0
        ≡ content new
  handle_system_exec_approvals_set-stale path disk params new n =
      elim (handle_system_exec_approvals_set-cases shown loads serialize sha256 path disk params
        (content new)) [
          | inl e ↦ e
          | inr (document, current, named, sent, checked, read, base, merged) ↦
              absurd (n (BaseMatches-content _ new current named read base))
        ]

  set_all-stale :
      (path : String) (raw new : Bytes) (calls : List (Disk × Fields))
      → NamesHash raw calls
      → sha256 raw ≢ sha256 new
      → set_all path calls (content new) ≡ content new
  unfolding set_all
  set_all-stale path raw new [] names n = refl
  set_all-stale path raw new (call ∷ calls) (named, names) n =
      ap (set_all path calls)
        (handle_system_exec_approvals_set-stale path call.0 call.1 new λ e. n (sym named ∙ e))
      ∙ set_all-stale path raw new calls names n

  -- Of the writers that name the hash of one version of an existing file, where nothing else writes it and
  -- the lock runs them one after another, the first that changes the file is the last: it has put in place
  -- the merge of its own document with that version's socket, and no series of later calls that name the
  -- same hash changes the file again, whatever the operating system does for each, if the digest tells the
  -- version from every other content.
  pub handle_system_exec_approvals_set-first_wins :
      (path : String) (disk : Disk) (params : Fields) (raw : Bytes) (calls : List (Disk × Fields))
      → ((other : Bytes) → sha256 other ≡ sha256 raw → other ≡ raw)
      → NamesHash raw calls
      → let result =
          handle_system_exec_approvals_set shown loads serialize sha256 path disk params
            (content raw) in
        result.0 ≢ content raw
        → IsReplaced shown loads serialize sha256 path disk params (content raw) result
          × (set_all path calls result.0 ≡ result.0)
  handle_system_exec_approvals_set-first_wins path disk params raw calls distinct names changed =
      elim (handle_system_exec_approvals_set-cases shown loads serialize sha256 path disk params
        (content raw)) [
          | inl same ↦ absurd (changed same)
          | inr replaced ↦
              let (
                document,
                current,
                named,
                sent,
                checked,
                read,
                base,
                (new, bytes, placed, answer),
              ) =
                replaced in
              (
                replaced,
                ap (set_all path calls) placed
                    ∙ set_all-stale path raw new calls names
                        (λ e. changed (placed ∙ ap content (distinct new (sym e))))
                    ∙ sym placed,
              )
        ]
