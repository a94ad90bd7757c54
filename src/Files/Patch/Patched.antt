-- ===== src/Files/Patch/Patched.antt =====
-- The result of the whole applier, against an independent description of patching.
use mathlib.Core.List.{append_assoc}
use openclaw_hass_node.Prelude.{
  ℕ, zero, suc, ◌+◌, ◌-◌, ◌≤◌, ◌<◌, String, ◌≡◌, refl, sym, subst, ap, ◌∙◌, Bool, true, false,
  Option, none, some, List, [], ◌∷◌, ◌++◌, if◌then◌else◌, ltb, length, take, drop, length-append,
  length-drop, arith,
}
use openclaw_hass_node.Files.Lines.{
  Bytes, take-append-drop, drop-drop, length-take, split_lines_keep_ends, join_bytes,
}
use openclaw_hass_node.Files.Patch.{
  Line, Header, Edit, control, match_header, Result, ok, failed, value_error, PatchApplyError,
  Progress, hunk_body, hunk_src_index, Applied, is_beyond_end, begin_hunk, end_hunk, counts_agree,
  converted, read_header, apply_hunks, finish, patch_lines, apply_unified_diff,
}
use openclaw_hass_node.Files.Patch.Script.{
  before, after, parse_body, Ran, hunk_body-IsParsed, and_then-eq-ok,
}

-- A hunk of the patch, as it is written.
pub record Hunk : Type 0 where
  pub header : Header
  pub edits : List Edit

abbrev also : Hunk → Option (List Hunk) → Option (List Hunk)
also h none = none
also h (some hs) = some (h ∷ hs)

abbrev hunk_and :
    Header → Option (List Edit × List Line) → (List Line → Option (List Hunk)) → Option (List Hunk)
hunk_and h none k = none
hunk_and h (some (es, rest)) k = also (record { header = h; edits = es }) (k rest)

abbrev on_header : Option Header → (Header → Option (List Hunk)) → Option (List Hunk)
on_header none k = none
on_header (some h) k = k h

-- Hunk by hunk, `src` is a gap, the old lines and a rest, and `out` the same gap, the new lines and
-- what becomes of the rest. The gap ends at the position that the header names, where `at` lines of the
-- source lie before `src`, and the header's counts are those of the old and of the new lines.
abbrev pub IsPatched : List Hunk → ℕ → List Bytes → List Bytes → Type 0
IsPatched [] at src out = out ≡ src
IsPatched (h ∷ hs) at src out =
    (gap : List Bytes) × (rest : List Bytes) × (new : List Bytes) × (src
      ≡ gap ++ (before h.edits ++ rest))
    × (out ≡ gap ++ (after h.edits ++ new))
    × (at + length gap ≡ hunk_src_index h.header)
    × (length (before h.edits) ≡ h.header.declared_old)
    × (length (after h.edits) ≡ h.header.declared_new)
    × IsPatched hs (at + length gap + length (before h.edits)) rest new

module _ (digit : ℕ → Option ℕ) where
  unfoldable pub parse_hunks : ℕ → List Line → Option (List Hunk)
  parse_hunks zero lines = none
  parse_hunks (suc fuel) [] = some []
  parse_hunks (suc fuel) (l ∷ ls) =
      on_header (match_header digit (control l))
        λ h. hunk_and h (parse_body ls) λ rest. parse_hunks fuel rest

-- The position of a hunk lies in the source, if its body was found there.
in_source :
    (src : List Bytes) (h : Header) (old rest : List Bytes)
    → is_beyond_end src h ≡ false
    → length old ≡ h.declared_old
    → drop (hunk_src_index h) src ≡ old ++ rest
    → hunk_src_index h ≤ length src
in_source src h old rest b e d =
    ground (arith, length-drop (hunk_src_index h) src, length-append old rest, ap length d)

gap_length :
    (src : List Bytes) (at index : ℕ)
    → at ≤ index
    → index ≤ length src
    → length (take (index - at) (drop at src)) ≡ index - at
gap_length src at index p q =
    length-take (index - at) (drop at src) (omega (arith, length-drop at src))

-- The gap before a hunk, and what comes after it.
gap_split :
    (src : List Bytes) (at index : ℕ) (old rest : List Bytes)
    → at ≤ index
    → drop index src ≡ old ++ rest
    → drop at src ≡ take (index - at) (drop at src) ++ (old ++ rest)
gap_split src at index old rest p d =
    let e : at + (index - at) ≡ index = omega arith in
    sym (take-append-drop (index - at) (drop at src))
    ∙ ap (λ (ls : List Bytes). take (index - at) (drop at src) ++ ls)
        (drop-drop at (index - at) src ∙ ap (λ (i : ℕ). drop i src) e ∙ d)

-- From a state of the loop over the hunks to its end.
abbrev IsRun : List Bytes → Option (List Hunk) → Applied → Applied → Type 0
IsRun src parsed s s' =
    (hs : List Hunk) × (new : List Bytes) × (parsed ≡ some hs)
    × (s'.hunks_applied ≡ s.hunks_applied + length hs)
    × (s'.out_lines ++ drop s'.src_cursor src ≡ s.out_lines ++ new)
    × IsPatched hs s.src_cursor (drop s.src_cursor src) new

hunk-IsRun :
    (src : List Bytes) (h : Header) (es : List Edit) (s : Applied) (done : Progress)
    (parsed : Option (List Hunk)) (s' : Applied)
    → is_beyond_end src h ≡ false
    → ltb (hunk_src_index h) s.src_cursor ≡ false
    → Ran src (begin_hunk src h s) es done
    → counts_agree h done ≡ true
    → IsRun src parsed (end_hunk done s.hunks_applied) s'
    → IsRun src (also (record { header = h; edits = es }) parsed) s s'
hunk-IsRun src h es s done parsed s' beyond order ran agree (hs, new, p, n, o, q) =
    let gap = take (hunk_src_index h - s.src_cursor) (drop s.src_cursor src) in
    let le : s.src_cursor ≤ hunk_src_index h = ground arith in
    let old : length (before es) ≡ h.declared_old = ground (arith, ran.old) in
    let fits = in_source src h (before es) _ beyond old ran.taken in
    let long : s.src_cursor + length gap ≡ hunk_src_index h =
      omega (arith, gap_length src s.src_cursor (hunk_src_index h) le fits) in
    let at : done.src_cursor ≡ s.src_cursor + length gap + length (before es) =
      omega (arith, ran.cursor) in
    (
      record { header = h; edits = es } ∷ hs,
      gap ++ (after es ++ new),
      ap (also (record { header = h; edits = es })) p,
      omega (arith, n),
      o
          ∙ ap (λ (ls : List Bytes). ls ++ new) ran.left
          ∙ append_assoc (s.out_lines ++ gap) (after es) new
          ∙ append_assoc s.out_lines gap (after es ++ new),
      (
        gap,
        drop done.src_cursor src,
        new,
        gap_split src s.src_cursor (hunk_src_index h) (before es) _ le ran.taken,
        refl,
        long,
        old,
        ground (arith, ran.new),
        subst (λ (i : ℕ). IsPatched hs i (drop done.src_cursor src) new) at q,
      ),
    )

if-eq-ok :
    {A : Type 0} (b : Bool) (e : PatchApplyError) (r : Result A) {a : A}
    → (if b then failed e else r) ≡ ok a
    → (b ≡ false) × (r ≡ ok a)
if-eq-ok true e r h = cc
if-eq-ok false e r h = (refl, h)

if-else-eq-ok :
    {A : Type 0} (b : Bool) (e : PatchApplyError) (r : Result A) {a : A}
    → (if b then r else failed e) ≡ ok a
    → (b ≡ true) × (r ≡ ok a)
if-else-eq-ok true e r h = (refl, h)
if-else-eq-ok false e r h = cc

converted-eq-ok : (h : Header) (b : Bool) {k : Header} → converted h b ≡ ok k → some h ≡ some k
converted-eq-ok h true e = cc
converted-eq-ok h false e = cc

read_header-eq-ok : (o : Option Header) {h : Header} → read_header o ≡ ok h → o ≡ some h
read_header-eq-ok none e = cc
read_header-eq-ok (some h) e = converted-eq-ok h h.convertible e

module _ (digit : ℕ → Option ℕ) where
  apply_hunks-IsRun :
      (fuel : ℕ) (src : List Bytes) (lines : List Line) (s s' : Applied)
      → apply_hunks digit fuel src lines s ≡ ok s'
      → IsRun src (parse_hunks digit fuel lines) s s'
  unfolding apply_hunks parse_hunks
  apply_hunks-IsRun zero src lines s s' e = cc
  apply_hunks-IsRun (suc fuel) src [] s s' e =
      let same : s ≡ s' = cc in
      subst (λ (t : Applied). IsRun src (some []) s t) same
        ([], drop s.src_cursor src, refl, omega arith, refl, refl)
  apply_hunks-IsRun (suc fuel) src (l ∷ ls) s s' e =
      let (h, m, e₁) = and_then-eq-ok (read_header (match_header digit (control l))) _ e in
      let (beyond, e₂) = if-eq-ok (is_beyond_end src h) _ _ e₁ in
      let (order, e₃) = if-eq-ok (ltb (hunk_src_index h) s.src_cursor) _ _ e₂ in
      let (done, b, e₄) = and_then-eq-ok (hunk_body src ls (begin_hunk src h s)) _ e₃ in
      let (agree, e₅) = if-else-eq-ok (counts_agree h done.0) _ _ e₄ in
      let (es, p, ran) = hunk_body-IsParsed src ls (begin_hunk src h s) done.0 done.1 b in
      let run =
        hunk-IsRun src h es s done.0 (parse_hunks digit fuel done.1) s' beyond order ran agree
          (apply_hunks-IsRun fuel src done.1 (end_hunk done.0 s.hunks_applied) s' e₅) in
      rw (read_header-eq-ok _ m, p) run

  finish-eq-ok :
      (src : List Bytes) (r : Result Applied) (patched : Bytes) (n : ℕ)
      → finish src r ≡ ok (patched, n)
      → (s : Applied) × (r ≡ ok s)
        × (0 < n)
        × (n ≡ s.hunks_applied)
        × (patched ≡ join_bytes (s.out_lines ++ drop s.src_cursor src))
  finish-eq-ok src (ok s) patched n e = (s, refl, ground arith, ground arith, ground arith)
  finish-eq-ok src (failed x) patched n e = cc
  finish-eq-ok src value_error patched n e = cc

  -- A patch that applies consists of hunks, at least one, as many as are reported, that are read off
  -- the patch alone. The result is the source with the old lines of each hunk, which stand where its
  -- header says and are as many as it says, replaced by its new lines, and all other lines as they
  -- were.
  pub apply_unified_diff-IsPatched :
      (original : Bytes) (patch_text : String) (patched : Bytes) (n : ℕ)
      → apply_unified_diff digit original patch_text ≡ ok (patched, n)
      → (hs : List Hunk) × (out : List Bytes) × (parse_hunks digit
            (suc (length (patch_lines patch_text)))
            (patch_lines patch_text)
          ≡ some hs)
        × (0 < n)
        × (n ≡ length hs)
        × IsPatched hs 0 (split_lines_keep_ends original) out
        × (patched ≡ join_bytes out)
  unfolding apply_unified_diff
  apply_unified_diff-IsPatched original patch_text patched n e =
      let src = split_lines_keep_ends original in
      let lines = patch_lines patch_text in
      let (s, e₁, positive, n₁, j) =
        finish-eq-ok src (apply_hunks digit (suc (length lines)) src lines _) patched n e in
      let (hs, out, p, n₂, o, q) = apply_hunks-IsRun (suc (length lines)) src lines _ s e₁ in
      (hs, out, p, positive, omega (arith, n₁, n₂), q, j ∙ ap join_bytes o)
