-- ===== src/Files/Patch.antt =====
-- commands/fs_patch.py: the unified-diff applier.
pub mod Script
pub mod Patched
pub mod Ends
use mathlib.Core.Option
use openclaw_hass_node.Prelude.{
  ℕ, zero, suc, ◌+◌, ◌-◌, ◌*◌, String, ◌≡◌, Bool, true, false, not, ◌&&◌, ◌||◌, Option, none, some,
  List, [], ◌∷◌, ◌++◌, if◌then◌else◌, eqb, ltb, leb, length, take, drop,
}
use openclaw_hass_node.Files.Lines.{
  Bytes, codes, bytes_eq, utf8, get_elem?, split_lines_keep_ends, join_bytes,
}

-- The text of a line of the patch, by its code points.
abbrev pub Line : Type 0
Line = List ℕ

-- `text.split("\n")`, with an empty last element dropped.
abbrev pub onto_line : ℕ → List Line → List Line
onto_line c [] = (c ∷ []) ∷ []
onto_line c (l ∷ ls) = (c ∷ l) ∷ ls

unfoldable pub split_text : Line → List Line
split_text [] = [] ∷ []
split_text (c ∷ cs) = let rest = split_text cs in if eqb c 10 then [] ∷ rest else onto_line c rest

unfoldable pub drop_last_empty : List Line → List Line
drop_last_empty [] = []
drop_last_empty ([] ∷ []) = []
drop_last_empty (l ∷ ls) = l ∷ drop_last_empty ls

-- `line.startswith(prefix)`, with what follows
unfoldable pub after_prefix : List ℕ → Line → Option Line
after_prefix [] cs = some cs
after_prefix (p ∷ ps) [] = none
after_prefix (p ∷ ps) (c ∷ cs) = let rest = after_prefix ps cs in if eqb p c then rest else none

abbrev pub starts_with : List ℕ → Line → Bool
starts_with prefix line = elim (after_prefix prefix line) [ none ↦ false | some rest ↦ true ]

-- `_control`: a control line without a trailing carriage return
unfoldable pub control : Line → Line
control [] = []
control (c ∷ []) = if eqb c 13 then [] else c ∷ []
control (c ∷ cs) = c ∷ control cs

-- `_control(line).startswith("@@")`
unfoldable pub is_hunk_start : Line → Bool
unfolding control after_prefix
is_hunk_start line = starts_with (64 ∷ 64 ∷ []) (control line)

-- `_control(line).startswith("\\ No newline")`
unfoldable pub is_no_newline : Line → Bool
unfolding control after_prefix codes
is_no_newline line = starts_with (codes "\\ No newline") (control line)

-- The number of digits that `int` converts at most.
abbrev pub max_str_digits : ℕ
max_str_digits = 4300

-- What a hunk header declares, and whether `int` converts the numbers that are read of it.
pub record Header : Type 0 where
  pub convertible : Bool
  pub old_start : ℕ
  pub declared_old : ℕ
  pub declared_new : ℕ

infixl 5 ◌>>=◌
abbrev ◌>>=◌ {ℓ κ} : {A : Type ℓ} {B : Type κ} → Option A → (A → Option B) → Option B
none >>= f = none
some a >>= f = f a

-- `_HUNK_HEADER_RE`; `digit` gives the value of a character that `\d` matches.
module _ (digit : ℕ → Option ℕ) where
  -- `\d+`, and the number that `int` reads from it
  unfoldable pub digits : ℕ → Line → ℕ × Line
  digits n [] = (n, [])
  digits n (c ∷ cs) = elim (digit c) [ none ↦ (n, c ∷ cs) | some d ↦ digits (n * 10 + d) cs ]

  unfoldable pub number : Line → Option (ℕ × Line)
  unfolding digits
  number [] = none
  number (c ∷ cs) = elim (digit c) [ none ↦ none | some d ↦ some (digits d cs) ]

  -- `(?:,(\d+))?`, where an omitted count means 1
  unfoldable pub count : Line → Option (ℕ × Line)
  unfolding number
  count [] = some (1, [])
  count (c ∷ cs) = if eqb c 44 then number cs else some (1, c ∷ cs)

  unfoldable pub match_header : Line → Option Header
  unfolding number count after_prefix codes
  match_header line = do
    a ← after_prefix (codes "@@ -") line
    (old_start, b) ← number a
    (declared_old, c) ← count b
    d ← after_prefix (codes " +") c
    (new_start, e) ← number d
    (declared_new, f) ← count e
    g ← after_prefix (codes " @@") f
    some (record {
      convertible =
          leb (length a - length b) max_str_digits
          && leb (length b - length c) (max_str_digits + 1)
          && leb (length e - length f) (max_str_digits + 1);
      old_start = old_start;
      declared_old = declared_old;
      declared_new = declared_new;
    })

-- What a line of a hunk's body does.
pub data Edit : Type 0 where
  context : Bytes → Edit
  delete : Bytes → Edit
  add : Bytes → Edit

pub data Reading : Type 0 where
  edit : Edit → Reading
  marker : Reading
  malformed : Reading

-- The tag of a line, with its body's bytes.
unfoldable pub read_tag : ℕ → Line → Bytes → Reading
unfolding after_prefix codes
read_tag tag line body =
    if eqb tag 32
    then edit (context body)
    else if eqb tag 45
    then edit (delete body)
    else if eqb tag 43
    then edit (add body)
    else if eqb tag 92 && starts_with (codes "\\ ") line
    then marker
    else malformed

-- A line, and whether a "\ No newline" line follows; an empty line is a blank line of context.
unfoldable pub read_line : Line → Bool → Reading
unfolding read_tag utf8
read_line [] no_newline = edit (context (10 ∷ []))
read_line (tag ∷ body) no_newline =
    read_tag tag (tag ∷ body) (if no_newline then utf8 body else utf8 (body ++ 10 ∷ []))

-- `PatchApplyError`, by its cause
pub data PatchApplyError : Type 0 where
  malformed_header beyond_end out_of_order mismatch malformed_line count_mismatch no_hunks :
      PatchApplyError
  out_of_fuel : PatchApplyError

-- What the applier returns or raises; `value_error` is the ValueError of `int`.
pub data Result (A : Type 0) : Type 0 where
  ok : A → Result A
  failed : PatchApplyError → Result A
  value_error : Result A

-- `out_lines`, `src_cursor`, `actual_old` and `actual_new`
pub record Progress : Type 0 where
  pub out_lines : List Bytes
  pub src_cursor : ℕ
  pub actual_old : ℕ
  pub actual_new : ℕ

-- `src_cursor >= len(src_lines) or src_lines[src_cursor] != expected`
unfoldable pub matches_source : List Bytes → ℕ → Bytes → Bool
unfolding get_elem? bytes_eq
matches_source src cursor expected = elim (get_elem? src cursor) [
  | none ↦ false
  | some line ↦ bytes_eq line expected
]

unfoldable pub apply_edit : List Bytes → Edit → Progress → Result Progress
unfolding matches_source
apply_edit src (context line) s =
    if matches_source src s.src_cursor line
    then ok (record {
      out_lines = s.out_lines ++ line ∷ [];
      src_cursor = s.src_cursor + 1;
      actual_old = s.actual_old + 1;
      actual_new = s.actual_new + 1;
    })
    else failed mismatch
apply_edit src (delete line) s =
    if matches_source src s.src_cursor line
    then ok (record {
      out_lines = s.out_lines;
      src_cursor = s.src_cursor + 1;
      actual_old = s.actual_old + 1;
      actual_new = s.actual_new;
    })
    else failed mismatch
apply_edit src (add line) s = ok (record {
  out_lines = s.out_lines ++ line ∷ [];
  src_cursor = s.src_cursor;
  actual_old = s.actual_old;
  actual_new = s.actual_new + 1;
})

unfoldable pub apply_reading : List Bytes → Reading → Progress → Result Progress
unfolding apply_edit
apply_reading src (edit e) s = apply_edit src e s
apply_reading src marker s = ok s
apply_reading src malformed s = failed malformed_line

abbrev pub and_then : {A B : Type 0} → Result A → (A → Result B) → Result B
and_then (ok a) f = f a
and_then (failed e) f = failed e
and_then value_error f = value_error

-- The loop over the body of a hunk: it ends before the next header, and a line that a "\ No newline"
-- line follows takes that line along, unless it is empty.
unfoldable pub hunk_body : List Bytes → List Line → Progress → Result (Progress × List Line)
unfolding is_hunk_start is_no_newline read_line apply_reading
hunk_body src [] s = ok (s, [])
hunk_body src (l ∷ []) s =
    if is_hunk_start l
    then ok (s, l ∷ [])
    else and_then (apply_reading src (read_line l false) s) (λ s'. ok (s', []))
hunk_body src ([] ∷ m ∷ ms) s =
    and_then (apply_reading src (read_line [] false) s) (λ s'. hunk_body src (m ∷ ms) s')
hunk_body src ((c ∷ cs) ∷ m ∷ ms) s =
    if is_hunk_start (c ∷ cs)
    then ok (s, (c ∷ cs) ∷ m ∷ ms)
    else if is_no_newline m
    then and_then (apply_reading src (read_line (c ∷ cs) true) s) (λ s'. hunk_body src ms s')
    else and_then (apply_reading src (read_line (c ∷ cs) false) s) (λ s'. hunk_body src (m ∷ ms) s')

-- Where a hunk begins: an empty old range stands after the line `old_start`.
abbrev pub hunk_src_index : Header → ℕ
hunk_src_index h = if eqb h.declared_old 0 then h.old_start else h.old_start - 1

-- `out_lines`, `src_cursor` and `hunks_applied`
pub record Applied : Type 0 where
  pub out_lines : List Bytes
  pub src_cursor : ℕ
  pub hunks_applied : ℕ

abbrev pub is_beyond_end : List Bytes → Header → Bool
is_beyond_end src h = eqb h.declared_old 0 && ltb (length src) (hunk_src_index h)

-- The state in which a hunk's body begins: the lines between the hunks are copied.
abbrev pub begin_hunk : List Bytes → Header → Applied → Progress
begin_hunk src h s = record {
  out_lines = s.out_lines ++ take (hunk_src_index h - s.src_cursor) (drop s.src_cursor src);
  src_cursor = hunk_src_index h;
  actual_old = 0;
  actual_new = 0;
}

abbrev pub end_hunk : Progress → ℕ → Applied
end_hunk s n = record { out_lines = s.out_lines; src_cursor = s.src_cursor; hunks_applied = n + 1 }

-- The counts that the header declares are those of the body.
abbrev pub counts_agree : Header → Progress → Bool
counts_agree h s = eqb s.actual_old h.declared_old && eqb s.actual_new h.declared_new

-- The lines from the first hunk header on.
unfoldable pub skip_to_hunk : List Line → List Line
unfolding is_hunk_start
skip_to_hunk [] = []
skip_to_hunk (l ∷ ls) = let rest = skip_to_hunk ls in if is_hunk_start l then l ∷ ls else rest

abbrev pub finish : List Bytes → Result Applied → Result (Bytes × ℕ)
finish src (failed e) = failed e
finish src value_error = value_error
finish src (ok s) =
    if eqb s.hunks_applied 0
    then failed no_hunks
    else ok (join_bytes (s.out_lines ++ drop s.src_cursor src), s.hunks_applied)

abbrev pub patch_lines : String → List Line
patch_lines patch_text = skip_to_hunk (drop_last_empty (split_text (codes patch_text)))

-- The `int` calls of a header that matches
abbrev pub converted : Header → Bool → Result Header
converted h true = ok h
converted h false = value_error

abbrev pub read_header : Option Header → Result Header
read_header none = failed malformed_header
read_header (some h) = converted h h.convertible

module _ (digit : ℕ → Option ℕ) where
  -- The loop over the hunks. Each round takes its header, so the number of lines is enough fuel.
  unfoldable pub apply_hunks : ℕ → List Bytes → List Line → Applied → Result Applied
  unfolding match_header hunk_body control
  apply_hunks zero src lines s = failed out_of_fuel
  apply_hunks (suc fuel) src [] s = ok s
  apply_hunks (suc fuel) src (l ∷ ls) s =
      and_then (read_header (match_header digit (control l))) λ h.
        if is_beyond_end src h
        then failed beyond_end
        else if ltb (hunk_src_index h) s.src_cursor
        then failed out_of_order
        else and_then (hunk_body src ls (begin_hunk src h s)) λ done.
          if counts_agree h done.0
          then apply_hunks fuel src done.1 (end_hunk done.0 s.hunks_applied)
          else failed count_mismatch

  -- `_apply_unified_diff`
  unfoldable pub apply_unified_diff : Bytes → String → Result (Bytes × ℕ)
  unfolding apply_hunks split_lines_keep_ends join_bytes split_text drop_last_empty skip_to_hunk
      codes
  apply_unified_diff original patch_text =
      let src = split_lines_keep_ends original in
      let lines = patch_lines patch_text in
      finish src (
        apply_hunks (suc (length lines)) src lines
          (record { out_lines = []; src_cursor = 0; hunks_applied = 0 }))

  -- `_run_patch`
  unfoldable pub run_patch : Bytes → String → Bool → Result (Bytes × ℕ)
  unfolding apply_unified_diff
  run_patch original patch_text dry_run = elim (apply_unified_diff original patch_text) [
    | failed e ↦ failed e
    | value_error ↦ value_error
    | ok (patched, hunks) ↦ ok ((if dry_run then [] else patched), hunks)
  ]
