-- ===== src/Files/Patch/Ends.antt =====
-- The applier's loops end.
use openclaw_hass_node.Prelude.{
  ℕ, zero, suc, ◌≤◌, ◌<◌, String, ◌≢◌, ◌≡◌, refl, Bool, true, false, Option, none, some, List, [],
  ◌∷◌, if◌then◌else◌, eqb, ltb, length, arith, Bool-cases, inl, inr,
}
use openclaw_hass_node.Files.Lines.{Bytes, split_lines_keep_ends}
use openclaw_hass_node.Files.Patch.{
  Line, Header, context, delete, add, Reading, edit, marker, malformed, read_line, is_hunk_start,
  is_no_newline, control, match_header, Result, ok, failed, value_error, out_of_fuel, Progress,
  matches_source, apply_edit, apply_reading, hunk_body, and_then, hunk_src_index, Applied,
  is_beyond_end, begin_hunk, end_hunk, counts_agree, converted, read_header, apply_hunks, finish,
  patch_lines, apply_unified_diff,
}

-- The result of a body's loop: an error of the patch, or at most `n` lines are left.
abbrev IsShort : ℕ → Result (Progress × List Line) → Type 0
IsShort n (ok (s, rest)) = length rest ≤ n
IsShort n (failed e) = e ≢ out_of_fuel
IsShort n value_error = true ≡ true

apply_reading-ends :
    (src : List Bytes) (r : Reading) (s : Progress) → apply_reading src r s ≢ failed out_of_fuel
unfolding apply_reading apply_edit
apply_reading-ends src marker s = λ e. cc
apply_reading-ends src malformed s = λ e. cc
apply_reading-ends src (edit (add l)) s = λ e. cc
apply_reading-ends src (edit (context l)) s =
    elim (Bool-cases (matches_source src s.src_cursor l)) [
      | inl e ↦ ground arith
      | inr e ↦ ground arith
    ]
apply_reading-ends src (edit (delete l)) s = elim (Bool-cases (matches_source src s.src_cursor l)) [
  | inl e ↦ ground arith
  | inr e ↦ ground arith
]

IsShort-line :
    (n : ℕ) (r : Result Progress) (f : Progress → Result (Progress × List Line))
    → r ≢ failed out_of_fuel
    → ((s : Progress) → IsShort n (f s))
    → IsShort n (and_then r f)
IsShort-line n (ok s) f e g = g s
IsShort-line n (failed x) f e g = λ h. e (cc)
IsShort-line n value_error f e g = refl

IsShort-le : (m n : ℕ) (r : Result (Progress × List Line)) → m ≤ n → IsShort m r → IsShort n r
IsShort-le m n (ok (s, rest)) le h = omega arith
IsShort-le m n (failed e) le h = h
IsShort-le m n value_error le h = h

IsShort-if :
    (n : ℕ) (b : Bool) (x y : Result (Progress × List Line))
    → IsShort n x
    → IsShort n y
    → IsShort n (if b then x else y)
IsShort-if n true x y p q = p
IsShort-if n false x y p q = q

hunk_body-IsShort :
    (src : List Bytes) (ls : List Line) (s : Progress) → IsShort (length ls) (hunk_body src ls s)
unfolding hunk_body
hunk_body-IsShort src [] s = omega arith
hunk_body-IsShort src (l ∷ []) s =
    IsShort-if 1 (is_hunk_start l) _ _ (omega arith)
      (IsShort-line 1 _ _ (apply_reading-ends src (read_line l false) s) (λ t. omega arith))
hunk_body-IsShort src ([] ∷ m ∷ ms) s =
    IsShort-line _ _ _ (apply_reading-ends src (read_line [] false) s)
      λ t. IsShort-le _ _ _ (omega arith) (hunk_body-IsShort src (m ∷ ms) t)
hunk_body-IsShort src ((c ∷ cs) ∷ m ∷ ms) s =
    IsShort-if _ (is_hunk_start (c ∷ cs)) _ _ (omega arith) (
      IsShort-if _ (is_no_newline m) _ _
        (IsShort-line _ _ _ (apply_reading-ends src (read_line (c ∷ cs) true) s)
          λ t. IsShort-le _ _ _ (omega arith) (hunk_body-IsShort src ms t))
        (IsShort-line _ _ _ (apply_reading-ends src (read_line (c ∷ cs) false) s)
          λ t. IsShort-le _ _ _ (omega arith) (hunk_body-IsShort src (m ∷ ms) t)))

if-ends :
    {A : Type 0} (b : Bool) (x y : Result A)
    → x ≢ failed out_of_fuel
    → y ≢ failed out_of_fuel
    → (if b then x else y) ≢ failed out_of_fuel
if-ends true x y p q = p
if-ends false x y p q = q

converted-ends :
    {B : Type 0} (h : Header) (b : Bool) (f : Header → Result B)
    → f h ≢ failed out_of_fuel
    → and_then (converted h b) f ≢ failed out_of_fuel
converted-ends h true f n = n
converted-ends h false f n = λ e. cc

header-ends :
    {B : Type 0} (o : Option Header) (f : Header → Result B)
    → ((h : Header) → f h ≢ failed out_of_fuel)
    → and_then (read_header o) f ≢ failed out_of_fuel
header-ends none f g = λ e. cc
header-ends (some h) f g = converted-ends h h.convertible f (g h)

body-ends :
    {B : Type 0} (n : ℕ) (r : Result (Progress × List Line)) (f : Progress × List Line → Result B)
    → IsShort n r
    → ((s : Progress) (rest : List Line) → length rest ≤ n → f (s, rest) ≢ failed out_of_fuel)
    → and_then r f ≢ failed out_of_fuel
body-ends n (ok (s, rest)) f h g = g s rest h
body-ends n (failed x) f h g = λ e. h (cc)
body-ends n value_error f h g = λ e. cc

module _ (digit : ℕ → Option ℕ) where
  apply_hunks-ends :
      (fuel : ℕ) (src : List Bytes) (lines : List Line) (s : Applied)
      → length lines < fuel
      → apply_hunks digit fuel src lines s ≢ failed out_of_fuel
  unfolding apply_hunks
  apply_hunks-ends zero src lines s lt = elim lt [ ]
  apply_hunks-ends (suc fuel) src [] s lt = λ e. cc
  apply_hunks-ends (suc fuel) src (l ∷ ls) s lt =
      header-ends (match_header digit (control l)) _ λ h.
        if-ends (is_beyond_end src h) _ _ (λ e. cc)
          (if-ends (ltb (hunk_src_index h) s.src_cursor) _ _ (λ e. cc)
            (body-ends (length ls) (hunk_body src ls (begin_hunk src h s)) _
              (hunk_body-IsShort src ls (begin_hunk src h s))
              λ done rest short.
                if-ends (counts_agree h done) _ _
                  (apply_hunks-ends fuel src rest (end_hunk done s.hunks_applied) (omega arith))
                  (λ e. cc)))

  finish-ends :
      (src : List Bytes) (r : Result Applied)
      → r ≢ failed out_of_fuel
      → finish src r ≢ failed out_of_fuel
  finish-ends src (ok s) n = if-ends (eqb s.hunks_applied 0) _ _ (λ e. cc) (λ e. cc)
  finish-ends src (failed x) n = λ e. n (cc)
  finish-ends src value_error n = λ e. cc

  -- The loops over hunks and their lines always end: every patch of every file applies, or is refused
  -- for a fault of the patch, or raises the ValueError of a number that has too many digits.
  pub apply_unified_diff-ends :
      (original : Bytes) (patch_text : String)
      → apply_unified_diff digit original patch_text ≢ failed out_of_fuel
  unfolding apply_unified_diff
  apply_unified_diff-ends original patch_text =
      let src = split_lines_keep_ends original in
      let lines = patch_lines patch_text in
      finish-ends src _ (apply_hunks-ends (suc (length lines)) src lines _ (omega arith))
