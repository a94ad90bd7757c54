-- ===== src/Files/Patch/Script.antt =====
-- What an applied patch is: the source, with each hunk's old lines replaced by its new ones.
use mathlib.Core.List.{append-nil, append_assoc}
use openclaw_hass_node.Prelude.{
  ℕ, ◌+◌, ◌≡◌, refl, sym, subst, ap, ap₂, ◌∙◌, Bool, true, false, Option, none, some, List, [], ◌∷◌,
  ◌++◌, if◌then◌else◌, length, drop, length-append, arith, Bool-cases, inl, inr,
}
use openclaw_hass_node.Files.Lines.{Bytes, bytes_eq, eq_of_bytes_eq, get_elem?, drop-get_elem?}
use openclaw_hass_node.Files.Patch.{
  Line, Edit, context, delete, add, Reading, edit, marker, malformed, read_line, is_hunk_start,
  is_no_newline, Result, ok, failed, value_error, Progress, matches_source, apply_edit,
  apply_reading, hunk_body, and_then,
}

-- The lines of the source that edits take, and the lines that they leave in their place.
unfoldable pub before : List Edit → List Bytes
before [] = []
before (context l ∷ es) = l ∷ before es
before (delete l ∷ es) = l ∷ before es
before (add l ∷ es) = before es

unfoldable pub after : List Edit → List Bytes
after [] = []
after (context l ∷ es) = l ∷ after es
after (delete l ∷ es) = after es
after (add l ∷ es) = l ∷ after es

before-append : (es fs : List Edit) → before (es ++ fs) ≡ before es ++ before fs
unfolding before
before-append [] fs = refl
before-append (context l ∷ es) fs = ap (λ (ls : List Bytes). l ∷ ls) (before-append es fs)
before-append (delete l ∷ es) fs = ap (λ (ls : List Bytes). l ∷ ls) (before-append es fs)
before-append (add l ∷ es) fs = before-append es fs

after-append : (es fs : List Edit) → after (es ++ fs) ≡ after es ++ after fs
unfolding after
after-append [] fs = refl
after-append (context l ∷ es) fs = ap (λ (ls : List Bytes). l ∷ ls) (after-append es fs)
after-append (delete l ∷ es) fs = after-append es fs
after-append (add l ∷ es) fs = ap (λ (ls : List Bytes). l ∷ ls) (after-append es fs)

-- The edits of a hunk's body, read off the patch alone, and the lines that follow it.
abbrev pub edits_of : Reading → Option (List Edit)
edits_of (edit e) = some (e ∷ [])
edits_of marker = some []
edits_of malformed = none

abbrev pub prepend :
    Option (List Edit) → Option (List Edit × List Line) → Option (List Edit × List Line)
prepend none later = none
prepend (some es) none = none
prepend (some es) (some (fs, rest)) = some (es ++ fs, rest)

unfoldable pub parse_body : List Line → Option (List Edit × List Line)
unfolding is_hunk_start is_no_newline read_line
parse_body [] = some ([], [])
parse_body (l ∷ []) =
    if is_hunk_start l
    then some ([], l ∷ [])
    else prepend (edits_of (read_line l false)) (some ([], []))
parse_body ([] ∷ m ∷ ms) = prepend (edits_of (read_line [] false)) (parse_body (m ∷ ms))
parse_body ((c ∷ cs) ∷ m ∷ ms) =
    let long = parse_body ms in
    let short = parse_body (m ∷ ms) in
    if is_hunk_start (c ∷ cs)
    then some ([], (c ∷ cs) ∷ m ∷ ms)
    else if is_no_newline m
    then prepend (edits_of (read_line (c ∷ cs) true)) long
    else prepend (edits_of (read_line (c ∷ cs) false)) short

-- The edits lead from one state of the body's loop to another.
pub record Ran (src : List Bytes) (s : Progress) (es : List Edit) (s' : Progress) : Type 0 where
  pub taken : drop s.src_cursor src ≡ before es ++ drop s'.src_cursor src
  pub left : s'.out_lines ≡ s.out_lines ++ after es
  pub cursor : s'.src_cursor ≡ s.src_cursor + length (before es)
  pub old : s'.actual_old ≡ s.actual_old + length (before es)
  pub new : s'.actual_new ≡ s.actual_new + length (after es)

matches_source-eq_some :
    (src : List Bytes) (i : ℕ) (line : Bytes)
    → matches_source src i line ≡ true
    → get_elem? src i ≡ some line
unfolding matches_source
matches_source-eq_some src i line h = go (get_elem? src i) h
  where
    go :
        (o : Option Bytes)
        → elim o as (λ x. Bool) [ none ↦ false | some l ↦ bytes_eq l line ] ≡ true
        → o ≡ some line
    go none h = cc
    go (some l) h = ap some (eq_of_bytes_eq l line h)

Ran-refl : (src : List Bytes) (s : Progress) → Ran src s [] s
unfolding before after
Ran-refl src s = record {
  taken = refl;
  left = sym (append-nil s.out_lines);
  cursor = omega arith;
  old = omega arith;
  new = omega arith;
}

Ran-trans :
    (src : List Bytes) (s s' s'' : Progress) (es fs : List Edit)
    → Ran src s es s'
    → Ran src s' fs s''
    → Ran src s (es ++ fs) s''
Ran-trans src s s' s'' es fs r q = record {
  taken =
      r.taken
      ∙ ap (λ (ls : List Bytes). before es ++ ls) q.taken
      ∙ sym (append_assoc (before es) (before fs) _)
      ∙ ap (λ (ls : List Bytes). ls ++ drop s''.src_cursor src) (sym (before-append es fs));
  left =
      q.left
      ∙ ap (λ (ls : List Bytes). ls ++ after fs) r.left
      ∙ append_assoc s.out_lines (after es) (after fs)
      ∙ ap (λ (ls : List Bytes). s.out_lines ++ ls) (sym (after-append es fs));
  cursor = omega (
    arith,
    r.cursor,
    q.cursor,
    length-append (before es) (before fs),
    ap length (before-append es fs),
  );
  old =
      omega (
        arith,
        r.old,
        q.old,
        length-append (before es) (before fs),
        ap length (before-append es fs),
      );
  new =
      omega
        (arith, r.new, q.new, length-append (after es) (after fs), ap length (after-append es fs));
}

apply_edit-Ran :
    (src : List Bytes) (e : Edit) (s s' : Progress)
    → apply_edit src e s ≡ ok s'
    → Ran src s (e ∷ []) s'
unfolding apply_edit before after
apply_edit-Ran src (context line) s s' h =
    elim (Bool-cases (matches_source src s.src_cursor line)) [
      | inl e ↦
          let d =
            drop-get_elem? s.src_cursor src line (matches_source-eq_some src s.src_cursor line e) in
          ground arith
      | inr e ↦ ground arith
    ]
apply_edit-Ran src (delete line) s s' h = elim (Bool-cases (matches_source src s.src_cursor line)) [
  | inl e ↦
      let d =
        drop-get_elem? s.src_cursor src line (matches_source-eq_some src s.src_cursor line e) in
      ground (arith, append-nil s.out_lines)
  | inr e ↦ ground arith
]
apply_edit-Ran src (add line) s s' h = ground arith

-- A line of a body, read and applied.
apply_reading-Ran :
    (src : List Bytes) (r : Reading) (s s' : Progress)
    → apply_reading src r s ≡ ok s'
    → (es : List Edit) × (edits_of r ≡ some es) × Ran src s es s'
unfolding apply_reading
apply_reading-Ran src (edit e) s s' h = (e ∷ [], refl, apply_edit-Ran src e s s' h)
apply_reading-Ran src marker s s' h =
    let e : s ≡ s' = cc in ([], refl, subst (λ (t : Progress). Ran src s [] t) e (Ran-refl src s))
apply_reading-Ran src malformed s s' h = cc

-- A line and the rest of the body.
abbrev pub IsParsed :
    List Bytes → Progress → Option (List Edit × List Line) → Progress → List Line → Type 0
IsParsed src s parsed s' rest = (es : List Edit) × (parsed ≡ some (es, rest)) × Ran src s es s'

prepend-IsParsed :
    (src : List Bytes) (r : Reading) (s s' s'' : Progress) (later : Option (List Edit × List Line))
    (rest : List Line)
    → apply_reading src r s ≡ ok s'
    → IsParsed src s' later s'' rest
    → IsParsed src s (prepend (edits_of r) later) s'' rest
prepend-IsParsed src r s s' s'' later rest h (fs, p, q) =
    let (es, e, t) = apply_reading-Ran src r s s' h in
    (es ++ fs, ap₂ prepend e p, Ran-trans src s s' s'' es fs t q)

pub and_then-eq-ok :
    {A B : Type 0} (r : Result A) (f : A → Result B) {b : B}
    → and_then r f ≡ ok b
    → (a : A) × (r ≡ ok a) × (f a ≡ ok b)
and_then-eq-ok (ok a) f h = (a, refl, h)
and_then-eq-ok (failed e) f h = cc
and_then-eq-ok value_error f h = cc

-- Nothing is left to do.
IsParsed-done :
    (src : List Bytes) (s s' : Progress) (ls rest : List Line)
    → ◌≡◌ {A = Result (Progress × List Line)} (ok (s, ls)) (ok (s', rest))
    → IsParsed src s (some ([], ls)) s' rest
IsParsed-done src s s' ls rest h =
    let e : s ≡ s' = cc in ([], cc, subst (λ (t : Progress). Ran src s [] t) e (Ran-refl src s))

-- The same test in the loop and in the parser.
IsParsed-if :
    (src : List Bytes) (s s' : Progress) (rest : List Line) (b : Bool)
    (x y : Result (Progress × List Line)) (p q : Option (List Edit × List Line))
    → (x ≡ ok (s', rest) → IsParsed src s p s' rest)
    → (y ≡ ok (s', rest) → IsParsed src s q s' rest)
    → (if b then x else y) ≡ ok (s', rest)
    → IsParsed src s (if b then p else q) s' rest
IsParsed-if src s s' rest true x y p q f g h = f h
IsParsed-if src s s' rest false x y p q f g h = g h

-- One line, and the rest as it is parsed after it.
IsParsed-line :
    (src : List Bytes) (r : Reading) (s s' : Progress) (rest : List Line)
    (k : Progress → Result (Progress × List Line)) (later : Option (List Edit × List Line))
    → ((t : Progress) → k t ≡ ok (s', rest) → IsParsed src t later s' rest)
    → and_then (apply_reading src r s) k ≡ ok (s', rest)
    → IsParsed src s (prepend (edits_of r) later) s' rest
IsParsed-line src r s s' rest k later f h =
    let (t, e, q) = and_then-eq-ok (apply_reading src r s) k h in
    prepend-IsParsed src r s t s' later rest e (f t q)

-- A body that applies is parsed from the patch alone, and its edits are what was done.
pub hunk_body-IsParsed :
    (src : List Bytes) (ls : List Line) (s s' : Progress) (rest : List Line)
    → hunk_body src ls s ≡ ok (s', rest)
    → IsParsed src s (parse_body ls) s' rest
unfolding hunk_body parse_body
hunk_body-IsParsed src [] s s' rest h = IsParsed-done src s s' [] rest h
hunk_body-IsParsed src (l ∷ []) s s' rest h =
    IsParsed-if src s s' rest (is_hunk_start l) _ _ _ _ (IsParsed-done src s s' (l ∷ []) rest)
      (IsParsed-line src (read_line l false) s s' rest _ _ (λ t. IsParsed-done src t s' [] rest)) h
hunk_body-IsParsed src ([] ∷ m ∷ ms) s s' rest h =
    IsParsed-line src (read_line [] false) s s' rest _ _
      (λ t. hunk_body-IsParsed src (m ∷ ms) t s' rest) h
hunk_body-IsParsed src ((c ∷ cs) ∷ m ∷ ms) s s' rest h =
    IsParsed-if src s s' rest (is_hunk_start (c ∷ cs)) _ _ _ _
      (IsParsed-done src s s' ((c ∷ cs) ∷ m ∷ ms) rest)
      (IsParsed-if src s s' rest (is_no_newline m) _ _ _ _
        (IsParsed-line src (read_line (c ∷ cs) true) s s' rest _ _
          (λ t. hunk_body-IsParsed src ms t s' rest))
        (IsParsed-line src (read_line (c ∷ cs) false) s s' rest _ _
          (λ t. hunk_body-IsParsed src (m ∷ ms) t s' rest)))
      h
