-- ===== src/Files/Confine.antt =====
-- safe_path.py, and the path part of safe_fd.py: which paths are beneath an allowed root.
use openclaw_hass_node.Prelude.{
  ℕ, String, Bool, not, ◌&&◌, ◌||◌, Option, none, some, List, [], ◌∷◌, ◌==◌, if◌then◌else◌, ltb,
  length, keep, map, contains, strip_prefix, is_some, Char, code, eqb,
}

-- `pathlib.PurePosixPath`: `/`, `//` or nothing, and the components.
pub record PosixPath : Type 0 where
  pub root : String
  pub parts : List String

-- `text.split(separator)`, of one character
abbrev pub onto_part : Char → List String → List String
onto_part c [] = String.◌∷◌ c "" ∷ []
onto_part c (s ∷ ss) = String.◌∷◌ c s ∷ ss

unfoldable pub split_on : ℕ → String → List String
split_on separator String.[] = "" ∷ []
split_on separator (String.◌∷◌ c s) =
    let rest = split_on separator s in
    if eqb (code c) separator then "" ∷ rest else onto_part c rest

abbrev pub begins_with : String → String → Bool
begins_with s t = is_some (strip_prefix s t)

-- `Path(text)`: empty components and `.` are dropped; two leading slashes are kept apart from one or three.
unfoldable pub path_of_text : String → PosixPath
unfolding split_on strip_prefix
path_of_text s = record {
  root =
      if begins_with s "//" && not (begins_with s "///")
      then "//"
      else if begins_with s "/"
      then "/"
      else "";
  parts = keep (λ part. not (part == "") && not (part == ".")) (split_on 47 s);
}

-- `path.relative_to(root)`: the components beneath the root, and `none` for a `ValueError`
unfoldable pub strip_parts : List String → List String → Option (List String)
strip_parts [] parts = some parts
strip_parts (r ∷ rs) [] = none
strip_parts (r ∷ rs) (p ∷ ps) = let rest = strip_parts rs ps in if r == p then rest else none

unfoldable pub relative_to : PosixPath → PosixPath → Option (List String)
unfolding strip_parts
relative_to path base =
    if PosixPath.root path == PosixPath.root base
    then strip_parts (PosixPath.parts base) (PosixPath.parts path)
    else none

-- `ADDON_ALLOWED_ROOTS`
abbrev pub addon_allowed_roots : List String
addon_allowed_roots = "/config" ∷ "/share" ∷ "/media" ∷ []

-- `real` is `Path(text).resolve(strict=False)`.
module _ (real : String → PosixPath) where
  -- `allowed_roots`, with the value of `OPENCLAW_ALLOWED_ROOTS`
  unfoldable pub allowed_roots : Bool → String → List PosixPath
  unfolding split_on path_of_text
  allowed_roots addon_mode raw =
      if addon_mode
      then map path_of_text addon_allowed_roots
      else if raw == ""
      then []
      else map real (keep (λ part. not (part == "")) (split_on 58 raw))

  pub data Confined : Type 0 where
    confined : PosixPath → Confined
    no_roots : Confined
    out_of_roots : Confined

  -- The loop over the roots
  abbrev pub first_root : PosixPath → List PosixPath → Confined
  first_root resolved [] = out_of_roots
  first_root resolved (base ∷ bases) = elim (relative_to resolved base) [
    | some parts ↦ confined resolved
    | none ↦ first_root resolved bases
  ]

  -- `resolve_safe`
  unfoldable pub resolve_safe : String → List PosixPath → Confined
  unfolding relative_to strip_prefix
  resolve_safe path [] = no_roots
  resolve_safe path (base ∷ bases) =
      if not (begins_with path "/") then out_of_roots else first_root (real path) (base ∷ bases)

-- What `_relative_to_root` gives or raises.
pub data Relative : Type 0 where
  beneath : PosixPath → List String → Relative
  no_allowed_roots : Relative
  out_of_bounds : Relative

-- The longest match so far; of equally long ones the first.
abbrev pub longer :
    Option (PosixPath × List String) → PosixPath → List String → Option (PosixPath × List String)
longer none base parts = some (base, parts)
longer (some (best, rest)) base parts =
    if ltb (length (PosixPath.parts best)) (length (PosixPath.parts base))
    then some (base, parts)
    else some (best, rest)

abbrev pub best_match : Option (PosixPath × List String) → Relative
best_match none = out_of_bounds
best_match (some (base, parts)) = beneath base parts

unfoldable pub match_roots :
    PosixPath → List PosixPath → Option (PosixPath × List String) → Relative
unfolding relative_to
match_roots raw [] best = best_match best
match_roots raw (base ∷ bases) best = elim (relative_to raw base) [
  | none ↦ match_roots raw bases best
  | some parts ↦
      let rest = match_roots raw bases (longer best base parts) in
      if contains parts ".." then out_of_bounds else rest
]

-- `_relative_to_root`
unfoldable pub relative_to_root : String → List PosixPath → Relative
unfolding match_roots path_of_text
relative_to_root path [] = no_allowed_roots
relative_to_root path (base ∷ bases) =
    let raw = path_of_text path in
    if path == "" || PosixPath.root raw == ""
    then out_of_bounds
    else match_roots raw (base ∷ bases) none
