-- ===== src/Build/Lock.antt =====
-- The reading of Cargo.lock by src/rust/build.rs.
use icebergr.Prelude.{
  ◌≡◌, refl, List, [], ◌∷◌, ◌++◌, true, false, Option, none, some, if◌then◌else◌, and_then,
  unwrap_or, All, arith, ◌==◌, ◌&&◌,
}
use icebergr.Prelude.Text.{Text, codes, text_eq, trim, strip_prefix, strip_suffix, starts_with}

-- `str::lines`: a line ends at a line feed, which a carriage return may precede; there is no line after
-- the last line feed.
unfoldable pub lines : Text → List Text
lines [] = []
lines (c ∷ s) =
    let rest = lines s in
    if c == b'\n'
    then [] ∷ rest
    else if c == b'\r' && starts_with (codes "\n") s
    then rest
    else elim rest [ [] ↦ (c ∷ []) ∷ [] | l ∷ ls ↦ (c ∷ l) ∷ ls ]

-- the loop over the lines that are left
unfoldable pub find_version : Text → List Text → Option Text
find_version header [] = none
find_version header (line ∷ []) = none
find_version header (line ∷ next ∷ rest) =
    let later = find_version header (next ∷ rest) in
    if text_eq (trim line) header
    then and_then (strip_prefix (codes "version = \"") (trim next)) (strip_suffix (codes "\""))
    else later

abbrev pub header_of : Text → Text
header_of name = codes "name = \"" ++ name ++ codes "\""

unfoldable pub locked_version : Text → Text → Option Text
unfolding lines find_version
locked_version lock name = find_version (header_of name) (lines lock)

-- what `main` puts into the environment; no lock file reads as an empty one
unfoldable pub versions : Option Text → List (Text × Text)
unfolding locked_version
versions lock =
    let text = unwrap_or lock [] in
    (
      codes "ICEBERGR_ICEBERG_VERSION",
      unwrap_or (locked_version text (codes "iceberg")) (codes "unknown"),
    )
    ∷ (
      codes "ICEBERGR_ARROW_VERSION",
      unwrap_or (locked_version text (codes "arrow")) (codes "unknown"),
    )
    ∷ []

strip_suffix-append : (v : Text) → strip_suffix (codes "\"") (v ++ codes "\"") ≡ some v
strip_suffix-append [] = refl
strip_suffix-append (c ∷ []) = ground arith
strip_suffix-append (c ∷ d ∷ v) = let ih = strip_suffix-append (d ∷ v) in ground arith

find_version-first :
    (header v line next : Text) (before after : List Text)
    → All (λ (l : Text). text_eq (trim l) header ≡ false) before
    → text_eq (trim line) header ≡ true
    → trim next ≡ codes "version = \"" ++ v ++ codes "\""
    → find_version header (before ++ line ∷ next ∷ after) ≡ some v
unfolding find_version
find_version-first header v line next [] after h k e =
    rw (find_version, k, e) (strip_suffix-append v)
find_version-first header v line next (l ∷ []) after (h, rest) k e =
    rw (find_version, h) (find_version-first header v line next [] after rest k e)
find_version-first header v line next (l ∷ m ∷ before) after (h, rest) k e =
    rw (find_version, h) (find_version-first header v line next (m ∷ before) after rest k e)

-- Where the lock file's first line that is the name of the package, spaces around it aside, is followed
-- by a line with a version, that version is found.
pub locked_version-first :
    (lock name v line next : Text) (before after : List Text)
    → lines lock ≡ before ++ line ∷ next ∷ after
    → All (λ (l : Text). text_eq (trim l) (header_of name) ≡ false) before
    → text_eq (trim line) (header_of name) ≡ true
    → trim next ≡ codes "version = \"" ++ v ++ codes "\""
    → locked_version lock name ≡ some v
unfolding locked_version
locked_version-first lock name v line next before after split h k e =
    rw (locked_version, split) (find_version-first (header_of name) v line next before after h k e)
