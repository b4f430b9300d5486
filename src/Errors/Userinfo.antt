-- ===== src/Errors/Userinfo.antt =====
-- `scrub_userinfo` of src/rust/src/errors.rs.
use icebergr.Prelude.{
  ℕ, zero, suc, [], ◌∷◌, ◌++◌, Bool, ◌||◌, Option, none, some, ◌==◌, if◌then◌else◌, length,
}
use icebergr.Prelude.Text.{Text, codes, is_whitespace, strip_prefix, rsplit_once}

abbrev pub scheme_mark : Text
scheme_mark = codes "://"

abbrev pub redacted : Text
redacted = codes "<redacted>"

-- where the authority of a URL ends
abbrev pub ends_authority : ℕ → Bool
ends_authority c = c == b'/' || c == b'?' || c == b'#' || is_whitespace c

-- The authority, and what follows it: `split_at` at the first delimiter, or at the end.
unfoldable pub split_authority : Text → Text × Text
split_authority [] = ([], [])
split_authority (c ∷ s) =
    let (a, b) = split_authority s in if ends_authority c then ([], c ∷ s) else (c ∷ a, b)

-- An authority with what stands before its last `@` replaced.
unfoldable pub hide_userinfo : Text → Text
hide_userinfo a = elim (rsplit_once (λ c. c == b'@') a) [
  | some (_, host) ↦ redacted ++ b'@' ∷ host
  | none ↦ a
]

-- The text up to and with the first `://`, and what follows it.
unfoldable pub find_scheme : Text → Option (Text × Text)
find_scheme [] = none
find_scheme (c ∷ s) =
    let later = find_scheme s in
    elim (strip_prefix scheme_mark (c ∷ s)) [
      | some rest ↦ some (scheme_mark, rest)
      | none ↦ elim later [ none ↦ none | some (head, rest) ↦ some (c ∷ head, rest) ]
    ]

-- One round of the loop for each `://`. Each round drops at least three characters, so the length of
-- the text is fuel enough.
unfoldable pub scrub_loop : ℕ → Text → Text
scrub_loop zero rest = rest
scrub_loop (suc fuel) rest = elim (find_scheme rest) [
  | none ↦ rest
  | some (head, tail) ↦
      let (authority, after) = split_authority tail in
      head ++ hide_userinfo authority ++ scrub_loop fuel after
]

unfoldable pub scrub_userinfo : Text → Text
unfolding scrub_loop find_scheme split_authority hide_userinfo
scrub_userinfo text = scrub_loop (length text) text
