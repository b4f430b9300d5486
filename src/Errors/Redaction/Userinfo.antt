-- ===== src/Errors/Redaction/Userinfo.antt =====
-- `scrub_userinfo` withholds what stands before the `@` of every authority.
use icebergr.Prelude.{◌≡◌, [], ◌∷◌, ◌++◌, true, false, Option, none, some, ◌==◌, All}
use icebergr.Prelude.Text.{Text}
use icebergr.Errors.Userinfo.{ends_authority, split_authority, hide_userinfo}

-- one round of the loop before the next
abbrev round : Option (Text × Text) → (Text → Text) → Text → Text
round none go s = s
round (some (head, tail)) go s =
    head ++ hide_userinfo (split_authority tail).0 ++ go (split_authority tail).1

-- every character stays inside the authority
abbrev pub InAuthority : Text → Type 0
InAuthority = All (λ c. ends_authority c ≡ false)

abbrev pub NoAt : Text → Type 0
NoAt = All (λ c. (c == b'@') ≡ false)

abbrev pub EndsAuthority : Text → Type 0
EndsAuthority [] = Unit
EndsAuthority (c ∷ s) = ends_authority c ≡ true
