-- ===== src/Filter/Json/Escapes.antt =====
-- What the `gsub` calls of `json_string` make of a text, one character at a time.
use icebergr.Prelude.{
  ℕ, ◌≤◌, ◌<◌, ◌≡◌, ◌≢◌, refl, ◌∙◌, sym, ap, List, [], ◌∷◌, ◌++◌, append_assoc, Bool, true, false,
  arith, ◌==◌, if◌then◌else◌, any, all, Bool-cases, inl, inr,
}
use icebergr.Prelude.Text.{Text, codes, text_eq, text_eq→eq, is_hex, hex_value}
use icebergr.Filter.Json.{hex_digit, gsub, unicode_escape, controls, escape_controls, json_string}

-- the body between the quotes, in the same steps
unfoldable pub shortened : Text → Text
unfolding gsub
shortened x = gsub 9 (codes "\\t") (
    gsub 13 (codes "\\r") (
      gsub 10 (codes "\\n") (
        gsub 12 (codes "\\f")
          (gsub 8 (codes "\\b") (gsub b'"' (codes "\\\"") (gsub b'\\' (codes "\\\\") x))))))

unfoldable pub body : Text → Text
unfolding shortened escape_controls
body x = escape_controls controls (shortened x)

pub json_string-body : (x : Text) → json_string x ≡ b'"' ∷ (body x ++ b'"' ∷ [])
unfolding json_string body
json_string-body x = refl

gsub-append : (c : ℕ) (r s t : Text) → gsub c r (s ++ t) ≡ gsub c r s ++ gsub c r t
unfolding gsub
gsub-append c r [] t = refl
gsub-append c r (d ∷ s) t = elim (Bool-cases (d == c)) [
  | inl e ↦
      rw (gsub, e)
        (ap (λ u. r ++ u) (gsub-append c r s t) ∙ sym (append_assoc r (gsub c r s) (gsub c r t)))
  | inr e ↦ rw (gsub, e) (ap (λ u. d ∷ u) (gsub-append c r s t))
]

gsub-absent : (c : ℕ) (r s : Text) → any (λ d. d == c) s ≡ false → gsub c r s ≡ s
unfolding gsub
gsub-absent c r [] h = refl
gsub-absent c r (d ∷ s) h = let ih = gsub-absent c r s (ground arith) in ground arith

-- each round of the loop is a `gsub`
round-gsub :
    (c : ℕ) (s : Text)
    → (if any (λ d. d == c) s then gsub c (unicode_escape c) s else s) ≡ gsub c (unicode_escape c) s
round-gsub c s = elim (Bool-cases (any (λ d. d == c) s)) [
  | inl e ↦ rw e refl
  | inr e ↦ rw e (sym (gsub-absent c (unicode_escape c) s e))
]

escape_controls-gsub :
    (c : ℕ) (cs : List ℕ) (s : Text)
    → escape_controls (c ∷ cs) s ≡ escape_controls cs (gsub c (unicode_escape c) s)
unfolding escape_controls
escape_controls-gsub c cs s = ap (escape_controls cs) (round-gsub c s)

escape_controls-append :
    (cs : List ℕ) (s t : Text)
    → escape_controls cs (s ++ t) ≡ escape_controls cs s ++ escape_controls cs t
unfolding escape_controls
escape_controls-append [] s t = refl
escape_controls-append (c ∷ cs) s t =
    rw
      (
        escape_controls-gsub c cs (s ++ t),
        escape_controls-gsub c cs s,
        escape_controls-gsub c cs t,
        gsub-append c (unicode_escape c) s t,
      )
      (escape_controls-append cs (gsub c (unicode_escape c) s) (gsub c (unicode_escape c) t))

shortened-append : (s t : Text) → shortened (s ++ t) ≡ shortened s ++ shortened t
unfolding shortened
shortened-append s t =
    rw
      (
        gsub-append b'\\' (codes "\\\\") s t,
        gsub-append b'"' (codes "\\\"") _ _,
        gsub-append 8 (codes "\\b") _ _,
        gsub-append 12 (codes "\\f") _ _,
        gsub-append 10 (codes "\\n") _ _,
        gsub-append 13 (codes "\\r") _ _,
        gsub-append 9 (codes "\\t") _ _,
      )
      refl

pub body-cons : (c : ℕ) (s : Text) → body (c ∷ s) ≡ body (c ∷ []) ++ body s
unfolding body
body-cons c s =
    ap (escape_controls controls) (shortened-append (c ∷ []) s)
    ∙ escape_controls-append controls (shortened (c ∷ [])) (shortened s)

-- a character that is written as it is
pub body-plain : (c : ℕ) → 32 ≤ c → c ≢ b'"' → c ≢ b'\\' → body (c ∷ []) ≡ c ∷ []
unfolding body shortened escape_controls gsub
body-plain c l q b = ground arith

-- a test that all of a list pass is passed by each of them
all-any :
    (p : ℕ → Bool) (l : List ℕ) (c : ℕ) → all p l ≡ true → any (λ k. c == k) l ≡ true → p c ≡ true
all-any p [] c h k = cc
all-any p (d ∷ l) c h k = elim (Bool-cases (c == d)) [
  | inl e ↦ let same : c ≡ d = ground arith in rw same (ground arith)
  | inr e ↦ all-any p l c (ground arith) (ground arith)
]

escaped_control : ℕ → Bool
escaped_control c = text_eq (body (c ∷ [])) (unicode_escape c)

all-controls : all escaped_control controls ≡ true
unfolding escaped_control body shortened escape_controls gsub
all-controls = refl

pub body-control : (c : ℕ) → any (λ k. c == k) controls ≡ true → body (c ∷ []) ≡ unicode_escape c
unfolding escaped_control
body-control c h =
    text_eq→eq (body (c ∷ [])) (unicode_escape c)
      (all-any escaped_control controls c all-controls h)

-- A control character has a short form or is one that the loop replaces.
pub control-cases :
    (c : ℕ)
    → c < 32
    → c ≢ 0
    → c ≢ 8
    → c ≢ 9
    → c ≢ 10
    → c ≢ 12
    → c ≢ 13
    → any (λ k. c == k) controls ≡ true
control-cases c l z a b d e f = ground arith

pub hex_digit-is_hex : (d : ℕ) → d < 16 → is_hex (hex_digit d) ≡ true
hex_digit-is_hex d h = ground arith

pub hex_digit-hex_value : (d : ℕ) → d < 16 → hex_value (hex_digit d) ≡ d
hex_digit-hex_value d h = ground arith
