-- ===== src/Errors/Redaction/Json.antt =====
-- A secret in a JSON body: `"key": "value"`, its value escaped as JSON escapes it.
use icebergr.Prelude.{
  ℕ, zero, suc, ◌+◌, ◌-◌, ◌<◌, ◌≡◌, refl, ◌∙◌, sym, ap, [], ◌∷◌, ◌++◌, true, false, ◌||◌, some,
  arith, ◌==◌, if◌then◌else◌, Bool-cases, inl, inr, length, drop, get_elem?, All,
}
use mathlib.Core.List.{Memᴰ}
use icebergr.Prelude.Text.{Text, starts_with, to_ascii_lowercase, is_ascii_whitespace, ascii_lower}
use icebergr.Errors.Params.{
  ascii_spaces, quoted_len, value_len, cut_at, value_cut, key_cut, all_cuts, secret_params,
}
use icebergr.Errors.Redaction.Keys.{drop-drop, length-to_ascii_lowercase}
use icebergr.Errors.Redaction.Found.{all_cuts-key_cut}

-- A text between two `quote`s: a backslash before each quote and each backslash.
unfoldable pub escape : ℕ → Text → Text
escape quote [] = []
escape quote (c ∷ s) =
    let rest = escape quote s in if c == b'\\' || c == quote then b'\\' ∷ c ∷ rest else c ∷ rest

quoted_len-backslash :
    (quote d : ℕ) (s : Text) → quoted_len (b'\\' ∷ d ∷ s) quote ≡ suc (suc (quoted_len s quote))
unfolding quoted_len
quoted_len-backslash quote d s = refl

quoted_len-plain :
    (quote c : ℕ) (s : Text)
    → (c == b'\\') ≡ false
    → (c == quote) ≡ false
    → quoted_len (c ∷ s) quote ≡ suc (quoted_len s quote)
unfolding quoted_len
quoted_len-plain quote c [] h k = ground arith
quoted_len-plain quote c (d ∷ s) h k = ground arith

quoted_len-closed :
    (quote : ℕ) (s : Text) → (quote == b'\\') ≡ false → quoted_len (quote ∷ s) quote ≡ 0
unfolding quoted_len
quoted_len-closed quote [] h = ground arith
quoted_len-closed quote (d ∷ s) h = ground arith

-- An escaped value is measured up to its closing quote, whatever it holds and whatever follows.
pub quoted_len-escape :
    (quote : ℕ) (v rest : Text)
    → (quote == b'\\') ≡ false
    → quoted_len (escape quote v ++ quote ∷ rest) quote ≡ length (escape quote v)
unfolding escape
quoted_len-escape quote [] rest h = quoted_len-closed quote rest h
quoted_len-escape quote (c ∷ v) rest h =
    let ih = quoted_len-escape quote v rest h in
    elim (Bool-cases (c == b'\\' || c == quote)) [
      | inl e ↦
          rw (escape, e)
            (quoted_len-backslash quote c (escape quote v ++ quote ∷ rest)
              ∙ ap (λ n. suc (suc n)) ih)
      | inr e ↦
          rw (escape, e)
            (quoted_len-plain quote c (escape quote v ++ quote ∷ rest) (ground arith) (ground arith)
              ∙ ap suc ih)
    ]

-- what stands at an index, and what follows it
at_index :
    (i : ℕ) (s : Text) (c : ℕ) (r : Text)
    → drop i s ≡ c ∷ r
    → (get_elem? s i ≡ some c) × (drop (suc i) s ≡ r)
at_index zero [] c r h = absurd cc
at_index zero (d ∷ s) c r h = (cc, cc)
at_index (suc i) [] c r h = absurd cc
at_index (suc i) (d ∷ s) c r h = at_index i s c r h

drop-prefix : (p r : Text) → drop (length p) (p ++ r) ≡ r
drop-prefix [] r = refl
drop-prefix (c ∷ p) r = drop-prefix p r

past : (i : ℕ) (s p r : Text) → drop i s ≡ p ++ r → drop (i + length p) s ≡ r
past i s p r h = sym (drop-drop (length p) i s) ∙ ap (drop (length p)) h ∙ drop-prefix p r

ascii_spaces-gap :
    (gap : Text) (c : ℕ) (r : Text)
    → All (λ d. is_ascii_whitespace d ≡ true) gap
    → is_ascii_whitespace c ≡ false
    → ascii_spaces (gap ++ c ∷ r) ≡ length gap
unfolding ascii_spaces
ascii_spaces-gap [] c r h k = ground arith
ascii_spaces-gap (d ∷ gap) c r (hd, h) k = let ih = ascii_spaces-gap gap c r h k in ground arith

-- `": "value"`, from the quote that closes the key: `gap` is the white space before the value
abbrev after_key : Text → Text → Text → Text
after_key gap v rest = b'"' ∷ b':' ∷ (gap ++ b'"' ∷ (escape b'"' v ++ b'"' ∷ rest))

escape-length : (quote : ℕ) (v : Text) → 0 < length v → 0 < length (escape quote v)
unfolding escape
escape-length quote [] h = absurd (omega arith)
escape-length quote (c ∷ v) h = ground arith

cut_at-escape :
    (text : Text) (i : ℕ) (v rest : Text)
    → 0 < length v
    → drop i text ≡ escape b'"' v ++ b'"' ∷ rest
    → cut_at text (some b'"') i ≡ some (i, i + length (escape b'"' v))
unfolding cut_at value_len
cut_at-escape text i v rest n h =
    let len : quoted_len (drop i text) b'"' ≡ length (escape b'"' v) =
      rw h (quoted_len-escape b'"' v rest refl) in
    let positive = escape-length b'"' v n in ground arith

value_cut-gap :
    (text : Text) (i : ℕ) (gap v rest : Text)
    → All (λ d. is_ascii_whitespace d ≡ true) gap
    → 0 < length v
    → drop i text ≡ gap ++ b'"' ∷ (escape b'"' v ++ b'"' ∷ rest)
    → value_cut text true i
      ≡ some (suc (i + length gap), suc (i + length gap) + length (escape b'"' v))
unfolding value_cut
value_cut-gap text i gap v rest w n h =
    let spaces : ascii_spaces (drop i text) ≡ length gap =
      rw h (ascii_spaces-gap gap b'"' (escape b'"' v ++ b'"' ∷ rest) w refl) in
    let (quote, value) =
      at_index (i + length gap) text b'"' (escape b'"' v ++ b'"' ∷ rest)
        (past i text gap (b'"' ∷ (escape b'"' v ++ b'"' ∷ rest)) h) in
    let cut = cut_at-escape text (suc (i + length gap)) v rest n value in
    rw (value_cut, spaces, quote) cut

key_cut-after_key :
    (text : Text) (start from : ℕ) (gap v rest : Text)
    → All (λ d. is_ascii_whitespace d ≡ true) gap
    → 0 < length v
    → get_elem? text (start - 1) ≡ some b'"'
    → drop from text ≡ after_key gap v rest
    → key_cut text start from
      ≡ some (from + 3 + length gap, from + 3 + length gap + length (escape b'"' v))
unfolding key_cut
key_cut-after_key text start from gap v rest w n before h =
    let (closes, h1) = at_index from text _ _ h in
    let (colon, h2) = at_index (suc from) text _ _ h1 in
    let none_between : ascii_spaces (drop (suc from) text) ≡ 0 =
      rw h1 (ascii_spaces-gap [] b':' _ tt refl) in
    let plus : suc from + ascii_spaces (drop (suc from) text) ≡ suc from = omega arith in
    let cut = value_cut-gap text (suc (suc from)) gap v rest w n h2 in
    ground (arith, before, closes, plus, colon, cut)

to_ascii_lowercase-append :
    (s t : Text) → to_ascii_lowercase (s ++ t) ≡ to_ascii_lowercase s ++ to_ascii_lowercase t
to_ascii_lowercase-append [] t = refl
to_ascii_lowercase-append (c ∷ s) t = ap (λ r. ascii_lower c ∷ r) (to_ascii_lowercase-append s t)

to_ascii_lowercase-drop :
    (i : ℕ) (s : Text) → drop i (to_ascii_lowercase s) ≡ to_ascii_lowercase (drop i s)
to_ascii_lowercase-drop zero s = refl
to_ascii_lowercase-drop (suc i) [] = refl
to_ascii_lowercase-drop (suc i) (c ∷ s) = to_ascii_lowercase-drop i s

starts_with-append : (p r : Text) → starts_with p (p ++ r) ≡ true
starts_with-append [] r = refl
starts_with-append (c ∷ p) r = ground (arith, starts_with-append p r)

-- A secret member of a JSON object in a text, whatever surrounds it: if its name is a secret key in any
-- case and its value is not empty, then among the cuts is the one that runs from the value's first
-- character to its closing quote, whatever quotes and backslashes the value escapes.
pub all_cuts-escape :
    (before name gap v rest : Text)
    → Memᴰ (to_ascii_lowercase name) secret_params
    → All (λ d. is_ascii_whitespace d ≡ true) gap
    → 0 < length v
    → Memᴰ
        (
          length before + length name + length gap + 4,
          length before + length name + length gap + 4 + length (escape b'"' v),
        )
        (all_cuts (before ++ b'"' ∷ (name ++ after_key gap v rest)) secret_params)
      × (drop
            (length before + length name + length gap + 4)
            (before ++ b'"' ∷ (name ++ after_key gap v rest))
          ≡ escape b'"' v ++ b'"' ∷ rest)
all_cuts-escape before name gap v rest m w n =
    let tail = name ++ after_key gap v rest in
    let text = before ++ b'"' ∷ tail in
    let start = suc (length before) in
    let (opens, at_name) =
      at_index (length before) text b'"' tail (drop-prefix before (b'"' ∷ tail)) in
    let at_end = past start text name (after_key gap v rest) at_name in
    let (_, h1) = at_index (start + length name) text _ _ at_end in
    let (_, h2) = at_index (suc (start + length name)) text _ _ h1 in
    let h3 = past (suc (suc (start + length name))) text gap _ h2 in
    let (_, h4) = at_index (suc (suc (start + length name)) + length gap) text _ _ h3 in
    let at_key : starts_with (to_ascii_lowercase name) (drop start (to_ascii_lowercase text))
        ≡ true =
      rw
        (
          to_ascii_lowercase-drop start text,
          at_name,
          to_ascii_lowercase-append name (after_key gap v rest),
        )
        (starts_with-append (to_ascii_lowercase name)
          (to_ascii_lowercase (after_key gap v rest))) in
    let index0 : start - 1 ≡ length before = omega arith in
    let cut =
      key_cut-after_key text start (start + length name) gap v rest w n (rw index0 opens) at_end in
    let index : start + length name + 3 + length gap
        ≡ length before + length name + length gap + 4 =
      omega arith in
    let index' : suc (suc (suc (start + length name)) + length gap)
        ≡ length before + length name + length gap + 4 =
      omega arith in
    let found =
      all_cuts-key_cut text (to_ascii_lowercase name) start _ m at_key
        (rw (length-to_ascii_lowercase name) cut) in
    (rw (← index) found, rw (← index') h4)
