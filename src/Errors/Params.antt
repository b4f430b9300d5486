-- ===== src/Errors/Params.antt =====
-- `ascii_spaces`, `quoted_len` and `scrub_params` of src/rust/src/errors.rs. Indices count code
-- points.
use icebergr.Prelude.{
  ℕ, zero, suc, ◌+◌, ◌-◌, List, [], ◌∷◌, ◌++◌, Bool, false, not, ◌&&◌, ◌||◌, Option, none, some,
  ◌==◌, ltb, leb, if◌then◌else◌, length, take, drop, get_elem?, is_empty,
}
use icebergr.Prelude.Text.{
  Text, codes, is_whitespace, is_ascii_whitespace, is_ascii_alphanumeric, to_ascii_lowercase,
  strip_prefix,
}
use icebergr.Prelude.Sort.{sort_by}
use icebergr.Errors.Userinfo.{redacted}

abbrev pub secret_params : List Text
secret_params =
    codes "x-amz-signature"
    ∷ codes "x-amz-credential"
    ∷ codes "x-amz-security-token"
    ∷ codes "client_secret"
    ∷ codes "client_id"
    ∷ codes "access_token"
    ∷ codes "refresh_token"
    ∷ codes "id_token"
    ∷ codes "assertion"
    ∷ codes "password"
    ∷ codes "signature"
    ∷ []

unfoldable pub ascii_spaces : Text → ℕ
ascii_spaces [] = 0
ascii_spaces (c ∷ s) = let more = ascii_spaces s in if is_ascii_whitespace c then suc more else 0

unfoldable pub quoted_len : Text → ℕ → ℕ
quoted_len [] quote = 0
quoted_len (c ∷ []) quote = if c == b'\\' then 1 else if c == quote then 0 else 1
quoted_len (c ∷ d ∷ s) quote =
    let escaped = quoted_len s quote in
    let next = quoted_len (d ∷ s) quote in
    if c == b'\\' then suc (suc escaped) else if c == quote then 0 else suc next

-- what ends a value that is not quoted
abbrev pub ends_value : ℕ → Bool
ends_value c =
    c == b'&'
    || c == b'"'
    || c == b'\''
    || c == b')'
    || c == b','
    || c == b';'
    || c == b'}'
    || is_whitespace c

unfoldable pub unquoted_len : Text → ℕ
unquoted_len [] = 0
unquoted_len (c ∷ s) = let more = unquoted_len s in if ends_value c then 0 else suc more

abbrev pub is_quote : Option ℕ → Bool
is_quote none = false
is_quote (some c) = c == b'"' || c == b'\''

-- a character that makes the key the end of a longer word
abbrev continues_word : Option ℕ → Bool
continues_word none = false
continues_word (some c) = is_ascii_alphanumeric c || c == b'_' || c == b'-'

abbrev is_char : ℕ → Option ℕ → Bool
is_char d none = false
is_char d (some c) = c == d

-- the value at `vstart`, up to its end by the quote before it
unfoldable pub value_len : Option ℕ → Text → ℕ
unfolding quoted_len unquoted_len
value_len none value = unquoted_len value
value_len (some q) value = quoted_len value q

-- The cut for the value at `vstart`, none if it is empty.
unfoldable pub cut_at : Text → Option ℕ → ℕ → Option (ℕ × ℕ)
cut_at text quote vstart =
    let vlen = value_len quote (drop vstart text) in
    if ltb 0 vlen then some (vstart, vstart + vlen) else none

-- After the separator at `i`: spaces, an opening quote and the value.
unfoldable pub value_cut : Text → Bool → ℕ → Option (ℕ × ℕ)
value_cut text skip i =
    let i1 = if skip then i + ascii_spaces (drop i text) else i in
    let quote = get_elem? text i1 in
    if is_quote quote then cut_at text quote (suc i1) else cut_at text none i1

-- The body of the inner loop: the key was found at `start` and ends before `from`.
unfoldable pub key_cut : Text → ℕ → ℕ → Option (ℕ × ℕ)
key_cut text start from =
    if ltb 0 start && continues_word (get_elem? text (start - 1))
    then none
    else (let quoted_key = is_quote (get_elem? text from) in
        let i1 = if quoted_key then suc from else from in
        let i2 = i1 + ascii_spaces (drop i1 text) in
        let sep = get_elem? text i2 in
        if not (is_char b'=' sep) && not (is_char b':' sep)
        then none
        else value_cut text (is_char b'=' sep || quoted_key) (suc i2))

-- `find`: the offset of the first occurrence.
unfoldable pub find_key : Text → Text → Option ℕ
find_key key [] = none
find_key key (c ∷ s) =
    let later = find_key key s in
    elim (strip_prefix key (c ∷ s)) [
      | some _ ↦ some 0
      | none ↦ elim later [ none ↦ none | some i ↦ some (suc i) ]
    ]

-- The cuts for one key. Each round moves `from` past an occurrence, so the length of the text is fuel
-- enough.
unfoldable pub key_cuts : ℕ → Text → Text → Text → ℕ → List (ℕ × ℕ)
key_cuts zero text lower key from = []
key_cuts (suc fuel) text lower key from = elim (find_key key (drop from lower)) [
  | none ↦ []
  | some rel ↦
      let start = from + rel in
      let next = start + length key in
      let rest = key_cuts fuel text lower key next in
      elim (key_cut text start next) [ none ↦ rest | some cut ↦ cut ∷ rest ]
]

unfoldable pub all_cuts : Text → List Text → List (ℕ × ℕ)
all_cuts text [] = []
all_cuts text (key ∷ keys) =
    key_cuts (suc (length text)) text (to_ascii_lowercase text) key 0 ++ all_cuts text keys

abbrev pub cut_le : ℕ × ℕ → ℕ × ℕ → Bool
cut_le (s, e) (s', e') = ltb s s' || (s == s' && leb e e')

-- The output loop from `at`. A cut that starts inside the one before it is skipped.
unfoldable pub apply_cuts : Text → ℕ → List (ℕ × ℕ) → Text
apply_cuts text at [] = drop at text
apply_cuts text at ((start, end) ∷ cuts) =
    let skipped = apply_cuts text at cuts in
    let rest = apply_cuts text end cuts in
    if ltb start at then skipped else take (start - at) (drop at text) ++ redacted ++ rest

unfoldable pub scrub_params : Text → Text
unfolding all_cuts key_cuts find_key key_cut value_cut cut_at ascii_spaces value_len sort_by
    apply_cuts
scrub_params text =
    let cuts = all_cuts text secret_params in
    if is_empty cuts then text else apply_cuts text 0 (sort_by cut_le cuts)
