-- ===== src/Reader/Address.antt =====
-- An address that is accepted is one that a pointer can hold.
use icebergr.Prelude.{
  ℕ, ◌^◌, ◌<◌, ◌≡◌, some, arith, ok, or_else?, ltb, Bool-cases, Option-cases, inl, inr, ltb→lt,
}
use icebergr.Prelude.Int.{parse_unsigned, number, without_plus}
use icebergr.Prelude.Text.{Text, codes, strip_prefix, trim}
use icebergr.Reader.{parse_addr}

parse_unsigned-lt :
    (bits radix : ℕ) (s : Text) (n : ℕ) → parse_unsigned bits radix s ≡ some n → n < 2 ^ bits
unfolding parse_unsigned
parse_unsigned-lt bits radix s n h = elim (Option-cases (number radix (without_plus s))) [
  | inl e ↦ absurd (ground arith)
  | inr (k, e) ↦ elim (Bool-cases (ltb k (2 ^ bits))) [
    | inl l ↦ let q : k ≡ n = ground arith in rw (← q) (ltb→lt k (2 ^ bits) l)
    | inr l ↦ absurd (ground arith)
  ]
]

-- Whatever text R passes, an address that is accepted is not null and fits 64 bits.
pub parse_addr-bounds :
    (debug why : Text → Text) (addr : Text) (p : ℕ)
    → parse_addr debug why addr ≡ ok p
    → (0 < p) × (p < 2 ^ 64)
unfolding parse_addr
parse_addr-bounds debug why addr p h =
    elim (Option-cases
      (or_else? (strip_prefix (codes "0x") (trim addr)) (strip_prefix (codes "0X") (trim addr)))) [
        | inl e ↦ elim (Option-cases (parse_unsigned 64 10 (trim addr))) [
          | inl a ↦ absurd (ground arith)
          | inr (k, a) ↦
              let q : k ≡ p = ground arith in
              (ground arith, rw (← q) (parse_unsigned-lt 64 10 (trim addr) k a))
        ]
        | inr (hex, e) ↦ elim (Option-cases (parse_unsigned 64 16 hex)) [
          | inl a ↦ absurd (ground arith)
          | inr (k, a) ↦
              let q : k ≡ p = ground arith in
              (ground arith, rw (← q) (parse_unsigned-lt 64 16 hex k a))
        ]
      ]
