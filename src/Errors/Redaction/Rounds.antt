-- ===== src/Errors/Redaction/Rounds.antt =====
-- The loop that searches for a key.
use icebergr.Prelude.{
  ℕ, zero, suc, ◌+◌, ◌<◌, ◌≡◌, inl, inr, List, [], ◌∷◌, none, some, arith, Option-cases, length,
  drop,
}
use icebergr.Prelude.Text.{Text, to_ascii_lowercase}
use icebergr.Errors.Params.{find_key, key_cut, key_cuts}
use icebergr.Errors.Redaction.Keys.{find_key-past, length-to_ascii_lowercase}

-- A run of the loop `while let Some(rel) = lower[from..].find(key)`, to its end: the place that it
-- starts at, and the cuts that it pushes. Every round goes on behind the key that it found.
pub data Runs (text lower key : Text) : ℕ → List (ℕ × ℕ) → Type 0 where
  ended : {from : ℕ} → find_key key (drop from lower) ≡ none → Runs text lower key from []
  pushed :
      {from rel : ℕ} {cut : ℕ × ℕ} {cuts : List (ℕ × ℕ)}
      → find_key key (drop from lower) ≡ some rel
      → key_cut text (from + rel) (from + rel + length key) ≡ some cut
      → Runs text lower key (from + rel + length key) cuts
      → Runs text lower key from (cut ∷ cuts)
  passed :
      {from rel : ℕ} {cuts : List (ℕ × ℕ)}
      → find_key key (drop from lower) ≡ some rel
      → key_cut text (from + rel) (from + rel + length key) ≡ none
      → Runs text lower key (from + rel + length key) cuts
      → Runs text lower key from cuts

key_cuts-from :
    (fuel : ℕ) (text lower key : Text) (from : ℕ)
    → 0 < length key
    → length lower < fuel + from
    → Runs text lower key from (key_cuts fuel text lower key from)
unfolding key_cuts
key_cuts-from zero text lower key from n l = Runs.ended (find_key-past key lower from (omega arith))
key_cuts-from (suc fuel) text lower key from n l =
    elim (Option-cases (find_key key (drop from lower))) [
      | inl e ↦ rw (key_cuts, e) (Runs.ended e)
      | inr (r, e) ↦
          let next = from + r + length key in
          let rest = key_cuts-from fuel text lower key next n (omega arith) in
          elim (Option-cases (key_cut text (from + r) next)) [
            | inl k ↦ rw (key_cuts, e, k) (Runs.passed e k rest)
            | inr (cut, k) ↦ rw (key_cuts, e, k) (Runs.pushed e k rest)
          ]
    ]

-- The search for a key that is not empty ends. From the start of any text the loop reaches, in
-- finitely many rounds, a place behind which the key is not found, and the cuts that it has pushed by
-- then are those that `key_cuts` gives with one round more than the text is long.
pub key_cuts-Runs :
    (text key : Text)
    → 0 < length key
    → Runs text
        (to_ascii_lowercase text)
        key
        0
        (key_cuts (suc (length text)) text (to_ascii_lowercase text) key 0)
key_cuts-Runs text key n =
    let same = length-to_ascii_lowercase text in
    key_cuts-from (suc (length text)) text (to_ascii_lowercase text) key 0 n (omega arith)
