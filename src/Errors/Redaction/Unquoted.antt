-- ===== src/Errors/Redaction/Unquoted.antt =====
-- In a text without quotation marks `scrub_params` skips no cut that it should make.
use icebergr.Prelude.{
  ℕ, zero, suc, ◌+◌, ◌-◌, ◌≤◌, ◌≡◌, refl, inl, inr, List, [], ◌∷◌, Bool, true, false, not, ◌&&◌,
  Option, none, some, arith, ltb, ◌==◌, if◌then◌else◌, Bool-cases, get_elem?, drop, all, All,
}
use icebergr.Prelude.Text.{Text}
use icebergr.Prelude.Sort.{sort_by}
use icebergr.Prelude.Sort.Order.{IsOrdered, sort_by-IsOrdered, All-sort_by}
use icebergr.Errors.Params.{
  ascii_spaces, unquoted_len, value_len, cut_at, value_cut, key_cut, all_cuts, cut_le,
  secret_params, is_quote,
}
use icebergr.Errors.Redaction.Cuts.{all_cuts-All}
use icebergr.Errors.Redaction.Keys.{drop-drop}
use icebergr.Errors.Redaction.Withheld.{are_nested, cut_le_total, IsOrdered-rest}

abbrev pub has_no_quotes : Text → Bool
has_no_quotes = all (λ c. not (c == b'"') && not (c == b'\''))

get_elem?-has_no_quotes :
    (text : Text) (i : ℕ) → has_no_quotes text ≡ true → is_quote (get_elem? text i) ≡ false
get_elem?-has_no_quotes [] i h = refl
get_elem?-has_no_quotes (c ∷ text) zero h = ground arith
get_elem?-has_no_quotes (c ∷ text) (suc i) h = get_elem?-has_no_quotes text i (ground arith)

-- The cut runs to the end of the value that starts there.
abbrev IsRun : Text → ℕ × ℕ → Type 0
IsRun text (start, end) = end ≡ start + unquoted_len (drop start text)

cut_at-IsRun : (text : Text) (i : ℕ) (cut : ℕ × ℕ) → cut_at text none i ≡ some cut → IsRun text cut
unfolding cut_at value_len
cut_at-IsRun text i (start, end) h = ground arith

value_cut-IsRun :
    (text : Text) (skip : Bool) (i : ℕ) (cut : ℕ × ℕ)
    → has_no_quotes text ≡ true
    → value_cut text skip i ≡ some cut
    → IsRun text cut
unfolding value_cut
value_cut-IsRun text skip i cut n h =
    let at = if skip then i + ascii_spaces (drop i text) else i in
    cut_at-IsRun text at cut (unquoted _ _ _ (get_elem?-has_no_quotes text at n) h)
  where
    unquoted :
        (b : Bool) (x y : Option (ℕ × ℕ))
        → b ≡ false
        → (if b then x else y) ≡ some cut
        → y ≡ some cut
    unquoted true x y e h = absurd cc
    unquoted false x y e h = h

key_cut-IsRun :
    (text : Text)
    → has_no_quotes text ≡ true
    → (start from : ℕ) (cut : ℕ × ℕ) → key_cut text start from ≡ some cut
    → IsRun text cut
unfolding key_cut
key_cut-IsRun text n start from cut h =
    value_cut-IsRun text _ _ cut n (unless _ _ cut (unless _ _ cut h))
  where
    unless :
        (b : Bool) (x : Option (ℕ × ℕ)) (cut : ℕ × ℕ)
        → (if b then none else x) ≡ some cut
        → x ≡ some cut
    unless true x cut e = cc
    unless false x cut e = e

-- A value that starts inside another ends where that one does.
unquoted_len-drop :
    (k : ℕ) (s : Text) → k ≤ unquoted_len s → k + unquoted_len (drop k s) ≡ unquoted_len s
unfolding unquoted_len
unquoted_len-drop zero s h = omega arith
unquoted_len-drop (suc k) [] h = absurd (omega arith)
unquoted_len-drop (suc k) (c ∷ s) h = ground (arith, unquoted_len-drop k s)

plus_minus : (a b : ℕ) → a ≤ b → a + (b - a) ≡ b
plus_minus a b h = omega arith

IsRun-end :
    (text : Text) (p at start end : ℕ)
    → IsRun text (p, at)
    → IsRun text (start, end)
    → p ≤ start
    → start ≤ at
    → end ≡ at
IsRun-end text p at start end h k l m =
    let same : drop (start - p) (drop p text) ≡ drop start text =
      rw (drop-drop (start - p) p text, plus_minus p start l) refl in
    let run = unquoted_len-drop (start - p) (drop p text) (omega arith) in
    let run' : (start - p) + unquoted_len (drop start text) ≡ unquoted_len (drop p text) =
      rw (← same) run in
    omega arith

-- the start of a cut that is at most each of the cuts
abbrev StartsBy : ℕ → List (ℕ × ℕ) → Type 0
StartsBy p [] = Unit
StartsBy p ((start, end) ∷ cuts) = p ≤ start

IsOrdered-StartsBy :
    (p start end : ℕ) (cuts : List (ℕ × ℕ))
    → p ≤ start
    → IsOrdered cut_le ((start, end) ∷ cuts)
    → StartsBy p cuts
IsOrdered-StartsBy p start end [] h o = tt
IsOrdered-StartsBy p start end ((s, e) ∷ cuts) h (k, o) = ground arith

are_nested-IsRun :
    (text : Text) (p at : ℕ) (cuts : List (ℕ × ℕ))
    → IsRun text (p, at)
    → StartsBy p cuts
    → IsOrdered cut_le cuts
    → All (IsRun text) cuts
    → are_nested at cuts ≡ true
are_nested-IsRun text p at [] h b o r = refl
are_nested-IsRun text p at ((start, end) ∷ cuts) h b o (q, r) =
    let rest = IsOrdered-rest (start, end) cuts o in
    elim (Bool-cases (ltb start at)) [
      | inl l ↦
          let same = IsRun-end text p at start end h q b (ground arith) in
          let ih =
            are_nested-IsRun text p at cuts h (IsOrdered-StartsBy p start end cuts b o) rest r in
          ground arith
      | inr l ↦
          let ih =
            are_nested-IsRun text start end cuts q
              (IsOrdered-StartsBy start start end cuts (omega arith) o) rest r in
          ground arith
    ]

-- In a text without quotation marks every cut that starts inside the ones before it ends inside them.
pub all_cuts-are_nested :
    (text : Text)
    → has_no_quotes text ≡ true
    → are_nested 0 (sort_by cut_le (all_cuts text secret_params)) ≡ true
all_cuts-are_nested text n =
    let cuts = all_cuts text secret_params in
    from_start (sort_by cut_le cuts) (sort_by-IsOrdered cut_le cut_le_total cuts) (
      All-sort_by cut_le (IsRun text) cuts
        (all_cuts-All (IsRun text) text (key_cut-IsRun text n) secret_params))
  where
    from_start :
        (cuts : List (ℕ × ℕ))
        → IsOrdered cut_le cuts
        → All (IsRun text) cuts
        → are_nested 0 cuts ≡ true
    from_start [] o r = refl
    from_start ((start, end) ∷ cuts) o (q, r) =
        let ih =
          are_nested-IsRun text start end cuts q
            (IsOrdered-StartsBy start start end cuts (omega arith) o)
            (IsOrdered-rest (start, end) cuts o) r in
        ground arith
