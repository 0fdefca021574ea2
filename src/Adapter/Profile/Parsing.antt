-- ===== src/Adapter/Profile/Parsing.antt =====
-- What a replay profile with a number is read as.
use native.Mathlib.Numerals.{unary_clauses}
use ganglion.Prelude.{
  ℕ, zero, suc, ◌+◌, ◌*◌, ◌^◌, ◌≤◌, ◌<◌, some, none, false, List, [], ◌∷◌, ◌++◌, ◌≡◌, ◌==◌, leb,
  length, All, refl, ap, ◌∙◌, arith, if◌then◌else◌, u64_max, ok, err, same, Bool-cases, inl, inr,
}
use ganglion.Core.Model.{Str, str_eq}
use ganglion.Adapter.Error.{config, invalid_tail_limit, invalid_profile}
use ganglion.Adapter.Profile.{
  truncate_tail_profile, to_ascii_lowercase, parse_digits, parse_usize, tail_prefix,
  truncate_tail_prefix, ProfileResult, parse_tail_limit, from_normalized, from_str,
}

-- Digits, the first the most significant, and their bytes.
abbrev AreDigits : List ℕ → Type 0
AreDigits ds = All (λ d. d < 10) ds

abbrev decimal : List ℕ → ℕ
decimal [] = 0
decimal (d ∷ ds) = d * 10 ^ length ds + decimal ds

abbrev ascii : List ℕ → Str
ascii [] = []
ascii (d ∷ ds) = (48 + d) ∷ ascii ds

positive_pow : (n : ℕ) → 1 ≤ 10 ^ n
positive_pow zero = omega arith
positive_pow (suc n) = omega (arith, positive_pow n)

grows : (n p : ℕ) → 1 ≤ p → n ≤ n * p
grows zero p h = omega arith
grows (suc n) p h = omega (arith, grows n p h)

shift : (v d n e : ℕ) → v * 10 ^ suc n + (d * 10 ^ n + e) ≡ (v * 10 + d) * 10 ^ n + e
shift v d n e = simp unary_clauses (omega arith)

parse_digits-ascii :
    (ds : List ℕ) (v : ℕ)
    → AreDigits ds
    → v ≤ u64_max
    → parse_digits v (ascii ds) ≡ (
        if leb (v * 10 ^ length ds + decimal ds) u64_max
        then some (v * 10 ^ length ds + decimal ds)
        else none)
unfolding parse_digits
parse_digits-ascii [] v h b = ground arith
parse_digits-ascii (d ∷ ds) v h b =
    let n = v * 10 + d in
    let p = 10 ^ length ds in
    let whole : v * 10 ^ suc (length ds) + (d * p + decimal ds) ≡ n * p + decimal ds =
      shift v d (length ds) (decimal ds) in
    let above = grows n p (positive_pow (length ds)) in
    elim (Bool-cases (leb n u64_max)) [
      | inl fits ↦ ground (arith, parse_digits-ascii ds n h.1 (ground arith))
      | inr large ↦ ground arith
    ]

parse_usize-ascii :
    (d : ℕ) (ds : List ℕ)
    → AreDigits (d ∷ ds)
    → parse_usize (ascii (d ∷ ds))
      ≡ (if leb (decimal (d ∷ ds)) u64_max then some (decimal (d ∷ ds)) else none)
unfolding parse_usize
parse_usize-ascii d [] h = ground (arith, parse_digits-ascii (d ∷ []) 0 h)
parse_usize-ascii d (c ∷ ds) h = ground (arith, parse_digits-ascii (d ∷ c ∷ ds) 0 h)

lowercase-ascii : (ds : List ℕ) → AreDigits ds → to_ascii_lowercase (ascii ds) ≡ ascii ds
lowercase-ascii [] h = refl
lowercase-ascii (d ∷ ds) h = ground (arith, lowercase-ascii ds h.1)

-- The profile for a number that was written out, which has to fit a `usize`; the error quotes the
-- text.
abbrev tail_of : ℕ → ProfileResult → ProfileResult
tail_of n too_large = if leb n u64_max then ok (truncate_tail_profile n) else too_large

-- A text that begins with a digit is none of the words.
differs : (b c : ℕ) (bs cs : Str) → b < c → ((b ∷ bs) == (c ∷ cs)) ≡ false
unfolding same
differs b c bs cs h = ground arith

differs_from_empty : (b : ℕ) (bs : Str) → ((b ∷ bs) == []) ≡ false
unfolding same
differs_from_empty b bs = refl

from_normalized-digit :
    (raw : Str) (c : ℕ) (cs : Str)
    → c < 58
    → from_normalized raw (c ∷ cs) ≡ (elim (parse_usize (c ∷ cs)) [
      | none ↦ err (config (invalid_profile raw))
      | some n ↦ ok (truncate_tail_profile n)
    ])
unfolding from_normalized
from_normalized-digit raw c cs h =
    rw
      (
        differs_from_empty c cs,
        differs c 100 cs (101 ∷ 102 ∷ 97 ∷ 117 ∷ 108 ∷ 116 ∷ []) (omega arith),
        differs c 115 cs (116 ∷ 114 ∷ 105 ∷ 99 ∷ 116 ∷ []) (omega arith),
        differs c 114 cs (101 ∷ 115 ∷ 105 ∷ 108 ∷ 105 ∷ 101 ∷ 110 ∷ 116 ∷ []) (omega arith),
      )
      (ground arith)

from_normalized-tail :
    (raw s : Str)
    → (from_normalized raw (tail_prefix ++ s) ≡ parse_tail_limit s)
      × (from_normalized raw (truncate_tail_prefix ++ s) ≡ parse_tail_limit s)
unfolding from_normalized same
from_normalized-tail raw s = (refl, refl)

parse_tail_limit-ascii :
    (d : ℕ) (ds : List ℕ)
    → AreDigits (d ∷ ds)
    → parse_tail_limit (ascii (d ∷ ds))
      ≡ tail_of (decimal (d ∷ ds)) (err (config (invalid_tail_limit (ascii (d ∷ ds)))))
unfolding parse_tail_limit
parse_tail_limit-ascii d ds h = ground (arith, parse_usize-ascii d ds h)

from_str-of_normal :
    (trim : Str → Str) (s : Str)
    → trim s ≡ s
    → to_ascii_lowercase s ≡ s
    → from_str trim s ≡ from_normalized s s
unfolding from_str
from_str-of_normal trim s t l = ap (from_normalized s) (ap to_ascii_lowercase t ∙ l)

module _ (trim : Str → Str) (d : ℕ) (ds : List ℕ) (digits : AreDigits (d ∷ ds)) where
  -- A text that is only digits, and the same after `tail:` or `truncate_tail:`, is read as the
  -- profile with that number, which is the sum of the digits times their powers of ten, if it
  -- fits a `usize`, and is refused otherwise, with the whole text or the digits quoted. Nothing is
  -- trimmed off the text.
  from_str-ascii :
      trim (ascii (d ∷ ds)) ≡ ascii (d ∷ ds)
      → trim (tail_prefix ++ ascii (d ∷ ds)) ≡ tail_prefix ++ ascii (d ∷ ds)
      → trim (truncate_tail_prefix ++ ascii (d ∷ ds)) ≡ truncate_tail_prefix ++ ascii (d ∷ ds)
      → (from_str trim (ascii (d ∷ ds))
          ≡ tail_of (decimal (d ∷ ds)) (err (config (invalid_profile (ascii (d ∷ ds))))))
        × ((from_str trim (tail_prefix ++ ascii (d ∷ ds))
              ≡ tail_of (decimal (d ∷ ds)) (err (config (invalid_tail_limit (ascii (d ∷ ds))))))
            × (from_str trim (truncate_tail_prefix ++ ascii (d ∷ ds))
                ≡ tail_of (decimal (d ∷ ds)) (err (config (invalid_tail_limit (ascii (d ∷ ds)))))))
  from_str-ascii bare tail truncate =
      let lower = lowercase-ascii (d ∷ ds) digits in
      let limit = parse_tail_limit-ascii d ds digits in
      (
        from_str-of_normal trim _ bare lower
            ∙ from_normalized-digit (ascii (d ∷ ds)) (48 + d) (ascii ds) (omega arith)
            ∙ ground (arith, parse_usize-ascii d ds digits),
        (
          from_str-of_normal trim _ tail (ap (λ s. tail_prefix ++ s) lower)
              ∙ (from_normalized-tail _ (ascii (d ∷ ds))).0
              ∙ limit,
          from_str-of_normal trim _ truncate (ap (λ s. truncate_tail_prefix ++ s) lower)
              ∙ (from_normalized-tail _ (ascii (d ∷ ds))).1
              ∙ limit,
        ),
      )
