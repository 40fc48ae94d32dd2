-- ===== src/Number/Value.antt =====
-- What `std::from_chars` accepts as a whole: a non-empty string of digits, by its decimal value.
use http_server.Prelude.{
  ℕ, zero, suc, ◌+◌, ◌-◌, ◌*◌, ◌<◌, ◌≡◌, ◌≢◌, ◌↔◌, ◌∙◌, ap, [], ◌∷◌, some, Bytes, length, arith,
  Bool-cases, inl, inr,
}
use http_server.Number.{is_digit, AreDigits, scan_digits, from_chars, from_chars-AreDigits}

abbrev pub ten_to : ℕ → ℕ
ten_to zero = 1
ten_to (suc k) = 10 * ten_to k

-- The decimal value of a string of digits, the first digit the heaviest.
abbrev pub value : Bytes → ℕ
value [] = 0
value (c ∷ s) = (c - b'0') * ten_to (length s) + value s

shift : (n d t : ℕ) → (n * 10 + d) * t ≡ n * (10 * t) + d * t
shift n d t = grind arith

scan_digits-AreDigits :
    (s : Bytes) (n : ℕ) → AreDigits s → scan_digits s n ≡ (n * ten_to (length s) + value s, [])
unfolding scan_digits
scan_digits-AreDigits [] n h = ap (λ (k : ℕ). (k, [])) (omega arith)
scan_digits-AreDigits (c ∷ s) n h = rw (h.0) (
    scan_digits-AreDigits s (n * 10 + (c - b'0')) h.1
    ∙ ap (λ (k : ℕ). (k, [])) (omega (arith, shift n (c - b'0') (ten_to (length s)))))

not_nil : {c : ℕ} {s : Bytes} → c ∷ s ≡ [] → ⊥
not_nil h = cc

scan_digits-nil : (s : Bytes) (n : ℕ) → (scan_digits s n).1 ≡ [] → AreDigits s
unfolding scan_digits
scan_digits-nil [] n h = tt
scan_digits-nil (c ∷ s) n h = elim (Bool-cases (is_digit c)) [
  | inl digit ↦ (digit, scan_digits-nil s (n * 10 + (c - b'0')) (rw digit at h))
  | inr other ↦ absurd (not_nil (rw other at h))
]

from_chars-nil :
    (limit n : ℕ) (s : Bytes)
    → from_chars limit s ≡ some (n, [])
    → (s ≢ []) × (scan_digits s 0 ≡ (n, [])) × (n < limit)
unfolding from_chars
from_chars-nil limit n [] h = absurd (ground arith)
from_chars-nil limit n (c ∷ s) h = ground arith

-- `from_chars` takes a whole string as n exactly if it is a non-empty string of digits of value n,
-- and n is below the limit.
pub from_chars_iff :
    (limit n : ℕ) (s : Bytes)
    → (from_chars limit s ≡ some (n, [])) ↔ ((s ≢ []) × AreDigits s × (value s ≡ n) × (n < limit))
from_chars_iff limit n s = (whole, accepted)
  where
    whole : from_chars limit s ≡ some (n, []) → (s ≢ []) × AreDigits s × (value s ≡ n) × (n < limit)
    whole h =
        let (filled, scanned, small) = from_chars-nil limit n s h in
        let digits = scan_digits-nil s 0 (ap (λ (r : ℕ × Bytes). r.1) scanned) in
        (
          filled,
          digits,
          omega (
            arith,
            ap (λ (r : ℕ × Bytes). r.0) (scan_digits-AreDigits s 0 digits),
            ap (λ (r : ℕ × Bytes). r.0) scanned,
          ),
          small,
        )

    accepted :
        (s ≢ []) × AreDigits s × (value s ≡ n) × (n < limit) → from_chars limit s ≡ some (n, [])
    accepted (filled, digits, worth, small) =
        from_chars-AreDigits limit n s filled digits small
          (scan_digits-AreDigits s 0 digits ∙ ap (λ (k : ℕ). (k, [])) (omega arith))
