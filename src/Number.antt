-- ===== src/Number.antt =====
-- Decimal numbers as the standard library reads and writes them: `std::from_chars` into an unsigned
-- type (src/parser.cpp, src/main.cpp) and `operator<<` (src/response.cpp, src/metrics.cpp).
pub mod Value
use http_server.Prelude.{
  ℕ, zero, suc, ◌+◌, ◌-◌, ◌*◌, ◌/◌, ◌%◌, ◌<◌, Bool, true, ◌&&◌, [], ◌∷◌, Option, none, some, ◌≡◌,
  ◌≢◌, refl, arith, ltb, leb, if◌then◌else◌, Bytes, Bool-cases, inl, inr, lt→ltb, All,
}

abbrev pub is_digit : ℕ → Bool
is_digit c = leb b'0' c && leb c b'9'

-- The longest prefix of digits: its value, and what follows it.
unfoldable pub scan_digits : Bytes → ℕ → ℕ × Bytes
scan_digits [] n = (n, [])
scan_digits (c ∷ s) n =
    let more = scan_digits s (n * 10 + (c - b'0')) in if is_digit c then more else (n, c ∷ s)

-- The value and the rest behind `ptr`; `none` where `ec` is set: no digit, or out of range.
unfoldable pub from_chars : ℕ → Bytes → Option (ℕ × Bytes)
from_chars limit [] = none
from_chars limit (c ∷ s) =
    let scanned = scan_digits (c ∷ s) 0 in
    if is_digit c then (if ltb scanned.0 limit then some scanned else none) else none

-- The first argument bounds the number of digits.
unfoldable pub write_digits : ℕ → ℕ → Bytes → Bytes
write_digits zero n out = out
write_digits (suc fuel) n out =
    let more = write_digits fuel (n / 10) ((b'0' + n % 10) ∷ out) in
    if ltb n 10 then (b'0' + n) ∷ out else more

unfoldable pub decimal : ℕ → Bytes
unfolding write_digits
decimal n = write_digits (suc n) n []

pub scan_digits-write_digits :
    (fuel n : ℕ) (out : Bytes)
    → n < fuel
    → scan_digits (write_digits fuel n out) 0 ≡ scan_digits out n
unfolding scan_digits write_digits
scan_digits-write_digits zero n out h = absurd (omega arith)
scan_digits-write_digits (suc fuel) n out h = elim (Bool-cases (ltb n 10)) [
  | inl small ↦ ground arith
  | inr large ↦
      let ih = scan_digits-write_digits fuel (n / 10) ((b'0' + n % 10) ∷ out) (ground arith) in
      ground (arith, ih)
]

-- Every byte written is a digit, and there is one.
abbrev pub AreDigits : Bytes → Type 0
AreDigits = All (λ c. is_digit c ≡ true)

write_digits-AreDigits :
    (fuel n : ℕ) (out : Bytes) → AreDigits out → AreDigits (write_digits fuel n out)
unfolding write_digits
write_digits-AreDigits zero n out h = h
write_digits-AreDigits (suc fuel) n out h = elim (Bool-cases (ltb n 10)) [
  | inl small ↦ rw small (ground arith, h)
  | inr large ↦ rw large (write_digits-AreDigits fuel (n / 10) _ (ground arith, h))
]

pub decimal-AreDigits : (n : ℕ) → AreDigits (decimal n)
unfolding decimal
decimal-AreDigits n = write_digits-AreDigits (suc n) n [] tt

write_digits-ne-nil : (fuel n : ℕ) (out : Bytes) → out ≢ [] → write_digits fuel n out ≢ []
unfolding write_digits
write_digits-ne-nil zero n out h = h
write_digits-ne-nil (suc fuel) n out h =
    ground (arith, write_digits-ne-nil fuel (n / 10) ((b'0' + n % 10) ∷ out) (λ e. cc))

pub decimal-ne-nil : (n : ℕ) → decimal n ≢ []
unfolding decimal write_digits
decimal-ne-nil n = ground (arith, write_digits-ne-nil n (n / 10) ((b'0' + n % 10) ∷ []) (λ e. cc))

pub from_chars-AreDigits :
    (limit n : ℕ) (s : Bytes)
    → s ≢ []
    → AreDigits s
    → n < limit
    → scan_digits s 0 ≡ (n, [])
    → from_chars limit s ≡ some (n, [])
unfolding from_chars
from_chars-AreDigits limit n [] ne d h e = absurd (ne refl)
from_chars-AreDigits limit n (c ∷ s) ne d h e = rw (d.0, e, lt→ltb n limit h)

-- What `operator<<` writes, `from_chars` reads back, for every number in range.
pub from_chars-decimal : (limit n : ℕ) → n < limit → from_chars limit (decimal n) ≡ some (n, [])
from_chars-decimal limit n h =
    from_chars-AreDigits limit n (decimal n) (decimal-ne-nil n) (decimal-AreDigits n) h
      (unfold decimal scan_digits in scan_digits-write_digits (suc n) n [] (omega arith))
