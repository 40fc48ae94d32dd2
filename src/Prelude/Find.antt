-- ===== src/Prelude/Find.antt =====
-- What `find` of a byte and of a text return: the first place, and where the string splits there.
use Prim.Native.Nat.{ℕ, zero, suc, ◌+◌, ◌≤◌}
use mathlib.Core.Path.{◌≡◌, refl, ap, subst}
use mathlib.Core.Logic.{◌≢◌, inl, inr}
use mathlib.Core.Bool.{true, ◌&&◌}
use mathlib.Core.Option
use mathlib.Core.Option.{Option, none, some}
use mathlib.Core.List.{[], ◌∷◌, ◌++◌}
use native.Mathlib.Nat.{zero-add, suc-add}
use native.Mathlib.Omega.{arith}
use http_server.Prelude.Tests.{◌==◌, Bool-cases, eq_self, eq-ne}
use http_server.Prelude.Lists.{length, take, drop}
use http_server.Prelude.Strings.{Bytes, Lacks, find_byte, find_text, starts_with}

-- The string splits at the first `c`.
pub record FoundByte (c : ℕ) (s : Bytes) (i : ℕ) : Type 0 where
  pub before : Bytes
  pub after : Bytes
  pub splits : s ≡ before ++ c ∷ after
  pub at_index : length before ≡ i
  pub first : Lacks c before

pub find_byte-append :
    (c : ℕ) (a b : Bytes) → Lacks c a → find_byte c (a ++ c ∷ b) ≡ some (length a)
unfolding find_byte
find_byte-append c [] b h = rw eq_self
find_byte-append c (x ∷ a) b h = rw (eq-ne x c h.0, find_byte-append c a b h.1)

pub find_byte-Lacks : (c : ℕ) (a : Bytes) → Lacks c a → find_byte c a ≡ none
unfolding find_byte
find_byte-Lacks c [] h = refl
find_byte-Lacks c (x ∷ a) h = rw (eq-ne x c h.0, find_byte-Lacks c a h.1)

pub find_byte-eq-none : (c : ℕ) (a : Bytes) → find_byte c a ≡ none → Lacks c a
unfolding find_byte
find_byte-eq-none c [] h = tt
find_byte-eq-none c (x ∷ a) h = ground (arith, find_byte-eq-none c a)

FoundByte-cons :
    (x : ℕ) {c : ℕ} {s : Bytes} {i : ℕ} → x ≢ c → FoundByte c s i → FoundByte c (x ∷ s) (suc i)
FoundByte-cons x h f = record {
  before = x ∷ f.before;
  after = f.after;
  splits = ap (◌∷◌ x) f.splits;
  at_index = ap suc f.at_index;
  first = (h, f.first);
}

pub find_byte-eq-some : (c : ℕ) (s : Bytes) {i : ℕ} → find_byte c s ≡ some i → FoundByte c s i
unfolding find_byte
find_byte-eq-some c [] h = cc
find_byte-eq-some c (x ∷ s) {i} h = elim (Bool-cases (x == c)) [
  | inl hit ↦ record {
    before = [];
    after = s;
    splits = ground arith;
    at_index = ground arith;
    first = tt;
  }
  | inr miss ↦
      let (j, e, k) = (Option.map-eq-some_iff suc (find_byte c s)).0 (rw miss at h) in
      subst (FoundByte c (x ∷ s)) k (FoundByte-cons x (ground arith) (find_byte-eq-some c s e))
]

-- A place found stays the first one when more text follows.
starts_with-append : (p s t : Bytes) → starts_with p s ≡ true → starts_with p (s ++ t) ≡ true
unfolding starts_with
starts_with-append [] s t h = refl
starts_with-append (c ∷ p) [] t h = cc
starts_with-append (c ∷ p) (x ∷ s) t h = ground (arith, starts_with-append p s t)

starts_with-le : (p s : Bytes) → starts_with p s ≡ true → length p ≤ length s
unfolding starts_with
starts_with-le [] s h = omega arith
starts_with-le (c ∷ p) [] h = cc
starts_with-le (c ∷ p) (x ∷ s) h = ground (arith, starts_with-le p s)

starts_with-short : (p s t : Bytes) → length p ≤ length s → starts_with p (s ++ t) ≡ starts_with p s
unfolding starts_with
starts_with-short [] s t h = refl
starts_with-short (c ∷ p) [] t h = absurd (omega arith)
starts_with-short (c ∷ p) (x ∷ s) t h = ap (◌&&◌ (x == c)) (starts_with-short p s t (omega arith))

pub starts_with-drop : (p s : Bytes) → starts_with p s ≡ true → s ≡ p ++ drop (length p) s
unfolding starts_with
starts_with-drop [] s h = refl
starts_with-drop (c ∷ p) [] h = cc
starts_with-drop (c ∷ p) (x ∷ s) h = ground (arith, starts_with-drop p s)

pub starts_with_self : (p t : Bytes) → starts_with p (p ++ t) ≡ true
unfolding starts_with
starts_with_self [] t = refl
starts_with_self (c ∷ p) t = rw eq_self (starts_with_self p t)

pub find_text-le : (p s : Bytes) {i : ℕ} → find_text p s ≡ some i → i + length p ≤ length s
unfolding find_text
find_text-le p [] h = ground (arith, starts_with-le p [])
find_text-le p (x ∷ s) {i} h = elim (Bool-cases (starts_with p (x ∷ s))) [
  | inl hit ↦ ground (arith, starts_with-le p (x ∷ s))
  | inr miss ↦
      let (j, e, k) = (Option.map-eq-some_iff suc (find_text p s)).0 (rw miss at h) in
      omega (arith, k, find_text-le p s e)
]

pub find_text-append :
    (p s t : Bytes) {i : ℕ} → find_text p s ≡ some i → find_text p (s ++ t) ≡ some i
unfolding find_text
find_text-append p [] [] h = h
find_text-append p [] (y ∷ t) h = ground (arith, starts_with-append p [] (y ∷ t))
find_text-append p (x ∷ s) t {i} h = elim (Bool-cases (starts_with p (x ∷ s))) [
  | inl hit ↦ rw (starts_with-append p (x ∷ s) t hit) (rw hit at h)
  | inr miss ↦
      let (j, e, k) = (Option.map-eq-some_iff suc (find_text p s)).0 (rw miss at h) in
      let fits = find_text-le p s e in
      let same = starts_with-short p (x ∷ s) t (omega arith) in
      rw (same, miss, find_text-append p s t e, k)
]

splits_here :
    (p s : Bytes)
    → starts_with p s ≡ true
    → (i : ℕ) → 0 ≡ i
    → s ≡ take i s ++ (p ++ drop (i + length p) s)
splits_here p s h zero z = rw zero-add (starts_with-drop p s h)
splits_here p s h (suc i) z = absurd (omega arith)

-- The string splits at the text found.
pub find_text-splits :
    (p s : Bytes) {i : ℕ} → find_text p s ≡ some i → s ≡ take i s ++ (p ++ drop (i + length p) s)
unfolding find_text
find_text-splits p [] {i} h = elim (Bool-cases (starts_with p [])) [
  | inl hit ↦ splits_here p [] hit i (ground arith)
  | inr miss ↦ ground arith
]
find_text-splits p (x ∷ s) {i} h = elim (Bool-cases (starts_with p (x ∷ s))) [
  | inl hit ↦ splits_here p (x ∷ s) hit i (ground arith)
  | inr miss ↦
      let (j, e, k) = (Option.map-eq-some_iff suc (find_text p s)).0 (rw miss at h) in
      rw (← k, suc-add j (length p)) (ap (◌∷◌ x) (find_text-splits p s e))
]
