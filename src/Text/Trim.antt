-- ===== src/Text/Trim.antt =====
-- `trim_ows` of src/parser.cpp strips spaces and tabs at both ends, and nothing else.
use mathlib.Core.List.{concat-ne-nil, tail-eq_of_cons-eq}
use native.Mathlib.Nat.{sub-zero, suc-sub-suc}
use http_server.Prelude.{
  ℕ, zero, suc, ◌-◌, ◌≤◌, true, false, [], ◌∷◌, ◌++◌, ◌≡◌, inl, inr, refl, sym, ap, ◌∙◌, arith,
  ◌==◌, if◌then◌else◌, Bool-cases, eq-ne, Bytes, All, length, take, drop,
}
use http_server.Text.{is_ows, ows_begin, ows_end, trim_ows}

-- The string without its leading, or its trailing, spaces and tabs.
abbrev pub strip_front : Bytes → Bytes
strip_front [] = []
strip_front (c ∷ s) = if is_ows c then strip_front s else c ∷ s

abbrev put_back : ℕ → Bytes → Bytes
put_back c [] = if is_ows c then [] else c ∷ []
put_back c (x ∷ r) = c ∷ x ∷ r

abbrev pub strip_back : Bytes → Bytes
strip_back [] = []
strip_back (c ∷ s) = put_back c (strip_back s)

drop-ows_begin : (s : Bytes) → drop (ows_begin s) s ≡ strip_front s
unfolding ows_begin
drop-ows_begin [] = refl
drop-ows_begin (c ∷ s) = elim (Bool-cases (is_ows c)) [
  | inl hit ↦ rw hit (drop-ows_begin s)
  | inr miss ↦ rw miss
]

ows_begin-le : (s : Bytes) → ows_begin s ≤ length s
unfolding ows_begin
ows_begin-le [] = omega arith
ows_begin-le (c ∷ s) = ground (arith, ows_begin-le s)

ows_end-cons : (x : ℕ) (s : Bytes) (b e : ℕ) → ows_end (x ∷ s) (suc b) (suc e) ≡ suc (ows_end s b e)
unfolding ows_end
ows_end-cons x s b zero = ground arith
ows_end-cons x s b (suc e) = ground (arith, ows_end-cons x s b e)

ows_end-cons_zero :
    (c : ℕ) (s : Bytes) (e : ℕ)
    → ows_end (c ∷ s) 0 (suc e)
      ≡ (if ows_end s 0 e == 0 then (if is_ows c then 0 else 1) else suc (ows_end s 0 e))
unfolding ows_end
ows_end-cons_zero c s zero = ground arith
ows_end-cons_zero c s (suc e) = ground (arith, ows_end-cons_zero c s e)

ows_end-le : (s : Bytes) (b e : ℕ) → ows_end s b e ≤ e
unfolding ows_end
ows_end-le s b zero = omega arith
ows_end-le s b (suc e) = ground (arith, ows_end-le s b e)

put_back-take :
    (c k : ℕ) (s : Bytes)
    → k ≤ length s
    → take (if k == 0 then (if is_ows c then 0 else 1) else suc k) (c ∷ s) ≡ put_back c (take k s)
put_back-take c zero s h = ground arith
put_back-take c (suc k) [] h = absurd (omega arith)
put_back-take c (suc k) (x ∷ s) h = rw (eq-ne (suc k) 0 (omega arith))

pub take-ows_end_zero : (s : Bytes) → take (ows_end s 0 (length s)) s ≡ strip_back s
take-ows_end_zero [] = unfold ows_end in refl
take-ows_end_zero (c ∷ s) =
    rw (ows_end-cons_zero c s (length s), ← take-ows_end_zero s)
      (put_back-take c _ s (ows_end-le s 0 (length s)))

take-ows_end :
    (s : Bytes) (b : ℕ)
    → b ≤ length s
    → take (ows_end s b (length s) - b) (drop b s) ≡ strip_back (drop b s)
take-ows_end s zero h = rw sub-zero (take-ows_end_zero s)
take-ows_end [] (suc b) h = absurd (omega arith)
take-ows_end (x ∷ s) (suc b) h =
    rw (ows_end-cons x s b (length s), suc-sub-suc) (take-ows_end s b (omega arith))

pub trim_ows-strip : (s : Bytes) → trim_ows s ≡ strip_back (strip_front s)
unfolding trim_ows
trim_ows-strip s = take-ows_end s (ows_begin s) (ows_begin-le s) ∙ ap strip_back (drop-ows_begin s)

-- `r` is `s` without the spaces and tabs at its ends, and does not begin or end with one itself.
pub record IsTrimmed (s r : Bytes) : Type 0 where
  pub front : Bytes
  pub back : Bytes
  pub splits : s ≡ front ++ (r ++ back)
  pub front_ows : All (λ c. is_ows c ≡ true) front
  pub back_ows : All (λ c. is_ows c ≡ true) back
  pub head_clean : (c : ℕ) (t : Bytes) → r ≡ c ∷ t → is_ows c ≡ false
  pub last_clean : (c : ℕ) (t : Bytes) → r ≡ t ++ c ∷ [] → is_ows c ≡ false

strip_front-splits :
    (s : Bytes)
    → (front : Bytes) × (s ≡ front ++ strip_front s)
      × All (λ c. is_ows c ≡ true) front
      × ((c : ℕ) (t : Bytes) → strip_front s ≡ c ∷ t → is_ows c ≡ false)
strip_front-splits [] = ([], refl, tt, λ c t e. cc)
strip_front-splits (x ∷ s) = elim (Bool-cases (is_ows x)) [
  | inl hit ↦
      let (front, e, o, clean) = strip_front-splits s in
      rw hit (x ∷ front, ap (◌∷◌ x) e, (hit, o), clean)
  | inr miss ↦ rw miss ([], refl, tt, λ c t e. ground arith)
]

last_of_one :
    (x : ℕ) → is_ows x ≡ false → (c : ℕ) (t : Bytes) → x ∷ [] ≡ t ++ c ∷ [] → is_ows c ≡ false
last_of_one x m c [] e = ground arith
last_of_one x m c (z ∷ t) e = absurd (concat-ne-nil c t (sym (tail-eq_of_cons-eq e)))

last_of_more :
    (x y : ℕ) (r : Bytes)
    → ((c : ℕ) (t : Bytes) → y ∷ r ≡ t ++ c ∷ [] → is_ows c ≡ false)
    → (c : ℕ) (t : Bytes) → x ∷ y ∷ r ≡ t ++ c ∷ []
    → is_ows c ≡ false
last_of_more x y r clean c [] e = cc
last_of_more x y r clean c (z ∷ t) e = clean c t (tail-eq_of_cons-eq e)

put_back-splits :
    (x : ℕ) (r back : Bytes)
    → All (λ c. is_ows c ≡ true) back
    → ((c : ℕ) (t : Bytes) → r ≡ t ++ c ∷ [] → is_ows c ≡ false)
    → (back' : Bytes) × (x ∷ (r ++ back) ≡ put_back x r ++ back')
      × All (λ c. is_ows c ≡ true) back'
      × ((c : ℕ) (t : Bytes) → put_back x r ≡ t ++ c ∷ [] → is_ows c ≡ false)
put_back-splits x [] back o clean = elim (Bool-cases (is_ows x)) [
  | inl hit ↦ rw hit (x ∷ back, refl, (hit, o), λ c t e. absurd (concat-ne-nil c t (sym e)))
  | inr miss ↦ rw miss (back, refl, o, last_of_one x miss)
]
put_back-splits x (y ∷ r) back o clean = (back, refl, o, last_of_more x y r clean)

strip_back-splits :
    (s : Bytes)
    → (back : Bytes) × (s ≡ strip_back s ++ back)
      × All (λ c. is_ows c ≡ true) back
      × ((c : ℕ) (t : Bytes) → strip_back s ≡ t ++ c ∷ [] → is_ows c ≡ false)
strip_back-splits [] = ([], refl, tt, λ c t e. absurd (concat-ne-nil c t (sym e)))
strip_back-splits (x ∷ s) =
    let (back, e, o, clean) = strip_back-splits s in
    let (back', e', o', clean') = put_back-splits x (strip_back s) back o clean in
    (back', ap (◌∷◌ x) e ∙ e', o', clean')

-- Stripping the back leaves a clean head in place.
strip_back-head :
    (s : Bytes)
    → ((c : ℕ) (t : Bytes) → s ≡ c ∷ t → is_ows c ≡ false)
    → (c : ℕ) (t : Bytes) → strip_back s ≡ c ∷ t
    → is_ows c ≡ false
strip_back-head [] clean c t e = cc
strip_back-head (x ∷ s) clean c t e = head_of (strip_back s) e
  where
    head_of : (r : Bytes) → put_back x r ≡ c ∷ t → is_ows c ≡ false
    head_of [] e = ground (arith, clean x s refl)
    head_of (y ∷ r) e = ground (arith, clean x s refl)

-- `trim_ows` removes the spaces and tabs at both ends, all of them and nothing else.
pub trim_ows-IsTrimmed : (s : Bytes) → IsTrimmed s (trim_ows s)
trim_ows-IsTrimmed s =
    let (front, e, o, clean) = strip_front-splits s in
    let (back, e', o', clean') = strip_back-splits (strip_front s) in
    rw (trim_ows-strip s) (record {
      front = front;
      back = back;
      splits = e ∙ ap (◌++◌ front) e';
      front_ows = o;
      back_ows = o';
      head_clean = strip_back-head (strip_front s) clean;
      last_clean = clean';
    })

-- Bytes at the ends that are no space or tab stay: such a string is its own trimmed form.
strip_front-of_clean :
    (s : Bytes) → ((c : ℕ) (t : Bytes) → s ≡ c ∷ t → is_ows c ≡ false) → strip_front s ≡ s
strip_front-of_clean [] clean = refl
strip_front-of_clean (x ∷ s) clean = rw (clean x s refl)

strip_back-of_clean :
    (s : Bytes) → ((c : ℕ) (t : Bytes) → s ≡ t ++ c ∷ [] → is_ows c ≡ false) → strip_back s ≡ s
strip_back-of_clean [] clean = refl
strip_back-of_clean (x ∷ []) clean = rw (clean x [] refl)
strip_back-of_clean (x ∷ y ∷ s) clean =
    rw (strip_back-of_clean (y ∷ s) (λ c t e. clean c (x ∷ t) (ap (◌∷◌ x) e)))

pub trim_ows-of_clean :
    (s : Bytes)
    → ((c : ℕ) (t : Bytes) → s ≡ c ∷ t → is_ows c ≡ false)
    → ((c : ℕ) (t : Bytes) → s ≡ t ++ c ∷ [] → is_ows c ≡ false)
    → trim_ows s ≡ s
trim_ows-of_clean s head last =
    rw (trim_ows-strip s, strip_front-of_clean s head) (strip_back-of_clean s last)

pub trim_ows_idem : (s : Bytes) → trim_ows (trim_ows s) ≡ trim_ows s
trim_ows_idem s =
    let t = trim_ows-IsTrimmed s in trim_ows-of_clean (trim_ows s) t.head_clean t.last_clean

-- A space in front of a trimmed value is all that trimming removes.
pub trim_ows_space : (s : Bytes) → trim_ows s ≡ s → trim_ows (b' ' ∷ s) ≡ s
trim_ows_space s h = trim_ows-strip (b' ' ∷ s) ∙ sym (trim_ows-strip s) ∙ h
