-- ===== src/StaticFiles/Decoding.antt =====
-- `percent_decode` decides a relation between the encoded and the decoded path.
use http_server.Prelude.{
  ℕ, ◌+◌, ◌*◌, [], ◌∷◌, Option, none, some, ◌≡◌, ◌≢◌, ◌↔◌, refl, arith, Bytes, subst, Bool-cases,
  inl, inr, sym, ◌∙◌, ◌==◌, eq-ne, ◌<◌, ◌≤◌, ◌⊎◌,
}
use http_server.StaticFiles.{hex_value, decoded, push, percent_decode}

-- A hexadecimal digit and its value: a decimal digit, or a letter from a to f or from A to F, which
-- counts from ten.
abbrev pub HexDigit : ℕ → ℕ → Type 0
HexDigit c v =
    ((v < 10) × (c ≡ b'0' + v))
    ⊎ ((10 ≤ v) × (v < 16) × ((c + 10 ≡ b'a' + v) ⊎ (c + 10 ≡ b'A' + v)))

-- The path `s` stands for the bytes `t`: a percent sign begins an escape with two hexadecimal digits,
-- which must not stand for NUL, and every other byte stands for itself.
pub data Encodes : Bytes → Bytes → Type 0 where
  end : Encodes [] []
  plain : {c : ℕ} {s t : Bytes} → c ≢ b'%' → Encodes s t → Encodes (c ∷ s) (c ∷ t)
  escape :
      {h l high low d : ℕ} {s t : Bytes}
      → HexDigit h high
      → HexDigit l low
      → high * 16 + low ≡ d
      → d ≢ 0
      → Encodes s t
      → Encodes (b'%' ∷ h ∷ l ∷ s) (d ∷ t)

HexDigit-of_hex_value : (c : ℕ) {v : ℕ} → hex_value c ≡ some v → HexDigit c v
unfolding hex_value
HexDigit-of_hex_value c h = ground arith

hex_value-of_HexDigit : (c : ℕ) {v : ℕ} → HexDigit c v → hex_value c ≡ some v
unfolding hex_value
hex_value-of_HexDigit c (inl d) = ground arith
hex_value-of_HexDigit c (inr (ten, small, inl d)) = ground arith
hex_value-of_HexDigit c (inr (ten, small, inr d)) = ground arith

percent_decode-plain :
    (c : ℕ) (s : Bytes) → c ≢ b'%' → percent_decode (c ∷ s) ≡ push (some c) (percent_decode s)
unfolding percent_decode
percent_decode-plain c [] h = rw (eq-ne c b'%' h)
percent_decode-plain c (d ∷ []) h = rw (eq-ne c b'%' h)
percent_decode-plain c (d ∷ l ∷ s) h = rw (eq-ne c b'%' h)

percent_decode-escape :
    (h l : ℕ) (s : Bytes)
    → percent_decode (b'%' ∷ h ∷ l ∷ s)
      ≡ push (decoded (hex_value h) (hex_value l)) (percent_decode s)
unfolding percent_decode
percent_decode-escape h l s = refl

percent_decode-of_Encodes : {s t : Bytes} → Encodes s t → percent_decode s ≡ some t
unfolding decoded
percent_decode-of_Encodes end = unfold percent_decode in refl
percent_decode-of_Encodes (plain {c} {s} n e) =
    rw (percent_decode-plain c s n, percent_decode-of_Encodes e)
percent_decode-of_Encodes (escape {h} {l} {high} {low} {d} {s} a b v n e) = rw (
  percent_decode-escape h l s,
  hex_value-of_HexDigit h a,
  hex_value-of_HexDigit l b,
  decoded,
  percent_decode-of_Encodes e,
  v,
  eq-ne d 0 n,
)

decoded-eq-some :
    (o p : Option ℕ) {d : ℕ}
    → decoded o p ≡ some d
    → (high : ℕ) × (low : ℕ) × (o ≡ some high) × (p ≡ some low) × (high * 16 + low ≡ d) × (d ≢ 0)
unfolding decoded
decoded-eq-some none p h = cc
decoded-eq-some (some high) none h = cc
decoded-eq-some (some high) (some low) h = (high, low, refl, refl, ground arith, ground arith)

push-eq-some :
    (o : Option ℕ) (p : Option Bytes) {t : Bytes}
    → push o p ≡ some t
    → (d : ℕ) × (t' : Bytes) × (o ≡ some d) × (p ≡ some t') × (t ≡ d ∷ t')
push-eq-some none p h = cc
push-eq-some (some d) none h = cc
push-eq-some (some d) (some t') h = (d, t', refl, refl, cc)

Encodes-plain :
    (c : ℕ) (s t : Bytes)
    → ((t' : Bytes) → percent_decode s ≡ some t' → Encodes s t')
    → c ≢ b'%'
    → percent_decode (c ∷ s) ≡ some t
    → Encodes (c ∷ s) t
Encodes-plain c s t ih n h =
    let (d, t', e, e', e'') =
      push-eq-some (some c) (percent_decode s) (sym (percent_decode-plain c s n) ∙ h) in
    let same : d ≡ c = ground arith in rw (e'', same) (plain n (ih t' e'))

Encodes-escape :
    (h l : ℕ) (s t : Bytes)
    → ((t' : Bytes) → percent_decode s ≡ some t' → Encodes s t')
    → percent_decode (b'%' ∷ h ∷ l ∷ s) ≡ some t
    → Encodes (b'%' ∷ h ∷ l ∷ s) t
Encodes-escape h l s t ih e =
    let (d, t', o, p, q) =
      push-eq-some (decoded (hex_value h) (hex_value l)) (percent_decode s)
        (sym (percent_decode-escape h l s) ∙ e) in
    let (high, low, a, b, v, n) = decoded-eq-some (hex_value h) (hex_value l) o in
    rw q (escape (HexDigit-of_hex_value h a) (HexDigit-of_hex_value l b) v n (ih t' p))

Encodes-of_percent_decode : (s t : Bytes) → percent_decode s ≡ some t → Encodes s t
Encodes-of_percent_decode [] t h =
    let e : [] ≡ t = unfold percent_decode in ground arith in subst (Encodes []) e end
Encodes-of_percent_decode (c ∷ []) t h = elim (Bool-cases (c == b'%')) [
  | inl hit ↦ unfold percent_decode in ground arith
  | inr miss ↦ Encodes-plain c [] t (λ t'. Encodes-of_percent_decode [] t') (ground arith) h
]
Encodes-of_percent_decode (c ∷ d ∷ []) t h = elim (Bool-cases (c == b'%')) [
  | inl hit ↦ unfold percent_decode in ground arith
  | inr miss ↦
      Encodes-plain c (d ∷ []) t (λ t'. Encodes-of_percent_decode (d ∷ []) t') (ground arith) h
]
Encodes-of_percent_decode (c ∷ d ∷ l ∷ s) t h = elim (Bool-cases (c == b'%')) [
  | inl hit ↦
      let is_percent : c ≡ b'%' = ground arith in
      rw is_percent
        (Encodes-escape d l s t (λ t'. Encodes-of_percent_decode s t') (rw is_percent at h))
  | inr miss ↦
      Encodes-plain c (d ∷ l ∷ s) t (λ t'. Encodes-of_percent_decode (d ∷ l ∷ s) t') (ground arith)
        h
]

-- percent_decode returns a string exactly where the path stands for it: each percent sign begins an
-- escape with two hexadecimal digits, in capital or small letters, whose number is the byte and is not
-- zero, and every other byte stands for itself.
pub percent_decode_iff : (s t : Bytes) → (percent_decode s ≡ some t) ↔ Encodes s t
percent_decode_iff s t = (Encodes-of_percent_decode s t, percent_decode-of_Encodes)
