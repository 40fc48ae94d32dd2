-- ===== src/Text/Tokens.antt =====
-- What a token cannot hold, and that lowering a name twice is lowering it once.
use http_server.Prelude.{ℕ, true, false, [], ◌∷◌, ◌≡◌, refl, arith, Bytes, Lacks, ap}
use mathlib.Core.Bool.{and-eq-true_iff}
use http_server.Text.{to_lower, to_lower_ascii, is_tchar, all_tchar, is_token}

-- A string of token bytes holds no byte that is none.
pub all_tchar-Lacks : (b : ℕ) (s : Bytes) → is_tchar b ≡ false → all_tchar s ≡ true → Lacks b s
unfolding all_tchar
all_tchar-Lacks b [] h t = tt
all_tchar-Lacks b (c ∷ s) h t =
    let (hit, rest) = (and-eq-true_iff (is_tchar c) (all_tchar s)).0 t in
    ((λ e. cc (ap is_tchar e)), all_tchar-Lacks b s h rest)

pub is_token-Lacks : (b : ℕ) (s : Bytes) → is_tchar b ≡ false → is_token s ≡ true → Lacks b s
unfolding is_token
is_token-Lacks b [] h t = tt
is_token-Lacks b (c ∷ s) h t = all_tchar-Lacks b (c ∷ s) h t

-- None of the bytes that the grammar of a head uses as a separator is a token byte.
pub is_tchar-separators :
    (is_tchar b' ' ≡ false)
    × (is_tchar b'\t' ≡ false)
    × (is_tchar b':' ≡ false)
    × (is_tchar b'\r' ≡ false)
    × (is_tchar b'\n' ≡ false)
unfolding is_tchar
is_tchar-separators = (refl, refl, refl, refl, refl)

to_lower_idem : (c : ℕ) → to_lower (to_lower c) ≡ to_lower c
unfolding to_lower
to_lower_idem c = ground arith

pub to_lower_ascii_idem : (s : Bytes) → to_lower_ascii (to_lower_ascii s) ≡ to_lower_ascii s
unfolding to_lower_ascii
to_lower_ascii_idem [] = refl
to_lower_ascii_idem (c ∷ s) = cc (to_lower_idem c, to_lower_ascii_idem s)
