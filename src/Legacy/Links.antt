-- ===== src/Legacy/Links.antt =====
-- The link to the parent directory in a listing of legacy/myhttpd.cc.
use http_server.Prelude.{
  ℕ, ◌-◌, ◌≡◌, ◌∙◌, refl, ap, [], ◌∷◌, ◌++◌, none, some, Bytes, Lacks, codes, length, take, eq_self,
  eq-ne, arith, append_assoc, length-append, take-append,
}
use http_server.Legacy.Target.{find_last, before_last_slash, parent_of, slash_behind, cut_at}

find_last-Lacks : (c : ℕ) (s : Bytes) → Lacks c s → find_last c s ≡ none
unfolding find_last
find_last-Lacks c [] h = refl
find_last-Lacks c (x ∷ s) h = rw (find_last-Lacks c s h.1, eq-ne x c h.0) refl

find_last-append :
    (c : ℕ) (p name : Bytes) → Lacks c name → find_last c (p ++ c ∷ name) ≡ some (length p)
unfolding find_last
find_last-append c [] name h = rw (find_last-Lacks c name h, eq_self) refl
find_last-append c (x ∷ p) name h = rw (find_last-append c p name h) refl

slash_behind_lem : (p : Bytes) → slash_behind p ≡ p ++ codes "/"
slash_behind_lem [] = refl
slash_behind_lem (c ∷ p) = refl

-- The parent of a directory is its URL less the last name: the link of `p/name/` is `p/`, also where
-- `p` is empty.
pub parent_of_lem :
    (p name : Bytes)
    → Lacks b'/' name
    → parent_of ((p ++ b'/' ∷ name) ++ codes "/") ≡ p ++ codes "/"
unfolding parent_of before_last_slash
parent_of_lem p name h =
    let url : Bytes = (p ++ b'/' ∷ name) ++ codes "/" in
    let size : length url - 1 ≡ length (p ++ b'/' ∷ name) =
      omega (arith, length-append (p ++ b'/' ∷ name) (codes "/")) in
    let front : take (length url - 1) url ≡ p ++ b'/' ∷ name =
      ap (λ (k : ℕ). take k url) size ∙ take-append (p ++ b'/' ∷ name) (codes "/") in
    let cut : take (length p) url ≡ p =
      ap (take (length p)) (append_assoc p (b'/' ∷ name) (codes "/"))
      ∙ take-append p (b'/' ∷ (name ++ codes "/")) in
    ap slash_behind
      (ap (cut_at url) (ap (find_last b'/') front ∙ find_last-append b'/' p name h) ∙ cut)
    ∙ slash_behind_lem p
