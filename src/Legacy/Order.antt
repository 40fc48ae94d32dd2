-- ===== src/Legacy/Order.antt =====
-- The order of a directory listing of legacy/myhttpd.cc: its comparisons are what `std::sort` asks
-- for, and the listing is in the order asked for.
use mathlib.Core.List.{Perm, Pairwise, Pairwise-of_forall}
use mathlib.Core.List.Perm
use mathlib.Core.List.Pairwise
use http_server.Prelude.{
  ℕ, ◌<◌, ◌≤◌, ◌≡◌, ◌⊎◌, inl, inr, refl, Bool, true, false, List, [], ◌∷◌, Bytes, ltb, ◌==◌, arith,
  Bool-cases, if◌then◌else◌,
}
use http_server.Legacy.Target.{SortOptions}
use http_server.Legacy.Listing.{
  DirEntry, Less, Sort, less_bytes, cmp_name_asc, comparison, sort_entries,
}

-- What `std::sort` asks of a comparison.
pub record IsStrictWeak (less : Less) : Type 0 where
  pub irreflexive : (a : DirEntry) → less a a ≡ false
  pub transitive : (a b c : DirEntry) → less a b ≡ true → less b c ≡ true → less a c ≡ true
  pub equivalence :
      (a b c : DirEntry)
      → less a b ≡ false
      → less b a ≡ false
      → less b c ≡ false
      → less c b ≡ false
      → (less a c ≡ false) × (less c a ≡ false)

-- No entry stands in front of a lesser one.
abbrev pub NotAfter : Less → DirEntry → DirEntry → Type 0
NotAfter less a b = less b a ≡ false

-- What `std::sort` promises.
abbrev pub Sorts : Sort → Type 0
Sorts sort =
    (less : Less) (entries : List DirEntry)
    → IsStrictWeak less
    → Perm (sort less entries) entries × Pairwise (NotAfter less) (sort less entries)

-- A name is the other or in front of it in the dictionary.
abbrev pub AtMost : Bytes → Bytes → Type 0
AtMost [] t = Unit
AtMost (x ∷ s) [] = ⊥
AtMost (x ∷ s) (y ∷ t) = (x < y) ⊎ ((x ≡ y) × AtMost s t)

abbrev pub Directed : Bool → (DirEntry → DirEntry → Type 0) → DirEntry → DirEntry → Type 0
Directed true R a b = R b a
Directed false R a b = R a b

-- The order that the options ask for; an unknown field asks for none.
abbrev pub Precedes : SortOptions → DirEntry → DirEntry → Type 0
Precedes o =
    if o.sort_field == b'N'
    then Directed (o.sort_order == b'D') (λ a b. AtMost a.name b.name)
    else if o.sort_field == b'S'
    then Directed (o.sort_order == b'D') (λ a b. a.size ≤ b.size)
    else if o.sort_field == b'M'
    then Directed (o.sort_order == b'D') (λ a b. a.mtime ≤ b.mtime)
    else λ a b. Unit

less_bytes_irrefl : (s : Bytes) → less_bytes s s ≡ false
unfolding less_bytes
less_bytes_irrefl [] = refl
less_bytes_irrefl (x ∷ s) = ground (arith, less_bytes_irrefl s)

less_bytes_trans :
    (s t u : Bytes) → less_bytes s t ≡ true → less_bytes t u ≡ true → less_bytes s u ≡ true
unfolding less_bytes
less_bytes_trans s [] [] h k = cc
less_bytes_trans [] [] (z ∷ u) h k = cc
less_bytes_trans (x ∷ s) [] (z ∷ u) h k = cc
less_bytes_trans s (y ∷ t) [] h k = cc
less_bytes_trans [] (y ∷ t) (z ∷ u) h k = refl
less_bytes_trans (x ∷ s) (y ∷ t) (z ∷ u) h k = ground (arith, less_bytes_trans s t u)

less_bytes_eq : (s t : Bytes) → less_bytes s t ≡ false → less_bytes t s ≡ false → s ≡ t
unfolding less_bytes
less_bytes_eq [] [] h k = refl
less_bytes_eq [] (y ∷ t) h k = cc
less_bytes_eq (x ∷ s) [] h k = cc
less_bytes_eq (x ∷ s) (y ∷ t) h k = ground (arith, less_bytes_eq s t)

less_bytes-AtMost : (s t : Bytes) → less_bytes t s ≡ false → AtMost s t
unfolding less_bytes
less_bytes-AtMost [] t h = tt
less_bytes-AtMost (x ∷ s) [] h = cc
less_bytes-AtMost (x ∷ s) (y ∷ t) h = elim (Bool-cases (y == x)) [
  | inl same ↦ inr (ground arith, less_bytes-AtMost s t (rw same at h))
  | inr other ↦ inl (ground arith)
]

-- A comparison by a key, either way round.
module _ (key : DirEntry → ℕ) where
  ltb-IsStrictWeak : IsStrictWeak (λ a b. ltb (key a) (key b))
  ltb-IsStrictWeak = record {
    irreflexive = λ a. ground arith;
    transitive = λ a b c h k. ground arith;
    equivalence = λ a b c h k l m. (ground arith, ground arith);
  }

name-IsStrictWeak : IsStrictWeak cmp_name_asc
name-IsStrictWeak = record {
  irreflexive = λ a. less_bytes_irrefl a.name;
  transitive = λ a b c. less_bytes_trans a.name b.name c.name;
  equivalence = λ a b c h k l m.
      let same = less_bytes_eq a.name b.name h k in
      let same' = less_bytes_eq b.name c.name l m in
      (rw (same, same') (less_bytes_irrefl c.name), rw (same, same') (less_bytes_irrefl c.name));
}

flipped : {less : Less} → IsStrictWeak less → IsStrictWeak (λ a b. less b a)
flipped w = record {
  irreflexive = w.irreflexive;
  transitive = λ a b c h k. w.transitive c b a k h;
  equivalence = λ a b c h k l m. let (p, q) = w.equivalence a b c k h m l in (q, p);
}

-- What a listing in the order of a comparison is.
abbrev Lists : (DirEntry → DirEntry → Type 0) → List DirEntry → List DirEntry → Type 0
Lists R sorted entries = Perm sorted entries × Pairwise R sorted

module _ (sort : Sort) (sorts : Sorts sort) (entries : List DirEntry) where
  Lists-by :
      (less : Less) (R : DirEntry → DirEntry → Type 0)
      → IsStrictWeak less
      → ((a b : DirEntry) → less b a ≡ false → R a b)
      → Lists R (sort less entries) entries
  Lists-by less R w f = let (perm, ordered) = sorts less entries w in (perm, Pairwise.imp f ordered)

  -- Both directions of a field.
  Lists-Directed :
      (descending : Bool) (less : Less) (R : DirEntry → DirEntry → Type 0)
      → IsStrictWeak less
      → ((a b : DirEntry) → less b a ≡ false → R a b)
      → Lists
          (Directed descending R)
          (sort (if descending then (λ a b. less b a) else less) entries)
          entries
  Lists-Directed true less R w f =
      Lists-by (λ a b. less b a) (λ a b. R b a) (flipped w) (λ a b. f b a)
  Lists-Directed false less R w f = Lists-by less R w f

  -- With a sort that does what std::sort promises for a strict weak order, the listing has each of the
  -- entries once, and they stand in the order that the options ask for: by name, size or time of
  -- change, descending for D and ascending for any other letter. (An unknown field asks for no order.)
  pub sort_entries-Lists :
      (o : SortOptions)
      → Perm (sort_entries sort o entries) entries
        × Pairwise (Precedes o) (sort_entries sort o entries)
  unfolding sort_entries comparison
  sort_entries-Lists o = elim (Bool-cases (o.sort_field == b'N')) [
    | inl by_name ↦
        rw (by_name, sort_entries, comparison)
          (Lists-Directed (o.sort_order == b'D') cmp_name_asc (λ a b. AtMost a.name b.name)
            name-IsStrictWeak (λ a b. less_bytes-AtMost a.name b.name))
    | inr not_name ↦ elim (Bool-cases (o.sort_field == b'S')) [
      | inl by_size ↦
          rw (not_name, by_size, sort_entries, comparison)
            (Lists-Directed (o.sort_order == b'D') (λ a b. ltb a.size b.size)
              (λ a b. a.size ≤ b.size) (ltb-IsStrictWeak (λ e. e.size)) (λ a b h. ground arith))
      | inr not_size ↦ elim (Bool-cases (o.sort_field == b'M')) [
        | inl by_mtime ↦
            rw (not_name, not_size, by_mtime, sort_entries, comparison)
              (Lists-Directed (o.sort_order == b'D') (λ a b. ltb a.mtime b.mtime)
                (λ a b. a.mtime ≤ b.mtime) (ltb-IsStrictWeak (λ e. e.mtime))
                (λ a b h. ground arith))
        | inr unknown ↦
            rw (not_name, not_size, unknown, sort_entries, comparison)
              (Perm.rfl, Pairwise-of_forall (λ a b. tt))
      ]
    ]
  ]
