-- ===== src/Tests/SortRuns.antt =====
-- A concrete sort for the listings of legacy/myhttpd.cc, which meets what `std::sort` promises.
use mathlib.Core.List.{Perm, Pairwise, Pairwise-singleton, forall_mem-cons}
use mathlib.Core.List.Perm
use http_server.Prelude.{◌≡◌, true, false, List, [], ◌∷◌, Bool-cases, inl, inr, if◌then◌else◌}
use http_server.Legacy.Listing.{DirEntry, Less, Sort}
use http_server.Legacy.Order.{IsStrictWeak, NotAfter, Sorts}

-- A sort that does what std::sort promises: insertion.
unfoldable pub insert : Less → DirEntry → List DirEntry → List DirEntry
insert less x [] = x ∷ []
insert less x (y ∷ ys) = if less y x then y ∷ insert less x ys else x ∷ y ∷ ys

unfoldable pub insertion_sort : Sort
insertion_sort less [] = []
insertion_sort less (x ∷ xs) = insert less x (insertion_sort less xs)

insert-perm : (less : Less) (x : DirEntry) (l : List DirEntry) → Perm (insert less x l) (x ∷ l)
unfolding insert
insert-perm less x [] = Perm.rfl
insert-perm less x (y ∷ ys) = elim (Bool-cases (less y x)) [
  | inl behind ↦ rw behind (Perm.trans (Perm.cons y (insert-perm less x ys)) (Perm.swap x y ys))
  | inr front ↦ rw front Perm.rfl
]

sort-perm : (less : Less) (l : List DirEntry) → Perm (insertion_sort less l) l
unfolding insertion_sort
sort-perm less [] = Perm.rfl
sort-perm less (x ∷ xs) =
    Perm.trans (insert-perm less x (insertion_sort less xs)) (Perm.cons x (sort-perm less xs))

module _ (less : Less) (w : IsStrictWeak less) where
  asymmetric : (a b : DirEntry) → less a b ≡ true → less b a ≡ false
  asymmetric a b h = elim (Bool-cases (less b a)) [
    | inl back_too ↦ cc (w.transitive a b a h back_too, w.irreflexive a)
    | inr no_way ↦ no_way
  ]

  NotAfter_trans : (a b c : DirEntry) → less b a ≡ false → less c b ≡ false → less c a ≡ false
  NotAfter_trans a b c h k = elim (Bool-cases (less c a)) [
    | inr no_way ↦ no_way
    | inl way ↦ elim (Bool-cases (less a b)) [
      | inl first ↦ cc (w.transitive c a b way first)
      | inr same ↦ elim (Bool-cases (less b c)) [
        | inl second ↦ cc (w.transitive b c a second way)
        | inr same' ↦ (w.equivalence a b c same h same' k).1
      ]
    ]
  ]

  insert-ordered :
      (x : DirEntry) {l : List DirEntry}
      → Pairwise (NotAfter less) l
      → Pairwise (NotAfter less) (insert less x l)
  unfolding insert
  insert-ordered x Pairwise.nil = Pairwise-singleton _ x
  insert-ordered x (Pairwise.cons {a = y} {l = ys} below rest) = elim (Bool-cases (less y x)) [
    | inl behind ↦ rw behind (
        Pairwise.cons
          (λ b m.
            (forall_mem-cons (λ e. hlevel)).1 (asymmetric y x behind, below) b
              ((Perm.mem_iff (insert-perm less x ys)).0 m))
          (insert-ordered x rest))
    | inr front ↦ rw front (
        Pairwise.cons
          (λ b m.
            (forall_mem-cons (λ e. hlevel)).1 (front, λ c n. NotAfter_trans x y c front (below c n))
              b m)
          (Pairwise.cons below rest))
  ]

  sort-ordered : (l : List DirEntry) → Pairwise (NotAfter less) (insertion_sort less l)
  unfolding insertion_sort
  sort-ordered [] = Pairwise.nil
  sort-ordered (x ∷ xs) = insert-ordered x (sort-ordered xs)

pub insertion_sort-Sorts : Sorts insertion_sort
insertion_sort-Sorts less l w = (sort-perm less l, sort-ordered less w l)
