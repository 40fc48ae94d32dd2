-- ===== src/Descriptor/Ownership.antt =====
-- A descriptor that was handed to `Fd` objects (src/fd.cpp) once is closed once, unless it was released.
use http_server.Prelude.{
  ℕ, zero, suc, ◌+◌, ◌≡◌, ◌≢◌, ◌<◌, refl, Bool, true, false, not, ◌&&◌, List, [], ◌∷◌, ltb, ◌==◌,
  if◌then◌else◌, pos, negsuc, same_int, length, arith, Bool-cases, inl, inr, ap, ltb→lt, ◌⊎◌,
}
use http_server.Descriptor.{
  Fd, no_fd, closed_by_reset, Process, held_at, put_at, Use, construct, move_construct, move_assign,
  release, destroy, reset, reset_at, assign_from, use_fd, use_all,
}

module _ (d : ℕ) where
  -- How often a number holds the descriptor, stands in a list of objects, or was closed.
  abbrev pub holds : Fd → ℕ
  holds (pos n) = if n == d then 1 else 0
  holds (negsuc n) = 0

  abbrev pub held : List Fd → ℕ
  held [] = 0
  held (fd ∷ fds) = holds fd + held fds

  abbrev pub times_closed : List ℕ → ℕ
  times_closed [] = 0
  times_closed (n ∷ ns) = (if n == d then 1 else 0) + times_closed ns

  -- How often a use hands the descriptor to an object that did not hold it, and takes it away.
  abbrev pub handed : Use → Process → ℕ
  handed (construct fd) p = holds fd
  handed (reset i fd) p =
      if ltb i (length p.objects) && not (same_int (held_at p.objects i) fd) then holds fd else 0
  handed _ p = 0

  abbrev pub released : Use → Process → ℕ
  released (release i) p = holds (held_at p.objects i)
  released _ p = 0

  abbrev pub all_handed : List Use → Process → ℕ
  all_handed [] p = 0
  all_handed (u ∷ us) p = handed u p + all_handed us (use_fd u p)

  abbrev pub all_released : List Use → Process → ℕ
  all_released [] p = 0
  all_released (u ∷ us) p = released u p + all_released us (use_fd u p)

  held-put_at :
      (fds : List Fd) (i : ℕ) (fd : Fd)
      → i < length fds
      → held (put_at fds i fd) + holds (held_at fds i) ≡ held fds + holds fd
  held-put_at [] i fd h = absurd (omega arith)
  held-put_at (old ∷ fds) zero fd h = omega arith
  held-put_at (old ∷ fds) (suc i) fd h = omega (arith, held-put_at fds i fd (omega arith))

  -- Taking from an object that does not exist takes nothing.
  held-put_at_none :
      (fds : List Fd) (i : ℕ) → held (put_at fds i no_fd) + holds (held_at fds i) ≡ held fds
  held-put_at_none [] i = refl
  held-put_at_none (old ∷ fds) zero = omega arith
  held-put_at_none (old ∷ fds) (suc i) = omega (arith, held-put_at_none fds i)

  times_closed-reset :
      (old fd : Fd) (log : List ℕ)
      → times_closed (closed_by_reset old fd log)
        ≡ times_closed log + (if not (same_int old fd) then holds old else 0)
  unfolding closed_by_reset same_int
  times_closed-reset (pos n) (pos m) log = ground arith
  times_closed-reset (pos n) (negsuc m) log = ground arith
  times_closed-reset (negsuc n) (pos m) log = ground arith
  times_closed-reset (negsuc n) (negsuc m) log = ground arith

  holds-same : (old fd : Fd) → same_int old fd ≡ true → holds old ≡ holds fd
  unfolding same_int
  holds-same (pos n) (pos m) h = ground arith
  holds-same (pos n) (negsuc m) h = ground arith
  holds-same (negsuc n) (pos m) h = ground arith
  holds-same (negsuc n) (negsuc m) h = refl

length-put_at : (fds : List Fd) (i : ℕ) (fd : Fd) → length (put_at fds i fd) ≡ length fds
length-put_at [] i fd = refl
length-put_at (old ∷ fds) zero fd = refl
length-put_at (old ∷ fds) (suc i) fd = omega (arith, length-put_at fds i fd)

held_at-put_at_self :
    (fds : List Fd) (i : ℕ) (fd : Fd) → i < length fds → held_at (put_at fds i fd) i ≡ fd
held_at-put_at_self [] i fd h = absurd (omega arith)
held_at-put_at_self (old ∷ fds) zero fd h = refl
held_at-put_at_self (old ∷ fds) (suc i) fd h = held_at-put_at_self fds i fd (omega arith)

held_at-put_at_ne :
    (fds : List Fd) (i j : ℕ) (fd : Fd) → i ≢ j → held_at (put_at fds i fd) j ≡ held_at fds j
held_at-put_at_ne [] i j fd h = refl
held_at-put_at_ne (old ∷ fds) zero zero fd h = absurd (h refl)
held_at-put_at_ne (old ∷ fds) zero (suc j) fd h = refl
held_at-put_at_ne (old ∷ fds) (suc i) zero fd h = refl
held_at-put_at_ne (old ∷ fds) (suc i) (suc j) fd h =
    held_at-put_at_ne fds i j fd (λ e. h (omega arith))

swap_unless :
    (b : Bool) (x y : ℕ)
    → (b ≡ true → x ≡ y)
    → (if not b then x else 0) + y ≡ (if not b then y else 0) + x
swap_unless true x y h = omega (arith, h refl)
swap_unless false x y h = omega arith

nothing_new : (b : Bool) → ◌≡◌ {A = ℕ} (if not b then 0 else 0) 0
nothing_new true = refl
nothing_new false = refl

abbrev assigns : ℕ → ℕ → Process → Bool
assigns i j p = ltb i (length p.objects) && ltb j (length p.objects) && not (i == j)

assigns-parts :
    (i j n : ℕ) → (ltb i n && ltb j n && not (i == j)) ≡ true → (i < n) × (j < n) × (i ≢ j)
assigns-parts i j n h = (ground arith, ground arith, λ e. ground arith)

module _ (d : ℕ) where
  reset_at-balance :
      (i : ℕ) (fd : Fd) (p : Process)
      → i < length p.objects
      → held d (reset_at i fd p).objects + times_closed d (reset_at i fd p).closed
        ≡ held d p.objects
          + times_closed d p.closed
          + (if not (same_int (held_at p.objects i) fd) then holds d fd else 0)
  unfolding reset_at
  reset_at-balance i fd p h =
      let old = held_at p.objects i in
      omega (
        arith,
        held-put_at d p.objects i fd h,
        times_closed-reset d old fd p.closed,
        swap_unless (same_int old fd) (holds d old) (holds d fd) (holds-same d old fd),
      )

  assign_from-balance :
      (i j : ℕ) (p : Process)
      → i < length p.objects
      → j < length p.objects
      → i ≢ j
      → held d (assign_from i j p).objects + times_closed d (assign_from i j p).closed
        ≡ held d p.objects + times_closed d p.closed
  unfolding assign_from
  assign_from-balance i j p hi hj ne =
      let cleared = reset_at i no_fd p in
      let moved = held_at cleared.objects j in
      let size : length cleared.objects ≡ length p.objects =
        unfold reset_at in length-put_at p.objects i no_fd in
      let empty : held_at cleared.objects i ≡ no_fd =
        unfold reset_at in held_at-put_at_self p.objects i no_fd hi in
      let kept : held_at (put_at cleared.objects i moved) j ≡ moved =
        held_at-put_at_ne cleared.objects i j moved ne in
      omega (
        arith,
        reset_at-balance i no_fd p hi,
        held-put_at d cleared.objects i moved (omega arith),
        held-put_at_none d (put_at cleared.objects i moved) j,
        ap (holds d) empty,
        ap (holds d) kept,
        nothing_new (same_int (held_at p.objects i) no_fd),
      )

  -- Each use of an object keeps the count of a descriptor: held by objects, closed, released.
  use_fd-balance :
      (u : Use) (p : Process)
      → held d (use_fd u p).objects + times_closed d (use_fd u p).closed + released d u p
        ≡ held d p.objects + times_closed d p.closed + handed d u p
  unfolding use_fd
  use_fd-balance (construct fd) p = omega arith
  use_fd-balance (move_construct i) p = omega (arith, held-put_at_none d p.objects i)
  use_fd-balance (move_assign i j) p = elim (Bool-cases (assigns i j p)) [
    | inl assigned ↦
        let (hi, hj, ne) = assigns-parts i j (length p.objects) assigned in
        rw assigned (omega (arith, assign_from-balance i j p hi hj ne))
    | inr not_assigned ↦ rw not_assigned refl
  ]
  use_fd-balance (release i) p = omega (arith, held-put_at_none d p.objects i)
  use_fd-balance (destroy i) p = elim (Bool-cases (ltb i (length p.objects))) [
    | inl within ↦ rw within (
        omega (
          arith,
          reset_at-balance i no_fd p (ltb→lt i (length p.objects) within),
          nothing_new (same_int (held_at p.objects i) no_fd),
        ))
    | inr outside ↦ rw outside refl
  ]
  use_fd-balance (reset i fd) p = elim (Bool-cases (ltb i (length p.objects))) [
    | inl within ↦
        rw within (omega (arith, reset_at-balance i fd p (ltb→lt i (length p.objects) within)))
    | inr outside ↦ rw outside refl
  ]

  -- However a program uses its objects, a descriptor is held by them, closed or released as often in
  -- the end, over the start, as it was handed to them.
  pub use_all-balance :
      (us : List Use) (p : Process)
      → held d (use_all us p).objects + times_closed d (use_all us p).closed + all_released d us p
        ≡ held d p.objects + times_closed d p.closed + all_handed d us p
  unfolding use_all
  use_all-balance [] p = omega arith
  use_all-balance (u ∷ us) p = omega (arith, use_fd-balance u p, use_all-balance us (use_fd u p))

one_of_two : (a b : ℕ) → a + b ≡ 1 → ((a ≡ 0) × (b ≡ 1)) ⊎ ((a ≡ 1) × (b ≡ 0))
one_of_two zero b h = inl (refl, omega arith)
one_of_two (suc a) b h = inr (omega arith, omega arith)

abbrev pub no_objects : Process
no_objects = record { objects = []; closed = [] }

-- A descriptor that a program, from its start, hands to its objects once and never releases is closed
-- exactly once when no object holds it any more, and not at all while one does.
pub use_all-closed_once :
    (d : ℕ) (us : List Use)
    → all_handed d us no_objects ≡ 1
    → all_released d us no_objects ≡ 0
    → ((held d (use_all us no_objects).objects ≡ 0)
        × (times_closed d (use_all us no_objects).closed ≡ 1))
      ⊎ ((held d (use_all us no_objects).objects ≡ 1)
          × (times_closed d (use_all us no_objects).closed ≡ 0))
use_all-closed_once d us once kept = one_of_two _ _ (omega (arith, use_all-balance d us no_objects))
