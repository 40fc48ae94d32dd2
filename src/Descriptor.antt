-- ===== src/Descriptor.antt =====
-- src/fd.cpp and include/http/fd.hpp: `Fd`, the owner of a file descriptor. An `Fd` is the number it
-- holds; the descriptors that the process has closed stand in a log, in the order of the calls.
pub mod Ownership
use http_server.Prelude.{
  ltb, ◌==◌, length, zero, suc, ℕ, Bool, true, false, not, ◌&&◌, List, [], ◌∷◌, if◌then◌else◌, ℤ,
  pos, negsuc, same_int,
}

abbrev pub Fd : Type 0
Fd = ℤ

-- The number of an `Fd` that holds nothing.
abbrev pub no_fd : Fd
no_fd = negsuc 0

abbrev pub valid : Fd → Bool
valid (pos n) = true
valid (negsuc n) = false

abbrev closes_held : Fd → List ℕ → List ℕ
closes_held (pos n) closed = n ∷ closed
closes_held (negsuc n) closed = closed

-- `reset(fd)` on an `Fd` that holds `held`: what is closed; the `Fd` then holds `fd`.
unfoldable pub closed_by_reset : Fd → Fd → List ℕ → List ℕ
closed_by_reset held fd closed =
    if valid held && not (same_int held fd) then closes_held held closed else closed

-- The `Fd` objects of a program, each with its `fd_`, and the calls of `close`. The objects of ended
-- lifetimes stay in the list; they hold nothing.
pub record Process : Type 0 where
  pub objects : List Fd
  pub closed : List ℕ

abbrev pub held_at : List Fd → ℕ → Fd
held_at [] i = no_fd
held_at (fd ∷ fds) zero = fd
held_at (fd ∷ fds) (suc i) = held_at fds i

abbrev pub put_at : List Fd → ℕ → Fd → List Fd
put_at [] i fd = []
put_at (old ∷ fds) zero fd = fd ∷ fds
put_at (old ∷ fds) (suc i) fd = old ∷ put_at fds i fd

-- What a program does with its `Fd` objects, which it names by their place in the list.
pub data Use : Type 0 where
  construct : Fd → Use
  move_construct : ℕ → Use
  move_assign : ℕ → ℕ → Use
  release destroy : ℕ → Use
  reset : ℕ → Fd → Use

unfoldable pub reset_at : ℕ → Fd → Process → Process
unfolding closed_by_reset
reset_at i fd p = record {
  objects = put_at p.objects i fd;
  closed = closed_by_reset (held_at p.objects i) fd p.closed;
}

-- `std::exchange(fd_, -1)`: the object holds nothing any more.
abbrev emptied : ℕ → Process → Process
emptied i p = record p { objects = put_at p.objects i no_fd }

-- `operator=(Fd&& other)` between two objects.
unfoldable pub assign_from : ℕ → ℕ → Process → Process
unfolding reset_at
assign_from i j p =
    let cleared = reset_at i no_fd p in
    record cleared {
      objects = put_at (put_at cleared.objects i (held_at cleared.objects j)) j no_fd;
    }

abbrev in_range : ℕ → Process → Bool
in_range i p = ltb i (length p.objects)

-- A use of an object that does not exist changes nothing.
unfoldable pub use_fd : Use → Process → Process
use_fd (construct fd) p = record p { objects = fd ∷ p.objects }
use_fd (move_construct i) p = record p { objects = held_at p.objects i ∷ put_at p.objects i no_fd }
use_fd (move_assign i j) p =
    if in_range i p && in_range j p && not (i == j) then assign_from i j p else p
use_fd (release i) p = emptied i p
use_fd (destroy i) p = if in_range i p then reset_at i no_fd p else p
use_fd (reset i fd) p = if in_range i p then reset_at i fd p else p

unfoldable pub use_all : List Use → Process → Process
use_all [] p = p
use_all (u ∷ us) p = use_all us (use_fd u p)
