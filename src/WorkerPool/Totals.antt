-- ===== src/WorkerPool/Totals.antt =====
-- What the threads of a pool hold between them: additions that they owe, connections, and a sum over
-- the workers that a step of one of them moves along with the shared state.
use http_server.Prelude.{
  ℕ, zero, suc, ◌+◌, ◌%◌, ◌≡◌, refl, List, [], ◌∷◌, if◌then◌else◌, ◌==◌, arith, size_limit,
  add_size, Bool-cases, inl, inr,
}
use http_server.Connection.{ConnectionConfig, Site}
use http_server.WorkerPool.{Counter, Counters, offset, Addition, fetch_add, Worker, adding, Shared}
use http_server.WorkerPool.Loop.{Service, work, work_at}

-- What an addition, or a list of them, gives to a counter.
abbrev pub share : Counter → Addition → ℕ
share c a = if offset a.counter == offset c then a.amount else 0

abbrev pub owed : Counter → List Addition → ℕ
owed c [] = 0
owed c (a ∷ more) = share c a + owed c more

abbrev pub owed_by : Counter → Worker → ℕ
owed_by c (adding more) = owed c more
owed_by c _ = 0

-- A counter with what the callers of dispatch owe it.
abbrev pub ledger : Counter → Shared → ℕ
ledger c s = s.counters c + owed c s.dispatching

fetch_add-share :
    (c : Counter) (a : Addition) (k : Counters)
    → fetch_add a k c % size_limit ≡ (k c + share c a) % size_limit
unfolding fetch_add add_size
fetch_add-share c a k = elim (Bool-cases (offset a.counter == offset c)) [
  | inl same ↦ rw same (omega arith)
  | inr other ↦ rw other (omega arith)
]

-- The sum of what some counters hold.
abbrev pub sum_of : List Counter → (Counter → ℕ) → ℕ
sum_of [] v = 0
sum_of (c ∷ cs) v = v c + sum_of cs v

pub sum_of-add :
    (cs : List Counter) (u v : Counter → ℕ) → sum_of cs (λ c. u c + v c) ≡ sum_of cs u + sum_of cs v
sum_of-add [] u v = omega arith
sum_of-add (c ∷ cs) u v = omega (arith, sum_of-add cs u v)

-- An addition moves from what is owed into the counters.
pub fetch_add-sum_of :
    (cs : List Counter) (a : Addition) (k : Counters)
    → sum_of cs (fetch_add a k) % size_limit
      ≡ (sum_of cs k + sum_of cs (λ c. share c a)) % size_limit
fetch_add-sum_of [] a k = omega arith
fetch_add-sum_of (c ∷ cs) a k = omega (arith, fetch_add-sum_of cs a k, fetch_add-share c a k)

abbrev pub total : (Worker → ℕ) → List Worker → ℕ
total f [] = 0
total f (w ∷ ws) = f w + total f ws

-- What one worker's step keeps, modulo 2^64, a step of the worker at an index keeps in the sum.
module _ (site : Site) (config : ConnectionConfig) (service : Service) where
  pub work_at-total :
      (f : Worker → ℕ) (g : Shared → ℕ)
      → ((w : Worker) (s : Shared)
          → (f (work site config service w s).0 + g (work site config service w s).1) % size_limit
            ≡ (f w + g s) % size_limit)
      → (i : ℕ) (ws : List Worker) (s : Shared)
      → (total f (work_at site config service i ws s).0 + g (work_at site config service i ws s).1)
          % size_limit
        ≡ (total f ws + g s) % size_limit
  unfolding work_at
  work_at-total f g one i [] s = refl
  work_at-total f g one zero (w ∷ ws) s = omega (arith, one w s)
  work_at-total f g one (suc i) (w ∷ ws) s = omega (arith, work_at-total f g one i ws s)
