-- ===== src/WorkerPool/Frame.antt =====
-- What a step of a worker in src/worker_pool.cpp leaves alone: the flag of the queue, and what callers
-- of `dispatch` owe.
use http_server.Prelude.{ℕ, zero, suc, ◌≡◌, refl, List, [], ◌∷◌, Bool-cases, inl, inr}
use http_server.BoundedQueue.{may_pop, pop_locked}
use http_server.Connection.{ConnectionConfig, Site}
use http_server.Descriptor.{Fd}
use http_server.WorkerPool.{Worker, popping, activating, serving, adding, finished, Shared}
use http_server.WorkerPool.Loop.{Service, taken, work, work_at}

module _ (site : Site) (config : ConnectionConfig) (service : Service) where
  taken-closed :
      (s : Shared) (items : List Fd)
      → s.queue.queue ≡ items
      → (taken (pop_locked s.queue) s).1.queue.closed ≡ s.queue.closed
  unfolding pop_locked
  taken-closed s [] e = rw e refl
  taken-closed s (client ∷ items) e = rw e refl

  work-closed :
      (w : Worker) (s : Shared) → (work site config service w s).1.queue.closed ≡ s.queue.closed
  unfolding work
  work-closed popping s = elim (Bool-cases (may_pop s.queue)) [
    | inl ready ↦ rw ready (taken-closed s s.queue.queue refl)
    | inr waiting ↦ rw waiting refl
  ]
  work-closed (activating client) s = refl
  work-closed (serving client) s = refl
  work-closed (adding []) s = refl
  work-closed (adding (a ∷ more)) s = refl
  work-closed finished s = refl

  -- No worker closes the queue.
  pub work_at-closed :
      (i : ℕ) (ws : List Worker) (s : Shared)
      → (work_at site config service i ws s).1.queue.closed ≡ s.queue.closed
  unfolding work_at
  work_at-closed i [] s = refl
  work_at-closed zero (w ∷ ws) s = work-closed w s
  work_at-closed (suc i) (w ∷ ws) s = work_at-closed i ws s

  taken-dispatching :
      (s : Shared) (items : List Fd)
      → s.queue.queue ≡ items
      → (taken (pop_locked s.queue) s).1.dispatching ≡ s.dispatching
  unfolding pop_locked
  taken-dispatching s [] e = rw e refl
  taken-dispatching s (client ∷ items) e = rw e refl

  work-dispatching :
      (w : Worker) (s : Shared) → (work site config service w s).1.dispatching ≡ s.dispatching
  unfolding work
  work-dispatching popping s = elim (Bool-cases (may_pop s.queue)) [
    | inl ready ↦ rw ready (taken-dispatching s s.queue.queue refl)
    | inr waiting ↦ rw waiting refl
  ]
  work-dispatching (activating client) s = refl
  work-dispatching (serving client) s = refl
  work-dispatching (adding []) s = refl
  work-dispatching (adding (a ∷ more)) s = refl
  work-dispatching finished s = refl

  -- No worker touches what callers of dispatch owe.
  pub work_at-dispatching :
      (i : ℕ) (ws : List Worker) (s : Shared)
      → (work_at site config service i ws s).1.dispatching ≡ s.dispatching
  unfolding work_at
  work_at-dispatching i [] s = refl
  work_at-dispatching zero (w ∷ ws) s = work-dispatching w s
  work_at-dispatching (suc i) (w ∷ ws) s = work_at-dispatching i ws s
