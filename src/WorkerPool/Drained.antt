-- ===== src/WorkerPool/Drained.antt =====
-- A worker of src/worker_pool.cpp ends only when it has seen the queue closed and empty.
use http_server.Prelude.{
  ℕ, zero, suc, ◌≡◌, refl, true, List, [], ◌∷◌, arith, length, All, Bool-cases, inl, inr,
}
use http_server.BoundedQueue.{may_pop, pop_locked}
use http_server.Connection.{ConnectionConfig, Site}
use http_server.Descriptor.{Fd}
use http_server.WorkerPool.{Worker, popping, activating, serving, adding, finished, Shared}
use http_server.WorkerPool.Loop.{
  Service, Ending, returned, thrown, goes_on, service_ending, after_service, work, work_at,
}

-- The queue is closed and empty.
abbrev pub IsDrained : Shared → Type 0
IsDrained s = (s.queue.closed ≡ true) × (s.queue.queue ≡ [])

-- A worker that has ended has seen the queue drained.
abbrev pub EndsDrained : Shared → Worker → Type 0
EndsDrained s finished = IsDrained s
EndsDrained s _ = Unit

abbrev pub IsFinished : Worker → Type 0
IsFinished w = w ≡ finished

module _ (site : Site) (config : ConnectionConfig) (service : Service) where
  pub work-IsDrained :
      (w : Worker) (s : Shared) → IsDrained s → IsDrained (work site config service w s).1
  unfolding work may_pop pop_locked
  work-IsDrained popping s h = rw (h.0, h.1) (refl, refl)
  work-IsDrained (activating client) s h = h
  work-IsDrained (serving client) s h = h
  work-IsDrained (adding []) s h = h
  work-IsDrained (adding (a ∷ more)) s h = h
  work-IsDrained finished s h = h

  after_service-EndsDrained :
      (s : Shared) (e : Ending) (client : Fd) → EndsDrained s (after_service e client)
  after_service-EndsDrained s (returned result) client = tt
  after_service-EndsDrained s thrown client = tt
  after_service-EndsDrained s goes_on client = tt

  popping-EndsDrained :
      (s : Shared) (items : List Fd)
      → s.queue.queue ≡ items
      → EndsDrained (work site config service popping s).1 (work site config service popping s).0
  unfolding work may_pop pop_locked
  popping-EndsDrained s [] e = elim (Bool-cases s.queue.closed) [
    | inl over ↦ rw (over, e) (refl, refl)
    | inr running ↦ rw (running, e) tt
  ]
  popping-EndsDrained s (client ∷ items) e = elim (Bool-cases s.queue.closed) [
    | inl over ↦ rw (over, e) tt
    | inr running ↦ rw (running, e) tt
  ]

  work-EndsDrained :
      (w : Worker) (s : Shared)
      → EndsDrained s w
      → EndsDrained (work site config service w s).1 (work site config service w s).0
  unfolding work
  work-EndsDrained popping s h = popping-EndsDrained s s.queue.queue refl
  work-EndsDrained (activating client) s h = tt
  work-EndsDrained (serving client) s h =
      after_service-EndsDrained s (service_ending site config service client) client
  work-EndsDrained (adding []) s h = tt
  work-EndsDrained (adding (a ∷ more)) s h = tt
  work-EndsDrained finished s h = h

EndsDrained-mono :
    (s t : Shared) → (IsDrained s → IsDrained t) → (w : Worker) → EndsDrained s w → EndsDrained t w
EndsDrained-mono s t keep popping h = tt
EndsDrained-mono s t keep (activating client) h = tt
EndsDrained-mono s t keep (serving client) h = tt
EndsDrained-mono s t keep (adding more) h = tt
EndsDrained-mono s t keep finished h = keep h

pub All-EndsDrained-mono :
    (s t : Shared)
    → (IsDrained s → IsDrained t)
    → (ws : List Worker) → All (EndsDrained s) ws
    → All (EndsDrained t) ws
All-EndsDrained-mono s t keep [] h = tt
All-EndsDrained-mono s t keep (w ∷ ws) h =
    (EndsDrained-mono s t keep w h.0, All-EndsDrained-mono s t keep ws h.1)

module _ (site : Site) (config : ConnectionConfig) (service : Service) where
  pub work_at-EndsDrained :
      (i : ℕ) (ws : List Worker) (s : Shared)
      → All (EndsDrained s) ws
      → (IsDrained s → IsDrained (work_at site config service i ws s).1)
        × All
            (EndsDrained (work_at site config service i ws s).1)
            (work_at site config service i ws s).0
  unfolding work_at
  work_at-EndsDrained i [] s h = (λ d. d, tt)
  work_at-EndsDrained zero (w ∷ ws) s h =
      let keep = work-IsDrained site config service w s in
      (
        keep,
        (
          work-EndsDrained site config service w s h.0,
          All-EndsDrained-mono s (work site config service w s).1 keep ws h.1,
        ),
      )
  work_at-EndsDrained (suc i) (w ∷ ws) s h =
      let (keep, rest) = work_at-EndsDrained i ws s h.1 in
      (keep, (EndsDrained-mono s (work_at site config service i ws s).1 keep w h.0, rest))

  pub length-work_at :
      (i : ℕ) (ws : List Worker) (s : Shared)
      → length (work_at site config service i ws s).0 ≡ length ws
  unfolding work_at
  length-work_at i [] s = refl
  length-work_at zero (w ∷ ws) s = refl
  length-work_at (suc i) (w ∷ ws) s = omega (arith, length-work_at i ws s)
