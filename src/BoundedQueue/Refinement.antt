-- ===== src/BoundedQueue/Refinement.antt =====
-- The monitor of include/http/bounded_queue.hpp keeps the contract, whatever its threads do.
use http_server.Prelude.{
  ℕ, zero, suc, ◌≡◌, refl, subst, Bool, true, false, List, [], ◌∷◌, ◌++◌, Option, none, some,
  if◌then◌else◌, Bool-cases, inl, inr, ltb, length, ltb→lt,
}
use http_server.BoundedQueue.{
  BoundedQueue, may_push, may_pop, push_locked, pop_locked, close_locked,
}
use http_server.BoundedQueue.Contract.{
  Contract, Act, stored, refused, handed, ended, shut, Allowed, stores, refuses, hands, ends, shuts,
  Behaves, here, next,
}
use http_server.BoundedQueue.Monitor.{
  Monitor, Event, step, run, push, pop, close, wake_pop, wake_push, call_push, resume_push,
  call_pop, resume_pop, call_close, notify_not_empty, notify_not_full, notify_all_not_empty,
  notify_all_not_full, spurious_push, spurious_pop, notify_pop_in, notify_push_in,
  notify_all_pop_in, notify_all_push_in, resume_push_in, resume_pop_in,
}

module _ {ℓ} {A : Type ℓ} where
  -- What the monitor shows of its queue.
  abbrev pub view : Monitor A → Contract A
  view m = record { capacity = m.inner.capacity; items = m.inner.queue; closed = m.inner.closed }

  abbrev pushes : A → Bool → List (Act A)
  pushes item true = stored item ∷ []
  pushes item false = refused item ∷ []

  abbrev pops : Option A → List (Act A)
  pops none = ended ∷ []
  pops (some item) = handed item ∷ []

  -- What the critical sections of a push and a pop return; nothing where the thread sleeps.
  abbrev push_acts : A → BoundedQueue A → List (Act A)
  push_acts item q = if may_push q then pushes item (push_locked item q).0 else []

  abbrev pop_acts : BoundedQueue A → List (Act A)
  pop_acts q = if may_pop q then pops (pop_locked q).0 else []

  abbrev push_acts_in : ℕ → A → BoundedQueue A → List (Act A)
  push_acts_in zero item q = []
  push_acts_in (suc awake) item q = push_acts item q

  abbrev pop_acts_in : ℕ → BoundedQueue A → List (Act A)
  pop_acts_in zero q = []
  pop_acts_in (suc awake) q = pop_acts q

  abbrev acts : Event A → Monitor A → List (Act A)
  acts (call_push item) m = push_acts item m.inner
  acts (resume_push item) m = push_acts_in m.push_awake item m.inner
  acts call_pop m = pop_acts m.inner
  acts resume_pop m = pop_acts_in m.pop_awake m.inner
  acts call_close m = shut ∷ []
  acts _ m = []

  -- What the calls of a run return, in the order of their critical sections.
  unfoldable pub all_acts : List (Event A) → Monitor A → List (Act A)
  all_acts [] m = []
  all_acts (e ∷ es) m = acts e m ++ all_acts es (step e m)

  Behaves-append :
      {u t s : Contract A} {first rest : List (Act A)}
      → Behaves t s first
      → Behaves u t rest
      → Behaves u s (first ++ rest)
  Behaves-append here b = b
  Behaves-append (next a more) b = next a (Behaves-append more b)

  once : {s t : Contract A} {a : Act A} → Allowed s a t → Behaves t s (a ∷ [])
  once a = next a here

  push-Behaves :
      (item : A) (m : Monitor A) → Behaves (view (push item m)) (view m) (push_acts item m.inner)
  unfolding push may_push push_locked
  push-Behaves item m = elim (Bool-cases m.inner.closed) [
    | inl over ↦ rw over (once (refuses item refl))
    | inr running ↦ elim (Bool-cases (ltb (length m.inner.queue) m.inner.capacity)) [
      | inl room ↦ rw (running, room) (once (stores item refl (ltb→lt _ _ room)))
      | inr full ↦ rw (running, full) here
    ]
  ]

  pop-Behaves :
      (m : Monitor A) (items : List A)
      → m.inner.queue ≡ items
      → Behaves (view (pop m)) (view m) (pop_acts m.inner)
  unfolding pop may_pop pop_locked
  pop-Behaves m [] e = elim (Bool-cases m.inner.closed) [
    | inl over ↦ rw (over, e) (once (ends refl refl))
    | inr running ↦ rw (running, e) here
  ]
  pop-Behaves m (item ∷ items) e = elim (Bool-cases m.inner.closed) [
    | inl over ↦ rw (over, e) (once (hands item items refl))
    | inr running ↦ rw (running, e) (once (hands item items refl))
  ]

  -- A step that leaves the queue alone.
  idles : (m n : Monitor A) → view n ≡ view m → Behaves (view n) (view m) []
  idles m n same = subst (λ v. Behaves (view n) v []) same here

  wake_pop-view : (n : ℕ) (m : Monitor A) → view (wake_pop n m) ≡ view m
  wake_pop-view zero m = refl
  wake_pop-view (suc n) m = refl

  wake_push-view : (n : ℕ) (m : Monitor A) → view (wake_push n m) ≡ view m
  wake_push-view zero m = refl
  wake_push-view (suc n) m = refl

  notify_pop-view : (n : ℕ) (m : Monitor A) → view (notify_pop_in n m) ≡ view m
  notify_pop-view zero m = refl
  notify_pop-view (suc n) m = wake_pop-view m.pop_sleeping (record m { owed_not_empty = n })

  notify_push-view : (n : ℕ) (m : Monitor A) → view (notify_push_in n m) ≡ view m
  notify_push-view zero m = refl
  notify_push-view (suc n) m = wake_push-view m.push_sleeping (record m { owed_not_full = n })

  notify_all_pop-view : (n : ℕ) (m : Monitor A) → view (notify_all_pop_in n m) ≡ view m
  notify_all_pop-view zero m = refl
  notify_all_pop-view (suc n) m = refl

  notify_all_push-view : (n : ℕ) (m : Monitor A) → view (notify_all_push_in n m) ≡ view m
  notify_all_push-view zero m = refl
  notify_all_push-view (suc n) m = refl

  resume_push-Behaves :
      (n : ℕ) (item : A) (m : Monitor A)
      → Behaves (view (resume_push_in n item m)) (view m) (push_acts_in n item m.inner)
  resume_push-Behaves zero item m = here
  resume_push-Behaves (suc n) item m = push-Behaves item (record m { push_awake = n })

  resume_pop-Behaves :
      (n : ℕ) (m : Monitor A) → Behaves (view (resume_pop_in n m)) (view m) (pop_acts_in n m.inner)
  resume_pop-Behaves zero m = here
  resume_pop-Behaves (suc n) m = pop-Behaves (record m { pop_awake = n }) m.inner.queue refl

  step-Behaves : (e : Event A) (m : Monitor A) → Behaves (view (step e m)) (view m) (acts e m)
  unfolding step close close_locked
  step-Behaves (call_push item) m = push-Behaves item m
  step-Behaves (resume_push item) m = resume_push-Behaves m.push_awake item m
  step-Behaves call_pop m = pop-Behaves m m.inner.queue refl
  step-Behaves resume_pop m = resume_pop-Behaves m.pop_awake m
  step-Behaves call_close m = once shuts
  step-Behaves notify_not_empty m =
      idles m (notify_pop_in m.owed_not_empty m) (notify_pop-view m.owed_not_empty m)
  step-Behaves notify_not_full m =
      idles m (notify_push_in m.owed_not_full m) (notify_push-view m.owed_not_full m)
  step-Behaves notify_all_not_empty m =
      idles m (notify_all_pop_in m.owed_all_not_empty m)
        (notify_all_pop-view m.owed_all_not_empty m)
  step-Behaves notify_all_not_full m =
      idles m (notify_all_push_in m.owed_all_not_full m)
        (notify_all_push-view m.owed_all_not_full m)
  step-Behaves spurious_push m =
      idles m (wake_push m.push_sleeping m) (wake_push-view m.push_sleeping m)
  step-Behaves spurious_pop m = idles m (wake_pop m.pop_sleeping m) (wake_pop-view m.pop_sleeping m)

  -- Whatever the threads do, what their calls return is a behaviour of the contract from the queue at
  -- the start to that at the end: push returns true on an open queue with room, false on a closed one;
  -- pop returns the first item, or nothing on a closed and empty queue.
  pub run-Behaves :
      (es : List (Event A)) (m : Monitor A) → Behaves (view (run es m)) (view m) (all_acts es m)
  unfolding run all_acts
  run-Behaves [] m = here
  run-Behaves (e ∷ es) m = Behaves-append (step-Behaves e m) (run-Behaves es (step e m))
