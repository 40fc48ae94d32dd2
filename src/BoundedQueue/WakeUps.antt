-- ===== src/BoundedQueue/WakeUps.antt =====
-- No wake-up of include/http/bounded_queue.hpp is lost: who sleeps has nothing to do, or is answered
-- by a thread that is awake or by a notification on its way.
use http_server.Prelude.{ℕ, zero, suc, ◌≡◌, List, [], ◌∷◌, arith, refl, subst}
use http_server.BoundedQueue.Monitor.{
  Monitor, Event, step, run, wake_pop, wake_push, resume_push_in, resume_pop_in, notify_pop_in,
  notify_push_in, notify_all_pop_in, notify_all_push_in, call_push, resume_push, call_pop,
  resume_pop, call_close, notify_not_empty, notify_not_full, notify_all_not_empty,
  notify_all_not_full, spurious_push, spurious_pop,
}
use http_server.BoundedQueue.Answered.{
  IsAnswered, push_woken, pop_woken, push-IsAnswered, popped-IsAnswered, close-IsAnswered,
}

module _ {ℓ} {A : Type ℓ} where
  wake_pop-IsAnswered :
      (m : Monitor A) (n : ℕ) → m.pop_sleeping ≡ n → IsAnswered m → IsAnswered (wake_pop n m)
  wake_pop-IsAnswered m zero e h = h
  wake_pop-IsAnswered m (suc n) e h = record {
    fits = h.fits;
    pops = λ s c. omega (arith, h.pops (omega arith) c);
    pushes = h.pushes;
    pops_closed = λ s c. h.pops_closed (omega arith) c;
    pushes_closed = h.pushes_closed;
  }

  wake_push-IsAnswered :
      (m : Monitor A) (n : ℕ) → m.push_sleeping ≡ n → IsAnswered m → IsAnswered (wake_push n m)
  wake_push-IsAnswered m zero e h = h
  wake_push-IsAnswered m (suc n) e h = record {
    fits = h.fits;
    pops = h.pops;
    pushes = λ s c. omega (arith, h.pushes (omega arith) c);
    pops_closed = h.pops_closed;
    pushes_closed = λ s c. h.pushes_closed (omega arith) c;
  }

  -- `notify_one` hands its place in the count to the thread that it wakes.
  notify_one_pop-IsAnswered :
      (m : Monitor A) (owed n : ℕ)
      → m.owed_not_empty ≡ suc owed
      → m.pop_sleeping ≡ n
      → IsAnswered m
      → IsAnswered (wake_pop n (record m { owed_not_empty = owed }))
  notify_one_pop-IsAnswered m owed zero o e h = record {
    fits = h.fits;
    pops = λ s c. absurd (omega arith);
    pushes = h.pushes;
    pops_closed = h.pops_closed;
    pushes_closed = h.pushes_closed;
  }
  notify_one_pop-IsAnswered m owed (suc n) o e h = record {
    fits = h.fits;
    pops = λ s c. omega (arith, h.pops (omega arith) c);
    pushes = h.pushes;
    pops_closed = λ s c. h.pops_closed (omega arith) c;
    pushes_closed = h.pushes_closed;
  }

  notify_one_push-IsAnswered :
      (m : Monitor A) (owed n : ℕ)
      → m.owed_not_full ≡ suc owed
      → m.push_sleeping ≡ n
      → IsAnswered m
      → IsAnswered (wake_push n (record m { owed_not_full = owed }))
  notify_one_push-IsAnswered m owed zero o e h = record {
    fits = h.fits;
    pops = h.pops;
    pushes = λ s c. absurd (omega arith);
    pops_closed = h.pops_closed;
    pushes_closed = h.pushes_closed;
  }
  notify_one_push-IsAnswered m owed (suc n) o e h = record {
    fits = h.fits;
    pops = h.pops;
    pushes = λ s c. omega (arith, h.pushes (omega arith) c);
    pops_closed = h.pops_closed;
    pushes_closed = λ s c. h.pushes_closed (omega arith) c;
  }

  notify_pop-IsAnswered :
      (m : Monitor A) (n : ℕ) → m.owed_not_empty ≡ n → IsAnswered m → IsAnswered (notify_pop_in n m)
  notify_pop-IsAnswered m zero e h = h
  notify_pop-IsAnswered m (suc n) e h = notify_one_pop-IsAnswered m n m.pop_sleeping e refl h

  notify_push-IsAnswered :
      (m : Monitor A) (n : ℕ) → m.owed_not_full ≡ n → IsAnswered m → IsAnswered (notify_push_in n m)
  notify_push-IsAnswered m zero e h = h
  notify_push-IsAnswered m (suc n) e h = notify_one_push-IsAnswered m n m.push_sleeping e refl h

  notify_all_pop-IsAnswered :
      (m : Monitor A) (n : ℕ) → IsAnswered m → IsAnswered (notify_all_pop_in n m)
  notify_all_pop-IsAnswered m zero h = h
  notify_all_pop-IsAnswered m (suc n) h = record {
    fits = h.fits;
    pops = λ s c. absurd (omega arith);
    pushes = h.pushes;
    pops_closed = λ s c. absurd (omega arith);
    pushes_closed = h.pushes_closed;
  }

  notify_all_push-IsAnswered :
      (m : Monitor A) (n : ℕ) → IsAnswered m → IsAnswered (notify_all_push_in n m)
  notify_all_push-IsAnswered m zero h = h
  notify_all_push-IsAnswered m (suc n) h = record {
    fits = h.fits;
    pops = h.pops;
    pushes = λ s c. absurd (omega arith);
    pops_closed = h.pops_closed;
    pushes_closed = λ s c. absurd (omega arith);
  }

  resume_push-IsAnswered :
      (item : A) (m : Monitor A) (n : ℕ)
      → m.push_awake ≡ n
      → IsAnswered m
      → IsAnswered (resume_push_in n item m)
  resume_push-IsAnswered item m zero e h = h
  resume_push-IsAnswered item m (suc n) e h =
      push-IsAnswered item (record m { push_awake = n })
        (subst (λ k. IsAnswered (record m { push_awake = k })) e h)

  resume_pop-IsAnswered :
      (m : Monitor A) (n : ℕ) → m.pop_awake ≡ n → IsAnswered m → IsAnswered (resume_pop_in n m)
  resume_pop-IsAnswered m zero e h = h
  resume_pop-IsAnswered m (suc n) e h =
      popped-IsAnswered (record m { pop_awake = n }) m.inner.queue refl
        (subst (λ k. IsAnswered (record m { pop_awake = k })) e h)

  step-IsAnswered : (e : Event A) (m : Monitor A) → IsAnswered m → IsAnswered (step e m)
  unfolding step
  step-IsAnswered (call_push item) m h = push-IsAnswered item m (push_woken m h)
  step-IsAnswered (resume_push item) m h = resume_push-IsAnswered item m m.push_awake refl h
  step-IsAnswered call_pop m h = popped-IsAnswered m m.inner.queue refl (pop_woken m h)
  step-IsAnswered resume_pop m h = resume_pop-IsAnswered m m.pop_awake refl h
  step-IsAnswered call_close m h = close-IsAnswered m h
  step-IsAnswered notify_not_empty m h = notify_pop-IsAnswered m m.owed_not_empty refl h
  step-IsAnswered notify_not_full m h = notify_push-IsAnswered m m.owed_not_full refl h
  step-IsAnswered notify_all_not_empty m h = notify_all_pop-IsAnswered m m.owed_all_not_empty h
  step-IsAnswered notify_all_not_full m h = notify_all_push-IsAnswered m m.owed_all_not_full h
  step-IsAnswered spurious_push m h = wake_push-IsAnswered m m.push_sleeping refl h
  step-IsAnswered spurious_pop m h = wake_pop-IsAnswered m m.pop_sleeping refl h

  -- Any steps of any threads keep this: the queue is within its capacity; while a pop sleeps and the
  -- queue is open, each item is answered by a woken pop or an owed notification; while a push sleeps
  -- and the queue is open, so is each free place; while a thread sleeps and the queue is closed, its
  -- notify_all is owed.
  pub run-IsAnswered : (es : List (Event A)) (m : Monitor A) → IsAnswered m → IsAnswered (run es m)
  unfolding run
  run-IsAnswered [] m h = h
  run-IsAnswered (e ∷ es) m h = run-IsAnswered es (step e m) (step-IsAnswered e m h)
