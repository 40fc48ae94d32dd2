-- ===== src/BoundedQueue/Answered.antt =====
-- The invariant on the threads of include/http/bounded_queue.hpp, and the critical sections.
use http_server.Prelude.{
  suc, ◌+◌, ◌≤◌, ◌<◌, ◌≡◌, true, false, List, [], ◌∷◌, ◌++◌, ltb, length, Bool-cases, arith, inl,
  inr, length-append, ap, subst,
}
use http_server.BoundedQueue.{may_push, may_pop, push_locked, pop_locked, close_locked}
use http_server.BoundedQueue.Monitor.{Monitor, push, pop, close}

-- What holds between any two steps.
pub record IsAnswered {ℓ} {A : Type ℓ} (m : Monitor A) : Type ℓ where
  pub fits : length m.inner.queue ≤ m.inner.capacity
  pub pops :
      0 < m.pop_sleeping
      → m.inner.closed ≡ false
      → length m.inner.queue ≤ m.pop_awake + m.owed_not_empty
  pub pushes :
      0 < m.push_sleeping
      → m.inner.closed ≡ false
      → m.inner.capacity ≤ length m.inner.queue + (m.push_awake + m.owed_not_full)
  pub pops_closed : 0 < m.pop_sleeping → m.inner.closed ≡ true → 0 < m.owed_all_not_empty
  pub pushes_closed : 0 < m.push_sleeping → m.inner.closed ≡ true → 0 < m.owed_all_not_full

module _ {ℓ} {A : Type ℓ} where
  -- A thread that is back under the mutex goes on as it would when woken.
  pub push_woken :
      (m : Monitor A) → IsAnswered m → IsAnswered (record m { push_awake = suc m.push_awake })
  push_woken m h = record {
    fits = h.fits;
    pops = h.pops;
    pushes = λ s c. omega (arith, h.pushes s c);
    pops_closed = h.pops_closed;
    pushes_closed = h.pushes_closed;
  }

  pub pop_woken :
      (m : Monitor A) → IsAnswered m → IsAnswered (record m { pop_awake = suc m.pop_awake })
  pop_woken m h = record {
    fits = h.fits;
    pops = λ s c. omega (arith, h.pops s c);
    pushes = h.pushes;
    pops_closed = h.pops_closed;
    pushes_closed = h.pushes_closed;
  }

  pub push-IsAnswered :
      (item : A) (m : Monitor A)
      → IsAnswered (record m { push_awake = suc m.push_awake })
      → IsAnswered (push item m)
  unfolding push may_push push_locked
  push-IsAnswered item m h =
      let grown : length (m.inner.queue ++ item ∷ []) ≡ length m.inner.queue + 1 =
        length-append m.inner.queue (item ∷ []) in
      elim (Bool-cases m.inner.closed) [
        | inl over ↦ rw over (record {
          fits = h.fits;
          pops = λ s c. cc;
          pushes = λ s c. cc;
          pops_closed = λ s c. h.pops_closed s over;
          pushes_closed = λ s c. h.pushes_closed s over;
        })
        | inr running ↦ elim (Bool-cases (ltb (length m.inner.queue) m.inner.capacity)) [
          | inl room ↦
              rw (running, room)
                (record {
                  fits = ground arith;
                  pops = λ s c. ground (arith, h.pops s running);
                  pushes = λ s c. ground (arith, h.pushes s running);
                  pops_closed = λ s c. cc;
                  pushes_closed = λ s c. cc;
                })
          | inr full ↦
              rw (running, full)
                (record {
                  fits = h.fits;
                  pops = λ s c. h.pops s running;
                  pushes = λ s c. ground arith;
                  pops_closed = λ s c. cc;
                  pushes_closed = λ s c. cc;
                })
        ]
      ]

  pub popped-IsAnswered :
      (m : Monitor A) (items : List A)
      → m.inner.queue ≡ items
      → IsAnswered (record m { pop_awake = suc m.pop_awake })
      → IsAnswered (pop m)
  unfolding pop may_pop pop_locked
  popped-IsAnswered m [] e h = elim (Bool-cases m.inner.closed) [
    | inl over ↦
        rw (over, e)
          (record {
            fits = ground arith;
            pops = λ s c. cc;
            pushes = λ s c. cc;
            pops_closed = λ s c. h.pops_closed s over;
            pushes_closed = λ s c. h.pushes_closed s over;
          })
    | inr running ↦
        rw (running, e)
          (record {
            fits = ground arith;
            pops = λ s c. ground arith;
            pushes = λ s c.
                subst (λ q. m.inner.capacity ≤ length q + (m.push_awake + m.owed_not_full)) e
                  (h.pushes s running);
            pops_closed = λ s c. cc;
            pushes_closed = λ s c. cc;
          })
  ]
  popped-IsAnswered m (item ∷ items) e h =
      let long : length m.inner.queue ≡ suc (length items) = ap length e in
      elim (Bool-cases m.inner.closed) [
        | inl over ↦
            rw (over, e)
              (record {
                fits = omega (arith, long, h.fits);
                pops = λ s c. cc;
                pushes = λ s c. cc;
                pops_closed = λ s c. h.pops_closed s over;
                pushes_closed = λ s c. h.pushes_closed s over;
              })
        | inr running ↦
            rw (running, e)
              (record {
                fits = omega (arith, long, h.fits);
                pops = λ s c. omega (arith, long, h.pops s running);
                pushes = λ s c. omega (arith, long, h.pushes s running);
                pops_closed = λ s c. cc;
                pushes_closed = λ s c. cc;
              })
      ]

  pub close-IsAnswered : (m : Monitor A) → IsAnswered m → IsAnswered (close m)
  unfolding close close_locked
  close-IsAnswered m h = record {
    fits = h.fits;
    pops = λ s c. cc;
    pushes = λ s c. cc;
    pops_closed = λ s c. omega arith;
    pushes_closed = λ s c. omega arith;
  }
