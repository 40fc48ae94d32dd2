-- ===== src/BoundedQueue/Quiet.antt =====
-- Who can still sleep in include/http/bounded_queue.hpp once every notification is sent and no
-- woken thread is on its way.
use http_server.Prelude.{
  ℕ, ◌≤◌, ◌<◌, ◌≡◌, false, List, [], ◌∷◌, some, length, ap, Bool-cases, arith, inl, inr, refl, ◌==◌,
}
use http_server.BoundedQueue.{BoundedQueue, create}
use http_server.BoundedQueue.Monitor.{Monitor, Event, idle, run}
use http_server.BoundedQueue.Answered.{IsAnswered}
use http_server.BoundedQueue.WakeUps.{run-IsAnswered}

-- No call is under way but those that sleep.
pub record IsQuiet {ℓ} {A : Type ℓ} (m : Monitor A) : Type ℓ where
  pub no_push_awake : m.push_awake ≡ 0
  pub no_pop_awake : m.pop_awake ≡ 0
  pub no_owed_not_empty : m.owed_not_empty ≡ 0
  pub no_owed_not_full : m.owed_not_full ≡ 0
  pub no_owed_all_not_empty : m.owed_all_not_empty ≡ 0
  pub no_owed_all_not_full : m.owed_all_not_full ≡ 0

module _ {ℓ} {A : Type ℓ} where
  empty_of : (xs : List A) → length xs ≤ 0 → xs ≡ []
  empty_of [] h = refl
  empty_of (x ∷ xs) h = absurd (omega arith)

  create-nil :
      (capacity : ℕ) (q : BoundedQueue A) → create capacity ≡ some q → some q.queue ≡ some []
  unfolding create
  create-nil capacity q made = elim (Bool-cases (capacity == 0)) [
    | inl zero_capacity ↦ absurd (ground arith)
    | inr positive ↦ ground arith
  ]

  pub idle-IsAnswered :
      (capacity : ℕ) (q : BoundedQueue A) → create capacity ≡ some q → IsAnswered (idle q)
  unfolding idle
  idle-IsAnswered capacity q made =
      let bare : q.queue ≡ [] = ground (arith, create-nil capacity q made) in
      record {
        fits = ground (arith, ap length bare);
        pops = λ s c. absurd (omega arith);
        pushes = λ s c. absurd (omega arith);
        pops_closed = λ s c. absurd (omega arith);
        pushes_closed = λ s c. absurd (omega arith);
      }

  -- In a queue made by create, after any steps of any threads, a pop that still sleeps when no other
  -- call is under way sleeps before an open and empty queue: no wake-up of a pop is lost.
  pub run-pop_sleeping :
      (capacity : ℕ) (q : BoundedQueue A) (es : List (Event A))
      → create capacity ≡ some q
      → IsQuiet (run es (idle q))
      → 0 < (run es (idle q)).pop_sleeping
      → ((run es (idle q)).inner.queue ≡ []) × ((run es (idle q)).inner.closed ≡ false)
  run-pop_sleeping capacity q es made quiet asleep =
      let h = run-IsAnswered es (idle q) (idle-IsAnswered capacity q made) in
      elim (Bool-cases (run es (idle q)).inner.closed) [
        | inl over ↦ absurd (omega (arith, h.pops_closed asleep over, quiet.no_owed_all_not_empty))
        | inr running ↦ (
          empty_of _
              (omega (arith, h.pops asleep running, quiet.no_pop_awake, quiet.no_owed_not_empty)),
          running,
        )
      ]

  -- In a queue made by create, after any steps of any threads, a push that still sleeps when no other
  -- call is under way sleeps before an open and full queue: no wake-up of a push is lost.
  pub run-push_sleeping :
      (capacity : ℕ) (q : BoundedQueue A) (es : List (Event A))
      → create capacity ≡ some q
      → IsQuiet (run es (idle q))
      → 0 < (run es (idle q)).push_sleeping
      → (length (run es (idle q)).inner.queue ≡ (run es (idle q)).inner.capacity)
        × ((run es (idle q)).inner.closed ≡ false)
  run-push_sleeping capacity q es made quiet asleep =
      let h = run-IsAnswered es (idle q) (idle-IsAnswered capacity q made) in
      elim (Bool-cases (run es (idle q)).inner.closed) [
        | inl over ↦ absurd (omega (arith, h.pushes_closed asleep over, quiet.no_owed_all_not_full))
        | inr running ↦ (
          omega
              (arith, h.fits, h.pushes asleep running, quiet.no_push_awake, quiet.no_owed_not_full),
          running,
        )
      ]
