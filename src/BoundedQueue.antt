-- ===== src/BoundedQueue.antt =====
-- include/http/bounded_queue.hpp: the queue between the accepting thread and the workers. A call is
-- cut where it lets go of the mutex: the critical section, the wait, the notification behind it.
pub mod Monitor
pub mod Order
pub mod Contract
pub mod Refinement
pub mod Quiet
pub mod Answered
pub mod WakeUps
use http_server.Prelude.{
  ℕ, Bool, true, false, not, ◌||◌, List, [], ◌∷◌, ◌++◌, Option, none, some, ltb, ◌==◌,
  if◌then◌else◌, length,
}

pub record BoundedQueue {ℓ} (A : Type ℓ) : Type ℓ where
  pub capacity : ℕ
  pub queue : List A
  pub high_water_mark : ℕ
  pub closed : Bool

abbrev pub raised : ℕ → ℕ → ℕ
raised mark size = if ltb mark size then size else mark

module _ {ℓ} {A : Type ℓ} where
  -- The constructor; `none` where it throws.
  unfoldable pub create : ℕ → Option (BoundedQueue A)
  create capacity =
      if capacity == 0
      then none
      else some (record { capacity = capacity; queue = []; high_water_mark = 0; closed = false })

  abbrev pub is_nil : List A → Bool
  is_nil [] = true
  is_nil (item ∷ items) = false

  -- What `push` waits for.
  unfoldable pub may_push : BoundedQueue A → Bool
  may_push q = q.closed || ltb (length q.queue) q.capacity

  -- What `pop` waits for.
  unfoldable pub may_pop : BoundedQueue A → Bool
  may_pop q = q.closed || not (is_nil q.queue)

  -- The critical section of `push` behind the wait: whether the item was taken, and the queue.
  unfoldable pub push_locked : A → BoundedQueue A → Bool × BoundedQueue A
  push_locked item q =
      let items = q.queue ++ item ∷ [] in
      if q.closed then (false, q) else (
        true,
        record q { queue = items; high_water_mark = raised q.high_water_mark (length items) },
      )

  abbrev pub pop_from : List A → BoundedQueue A → Option A × BoundedQueue A
  pop_from [] q = (none, q)
  pop_from (item ∷ items) q = (some item, record q { queue = items })

  -- The critical section of `pop` behind the wait.
  unfoldable pub pop_locked : BoundedQueue A → Option A × BoundedQueue A
  pop_locked q = pop_from q.queue q

  -- The critical section of `close`.
  unfoldable pub close_locked : BoundedQueue A → BoundedQueue A
  close_locked q = record q { closed = true }
