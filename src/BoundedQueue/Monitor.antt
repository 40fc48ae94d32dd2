-- ===== src/BoundedQueue/Monitor.antt =====
-- The threads in `push`, `pop` and `close` of include/http/bounded_queue.hpp, counted by where they
-- stand: asleep in a condition variable, woken but not back under the mutex, or past the mutex with
-- a notification still to send. A woken `push` may bring any item, so every real run is among those
-- of the model.
use http_server.Prelude.{
  ℕ, zero, suc, Bool, true, false, List, [], ◌∷◌, Option, none, some, if◌then◌else◌, ◌+◌,
}
use http_server.BoundedQueue.{
  BoundedQueue, may_push, may_pop, push_locked, pop_locked, close_locked,
}

pub record Monitor {ℓ} (A : Type ℓ) : Type ℓ where
  pub inner : BoundedQueue A
  pub push_sleeping : ℕ
  pub push_awake : ℕ
  pub pop_sleeping : ℕ
  pub pop_awake : ℕ
  -- `notify_one` calls still to be made.
  pub owed_not_empty : ℕ
  pub owed_not_full : ℕ
  -- `notify_all` calls of `close` still to be made.
  pub owed_all_not_empty : ℕ
  pub owed_all_not_full : ℕ

-- One step of one thread.
pub data Event {ℓ} (A : Type ℓ) : Type ℓ where
  call_push resume_push : A → Event A
  call_pop resume_pop call_close : Event A
  notify_not_empty notify_not_full notify_all_not_empty notify_all_not_full : Event A
  spurious_push spurious_pop : Event A

module _ {ℓ} {A : Type ℓ} where
  -- A queue with no thread in it.
  unfoldable pub idle : BoundedQueue A → Monitor A
  idle q = record {
    inner = q;
    push_sleeping = 0;
    push_awake = 0;
    pop_sleeping = 0;
    pop_awake = 0;
    owed_not_empty = 0;
    owed_not_full = 0;
    owed_all_not_empty = 0;
    owed_all_not_full = 0;
  }

  abbrev pub pushed : Bool × BoundedQueue A → Monitor A → Monitor A
  pushed (true, q) m = record m { inner = q; owed_not_empty = suc m.owed_not_empty }
  pushed (false, q) m = record m { inner = q }

  -- A thread of `push` that holds the mutex tests the condition, and sleeps or goes on.
  unfoldable pub push : A → Monitor A → Monitor A
  push item m =
      if may_push m.inner
      then pushed (push_locked item m.inner) m
      else record m { push_sleeping = suc m.push_sleeping }

  abbrev pub popped : Option A × BoundedQueue A → Monitor A → Monitor A
  popped (some item, q) m = record m { inner = q; owed_not_full = suc m.owed_not_full }
  popped (none, q) m = record m { inner = q }

  unfoldable pub pop : Monitor A → Monitor A
  pop m =
      if may_pop m.inner
      then popped (pop_locked m.inner) m
      else record m { pop_sleeping = suc m.pop_sleeping }

  unfoldable pub close : Monitor A → Monitor A
  close m = record m {
    inner = close_locked m.inner;
    owed_all_not_empty = suc m.owed_all_not_empty;
    owed_all_not_full = suc m.owed_all_not_full;
  }

  -- One sleeper, if there is one, wakes up.
  abbrev pub wake_pop : ℕ → Monitor A → Monitor A
  wake_pop zero m = m
  wake_pop (suc sleeping) m = record m { pop_sleeping = sleeping; pop_awake = suc m.pop_awake }

  abbrev pub wake_push : ℕ → Monitor A → Monitor A
  wake_push zero m = m
  wake_push (suc sleeping) m = record m { push_sleeping = sleeping; push_awake = suc m.push_awake }

  abbrev pub resume_push_in : ℕ → A → Monitor A → Monitor A
  resume_push_in zero item m = m
  resume_push_in (suc awake) item m = push item (record m { push_awake = awake })

  abbrev pub resume_pop_in : ℕ → Monitor A → Monitor A
  resume_pop_in zero m = m
  resume_pop_in (suc awake) m = pop (record m { pop_awake = awake })

  abbrev pub notify_pop_in : ℕ → Monitor A → Monitor A
  notify_pop_in zero m = m
  notify_pop_in (suc owed) m = wake_pop m.pop_sleeping (record m { owed_not_empty = owed })

  abbrev pub notify_push_in : ℕ → Monitor A → Monitor A
  notify_push_in zero m = m
  notify_push_in (suc owed) m = wake_push m.push_sleeping (record m { owed_not_full = owed })

  abbrev pub notify_all_pop_in : ℕ → Monitor A → Monitor A
  notify_all_pop_in zero m = m
  notify_all_pop_in (suc owed) m = record m {
    owed_all_not_empty = owed;
    pop_awake = m.pop_awake + m.pop_sleeping;
    pop_sleeping = 0;
  }

  abbrev pub notify_all_push_in : ℕ → Monitor A → Monitor A
  notify_all_push_in zero m = m
  notify_all_push_in (suc owed) m = record m {
    owed_all_not_full = owed;
    push_awake = m.push_awake + m.push_sleeping;
    push_sleeping = 0;
  }

  -- A step of a thread that is not there changes nothing.
  unfoldable pub step : Event A → Monitor A → Monitor A
  step (call_push item) m = push item m
  step (resume_push item) m = resume_push_in m.push_awake item m
  step call_pop m = pop m
  step resume_pop m = resume_pop_in m.pop_awake m
  step call_close m = close m
  step notify_not_empty m = notify_pop_in m.owed_not_empty m
  step notify_not_full m = notify_push_in m.owed_not_full m
  step notify_all_not_empty m = notify_all_pop_in m.owed_all_not_empty m
  step notify_all_not_full m = notify_all_push_in m.owed_all_not_full m
  step spurious_push m = wake_push m.push_sleeping m
  step spurious_pop m = wake_pop m.pop_sleeping m

  unfoldable pub run : List (Event A) → Monitor A → Monitor A
  run [] m = m
  run (e ∷ es) m = run es (step e m)
