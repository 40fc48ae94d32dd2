-- ===== src/BoundedQueue/Order.antt =====
-- The order in which include/http/bounded_queue.hpp hands out what it took.
use http_server.Prelude.{
  ℕ, zero, suc, ◌≡◌, List, [], ◌∷◌, ◌++◌, Option, none, some, if◌then◌else◌, refl, sym, ap, ◌∙◌,
  Bool-cases, inl, inr, append_assoc, append-nil, ltb, length,
}
use http_server.BoundedQueue.{
  BoundedQueue, may_push, may_pop, push_locked, pop_locked, close_locked,
}
use http_server.BoundedQueue.Monitor.{
  Monitor, Event, step, run, push, pop, close, wake_pop, wake_push, call_push, resume_push,
  call_pop, resume_pop, call_close, notify_not_empty, notify_not_full, notify_all_not_empty,
  notify_all_not_full, spurious_push, spurious_pop, notify_pop_in, notify_push_in,
  notify_all_pop_in, notify_all_push_in, resume_push_in, resume_pop_in,
}

module _ {ℓ} {A : Type ℓ} where
  -- What the critical section of a push stores, and what that of a pop hands out.
  abbrev pub stored : A → BoundedQueue A → List A
  unfolding may_push push_locked
  stored item q = if may_push q then (if (push_locked item q).0 then item ∷ [] else []) else []

  abbrev listed : Option A → List A
  listed none = []
  listed (some item) = item ∷ []

  abbrev pub handed : BoundedQueue A → List A
  unfolding may_pop pop_locked
  handed q = if may_pop q then listed (pop_locked q).0 else []

  abbrev stored_in : ℕ → A → BoundedQueue A → List A
  stored_in zero item q = []
  stored_in (suc awake) item q = stored item q

  abbrev handed_in : ℕ → BoundedQueue A → List A
  handed_in zero q = []
  handed_in (suc awake) q = handed q

  abbrev pub taken : Event A → Monitor A → List A
  taken (call_push item) m = stored item m.inner
  taken (resume_push item) m = stored_in m.push_awake item m.inner
  taken _ m = []

  abbrev pub given : Event A → Monitor A → List A
  given call_pop m = handed m.inner
  given resume_pop m = handed_in m.pop_awake m.inner
  given _ m = []

  -- The items of the calls of push that return true, in the order of their critical sections.
  unfoldable pub all_taken : List (Event A) → Monitor A → List A
  all_taken [] m = []
  all_taken (e ∷ es) m = taken e m ++ all_taken es (step e m)

  -- The items that the calls of pop return, in the order of their critical sections.
  unfoldable pub all_given : List (Event A) → Monitor A → List A
  all_given [] m = []
  all_given (e ∷ es) m = given e m ++ all_given es (step e m)

  push-stored :
      (item : A) (m : Monitor A) → m.inner.queue ++ stored item m.inner ≡ (push item m).inner.queue
  unfolding push may_push push_locked
  push-stored item m = elim (Bool-cases m.inner.closed) [
    | inl over ↦ rw over (append-nil m.inner.queue)
    | inr running ↦ elim (Bool-cases (ltb (length m.inner.queue) m.inner.capacity)) [
      | inl room ↦ rw (running, room) refl
      | inr full ↦ rw (running, full) (append-nil m.inner.queue)
    ]
  ]

  pop-handed :
      (m : Monitor A) (items : List A)
      → m.inner.queue ≡ items
      → items ≡ handed m.inner ++ (pop m).inner.queue
  unfolding pop may_pop pop_locked
  pop-handed m [] e = elim (Bool-cases m.inner.closed) [
    | inl over ↦ rw (over, e) refl
    | inr running ↦ rw (running, e) refl
  ]
  pop-handed m (item ∷ items) e = elim (Bool-cases m.inner.closed) [
    | inl over ↦ rw (over, e) refl
    | inr running ↦ rw (running, e) refl
  ]

  wake_pop-queue : (n : ℕ) (m : Monitor A) → (wake_pop n m).inner.queue ≡ m.inner.queue
  wake_pop-queue zero m = refl
  wake_pop-queue (suc n) m = refl

  wake_push-queue : (n : ℕ) (m : Monitor A) → (wake_push n m).inner.queue ≡ m.inner.queue
  wake_push-queue zero m = refl
  wake_push-queue (suc n) m = refl

  notify_pop-queue : (n : ℕ) (m : Monitor A) → (notify_pop_in n m).inner.queue ≡ m.inner.queue
  notify_pop-queue zero m = refl
  notify_pop-queue (suc n) m = wake_pop-queue m.pop_sleeping (record m { owed_not_empty = n })

  notify_push-queue : (n : ℕ) (m : Monitor A) → (notify_push_in n m).inner.queue ≡ m.inner.queue
  notify_push-queue zero m = refl
  notify_push-queue (suc n) m = wake_push-queue m.push_sleeping (record m { owed_not_full = n })

  notify_all_pop-queue :
      (n : ℕ) (m : Monitor A) → (notify_all_pop_in n m).inner.queue ≡ m.inner.queue
  notify_all_pop-queue zero m = refl
  notify_all_pop-queue (suc n) m = refl

  notify_all_push-queue :
      (n : ℕ) (m : Monitor A) → (notify_all_push_in n m).inner.queue ≡ m.inner.queue
  notify_all_push-queue zero m = refl
  notify_all_push-queue (suc n) m = refl

  resume_push-stored :
      (n : ℕ) (item : A) (m : Monitor A)
      → m.inner.queue ++ stored_in n item m.inner ≡ (resume_push_in n item m).inner.queue
  resume_push-stored zero item m = append-nil m.inner.queue
  resume_push-stored (suc n) item m = push-stored item (record m { push_awake = n })

  resume_pop-handed :
      (n : ℕ) (m : Monitor A)
      → m.inner.queue ≡ handed_in n m.inner ++ (resume_pop_in n m).inner.queue
  resume_pop-handed zero m = refl
  resume_pop-handed (suc n) m = pop-handed (record m { pop_awake = n }) m.inner.queue refl

  unmoved : (before after : List A) → after ≡ before → before ++ [] ≡ after
  unmoved before after e = append-nil before ∙ sym e

  -- The queue behind a step: what stood in it and what is stored, less what is handed out.
  step-queue :
      (e : Event A) (m : Monitor A)
      → m.inner.queue ++ taken e m ≡ given e m ++ (step e m).inner.queue
  unfolding step close close_locked
  step-queue (call_push item) m = push-stored item m
  step-queue (resume_push item) m = resume_push-stored m.push_awake item m
  step-queue call_pop m = append-nil m.inner.queue ∙ pop-handed m m.inner.queue refl
  step-queue resume_pop m = append-nil m.inner.queue ∙ resume_pop-handed m.pop_awake m
  step-queue call_close m = append-nil m.inner.queue
  step-queue notify_not_empty m = unmoved m.inner.queue _ (notify_pop-queue m.owed_not_empty m)
  step-queue notify_not_full m = unmoved m.inner.queue _ (notify_push-queue m.owed_not_full m)
  step-queue notify_all_not_empty m =
      unmoved m.inner.queue _ (notify_all_pop-queue m.owed_all_not_empty m)
  step-queue notify_all_not_full m =
      unmoved m.inner.queue _ (notify_all_push-queue m.owed_all_not_full m)
  step-queue spurious_push m = unmoved m.inner.queue _ (wake_push-queue m.push_sleeping m)
  step-queue spurious_pop m = unmoved m.inner.queue _ (wake_pop-queue m.pop_sleeping m)

  -- First in, first out: over any steps of any threads, what stood in the queue followed by what the
  -- accepted pushes stored is what the pops were given followed by what stands in the queue.
  pub run-queue :
      (es : List (Event A)) (m : Monitor A)
      → m.inner.queue ++ all_taken es m ≡ all_given es m ++ (run es m).inner.queue
  unfolding all_taken all_given run
  run-queue [] m = append-nil m.inner.queue
  run-queue (e ∷ es) m =
      sym (append_assoc m.inner.queue (taken e m) (all_taken es (step e m)))
      ∙ ap (λ q. q ++ all_taken es (step e m)) (step-queue e m)
      ∙ append_assoc (given e m) (step e m).inner.queue (all_taken es (step e m))
      ∙ ap (λ q. given e m ++ q) (run-queue es (step e m))
      ∙ sym (append_assoc (given e m) (all_given es (step e m)) (run es (step e m)).inner.queue)
