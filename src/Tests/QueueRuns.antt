-- ===== src/Tests/QueueRuns.antt =====
-- Runs of the bounded queue with sleeping threads, and its theorems on them.
use http_server.Prelude.{◌<◌, ◌≡◌, refl, arith, ℕ, false, List, [], ◌∷◌, ◌++◌, some, length}
use http_server.BoundedQueue.{BoundedQueue, create, may_push, may_pop, push_locked, pop_locked}
use http_server.BoundedQueue.Monitor.{
  Event, idle, push, pop, step, run, call_push, resume_push, call_pop, resume_pop, notify_not_empty,
  notify_not_full,
}
use http_server.BoundedQueue.Answered.{IsAnswered}
use http_server.BoundedQueue.WakeUps.{run-IsAnswered}
use http_server.BoundedQueue.Quiet.{IsQuiet, run-pop_sleeping, run-push_sleeping, idle-IsAnswered}
use http_server.BoundedQueue.Contract.{Behaves, stored, handed}
use http_server.BoundedQueue.Refinement.{view, all_acts, run-Behaves}
use http_server.BoundedQueue.Order.{all_taken, all_given, run-queue}

abbrev two_places : BoundedQueue ℕ
two_places = record { capacity = 2; queue = []; high_water_mark = 0; closed = false }

-- Two pops sleep; a push wakes one of them.
abbrev starved : List (Event ℕ)
starved = call_pop ∷ call_pop ∷ call_push 5 ∷ notify_not_empty ∷ resume_pop ∷ notify_not_full ∷ []

-- Four pushes, of which two sleep; a pop wakes one of them.
abbrev crowded : List (Event ℕ)
crowded =
    call_push 1
    ∷ call_push 2
    ∷ call_push 3
    ∷ call_push 4
    ∷ notify_not_empty
    ∷ call_pop
    ∷ notify_not_full
    ∷ resume_push 3
    ∷ notify_not_empty
    ∷ notify_not_empty
    ∷ []

two_places-create : create 2 ≡ some two_places
unfolding create
two_places-create = refl

starved-IsQuiet : IsQuiet (run starved (idle two_places))
unfolding run step idle push pop may_push may_pop push_locked pop_locked
starved-IsQuiet = record {
  no_push_awake = refl;
  no_pop_awake = refl;
  no_owed_not_empty = refl;
  no_owed_not_full = refl;
  no_owed_all_not_empty = refl;
  no_owed_all_not_full = refl;
}

crowded-IsQuiet : IsQuiet (run crowded (idle two_places))
unfolding run step idle push pop may_push may_pop push_locked pop_locked
crowded-IsQuiet = record {
  no_push_awake = refl;
  no_pop_awake = refl;
  no_owed_not_empty = refl;
  no_owed_not_full = refl;
  no_owed_all_not_empty = refl;
  no_owed_all_not_full = refl;
}

starved-asleep : 0 < (run starved (idle two_places)).pop_sleeping
unfolding run step idle push pop may_push may_pop push_locked pop_locked
starved-asleep = omega arith

crowded-asleep : 0 < (run crowded (idle two_places)).push_sleeping
unfolding run step idle push pop may_push may_pop push_locked pop_locked
crowded-asleep = omega arith

run-IsAnswered_example : IsAnswered (run crowded (idle two_places))
run-IsAnswered_example =
    run-IsAnswered crowded (idle two_places) (idle-IsAnswered 2 two_places two_places-create)

run-queue_example :
    (idle two_places).inner.queue ++ all_taken crowded (idle two_places)
    ≡ all_given crowded (idle two_places) ++ (run crowded (idle two_places)).inner.queue
run-queue_example = run-queue crowded (idle two_places)

run-pop_sleeping_example :
    ((run starved (idle two_places)).inner.queue ≡ [])
    × ((run starved (idle two_places)).inner.closed ≡ false)
run-pop_sleeping_example =
    run-pop_sleeping 2 two_places starved two_places-create starved-IsQuiet starved-asleep

run-push_sleeping_example :
    (length (run crowded (idle two_places)).inner.queue
      ≡ (run crowded (idle two_places)).inner.capacity)
    × ((run crowded (idle two_places)).inner.closed ≡ false)
run-push_sleeping_example =
    run-push_sleeping 2 two_places crowded two_places-create crowded-IsQuiet crowded-asleep

run-Behaves_example :
    Behaves
      (view (run crowded (idle two_places)))
      (view (idle two_places))
      (all_acts crowded (idle two_places))
run-Behaves_example = run-Behaves crowded (idle two_places)

crowded_acts : all_acts crowded (idle two_places) ≡ stored 1 ∷ stored 2 ∷ handed 1 ∷ stored 3 ∷ []
unfolding all_acts step idle push pop may_push may_pop push_locked pop_locked
crowded_acts = refl
