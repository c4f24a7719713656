-- ===== src/Async/Invariant.antt =====
-- The queue is first in, first out and bounded, under every schedule.
use mathlib.Core.List.{append-nil, append_assoc}
use amind.Prelude.{
  ℕ, ◌+◌, ◌%◌, ◌^◌, ◌≤◌, ◌<◌, ◌≡◌, refl, sym, ap, ◌∙◌, Bool, true, false, List, [], ◌∷◌, ◌++◌,
  arith, length, length-append,
}
use amind.Async.{
  TaskQueue, Event, push_begins, push_wakes, pops, stops, pushed, popped, push_wake, pop, stop,
  step, run, TaskExecutor, WorkerStep, worker_take, worker_finish, start, shutdown,
}

-- The tasks that a schedule takes into the queue, and the tasks that it hands out, in order.
abbrev pub taken_in : TaskQueue → Event → List ℕ
taken_in q (push_wakes task) = elim (push_wake q task).1 [ pushed ↦ task ∷ [] | _ ↦ [] ]
taken_in q _ = []

abbrev pub handed_out : TaskQueue → Event → List ℕ
handed_out q pops = elim (pop q).1 [ popped task ↦ task ∷ [] | _ ↦ [] ]
handed_out q _ = []

unfoldable pub inputs : List Event → TaskQueue → List ℕ
inputs [] q = []
inputs (e ∷ es) q = taken_in q e ++ inputs es (step q e)

unfoldable pub outputs : List Event → TaskQueue → List ℕ
outputs [] q = []
outputs (e ∷ es) q = handed_out q e ++ outputs es (step q e)

step-fifo :
    (q : TaskQueue) (e : Event) → q.queue ++ taken_in q e ≡ handed_out q e ++ (step q e).queue
unfolding push_wake pop stop
step-fifo q push_begins = append-nil q.queue
step-fifo q (push_wakes task) = ground (arith, append-nil q.queue)
step-fifo q pops = ground (arith, append-nil q.queue)
step-fifo q stops = append-nil q.queue

run-fifo :
    (es : List Event) (q : TaskQueue) → q.queue ++ inputs es q ≡ outputs es q ++ (run es q).queue
unfolding inputs outputs run
run-fifo [] q = append-nil q.queue
run-fifo (e ∷ es) q =
    sym (append_assoc q.queue (taken_in q e) (inputs es (step q e)))
    ∙ ap (λ l. l ++ inputs es (step q e)) (step-fifo q e)
    ∙ append_assoc (handed_out q e) (step q e).queue (inputs es (step q e))
    ∙ ap (λ l. handed_out q e ++ l) (run-fifo es (step q e))
    ∙ sym (append_assoc (handed_out q e) (outputs es (step q e)) (run es (step q e)).queue)

step-bounded :
    (q : TaskQueue) (e : Event)
    → length q.queue ≤ q.capacity
    → (length (step q e).queue ≤ (step q e).capacity) × ((step q e).capacity ≡ q.capacity)
unfolding push_wake pop stop
step-bounded q push_begins h = ground arith
step-bounded q (push_wakes task) h = ground (arith, length-append q.queue (task ∷ []))
step-bounded q pops h = ground arith
step-bounded q stops h = ground arith

run-bounded :
    (es : List Event) (q : TaskQueue)
    → length q.queue ≤ q.capacity
    → length (run es q).queue ≤ q.capacity
unfolding run
run-bounded [] q h = h
run-bounded (e ∷ es) q h =
    let (b, c) = step-bounded q e h in omega (arith, c, run-bounded es (step q e) b)

-- Under every schedule the tasks leave in the order in which they were accepted, none is lost or
-- made up, and a queue within its capacity stays within it.
pub run-fifo-bounded :
    (es : List Event) (q : TaskQueue)
    → length q.queue ≤ q.capacity
    → (q.queue ++ inputs es q ≡ outputs es q ++ (run es q).queue)
      × (length (run es q).queue ≤ q.capacity)
run-fifo-bounded es q h = (run-fifo es q, run-bounded es q h)

-- Once the queue is stopped it accepts nothing, and it never starts again.
inputs-stopped :
    (es : List Event) (q : TaskQueue)
    → q.stopped ≡ true
    → (inputs es q ≡ []) × ((run es q).stopped ≡ true)
unfolding inputs run push_wake pop stop
inputs-stopped [] q h = (refl, h)
inputs-stopped (push_begins ∷ es) q h = inputs-stopped es q h
inputs-stopped (push_wakes task ∷ es) q h = ground (arith, inputs-stopped es q)
inputs-stopped (pops ∷ es) q h = ground (arith, inputs-stopped es (pop q).0)
inputs-stopped (stops ∷ es) q h = inputs-stopped es (stop q) refl

-- Every task that the queue has handed out is held by a worker, completed or failed.
abbrev IsCounted : TaskExecutor → Type 0
IsCounted x =
    x.tasks.total_processed % 2 ^ 64 ≡ (x.in_flight + x.tasks_completed + x.tasks_failed) % 2 ^ 64

taken : (x : TaskExecutor) → IsCounted x → IsCounted (worker_take x).0
unfolding worker_take pop
taken x h = ground arith

finished :
    (throws : Bool) (x : TaskExecutor)
    → IsCounted x
    → 0 < x.in_flight
    → IsCounted (worker_finish throws x)
unfolding worker_finish
finished false x h f = omega arith
finished true x h f = omega arith

stopped : (x : TaskExecutor) → IsCounted x → IsCounted (shutdown x)
unfolding shutdown stop
stopped x h = ground arith

left : (x : TaskExecutor) → (worker_take (shutdown x)).1 ≡ WorkerStep.leaves
unfolding worker_take shutdown
left x = ground arith

-- The workers' steps keep the count of handed out tasks equal, on 64 bits, to those in work,
-- completed and failed, where a worker that finishes holds a task, and so do `start` and `shutdown`;
-- after `shutdown` a worker leaves.
executor-IsCounted :
    (x : TaskExecutor) (throws : Bool)
    → IsCounted x
    → 0 < x.in_flight
    → IsCounted (worker_take x).0
      × IsCounted (worker_finish throws x)
      × IsCounted (start x)
      × IsCounted (shutdown x)
      × ((worker_take (shutdown x)).1 ≡ WorkerStep.leaves)
unfolding start
executor-IsCounted x throws h f = (taken x h, finished throws x h f, h, stopped x h, left x)
