-- ===== src/Async.antt =====
-- src/async/task_queue.{h,cpp} and task_executor.cpp: the bounded queue between the fast and the
-- slow stage, and its workers. Each critical section is one step; the schedule is the list of the
-- steps. A wait that its predicate does not end is an outcome: `push` gives up after 100 ms, `pop`
-- and a worker stay blocked. A task is its `memory_id`; whether its work throws is given.
pub mod Invariant
mod Tests
use amind.Prelude.{
  ℕ, suc, ◌+◌, ◌-◌, ◌%◌, ◌^◌, Bool, true, false, ◌||◌, Option, none, some, List, [], ◌∷◌, ◌++◌,
  length, ltb, if◌then◌else◌,
}

pub record TaskQueue : Type 0 where
  pub capacity : ℕ
  pub queue : List ℕ
  pub stopped : Bool
  pub total_processed : ℕ

unfoldable pub new_queue : ℕ → TaskQueue
new_queue capacity = record {
  capacity = capacity;
  queue = [];
  stopped = false;
  total_processed = 0;
}

pub data PushResult : Type 0 where
  pushed queue_stopped queue_full : PushResult

-- The first critical section of `push`: `none` means that the caller goes on to wait.
unfoldable pub push_begin : TaskQueue → Option PushResult
push_begin q = if q.stopped then some queue_stopped else none

-- The second one, at the wake-up or at the end of the 100 ms: the queue may be another by then.
unfoldable pub push_wake : TaskQueue → ℕ → TaskQueue × PushResult
push_wake q task =
    if ltb (length q.queue) q.capacity || q.stopped
    then (if q.stopped
        then (q, queue_stopped)
        else (record q { queue = q.queue ++ task ∷ [] }, pushed))
    else (q, queue_full)

pub data PopResult : Type 0 where
  popped : ℕ → PopResult
  drained blocked : PopResult

unfoldable pub pop : TaskQueue → TaskQueue × PopResult
pop q = elim q.queue [
  | task ∷ rest ↦
      (record q { queue = rest; total_processed = (q.total_processed + 1) % 2 ^ 64 }, popped task)
  | [] ↦ (q, if q.stopped then drained else blocked)
]

unfoldable pub stop : TaskQueue → TaskQueue
stop q = record q { stopped = true }

-- What the threads do to the queue, in the order of their critical sections.
pub data Event : Type 0 where
  push_begins : Event
  push_wakes : (task : ℕ) → Event
  pops stops : Event

abbrev pub step : TaskQueue → Event → TaskQueue
step q push_begins = q
step q (push_wakes task) = (push_wake q task).0
step q pops = (pop q).0
step q stops = stop q

unfoldable pub run : List Event → TaskQueue → TaskQueue
run [] q = q
run (e ∷ es) q = run es (step q e)

-- The executor: its counters, and the tasks that its workers hold.
pub record TaskExecutor : Type 0 where
  pub tasks : TaskQueue
  pub running : Bool
  pub in_flight : ℕ
  pub tasks_completed : ℕ
  pub tasks_failed : ℕ

-- A worker at the head of its loop: it leaves, holds a task, or waits in `pop`.
pub data WorkerStep : Type 0 where
  leaves works waits : WorkerStep

abbrev worker_pop : TaskExecutor → TaskQueue × PopResult → TaskExecutor × WorkerStep
worker_pop x (q, popped task) = (record x { tasks = q; in_flight = x.in_flight + 1 }, works)
worker_pop x (q, drained) = (record x { tasks = q }, leaves)
worker_pop x (q, blocked) = (record x { tasks = q }, waits)

unfoldable pub worker_take : TaskExecutor → TaskExecutor × WorkerStep
worker_take x = if x.running then worker_pop x (pop x.tasks) else (x, leaves)

-- The end of a task's work, by return or by an exception.
unfoldable pub worker_finish : (throws : Bool) → TaskExecutor → TaskExecutor
worker_finish false x = record x {
  in_flight = x.in_flight - 1;
  tasks_completed = (x.tasks_completed + 1) % 2 ^ 64;
}
worker_finish true x = record x {
  in_flight = x.in_flight - 1;
  tasks_failed = (x.tasks_failed + 1) % 2 ^ 64;
}

-- `start` makes the workers run; `shutdown` stops them and the queue (the joins have no state).
unfoldable pub start : TaskExecutor → TaskExecutor
start x = record x { running = true }

unfoldable pub shutdown : TaskExecutor → TaskExecutor
shutdown x = if x.running then record x { running = false; tasks = stop x.tasks } else x
