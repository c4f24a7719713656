-- ===== src/Async/Tests.antt =====
-- The theorems on the queue and the executor at concrete inputs.
use amind.Prelude.{◌≡◌, ◌≤◌, true, false, List, [], ◌∷◌, ◌++◌, arith, length}
use amind.Async.{TaskQueue, Event, run, TaskExecutor}
use amind.Async.Invariant.{inputs, outputs, run-fifo-bounded}

abbrev one : TaskQueue
one = record { capacity = 2; queue = 7 ∷ []; stopped = false; total_processed = 0 }

abbrev closed : TaskQueue
closed = record one { stopped = true }

abbrev busy : List Event
busy = Event.push_wakes 8 ∷ Event.push_wakes 9 ∷ Event.pops ∷ Event.stops ∷ []

run-fifo-bounded_example :
    (7 ∷ inputs busy one ≡ outputs busy one ++ (run busy one).queue)
    × (length (run busy one).queue ≤ 2)
run-fifo-bounded_example = run-fifo-bounded busy one (omega arith)

abbrev pool : TaskExecutor
pool = record {
  tasks = record one { total_processed = 1 };
  running = true;
  in_flight = 1;
  tasks_completed = 0;
  tasks_failed = 0;
}
