-- ===== src/Orchestrator/Execute/Tests.antt =====
-- A run of `executeTasks` with one worker and one task, which succeeds.
use mathlib.Core.List.{Nodup-nil, Nodup-cons, not-mem-nil}
use mathlib.Core.List.Perm
use victoriametrics_data_mig.Prelude.{
  ◌≡◌, refl, inl, true, false, List, [], ◌∷◌, none, codes, arith, length, pos, decimal,
}
use victoriametrics_data_mig.Scheduler.Calendar.{Time}
use victoriametrics_data_mig.Types.{Task, pending}
use victoriametrics_data_mig.Splitter.Selector.{SelectorInfo}
use victoriametrics_data_mig.Scheduler.Queue.{
  absent, Heap, TaskQueue, Env, next_task, next_from, start, is_complete, complete_task, complete,
  persist_state,
}
use victoriametrics_data_mig.Worker.Pool.{
  active_workers, acquire_worker, acquire_from, release_worker, release_from,
}
use victoriametrics_data_mig.Worker.Pool.Busy.{busy_workers}
use victoriametrics_data_mig.Orchestrator.Execute.{
  Exec, Flight, Received, Outcome, ran, dispatching, Step, Run, dispatch, launch, finish, handle,
  succeed, task_id,
}
use victoriametrics_data_mig.Orchestrator.Execute.Invariant.{IsExec}
use victoriametrics_data_mig.Orchestrator.Execute.Termination.{execution-terminates, Run-completes}
use mathlib.Core.WellFounded.{Acc}
use victoriametrics_data_mig.Orchestrator.Execute.Safety.{Run-IsExec}
use victoriametrics_data_mig.Orchestrator.Execute.Progress.{Run-complete}

abbrev pub noon : Time
noon = record { wall = 63_000_000_000_000_000_000; zone = 86_400_000_000_000 }

abbrev pub env : Env
env = record { now = noon; can_write = true; leaves = absent }

abbrev pub first_task : Task
first_task = record {
  id = task_id 1;
  metric_name = codes "up";
  selector = codes "{__name__=\"up\"}";
  time_start = noon;
  time_end = noon;
  est_series_count = 7;
  status = pending;
  attempts = 0;
  max_retries = 3;
  worker_id = [];
  error = [];
  started_at = none;
  completed_at = none;
  bytes_transferred = 0;
  split_attempted = false;
}

abbrev pub heap : Heap
heap r = first_task

abbrev queue : TaskQueue
queue = record {
  heap = heap;
  tasks = 1 ∷ [];
  pending = 1 ∷ [];
  running = [];
  done = [];
  failed = [];
  state_file = codes "state.json";
  disk = absent;
}

abbrev pub initial : Exec
initial = record {
  queue = queue;
  task_counter = 1;
  workers = record { pod_name = codes "w0"; addr = codes "10.0.0.1:9091"; busy = false } ∷ [];
  flying = [];
  results = [];
  counters = record {
    succeeded = 0;
    abandoned = 0;
    resplit = 0;
    task_retries = 0;
    bytes_transferred = 0;
  };
  pc = dispatching;
}

initial-IsExec : IsExec initial
initial-IsExec = record {
  queue = record {
    gone = [];
    sound = record {
      distinct = Nodup-cons.1 (not-mem-nil, Nodup-nil);
      keys = tt;
      waits = ((inl refl, inl refl), tt);
      runs = tt;
      succeeds = tt;
      gives_up = tt;
      replaced = tt;
    };
    listed = Perm.refl (1 ∷ []);
  };
  numbered = ((omega arith, refl), tt);
  flights = Perm.refl [];
  busy = Perm.refl [];
  counted = (refl, refl);
  staffed = omega arith;
  awake = λ waits. cc;
}

execution-terminates_example : Acc (λ t s. Step 3 s t) initial
execution-terminates_example = execution-terminates 3 initial initial-IsExec

abbrev launched : Exec
launched = dispatch env initial

abbrev pub no_split : Task → List SelectorInfo
no_split task = []

turned : Run 3 initial launched
turned = Run.next Run.here (Step.turns env refl)

Run-IsExec_example : IsExec launched
Run-IsExec_example = Run-IsExec 3 initial-IsExec turned

abbrev pub success : Outcome
success = ran (record { exit_code = pos 0; logs = []; error_message = []; bytes_transferred = 99 })

abbrev pub flight : Flight
flight = record { worker = 0; task_id = task_id 1 }

abbrev waiting : Exec
waiting = dispatch env launched

abbrev landed : Exec
landed = finish flight success [] waiting

abbrev pub received : Received
received = record { task_id = task_id 1; outcome = success }

abbrev settled : Exec
settled = handle 3 env no_split received (record landed { results = []; pc = dispatching })

whole : Run 3 initial settled
unfolding dispatch launch acquire_worker acquire_from next_task next_from start finish
    release_worker release_from is_complete
whole =
    Run.next
      (Run.next (Run.next turned (Step.turns env refl)) (Step.ends flight success [] [] refl))
      (Step.takes env no_split received [] [] refl refl refl)

finished : is_complete settled.queue ≡ true
unfolding is_complete handle succeed dispatch launch acquire_worker acquire_from next_task next_from
    start finish complete_task complete persist_state task_id decimal
finished = refl

Run-complete_example :
    (length settled.flying ≡ 0)
    × (length settled.results ≡ 0)
    × (length (busy_workers settled.workers) ≡ 0)
    × (active_workers settled.workers ≡ 0)
Run-complete_example = Run-complete 3 initial-IsExec whole finished

Run-completes_example : (u : Exec) × Run 3 launched u × (is_complete u.queue ≡ true)
Run-completes_example = Run-completes 3 env success initial-IsExec turned
