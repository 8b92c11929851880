-- ===== src/Scheduler.antt =====
-- src/scheduler.h and `select_new_process` of src/scheduler.c. The arrays of processes and of run
-- queues are functions of their index; a run queue is a `Fifo`.
pub mod Select
pub mod Fair
mod Tests
use mariobr_os.Base.{
  put, ℕ, zero, suc, Bool, true, false, Option, none, some, List, [], ◌∷◌, ◌++◌, ◌==◌,
  if◌then◌else◌,
}
use mariobr_os.Fifo.{enqueue}
use mariobr_os.Process.{Process, is_runnable}

abbrev pub num_processes : ℕ
num_processes = 128

abbrev pub max_priority : ℕ
max_priority = 15

-- `scheduler_state_t`, with the global `run_pid`. `prompts` counts the calls of the shell's
-- `finalize_command`, and `freed` holds the page directories that were given to `free_page_dir`,
-- last one first: each is freed together with the `regs` of its process.
pub record Sched : Type 0 where
  pub curr_pid : ℕ
  pub processes : ℕ → Process
  pub runqueues : ℕ → List ℕ
  pub run_pid : List ℕ
  pub prompts : ℕ
  pub freed : List ℕ

-- The inner loop: `(q, temp, found)` when it stops.
unfoldable pub scan : (ℕ → Process) → List ℕ → List ℕ → List ℕ × List ℕ × Option ℕ
scan ps [] temp = ([], temp, none)
scan ps (pid ∷ q) temp =
    if is_runnable (ps pid).state
    then (q, enqueue temp pid, some pid)
    else scan ps q (enqueue temp pid)

-- What is left of the loop body of one priority: moving `temp` behind what is left of the queue
-- restores it, and `rest` is the loop over the lower priorities.
unfoldable pub after_scan : Sched → ℕ → (Sched → Sched) → List ℕ × List ℕ × Option ℕ → Sched
after_scan s prio rest (q, temp, some pid) = record s {
  runqueues = put s.runqueues prio (q ++ temp);
  curr_pid = pid;
}
after_scan s prio rest (q, temp, none) =
    rest (record s { runqueues = put s.runqueues prio (q ++ temp) })

-- The loop over the priorities below the given bound, highest first.
unfoldable pub select_below : ℕ → Sched → Sched
unfolding scan after_scan
select_below zero s = s
select_below (suc prio) s =
    after_scan s prio (select_below prio) (scan s.processes (s.runqueues prio) [])

unfoldable pub select_new_process : Sched → Sched
unfolding select_below
select_new_process s = select_below (suc max_priority) s
