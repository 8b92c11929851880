-- ===== src/Scheduler/Tests.antt =====
-- Concrete selections: processes 2 and 3 at priority 4, process 1 below them.
use mariobr_os.Base.{
  ℕ, suc, ◌≤◌, ◌≡◌, refl, false, [], ◌∷◌, none, arith, ◌==◌, if◌then◌else◌, length,
}
use mariobr_os.Process.{Globals, Process, ProcessState, waiting, runnable, new_process}
use mariobr_os.Scheduler.{Sched, select_new_process, max_priority}
use mariobr_os.Scheduler.Select.{BlockedBetween, selected, select_new_process-picks}
use mariobr_os.Scheduler.Fair.{selections, selections-turn}

abbrev globals : Globals
globals = record {
  user_data_segment = 35;
  user_code_segment = 27;
  user_stack_segment = 35;
  start_of_user_stack = 65536;
}

-- Process 1 runs; 2 and 3 are in the given states.
abbrev two_states : ProcessState → ProcessState → Sched
two_states t u = record {
  curr_pid = 1;
  processes = λ pid.
      let p : Process = new_process globals 1 4 none in
      if pid == 2 then record p { state = t } else if pid == 3 then record p { state = u } else p;
  runqueues = λ prio. if prio == 4 then 2 ∷ 3 ∷ [] else [];
  run_pid = [];
  prompts = 0;
  freed = [];
}

above : (t u : ProcessState) → BlockedBetween (two_states t u) 5 (suc max_priority)
above t u i h k = rw (other i h) tt
  where
    other : (i : ℕ) → 5 ≤ i → (i == 4) ≡ false
    other i h = ground arith

select_new_process-picks_example :
    select_new_process (two_states waiting runnable)
    ≡ selected (two_states waiting runnable) 4 (2 ∷ []) 3 []
select_new_process-picks_example =
    select_new_process-picks (two_states waiting runnable) 4 (2 ∷ []) 3 [] (omega arith)
      (above waiting runnable) refl (refl, tt) refl

selections-turn_example :
    (selections (suc (length {A = ℕ} (2 ∷ []))) (two_states runnable runnable)).curr_pid ≡ 3
selections-turn_example =
    selections-turn (2 ∷ []) (two_states runnable runnable) 4 3 [] (omega arith)
      (above runnable runnable) refl (refl, (refl, tt))
