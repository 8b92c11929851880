-- ===== src/Syscall/Tests.antt =====
-- Concrete runs of the process calls: process 2 is a child of 1, process 3 a child of 2.
use mariobr_os.Base.{put, ℕ, ◌<◌, ◌≡◌, refl, false, none, [], ◌∷◌, arith, ◌==◌, if◌then◌else◌}
use mariobr_os.Process.{
  Globals, Process, ProcessState, free, waiting, runnable, zombie, is_free, new_process,
}
use mariobr_os.Scheduler.{Sched, num_processes}
use mariobr_os.Syscall.{syscall_fork, syscall_exit, syscall_wait}
use mariobr_os.Syscall.Effect.{state_of, parent_of}
use mariobr_os.Syscall.Invariant.{Consistent}
use mariobr_os.Syscall.Exit.{syscall_exit-Consistent}
use mariobr_os.Syscall.Fork.{syscall_fork-Consistent}
use mariobr_os.Syscall.Wait.{syscall_wait-Consistent}
use mariobr_os.Syscall.Reaping.{zombie_child}
use mariobr_os.Syscall.Rendezvous.{running, Reaped, exit-wait-meet}

abbrev globals : Globals
globals = record {
  user_data_segment = 35;
  user_code_segment = 27;
  user_stack_segment = 35;
  start_of_user_stack = 65536;
}

-- A process with a parent, a priority, a state, and a value in `ebx`.
abbrev member : ℕ → ℕ → ProcessState → ℕ → Process
member parent prio t ebx =
    let p : Process = new_process globals parent prio none in
    record p {
      state = t;
      context = record p.context { regs = record p.context.regs { ebx = ebx } };
    }

abbrev table : ProcessState → ProcessState → ℕ → ℕ → Process
table t u ebx pid =
    if pid == 1
    then member 1 4 runnable 0
    else if pid == 2
    then member 1 4 t 0
    else if pid == 3
    then member 2 4 u ebx
    else member 0 0 free 0

abbrev family : ℕ → ProcessState → ProcessState → ℕ → Sched
family curr t u ebx = record {
  curr_pid = curr;
  processes = table t u ebx;
  runqueues = put (λ _. []) 4 (1 ∷ 2 ∷ 3 ∷ []);
  run_pid = [];
  prompts = 0;
  freed = [];
}

family-Consistent :
    (curr : ℕ) (t u : ProcessState) (ebx : ℕ)
    → is_free t ≡ false
    → is_free u ≡ false
    → Consistent (family curr t u ebx)
unfolding new_process
family-Consistent curr t u ebx ht hu = record {
  queued = λ prio pid. ground arith;
  table = λ pid h. ground arith;
  levels = λ pid h. ground arith;
}

syscall_exit-Consistent_example : Consistent (syscall_exit (family 3 waiting runnable 7))
unfolding new_process
syscall_exit-Consistent_example =
    syscall_exit-Consistent (family 3 waiting runnable 7) refl
      (family-Consistent 3 waiting runnable 7 refl refl)

syscall_wait-Consistent_example : Consistent (syscall_wait (family 2 runnable zombie 7))
unfolding new_process
syscall_wait-Consistent_example =
    syscall_wait-Consistent (family 2 runnable zombie 7) refl
      (family-Consistent 2 runnable zombie 7 refl refl)

syscall_fork-Consistent_example :
    Consistent (syscall_fork globals 4096 (family 3 waiting runnable 2))
unfolding new_process
syscall_fork-Consistent_example =
    syscall_fork-Consistent globals 4096 (family 3 waiting runnable 2) refl (omega arith)
      (family-Consistent 3 waiting runnable 2 refl refl)

before_3 : (j : ℕ) → j < 3 → zombie_child (family 2 runnable zombie 7).processes 2 j ≡ false
unfolding new_process
before_3 j h = ground arith

no_zombie :
    (j : ℕ) → j < num_processes → zombie_child (family 2 runnable runnable 7).processes 2 j ≡ false
unfolding new_process
no_zombie j h = ground arith

only_3 : (j : ℕ) → j < num_processes → parent_of (family 1 runnable runnable 7) j ≡ 2 → j ≡ 3
unfolding new_process
only_3 j h e = ground arith

exit-wait-meet_example :
    let s : Sched = family 1 runnable runnable 7 in
    Reaped s 2 3 (syscall_exit (running 3 (syscall_wait (running 2 s))))
    × Reaped s 2 3 (syscall_wait (running 2 (syscall_exit (running 3 s))))
unfolding new_process
exit-wait-meet_example =
    exit-wait-meet (family 1 runnable runnable 7) 2 3 (omega arith) (omega arith) (omega arith)
      (omega arith) refl only_3 refl refl

-- The table with slot 0 in use too: slot 4 is the first one that is free.
abbrev forking : ℕ → Sched
forking ebx =
    let s : Sched = family 3 runnable runnable ebx in
    record s { processes = put s.processes 0 (member 0 4 waiting 0) }

before_4 : (ebx j : ℕ) → j < 4 → is_free (state_of (forking ebx) j) ≡ false
unfolding new_process
before_4 ebx j h = ground arith
