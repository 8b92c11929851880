-- ===== src/Kernel/Creation.antt =====
-- Creating processes keeps the process table and the run queues in agreement, from the boot on.
use mariobr_os.Base.{
  put, ℕ, ◌<◌, ◌≡◌, refl, ◌∙◌, true, Option, none, some, List, ◌∷◌, arith, ◌==◌, Bool-cases, inl,
  inr, ==→ne,
}
use mariobr_os.Process.{Globals, UserSpace, Process, is_free, new_process}
use mariobr_os.Scheduler.{Sched, num_processes}
use mariobr_os.Syscall.{find_free, spawn}
use mariobr_os.Syscall.Effect.{state_of}
use mariobr_os.Syscall.Invariant.{Consistent}
use mariobr_os.Syscall.Fork.{find_free-lem, spawn-Consistent}
use mariobr_os.Kernel.{loaded, place_program, run_program, scheduler_install}

-- The state at boot: the process table and the run queues agree.
pub scheduler_install-Consistent :
    (g : Globals) (idle_space init_space : UserSpace) (idle_eip init_eip : ℕ)
    → Consistent (scheduler_install g idle_space init_space idle_eip init_eip)
unfolding scheduler_install new_process
scheduler_install-Consistent g idle_space init_space idle_eip init_eip = record {
  queued = λ prio pid. ground arith;
  table = λ pid h. ground arith;
  levels = λ pid h. ground arith;
}

-- A free slot that stays free.
freed-Consistent :
    (s : Sched) (pid : ℕ) (p : Process) (log : List ℕ)
    → is_free (state_of s pid) ≡ true
    → is_free p.state ≡ true
    → Consistent s
    → Consistent (record s { processes = put s.processes pid p; freed = log })
freed-Consistent s pid p log f h c = record {
  queued = λ prio i. ground (arith, c.queued prio i);
  table = λ i b. ground (arith, c.table i);
  levels = λ i b. ground (arith, c.levels i);
}

place_program-Consistent :
    (g : Globals) (space : UserSpace) (pid : ℕ) (entry : Option ℕ) (s : Sched)
    → is_free (state_of s pid) ≡ true
    → pid < num_processes
    → Consistent s
    → Consistent (place_program pid (new_process g 1 1 (some space)) entry s)
unfolding place_program new_process spawn
place_program-Consistent g space pid none s f l c =
    freed-Consistent s pid _ (space.dir ∷ s.freed) f refl c
place_program-Consistent g space pid (some eip) s f l c =
    let k : Consistent (spawn pid 1 (loaded (new_process g 1 1 (some space)) eip) s) =
      spawn-Consistent pid 1 _ s f l refl refl (omega arith) c in
    record { queued = k.queued; table = k.table; levels = k.levels }

-- Running a program from the shell keeps the process table and the run queues in agreement,
-- whether there is such a program and a free slot or not.
pub run_program-Consistent :
    (g : Globals) (space : UserSpace) (entry : Option ℕ) (s : Sched)
    → Consistent s
    → Consistent (run_program g space entry s)
unfolding run_program
run_program-Consistent g space entry s c =
    elim (Bool-cases (find_free num_processes s.processes 0 == num_processes)) [
      | inl e ↦ rw e c
      | inr e ↦ rw e (elim (find_free-lem num_processes s.processes 0) [
        | inl full ↦ absurd (==→ne _ _ e (full ∙ omega arith))
        | inr (f, l) ↦
            place_program-Consistent g space (find_free num_processes s.processes 0) entry s f
              (omega arith) c
      ])
    ]
