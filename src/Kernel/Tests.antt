-- ===== src/Kernel/Tests.antt =====
-- Concrete runs of the kernel: the machine after the boot.
use mariobr_os.Base.{ℕ, ◌≡◌, refl, inl, false, some, [], ◌∷◌, arith, if◌then◌else◌, ◌==◌}
use mariobr_os.Process.{Globals, UserSpace, new_process}
use mariobr_os.Scheduler.{Sched, select_new_process, select_below, scan, after_scan}
use mariobr_os.Syscall.Invariant.{Consistent}
use mariobr_os.Kernel.{
  Machine, context_at, timer_handler, switch_before, switch_after, leave_kernel, run_program,
  scheduler_install,
}
use mariobr_os.Kernel.Choice.{Runs}
use mariobr_os.Kernel.Switching.{Slice, slices, timer_handler-resumes, leave_kernel-Runs}
use mariobr_os.Kernel.Creation.{scheduler_install-Consistent, run_program-Consistent}

abbrev globals : Globals
globals = record {
  user_data_segment = 35;
  user_code_segment = 27;
  user_stack_segment = 35;
  start_of_user_stack = 65536;
}

abbrev space : ℕ → UserSpace
space dir = record { dir = dir; heap_first_free = 16; heap_end = 32 }

abbrev booted : Sched
booted = scheduler_install globals (space 1) (space 2) 4096 8192

abbrev machine : Machine
machine = record {
  sched = booted;
  in_kernel = false;
  should_cycle = false;
  frame = (context_at booted 1).regs;
  first_free_block = 48;
  unallocated_mem = 64;
  current_directory = (context_at booted 1).page_dir;
  kernel_first_free_block = 0;
  kernel_unallocated_mem = 0;
  kernel_directory = 0;
}

scheduler_install-Consistent_example :
    Consistent (scheduler_install globals (space 1) (space 2) 4096 8192)
scheduler_install-Consistent_example =
    scheduler_install-Consistent globals (space 1) (space 2) 4096 8192

run_program-Consistent_example : Consistent (run_program globals (space 3) (some 128) booted)
run_program-Consistent_example =
    run_program-Consistent globals (space 3) (some 128) booted
      (scheduler_install-Consistent globals (space 1) (space 2) 4096 8192)

leave_kernel-Runs_example :
    Runs (leave_kernel machine).sched × ((leave_kernel machine).in_kernel ≡ false)
unfolding scheduler_install new_process
leave_kernel-Runs_example = leave_kernel-Runs machine 15 1 (omega arith) (inl refl) refl

-- Process 1 runs, and process 2 takes turns with it.
abbrev alternating : Machine
alternating =
    let s : Sched = record booted {
      processes = λ pid. new_process globals 1 15 (some (space pid));
      runqueues = λ prio. if prio == 15 then 2 ∷ 1 ∷ [] else [];
    } in
    record machine { sched = s; frame = (context_at s 1).regs; current_directory = 1 }

abbrev slice : Slice
slice = record { frame = (context_at booted 0).regs; first_free_block = 80; unallocated_mem = 96 }

timer_handler-resumes_example :
    let t = slices (slice ∷ []) (timer_handler alternating) in
    (t.frame ≡ alternating.frame)
    × (t.first_free_block ≡ 48)
    × (t.unallocated_mem ≡ 64)
    × (t.current_directory ≡ 1)
unfolding timer_handler scheduler_install new_process switch_before switch_after select_new_process
    select_below scan after_scan
timer_handler-resumes_example =
    timer_handler-resumes alternating (slice ∷ []) refl refl (omega arith, tt) refl
