-- ===== src/Kernel.antt =====
-- src/scheduler.c: the switches between a process and the kernel around an interrupt, the handlers
-- of the timer and of the system calls, and the creation of processes at boot and by the shell.
-- The dispatch of the calls is that of src/syscall.c.
pub mod Choice
pub mod Switching
pub mod Creation
mod Tests
use mariobr_os.Base.{
  ℕ, zero, suc, ◌+◌, Bool, true, false, not, ◌||◌, ◌&&◌, Option, none, some, List, [], ◌∷◌, put,
  ◌==◌, if◌then◌else◌, leb,
}
use mariobr_os.Fifo.{enqueue, empty_queue}
use mariobr_os.LinkedList.{push, empty_list}
use mariobr_os.Process.{
  Regs, ProcessState, free, is_runnable, Process, Context, Globals, UserSpace, new_process,
}
use mariobr_os.Scheduler.{Sched, select_new_process, num_processes, max_priority}
use mariobr_os.Syscall.{set_process, set_state, find_free, syscall_fork, syscall_exit, syscall_wait}

-- The machine as the handlers see it: the scheduler's state and flags, the registers that the
-- interrupt saved, the malloc state, the page directory in use, and the kernel's own malloc state
-- and directory.
pub record Machine : Type 0 where
  pub sched : Sched
  pub in_kernel : Bool
  pub should_cycle : Bool
  pub frame : Regs
  pub first_free_block : ℕ
  pub unallocated_mem : ℕ
  pub current_directory : ℕ
  pub kernel_first_free_block : ℕ
  pub kernel_unallocated_mem : ℕ
  pub kernel_directory : ℕ

abbrev pub context_at : Sched → ℕ → Context
context_at s pid = (s.processes pid).context

unfoldable pub switch_before : Machine → Machine
switch_before m =
    let pid = m.sched.curr_pid in
    let saved : Context = record (context_at m.sched pid) {
      regs = m.frame;
      first_free_block = m.first_free_block;
      unallocated_mem = m.unallocated_mem;
    } in
    record m {
      in_kernel = true;
      current_directory = m.kernel_directory;
      sched = set_process m.sched pid (record (m.sched.processes pid) { context = saved });
      unallocated_mem = m.kernel_unallocated_mem;
      first_free_block = m.kernel_first_free_block;
    }

unfoldable pub switch_after : Machine → Machine
switch_after m =
    let ctx = context_at m.sched m.sched.curr_pid in
    record m {
      kernel_unallocated_mem = m.unallocated_mem;
      kernel_first_free_block = m.first_free_block;
      first_free_block = ctx.first_free_block;
      unallocated_mem = ctx.unallocated_mem;
      frame = ctx.regs;
      current_directory = ctx.page_dir;
      in_kernel = false;
    }

-- `select_new_process` on the machine.
abbrev pub reschedule : Machine → Machine
reschedule m = record m { sched = select_new_process m.sched }

unfoldable pub timer_handler : Machine → Machine
timer_handler m =
    if m.in_kernel
    then record m { should_cycle = true }
    else switch_after (reschedule (switch_before m))

-- The numbers of `syscall_t` that `syscall_install` sets, but those of the process calls.
abbrev installed : ℕ → Bool
installed sc = sc == 3 || sc == 4 || sc == 5 || sc == 11 || (leb 15 sc && leb sc 20)

-- The end of `syscall_handler`.
unfoldable pub leave_kernel : Machine → Machine
leave_kernel m =
    if m.should_cycle || not (is_runnable (m.sched.processes m.sched.curr_pid).state)
    then switch_after (record (reschedule m) { should_cycle = false })
    else switch_after m

module _ (g : Globals) (fork_dir : ℕ) (other : ℕ → Machine → Machine) where
  -- `syscall`, with the calls that are not about processes as a parameter. `none` where the call
  -- throws, or jumps through an entry of the table that was never set.
  unfoldable pub syscall : ℕ → Machine → Option Machine
  syscall sc m =
      if sc == 0
      then some (record m { sched = syscall_exit m.sched })
      else if sc == 1
      then some (record m { sched = syscall_fork g fork_dir m.sched })
      else if sc == 2
      then some (record m { sched = syscall_wait m.sched })
      else if installed sc
      then some (other sc m)
      else none

  unfoldable pub syscall_handler : Machine → Option Machine
  syscall_handler m = if m.in_kernel then none else elim (syscall m.frame.eax (switch_before m)) [
    | none ↦ none
    | some m' ↦ some (leave_kernel m')
  ]

-- What `load_code` does to a process: it sets `eip` where it finds the program.
abbrev pub loaded : Process → ℕ → Process
loaded p eip = record p {
  context = record p.context { regs = record p.context.regs { eip = eip } };
}

-- The end of `run_program`, for the new process `proc` in slot `pid`; the last argument but one is
-- the first instruction of the program, if there is such a program. A process that could not be
-- loaded is freed again.
unfoldable pub place_program : ℕ → Process → Option ℕ → Sched → Sched
place_program pid proc none s =
    let s' = set_process s pid (record proc { state = free }) in
    record s' { freed = proc.context.page_dir ∷ s.freed }
place_program pid proc (some eip) s =
    let s' = set_process s pid (loaded proc eip) in
    record s' {
      run_pid = push s.run_pid pid;
      runqueues = put s.runqueues 1 (enqueue (s.runqueues 1) pid);
    }

-- `run_program`: nothing but a message where the table is full.
unfoldable pub run_program : Globals → UserSpace → Option ℕ → Sched → Sched
run_program g space entry s =
    let pid = find_free num_processes s.processes 0 in
    if pid == num_processes then s else place_program pid (new_process g 1 1 (some space)) entry s

-- A slot of the table that `mem_set` has cleared.
abbrev cleared : Process
cleared = record {
  state = free;
  parent_id = 0;
  prio = 0;
  context = record {
    regs = record {
      gs = 0;
      fs = 0;
      es = 0;
      ds = 0;
      edi = 0;
      esi = 0;
      ebp = 0;
      esp = 0;
      ebx = 0;
      edx = 0;
      ecx = 0;
      eax = 0;
      int_no = 0;
      err_code = 0;
      eip = 0;
      cs = 0;
      eflags = 0;
      useresp = 0;
      ss = 0;
    };
    first_free_block = 0;
    unallocated_mem = 0;
    page_dir = 0;
  };
}

-- The state that `scheduler_install` sets up before it switches to process 1: the idle process and
-- the init process, which are their own parents. The entries are those of the programs "idle" and
-- "init".
unfoldable pub scheduler_install : Globals → UserSpace → UserSpace → ℕ → ℕ → Sched
scheduler_install g idle_space init_space idle_eip init_eip =
    let idle = loaded (new_process g 0 0 (some idle_space)) idle_eip in
    let init = loaded (new_process g 1 max_priority (some init_space)) init_eip in
    record {
      curr_pid = 1;
      processes = put (put (λ _. cleared) 0 idle) 1 init;
      runqueues =
          put (put (λ _. empty_queue) 0 (enqueue empty_queue 0)) max_priority
            (enqueue empty_queue 1);
      run_pid = empty_list;
      prompts = 0;
      freed = [];
    }
