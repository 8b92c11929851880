-- ===== src/Syscall.antt =====
-- The process calls of src/syscall.c: fork, exit, wait, and `kill_family` for Ctrl-C.
-- The current process' registers are the ones that src/scheduler.c saved on entry.
pub mod Effect
pub mod Invariant
pub mod Exit
pub mod Wait
pub mod Fork
pub mod Orphans
pub mod Ending
pub mod Reaping
pub mod Rendezvous
pub mod Spawning
mod Tests
use mariobr_os.Base.{
  put, ℕ, zero, suc, ◌+◌, ◌^◌, ◌%◌, Bool, true, false, not, ◌&&◌, ◌||◌, Option, none, some, List,
  [], ◌∷◌, ltb, ◌==◌, if◌then◌else◌, u32_mod,
}
use mariobr_os.Fifo.{empty_queue, enqueue}
use mariobr_os.LinkedList.{remove_elt, is_empty_list}
use mariobr_os.Process.{
  Regs, ProcessState, free, waiting, runnable, zombie, is_free, is_waiting, is_zombie, Globals,
  Process, new_process,
}
use mariobr_os.Scheduler.{Sched, num_processes}

-- `a > b` on the bit patterns of two `int`s.
abbrev pub gt_int : ℕ → ℕ → Bool
gt_int a b = ltb ((b + 2 ^ 31) % u32_mod) ((a + 2 ^ 31) % u32_mod)

-- `state->processes[pid] = p`
abbrev pub set_process : Sched → ℕ → Process → Sched
set_process s pid p = record s { processes = put s.processes pid p }

abbrev pub set_state : Sched → ℕ → ProcessState → Sched
set_state s pid t = set_process s pid (record (s.processes pid) { state = t })

abbrev pub set_parent : Sched → ℕ → ℕ → Sched
set_parent s pid parent = set_process s pid (record (s.processes pid) { parent_id = parent })

-- `*state->processes[pid].context.regs = r`
abbrev pub set_regs : Sched → ℕ → Regs → Sched
set_regs s pid r =
    let p = s.processes pid in
    set_process s pid (record p { context = record p.context { regs = r } })

abbrev pub regs_of : Sched → ℕ → Regs
regs_of s pid = (s.processes pid).regs

-- The search for a free slot, from `id` on, with the rounds that are left.
unfoldable pub find_free : ℕ → (ℕ → Process) → ℕ → ℕ
find_free zero ps id = id
find_free (suc n) ps id = elim (is_free (ps id).state) [
  | true ↦ id
  | false ↦ find_free n ps (id + 1)
]

-- The child: its own copy of the context, with 2 and the parent's number in `eax` and `ebx`.
-- `fork_dir` is the page directory that `fork_page_dir` returns.
unfoldable pub fork_child : Globals → ℕ → ℕ → Process → Process
unfolding new_process
fork_child g fork_dir parent_id parent = record (new_process g parent_id parent.regs.ebx none) {
  context = record parent.context {
    regs = record parent.regs { eax = 2; ebx = parent_id };
    page_dir = fork_dir;
  };
}

-- The child takes slot `id` and the end of the run queue of its priority.
unfoldable pub spawn : ℕ → ℕ → Process → Sched → Sched
spawn id child_prio child s = record s {
  processes = put s.processes id child;
  runqueues = put s.runqueues child_prio (enqueue (s.runqueues child_prio) id);
}

unfoldable pub syscall_fork : Globals → ℕ → Sched → Sched
syscall_fork g fork_dir s =
    let parent = s.processes s.curr_pid in
    let child_prio = parent.regs.ebx in
    let id = find_free num_processes s.processes 0 in
    let child = fork_child g fork_dir s.curr_pid parent in
    let s' = spawn id child_prio child s in
    if id == num_processes || gt_int child_prio parent.prio
    then set_regs s s.curr_pid (record parent.regs { eax = 0 })
    else set_regs s' s.curr_pid (record (regs_of s' s.curr_pid) { eax = 1; ebx = id })

-- The loop that moves a run queue to `temp`, all but `child`.
unfoldable pub drain_except : List ℕ → ℕ → List ℕ → List ℕ
drain_except [] child temp = temp
drain_except (pid ∷ q) child temp =
    drain_except q child (if pid == child then temp else enqueue temp pid)

-- `remove_elt(run_pid, child)`, and the shell's prompt once no program of its is running.
unfoldable pub finish_command : ℕ → Sched → Sched
unfolding remove_elt is_empty_list
finish_command child s =
    let left = remove_elt s.run_pid child in
    record s { run_pid = left; prompts = if is_empty_list left then s.prompts + 1 else s.prompts }

-- The child's slot is freed, it leaves its run queue, and its memory is given back.
unfoldable pub bury : ℕ → Sched → Sched
unfolding drain_except
bury child s =
    let c = s.processes child in
    record s {
      processes = put s.processes child (record c { state = free });
      runqueues = put s.runqueues c.prio (drain_except (s.runqueues c.prio) child empty_queue);
      freed = c.context.page_dir ∷ s.freed;
    }

-- The parent can run again, and finds the child and its value in its registers. The value is read
-- from the child's `regs`, whose storage `bury` has given back: it is the value from before where
-- nothing has used that storage since.
unfoldable pub notify : ℕ → ℕ → Sched → Sched
notify parent child s =
    let s1 = set_state s parent runnable in
    let s2 = set_regs s1 parent (record (regs_of s1 parent) { eax = 1; ebx = child }) in
    set_regs s2 parent (record (regs_of s2 parent) { ecx = (regs_of s2 child).ebx })

unfoldable pub resolve_exit_wait : ℕ → ℕ → Sched → Sched
resolve_exit_wait parent child s = finish_command child (notify parent child (bury child s))

-- One round of the loop of `syscall_exit` over the process table.
unfoldable pub orphan : ℕ → ℕ → Sched → Sched
orphan id i s =
    if (s.processes i).parent_id == id
    then (let s' = set_parent s i 1 in
        if is_zombie (s'.processes i).state && is_waiting (s'.processes 1).state
        then resolve_exit_wait 1 i s'
        else s')
    else s

-- The loop with the rounds that are left, from slot `i` on.
unfoldable pub orphan_from : ℕ → ℕ → ℕ → Sched → Sched
orphan_from zero id i s = s
orphan_from (suc n) id i s = orphan_from n id (i + 1) (orphan id i s)

unfoldable pub syscall_exit : Sched → Sched
syscall_exit s =
    let id = s.curr_pid in
    let s' = orphan_from num_processes id 0 (set_state s id zombie) in
    let parent_id = (s'.processes id).parent_id in
    if is_waiting (s'.processes parent_id).state then resolve_exit_wait parent_id id s' else s'

-- The loop of `syscall_wait`: `(has_children, zombie child)` when it stops.
unfoldable pub find_zombie : ℕ → (ℕ → Process) → ℕ → ℕ → Bool → Bool × Option ℕ
find_zombie zero ps parent id seen = (seen, none)
find_zombie (suc n) ps parent id seen = elim ((ps id).parent_id == parent) [
  | true ↦ elim (is_zombie (ps id).state) [
    | true ↦ (true, some id)
    | false ↦ find_zombie n ps parent (id + 1) true
  ]
  | false ↦ find_zombie n ps parent (id + 1) seen
]

unfoldable pub finish_wait : ℕ → Bool × Option ℕ → Sched → Sched
finish_wait parent (seen, some id) s = resolve_exit_wait parent id s
finish_wait parent (true, none) s = s
finish_wait parent (false, none) s =
    set_state (set_regs s parent (record (regs_of s parent) { eax = 0 })) parent runnable

unfoldable pub syscall_wait : Sched → Sched
syscall_wait s =
    let parent = s.curr_pid in
    let s' = set_state s parent waiting in
    finish_wait parent (find_zombie num_processes s'.processes parent 0 false) s'

-- `kill_family`, on fuel for the depth of the family; `none` where the fuel runs out. `kill` is
-- the recursive call, for the loop over the process table.
unfoldable pub kill_children : (ℕ → Sched → Option Sched) → ℕ → ℕ → ℕ → Sched → Option Sched
kill_children kill zero parent child s = some s
kill_children kill (suc n) parent child s = elim ((s.processes child).parent_id == parent) [
  | true ↦ elim (kill child s) [
    | none ↦ none
    | some s' ↦ kill_children kill n parent (child + 1) s'
  ]
  | false ↦ kill_children kill n parent (child + 1) s
]

unfoldable pub kill_family : ℕ → ℕ → Sched → Option Sched
kill_family zero parent s = none
kill_family (suc fuel) parent s = elim (kill_children (kill_family fuel) num_processes parent 0 s) [
  | none ↦ none
  | some s' ↦ some (resolve_exit_wait (s'.processes parent).parent_id parent s')
]
