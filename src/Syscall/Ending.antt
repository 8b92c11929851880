-- ===== src/Syscall/Ending.antt =====
-- The outcomes of `syscall_exit` for the process that ends, its parent and its children.
use mariobr_os.Base.{
  ℕ, ◌<◌, ◌≡◌, ◌≢◌, ◌∙◌, ap₂, refl, true, false, arith, ◌==◌, if◌then◌else◌, ne→==, sym,
}
use mariobr_os.Process.{Regs, ProcessState, waiting, runnable, free, zombie, is_zombie, is_waiting}
use mariobr_os.Scheduler.{Sched, num_processes}
use mariobr_os.Syscall.{set_state, resolve_exit_wait, orphan_from, syscall_exit}
use mariobr_os.Syscall.Effect.{
  state_of, parent_of, reg_of, resolve-state, resolve-parent, resolve-regs,
}
use mariobr_os.Syscall.Orphans.{orphan_from-parent, Unmoved, orphan_from-Unmoved}
use mariobr_os.Syscall.Exit.{exit_end, orphan_from-waiting}

-- The state in which exit looks for a waiting parent.
abbrev orphaned : Sched → Sched
orphaned s = orphan_from num_processes s.curr_pid 0 (set_state s s.curr_pid zombie)

exit_end-parent : (id : ℕ) (s : Sched) (j : ℕ) → parent_of (exit_end id s) j ≡ parent_of s j
unfolding exit_end
exit_end-parent id s j = ground (arith, resolve-parent (parent_of s id) id s j)

orphaned-parent :
    (s : Sched) (j : ℕ)
    → j < num_processes
    → parent_of (orphaned s) j ≡ (if parent_of s j == s.curr_pid then 1 else parent_of s j)
orphaned-parent s j h =
    orphan_from-parent num_processes s.curr_pid 0 (set_state s s.curr_pid zombie) j (omega arith)
      (omega arith)
    ∙ ground arith

-- Exit hands every child of the process that ends over to process 1, and changes the parent of no
-- other process of the table.
pub syscall_exit-parents :
    (s : Sched) (j : ℕ)
    → j < num_processes
    → parent_of (syscall_exit s) j ≡ (if parent_of s j == s.curr_pid then 1 else parent_of s j)
unfolding syscall_exit exit_end
syscall_exit-parents s j h = exit_end-parent s.curr_pid (orphaned s) j ∙ orphaned-parent s j h

waiting-not-zombie : (t : ProcessState) → is_waiting t ≡ true → is_zombie t ≡ false
waiting-not-zombie waiting w = refl
waiting-not-zombie runnable w = refl
waiting-not-zombie free w = refl
waiting-not-zombie zombie w = cc

-- A slot that exit neither frees nor wakes while it hands the children over.
orphaned-kept :
    (s : Sched) (j : ℕ)
    → 1 ≢ j
    → Unmoved s.curr_pid j (set_state s s.curr_pid zombie)
    → (state_of (orphaned s) j ≡ state_of (set_state s s.curr_pid zombie) j)
      × (reg_of (orphaned s) j ≡ reg_of s j)
orphaned-kept s j ne u =
    let (p, q) =
      orphan_from-Unmoved num_processes s.curr_pid 0 j (set_state s s.curr_pid zombie) ne u in
    (p, q ∙ ground arith)

module _ (s : Sched) (p : ℕ) (hp : parent_of s s.curr_pid ≡ p) (table : s.curr_pid < num_processes)
    (ne : p ≢ s.curr_pid) (own : 1 ≢ s.curr_pid) where
  self-Unmoved : Unmoved s.curr_pid s.curr_pid (set_state s s.curr_pid zombie)
  self-Unmoved = ground arith

  self-parent : parent_of (orphaned s) s.curr_pid ≡ p
  self-parent =
      orphaned-parent s s.curr_pid table
      ∙ rw (ne→== (parent_of s s.curr_pid) s.curr_pid (λ e. ne (sym hp ∙ e))) hp

  self-state : state_of (orphaned s) s.curr_pid ≡ zombie
  self-state = (orphaned-kept s s.curr_pid own self-Unmoved).0 ∙ ground arith

  self-regs : reg_of (orphaned s) s.curr_pid ≡ reg_of s s.curr_pid
  self-regs = (orphaned-kept s s.curr_pid own self-Unmoved).1

  exit-resolves :
      is_waiting (state_of (orphaned s) p) ≡ true
      → syscall_exit s ≡ resolve_exit_wait p s.curr_pid (orphaned s)
  unfolding syscall_exit
  exit-resolves w = rw (self-parent, w)

  exit-stays : is_waiting (state_of (orphaned s) p) ≡ false → syscall_exit s ≡ orphaned s
  unfolding syscall_exit
  exit-stays w = rw (self-parent, w)

  parent-Unmoved :
      is_waiting (state_of s p) ≡ true → Unmoved s.curr_pid p (set_state s s.curr_pid zombie)
  parent-Unmoved w = ground (arith, waiting-not-zombie (state_of s p) w)

  -- If another process than the first one and its parent waits, exit frees its slot, and the
  -- parent can run again with 1, its number and its exit value in `eax`, `ebx` and `ecx`.
  pub syscall_exit-wakes :
      1 ≢ p
      → is_waiting (state_of s p) ≡ true
      → (state_of (syscall_exit s) s.curr_pid ≡ free)
        × (state_of (syscall_exit s) p ≡ runnable)
        × (reg_of (syscall_exit s) p
            ≡ record (reg_of s p) { eax = 1; ebx = s.curr_pid; ecx = (reg_of s s.curr_pid).ebx })
  syscall_exit-wakes first w =
      let (e, r) = orphaned-kept s p first (parent-Unmoved w) in
      let waits : is_waiting (state_of (orphaned s) p) ≡ true = rw e (ground arith) in
      rw (exit-resolves waits) (
        ground (arith, resolve-state p s.curr_pid (orphaned s) s.curr_pid),
        ground (arith, resolve-state p s.curr_pid (orphaned s) p),
        resolve-regs p s.curr_pid (orphaned s) ne
            ∙ ap₂ (λ (a b : Regs). record a { eax = 1; ebx = s.curr_pid; ecx = b.ebx })
                {x = reg_of (orphaned s) p} {y = reg_of s p} {u = reg_of (orphaned s) s.curr_pid}
                {v = reg_of s s.curr_pid} r self-regs,
      )

  -- If the parent does not wait, a process other than the first one stays as a zombie in its slot, with its
  -- registers, until the parent waits.
  pub syscall_exit-lingers :
      is_waiting (state_of s p) ≡ false
      → (state_of (syscall_exit s) s.curr_pid ≡ zombie)
        × (reg_of (syscall_exit s) s.curr_pid ≡ reg_of s s.curr_pid)
  syscall_exit-lingers w =
      rw
        (exit-stays (
          orphan_from-waiting num_processes s.curr_pid 0 p (set_state s s.curr_pid zombie)
            (ground arith)))
        (self-state, self-regs)

  -- A parent that neither waits nor has ended keeps its registers.
  pub syscall_exit-parent_regs :
      1 ≢ p
      → is_waiting (state_of s p) ≡ false
      → is_zombie (state_of s p) ≡ false
      → reg_of (syscall_exit s) p ≡ reg_of s p
  syscall_exit-parent_regs first w z =
      rw
        (exit-stays (
          orphan_from-waiting num_processes s.curr_pid 0 p (set_state s s.curr_pid zombie)
            (ground arith)))
        (orphaned-kept s p first (ground arith)).1
