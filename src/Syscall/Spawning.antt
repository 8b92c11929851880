-- ===== src/Syscall/Spawning.antt =====
-- The outcomes of `syscall_fork`.
use mariobr_os.Base.{
  ℕ, zero, suc, ◌+◌, ◌^◌, ◌≤◌, ◌<◌, ◌≡◌, ◌≢◌, ◌∙◌, ◌⊎◌, refl, subst, sym, Bool, true, false, ◌||◌,
  arith, ◌==◌, [], ◌∷◌, ◌++◌, Bool-cases, inl, inr, eq→==, ne→==, ap, ==→eq,
}
use mariobr_os.Process.{Globals, Process, runnable, is_free, new_process}
use mariobr_os.Scheduler.{Sched, num_processes, max_priority}
use mariobr_os.Syscall.{find_free, fork_child, spawn, set_regs, syscall_fork, gt_int}
use mariobr_os.Syscall.Effect.{state_of, prio_of, reg_of}
use mariobr_os.Syscall.Fork.{find_free-lem}

find_free-first :
    (n : ℕ) (ps : ℕ → Process) (i id : ℕ)
    → i ≤ id
    → id < i + n
    → is_free (ps id).state ≡ true
    → ((j : ℕ) → i ≤ j → j < id → is_free (ps j).state ≡ false)
    → find_free n ps i ≡ id
unfolding find_free
find_free-first zero ps i id h k f before = absurd (omega arith)
find_free-first (suc n) ps i id h k f before = elim (Bool-cases (i == id)) [
  | inl e ↦
      rw (subst (λ t. is_free (ps t).state ≡ true) (sym (==→eq i id e)) f, find_free) (==→eq i id e)
  | inr e ↦
      rw (before i (omega arith) (ground arith), find_free)
        (find_free-first n ps (i + 1) id (ground arith) (omega arith) f
          (λ j p q. before j (omega arith) q))
]

module _ (g : Globals) (dir : ℕ) (s : Sched) where
  -- Fork gives the child the free slot with the lowest number and the place behind the run queue
  -- of its priority; the child has the parent's registers but 2 and the parent's number in `eax`
  -- and `ebx`, where the parent finds 1 and the child's number. This is where there is a free
  -- slot, the current process is in use and the priority it asks for is not above its own.
  pub syscall_fork-child :
      (id : ℕ)
      → id < num_processes
      → is_free (state_of s id) ≡ true
      → ((j : ℕ) → j < id → is_free (state_of s j) ≡ false)
      → is_free (state_of s s.curr_pid) ≡ false
      → gt_int (reg_of s s.curr_pid).ebx (prio_of s s.curr_pid) ≡ false
      → let t = syscall_fork g dir s in
        (reg_of t s.curr_pid ≡ record (reg_of s s.curr_pid) { eax = 1; ebx = id })
        × (t.processes id ≡ record {
          state = runnable;
          parent_id = s.curr_pid;
          prio = (reg_of s s.curr_pid).ebx;
          context = record (s.processes s.curr_pid).context {
            regs = record (reg_of s s.curr_pid) { eax = 2; ebx = s.curr_pid };
            page_dir = dir;
          };
        })
        × (t.runqueues (reg_of s s.curr_pid).ebx ≡ s.runqueues (reg_of s s.curr_pid).ebx ++ id ∷ [])
  unfolding syscall_fork fork_child new_process spawn
  syscall_fork-child id h f before used low =
      let found : find_free num_processes s.processes 0 ≡ id =
        find_free-first num_processes s.processes 0 id (omega arith) (omega arith) f
          (λ j p q. before j q) in
      let ne : id ≢ s.curr_pid = λ e. cc (subst (λ t. is_free (state_of s t) ≡ true) e f) in
      rw (found, low, ne→== id num_processes (omega arith))
        (ground arith, ground arith, ground arith)

  -- Fork only puts 0 in `eax` where the table is full or the priority asked for is above the
  -- current process' own.
  pub syscall_fork-refused :
      (((j : ℕ) → j < num_processes → is_free (state_of s j) ≡ false)
        ⊎ (gt_int (reg_of s s.curr_pid).ebx (prio_of s s.curr_pid) ≡ true))
      → syscall_fork g dir s ≡ set_regs s s.curr_pid (record (reg_of s s.curr_pid) { eax = 0 })
  unfolding syscall_fork
  syscall_fork-refused (inl full) = elim (find_free-lem num_processes s.processes 0) [
    | inl e ↦ rw (eq→== _ num_processes (e ∙ omega arith))
    | inr (f, h) ↦ let used = full (find_free num_processes s.processes 0) (omega arith) in cc
  ]
  syscall_fork-refused (inr high) =
      rw (high, or_true (find_free num_processes s.processes 0 == num_processes))
    where
      or_true : (b : Bool) → (b || true) ≡ true
      or_true true = refl
      or_true false = refl

  -- The guard on the priority compares as signed numbers: a priority with its top bit set passes
  -- it, and the child's run queue is then past the last one.
  pub syscall_fork-negative :
      (id : ℕ)
      → id < num_processes
      → is_free (state_of s id) ≡ true
      → ((j : ℕ) → j < id → is_free (state_of s j) ≡ false)
      → is_free (state_of s s.curr_pid) ≡ false
      → prio_of s s.curr_pid ≤ max_priority
      → 2 ^ 31 ≤ (reg_of s s.curr_pid).ebx
      → (reg_of s s.curr_pid).ebx < 2 ^ 32
      → let t = syscall_fork g dir s in
        (max_priority < prio_of t id)
        × (t.runqueues (prio_of t id) ≡ s.runqueues (prio_of t id) ++ id ∷ [])
  syscall_fork-negative id h f before used low big small =
      let (x, y, z) = syscall_fork-child id h f before used (ground arith) in
      let e : prio_of (syscall_fork g dir s) id ≡ (reg_of s s.curr_pid).ebx =
        ap (λ (p : Process). p.prio) y in
      rw e (omega arith, z)
