-- ===== src/Syscall/Fork.antt =====
-- Fork keeps the process table and the run queues in agreement.
use mariobr_os.Base.{
  ℕ, zero, suc, ◌+◌, ◌^◌, ◌≤◌, ◌<◌, ◌≡◌, refl, ◌∙◌, ◌⊎◌, Bool, true, false, [], ◌∷◌, arith, ◌==◌,
  ◌||◌, Bool-cases, inl, inr, ==→ne,
}
use mariobr_os.Process.{Globals, Process, is_free}
use mariobr_os.Scheduler.{Sched, max_priority, num_processes}
use mariobr_os.Syscall.{find_free, syscall_fork, fork_child, spawn, gt_int}
use mariobr_os.Syscall.Effect.{state_of, count-append}
use mariobr_os.Syscall.Invariant.{Consistent, set_regs-Consistent}

-- The search for a free slot ends at a free slot, or past the table.
pub find_free-lem :
    (n : ℕ) (ps : ℕ → Process) (id : ℕ)
    → (find_free n ps id ≡ id + n)
      ⊎ ((is_free (ps (find_free n ps id)).state ≡ true) × (find_free n ps id < id + n))
unfolding find_free
find_free-lem zero ps id = inl (omega arith)
find_free-lem (suc n) ps id = elim (Bool-cases (is_free (ps id).state)) [
  | inl e ↦ inr (rw (e, find_free) e, rw (e, find_free) (omega arith))
  | inr e ↦
      rw (e, find_free)
        (elim (find_free-lem n ps (id + 1)) [
          | inl p ↦ inl (omega arith)
          | inr (p, q) ↦ inr (p, omega arith)
        ])
]

pub spawn-Consistent :
    (id prio : ℕ) (child : Process) (s : Sched)
    → is_free (state_of s id) ≡ true
    → id < num_processes
    → is_free child.state ≡ false
    → child.prio ≡ prio
    → prio ≤ max_priority
    → Consistent s
    → Consistent (spawn id prio child s)
unfolding spawn
spawn-Consistent id prio child s h b k e l c = record {
  queued = λ p i.
      ground (arith, c.queued p i, c.queued prio i, count-append i (s.runqueues prio) (id ∷ []));
  table = λ i q. ground (arith, c.table i);
  levels = λ i q. ground (arith, c.levels i);
}

or_false : (a b : Bool) → (a || b) ≡ false → (a ≡ false) × (b ≡ false)
or_false true b h = cc
or_false false b h = (refl, h)

-- Fork keeps the table and the queues in agreement, if the current process is in use and asks for
-- a priority that is not negative.
pub syscall_fork-Consistent :
    (g : Globals) (dir : ℕ) (s : Sched)
    → is_free (state_of s s.curr_pid) ≡ false
    → (s.processes s.curr_pid).regs.ebx < 2 ^ 31
    → Consistent s
    → Consistent (syscall_fork g dir s)
unfolding syscall_fork fork_child
syscall_fork-Consistent g dir s h k c =
    elim (Bool-cases (find_free num_processes s.processes 0 == num_processes || gt_int ebx prio)) [
      | inl e ↦
          rw e
            (set_regs-Consistent s s.curr_pid c (record (s.processes s.curr_pid).regs { eax = 0 }))
      | inr e ↦ rw e (
          set_regs-Consistent spawned s.curr_pid (started (or_false _ _ e))
            (record (spawned.processes s.curr_pid).regs { eax = 1; ebx = id }))
    ]
  where
    ebx : ℕ
    ebx = (s.processes s.curr_pid).regs.ebx

    prio : ℕ
    prio = (s.processes s.curr_pid).prio

    id : ℕ
    id = find_free num_processes s.processes 0

    spawned : Sched
    spawned = spawn id ebx (fork_child g dir s.curr_pid (s.processes s.curr_pid)) s

    started : ((id == num_processes) ≡ false) × (gt_int ebx prio ≡ false) → Consistent spawned
    started (p, q) = elim (find_free-lem num_processes s.processes 0) [
      | inl full ↦ absurd (==→ne _ _ p (full ∙ omega arith))
      | inr (f, l) ↦
          spawn-Consistent id ebx _ s f (omega arith) refl refl
            (ground (arith, c.levels s.curr_pid h)) c
    ]
