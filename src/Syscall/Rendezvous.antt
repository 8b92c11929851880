-- ===== src/Syscall/Rendezvous.antt =====
-- An exit and the wait of the parent meet, whichever comes first.
use mariobr_os.Base.{
  ℕ, ◌<◌, ◌≡◌, ◌≢◌, ◌∙◌, ap₂, sym, refl, subst, Bool, true, false, ◌&&◌, arith, ◌==◌, Bool-cases,
  inl, inr, ==→eq,
}
use mariobr_os.Process.{
  Regs, ProcessState, waiting, runnable, free, zombie, is_zombie, is_runnable, is_waiting,
}
use mariobr_os.Scheduler.{Sched, num_processes}
use mariobr_os.Syscall.{set_state, syscall_exit, syscall_wait}
use mariobr_os.Syscall.Effect.{state_of, parent_of, reg_of}
use mariobr_os.Syscall.Ending.{
  syscall_exit-parents, syscall_exit-wakes, syscall_exit-lingers, syscall_exit-parent_regs,
}
use mariobr_os.Syscall.Reaping.{zombie_child, syscall_wait-reaps, syscall_wait-waits}

-- The state when process `pid` runs.
abbrev pub running : ℕ → Sched → Sched
running pid s = record s { curr_pid = pid }

-- What the meeting of `parent` and `child` in the state `s` leads to: the child is gone, and the
-- parent goes on with the child's exit value.
abbrev pub Reaped : Sched → ℕ → ℕ → Sched → Type 0
Reaped s parent child t =
    (state_of t child ≡ free)
    × (state_of t parent ≡ runnable)
    × (reg_of t parent
        ≡ record (reg_of s parent) { eax = 1; ebx = child; ecx = (reg_of s child).ebx })

with_status : Regs → ℕ → Regs → Regs
with_status a child b = record a { eax = 1; ebx = child; ecx = b.ebx }

runs : (t : ProcessState) → is_runnable t ≡ true → (is_waiting t ≡ false) × (is_zombie t ≡ false)
runs runnable h = (refl, refl)
runs waiting h = cc
runs free h = cc
runs zombie h = cc

module _ (s : Sched) (p c : ℕ) (table : c < num_processes) (first : 1 ≢ p) (own : 1 ≢ c)
    (ne : p ≢ c) (child : parent_of s c ≡ p)
    (only : (j : ℕ) → j < num_processes → parent_of s j ≡ p → j ≡ c)
    (rp : is_runnable (state_of s p) ≡ true) (rc : is_runnable (state_of s c) ≡ true) where
  no_zombie : (j : ℕ) → j < num_processes → zombie_child s.processes p j ≡ false
  no_zombie j h = elim (Bool-cases (parent_of s j == p)) [
    | inl e ↦ rw e (
        subst (λ k. (is_zombie (state_of s k) && true) ≡ false) (sym (only j h (==→eq _ _ e)))
          (rw (runs (state_of s c) rc).1))
    | inr e ↦ rw e (and_false (is_zombie (state_of s j)))
  ]
    where
      and_false : (b : Bool) → (b && false) ≡ false
      and_false true = refl
      and_false false = refl

  wait_first : Reaped s p c (syscall_exit (running c (syscall_wait (running p s))))
  unfolding with_status
  wait_first = rw (syscall_wait-waits (running p s) c table child no_zombie) (
      let t : Sched = running c (set_state s p waiting) in
      let (x, y, z) = syscall_exit-wakes t p (ground arith) table ne own first (ground arith) in
      (
        x,
        y,
        z
            ∙ ap₂ (λ a b. with_status a c b) {x = reg_of t p} {y = reg_of s p} {u = reg_of t c}
                {v = reg_of s c} (ground arith) (ground arith),
      ))

  exit_first : Reaped s p c (syscall_wait (running p (syscall_exit (running c s))))
  unfolding with_status
  exit_first =
      let t : Sched = syscall_exit (running c s) in
      let (dead, kept) = syscall_exit-lingers (running c s) p child table ne own (runs _ rp).0 in
      let held =
        syscall_exit-parent_regs (running c s) p child table ne own first (runs _ rp).0
          (runs _ rp).1 in
      let parents = syscall_exit-parents (running c s) in
      let (x, y, z, f) =
        syscall_wait-reaps (running p t) c table ne (rw (dead, parents c table) (ground arith))
          (λ j h. ground (arith, parents j, only j)) in
      (x, y, z ∙ ap₂ (λ a b. with_status a c b) held kept)

-- A process other than the first one waits and its only child ends, in either order, both of them
-- able to run before: the child's slot is free, and the parent can run with 1, the child and the
-- child's exit value in `eax`, `ebx` and `ecx`.
pub exit-wait-meet :
    (s : Sched) (p c : ℕ)
    → c < num_processes
    → 1 ≢ p
    → 1 ≢ c
    → p ≢ c
    → parent_of s c ≡ p
    → ((j : ℕ) → j < num_processes → parent_of s j ≡ p → j ≡ c)
    → is_runnable (state_of s p) ≡ true
    → is_runnable (state_of s c) ≡ true
    → Reaped s p c (syscall_exit (running c (syscall_wait (running p s))))
      × Reaped s p c (syscall_wait (running p (syscall_exit (running c s))))
exit-wait-meet s p c table first own ne child only rp rc = (
  wait_first s p c table first own ne child only rp rc,
  exit_first s p c table first own ne child only rp rc,
)
