-- ===== src/Syscall/Wait.antt =====
-- Wait keeps the process table and the run queues in agreement.
use mariobr_os.Base.{
  ℕ, zero, suc, ◌+◌, ◌≡◌, refl, Bool, true, false, Option, none, some, arith, eq→==,
}
use mariobr_os.Process.{Process, waiting, runnable, is_free, is_waiting, is_zombie}
use mariobr_os.Scheduler.{Sched, num_processes}
use mariobr_os.Syscall.{set_state, set_regs, find_zombie, finish_wait, syscall_wait}
use mariobr_os.Syscall.Effect.{state_of}
use mariobr_os.Syscall.Invariant.{
  Consistent, set_regs-Consistent, set_state-Consistent, resolved-Consistent, waiting-not-free,
}

-- The child that the loop of wait stops at is a zombie.
find_zombie-zombie :
    (n : ℕ) (ps : ℕ → Process) (parent id : ℕ) (seen b : Bool) (z : ℕ)
    → find_zombie n ps parent id seen ≡ (b, some z)
    → is_zombie (ps z).state ≡ true
unfolding find_zombie
find_zombie-zombie zero ps parent id seen b z e = cc
find_zombie-zombie (suc n) ps parent id seen b z e = ground (
  arith,
  find_zombie-zombie n ps parent (id + 1) true b z,
  find_zombie-zombie n ps parent (id + 1) seen b z,
)

pair_path : (r : Bool × Option ℕ) (z : ℕ) → r.1 ≡ some z → r ≡ (r.0, some z)
pair_path r z e = λ i. (r.0, e i)

finish_wait-Consistent :
    (parent : ℕ) (r : Bool × Option ℕ) (s : Sched)
    → ((z : ℕ) → r.1 ≡ some z → is_zombie (state_of s z) ≡ true)
    → is_waiting (state_of s parent) ≡ true
    → Consistent s
    → Consistent (finish_wait parent r s)
unfolding finish_wait
finish_wait-Consistent parent (seen, some z) s h w c = resolved-Consistent parent z s (h z refl) w c
finish_wait-Consistent parent (true, none) s h w c = c
finish_wait-Consistent parent (false, none) s h w c =
    set_state-Consistent s' parent
      (set_regs-Consistent s parent c (record (s.processes parent).regs { eax = 0 })) runnable
      (rw (eq→== parent parent refl, is_free) (waiting-not-free (state_of s parent) w)) refl
  where
    s' : Sched
    s' = set_regs s parent (record (s.processes parent).regs { eax = 0 })

-- Wait keeps the table and the queues in agreement, if the current process is in use.
pub syscall_wait-Consistent :
    (s : Sched)
    → is_free (state_of s s.curr_pid) ≡ false
    → Consistent s
    → Consistent (syscall_wait s)
unfolding syscall_wait finish_wait
syscall_wait-Consistent s h c =
    finish_wait-Consistent s.curr_pid (find_zombie num_processes s'.processes s.curr_pid 0 false) s'
      (λ z e.
        find_zombie-zombie num_processes s'.processes s.curr_pid 0 false _ z (pair_path _ z e))
      waits (set_state-Consistent s s.curr_pid c waiting h refl)
  where
    s' : Sched
    s' = set_state s s.curr_pid waiting

    waits : is_waiting (state_of s' s.curr_pid) ≡ true
    waits = ground arith
