-- ===== src/Syscall/Exit.antt =====
-- Exit keeps the process table and the run queues in agreement.
use mariobr_os.Base.{
  put, ℕ, zero, suc, ◌+◌, ◌≡◌, ◌≢◌, refl, subst, true, false, arith, if◌then◌else◌, Bool-cases, inl,
  inr, eq→==,
}
use mariobr_os.Process.{Process, zombie, is_free, is_waiting}
use mariobr_os.Scheduler.{Sched, num_processes}
use mariobr_os.Syscall.{set_state, set_parent, resolve_exit_wait, orphan, orphan_from, syscall_exit}
use mariobr_os.Syscall.Effect.{state_of, parent_of, resolve-state}
use mariobr_os.Syscall.Invariant.{
  Consistent, set_state-Consistent, resolve-Consistent, orphan_from-Consistent, waiting-not-free,
}

-- The loop of exit puts no process to wait.
orphan-waiting :
    (id i j : ℕ) (s : Sched)
    → is_waiting (state_of s j) ≡ false
    → is_waiting (state_of (orphan id i s) j) ≡ false
unfolding orphan
orphan-waiting id i j s h = ground (arith, resolve-state 1 i (set_parent s i 1) j)

pub orphan_from-waiting :
    (n id i j : ℕ) (s : Sched)
    → is_waiting (state_of s j) ≡ false
    → is_waiting (state_of (orphan_from n id i s) j) ≡ false
unfolding orphan_from
orphan_from-waiting zero id i j s h = h
orphan_from-waiting (suc n) id i j s h =
    orphan_from-waiting n id (i + 1) j (orphan id i s) (orphan-waiting id i j s h)

ne_of_waiting :
    (s : Sched) (i j : ℕ)
    → is_waiting (state_of s i) ≡ true
    → is_waiting (state_of s j) ≡ false
    → i ≢ j
ne_of_waiting s i j w n e = cc (subst (λ k. is_waiting (state_of s k) ≡ true) e w)

-- The last step of exit: the parent is told, if it waits.
unfoldable pub exit_end : ℕ → Sched → Sched
exit_end id s =
    if is_waiting (s.processes (s.processes id).parent_id).state
    then resolve_exit_wait (s.processes id).parent_id id s
    else s

exit_end-Consistent :
    (id : ℕ) (s : Sched)
    → is_waiting (state_of s id) ≡ false
    → Consistent s
    → Consistent (exit_end id s)
unfolding exit_end
exit_end-Consistent id s n c = elim (Bool-cases (is_waiting (state_of s (parent_of s id)))) [
  | inl w ↦ rw w (
      resolve-Consistent (parent_of s id) id s (ne_of_waiting s (parent_of s id) id w n)
        (waiting-not-free (state_of s (parent_of s id)) w) c)
  | inr f ↦ rw f c
]

-- Exit keeps the table and the queues in agreement, if the current process is in use.
pub syscall_exit-Consistent :
    (s : Sched)
    → is_free (state_of s s.curr_pid) ≡ false
    → Consistent s
    → Consistent (syscall_exit s)
unfolding syscall_exit exit_end
syscall_exit-Consistent s h c =
    exit_end-Consistent id (orphan_from num_processes id 0 (set_state s id zombie))
      (orphan_from-waiting num_processes id 0 id (set_state s id zombie) (exiting (s.processes id)))
      (orphan_from-Consistent num_processes id 0 (set_state s id zombie)
        (set_state-Consistent s id c zombie h refl))
  where
    id : ℕ
    id = s.curr_pid

    exiting :
        (p : Process)
        → is_waiting (put s.processes id (record p { state = zombie }) id).state ≡ false
    exiting p = rw (eq→== id id refl, is_waiting)
