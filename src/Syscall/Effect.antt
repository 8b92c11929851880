-- ===== src/Syscall/Effect.antt =====
-- What `resolve_exit_wait` does to the process table and the run queues, slot by slot.
use mariobr_os.Base.{ℕ, ◌+◌, ◌≡◌, ◌≢◌, refl, ◌&&◌, List, [], ◌∷◌, ◌++◌, arith, ◌==◌, if◌then◌else◌}
use mariobr_os.Fifo.{empty_queue, enqueue}
use mariobr_os.LinkedList.Laws.{count}
use mariobr_os.Process.{Regs, ProcessState, free, runnable}
use mariobr_os.Scheduler.{Sched}
use mariobr_os.Syscall.{drain_except, bury, notify, finish_command, resolve_exit_wait}

abbrev pub state_of : Sched → ℕ → ProcessState
state_of s pid = (s.processes pid).state

abbrev pub prio_of : Sched → ℕ → ℕ
prio_of s pid = (s.processes pid).prio

abbrev pub parent_of : Sched → ℕ → ℕ
parent_of s pid = (s.processes pid).parent_id

abbrev pub dir_of : Sched → ℕ → ℕ
dir_of s pid = (s.processes pid).context.page_dir

abbrev pub reg_of : Sched → ℕ → Regs
reg_of s pid = (s.processes pid).context.regs

pub count-append : (y : ℕ) (a b : List ℕ) → count y (a ++ b) ≡ count y a + count y b
count-append y [] b = omega arith
count-append y (x ∷ a) b = omega (arith, count-append y a b)

-- `drain_except` keeps every value but `child`.
pub count-drain_except :
    (q : List ℕ) (child : ℕ) (temp : List ℕ) (y : ℕ)
    → count y (drain_except q child temp) ≡ count y temp + (if child == y then 0 else count y q)
unfolding drain_except
count-drain_except [] child temp y = ground arith
count-drain_except (pid ∷ q) child temp y = ground (
  arith,
  count-drain_except q child temp y,
  count-drain_except q child (enqueue temp pid) y,
  count-append y temp (pid ∷ []),
)

module _ (parent child : ℕ) (s : Sched) where
  -- The state of every slot.
  pub resolve-state :
      (pid : ℕ)
      → state_of (resolve_exit_wait parent child s) pid
        ≡ (if parent == pid then runnable else if child == pid then free else state_of s pid)
  unfolding resolve_exit_wait bury notify finish_command
  resolve-state pid = ground arith

  pub resolve-prio : (pid : ℕ) → prio_of (resolve_exit_wait parent child s) pid ≡ prio_of s pid
  unfolding resolve_exit_wait bury notify finish_command
  resolve-prio pid = ground arith

  pub resolve-parent :
      (pid : ℕ) → parent_of (resolve_exit_wait parent child s) pid ≡ parent_of s pid
  unfolding resolve_exit_wait bury notify finish_command
  resolve-parent pid = ground arith

  -- The run queues: the child is taken out of the queue of its priority.
  pub resolve-count :
      (prio pid : ℕ)
      → count pid ((resolve_exit_wait parent child s).runqueues prio)
        ≡ (if prio_of s child == prio && child == pid then 0 else count pid (s.runqueues prio))
  unfolding resolve_exit_wait bury notify finish_command
  resolve-count prio pid =
      ground (arith, count-drain_except (s.runqueues (prio_of s child)) child empty_queue pid, e)
    where
      e : count pid (s.runqueues (prio_of s child)) ≡ count pid (s.runqueues (prio_of s child))
      e = refl

  pub resolve-curr : (resolve_exit_wait parent child s).curr_pid ≡ s.curr_pid
  unfolding resolve_exit_wait bury notify finish_command
  resolve-curr = refl

  pub resolve-freed : (resolve_exit_wait parent child s).freed ≡ dir_of s child ∷ s.freed
  unfolding resolve_exit_wait bury notify finish_command
  resolve-freed = refl

  -- The registers that the parent finds, where it is not the child itself.
  pub resolve-regs :
      parent ≢ child
      → reg_of (resolve_exit_wait parent child s) parent
        ≡ record (reg_of s parent) { eax = 1; ebx = child; ecx = (reg_of s child).ebx }
  unfolding resolve_exit_wait bury notify finish_command
  resolve-regs ne = ground arith
