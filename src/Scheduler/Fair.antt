-- ===== src/Scheduler/Fair.antt =====
-- Round robin: a runnable process at the highest occupied priority gets its turn.
use mathlib.Core.List.{append_assoc}
use mariobr_os.Base.{
  ℕ, zero, suc, ◌≤◌, ◌≡◌, refl, ap, ◌∙◌, true, List, [], ◌∷◌, ◌++◌, arith, eq→==, ne→==, length,
}
use mariobr_os.Process.{Process, is_runnable}
use mariobr_os.Scheduler.{Sched, select_new_process, max_priority}
use mariobr_os.Scheduler.Select.{BlockedBetween, selected, select_new_process-picks}

-- `n` selections in a row, as `n` timer interrupts make them while no state changes.
abbrev pub selections : ℕ → Sched → Sched
selections zero s = s
selections (suc n) s = selections n (select_new_process s)

abbrev pub AllRunnable : (ℕ → Process) → List ℕ → Type 0
AllRunnable ps [] = Unit {0}
AllRunnable ps (pid ∷ q) = (is_runnable (ps pid).state ≡ true) × AllRunnable ps q

AllRunnable-append :
    (ps : ℕ → Process) (a b : List ℕ)
    → AllRunnable ps a
    → AllRunnable ps b
    → AllRunnable ps (a ++ b)
AllRunnable-append ps [] b p q = q
AllRunnable-append ps (x ∷ a) b p q = (p.0, AllRunnable-append ps a b p.1 q)

AllRunnable-rotate :
    (ps : ℕ → Process) (x : ℕ) (a : List ℕ) (pid : ℕ) (b : List ℕ)
    → AllRunnable ps (x ∷ a ++ pid ∷ b)
    → AllRunnable ps (a ++ pid ∷ (b ++ x ∷ []))
AllRunnable-rotate ps x a pid b r =
    rw (← append_assoc a (pid ∷ b) (x ∷ []))
      (AllRunnable-append ps (a ++ pid ∷ b) (x ∷ []) r.1 (r.0, tt))

-- At the highest priority that has a process that can run, in a queue whose processes can all run,
-- a process behind `length a` others is the current one after `length a + 1` selections.
pub selections-turn :
    (a : List ℕ) (s : Sched) (prio pid : ℕ) (b : List ℕ)
    → prio ≤ max_priority
    → BlockedBetween s (suc prio) (suc max_priority)
    → s.runqueues prio ≡ a ++ pid ∷ b
    → AllRunnable s.processes (a ++ pid ∷ b)
    → (selections (suc (length a)) s).curr_pid ≡ pid
selections-turn [] s prio pid b hp above e r =
    ap (λ (t : Sched). t.curr_pid) (select_new_process-picks s prio [] pid b hp above e tt r.0)
selections-turn (x ∷ a) s prio pid b hp above e r =
    ap (λ t. (selections (suc (length a)) t).curr_pid)
      (select_new_process-picks s prio [] x (a ++ pid ∷ b) hp above e tt r.0)
    ∙ selections-turn a (selected s prio [] x (a ++ pid ∷ b)) prio pid (b ++ x ∷ []) hp
        (λ i p q. rw (ne→== prio i (omega arith)) (above i p q))
        (rw (eq→== prio prio refl) (append_assoc a (pid ∷ b) (x ∷ [])))
        (AllRunnable-rotate s.processes x a pid b r)
