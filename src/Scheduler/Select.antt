-- ===== src/Scheduler/Select.antt =====
-- Which process `select_new_process` picks, and what it does to the run queues.
use mathlib.Core.List.{append-nil, append_assoc}
use mariobr_os.Base.{
  put, ℕ, zero, suc, ◌+◌, ◌≤◌, ◌<◌, ◌≡◌, refl, ap, ◌∙◌, ◌-◌, fun_ext, true, false, none, some, List,
  [], ◌∷◌, ◌++◌, arith, ◌==◌, ==→eq, Bool-cases, inl, inr,
}
use mariobr_os.Process.{Process, is_runnable}
use mariobr_os.Scheduler.{Sched, scan, after_scan, select_below, select_new_process, max_priority}

-- No process of the list can run.
abbrev pub AllBlocked : (ℕ → Process) → List ℕ → Type 0
AllBlocked ps [] = Unit {0}
AllBlocked ps (pid ∷ q) = (is_runnable (ps pid).state ≡ false) × AllBlocked ps q

module _ (ps : ℕ → Process) where
  scan-AllBlocked : (q temp : List ℕ) → AllBlocked ps q → scan ps q temp ≡ ([], temp ++ q, none)
  unfolding scan
  scan-AllBlocked [] temp h = rw append-nil
  scan-AllBlocked (pid ∷ q) temp h =
      rw (h.0, scan) (scan-AllBlocked q (temp ++ pid ∷ []) h.1 ∙ rw append_assoc)

  scan-found :
      (a : List ℕ) (pid : ℕ) (b temp : List ℕ)
      → AllBlocked ps a
      → is_runnable (ps pid).state ≡ true
      → scan ps (a ++ pid ∷ b) temp ≡ (b, temp ++ (a ++ pid ∷ []), some pid)
  unfolding scan
  scan-found [] pid b temp h r = rw (r, scan)
  scan-found (p ∷ a) pid b temp h r =
      rw (h.0, scan) (scan-found a pid b (temp ++ p ∷ []) h.1 r ∙ rw append_assoc)

put_self {ℓ} : {A : Type ℓ} (a : ℕ → A) (i : ℕ) → put a i (a i) ≡ a
put_self a i =
    fun_ext λ j. elim (Bool-cases (i == j)) [ inl e ↦ rw e (ap a (==→eq i j e)) | inr e ↦ rw e ]

-- Every queue of a priority from `lo` below `hi` is blocked.
abbrev pub BlockedBetween : Sched → ℕ → ℕ → Type 0
BlockedBetween s lo hi = (i : ℕ) → lo ≤ i → i < hi → AllBlocked s.processes (s.runqueues i)

select_skip :
    (n : ℕ) (s : Sched)
    → AllBlocked s.processes (s.runqueues n)
    → select_below (suc n) s ≡ select_below n s
unfolding select_below
select_skip n s h =
    ap (after_scan s n (select_below n)) (scan-AllBlocked s.processes (s.runqueues n) [] h)
    ∙ ap (λ (q : ℕ → List ℕ). select_below n (record s { runqueues = q })) (put_self s.runqueues n)

-- The state after `pid` was found behind `a` and before `b` in the queue of priority `prio`.
abbrev pub selected : Sched → ℕ → List ℕ → ℕ → List ℕ → Sched
selected s prio a pid b = record s {
  curr_pid = pid;
  runqueues = put s.runqueues prio (b ++ (a ++ pid ∷ []));
}

select_hit :
    (n : ℕ) (s : Sched) (a : List ℕ) (pid : ℕ) (b : List ℕ)
    → s.runqueues n ≡ a ++ pid ∷ b
    → AllBlocked s.processes a
    → is_runnable (s.processes pid).state ≡ true
    → select_below (suc n) s ≡ selected s n a pid b
unfolding select_below
select_hit n s a pid b e h r =
    ap (after_scan s n (select_below n))
      (ap (λ q. scan s.processes q []) e ∙ scan-found s.processes a pid b [] h r)

select_below-hit :
    (k n : ℕ) (s : Sched) (a : List ℕ) (pid : ℕ) (b : List ℕ)
    → BlockedBetween s (suc n) (suc n + k)
    → s.runqueues n ≡ a ++ pid ∷ b
    → AllBlocked s.processes a
    → is_runnable (s.processes pid).state ≡ true
    → select_below (suc n + k) s ≡ selected s n a pid b
select_below-hit zero n s a pid b above e h r =
    ap (λ t. select_below t s) {y = suc n} (omega arith) ∙ select_hit n s a pid b e h r
select_below-hit (suc k) n s a pid b above e h r =
    ap (λ t. select_below t s) {y = suc (suc n + k)} (omega arith)
    ∙ select_skip (suc n + k) s (above (suc n + k) (omega arith) (omega arith))
    ∙ select_below-hit k n s a pid b (λ i p q. above i p (omega arith)) e h r

-- The first runnable process of the highest priority that has one is selected, and moves to the
-- end of its queue together with the blocked ones before it; no other queue changes.
pub select_new_process-picks :
    (s : Sched) (prio : ℕ) (a : List ℕ) (pid : ℕ) (b : List ℕ)
    → prio ≤ max_priority
    → BlockedBetween s (suc prio) (suc max_priority)
    → s.runqueues prio ≡ a ++ pid ∷ b
    → AllBlocked s.processes a
    → is_runnable (s.processes pid).state ≡ true
    → select_new_process s ≡ selected s prio a pid b
unfolding select_new_process
select_new_process-picks s prio a pid b hp above e h r =
    ap (λ t. select_below t s) {x = suc max_priority} {y = suc prio + (max_priority - prio)}
      (omega arith)
    ∙ select_below-hit (max_priority - prio) prio s a pid b (λ i p q. above i p (omega arith)) e h r

select_below-none : (n : ℕ) (s : Sched) → BlockedBetween s 0 n → select_below n s ≡ s
select_below-none zero s h = unfold select_below in refl
select_below-none (suc n) s h =
    select_skip n s (h n (omega arith) (omega arith))
    ∙ select_below-none n s (λ i p q. h i p (omega arith))

-- Where no queued process can run, selection changes nothing: the current process stays.
pub select_new_process-none :
    (s : Sched) → BlockedBetween s 0 (suc max_priority) → select_new_process s ≡ s
unfolding select_new_process
select_new_process-none s h = select_below-none (suc max_priority) s h
