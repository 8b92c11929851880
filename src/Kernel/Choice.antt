-- ===== src/Kernel/Choice.antt =====
-- After `select_new_process` the current process can run, if some queued process can.
use mariobr_os.Base.{
  ℕ, zero, suc, ◌≤◌, ◌<◌, ◌≡◌, ◌⊎◌, inl, inr, refl, sym, subst, true, false, Option, none, some,
  List, [], ◌∷◌, ◌++◌, put, ◌==◌, arith, Bool-cases, ==→eq, ==→ne,
}
use mariobr_os.Process.{Process, is_runnable}
use mariobr_os.Scheduler.{Sched, scan, after_scan, select_below, select_new_process, max_priority}

-- The process stands in the list.
abbrev pub Member : ℕ → List ℕ → Type 0
Member pid [] = ⊥
Member pid (x ∷ q) = (x ≡ pid) ⊎ Member pid q

-- The search ends at a process that can run, where there is one.
Found : (ℕ → Process) → List ℕ × List ℕ × Option ℕ → Type 0
Found ps (q, temp, some pid) = is_runnable (ps pid).state ≡ true
Found ps (q, temp, none) = ⊥

scan-Found :
    (ps : ℕ → Process) (q temp : List ℕ) (pid : ℕ)
    → Member pid q
    → is_runnable (ps pid).state ≡ true
    → Found ps (scan ps q temp)
unfolding scan Found
scan-Found ps [] temp pid m r = m
scan-Found ps (x ∷ q) temp pid m r = elim (Bool-cases (is_runnable (ps x).state)) [
  | inl e ↦ rw (e, scan) e
  | inr e ↦ rw (e, scan) (scan-Found ps q (temp ++ x ∷ []) pid (later e m) r)
]
  where
    later : is_runnable (ps x).state ≡ false → (x ≡ pid) ⊎ Member pid q → Member pid q
    later e (inl h) =
        let f : is_runnable (ps pid).state ≡ false =
          subst (λ t. is_runnable (ps t).state ≡ false) h e in
        cc
    later e (inr h) = h

-- The process that the search ends at, if any, can run.
CanRun : (ℕ → Process) → List ℕ × List ℕ × Option ℕ → Type 0
CanRun ps (q, temp, some pid) = is_runnable (ps pid).state ≡ true
CanRun ps (q, temp, none) = Unit {0}

scan-CanRun : (ps : ℕ → Process) (q temp : List ℕ) → CanRun ps (scan ps q temp)
unfolding scan CanRun
scan-CanRun ps [] temp = tt
scan-CanRun ps (x ∷ q) temp = elim (Bool-cases (is_runnable (ps x).state)) [
  | inl e ↦ rw (e, scan) e
  | inr e ↦ rw (e, scan) (scan-CanRun ps q (temp ++ x ∷ []))
]

-- The current process can run.
abbrev pub Runs : Sched → Type 0
Runs s = is_runnable (s.processes s.curr_pid).state ≡ true

-- One round, from what is known of the rounds after it.
round-Runs :
    (s : Sched) (n prio pid : ℕ) (r : List ℕ × List ℕ × Option ℕ)
    → CanRun s.processes r
    → (prio ≡ n → Found s.processes r)
    → prio < suc n
    → Member pid (s.runqueues prio)
    → ((q : ℕ → List ℕ)
        → prio < n
        → Member pid (q prio)
        → Runs (select_below n (record s { runqueues = q })))
    → Runs (after_scan s n (select_below n) r)
unfolding after_scan CanRun Found
round-Runs s n prio pid (q, temp, some x) c f h m next = c
round-Runs s n prio pid (q, temp, none) c f h m next = elim (Bool-cases (n == prio)) [
  | inl e ↦ absurd (f (sym (==→eq n prio e)))
  | inr e ↦ next (put s.runqueues n (q ++ temp)) (omega (arith, ==→ne n prio e)) (rw e m)
]

select_below-Runs :
    (n : ℕ) (s : Sched) (prio pid : ℕ)
    → prio < n
    → Member pid (s.runqueues prio)
    → is_runnable (s.processes pid).state ≡ true
    → Runs (select_below n s)
unfolding select_below
select_below-Runs zero s prio pid h m r = absurd (omega arith)
select_below-Runs (suc n) s prio pid h m r =
    round-Runs s n prio pid (scan s.processes (s.runqueues n) [])
      (scan-CanRun s.processes (s.runqueues n) [])
      (λ e.
        scan-Found s.processes (s.runqueues n) [] pid (subst (λ t. Member pid (s.runqueues t)) e m)
          r)
      h m (λ q k o. select_below-Runs n (record s { runqueues = q }) prio pid k o r)

-- If some process in a run queue can run, the process that `select_new_process` makes the current
-- one can.
pub select_new_process-Runs :
    (s : Sched) (prio pid : ℕ)
    → prio ≤ max_priority
    → Member pid (s.runqueues prio)
    → is_runnable (s.processes pid).state ≡ true
    → Runs (select_new_process s)
unfolding select_new_process
select_new_process-Runs s prio pid h m r =
    select_below-Runs (suc max_priority) s prio pid (omega arith) m r

-- Selection changes no process.
after_scan-processes :
    (s : Sched) (n : ℕ) (r : List ℕ × List ℕ × Option ℕ)
    → ((t : Sched) → (select_below n t).processes ≡ t.processes)
    → (after_scan s n (select_below n) r).processes ≡ s.processes
unfolding after_scan
after_scan-processes s n (q, temp, some pid) next = refl
after_scan-processes s n (q, temp, none) next = next _

select_below-processes : (n : ℕ) (s : Sched) → (select_below n s).processes ≡ s.processes
unfolding select_below
select_below-processes zero s = refl
select_below-processes (suc n) s =
    after_scan-processes s n (scan s.processes (s.runqueues n) []) (select_below-processes n)

pub select_new_process-processes : (s : Sched) → (select_new_process s).processes ≡ s.processes
unfolding select_new_process
select_new_process-processes s = select_below-processes (suc max_priority) s
