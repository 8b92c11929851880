-- ===== src/Kernel/Switching.antt =====
-- A process does not notice that the timer interrupted it: it goes on with the registers, the
-- malloc state and the page directory it had.
use mariobr_os.Base.{
  ℕ, ◌≡◌, ◌≢◌, refl, ap, sym, subst, ◌∙◌, Bool, true, false, not, ◌||◌, List, [], ◌∷◌,
  if◌then◌else◌, eq→==, ne→==, Bool-cases, inl, inr, ◌≤◌,
}
use mariobr_os.Process.{Regs, Context, Process, is_runnable}
use mariobr_os.Scheduler.{Sched, max_priority}
use mariobr_os.Kernel.{
  Machine, context_at, switch_before, switch_after, reschedule, timer_handler, leave_kernel,
}
use mariobr_os.Kernel.Choice.{select_new_process-processes, select_new_process-Runs, Member, Runs}

-- What the process that runs leaves behind when it is interrupted.
pub record Slice : Type 0 where
  pub frame : Regs
  pub first_free_block : ℕ
  pub unallocated_mem : ℕ

abbrev pub ran : Slice → Machine → Machine
ran x m = record m {
  frame = x.frame;
  first_free_block = x.first_free_block;
  unallocated_mem = x.unallocated_mem;
}

-- The timer interrupts one process after the other.
abbrev pub slices : List Slice → Machine → Machine
slices [] m = m
slices (x ∷ xs) m = slices xs (timer_handler (ran x m))

-- The process does not run before the end.
abbrev pub Away : ℕ → List Slice → Machine → Type 0
Away p [] m = Unit {0}
Away p (x ∷ xs) m = (m.sched.curr_pid ≢ p) × Away p xs (timer_handler (ran x m))

-- The process has the given context: in the machine if it runs.
abbrev pub Has : Context → Machine → Type 0
Has ctx m =
    (m.frame ≡ ctx.regs)
    × (m.first_free_block ≡ ctx.first_free_block)
    × (m.unallocated_mem ≡ ctx.unallocated_mem)
    × (m.current_directory ≡ ctx.page_dir)

-- The process is parked with the given context, and has it if it runs again.
record Parked (p : ℕ) (ctx : Context) (m : Machine) : Type 0 where
  user : m.in_kernel ≡ false
  saved : context_at m.sched p ≡ ctx
  resumed : m.sched.curr_pid ≡ p → Has ctx m

switched-Has : (m : Machine) → Has (context_at m.sched m.sched.curr_pid) (switch_after m)
unfolding switch_after
switched-Has m = (refl, refl, refl, refl)

switched-sched :
    (m : Machine) → ((switch_after m).sched ≡ m.sched) × ((switch_after m).in_kernel ≡ false)
unfolding switch_after
switched-sched m = (refl, refl)

timer-user :
    (m : Machine)
    → m.in_kernel ≡ false
    → timer_handler m ≡ switch_after (reschedule (switch_before m))
unfolding timer_handler
timer-user m u =
    ap
      (λ b.
        if b then record m { should_cycle = true } else switch_after (reschedule (switch_before m)))
      u

-- A process whose context is in the table when the kernel is entered is parked when it is left.
entered-Parked :
    (p : ℕ) (ctx : Context) (m : Machine)
    → m.in_kernel ≡ false
    → context_at (switch_before m).sched p ≡ ctx
    → Parked p ctx (timer_handler m)
entered-Parked p ctx m u e =
    let t : Machine = reschedule (switch_before m) in
    let kept : context_at t.sched p ≡ ctx =
      ap (λ (ps : ℕ → Process). (ps p).context)
        (select_new_process-processes (switch_before m).sched)
      ∙ e in
    let (s, k) = switched-sched t in
    subst (Parked p ctx) (sym (timer-user m u)) (record {
      user = k;
      saved = ap (λ (s : Sched). context_at s p) s ∙ kept;
      resumed = λ c.
          subst (λ ctx. Has ctx (switch_after t))
            (ap (context_at t.sched) (sym (ap (λ (s : Sched). s.curr_pid) s) ∙ c) ∙ kept)
            (switched-Has t);
    })

-- The context that the timer saves for the process that runs.
abbrev pub own_context : Machine → Context
own_context m = record (context_at m.sched m.sched.curr_pid) {
  regs = m.frame;
  first_free_block = m.first_free_block;
  unallocated_mem = m.unallocated_mem;
}

before-own : (m : Machine) → context_at (switch_before m).sched m.sched.curr_pid ≡ own_context m
unfolding switch_before
before-own m = rw (eq→== m.sched.curr_pid m.sched.curr_pid refl, context_at) refl

before-other :
    (m : Machine) (p : ℕ)
    → m.sched.curr_pid ≢ p
    → context_at (switch_before m).sched p ≡ context_at m.sched p
unfolding switch_before
before-other m p ne = rw (ne→== m.sched.curr_pid p ne, context_at) refl

slices-Parked :
    (p : ℕ) (ctx : Context) (xs : List Slice) (m : Machine)
    → Parked p ctx m
    → Away p xs m
    → Parked p ctx (slices xs m)
slices-Parked p ctx [] m k a = k
slices-Parked p ctx (x ∷ xs) m k a =
    slices-Parked p ctx xs (timer_handler (ran x m))
      (entered-Parked p ctx (ran x m) k.user (before-other (ran x m) p a.0 ∙ k.saved)) a.1

-- A process that the timer interrupts, and that runs again after other processes were interrupted
-- any number of times, goes on with the registers, the malloc state and the page directory it had.
pub timer_handler-resumes :
    (m : Machine) (xs : List Slice)
    → m.in_kernel ≡ false
    → m.current_directory ≡ (context_at m.sched m.sched.curr_pid).page_dir
    → Away m.sched.curr_pid xs (timer_handler m)
    → (slices xs (timer_handler m)).sched.curr_pid ≡ m.sched.curr_pid
    → let t = slices xs (timer_handler m) in
      (t.frame ≡ m.frame)
      × (t.first_free_block ≡ m.first_free_block)
      × (t.unallocated_mem ≡ m.unallocated_mem)
      × (t.current_directory ≡ m.current_directory)
timer_handler-resumes m xs u dir away again =
    let k : Parked m.sched.curr_pid (own_context m) (slices xs (timer_handler m)) =
      slices-Parked m.sched.curr_pid (own_context m) xs (timer_handler m)
        (entered-Parked m.sched.curr_pid (own_context m) m u (before-own m)) away in
    let (a, b, c, d) = k.resumed again in (a, b, c, d ∙ sym dir)

-- After a system call the process that goes on can run, if some queued process can.
pub leave_kernel-Runs :
    (m : Machine) (prio pid : ℕ)
    → prio ≤ max_priority
    → Member pid (m.sched.runqueues prio)
    → is_runnable (m.sched.processes pid).state ≡ true
    → Runs (leave_kernel m).sched × ((leave_kernel m).in_kernel ≡ false)
unfolding leave_kernel switch_after
leave_kernel-Runs m prio pid h k r =
    elim (Bool-cases
      (m.should_cycle || not (is_runnable (m.sched.processes m.sched.curr_pid).state))) [
        | inl e ↦ rw e (select_new_process-Runs m.sched prio pid h k r, refl)
        | inr e ↦
            rw e (
              still m.should_cycle (is_runnable (m.sched.processes m.sched.curr_pid).state) e,
              refl,
            )
      ]
  where
    still : (a b : Bool) → (a || not b) ≡ false → b ≡ true
    still true b e = cc
    still false true e = refl
    still false false e = cc
