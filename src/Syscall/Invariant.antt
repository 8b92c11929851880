-- ===== src/Syscall/Invariant.antt =====
-- The process table and the run queues agree, and fork, exit and wait keep it so.
use mariobr_os.Base.{
  ℕ, zero, suc, ◌+◌, ◌≤◌, ◌≡◌, ◌≢◌, refl, subst, ◌⊎◌, Bool, true, false, arith, ◌==◌, ◌&&◌,
  if◌then◌else◌, Bool-cases, inl, inr,
}
use mariobr_os.LinkedList.Laws.{count}
use mariobr_os.Process.{
  Regs, ProcessState, free, waiting, runnable, zombie, is_free, is_waiting, is_zombie,
}
use mariobr_os.Scheduler.{Sched, max_priority, num_processes}
use mariobr_os.Syscall.{set_state, set_parent, set_regs, resolve_exit_wait, orphan, orphan_from}
use mariobr_os.Syscall.Effect.{state_of, prio_of, resolve-state, resolve-prio, resolve-count}

abbrev pub live : ProcessState → ℕ
live t = if is_free t then 0 else 1

-- Every process that is not free stands once in the run queue of its priority, and nowhere else;
-- no slot past the table is used; and the priority of a process is at most the greatest one.
pub record Consistent (s : Sched) : Type 0 where
  pub queued :
      (prio pid : ℕ)
      → count pid (s.runqueues prio) ≡ (if prio_of s pid == prio then live (state_of s pid) else 0)
  pub table : (pid : ℕ) → num_processes ≤ pid → is_free (state_of s pid) ≡ true
  pub levels : (pid : ℕ) → is_free (state_of s pid) ≡ false → prio_of s pid ≤ max_priority

module _ (s : Sched) (pid : ℕ) (c : Consistent s) where
  pub set_regs-Consistent : (r : Regs) → Consistent (set_regs s pid r)
  set_regs-Consistent r = record {
    queued = λ prio i. ground (arith, c.queued prio i);
    table = λ i h. ground (arith, c.table i);
    levels = λ i h. ground (arith, c.levels i);
  }

  pub set_parent-Consistent : (parent : ℕ) → Consistent (set_parent s pid parent)
  set_parent-Consistent parent = record {
    queued = λ prio i. ground (arith, c.queued prio i);
    table = λ i h. ground (arith, c.table i);
    levels = λ i h. ground (arith, c.levels i);
  }

  -- A change of state between states that are not free.
  pub set_state-Consistent :
      (t : ProcessState)
      → is_free (state_of s pid) ≡ false
      → is_free t ≡ false
      → Consistent (set_state s pid t)
  set_state-Consistent t h k = record {
    queued = λ prio i. ground (arith, c.queued prio i);
    table = λ i b. ground (arith, c.table i);
    levels = λ i b. ground (arith, c.levels i);
  }

module _ (parent child : ℕ) (s : Sched) where
  -- Resolving an exit with a wait keeps the table and the queues in agreement, if the parent is
  -- another slot than the child and is in use.
  pub resolve-Consistent :
      parent ≢ child
      → is_free (state_of s parent) ≡ false
      → Consistent s
      → Consistent (resolve_exit_wait parent child s)
  resolve-Consistent ne h c = record {
    queued = λ prio i. ground (
      arith,
      c.queued prio i,
      resolve-count parent child s prio i,
      resolve-state parent child s i,
      resolve-prio parent child s i,
    );
    table = λ i b. ground (arith, c.table i, resolve-state parent child s i);
    levels = λ i b.
        ground (arith, c.levels i, resolve-state parent child s i, resolve-prio parent child s i);
  }

pub waiting-not-free : (t : ProcessState) → is_waiting t ≡ true → is_free t ≡ false
waiting-not-free waiting h = refl
waiting-not-free free h = cc
waiting-not-free runnable h = cc
waiting-not-free zombie h = cc

-- A zombie is another process than one that waits.
zombie-ne-waiting :
    (s : Sched) (i j : ℕ)
    → is_zombie (state_of s i) ≡ true
    → is_waiting (state_of s j) ≡ true
    → j ≢ i
zombie-ne-waiting s i j z w e =
    tell_apart (state_of s i) z (subst (λ k. is_waiting (state_of s k) ≡ true) e w)
  where
    tell_apart : (t : ProcessState) → is_zombie t ≡ true → is_waiting t ≡ true → ⊥
    tell_apart free z w = cc
    tell_apart waiting z w = cc
    tell_apart runnable z w = cc
    tell_apart zombie z w = cc

and_true : (a b : Bool) → (a && b) ≡ true → (a ≡ true) × (b ≡ true)
and_true true true h = (refl, refl)
and_true true false h = cc
and_true false b h = cc

-- Resolving a zombie with a waiting process, where the code tests for both.
pub resolved-Consistent :
    (parent child : ℕ) (s : Sched)
    → is_zombie (state_of s child) ≡ true
    → is_waiting (state_of s parent) ≡ true
    → Consistent s
    → Consistent (resolve_exit_wait parent child s)
resolved-Consistent parent child s z w c =
    resolve-Consistent parent child s (zombie-ne-waiting s child parent z w)
      (waiting-not-free (state_of s parent) w) c

orphan-Consistent : (id i : ℕ) (s : Sched) → Consistent s → Consistent (orphan id i s)
unfolding orphan
orphan-Consistent id i s c = elim (Bool-cases ((s.processes i).parent_id == id)) [
  | inl e ↦ rw e (adopted (Bool-cases (both (set_parent s i 1))))
  | inr e ↦ rw e c
]
  where
    both : Sched → Bool
    both t = is_zombie (t.processes i).state && is_waiting (t.processes 1).state

    adopted :
        (both (set_parent s i 1) ≡ true) ⊎ (both (set_parent s i 1) ≡ false)
        → Consistent (
            if both (set_parent s i 1)
            then resolve_exit_wait 1 i (set_parent s i 1)
            else set_parent s i 1)
    adopted (inl t) = rw t (
        resolved-Consistent 1 i (set_parent s i 1) (and_true _ _ t).0 (and_true _ _ t).1
          (set_parent-Consistent s i c 1))
    adopted (inr f) = rw f (set_parent-Consistent s i c 1)

pub orphan_from-Consistent :
    (n id i : ℕ) (s : Sched) → Consistent s → Consistent (orphan_from n id i s)
unfolding orphan_from
orphan_from-Consistent zero id i s c = c
orphan_from-Consistent (suc n) id i s c =
    orphan_from-Consistent n id (i + 1) (orphan id i s) (orphan-Consistent id i s c)
