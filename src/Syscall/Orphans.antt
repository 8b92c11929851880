-- ===== src/Syscall/Orphans.antt =====
-- What the loop of exit over the process table does to the slots it does not free.
use mariobr_os.Base.{
  ℕ, zero, suc, ◌+◌, ◌≤◌, ◌<◌, ◌≡◌, ◌≢◌, ◌∙◌, refl, false, ◌&&◌, arith, ◌==◌, if◌then◌else◌,
}
use mariobr_os.Process.{is_zombie}
use mariobr_os.Scheduler.{Sched}
use mariobr_os.Syscall.{
  set_parent, resolve_exit_wait, bury, notify, finish_command, orphan, orphan_from,
}
use mariobr_os.Syscall.Effect.{state_of, parent_of, reg_of, resolve-state, resolve-parent}

-- The registers of another slot than the parent's.
pub resolve-regs_ne :
    (parent child : ℕ) (s : Sched) (j : ℕ)
    → parent ≢ j
    → reg_of (resolve_exit_wait parent child s) j ≡ reg_of s j
unfolding resolve_exit_wait bury notify finish_command
resolve-regs_ne parent child s j ne = ground arith

orphan-parent :
    (id i : ℕ) (s : Sched) (j : ℕ)
    → parent_of (orphan id i s) j ≡ (if i == j && parent_of s j == id then 1 else parent_of s j)
unfolding orphan
orphan-parent id i s j = ground (arith, resolve-parent 1 i (set_parent s i 1) j)

orphan_from-before :
    (n id i : ℕ) (s : Sched) (j : ℕ) → j < i → parent_of (orphan_from n id i s) j ≡ parent_of s j
unfolding orphan_from
orphan_from-before zero id i s j h = refl
orphan_from-before (suc n) id i s j h =
    orphan_from-before n id (i + 1) (orphan id i s) j (omega arith)
    ∙ ground (arith, orphan-parent id i s j)

pub orphan_from-parent :
    (n id i : ℕ) (s : Sched) (j : ℕ)
    → i ≤ j
    → j < i + n
    → parent_of (orphan_from n id i s) j ≡ (if parent_of s j == id then 1 else parent_of s j)
unfolding orphan_from
orphan_from-parent zero id i s j h k = absurd (omega arith)
orphan_from-parent (suc n) id i s j h k = ground (
  arith,
  orphan-parent id i s j,
  orphan_from-before n id (i + 1) (orphan id i s) j,
  orphan_from-parent n id (i + 1) (orphan id i s) j,
)

-- A slot that the loop does not free: no zombie child of `id`.
abbrev pub Unmoved : ℕ → ℕ → Sched → Type 0
Unmoved id j s = (is_zombie (state_of s j) && parent_of s j == id) ≡ false

orphan-Unmoved :
    (id i j : ℕ) (s : Sched)
    → 1 ≢ j
    → Unmoved id j s
    → (state_of (orphan id i s) j ≡ state_of s j)
      × (reg_of (orphan id i s) j ≡ reg_of s j)
      × Unmoved id j (orphan id i s)
unfolding orphan
orphan-Unmoved id i j s ne u = (
  ground (arith, resolve-state 1 i (set_parent s i 1) j),
  ground (arith, resolve-regs_ne 1 i (set_parent s i 1) j ne),
  ground (arith, resolve-state 1 i (set_parent s i 1) j, resolve-parent 1 i (set_parent s i 1) j),
)

pub orphan_from-Unmoved :
    (n id i j : ℕ) (s : Sched)
    → 1 ≢ j
    → Unmoved id j s
    → (state_of (orphan_from n id i s) j ≡ state_of s j)
      × (reg_of (orphan_from n id i s) j ≡ reg_of s j)
unfolding orphan_from
orphan_from-Unmoved zero id i j s ne u = (refl, refl)
orphan_from-Unmoved (suc n) id i j s ne u =
    let (p, q, v) = orphan-Unmoved id i j s ne u in
    let (p', q') = orphan_from-Unmoved n id (i + 1) j (orphan id i s) ne v in (p' ∙ p, q' ∙ q)
