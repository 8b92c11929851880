-- ===== src/Syscall/Reaping.antt =====
-- The outcomes of `syscall_wait`, on every branch.
use mariobr_os.Base.{
  ℕ, zero, suc, ◌+◌, ◌≤◌, ◌<◌, ◌≡◌, ◌≢◌, ◌∙◌, ap, refl, Bool, true, false, ◌&&◌, arith, ◌==◌, none,
  some, ◌∷◌, Bool-cases, inl, inr, ne→==, ==→eq, ◌⊎◌,
}
use mariobr_os.Process.{Process, waiting, runnable, free, is_zombie}
use mariobr_os.Scheduler.{Sched, num_processes}
use mariobr_os.Syscall.{set_state, find_zombie, finish_wait, syscall_wait}
use mariobr_os.Syscall.Effect.{
  state_of, parent_of, reg_of, dir_of, resolve-state, resolve-regs, resolve-freed,
}

-- A slot that wait can reap.
abbrev pub zombie_child : (ℕ → Process) → ℕ → ℕ → Bool
zombie_child ps parent j = is_zombie (ps j).state && (ps j).parent_id == parent

module _ (ps : ℕ → Process) (parent : ℕ) where
  find_zombie-first :
      (n id z : ℕ) (seen : Bool)
      → id ≤ z
      → z < id + n
      → zombie_child ps parent z ≡ true
      → ((j : ℕ) → id ≤ j → j < z → zombie_child ps parent j ≡ false)
      → find_zombie n ps parent id seen ≡ (true, some z)
  unfolding find_zombie
  find_zombie-first zero id z seen h k f before = absurd (omega arith)
  find_zombie-first (suc n) id z seen h k f before = elim (Bool-cases (id == z)) [
    | inl e ↦ ground arith
    | inr e ↦
        let next : (b : Bool) → find_zombie n ps parent (id + 1) b ≡ (true, some z) = λ b.
          find_zombie-first n (id + 1) z b (ground arith) (omega arith) f
            (λ j p q. before j (omega arith) q) in
        ground (arith, next true, next seen, before id)
  ]

  -- With no zombie child, the search reports whether it has seen a child.
  find_zombie-none :
      (n id c : ℕ) (seen : Bool)
      → ((j : ℕ) → id ≤ j → j < id + n → zombie_child ps parent j ≡ false)
      → (seen ≡ true) ⊎ ((id ≤ c) × (c < id + n) × ((ps c).parent_id ≡ parent))
      → find_zombie n ps parent id seen ≡ (true, none)
  unfolding find_zombie
  find_zombie-none zero id c seen clear (inl e) = ap (λ b. (b, none)) e
  find_zombie-none zero id c seen clear (inr (h, k, e)) = absurd (omega arith)
  find_zombie-none (suc n) id c seen clear (inl e) =
      let rest_clear : (j : ℕ) → id + 1 ≤ j → j < id + 1 + n → zombie_child ps parent j ≡ false =
        λ j p q. clear j (omega arith) (omega arith) in
      ground (
        arith,
        clear id,
        find_zombie-none n (id + 1) c true rest_clear (inl refl),
        find_zombie-none n (id + 1) c seen rest_clear (inl e),
      )
  find_zombie-none (suc n) id c seen clear (inr (h, k, e)) =
      let rest_clear : (j : ℕ) → id + 1 ≤ j → j < id + 1 + n → zombie_child ps parent j ≡ false =
        λ j p q. clear j (omega arith) (omega arith) in
      elim (Bool-cases (id == c)) [
        | inl here ↦
            let first : (ps id).parent_id ≡ parent =
              ap (λ j. (ps j).parent_id) (==→eq id c here) ∙ e in
            ground (arith, clear id, find_zombie-none n (id + 1) c true rest_clear (inl refl))
        | inr later ↦
            let rest : (b : Bool) → find_zombie n ps parent (id + 1) b ≡ (true, none) = λ b.
              find_zombie-none n (id + 1) c b rest_clear (inr (ground arith, omega arith, e)) in
            ground (arith, clear id, rest true, rest seen)
      ]

  find_zombie-alone :
      (n id : ℕ)
      → ((j : ℕ) → id ≤ j → j < id + n → (ps j).parent_id ≢ parent)
      → find_zombie n ps parent id false ≡ (false, none)
  unfolding find_zombie
  find_zombie-alone zero id clear = refl
  find_zombie-alone (suc n) id clear =
      rw (ne→== (ps id).parent_id parent (clear id (omega arith) (omega arith)), find_zombie)
        (find_zombie-alone n (id + 1) (λ j p q. clear j (omega arith) (omega arith)))

module _ (s : Sched) where
  waiting_in : Sched
  waiting_in = set_state s s.curr_pid waiting

  zombie_child-kept :
      (j : ℕ)
      → zombie_child s.processes s.curr_pid j ≡ false
      → zombie_child waiting_in.processes s.curr_pid j ≡ false
  unfolding waiting_in
  zombie_child-kept j h = ground arith

  -- Wait reaps the zombie child in the lowest slot: that slot is freed with its page directory,
  -- and the caller goes on with 1, the child and its exit value in `eax`, `ebx` and `ecx`.
  pub syscall_wait-reaps :
      (z : ℕ)
      → z < num_processes
      → s.curr_pid ≢ z
      → zombie_child s.processes s.curr_pid z ≡ true
      → ((j : ℕ) → j < z → zombie_child s.processes s.curr_pid j ≡ false)
      → (state_of (syscall_wait s) z ≡ free)
        × (state_of (syscall_wait s) s.curr_pid ≡ runnable)
        × (reg_of (syscall_wait s) s.curr_pid
            ≡ record (reg_of s s.curr_pid) { eax = 1; ebx = z; ecx = (reg_of s z).ebx })
        × ((syscall_wait s).freed ≡ dir_of s z ∷ s.freed)
  unfolding syscall_wait finish_wait waiting_in
  syscall_wait-reaps z h ne f before =
      let found : find_zombie num_processes waiting_in.processes s.curr_pid 0 false
          ≡ (true, some z) =
        find_zombie-first waiting_in.processes s.curr_pid num_processes 0 z false (omega arith)
          (omega arith) (ground arith) (λ j p q. zombie_child-kept j (before j q)) in
      let p : ℕ = s.curr_pid in
      rw found (
        ground (arith, resolve-state p z waiting_in z),
        ground (arith, resolve-state p z waiting_in p),
        resolve-regs p z waiting_in ne ∙ ground arith,
        resolve-freed p z waiting_in ∙ ground arith,
      )

  -- A caller with a child in the table and no zombie among its children is left waiting, and
  -- nothing else changes.
  pub syscall_wait-waits :
      (c : ℕ)
      → c < num_processes
      → parent_of s c ≡ s.curr_pid
      → ((j : ℕ) → j < num_processes → zombie_child s.processes s.curr_pid j ≡ false)
      → syscall_wait s ≡ set_state s s.curr_pid waiting
  unfolding syscall_wait finish_wait waiting_in
  syscall_wait-waits c h e clear =
      let found : find_zombie num_processes waiting_in.processes s.curr_pid 0 false ≡ (true, none) =
        find_zombie-none waiting_in.processes s.curr_pid num_processes 0 c false
          (λ j p q. zombie_child-kept j (clear j (omega arith)))
          (inr (omega arith, omega arith, ground arith)) in
      rw found

  -- A caller with no child in the table goes on at once with 0 in `eax`, and no other slot changes.
  syscall_wait-alone :
      ((j : ℕ) → j < num_processes → parent_of s j ≢ s.curr_pid)
      → (state_of (syscall_wait s) s.curr_pid ≡ runnable)
        × (reg_of (syscall_wait s) s.curr_pid ≡ record (reg_of s s.curr_pid) { eax = 0 })
        × ((j : ℕ) → s.curr_pid ≢ j → (syscall_wait s).processes j ≡ s.processes j)
  unfolding syscall_wait finish_wait waiting_in
  syscall_wait-alone clear =
      let found : find_zombie num_processes waiting_in.processes s.curr_pid 0 false
          ≡ (false, none) =
        find_zombie-alone waiting_in.processes s.curr_pid num_processes 0
          (λ j p q. kept j (clear j (omega arith))) in
      rw found (ground arith, ground arith, λ j ne. ground arith)
    where
      kept : (j : ℕ) → parent_of s j ≢ s.curr_pid → parent_of waiting_in j ≢ s.curr_pid
      kept j ne = ground arith
