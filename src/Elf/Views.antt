-- ===== src/Elf/Views.antt =====
-- What a process reads in the pages that src/elf.c writes.
use mariobr_os.Base.{
  ℕ, zero, suc, ◌+◌, ◌-◌, ◌/◌, ◌%◌, ◌^◌, ◌≤◌, ◌<◌, ◌≡◌, ◌≢◌, ◌∙◌, refl, ap, sym, ◌&&◌, ◌==◌,
  if◌then◌else◌, ltb, leb, put, arith, add32, sub32,
}
use mariobr_os.Memory.{Bytes}
use mariobr_os.Elf.{start_of_user_code, adr, mem_set_page, mem_copy_page}

-- The addresses of the user code.
abbrev pub InCode : ℕ → Type 0
InCode a = (start_of_user_code ≤ a) × (a < 2 ^ 32)

-- The pages are mapped at different pages.
pub record ArePages (virtuals : ℕ → ℕ) : Type 0 where
  pub aligned : (i : ℕ) → i < 16 → virtuals i % 0x1000 ≡ 0
  pub bounded : (i : ℕ) → i < 16 → virtuals i < 2 ^ 32
  pub different : (i j : ℕ) → i < 16 → j < 16 → virtuals i ≡ virtuals j → i ≡ j

-- An address that no address of the process stands at.
abbrev pub Outside : (ℕ → ℕ) → ℕ → Type 0
Outside virtuals j = (a : ℕ) → InCode a → adr virtuals a ≢ j

module _ (virtuals : ℕ → ℕ) (pages : ArePages virtuals) where
  adr-eq :
      (a : ℕ)
      → InCode a
      → adr virtuals a
        ≡ virtuals ((a - start_of_user_code) / 0x1000) + (a - start_of_user_code) % 0x1000
  unfolding adr
  adr-eq a h =
      let o : sub32 a start_of_user_code ≡ a - start_of_user_code = omega arith in
      let q = (a - start_of_user_code) / 0x1000 in
      rw o (omega (arith, pages.aligned q (omega arith), pages.bounded q (omega arith)))

  -- Different addresses of the process stand at different addresses of the kernel.
  pub adr_inj : (a b : ℕ) → InCode a → InCode b → adr virtuals a ≡ adr virtuals b → a ≡ b
  adr_inj a b h k e =
      let i = (a - start_of_user_code) / 0x1000 in
      let j = (b - start_of_user_code) / 0x1000 in
      let same : virtuals i + (a - start_of_user_code) % 0x1000
          ≡ virtuals j + (b - start_of_user_code) % 0x1000 =
        sym (adr-eq a h) ∙ e ∙ adr-eq b k in
      let page : i ≡ j =
        pages.different i j (omega arith) (omega arith)
          (omega (arith, same, pages.aligned i (omega arith), pages.aligned j (omega arith))) in
      omega (arith, page, same, ap virtuals page)

  put-adr :
      (a b c : ℕ) (m : Bytes)
      → InCode a
      → InCode b
      → put m (adr virtuals b) c (adr virtuals a) ≡ (if a == b then c else m (adr virtuals a))
  put-adr a b c m h k = grind (arith, adr_inj a b h k, ap (adr virtuals) {x = a} {y = b})

  pub mem_set_page-view :
      (str c len : ℕ) (m : Bytes) (a : ℕ)
      → InCode a
      → start_of_user_code ≤ str
      → str + len ≤ 2 ^ 32
      → mem_set_page str c len virtuals m (adr virtuals a)
        ≡ (if leb str a && ltb a (str + len) then c else m (adr virtuals a))
  unfolding mem_set_page
  mem_set_page-view str c zero m a h lo hi = ground arith
  mem_set_page-view str c (suc i) m a h lo hi =
      let at : add32 str i ≡ str + i = omega arith in
      rw at (
        put-adr a (str + i) c (mem_set_page str c i virtuals m) h (omega arith, omega arith)
        ∙ ground (arith, mem_set_page-view str c i m a h lo (omega arith)))

  put-Outside :
      (b c j : ℕ) (m : Bytes) → InCode b → Outside virtuals j → put m (adr virtuals b) c j ≡ m j
  put-Outside b c j m k out = grind (arith, out b k)

  pub mem_set_page-Outside :
      (str c len j : ℕ) (m : Bytes)
      → start_of_user_code ≤ str
      → str + len ≤ 2 ^ 32
      → Outside virtuals j
      → mem_set_page str c len virtuals m j ≡ m j
  unfolding mem_set_page
  mem_set_page-Outside str c zero j m lo hi out = refl
  mem_set_page-Outside str c (suc i) j m lo hi out =
      let at : add32 str i ≡ str + i = omega arith in
      rw at (
        put-Outside (str + i) c j (mem_set_page str c i virtuals m) (omega arith, omega arith) out
        ∙ mem_set_page-Outside str c i j m lo (omega arith) out)

  pub mem_copy_page-Outside :
      (dest source len j : ℕ) (m : Bytes)
      → start_of_user_code ≤ dest
      → dest + len ≤ 2 ^ 32
      → Outside virtuals j
      → mem_copy_page dest source len virtuals m j ≡ m j
  unfolding mem_copy_page
  mem_copy_page-Outside dest source zero j m lo hi out = refl
  mem_copy_page-Outside dest source (suc i) j m lo hi out =
      let at : add32 dest i ≡ dest + i = omega arith in
      let m1 = mem_copy_page dest source i virtuals m in
      rw at (
        put-Outside (dest + i) (m1 (add32 source i)) j m1 (omega arith, omega arith) out
        ∙ mem_copy_page-Outside dest source i j m lo (omega arith) out)

  pub mem_copy_page-view :
      (dest source len : ℕ) (m : Bytes) (a : ℕ)
      → InCode a
      → start_of_user_code ≤ dest
      → dest + len ≤ 2 ^ 32
      → source + len ≤ 2 ^ 32
      → ((i : ℕ) → i < len → Outside virtuals (source + i))
      → mem_copy_page dest source len virtuals m (adr virtuals a)
        ≡ (if leb dest a && ltb a (dest + len) then m (source + (a - dest)) else m (adr virtuals a))
  unfolding mem_copy_page
  mem_copy_page-view dest source zero m a h lo hi fits out = ground arith
  mem_copy_page-view dest source (suc i) m a h lo hi fits out =
      let at : add32 dest i ≡ dest + i = omega arith in
      let from : add32 source i ≡ source + i = omega arith in
      let m1 = mem_copy_page dest source i virtuals m in
      let rest =
        mem_copy_page-view dest source i m a h lo (omega arith) (omega arith)
          (λ k l. out k (omega arith)) in
      let kept =
        mem_copy_page-Outside dest source i (source + i) m lo (omega arith) (out i (omega arith)) in
      let last : a ≡ dest + i → m1 (source + i) ≡ m (source + (a - dest)) =
        λ e. kept ∙ ap m {x = source + i} {y = source + (a - dest)} (omega arith) in
      rw (at, from)
        (put-adr a (dest + i) (m1 (source + i)) m1 h (omega arith, omega arith)
          ∙ grind (arith, rest, last))
