-- ===== src/Memory/Copies.antt =====
-- The loops of src/memory.c: what each byte is afterwards.
use mariobr_os.Base.{
  ℕ, zero, suc, ◌+◌, ◌-◌, ◌≤◌, ◌<◌, ◌≡◌, ◌∙◌, put, arith, ltb, leb, ◌&&◌, if◌then◌else◌, ◌⊎◌, inl,
  inr, ◌≢◌, Bool-cases, trichotomy, ltb→le, ltb→lt,
}
use mariobr_os.Memory.{Bytes, mem_set, mem_copy}

pub mem_set-at :
    (str c len : ℕ) (m : Bytes) (j : ℕ)
    → mem_set str c len m j ≡ (if leb str j && ltb j (str + len) then c else m j)
unfolding mem_set
mem_set-at str c zero m j = ground arith
mem_set-at str c (suc len) m j = mem_set-at (str + 1) c len (put m str c) j ∙ ground arith

-- The first byte is copied; then the rest is, from bytes that are as before.
module _ (dest source len : ℕ) (m : Bytes) (j : ℕ) where
  abbrev moved : Bytes → ℕ → ℕ → ℕ → ℕ
  moved n d s k = if leb d j && ltb j (d + k) then n (s + (j - d)) else n j

  copy_step :
      (dest < j → (source + (j - dest) ≢ dest) ⊎ (dest + suc len ≤ j))
      → moved (put m dest (m source)) (dest + 1) (source + 1) len ≡ moved m dest source (suc len)
  copy_step h = elim (trichotomy dest j) [
    | inl lt ↦ later lt (h lt)
    | inr (inl e) ↦ let t : source + (j - dest) ≡ source = omega arith in rw t (ground arith)
    | inr (inr gt) ↦ ground arith
  ]
    where
      later :
          dest < j
          → (source + (j - dest) ≢ dest) ⊎ (dest + suc len ≤ j)
          → moved (put m dest (m source)) (dest + 1) (source + 1) len
            ≡ moved m dest source (suc len)
      later lt (inl ne) =
          let t : source + 1 + (j - (dest + 1)) ≡ source + (j - dest) = omega arith in
          rw t (ground arith)
      later lt (inr out) = ground arith

-- `mem_copy` copies `len` bytes and changes no other, also between areas that overlap if the
-- destination is the lower one.
pub mem_copy-copies :
    (dest source len : ℕ) (m : Bytes)
    → (dest ≤ source) ⊎ (source + len ≤ dest)
    → (j : ℕ)
    → mem_copy dest source len m j
      ≡ (if leb dest j && ltb j (dest + len) then m (source + (j - dest)) else m j)
unfolding mem_copy
mem_copy-copies dest source zero m h j = ground arith
mem_copy-copies dest source (suc len) m (inl h) j =
    mem_copy-copies (dest + 1) (source + 1) len (put m dest (m source)) (inl (omega arith)) j
    ∙ copy_step dest source len m j (λ lt. inl (omega arith))
mem_copy-copies dest source (suc len) m (inr h) j =
    mem_copy-copies (dest + 1) (source + 1) len (put m dest (m source)) (inr (omega arith)) j
    ∙ copy_step dest source len m j (λ lt. far lt)
  where
    far : dest < j → (source + (j - dest) ≢ dest) ⊎ (dest + suc len ≤ j)
    far lt = elim (Bool-cases (ltb j (dest + suc len))) [
      | inl e ↦ inl (omega (arith, ltb→lt _ _ e))
      | inr e ↦ inr (ltb→le _ _ e)
    ]
