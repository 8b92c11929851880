-- ===== src/Memory/Laws.antt =====
-- Numbers in an array of bytes: what is stored is loaded again, and nothing apart from it changes.
use mariobr_os.Base.{◌%◌, ℕ, ◌+◌, ◌^◌, ◌≤◌, ◌<◌, ◌≡◌, arith, ◌⊎◌, inl, inr}
use mariobr_os.Memory.{Bytes, load16, load32, store16, store32}

-- Two stretches of bytes do not meet.
abbrev pub Apart : ℕ → ℕ → ℕ → ℕ → Type 0
Apart a n b k = (a + n ≤ b) ⊎ (b + k ≤ a)

pub store32-out : (m : Bytes) (a v j : ℕ) → Apart a 4 j 1 → store32 m a v j ≡ m j
unfolding store32
store32-out m a v j (inl h) = ground arith
store32-out m a v j (inr h) = ground arith

pub load32-store32_self : (m : Bytes) (a v : ℕ) → v < 2 ^ 32 → load32 (store32 m a v) a ≡ v
unfolding load32 store32
load32-store32_self m a v h = ground arith

pub load32-store32-Apart :
    (m : Bytes) (a v b : ℕ) → Apart a 4 b 4 → load32 (store32 m a v) b ≡ load32 m b
unfolding load32
load32-store32-Apart m a v b (inl h) = rw (
  store32-out m a v b (inl (omega arith)),
  store32-out m a v (b + 1) (inl (omega arith)),
  store32-out m a v (b + 2) (inl (omega arith)),
  store32-out m a v (b + 3) (inl (omega arith)),
)
load32-store32-Apart m a v b (inr h) = rw (
  store32-out m a v b (inr (omega arith)),
  store32-out m a v (b + 1) (inr (omega arith)),
  store32-out m a v (b + 2) (inr (omega arith)),
  store32-out m a v (b + 3) (inr (omega arith)),
)

pub load16-store16_self : (m : Bytes) (a v : ℕ) → v < 2 ^ 16 → load16 (store16 m a v) a ≡ v
unfolding load16 store16
load16-store16_self m a v h = ground arith

-- Of a larger number the low bits are stored.
pub load32-store32_mod : (m : Bytes) (a v : ℕ) → load32 (store32 m a v) a ≡ v % 2 ^ 32
unfolding load32 store32
load32-store32_mod m a v = ground arith
