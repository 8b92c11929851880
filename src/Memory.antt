-- ===== src/Memory.antt =====
-- src/memory.c, and the little-endian numbers in an array of bytes that the code reads and writes
-- through casts. An array is a function of its index.
pub mod Laws
pub mod Copies
mod Tests
use mariobr_os.Base.{ℕ, zero, suc, ◌+◌, ◌*◌, ◌/◌, ◌%◌, ◌^◌, put, ltb, if◌then◌else◌}

abbrev pub Bytes : Type 0
Bytes = ℕ → ℕ

unfoldable pub load16 : Bytes → ℕ → ℕ
load16 m a = m a + 2 ^ 8 * m (a + 1)

unfoldable pub load32 : Bytes → ℕ → ℕ
load32 m a = m a + 2 ^ 8 * m (a + 1) + 2 ^ 16 * m (a + 2) + 2 ^ 24 * m (a + 3)

unfoldable pub store16 : Bytes → ℕ → ℕ → Bytes
store16 m a v = put (put m a (v % 2 ^ 8)) (a + 1) (v / 2 ^ 8 % 2 ^ 8)

unfoldable pub store32 : Bytes → ℕ → ℕ → Bytes
store32 m a v =
    put (put (put (put m a (v % 2 ^ 8)) (a + 1) (v / 2 ^ 8 % 2 ^ 8)) (a + 2) (v / 2 ^ 16 % 2 ^ 8))
      (a + 3) (v / 2 ^ 24 % 2 ^ 8)

-- The loop takes a byte a round.
unfoldable pub mem_set : ℕ → ℕ → ℕ → Bytes → Bytes
mem_set str c zero m = m
mem_set str c (suc len) m = mem_set (str + 1) c len (put m str c)

unfoldable pub mem_copy : ℕ → ℕ → ℕ → Bytes → Bytes
mem_copy dest source zero m = m
mem_copy dest source (suc len) m = mem_copy (dest + 1) (source + 1) len (put m dest (m source))

-- What `n` bytes of `src` from `a` on, copied to the start of another array, leave there.
abbrev pub copied : Bytes → ℕ → ℕ → Bytes → Bytes
copied src a n buf j = if ltb j n then src (a + j) else buf j
