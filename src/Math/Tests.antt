-- ===== src/Math/Tests.antt =====
-- Concrete runs of the rounding functions.
use mariobr_os.Base.{◌≡◌, refl}
use mariobr_os.Math.{ceil_multiple, ceil_ratio}

-- 70 bits are three words.
three_words : ceil_multiple 70 32 ≡ 96
unfolding ceil_multiple
three_words = refl

three_blocks : ceil_ratio 70 32 ≡ 3
unfolding ceil_ratio
three_blocks = refl
