-- ===== src/Memory/Tests.antt =====
-- A copy to a lower area that overlaps the source.
use mariobr_os.Base.{◌≡◌, refl, ◌*◌}
use mariobr_os.Memory.{Bytes, mem_copy}

abbrev squares : Bytes
squares j = j * j

overlapping : mem_copy 2 3 5 squares 6 ≡ 49
unfolding mem_copy
overlapping = refl
