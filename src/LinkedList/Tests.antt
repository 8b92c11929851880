-- ===== src/LinkedList/Tests.antt =====
-- Concrete runs of the list functions.
use mariobr_os.Base.{ℕ, List, [], ◌∷◌}

abbrev values : List ℕ
values = 4 ∷ 9 ∷ 9 ∷ 2 ∷ []
