-- ===== src/Fifo.antt =====
-- The queues of src/queue.c as their users see them: the values, oldest first.
use mariobr_os.Base.{ℕ, Bool, true, false, Option, none, some, List, [], ◌∷◌, ◌++◌}

abbrev pub empty_queue : List ℕ
empty_queue = []

abbrev pub is_empty_queue : List ℕ → Bool
is_empty_queue [] = true
is_empty_queue (x ∷ q) = false

abbrev pub enqueue : List ℕ → ℕ → List ℕ
enqueue q v = q ++ v ∷ []

-- `none` where the code would read through a null pointer.
abbrev pub dequeue : List ℕ → Option (ℕ × List ℕ)
dequeue [] = none
dequeue (x ∷ q) = some (x, q)
