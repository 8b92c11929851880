-- ===== src/Filesystem/Lookup.antt =====
-- The search of a directory in src/filesystem.c, against the list of its entries.
use mariobr_os.Base.{
  ℕ, zero, suc, ◌+◌, ◌≤◌, ◌<◌, ◌≡◌, ◌≢◌, ◌∙◌, sym, Bool, ◌==◌, ◌||◌, refl, ap, true, false, ◌&&◌,
  Option, none, some, List, [], ◌∷◌, if◌then◌else◌, ltb, is_true, arith, length, Bool-cases, inl,
  inr, eq→==, ne→==, subst,
}
use mariobr_os.Memory.{Bytes}
use mariobr_os.Filesystem.Volume.{Fs}
use mariobr_os.Filesystem.Directories.{
  name_length, Found, entry_inode, entry_size, same_name, look_up, next_inode, read_directory,
  step_into,
}

-- The name that an entry holds: as many bytes as its length says.
abbrev pub bytes_from : ℕ → ℕ → Bytes → List ℕ
bytes_from zero a m = []
bytes_from (suc n) a m = m a ∷ bytes_from n (a + 1) m

abbrev pub entry_name : Bytes → ℕ → List ℕ
entry_name m e = bytes_from (name_length m e) (e + 8) m

-- Names are equal byte for byte.
abbrev pub equal_names : List ℕ → List ℕ → Bool
equal_names [] [] = true
equal_names [] (d ∷ b) = false
equal_names (c ∷ a) [] = false
equal_names (c ∷ a) (d ∷ b) = let rest = equal_names a b in if c == d then rest else false

abbrev pub HasNoZero : List ℕ → Type 0
HasNoZero [] = Unit {0}
HasNoZero (c ∷ s) = (c ≢ 0) × HasNoZero s

-- A name without zeros that a zero follows.
abbrev pub IsNamed : Bytes → ℕ → Type 0
IsNamed m e = HasNoZero (entry_name m e) × (m (e + 8 + name_length m e) ≡ 0)

-- The offsets of the entries of a block, each behind the one before, up to the end of the block.
abbrev pub Entries : Bytes → ℕ → ℕ → List ℕ → Type 0
Entries m end e [] = e ≡ end
Entries m end e (x ∷ xs) =
    (x ≡ e)
    × (0 < entry_inode m e)
    × (0 < entry_size m e)
    × (e < end)
    × Entries m end (e + entry_size m e) xs

abbrev pub AreNamed : Bytes → List ℕ → Type 0
AreNamed m [] = Unit {0}
AreNamed m (x ∷ xs) = IsNamed m x × AreNamed m xs

-- What a directory stands for: names and their inodes.
abbrev pub contents : Bytes → List ℕ → List (List ℕ × ℕ)
contents m [] = []
contents m (x ∷ xs) = (entry_name m x, entry_inode m x) ∷ contents m xs

-- The inode of the first entry that has the name.
abbrev pub first_named : List ℕ → List (List ℕ × ℕ) → Option ℕ
first_named name [] = none
first_named name ((n, i) ∷ xs) = if equal_names name n then some i else first_named name xs

or_true : (b : Bool) → (b || true) ≡ true
or_true true = refl
or_true false = refl

-- The comparison of the code, from the byte `i` of the name that an entry holds.
same_name-bytes_from :
    (name : List ℕ) (n i e a : ℕ) (m : Bytes)
    → i + n ≡ name_length m e
    → a ≡ e + 8 + i
    → HasNoZero name
    → HasNoZero (bytes_from n a m)
    → m (e + 8 + name_length m e) ≡ 0
    → same_name name i m e ≡ equal_names name (bytes_from n a m)
unfolding same_name
same_name-bytes_from [] zero i e a m k place h b z =
    rw (eq→== i (name_length m e) (omega arith)) (or_true (0 == m (e + 8 + i)))
same_name-bytes_from [] (suc n) i e a m k place h b z =
    let here : m (e + 8 + i) ≢ 0 = λ q. b.0 (ap m place ∙ q) in
    rw (ne→== 0 (m (e + 8 + i)) (λ q. here (sym q)), ne→== i (name_length m e) (omega arith)) refl
same_name-bytes_from (c ∷ name) zero i e a m k place h b z =
    let here : m (e + 8 + i) ≡ 0 =
      ap m {x = e + 8 + i} {y = e + 8 + name_length m e} (omega arith) ∙ z in
    rw (same_name, eq→== (m (e + 8 + i)) 0 here, ne→== c (m (e + 8 + i)) (λ q. h.0 (q ∙ here))) refl
same_name-bytes_from (c ∷ name) (suc n) i e a m k place h b z =
    let here : m (e + 8 + i) ≢ 0 = λ q. b.0 (ap m place ∙ q) in
    let rest =
      same_name-bytes_from name n (i + 1) e (a + 1) m (omega arith) (omega arith) h.1 b.1 z in
    let same : m a ≡ m (e + 8 + i) = ap m place in
    elim (Bool-cases (c == m (e + 8 + i))) [
      | inl yes_ ↦ rw (same, yes_, same_name, ne→== (m (e + 8 + i)) 0 here) rest
      | inr no_ ↦ rw (same, no_, same_name, ne→== (m (e + 8 + i)) 0 here) no_
    ]

same_name-equal_names :
    (name : List ℕ) (m : Bytes) (e : ℕ)
    → HasNoZero name
    → IsNamed m e
    → same_name name 0 m e ≡ equal_names name (entry_name m e)
same_name-equal_names name m e h w =
    same_name-bytes_from name (name_length m e) 0 e (e + 8) m (omega arith) (omega arith) h w.0 w.1

abbrev lookup_of : ℕ → Option ℕ → Found
lookup_of end none = Found.ended end
lookup_of end (some i) = Found.found i

Entries-length : (m : Bytes) (end e : ℕ) (xs : List ℕ) → Entries m end e xs → length xs + e ≤ end
Entries-length m end e [] h = omega arith
Entries-length m end e (x ∷ xs) h = omega (arith, Entries-length m end (e + entry_size m e) xs h.4)

goes_on : (i e end : ℕ) → 0 < i → e < end → (is_true i && ltb e end) ≡ true
goes_on zero e end h k = absurd (omega arith)
goes_on (suc i) e end h k = ground arith

stops : (i end : ℕ) → (is_true i && ltb end end) ≡ false
stops zero end = refl
stops (suc i) end = ground arith

look_up-first_named :
    (n end e : ℕ) (name : List ℕ) (m : Bytes) (xs : List ℕ)
    → HasNoZero name
    → AreNamed m xs
    → Entries m end e xs
    → length xs < n
    → look_up n end e name m ≡ some (lookup_of end (first_named name (contents m xs)))
unfolding look_up
look_up-first_named zero end e name m xs z w h k = absurd (omega arith)
look_up-first_named (suc n) end e name m [] z w h k =
    rw h (rw (stops (entry_inode m end) end, look_up))
look_up-first_named (suc n) end e name m (x ∷ xs) z w h k =
    let same = same_name-equal_names name m e z (subst (λ p. IsNamed m p) h.0 w.0) in
    rw h.0 (elim (Bool-cases (equal_names name (entry_name m e))) [
      | inl yes_ ↦ rw (goes_on (entry_inode m e) e end h.1 h.3, same, yes_, look_up)
      | inr no_ ↦
          rw (goes_on (entry_inode m e) e end h.1 h.3, same, no_, look_up)
            (look_up-first_named n end (e + entry_size m e) name m xs z w.1 h.4 (omega arith))
    ])

next_of : (end inode : ℕ) (r : Option ℕ) → next_inode end inode (lookup_of end r) ≡ r
next_of end inode none = rw (eq→== end end refl)
next_of end inode (some i) = refl

-- A step into a directory ends, and finds the inode of the first entry whose name is the given one,
-- byte for byte, or nothing if there is none: for a name without zeros, in a directory whose block is
-- read, and whose entries have an inode and a size, fill the block, and have names without zeros, each
-- with a zero behind it.
pub step_into-first_named :
    (name : List ℕ) (inode : ℕ) (s s1 : Fs) (xs : List ℕ)
    → HasNoZero name
    → read_directory inode s ≡ some s1
    → Entries s1.std_buf s1.block_size 0 xs
    → AreNamed s1.std_buf xs
    → step_into name inode s ≡ some (first_named name (contents s1.std_buf xs), s1)
unfolding step_into
step_into-first_named name inode s s1 xs z r h w =
    let names = contents s1.std_buf xs in
    rw r (
      rw
        (look_up-first_named (suc s1.block_size) s1.block_size 0 name s1.std_buf xs z w h
          (omega (arith, Entries-length s1.std_buf s1.block_size 0 xs h)))
        (ap (λ o. some (o, s1)) (next_of s1.block_size inode (first_named name names))))
