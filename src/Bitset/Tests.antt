-- ===== src/Bitset/Tests.antt =====
-- Concrete runs of the bitset functions: a full word, then one that holds 32 and 34.
use mariobr_os.Base.{
  ℕ, zero, suc, ◌-◌, ◌^◌, ◌<◌, ◌≡◌, refl, [], ◌∷◌, arith, ◌==◌, if◌then◌else◌, is_true,
}
use mariobr_os.Base.Bits.{bit-ones}
use mariobr_os.Bitset.{Bitset, all_ones, word, set_bit, get_bit}
use mariobr_os.Bitset.Access.{IsValid, get_bit-set_bit}
use mariobr_os.Bitset.Search.{AllSet}

abbrev used : Bitset
used = record { bits = all_ones ∷ 5 ∷ []; length = 64 }

used-IsValid : IsValid used
used-IsValid = record { whole = refl; small = omega arith; words = words }
  where
    words : (i : ℕ) → word used i < 2 ^ 32
    words zero = omega arith
    words (suc zero) = omega arith
    words (suc (suc i)) = omega arith

abbrev holed : ℕ
holed = 2 ^ 32 - 2

holed-AllSet : AllSet holed 1 32
holed-AllSet zero h k = absurd (omega arith)
holed-AllSet (suc i) h k = bit-ones 31 i (omega arith)

get_bit-set_bit_example :
    get_bit (set_bit used 33 1) 34 ≡ (if 33 == 34 then is_true 1 else get_bit used 34)
get_bit-set_bit_example = get_bit-set_bit used 33 1 used-IsValid (omega arith) 34
