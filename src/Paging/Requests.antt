-- ===== src/Paging/Requests.antt =====
-- Requests and releases of virtual space, on the directory and on the frames.
use mariobr_os.Base.{ℕ, ◌^◌, ◌≤◌, ◌<◌, ◌≡◌, ◌≢◌, Bool, true, false, not, ◌&&◌}
use mariobr_os.Bitset.{Bitset, first_false_bit, all_ones}
use mariobr_os.Bitset.Access.{IsValid}
use mariobr_os.Bitset.Search.{member}
use mariobr_os.Paging.{Page, Directory, table_index, page_at}

-- The page that `map_page` makes.
abbrev mapped : Page → ℕ → Bool → Bool → Page
mapped page frame k w = record page { present = true; rw = w; user = not k; address = frame }

-- The frames of a machine: a well-formed set within the 4 GB of physical memory, with frame 0 in use.
pub record Frames (frames : Bitset) : Type 0 where
  pub valid : IsValid frames
  pub physical : frames.length ≤ 0x100000
  pub zero_used : member frames 0 ≡ 1

module _ (frame : ℕ) (dir : Directory) (address : ℕ) (k w : Bool) (frames : Bitset)
    (settled : dir.made (table_index address) ≡ (dir.entries (table_index address)).present)
    (hole : ((dir.entries (table_index address)).present && (page_at dir address).present) ≡ false)
    (f : Frames frames) (some_left : first_false_bit frames ≢ all_ones)
    (word : address < 2 ^ 32) where
  n : ℕ
  n = first_false_bit frames
