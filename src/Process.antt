-- ===== src/Process.antt =====
-- src/process.h and src/process.c: the processes of the system and what a fresh one looks like.
use mariobr_os.Base.{ℕ, Bool, true, false, Option, none, some}

-- `struct regs` of src/types.h, the saved registers of an interrupted program.
pub record Regs : Type 0 where
  pub gs : ℕ
  pub fs : ℕ
  pub es : ℕ
  pub ds : ℕ
  pub edi : ℕ
  pub esi : ℕ
  pub ebp : ℕ
  pub esp : ℕ
  pub ebx : ℕ
  pub edx : ℕ
  pub ecx : ℕ
  pub eax : ℕ
  pub int_no : ℕ
  pub err_code : ℕ
  pub eip : ℕ
  pub cs : ℕ
  pub eflags : ℕ
  pub useresp : ℕ
  pub ss : ℕ

-- `process_state_t`
pub data ProcessState : Type 0 where
  free waiting runnable zombie : ProcessState

abbrev pub is_free : ProcessState → Bool
is_free free = true
is_free _ = false

abbrev pub is_waiting : ProcessState → Bool
is_waiting waiting = true
is_waiting _ = false

abbrev pub is_runnable : ProcessState → Bool
is_runnable runnable = true
is_runnable _ = false

abbrev pub is_zombie : ProcessState → Bool
is_zombie zombie = true
is_zombie _ = false

-- `context_t`. Every process has a `regs` of its own on the kernel heap: the pointer is never
-- shared, so it is modelled by what it points at. The other fields are addresses.
pub record Context : Type 0 where
  pub regs : Regs
  pub first_free_block : ℕ
  pub unallocated_mem : ℕ
  pub page_dir : ℕ

-- `process_t`. A priority is the bit pattern of an `int`.
pub record Process : Type 0 where
  pub state : ProcessState
  pub parent_id : ℕ
  pub prio : ℕ
  pub context : Context
  pub open context use {regs}

-- The global variables that `new_process` reads: the selectors that src/gdt.c sets up, and the
-- top of the user stack.
pub record Globals : Type 0 where
  pub user_data_segment : ℕ
  pub user_code_segment : ℕ
  pub user_stack_segment : ℕ
  pub start_of_user_stack : ℕ

-- What `new_page_dir` gives back: a page directory and the malloc state of its heap.
pub record UserSpace : Type 0 where
  pub dir : ℕ
  pub heap_first_free : ℕ
  pub heap_end : ℕ

unfoldable pub user_regs : Globals → Regs
user_regs g = record {
  gs = g.user_data_segment;
  fs = g.user_data_segment;
  es = g.user_data_segment;
  ds = g.user_data_segment;
  edi = 0;
  esi = 0;
  ebp = 0;
  esp = 0;
  ebx = 0;
  edx = 0;
  ecx = 0;
  eax = 0;
  int_no = 0;
  err_code = 0;
  eip = 0;
  cs = g.user_code_segment;
  eflags = 0x200;
  useresp = g.start_of_user_stack;
  ss = g.user_stack_segment;
}

-- The malloc state of a process without a page directory of its own is left uninitialised: 0 here.
unfoldable pub new_process : Globals → ℕ → ℕ → Option UserSpace → Process
unfolding user_regs
new_process g parent_id prio space = record {
  state = runnable;
  parent_id = parent_id;
  prio = prio;
  context = context_of space;
}
  where
    context_of : Option UserSpace → Context
    context_of (some u) = record {
      regs = user_regs g;
      first_free_block = u.heap_first_free;
      unallocated_mem = u.heap_end;
      page_dir = u.dir;
    }
    context_of none = record {
      regs = user_regs g;
      first_free_block = 0;
      unallocated_mem = 0;
      page_dir = 0;
    }
