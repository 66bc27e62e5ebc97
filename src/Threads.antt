-- ===== src/Threads.antt =====
-- vmill/Runtime/Linux/Thread.cpp: creating threads, and the segments where they have their data; and
-- the descriptors of vmill/Runtime/Linux/Run.h.
pub mod Segments
pub mod Clone
pub mod SystemCalls
pub mod HyperCalls
pub mod Children
pub mod Slots
mod Tests
use Prim.Native.Nat.{bit_and}
use vmill.Prelude.{
  ℕ, ◌+◌, ◌-◌, ◌*◌, ◌/◌, ◌%◌, ◌^◌, Bool, true, false, not, ◌&&◌, ◌||◌, Option, none, some, List, [],
  ◌∷◌, ltb, leb, ◌==◌, if◌then◌else◌, take, drop, update, Outcome, done, ◌>>=◌,
}
use vmill.Replies.{Reply, returns, fails, efault, einval, eperm, esrch}
use vmill.Transfers.{bytes_of, can_access_memory, try_write_memory, word_of}
use vmill.Futex.Operators.{Guest}
use vmill.Tasks.{
  LinuxTask, System, create_task, fetch_task, put_task, stopped_at_exit, stopped_after_hyper_call,
  status_runnable,
}
use vmill.Tasks.Faults.{set_location}
use vmill.Calls.{
  Segment, fs, gs, State, SystemCallAbi, get_pc, get_return_address, set_pc, set_return, set_sp,
  try_read_bytes,
}
use vmill.Calls.Arguments.{try_get_args}

-- linux_x86_user_desc, without `lm`, which nothing reads.
pub record UserDesc : Type 0 where
  pub entry_number : ℕ
  pub base_addr : ℕ
  pub limit : ℕ
  pub seg_32bit : Bool
  pub contents : ℕ
  pub read_exec_only : Bool
  pub limit_in_pages : Bool
  pub seg_not_present : Bool
  pub useable : Bool

abbrev pub zero_desc : UserDesc
zero_desc = record {
  entry_number = 0;
  base_addr = 0;
  limit = 0;
  seg_32bit = false;
  contents = 0;
  read_exec_only = false;
  limit_in_pages = false;
  seg_not_present = false;
  useable = false;
}

abbrev bit_of : ℕ → ℕ → Bool
bit_of w weight = w / weight % 2 == 1

-- Its 16 bytes: three words of 4 bytes, and the bits from the lowest one on.
abbrev pub desc_of : List ℕ → UserDesc
desc_of bytes =
    let bits = word_of (take 4 (drop 12 bytes)) in
    record {
      entry_number = word_of (take 4 bytes);
      base_addr = word_of (take 4 (drop 4 bytes));
      limit = word_of (take 4 (drop 8 bytes));
      seg_32bit = bit_of bits 1;
      contents = bits / 2 % 4;
      read_exec_only = bit_of bits 8;
      limit_in_pages = bit_of bits 16;
      seg_not_present = bit_of bits 32;
      useable = bit_of bits 64;
    }

abbrev pub is_blank : UserDesc → Bool
is_blank d =
    (d.base_addr == 0)
    && (d.limit == 0)
    && (d.contents == 0)
    && not d.seg_32bit
    && not d.limit_in_pages
    && not d.useable

abbrev pub is_empty : UserDesc → Bool
is_empty d = is_blank d && d.read_exec_only && d.seg_not_present

abbrev pub is_zero : UserDesc → Bool
is_zero d = is_blank d && not d.read_exec_only && not d.seg_not_present

-- What the system calls change: guest memory, the tasks, and by task the registers and the slots for
-- thread data; and whether SetReturn was called.
pub record Machine (M : Type 0) : Type 0 where
  pub memory : M
  pub system : System
  pub state : ℕ → State
  pub tls_slots : ℕ → ℕ → UserDesc
  pub completed : Bool

-- kLinuxMinIndexForTLSInGDT and kLinuxMaxIndexForTLSInGDT; and ~0U.
abbrev pub min_index : ℕ
min_index = 12

abbrev pub max_index : ℕ
max_index = 14

abbrev pub any_index : ℕ
any_index = 2 ^ 32 - 1

-- The loop that looks for an index that neither FS nor GS has.
abbrev pub takes_index : State → ℕ → Bool
takes_index st i = (st.segment fs == i) || (st.segment gs == i)

abbrev pub free_index : State → Option ℕ
free_index st =
    if not (takes_index st 12)
    then some 12
    else if not (takes_index st 13)
    then some 13
    else if not (takes_index st 14)
    then some 14
    else none

-- `base.dword = v`.
abbrev pub with_dword : ℕ → ℕ → ℕ
with_dword base v = base / 2 ^ 32 * 2 ^ 32 + v % 2 ^ 32

-- The bases of the segments with the index.
unfoldable pub with_bases : ℕ → ℕ → State → State
with_bases index base_addr st = record st {
  base = λ s. if st.segment s == index then with_dword (st.base s) base_addr else st.base s;
}

-- The tests of a descriptor that is neither empty nor zero.
abbrev pub is_refused : UserDesc → Bool
is_refused d =
    not (is_empty d)
    && not (is_zero d)
    && (not d.seg_32bit || (ltb 1 d.contents || d.seg_not_present))

module _ {M : Type 0} (g : Guest M) where
  -- `syscall.SetReturn(memory, state, ...)` with the registers of the task `k`.
  unfoldable pub reply : ℕ → Reply → Machine M → Machine M
  reply k r mc = record mc {
    state = update mc.state k (set_return g.width r (mc.state k));
    completed = true;
  }

  abbrev pub try_write_word : M → ℕ → ℕ → Bool × M
  try_write_word m addr v =
      try_write_memory g.read g.write g.width (g.can_write m) m addr (bytes_of 4 v)

  -- The end of DoSetThreadArea, for a descriptor with its index: `self` is the running task, and
  -- `k` the one with the registers.
  unfoldable pub install_desc : ℕ → ℕ → UserDesc → Machine M → Machine M
  install_desc self k info mc =
      let index = info.entry_number in
      reply k (returns 0) (record mc {
        state = update mc.state k (with_bases index info.base_addr (mc.state k));
        tls_slots = update mc.tls_slots self (update (mc.tls_slots self) (index - min_index) info);
      })

  -- The branch for an index that is to be found, which is written back.
  unfoldable pub install_anywhere : ℕ → ℕ → ℕ → UserDesc → Machine M → Machine M
  install_anywhere self k addr info mc = elim (free_index (mc.state k)) [
    | none ↦ reply k (fails esrch) mc
    | some index ↦
        let wrote = try_write_word mc.memory addr index in
        if wrote.0
        then install_desc self k (record info { entry_number = index })
            (record mc { memory = wrote.1 })
        else reply k (fails efault) mc
  ]

  unfoldable pub check_desc : ℕ → ℕ → ℕ → UserDesc → Machine M → Machine M
  check_desc self k addr info mc =
      if is_refused info
      then reply k (fails einval) mc
      else if info.entry_number == any_index
      then install_anywhere self k addr info mc
      else if ltb info.entry_number min_index || ltb max_index info.entry_number
      then reply k (fails einval) mc
      else install_desc self k info mc

  unfoldable pub do_set_thread_area : ℕ → ℕ → ℕ → Machine M → Machine M
  do_set_thread_area self k addr mc = elim (try_read_bytes g mc.memory addr 16) [
    | none ↦ reply k (fails efault) mc
    | some bytes ↦ check_desc self k addr (desc_of bytes) mc
  ]
