-- ===== src/Futex.antt =====
-- vmill/Runtime/Linux/Futex.cpp: waiting for a futex, waking what waits, and the system call. A wait
-- yields to the other tasks, so it is one function per round of its loop.
pub mod Operators
pub mod Call
pub mod Waking
pub mod Waiting
pub mod Round
mod Tests
use Prim.Native.Nat.{bit_and}
pub use vmill.Replies.{Errno, efault, einval, eagain, etimedout, enosys, Reply, returns, fails}
use vmill.Prelude.{
  ℕ, zero, suc, ◌+◌, ◌-◌, ◌%◌, ◌^◌, Bool, true, false, not, ◌&&◌, ◌||◌, Option, none, some, List,
  [], ◌∷◌, ◌==◌, ltb, leb, if◌then◌else◌, Outcome, done, undefined, ◌>>=◌, ◌>>◌, check,
}
use vmill.Tasks.{LinuxTask, System, fetch_task, put_task, deref}
use vmill.Transfers.{can_access_memory, try_read_memory, word_of}

-- kFutexBlockedForABit and kBlockedForever.
abbrev pub futex_blocked_for_a_bit : ℕ
futex_blocked_for_a_bit = 100

abbrev pub blocked_forever : ℕ
blocked_forever = 2 ^ 32 - 1

-- The rounds that the task is to be blocked for now.
abbrev pub rounds_left : Bool → LinuxTask → ℕ
rounds_left timeout t =
    if not (t.blocked_count == 0)
    then t.blocked_count - 1
    else if timeout
    then futex_blocked_for_a_bit
    else blocked_forever

-- The end of a pass where the word has the value: the wait is over, or goes on.
abbrev pub wait_block : ℕ → Bool → ℕ → LinuxTask → Option Reply × LinuxTask
wait_block uaddr timeout bitset t =
    let count = rounds_left timeout t in
    if count == 0
    then (
      some (fails etimedout),
      record t { blocked_count = count; futex_bitset = 0; futex_uaddr = 0 },
    )
    else (none, record t { blocked_count = count; futex_bitset = bitset; futex_uaddr = uaddr })

-- A pass of the loop of DoFutexWaitBitSet, up to where it returns, or yields, with the reply
-- `none`. `uval` is the word at `uaddr` if it can be read, `timeout` whether there is a pointer.
unfoldable pub wait_round :
    ℕ → ℕ → Bool → ℕ → Option ℕ → Bool → LinuxTask → Outcome (Option Reply × LinuxTask)
wait_round uaddr val timeout bitset none writable t = done (some (fails efault), t)
wait_round uaddr val timeout bitset (some uval) writable t =
    if not writable
    then done (some (fails efault), t)
    else if not (uval == val)
    then done (some (fails eagain), record t { futex_uaddr = 0; blocked_count = 0 })
    else if not (t.futex_uaddr == 0) && (t.blocked_count == 0)
    then check (t.futex_uaddr == uaddr)
      >> done (some (returns 0), record t { futex_bitset = 0; futex_uaddr = 0 })
    else done (wait_block uaddr timeout bitset t)

-- The tests before the loop, then its first pass.
unfoldable pub do_futex_wait_bit_set :
    ℕ → ℕ → Bool → ℕ → Option ℕ → Bool → LinuxTask → Outcome (Option Reply × LinuxTask)
do_futex_wait_bit_set uaddr val timeout bitset uval writable t =
    let first = wait_round uaddr val timeout bitset uval writable t in
    if not (uaddr % 4 == 0) || bitset == 0 then done (some (fails einval), t) else first

-- The test in the loop of DoWake, of a task in the address space `memory`.
abbrev pub is_waiting : ℕ → ℕ → ℕ → LinuxTask → Bool
is_waiting memory uaddr bitset t =
    (memory == t.memory)
    && (t.futex_uaddr == uaddr)
    && ltb 0 t.blocked_count
    && not (bit_and t.futex_bitset bitset == 0)

abbrev pub woken : LinuxTask → LinuxTask
woken t = record t { blocked_count = 0 }

-- The loop of DoWake from the task `q` on until it comes to `self` again: the number of woken tasks,
-- and the system. `rounds` is at least the number of tasks.
unfoldable pub wake_from : ℕ → ℕ → ℕ → ℕ → ℕ → ℕ → ℕ → ℕ → System → Outcome (ℕ × System)
wake_from zero self memory uaddr bitset num_to_wake q num_woken s = undefined
wake_from (suc rounds) self memory uaddr bitset num_to_wake q num_woken s =
    if q == self then done (num_woken, s) else do
      t ← fetch_task s q
      let here = is_waiting memory uaddr bitset t
      let s' = if here then put_task s q (woken t) else s
      let num = if here then num_woken + 1 else num_woken
      onward ← deref t.next_circular
      let rest = wake_from rounds self memory uaddr bitset num_to_wake onward num s'
      if here && leb num_to_wake num then done (num, s') else rest

unfoldable pub do_wake : ℕ → ℕ → ℕ → ℕ → ℕ → System → Outcome (ℕ × System)
do_wake rounds self uaddr bitset num_to_wake s = do
  t ← fetch_task s self
  first ← deref t.next_circular
  wake_from rounds self t.memory uaddr bitset num_to_wake first 0 s

-- DoFutexWakeBitSet by the task `self`; `accessible` says if the word can be read and written.
unfoldable pub do_futex_wake_bit_set : ℕ → ℕ → ℕ → ℕ → ℕ → Bool → System → Outcome (Reply × System)
do_futex_wake_bit_set rounds self uaddr num_to_wake bitset accessible s = do
  t ← fetch_task s self
  let s' = put_task s self (record t { blocked_count = 0 })
  let waking = do_wake rounds self uaddr bitset num_to_wake s'
  let reply = waking >>= λ woke. done (returns woke.0, woke.1)
  let checked = if not accessible then done (fails efault, s') else reply
  if not (uaddr % 4 == 0) || bitset == 0 then done (fails einval, s') else checked
