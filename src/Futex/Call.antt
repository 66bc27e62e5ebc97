-- ===== src/Futex/Call.antt =====
-- vmill/Runtime/Linux/Futex.cpp: SysFutex.
use vmill.Prelude.{
  ℕ, ◌-◌, ◌%◌, ◌^◌, Bool, true, false, not, ◌&&◌, ◌||◌, Option, none, some, List, ◌==◌, ltb, leb,
  if◌then◌else◌, take, drop, Outcome, done, ◌>>=◌,
}
use vmill.Tasks.{System, fetch_task, put_task}
use vmill.Transfers.{word_of, can_access_memory, try_read_memory}
use vmill.Futex.Operators.{
  FutexCommand, futex_wait, futex_wake, futex_wake_op, futex_lock_pi, futex_wait_bitset,
  futex_wake_bitset, futex_wait_requeue_pi, futex_invalid_command, futex_op_to_command, word, Guest,
  read_word, can_write_word, do_futex_wake_op,
}
use vmill.Futex.{
  Errno, efault, einval, enosys, Reply, fails, do_futex_wait_bit_set, do_futex_wake_bit_set,
}

-- What TryGetArgs gives to SysFutex.
pub record FutexArgs : Type 0 where
  pub uaddr : ℕ
  pub op : ℕ
  pub val : ℕ
  pub utime : ℕ
  pub uaddr2 : ℕ
  pub val3 : ℕ

abbrev pub is_invalid_command : FutexCommand → Bool
is_invalid_command futex_invalid_command = true
is_invalid_command _ = false

-- The switch over the command that reads the timeout: the test of it, for timespecs with fields of
-- 8 bytes if `wide`, and of 4 bytes, which are not signed, if not.
abbrev pub bad_timespec : Bool → List ℕ → Bool
bad_timespec false bytes = ltb 1000000000 (word_of (drop 4 bytes))
bad_timespec true bytes =
    leb (2 ^ 63) (word_of (take 8 bytes))
    || (ltb 1000000000 (word_of (drop 8 bytes)) && ltb (word_of (drop 8 bytes)) (2 ^ 63))

abbrev pub reads_timeout : FutexCommand → Bool
reads_timeout futex_wait = true
reads_timeout futex_lock_pi = true
reads_timeout futex_wait_bitset = true
reads_timeout futex_wait_requeue_pi = true
reads_timeout _ = false

module _ {M : Type 0} (g : Guest M) where
  unfoldable pub check_timeout : Bool → M → FutexCommand → ℕ → Option Errno
  check_timeout wide m cmd utime =
      if not (reads_timeout cmd) || utime == 0
      then none
      else elim (try_read_memory g.read g.write g.width (g.can_read m) m utime
          (if wide then 16 else 8)) [
            | none ↦ some efault
            | some bytes ↦ if bad_timespec wide bytes then some einval else none
          ]

  -- A wait by `self`: the reply, or nothing where the task yields.
  unfoldable pub start_wait : ℕ → M → System → ℕ → ℕ → ℕ → Outcome (Option Reply × M × System)
  start_wait self m s uaddr val bitset = do
    t ← fetch_task s self
    first ←
        do_futex_wait_bit_set uaddr val true bitset (read_word g m uaddr) (can_write_word g m uaddr)
          t
    done (first.0, m, put_task s self first.1)

  unfoldable pub start_wake : ℕ → ℕ → M → System → ℕ → ℕ → ℕ → Outcome (Option Reply × M × System)
  start_wake rounds self m s uaddr val bitset = do
    let accessible = can_access_memory (g.can_read m) g.width uaddr 4 && can_write_word g m uaddr
    woke ← do_futex_wake_bit_set rounds self uaddr val bitset accessible s
    done (some woke.0, m, woke.1)

  -- The switch at the end. The pointer to the timeout is never null.
  unfoldable pub run_command :
      ℕ → ℕ → M → System → FutexCommand → FutexArgs → Outcome (Option Reply × M × System)
  run_command rounds self m s futex_wait a = start_wait self m s a.uaddr a.val (word - 1)
  run_command rounds self m s futex_wait_bitset a = start_wait self m s a.uaddr a.val a.val3
  run_command rounds self m s futex_wake a = start_wake rounds self m s a.uaddr a.val (word - 1)
  run_command rounds self m s futex_wake_bitset a = start_wake rounds self m s a.uaddr a.val a.val3
  run_command rounds self m s futex_wake_op a = do
    woke ← do_futex_wake_op g rounds self m s a.uaddr a.uaddr2 a.val (a.utime % word) a.val3
    done (some woke.0, woke.1, woke.2)
  run_command rounds self m s cmd a = done (some (fails enosys), m, s)

  -- SysFutex by the task `self`.
  unfoldable pub sys_futex :
      ℕ → ℕ → Bool → M → System → Option FutexArgs → Outcome (Option Reply × M × System)
  sys_futex rounds self wide m s none = done (some (fails efault), m, s)
  sys_futex rounds self wide m s (some a) =
      let cmd = futex_op_to_command a.op in
      let run = run_command rounds self m s cmd a in
      elim (is_invalid_command cmd) [
        | true ↦ done (some (fails enosys), m, s)
        | false ↦ elim (check_timeout wide m cmd a.utime) [
          | some e ↦ done (some (fails e), m, s)
          | none ↦ run
        ]
      ]
