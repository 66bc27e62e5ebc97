-- ===== src/Futex/Operators.antt =====
-- vmill/Runtime/Linux/Futex.cpp: FutexOpToCommand and DoFutexWakeOp. An int32_t is its bit
-- pattern, and the order of the signed numbers is that of the patterns with the sign bit turned.
use Prim.Native.Nat.{bit_and, bit_or, bit_xor}
use vmill.Prelude.{
  ℕ, zero, suc, ◌+◌, ◌-◌, ◌/◌, ◌%◌, ◌^◌, Bool, true, false, not, ◌&&◌, ◌||◌, Option, none, some,
  List, [], ◌∷◌, ◌==◌, ltb, leb, if◌then◌else◌, Outcome, done, undefined, ◌>>=◌,
}
use vmill.Tasks.{System}
use vmill.Transfers.{word_of, bytes_of, can_access_memory, try_read_memory, try_write_memory}
use vmill.Futex.{efault, einval, enosys, Reply, returns, fails, do_wake}

pub data FutexCommand : Type 0 where
  futex_wait futex_wake futex_fd futex_requeue futex_compare_and_requeue futex_wake_op :
      FutexCommand
  futex_lock_pi futex_unlock_pi futex_try_lock_pi futex_wait_bitset futex_wake_bitset : FutexCommand
  futex_wait_requeue_pi futex_compare_and_requeue_pi futex_invalid_command : FutexCommand

-- In the order of the enumeration.
abbrev pub futex_commands : List FutexCommand
futex_commands =
    futex_wait ∷ futex_wake ∷ futex_fd ∷ futex_requeue ∷ futex_compare_and_requeue ∷ futex_wake_op
    ∷ futex_lock_pi ∷ futex_unlock_pi ∷ futex_try_lock_pi ∷ futex_wait_bitset ∷ futex_wake_bitset
    ∷ futex_wait_requeue_pi ∷ futex_compare_and_requeue_pi ∷ []

abbrev pub command_at : List FutexCommand → ℕ → FutexCommand
command_at [] n = futex_invalid_command
command_at (c ∷ cs) zero = c
command_at (c ∷ cs) (suc n) = command_at cs n

-- FutexOpToCommand, of the bit pattern of an int.
abbrev pub futex_op_to_command : ℕ → FutexCommand
futex_op_to_command op =
    if leb (2 ^ 31) op then futex_invalid_command else command_at futex_commands (op % 128)

abbrev pub word : ℕ
word = 2 ^ 32

-- A signed bit-field of 12 bits as an int32_t.
abbrev pub extend12 : ℕ → ℕ
extend12 f = if leb 2048 f then f + (word - 4096) else f

-- The signed order of two int32_t.
abbrev pub key : ℕ → ℕ
key w = (w + 2 ^ 31) % word

-- FutexOp.
pub record FutexOp : Type 0 where
  pub cmparg : ℕ
  pub oparg : ℕ
  pub cmp : ℕ
  pub op : ℕ

abbrev pub to_futex_op : ℕ → FutexOp
to_futex_op flat = record {
  cmparg = extend12 (flat % 4096);
  oparg = extend12 (flat / 4096 % 4096);
  cmp = flat / 2 ^ 24 % 16;
  op = flat / 2 ^ 28 % 16;
}

-- The operand, shifted if it says so; `none` where the test of the shift fails. A shift by a
-- negative number is undefined.
unfoldable pub shifted_oparg : FutexOp → Outcome (Option ℕ)
shifted_oparg o =
    if ltb o.op 8
    then done (some o.oparg)
    else if ltb (2 ^ 31) (key o.oparg)
    then done none
    else if o.oparg == 0
    then done (some 1)
    else undefined

-- The new value; the signed sum must not overflow.
unfoldable pub operate : ℕ → ℕ → ℕ → Outcome ℕ
operate op old_val oparg =
    if op == 0
    then done oparg
    else if op == 1
    then (let sum = key old_val + key oparg in
        if leb (2 ^ 31) sum && ltb sum (2 ^ 31 + word)
        then done ((old_val + oparg) % word)
        else undefined)
    else if op == 2
    then done (bit_or old_val oparg)
    else if op == 3
    then done (bit_and old_val (word - 1 - oparg))
    else done (bit_xor old_val oparg)

unfoldable pub compares : ℕ → ℕ → ℕ → Bool
compares cmp old_val cmparg =
    if cmp == 0
    then old_val == cmparg
    else if cmp == 1
    then not (old_val == cmparg)
    else if cmp == 2
    then ltb (key old_val) (key cmparg)
    else if cmp == 3
    then leb (key old_val) (key cmparg)
    else if cmp == 4
    then ltb (key cmparg) (key old_val)
    else leb (key cmparg) (key old_val)

-- Guest memory: the intrinsics for a byte, what may be read and written, and the address space.
pub record Guest (M : Type 0) : Type 1 where
  pub read : M → ℕ → ℕ
  pub write : M → ℕ → ℕ → M
  pub can_read : M → ℕ → Bool
  pub can_write : M → ℕ → Bool
  pub width : ℕ

-- The second call of DoWake, if there is one.
unfoldable pub wake_another : ℕ → ℕ → ℕ → ℕ → Bool → System → Outcome (ℕ × System)
wake_another rounds self uaddr2 num_to_wake2 false s = done (0, s)
wake_another rounds self uaddr2 num_to_wake2 true s =
    do_wake rounds self uaddr2 (word - 1) num_to_wake2 s

unfoldable pub wake_both : ℕ → ℕ → ℕ → ℕ → ℕ → ℕ → Bool → System → Outcome (Reply × System)
wake_both rounds self uaddr1 uaddr2 num_to_wake1 num_to_wake2 another s = do
  first ← do_wake rounds self uaddr1 (word - 1) num_to_wake1 s
  second ← wake_another rounds self uaddr2 num_to_wake2 another first.1
  done (returns ((first.0 + second.0) % word), second.1)

module _ {M : Type 0} (g : Guest M) where
  abbrev pub read_word : M → ℕ → Option ℕ
  read_word m addr = elim (try_read_memory g.read g.write g.width (g.can_read m) m addr 4) [
    | none ↦ none
    | some bytes ↦ some (word_of bytes)
  ]

  abbrev pub can_write_word : M → ℕ → Bool
  can_write_word m addr = can_access_memory (g.can_write m) g.width addr 4

  unfoldable pub do_futex_wake_op :
      ℕ → ℕ → M → System → ℕ → ℕ → ℕ → ℕ → ℕ → Outcome (Reply × M × System)
  do_futex_wake_op rounds self m s uaddr1 uaddr2 num_to_wake1 num_to_wake2 op_ = do
    let o = to_futex_op op_
    operand ← shifted_oparg o
    let op = o.op % 8
    elim operand [
      | none ↦ done (fails einval, m, s)
      | some oparg ↦ elim (ltb 4 op || ltb 5 o.cmp) [
        | true ↦ done (fails enosys, m, s)
        | false ↦ elim (read_word m uaddr2) [
          | none ↦ done (fails efault, m, s)
          | some old_val ↦ elim (can_write_word m uaddr2) [
            | false ↦ done (fails efault, m, s)
            | true ↦ do
              new_val ← operate op old_val oparg
              let m' =
                  (try_write_memory g.read g.write g.width (g.can_write m) m uaddr2
                    (bytes_of 4 new_val)).1
              let another = compares o.cmp old_val o.cmparg
              woke ← wake_both rounds self uaddr1 uaddr2 num_to_wake1 num_to_wake2 another s
              done (woke.0, m', woke.1)
          ]
        ]
      ]
    ]
