-- ===== src/Mapped/Mmap.antt =====
-- The four system calls of vmill/Runtime/Linux/MM.cpp. A call gives the reply, and the states of guest
-- memory and of the host's files after it.
use vmill.Prelude.{
  ℕ, zero, suc, ◌+◌, ◌-◌, ◌*◌, ◌%◌, ◌^◌, Bool, not, ◌||◌, Option, none, some, length, List, [], ◌∷◌,
  ◌==◌, leb, true, false, if◌then◌else◌, ◌⊎◌, inl, inr, align_down_to_page, Outcome, done,
  undefined, ◌>>=◌,
}
use vmill.Space.{min}
use vmill.Transfers.{copy_to_memory}
use vmill.Replies.{Errno, efault, einval, enomem, of_host, Reply, returns, fails}
use vmill.Mapped.{
  addr_mod, align_to_next_page, mmap_min_addr, has, map_fixed, map_stack, is_negative_int, MmapArgs,
  check_file, check_flags, max_addr, fixed_address, Mapper, HostFiles,
}

-- "[stack]".
abbrev pub stack_name : List ℕ
stack_name = 91 ∷ 115 ∷ 116 ∷ 97 ∷ 99 ∷ 107 ∷ 93 ∷ []

abbrev pub io_buffer_size : ℕ
io_buffer_size = 16384

abbrev pub can_read_bit : ℕ → Bool
can_read_bit prot = has prot 1

abbrev pub can_write_bit : ℕ → Bool
can_write_bit prot = has prot 2

abbrev pub can_exec_bit : ℕ → Bool
can_exec_bit prot = has prot 4

abbrev pub size_or_refuse : Errno → ℕ → Errno ⊎ ℕ
size_or_refuse e size = if size == 0 then inl e else inr size

-- The calls with what TryGetArgs gives, and the scale of the offset of mmap.
pub data MemoryCall : Type 0 where
  brk : Option ℕ → MemoryCall
  mmap : ℕ → Option MmapArgs → MemoryCall
  munmap : Option (ℕ × ℕ) → MemoryCall
  mprotect : Option (ℕ × ℕ × ℕ) → MemoryCall

module _ {M H : Type 0} (g : Mapper M) (f : HostFiles H) (wide : Bool) where
  -- SysBrk.
  abbrev pub sys_brk : M → Option ℕ → Outcome (Reply × M)
  sys_brk m none = done (fails efault, m)
  sys_brk m (some addr) = done (fails enomem, m)

  -- The address of the new mapping: the fixed one, or one that is free.
  unfoldable pub choose_address : M → ℕ → ℕ → ℕ → Outcome (Errno ⊎ ℕ)
  choose_address m flags addr size =
      let search = do
        at ← g.find_unmapped_address m mmap_min_addr (max_addr wide flags) size
        done (size_or_refuse enomem (at % addr_mod wide))
      in if has flags map_fixed then done (fixed_address wide flags addr size) else search

  -- The tests before anything changes: the address, or why the call is refused.
  unfoldable pub place : M → MmapArgs → ℕ → Outcome (Errno ⊎ ℕ)
  place m a size =
      let flagged : Outcome (Errno ⊎ ℕ) = elim (check_flags a.fd a.flags) [
        | some e ↦ done (inl e)
        | none ↦ choose_address m a.flags a.addr size
      ] in
      if size == 0 then done (inl einval) else do
        file ← check_file wide a.fd a.offset size
        elim file [ some e ↦ done (inl e) | none ↦ flagged ]

  -- Seeking in the file: where it stood, or the number of an error. That the seek to the end of the
  -- mapping fails is not looked at.
  unfoldable pub seek_file : H → ℕ → ℕ → ℕ → (ℕ ⊎ ℕ) × H
  seek_file h fd offset size =
      let current = f.seek_current h fd in
      elim current.0 [
        | inl e ↦ (inl e, current.1)
        | inr old ↦
            let tried = f.seek_set current.1 fd (offset + size) in
            let sought = f.seek_set tried.1 fd offset in
            elim sought.0 [
              | inl e ↦ (inl e, (f.seek_set sought.1 fd old).1)
              | inr at ↦ (inr old, sought.1)
            ]
      ]

  -- CopyToMemory, byte by byte.
  abbrev pub copy_in : M → ℕ → List ℕ → Outcome M
  copy_in m addr bytes =
      copy_to_memory (λ (_ : Outcome M) _. 0)
        (λ (n : Outcome M) a v. n >>= λ (m' : M). g.write_byte m' a v) (addr_mod wide) (done m) addr
        bytes

  -- The loop that reads the file into the new mapping, and the error of a read that failed. A round
  -- that goes on copies a byte at least, so that `rounds` may be `remaining`. More bytes than the host
  -- was asked for would overrun the buffer.
  unfoldable pub load_file : ℕ → M → H → ℕ → ℕ → ℕ → ℕ → Outcome (Option ℕ × M × H)
  load_file zero m h fd addr i remaining = if remaining == 0 then done (none, m, h) else undefined
  load_file (suc rounds) m h fd addr i remaining = if remaining == 0 then done (none, m, h) else do
    let got = f.read_file h fd (min remaining io_buffer_size)
    elim got.0 [
      | inl e ↦ done (some e, m, got.1)
      | inr [] ↦ done (none, m, got.1)
      | inr (v ∷ vs) ↦ elim (leb (length (v ∷ vs)) (min remaining io_buffer_size)) [
        | false ↦ undefined
        | true ↦ do
          m' ← copy_in m ((addr + i) % addr_mod wide) (v ∷ vs)
          load_file rounds m' got.1 fd addr (i + length (v ∷ vs)) (remaining - length (v ∷ vs))
      ]
    ]

  -- The permissions that are not the default ones.
  unfoldable pub protect_new : M → ℕ → ℕ → ℕ → Outcome M
  protect_new m addr size prot =
      let r = can_read_bit prot in
      let w = can_write_bit prot in
      let x = can_exec_bit prot in
      if x || (not r || not w) then g.protect_memory m addr size r w x else done m

  abbrev pub name_of : ℕ → Option (List ℕ) → Option (List ℕ)
  name_of flags (some name) = some name
  name_of flags none = if has flags map_stack then some stack_name else none

  -- The rest of SysMmap without a file.
  unfoldable pub map_anonymously : M → H → MmapArgs → ℕ → ℕ → Outcome (Reply × M × H)
  map_anonymously m h a size addr = do
    m1 ← g.allocate_memory m addr size (name_of a.flags none) 0
    m2 ← protect_new m1 addr size a.prot
    done (returns addr, m2, h)

  -- The rest of SysMmap with a file.
  unfoldable pub map_file : M → H → MmapArgs → ℕ → ℕ → Outcome (Reply × M × H)
  map_file m h a size addr =
      let sought = seek_file h a.fd a.offset size in
      elim sought.0 [
        | inl e ↦ done (fails (of_host e), m, sought.1)
        | inr old ↦ do
          let name = name_of a.flags (f.base_path sought.1 a.fd)
          m1 ← g.allocate_memory m addr size name a.offset
          loaded ← load_file size m1 sought.1 a.fd addr 0 size
          let h' = (f.seek_set loaded.2 a.fd old).1
          elim loaded.0 [
            | some e ↦ do m2 ← g.free_memory loaded.1 addr size; done (fails (of_host e), m2, h')
            | none ↦ do m2 ← protect_new loaded.1 addr size a.prot; done (returns addr, m2, h')
          ]
      ]

  -- What follows the tests.
  unfoldable pub map_chosen : M → H → MmapArgs → ℕ → Errno ⊎ ℕ → Outcome (Reply × M × H)
  map_chosen m h a size (inl e) = done (fails e, m, h)
  map_chosen m h a size (inr addr) =
      if is_negative_int a.fd then map_anonymously m h a size addr else map_file m h a size addr

  -- SysMmap, on what TryGetArgs gives.
  unfoldable pub sys_mmap : ℕ → M → H → Option MmapArgs → Outcome (Reply × M × H)
  sys_mmap scale m h none = done (fails efault, m, h)
  sys_mmap scale m h (some given) =
      let size = align_to_next_page wide given.size in
      let a = record given { offset = given.offset * scale % 2 ^ 64 } in
      do chosen ← place m a size; map_chosen m h a size chosen

  -- SysMunmap.
  unfoldable pub sys_munmap : M → Option (ℕ × ℕ) → Outcome (Reply × M)
  sys_munmap m none = done (fails efault, m)
  sys_munmap m (some (addr, size_)) =
      let size = align_to_next_page wide size_ in
      let freed = (do m' ← g.free_memory m addr size; done (returns 0, m')) in
      if not (addr == align_down_to_page addr) || size == 0 then done (fails einval, m) else freed

  -- SysMprotect.
  unfoldable pub sys_mprotect : M → Option (ℕ × ℕ × ℕ) → Outcome (Reply × M)
  sys_mprotect m none = done (fails efault, m)
  sys_mprotect m (some (addr, size_, prot)) =
      let size = align_to_next_page wide size_ in
      let r = can_read_bit prot in
      let w = can_write_bit prot in
      let x = can_exec_bit prot in
      let protected = (do m' ← g.protect_memory m addr size r w x; done (returns 0, m')) in
      if size == 0 then done (fails einval, m) else protected

  -- Any of the calls.
  unfoldable pub run_memory_call : MemoryCall → M → H → Outcome (Reply × M × H)
  run_memory_call (brk args) m h = sys_brk m args >>= λ (x : Reply × M). done (x.0, x.1, h)
  run_memory_call (mmap scale args) m h = sys_mmap scale m h args
  run_memory_call (munmap args) m h = sys_munmap m args >>= λ (x : Reply × M). done (x.0, x.1, h)
  run_memory_call (mprotect args) m h =
      sys_mprotect m args >>= λ (x : Reply × M). done (x.0, x.1, h)
