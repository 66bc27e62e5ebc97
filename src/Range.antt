-- ===== src/Range.antt =====
-- vmill/Program/MappedRange.h and MappedRange.cpp: the memory ranges behind an address space.
-- The ranges are shared, and change their class in place (`new (this) ...`), so they live in an
-- explicit store: a MemoryMapPtr is a key of the store, and a class is a constructor of `Body`.
pub mod Duplicates
pub mod Frame
pub mod Changes
pub mod Clone
pub mod Bytes
pub mod Copies
mod Tests
use vmill.Prelude.{
  ℕ, zero, suc, ◌+◌, ◌-◌, ◌*◌, ◌/◌, ◌<◌, Bool, true, false, ◌&&◌, Option, none, some, List, [], ltb,
  leb, ◌==◌, if◌then◌else◌, update, take, add64, sub64, page_size, Outcome, done, undefined, ◌>>=◌,
  ◌>>◌, check,
}

-- InvalidMemoryMap, EmptyMemoryMap, ArrayMemoryMap with its bytes by index, and
-- CopyOnWriteMemoryMap with its parent.
pub data Body : Type 0 where
  invalid empty : Body
  array : (ℕ → ℕ) → Body
  copy_on_write : ℕ → Body

pub record MappedRange : Type 0 where
  pub base_address : ℕ
  pub limit_address : ℕ
  pub name : List ℕ
  pub offset : ℕ
  pub code_version : ℕ
  pub code_version_is_valid : Bool
  pub body : Body

-- The heap of ranges; `next` is the key that the next make_shared takes.
pub record Store : Type 0 where
  pub object : ℕ → Option MappedRange
  pub next : ℕ

-- What a virtual address of the host points at: nothing, the static kZeroes, or a byte of an array.
pub data Pointer : Type 0 where
  null zeroes : Pointer
  byte_of : ℕ → ℕ → Pointer

-- What MappedRange::ToReadWriteVirtualAddress and ToReadOnlyVirtualAddress return, which only
-- InvalidMemoryMap does not override.
abbrev pub no_address : Pointer
no_address = null

-- A dangling key is a use after free.
abbrev or_undefined : Option MappedRange → Outcome MappedRange
or_undefined none = undefined
or_undefined (some r) = done r

abbrev pub fetch : Store → ℕ → Outcome MappedRange
fetch s p = or_undefined (s.object p)

abbrev pub put : Store → ℕ → MappedRange → Store
put s p r = record s { object = update s.object p (some r) }

abbrev pub make_shared : Store → MappedRange → ℕ × Store
make_shared s r = (s.next, record { object = update s.object s.next (some r); next = suc s.next })

abbrev pub size : MappedRange → ℕ
size r = sub64 r.limit_address r.base_address

abbrev pub contains : MappedRange → ℕ → Bool
contains r a = leb r.base_address a && ltb a r.limit_address

-- strncpy into name[256], ended by a zero; a null name is the empty one.
abbrev pub copy_name : Option (List ℕ) → List ℕ
copy_name none = []
copy_name (some s) = take 255 s

-- The constructor of MappedRangeBase.
abbrev pub new_range : ℕ → ℕ → Option (List ℕ) → ℕ → Body → MappedRange
new_range base limit name offset body = record {
  base_address = base;
  limit_address = limit;
  name = copy_name name;
  offset = offset;
  code_version = 0;
  code_version_is_valid = false;
  body = body;
}

-- The constructor of ArrayMemoryMap: the size must be whole pages; the allocator gives zeroes.
abbrev pub new_array : ℕ → ℕ → Option (List ℕ) → ℕ → Outcome MappedRange
new_array base limit name offset = do
  check (sub64 limit base == sub64 limit base / page_size * page_size)
  done (new_range base limit name offset (array (λ _. 0)))

-- The constructor of CopyOnWriteMemoryMap follows the parents to the last one, so a chain is two
-- ranges long, and `chain` rounds are enough.
abbrev pub chain : ℕ
chain = 2

abbrev pub root_of : ℕ → Store → ℕ → Outcome ℕ
root_of zero s p = undefined
root_of (suc d) s p = do r ← fetch s p; elim r.body [ copy_on_write q ↦ root_of d s q | _ ↦ done p ]

abbrev pub new_copy_on_write : Store → ℕ → Outcome MappedRange
new_copy_on_write s parent = do
  r ← fetch s parent
  root ← root_of chain s parent
  done (new_range r.base_address r.limit_address (some r.name) r.offset (copy_on_write root))

unfoldable pub create : Store → ℕ → ℕ → Option (List ℕ) → ℕ → ℕ × Store
create s base limit name offset = make_shared s (new_range base limit name offset empty)

unfoldable pub create_invalid : Store → ℕ → ℕ → ℕ × Store
create_invalid s base limit = make_shared s (new_range base limit (some []) 0 invalid)

is_valid_within : ℕ → Store → ℕ → Outcome Bool
is_valid_within zero s p = undefined
is_valid_within (suc d) s p = do
  r ← fetch s p
  elim r.body [ invalid ↦ done false | copy_on_write q ↦ is_valid_within d s q | _ ↦ done true ]

unfoldable pub is_valid : Store → ℕ → Outcome Bool
unfolding is_valid_within
is_valid = is_valid_within chain

-- A read or write through an index past the end of the allocation is undefined.
abbrev pub in_array {ℓ} : {A : Type ℓ} → MappedRange → ℕ → A → Outcome A
in_array r i a = if ltb i (size r) then done a else undefined

-- The result and the byte that is put into `*out_val`.
unfoldable pub read_within : ℕ → Store → ℕ → ℕ → Outcome (Bool × ℕ)
read_within zero s p a = undefined
read_within (suc d) s p a = do
  r ← fetch s p
  elim r.body [
    | invalid ↦ done (false, 0)
    | empty ↦ done (true, 0)
    | array bytes ↦ let i = sub64 a r.base_address in in_array r i (true, bytes i)
    | copy_on_write q ↦ read_within d s q a
  ]

unfoldable pub read : Store → ℕ → ℕ → Outcome (Bool × ℕ)
unfolding read_within
read = read_within chain

-- `for (; base_addr < limit_addr; ++base_addr, ++index) parent_ptr->Read(base_addr, &data[index])`
pub copy_bytes : (ℕ → Outcome (Bool × ℕ)) → ℕ → ℕ → ℕ → (ℕ → ℕ) → Outcome (ℕ → ℕ)
copy_bytes get zero a i bytes = done bytes
copy_bytes get (suc n) a i bytes = do
  v ← get a
  copy_bytes get n (a + 1) (i + 1) (update bytes i v.1)

-- The range turns itself into an array first, if it is empty or copy-on-write.
unfoldable pub to_read_write_virtual_address : Store → ℕ → ℕ → Outcome (Pointer × Store)
unfolding copy_bytes read
to_read_write_virtual_address s p a = do
  r ← fetch s p
  let at = byte_of p (sub64 a r.base_address)
  elim r.body [
    | invalid ↦ done (no_address, s)
    | empty ↦ do
      self ← new_array r.base_address r.limit_address (some r.name) r.offset
      done (at, put s p self)
    | array bytes ↦ done (at, s)
    | copy_on_write q ↦ do
      parent ← fetch s q
      self ← new_array r.base_address r.limit_address (some parent.name) r.offset
      bytes ← copy_bytes (read s q) (r.limit_address - r.base_address) r.base_address 0 (λ _. 0)
      done (at, put s p (record self { body = array bytes }))
  ]

to_read_only_within : ℕ → Store → ℕ → ℕ → Outcome Pointer
to_read_only_within zero s p a = undefined
to_read_only_within (suc d) s p a = do
  r ← fetch s p
  elim r.body [
    | invalid ↦ done no_address
    | empty ↦ done zeroes
    | array bytes ↦ done (byte_of p (sub64 a r.base_address))
    | copy_on_write q ↦ to_read_only_within d s q a
  ]

unfoldable pub to_read_only_virtual_address : Store → ℕ → ℕ → Outcome Pointer
unfolding to_read_only_within
to_read_only_virtual_address = to_read_only_within chain

-- `*ptr = val` for one byte.
unfoldable pub store_byte : Store → Pointer → ℕ → Outcome Store
store_byte s null v = undefined
store_byte s zeroes v = undefined
store_byte s (byte_of p i) v = do
  r ← fetch s p
  elim r.body [
    | array bytes ↦ in_array r i (put s p (record r { body = array (update bytes i v) }))
    | _ ↦ undefined
  ]

unfoldable pub write : Store → ℕ → ℕ → ℕ → Outcome (Bool × Store)
write s p a v = do
  r ← fetch s p
  elim r.body [
    | invalid ↦ done (false, s)
    | _ ↦ do
      target ← to_read_write_virtual_address s p a
      s' ← store_byte target.1 target.0 v
      done (true, s')
  ]
