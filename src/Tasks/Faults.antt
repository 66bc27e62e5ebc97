-- ===== src/Tasks/Faults.antt =====
-- vmill/Executor/Runtime.cpp: what the running task remembers of its faults and of where it stopped.
use vmill.Prelude.{
  ℕ, ◌≡◌, refl, Bool, true, false, Option, none, some, List, [], ◌∷◌, Outcome, done, ◌>>=◌,
  check_failed, undefined, if◌then◌else◌, ◌⊎◌, inl, inr,
}
use vmill.Tasks.{
  LinuxTask, TaskStatus, status_error, status_exited, TaskStopLocation, stopped_at_error,
  stopped_before_unhandled_hyper_call, stopped_at_unsupported_instruction, stopped_at_exit,
  stopped_at_return_target, MemoryAccessFaultKind, no_fault, fault_on_read, fault_on_write,
  fault_on_execute, MemoryValueType, MemAccessFault,
}

abbrev pub is_no_fault : MemoryAccessFaultKind → Bool
is_no_fault no_fault = true
is_no_fault fault_on_read = false
is_no_fault fault_on_write = false
is_no_fault fault_on_execute = false

-- __vmill_record_read_fault_* and __vmill_record_write_fault_*, for gTask, which may be null.
unfoldable pub record_fault :
    MemoryAccessFaultKind → MemoryValueType → ℕ → ℕ → Option LinuxTask → Option LinuxTask
record_fault kind value_type access_size addr none = none
record_fault kind value_type access_size addr (some t) =
    some (elim (is_no_fault (t.mem_access_fault).kind) [
      | true ↦ record t {
        status = status_error;
        status_on_resume = status_error;
        mem_access_fault = record {
          address = addr;
          access_size = access_size;
          kind = kind;
          value_type = value_type;
        };
      }
      | false ↦ t
    ])

-- __remill_read_memory_*: `try_read` is TryRead of the address space, with the state after it.
unfoldable pub read_memory :
    {M : Type 0}
    → (M → ℕ → Outcome (Option ℕ × M))
    → MemoryValueType
    → ℕ
    → M
    → ℕ
    → Option LinuxTask
    → Outcome (ℕ × M × Option LinuxTask)
read_memory try_read value_type size m addr t = do
  got ← try_read m addr
  done (elim got.0 [
    | some v ↦ (v, got.1, t)
    | none ↦ (0, got.1, record_fault fault_on_read value_type size addr t)
  ])

-- __remill_write_memory_*, with TryWrite.
unfoldable pub write_memory :
    {M : Type 0}
    → (M → ℕ → ℕ → Outcome (Bool × M))
    → MemoryValueType
    → ℕ
    → M
    → ℕ
    → ℕ
    → Option LinuxTask
    → Outcome (M × Option LinuxTask)
write_memory try_write value_type size m addr v t = do
  put ← try_write m addr v
  done (elim put.0 [
    | true ↦ (put.1, t)
    | false ↦ (put.1, record_fault fault_on_write value_type size addr t)
  ])

abbrev stopped : TaskStopLocation → TaskStatus → TaskStatus
stopped stopped_at_error s = status_error
stopped stopped_before_unhandled_hyper_call s = status_error
stopped stopped_at_unsupported_instruction s = status_error
stopped stopped_at_exit s = status_exited
stopped _ s = s

-- __vmill_set_location.
unfoldable pub set_location : ℕ → TaskStopLocation → LinuxTask → LinuxTask
set_location pc loc t = record t {
  pc = pc;
  location = loc;
  status = stopped loc t.status;
  status_on_resume = stopped loc t.status_on_resume;
}

-- __remill_error and __remill_function_return.
abbrev pub remill_error : ℕ → LinuxTask → LinuxTask
remill_error pc t = record t {
  pc = pc;
  location = stopped_at_error;
  status = status_error;
  status_on_resume = status_error;
}

abbrev pub remill_function_return : ℕ → LinuxTask → LinuxTask
remill_function_return pc t = record t { pc = pc; location = stopped_at_return_target }

-- An access of lifted code: the type and the size of the value, the address, and what is written.
pub data Access : Type 0 where
  reads : MemoryValueType → ℕ → ℕ → Access
  writes : MemoryValueType → ℕ → ℕ → ℕ → Access

abbrev fault_of : Access → MemAccessFault
fault_of (reads type_of size addr) = record {
  address = addr;
  access_size = size;
  kind = fault_on_read;
  value_type = type_of;
}
fault_of (writes type_of size addr v) = record {
  address = addr;
  access_size = size;
  kind = fault_on_write;
  value_type = type_of;
}

-- What a task without a fault is after some accesses of which this one is the first that failed.
abbrev pub after_first : Option Access → LinuxTask → LinuxTask
after_first none t = t
after_first (some a) t = record t {
  status = status_error;
  status_on_resume = status_error;
  mem_access_fault = fault_of a;
}

abbrev earlier : Option Access → Option Access → Option Access
earlier none a = a
earlier (some a) _ = some a

earlier-none : (a : Option Access) → earlier a none ≡ a
earlier-none none = refl
earlier-none (some a) = refl

earlier_assoc : (a b c : Option Access) → earlier (earlier a b) c ≡ earlier a (earlier b c)
earlier_assoc none b c = refl
earlier_assoc (some a) b c = refl

Outcome-cases {ℓ} :
    {A : Type ℓ} (x : Outcome A) → ((a : A) × (x ≡ done a)) ⊎ (x ≡ check_failed) ⊎ (x ≡ undefined)
Outcome-cases (done a) = inl (a, refl)
Outcome-cases check_failed = inr (inl refl)
Outcome-cases undefined = inr (inr refl)

module _ {M : Type 0} (try_read : M → ℕ → Outcome (Option ℕ × M))
    (try_write : M → ℕ → ℕ → Outcome (Bool × M)) where
  -- The intrinsic of an access; what is read is not looked at.
  unfoldable pub access : Access → M → Option LinuxTask → Outcome (M × Option LinuxTask)
  access (reads type_of size addr) m t = do
    r ← read_memory try_read type_of size m addr t
    done (r.1, r.2)
  access (writes type_of size addr v) m t = write_memory try_write type_of size m addr v t

  unfoldable pub accesses : List Access → M → Option LinuxTask → Outcome (M × Option LinuxTask)
  accesses [] m t = done (m, t)
  accesses (a ∷ as') m t = do r ← access a m t; accesses as' r.0 r.1

  -- TryRead or TryWrite of an access alone: whether it failed.
  abbrev tried : Access → M → Outcome (Option Access × M)
  tried (reads type_of size addr) m = do
    got ← try_read m addr
    done (elim got.0 [ some _ ↦ none | none ↦ some (reads type_of size addr) ], got.1)
  tried (writes type_of size addr v) m = do
    put ← try_write m addr v
    done (if put.0 then none else some (writes type_of size addr v), put.1)

  -- The memory after all of them, and the first one that failed.
  unfoldable pub first_failed : List Access → M → Outcome (M × Option Access)
  first_failed [] m = done (m, none)
  first_failed (a ∷ as') m = do
    r ← tried a m
    rest ← first_failed as' r.1
    done (rest.0, earlier r.0 rest.1)

  recorded :
      (a : Access) (failed : Option Access) (t : LinuxTask)
      → (t.mem_access_fault).kind ≡ no_fault
      → record_fault
          (fault_of a).kind
          (fault_of a).value_type
          (fault_of a).access_size
          (fault_of a).address
          (some (after_first failed t))
        ≡ some (after_first (earlier failed (some a)) t)
  unfolding record_fault
  recorded (reads _ _ _) none t clean = rw clean refl
  recorded (writes _ _ _ _) none t clean = rw clean refl
  recorded a (some (reads _ _ _)) t clean = refl
  recorded a (some (writes _ _ _ _)) t clean = refl

  abbrev marked : LinuxTask → Option Access → M × Option Access → M × Option LinuxTask
  marked t failed (m, later) = (m, some (after_first (earlier failed later) t))

  -- One access, of a task without a fault before `failed`.
  access_lem :
      (a : Access) (m : M) (t : LinuxTask) (failed : Option Access)
      → (t.mem_access_fault).kind ≡ no_fault
      → access a m (some (after_first failed t))
        ≡ (tried a m >>= λ r. done (r.1, some (after_first (earlier failed r.0) t)))
  unfolding access read_memory write_memory
  access_lem (reads type_of size addr) m t failed clean =
      let a = reads type_of size addr in
      elim (Outcome-cases (try_read m addr)) [
        | inl ((some v, m'), e) ↦ rw (e, earlier-none failed) refl
        | inl ((none, m'), e) ↦ rw (e, recorded a failed t clean) refl
        | inr (inl e) ↦ rw e refl
        | inr (inr e) ↦ rw e refl
      ]
  access_lem (writes type_of size addr v) m t failed clean =
      let a = writes type_of size addr v in
      elim (Outcome-cases (try_write m addr v)) [
        | inl ((true, m'), e) ↦ rw (e, earlier-none failed) refl
        | inl ((false, m'), e) ↦ rw (e, recorded a failed t clean) refl
        | inr (inl e) ↦ rw e refl
        | inr (inr e) ↦ rw e refl
      ]

  accesses_from :
      (as' : List Access) (m : M) (t : LinuxTask) (failed : Option Access)
      → (t.mem_access_fault).kind ≡ no_fault
      → accesses as' m (some (after_first failed t))
        ≡ (first_failed as' m >>= λ r. done (marked t failed r))
  unfolding accesses first_failed
  accesses_from [] m t failed clean = rw (earlier-none failed) refl
  accesses_from (a ∷ as') m t failed clean =
      rw (access_lem a m t failed clean) (elim (Outcome-cases (tried a m)) [
        | inl ((f, m'), e) ↦
            rw (e, accesses_from as' m' t (earlier failed f) clean)
              (elim (Outcome-cases (first_failed as' m')) [
                | inl ((m'', later), g) ↦ rw (g, earlier_assoc failed f later) refl
                | inr (inl g) ↦ rw g refl
                | inr (inr g) ↦ rw g refl
              ])
        | inr (inl e) ↦ rw e refl
        | inr (inr e) ↦ rw e refl
      ])

  -- Accesses of a task that had no fault leave memory as TryRead and TryWrite alone leave it. When they
  -- all succeed, the task is as it was; else it stops in error, also when it is resumed, and has
  -- the address, the size, the type and the kind of the first one that failed, whatever reads and writes
  -- follow.
  pub accesses-first_failed :
      (as' : List Access) (m : M) (t : LinuxTask)
      → (t.mem_access_fault).kind ≡ no_fault
      → accesses as' m (some t) ≡ (first_failed as' m >>= λ r. done (r.0, some (after_first r.1 t)))
  accesses-first_failed as' m t clean = accesses_from as' m t none clean
