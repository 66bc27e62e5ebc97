-- ===== src/Mapped/Loading.antt =====
-- Reading a file into a new mapping ends.
use vmill.Prelude.{
  ℕ, zero, suc, ◌+◌, ◌-◌, ◌%◌, ◌≡◌, ◌≤◌, ◌⊎◌, inl, inr, refl, Bool, leb, true, Bool-cases, Option,
  none, some, length, List, [], ◌∷◌, ◌==◌, arith, done,
}
use vmill.Space.{min}
use vmill.Transfers.{copy_to_memory}
use vmill.Mapped.{Mapper, HostFiles, addr_mod}
use vmill.Mapped.Mmap.{copy_in, load_file, io_buffer_size}

read_cases :
    (x : ℕ ⊎ List ℕ)
    → ((e : ℕ) × (x ≡ inl e)) ⊎ ((x ≡ inr []) ⊎ ((v : ℕ) × (vs : List ℕ) × (x ≡ inr (v ∷ vs))))
read_cases (inl e) = inl (e, refl)
read_cases (inr []) = inr (inl refl)
read_cases (inr (v ∷ vs)) = inr (inr (v, vs, refl))

module _ {M H : Type 0} (g : Mapper M) (f : HostFiles H) (wide : Bool)
    (writes : (m : M) (a v : ℕ) → (m' : M) × (g.write_byte m a v ≡ done m')) where
  copy_in_succeeds :
      (m : M) (addr : ℕ) (bytes : List ℕ) → (m' : M) × (copy_in g f wide m addr bytes ≡ done m')
  unfolding copy_to_memory
  copy_in_succeeds m addr [] = (m, refl)
  copy_in_succeeds m addr (v ∷ vs) =
      let (m1, wrote) = writes m addr v in
      let (m', rest) = copy_in_succeeds m1 ((addr + 1) % addr_mod wide) vs in (m', rw wrote rest)

  -- If a byte can be written at each address, and the host reads at most as many bytes as it is asked
  -- for, then the loop that reads a file into memory ends, with as many rounds as there are bytes.
  pub load_file_ends :
      (reads : (h : H) (fd count : ℕ) (bytes : List ℕ)
        → (f.read_file h fd count).0 ≡ inr bytes
        → length bytes ≤ count)
      → (rounds : ℕ) (m : M) (h : H) (fd addr i remaining : ℕ) → remaining ≤ rounds
      → (r : Option ℕ × M × H) × (load_file g f wide rounds m h fd addr i remaining ≡ done r)
  unfolding load_file
  load_file_ends reads zero m h fd addr i remaining le = ((none, m, h), ground arith)
  load_file_ends reads (suc rounds) m h fd addr i remaining le =
      let got = f.read_file h fd (min remaining io_buffer_size) in
      elim (Bool-cases (remaining == 0)) [
        | inl all ↦ ((none, m, h), rw all refl)
        | inr more ↦ elim (read_cases got.0) [
          | inl (e, failed) ↦ ((some e, m, got.1), rw (more, failed) refl)
          | inr (inl end) ↦ ((none, m, got.1), rw (more, end) refl)
          | inr (inr (v, vs, some_bytes)) ↦
              let (m1, copied) = copy_in_succeeds m ((addr + i) % addr_mod wide) (v ∷ vs) in
              let (r, rest) =
                load_file_ends reads rounds m1 got.1 fd addr (i + length (v ∷ vs))
                  (remaining - length (v ∷ vs)) (omega arith) in
              let fits : leb (length (v ∷ vs)) (min remaining io_buffer_size) ≡ true =
                ground (arith, reads h fd (min remaining io_buffer_size) (v ∷ vs) some_bytes) in
              (r, rw (more, some_bytes, fits, copied) rest)
        ]
      ]
