-- ===== src/Threads/Segments.antt =====
-- What set_thread_area of vmill/Runtime/Linux/Thread.cpp does with a descriptor.
use vmill.Prelude.{
  ==_iff, ℕ, ◌-◌, ◌≤◌, ◌==◌, inl, inr, ◌≡◌, ◌≢◌, refl, sym, ap, ◌∙◌, subst, Bool-cases, true, false,
  some, List, if◌then◌else◌, update, update_self, arith,
}
use vmill.Replies.{returns}
use vmill.Futex.Operators.{Guest, can_write_word}
use vmill.Calls.{Segment, fs, gs, State, set_return, try_read_bytes}
use vmill.Threads.{
  Machine, UserDesc, reply, check_desc, do_set_thread_area, install_anywhere, install_desc,
  with_bases, with_dword, free_index, takes_index, is_refused, desc_of, any_index, min_index,
  max_index, try_write_word,
}

-- Of the three indices, FS and GS have at most two.
free_index_lem :
    (st : State)
    → (i : ℕ) × (free_index st ≡ some i)
      × (min_index ≤ i)
      × (i ≤ max_index)
      × (st.segment fs ≢ i)
      × (st.segment gs ≢ i)
free_index_lem st = elim (Bool-cases (takes_index st 12)) [
  | inr a ↦ (12, rw a refl, omega arith, omega arith, ground (arith, a), ground (arith, a))
  | inl a ↦ elim (Bool-cases (takes_index st 13)) [
    | inr b ↦ (13, rw (a, b) refl, omega arith, omega arith, ground (arith, b), ground (arith, b))
    | inl b ↦ (
      14,
      ground (arith, a, b),
      omega arith,
      omega arith,
      ground (arith, a, b),
      ground (arith, a, b),
    )
  ]
]

changed_twice :
    {A : Type 0} (f : ℕ → A) (k : ℕ) (x : A) (F : A → A)
    → update (update f k x) k (F (update f k x k)) k ≡ F x
changed_twice f k x F = ground arith

module _ {M : Type 0} (g : Guest M) where
  -- `info` is in the slot for its index of `self`, and is the base of the segments of `k` with that
  -- index.
  pub record IsInstalled (self k : ℕ) (info : UserDesc) (mc mc' : Machine M) : Type 0 where
    pub slot : mc'.tls_slots self (info.entry_number - min_index) ≡ info
    pub bases :
        (s : Segment)
        → (mc'.state k).base s ≡ (
            if (mc.state k).segment s == info.entry_number
            then with_dword ((mc.state k).base s) info.base_addr
            else (mc.state k).base s)
    pub other_slots : (j : ℕ) → j ≢ self → mc'.tls_slots j ≡ mc.tls_slots j
    pub succeeds : (mc'.state k).rax ≡ 0
    pub tasks : mc'.system ≡ mc.system

  pub install_desc-IsInstalled :
      (self k : ℕ) (info : UserDesc) (mc : Machine M)
      → IsInstalled self k info mc (install_desc g self k info mc)
  unfolding install_desc reply set_return with_bases
  install_desc-IsInstalled self k info mc = record {
    slot =
        ap (λ f. f (info.entry_number - min_index))
          (update_self mc.tls_slots self
            (update (mc.tls_slots self) (info.entry_number - min_index) info))
        ∙ update_self (mc.tls_slots self) (info.entry_number - min_index) info;
    bases = λ s.
        ap (λ st. st.base s)
          (changed_twice mc.state k (with_bases info.entry_number info.base_addr (mc.state k))
            (set_return g.width (returns 0)));
    other_slots = λ j ne. ground arith;
    succeeds = ground arith;
    tasks = refl;
  }

  writes_word :
      (m : M) (addr v : ℕ) → can_write_word g m addr ≡ true → (try_write_word g m addr v).0 ≡ true
  writes_word m addr v room = rw room refl

  installs :
      (self k addr i : ℕ) (d : UserDesc) (mc : Machine M)
      → is_refused d ≡ false
      → d.entry_number ≡ any_index
      → free_index (mc.state k) ≡ some i
      → can_write_word g mc.memory addr ≡ true
      → check_desc g self k addr d mc
        ≡ install_desc g self k
            (record d { entry_number = i })
            (record mc { memory = (try_write_word g mc.memory addr i).1 })
  unfolding check_desc install_anywhere
  installs self k addr i d mc fine any found room =
      rw
        (
          fine,
          (==_iff d.entry_number any_index).1 any,
          install_anywhere,
          found,
          writes_word mc.memory addr i room,
        )
        refl

  -- set_thread_area of a readable and valid descriptor that asks for any index, with the index
  -- writable, always finds one: it is in the range, is that of neither FS nor GS, is written back
  -- to the descriptor, and the descriptor is installed under it.
  pub do_set_thread_area-IsInstalled :
      (self k addr : ℕ) (bytes : List ℕ) (mc : Machine M)
      → try_read_bytes g mc.memory addr 16 ≡ some bytes
      → is_refused (desc_of bytes) ≡ false
      → (desc_of bytes).entry_number ≡ any_index
      → can_write_word g mc.memory addr ≡ true
      → (i : ℕ) × (min_index ≤ i)
        × (i ≤ max_index)
        × ((mc.state k).segment fs ≢ i)
        × ((mc.state k).segment gs ≢ i)
        × ((do_set_thread_area g self k addr mc).memory ≡ (try_write_word g mc.memory addr i).1)
        × IsInstalled self k
            (record (desc_of bytes) { entry_number = i })
            mc
            (do_set_thread_area g self k addr mc)
  unfolding do_set_thread_area install_desc reply
  do_set_thread_area-IsInstalled self k addr bytes mc read fine any room =
      let (i, found, lo, hi, not_fs, not_gs) = free_index_lem (mc.state k) in
      let info : UserDesc = record (desc_of bytes) { entry_number = i } in
      let mc1 : Machine M = record mc { memory = (try_write_word g mc.memory addr i).1 } in
      let there = install_desc-IsInstalled self k info mc1 in
      let same : do_set_thread_area g self k addr mc ≡ install_desc g self k info mc1 =
        rw (do_set_thread_area, read) refl
        ∙ installs self k addr i (desc_of bytes) mc fine any found room in
      (
        i,
        lo,
        hi,
        not_fs,
        not_gs,
        ap Machine.memory same,
        subst (λ x. IsInstalled self k info mc x) (sym same)
            (record {
              slot = there.slot;
              bases = there.bases;
              other_slots = there.other_slots;
              succeeds = there.succeeds;
              tasks = there.tasks;
            }),
      )
