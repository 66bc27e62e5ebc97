-- ===== src/Range/Bytes/Writing.antt =====
-- Write followed by Read, on every class of range.
use vmill.Prelude.{
  ℕ, ◌-◌, ◌≤◌, ◌<◌, ◌≡◌, ◌≢◌, inl, inr, refl, sym, ◌∙◌, ap, true, some, update, update_self,
  update_ne, arith, sub64, done,
}
use vmill.Range.{
  invalid, array, MappedRange, Store, byte_of, put, read, write, store_byte, in_array,
}
use vmill.Range.Frame.{IsValid, IsNoParent, Body-cases, read-array, read-Agrees}
use vmill.Range.Changes.{put-Agrees, put-IsValid}
use vmill.Range.Bytes.{
  IsPaged, IsArrayOf, in_array_inside, ToArray, ToArray-empty, ToArray-array, ToArray-copy_on_write,
}

-- What a write of `x` at `a` changes: the byte there, and nothing else.
pub record IsWrite (s : Store) (p : ℕ) (r : MappedRange) (a x : ℕ) (s' : Store) : Type 0 where
  pub written : read s' p a ≡ done (true, x)
  pub rest : (b : ℕ) → r.base_address ≤ b → b < r.limit_address → b ≢ a → read s' p b ≡ read s p b
  pub others : (k b : ℕ) (o : MappedRange) → s.object k ≡ some o → k ≢ p → read s' k b ≡ read s k b
  pub still_valid : IsValid s'

store_byte-array :
    (s : Store) (p i x : ℕ) (t : MappedRange) (bytes : ℕ → ℕ)
    → s.object p ≡ some t
    → t.body ≡ array bytes
    → store_byte s (byte_of p i) x
      ≡ in_array t i (put s p (record t { body = array (update bytes i x) }))
unfolding store_byte
store_byte-array s p i x t bytes e b = ground arith

module _ (s : Store) (p : ℕ) (r : MappedRange) (v : IsValid s) (alone : IsNoParent s p)
    (e : s.object p ≡ some r) (paged : IsPaged r) (a x : ℕ) (lo : r.base_address ≤ a)
    (hi : a < r.limit_address) where
  -- The store with the byte put into the array that the range has become.
  stored : (s1 : Store) → IsArrayOf s p r s1 → Store
  stored s1 w = put s1 p (record (w.self) { body = array (update w.bytes (a - r.base_address) x) })

  same_pages : (s1 : Store) (w : IsArrayOf s p r s1) → IsPaged w.self
  same_pages s1 w = record {
    ordered = omega (arith, w.same_base, w.same_limit, paged.ordered);
    below = omega (arith, w.same_limit, paged.below);
    whole = rw (w.same_base, w.same_limit) (paged.whole);
  }

  store_byte_lem :
      (s1 : Store) (w : IsArrayOf s p r s1)
      → store_byte s1 (byte_of p (sub64 a r.base_address)) x ≡ done (stored s1 w)
  unfolding stored
  store_byte_lem s1 w =
      store_byte-array s1 p (sub64 a r.base_address) x w.self w.bytes w.present w.is_array
      ∙ rw (← w.same_base) (
          in_array_inside w.self
            (λ i. put s1 p (record (w.self) { body = array (update w.bytes i x) })) a
            (same_pages s1 w) (omega (arith, w.same_base)) (omega (arith, w.same_limit)))

  read-stored :
      (s1 : Store) (w : IsArrayOf s p r s1) (b : ℕ)
      → r.base_address ≤ b
      → b < r.limit_address
      → read (stored s1 w) p b
        ≡ done (true, update w.bytes (a - r.base_address) x (b - r.base_address))
  unfolding stored
  read-stored s1 w b blo bhi =
      let self' = record (w.self) { body = array (update w.bytes (a - r.base_address) x) } in
      read-array (stored s1 w) p self' _ b (ground arith) refl
      ∙ rw (← w.same_base) (
          in_array_inside w.self (λ i. (true, update w.bytes (a - (w.self).base_address) x i)) b
            (same_pages s1 w) (omega (arith, w.same_base)) (omega (arith, w.same_limit)))

  stored-IsWrite : (s1 : Store) (w : IsArrayOf s p r s1) → IsWrite s p r a x (stored s1 w)
  unfolding stored
  stored-IsWrite s1 w = record {
    written =
        read-stored s1 w a lo hi
        ∙ ap (λ y. done (true, y)) (update_self w.bytes (a - r.base_address) x);
    rest = λ b blo bhi ne.
        read-stored s1 w b blo bhi
        ∙ ap (λ y. done (true, y))
            (update_ne w.bytes (a - r.base_address) x (b - r.base_address)
              (λ h. ne (omega (arith, h))))
        ∙ sym (w.same_bytes b blo bhi);
    others = λ k b o f ne.
        read-Agrees s (stored s1 w) p k b o v alone
          (λ j t g ne'.
            put-Agrees s1 p w.self w.still_valid w.present _ j t (w.agrees j t g ne') ne')
          f ne;
    still_valid = put-IsValid s1 p w.self w.still_valid w.present _ w.alone (λ q h. cc);
  }

  Writes : Type 0
  Writes = (s' : Store) × (write s p a x ≡ done (true, s')) × IsWrite s p r a x s'

  write_through : r.body ≢ invalid → ToArray s p r v alone e paged a → Writes
  unfolding Writes write
  write_through ne (s1, pointed, w) =
      (stored s1 w, ground (arith, pointed, store_byte_lem s1 w, ne), stored-IsWrite s1 w)

  -- In a valid store, take a range of whole pages that is not invalid, is no copy-on-write range's
  -- parent, and has the address. A write there succeeds, and the range then reads there as the byte
  -- written, at its other addresses as before; every other range reads as before; and the store
  -- stays valid.
  pub write-IsWrite :
      r.body ≢ invalid → (s' : Store) × (write s p a x ≡ done (true, s')) × IsWrite s p r a x s'
  unfolding Writes
  write-IsWrite ne = elim (Body-cases r.body) [
    | inl b ↦ absurd (ne b)
    | inr (inl b) ↦ write_through ne (ToArray-empty s p r v alone e paged b a)
    | inr (inr (inl (bytes, b))) ↦ write_through ne (ToArray-array s p r v alone e paged bytes b a)
    | inr (inr (inr (q, b))) ↦ write_through ne (ToArray-copy_on_write s p r v alone e paged q b a)
  ]
