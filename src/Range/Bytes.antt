-- ===== src/Range/Bytes.antt =====
-- A range that is written to turns itself into an array with the bytes that it read as before.
pub mod Writing
use vmill.Prelude.{
  ℕ, zero, suc, ◌+◌, ◌-◌, ◌%◌, ◌≤◌, ◌<◌, ◌≡◌, ◌≢◌, ◌⊎◌, inl, inr, refl, sym, ◌∙◌, ap, Bool, true,
  some, update, arith, word_mod, page_size, sub64, Outcome, done, ◌>>=◌, update_self, Option, List,
  ltb, lt→ltb, ◌==◌, ==_iff, ◌/◌, ◌*◌, ℕ_discrete,
}
use vmill.Range.{
  Body, invalid, empty, array, copy_on_write, MappedRange, Store, Pointer, byte_of, put, read,
  copy_bytes, in_array, new_array, size, new_range, to_read_write_virtual_address,
}
use vmill.Range.Frame.{
  IsParent, IsValid, IsNoParent, Agrees, Body-cases, read-empty, read-array, read-copy_on_write,
}
use vmill.Range.Changes.{put-Agrees, put-IsValid}

-- The addresses of a range: whole pages, below 2 ^ 64.
pub record IsPaged (r : MappedRange) : Type 0 where
  pub ordered : r.base_address ≤ r.limit_address
  pub below : r.limit_address < word_mod
  pub whole : (r.limit_address - r.base_address) % page_size ≡ 0

-- The loop that fills a new array stores the bytes that it is given, and nothing below them.
pub copy_bytes_lem :
    (get : ℕ → Outcome (Bool × ℕ)) (val : ℕ → ℕ) (n a i : ℕ) (bytes : ℕ → ℕ)
    → ((j : ℕ) → j < n → get (a + j) ≡ done (true, val j))
    → (out : ℕ → ℕ) × (copy_bytes get n a i bytes ≡ done out)
      × ((j : ℕ) → j < n → out (i + j) ≡ val j)
      × ((k : ℕ) → k < i → out k ≡ bytes k)
unfolding copy_bytes
copy_bytes_lem get val zero a i bytes h = (bytes, refl, λ j lt. elim lt [ ], λ k lt. refl)
copy_bytes_lem get val (suc n) a i bytes h =
    let next =
      copy_bytes_lem get (λ j. val (suc j)) n (a + 1) (i + 1) (update bytes i (val 0))
        (λ j lt. ap get (omega arith) ∙ h (suc j) (omega arith)) in
    let first : get a ≡ done (true, val 0) = ap get (omega arith) ∙ h 0 (omega arith) in
    (
      next.0,
      rw first next.1,
      stored next.0 next.2 next.3,
      λ k lt. next.3 k (omega arith) ∙ ground arith,
    )
  where
    stored :
        (out : ℕ → ℕ)
        → ((j : ℕ) → j < n → out (i + 1 + j) ≡ val (suc j))
        → ((k : ℕ) → k < i + 1 → out k ≡ update bytes i (val 0) k)
        → (j : ℕ) → j < suc n
        → out (i + j) ≡ val j
    stored out above below zero lt =
        ap out (omega arith) ∙ below i (omega arith) ∙ update_self bytes i (val 0)
    stored out above below (suc j) lt = ap out (omega arith) ∙ above j (omega arith)

-- Inside the range an index neither wraps nor runs past the end.
pub in_array_inside {ℓ} :
    {A : Type ℓ} (r : MappedRange) (x : ℕ → A) (b : ℕ)
    → IsPaged r
    → r.base_address ≤ b
    → b < r.limit_address
    → in_array r (sub64 b r.base_address) (x (sub64 b r.base_address))
      ≡ done (x (b - r.base_address))
in_array_inside r x b paged lo hi =
    let offset : sub64 b r.base_address ≡ b - r.base_address = omega (arith, paged.below) in
    let inside : ltb (b - r.base_address) (size r) ≡ true =
      lt→ltb _ _ (omega (arith, paged.below, paged.ordered)) in
    rw offset (rw inside)

pub new_array_paged :
    (r : MappedRange) (name : Option (List ℕ))
    → IsPaged r
    → new_array r.base_address r.limit_address name r.offset
      ≡ done (new_range r.base_address r.limit_address name r.offset (array (λ _. 0)))
new_array_paged r name paged =
    let whole : (size r == size r / page_size * page_size) ≡ true =
      (==_iff _ _).1 (omega (arith, paged.below, paged.ordered, paged.whole)) in
    rw whole

-- The range `p` of `s1` is an array that reads as the range `p` of `s` did.
pub record IsArrayOf (s : Store) (p : ℕ) (r : MappedRange) (s1 : Store) : Type 0 where
  pub self : MappedRange
  pub bytes : ℕ → ℕ
  pub present : s1.object p ≡ some self
  pub is_array : self.body ≡ array bytes
  pub same_base : self.base_address ≡ r.base_address
  pub same_limit : self.limit_address ≡ r.limit_address
  pub same_bytes :
      (b : ℕ)
      → r.base_address ≤ b
      → b < r.limit_address
      → read s p b ≡ done (true, bytes (b - r.base_address))
  pub agrees : Agrees s s1 p
  pub still_valid : IsValid s1
  pub alone : IsNoParent s1 p

module _ (s : Store) (p : ℕ) (r : MappedRange) (v : IsValid s) (alone : IsNoParent s p)
    (e : s.object p ≡ some r) (paged : IsPaged r) where
  -- The array `t` put in place of the range.
  placed :
      (t : MappedRange) (bytes : ℕ → ℕ)
      → t.body ≡ array bytes
      → t.base_address ≡ r.base_address
      → t.limit_address ≡ r.limit_address
      → ((b : ℕ)
          → r.base_address ≤ b
          → b < r.limit_address
          → read s p b ≡ done (true, bytes (b - r.base_address)))
      → IsArrayOf s p r (put s p t)
  placed t bytes b same_base same_limit same_bytes = record {
    self = t;
    bytes = bytes;
    present = ground arith;
    is_array = b;
    same_base = same_base;
    same_limit = same_limit;
    same_bytes = same_bytes;
    agrees = put-Agrees s p r v e t;
    still_valid = put-IsValid s p r v e t alone (λ q h. cc);
    alone = λ k o f h. ground (arith, alone k o);
  }

  abbrev pub ToArray : (a : ℕ) → Type 0
  ToArray a =
      (s1 : Store) × (to_read_write_virtual_address s p a
        ≡ done (byte_of p (sub64 a r.base_address), s1))
      × IsArrayOf s p r s1

  pub ToArray-empty : r.body ≡ empty → (a : ℕ) → ToArray a
  unfolding to_read_write_virtual_address
  ToArray-empty b a = (
    put s p (new_range r.base_address r.limit_address (some r.name) r.offset (array (λ _. 0))),
    ground arith,
    placed _ (λ _. 0) refl refl refl (λ c lo hi. read-empty s p r c e b),
  )

  pub ToArray-array : (bytes : ℕ → ℕ) → r.body ≡ array bytes → (a : ℕ) → ToArray a
  unfolding to_read_write_virtual_address
  ToArray-array bytes b a = (
    s,
    ground arith,
    record {
      self = r;
      bytes = bytes;
      present = e;
      is_array = b;
      same_base = refl;
      same_limit = refl;
      same_bytes = λ c lo hi.
          read-array s p r bytes c e b ∙ in_array_inside r (λ i. (true, bytes i)) c paged lo hi;
      agrees = λ k o f ne. f;
      still_valid = v;
      alone = alone;
    },
  )

  parent_read :
      (q : ℕ) (w : IsParent s r q) (c : ℕ)
      → r.base_address ≤ c
      → c < r.limit_address
      → read s q c ≡ done (true, w.bytes (c - r.base_address))
  parent_read q w c lo hi =
      read-array s q w.root w.bytes c w.present w.is_array
      ∙ rw (w.same_base, w.same_limit) (in_array_inside r (λ i. (true, w.bytes i)) c paged lo hi)

  pub ToArray-copy_on_write : (q : ℕ) → r.body ≡ copy_on_write q → (a : ℕ) → ToArray a
  unfolding to_read_write_virtual_address
  ToArray-copy_on_write q b a =
      let w = v.parents p r q e b in
      let get : (j : ℕ)
          → j < r.limit_address - r.base_address
          → read s q (r.base_address + j) ≡ done (true, w.bytes j) =
        λ j lt.
          parent_read q w (r.base_address + j) (omega arith) (omega arith)
          ∙ ap (λ i. done (true, w.bytes i)) (omega arith) in
      let copied =
        copy_bytes_lem (read s q) w.bytes (r.limit_address - r.base_address) r.base_address 0
          (λ _. 0) get in
      (
        put s p (
            new_range r.base_address r.limit_address (some (w.root).name) r.offset
              (array copied.0)),
        ground (arith, w.present, new_array_paged r (some (w.root).name) paged, copied.1),
        placed _ copied.0 refl refl refl (λ c lo hi.
            read-copy_on_write s p r q c w e b
            ∙ in_array_inside r (λ i. (true, w.bytes i)) c paged lo hi
            ∙ ap (λ i. done (true, i))
                (sym (copied.2 (c - r.base_address) (omega arith)) ∙ ap copied.0 (omega arith))),
      )
