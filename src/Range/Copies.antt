-- ===== src/Range/Copies.antt =====
-- Copy of a part of a range.
use vmill.Prelude.{
  ℕ, zero, suc, ◌+◌, ◌-◌, ◌%◌, ◌≤◌, ◌<◌, ◌≡◌, ◌≢◌, inl, inr, refl, sym, ◌∙◌, ap, true, some, none,
  update, update_self, arith, page_size, sub64, add64, done, leb, lt→ltb,
}
use vmill.Range.{
  Body, invalid, empty, array, copy_on_write, MappedRange, Store, read, new_range, new_array,
}
use vmill.Range.Duplicates.{copy, copy_contained}
use vmill.Range.Frame.{IsValid, Body-cases, read-invalid, read-empty, read-array}
use vmill.Range.Changes.{added, added-Agrees, added_self, added-IsValid}
use vmill.Range.Bytes.{IsPaged, in_array_inside, new_array_paged}

le→leb : (a b : ℕ) → a ≤ b → leb a b ≡ true
le→leb a b h = ground arith

-- The loop of ArrayMemoryMap::Copy, inside the range that is copied.
copy_contained_lem :
    (r : MappedRange) (bytes : ℕ → ℕ) (n a i : ℕ) (out : ℕ → ℕ)
    → IsPaged r
    → r.base_address ≤ a
    → a + n ≤ r.limit_address
    → (out' : ℕ → ℕ) × (copy_contained r bytes n a i out ≡ done out')
      × ((j : ℕ) → j < n → out' (i + j) ≡ bytes (a + j - r.base_address))
      × ((k : ℕ) → k < i → out' k ≡ out k)
unfolding copy_contained
copy_contained_lem r bytes zero a i out paged lo hi = (out, refl, λ j lt. elim lt [ ], λ k lt. refl)
copy_contained_lem r bytes (suc n) a i out paged lo hi =
    let v = bytes (a - r.base_address) in
    let next =
      copy_contained_lem r bytes n (a + 1) (i + 1) (update out i v) paged (omega arith)
        (omega arith) in
    let put_in = in_array_inside r (λ j. update out i (bytes j)) a paged lo (omega arith) in
    (
      next.0,
      rw (le→leb _ _ lo, lt→ltb a r.limit_address (omega arith), put_in) next.1,
      stored next.0 next.2 next.3,
      λ k lt. next.3 k (omega arith) ∙ ground arith,
    )
  where
    stored :
        (out' : ℕ → ℕ)
        → ((j : ℕ) → j < n → out' (i + 1 + j) ≡ bytes (a + 1 + j - r.base_address))
        → ((k : ℕ) → k < i + 1 → out' k ≡ update out i (bytes (a - r.base_address)) k)
        → (j : ℕ) → j < suc n
        → out' (i + j) ≡ bytes (a + j - r.base_address)
    stored out' above below zero lt =
        ap out' (omega arith) ∙ below i (omega arith) ∙ update_self out i _ ∙ ap bytes (omega arith)
    stored out' above below (suc j) lt =
        ap out' (omega arith) ∙ above j (omega arith) ∙ ap bytes (omega arith)

-- The range `q` of `s'` is a new one over [base, limit), where it reads as `p` does; the others are
-- as they were.
pub record IsCopy (s : Store) (p base limit q : ℕ) (s' : Store) : Type 0 where
  pub is_new : s.object q ≡ none
  pub self : MappedRange
  pub present : s'.object q ≡ some self
  pub at_base : self.base_address ≡ base
  pub at_limit : self.limit_address ≡ limit
  pub same_bytes : (a : ℕ) → base ≤ a → a < limit → read s' q a ≡ read s p a
  pub others : (k a : ℕ) (o : MappedRange) → s.object k ≡ some o → read s' k a ≡ read s k a
  pub keeps : (k : ℕ) (o : MappedRange) → s.object k ≡ some o → s'.object k ≡ some o
  pub still_valid : IsValid s'

module _ (s : Store) (p : ℕ) (r : MappedRange) (v : IsValid s) (e : s.object p ≡ some r)
    (paged : IsPaged r) (base limit : ℕ) (lo : r.base_address ≤ base) (mid : base ≤ limit)
    (hi : limit ≤ r.limit_address) (whole : (limit - base) % page_size ≡ 0) where
  abbrev Copies : Type 0
  Copies =
      (q : ℕ) × (s' : Store) × (copy s p base limit ≡ done (q, s')) × IsCopy s p base limit q s'

  part : Body → MappedRange
  part = new_range base limit (some r.name) (add64 r.offset (sub64 base r.base_address))

  part-IsPaged : (b : Body) → IsPaged (part b)
  unfolding part
  part-IsPaged b = record { ordered = mid; below = omega (arith, paged.below); whole = whole }

  one_part :
      (b : Body)
      → ((q : ℕ) → b ≢ copy_on_write q)
      → ((a : ℕ) → base ≤ a → a < limit → read (added s (part b)) s.next a ≡ read s p a)
      → IsCopy s p base limit s.next (added s (part b))
  unfolding part
  one_part b no_parent same = record {
    is_new = v.fresh s.next (omega arith);
    self = part b;
    present = ground arith;
    at_base = refl;
    at_limit = refl;
    same_bytes = same;
    others = λ k a o f. added_self s v (part b) k a o f;
    keeps = λ k o f. added-Agrees s v (part b) (suc k) k o f (omega arith);
    still_valid = added-IsValid s v (part b) (λ q h. absurd (no_parent q h));
  }

  copy-invalid : r.body ≡ invalid → Copies
  unfolding copy part
  copy-invalid b = (
    s.next,
    added s (part invalid),
    ground arith,
    one_part invalid (λ q h. cc)
        λ a _ _.
          read-invalid _ s.next (part invalid) a (ground arith) refl
          ∙ sym (read-invalid s p r a e b),
  )

  copy-empty : r.body ≡ empty → Copies
  unfolding copy part
  copy-empty b = (
    s.next,
    added s (part empty),
    ground arith,
    one_part empty (λ q h. cc)
        λ a _ _.
          read-empty _ s.next (part empty) a (ground arith) refl ∙ sym (read-empty s p r a e b),
  )

  copy-array : (bytes : ℕ → ℕ) → r.body ≡ array bytes → Copies
  unfolding copy part
  copy-array bytes b =
      let loop = copy_contained_lem r bytes (limit - base) base 0 (λ _. 0) paged lo (omega arith) in
      let made : new_array base limit (some r.name) (add64 r.offset (sub64 base r.base_address))
          ≡ done (part (array (λ _. 0))) =
        new_array_paged (part empty) (some r.name) (part-IsPaged empty) in
      (
        s.next,
        added s (part (array loop.0)),
        ground (arith, made, loop.1),
        one_part (array loop.0) (λ q h. cc)
            λ a alo ahi.
              read-array _ s.next (part (array loop.0)) loop.0 a (ground arith) refl
              ∙ in_array_inside (part (array loop.0)) (λ i. (true, loop.0 i)) a
                  (part-IsPaged (array loop.0)) alo ahi
              ∙ ap (λ y. done (true, y))
                  (ap loop.0 (omega arith)
                    ∙ loop.2 (a - base) (omega arith)
                    ∙ ap bytes (omega arith))
              ∙ sym (
                  read-array s p r bytes a e b
                  ∙ in_array_inside r (λ i. (true, bytes i)) a paged (omega arith) (omega arith)),
      )

  -- In a valid store, Copy of a part of a range that is not copy-on-write, of whole pages within its
  -- bounds, succeeds with a new range over the part, which has at each of its addresses the read of
  -- the copied range there. The other ranges stay in the store as they were, each with the reads it
  -- had, and the store stays valid.
  pub copy-IsCopy : ((q : ℕ) → r.body ≢ copy_on_write q) → Copies
  copy-IsCopy plain = elim (Body-cases r.body) [
    | inl b ↦ copy-invalid b
    | inr (inl b) ↦ copy-empty b
    | inr (inr (inl (bytes, b))) ↦ copy-array bytes b
    | inr (inr (inr (q, b))) ↦ absurd (plain q b)
  ]
