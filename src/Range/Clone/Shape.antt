-- ===== src/Range/Clone/Shape.antt =====
-- What Clone does to the ranges of the store: their bounds, their validity and their parents.
use vmill.Prelude.{
  ℕ, suc, ◌≤◌, ◌≡◌, ◌≢◌, refl, sym, ap, ◌∙◌, inl, inr, some, arith, true, false, Bool, done,
  ℕ_discrete, update,
}
use vmill.Range.{
  Body, invalid, empty, array, copy_on_write, MappedRange, Store, is_valid, new_range, make_shared,
}
use vmill.Range.Duplicates.{clone}
use vmill.Range.Frame.{IsValid, IsNoParent, Body-cases}
use vmill.Range.Clone.Arrays.{clone-array_objects}

-- The range `q` of `s'` has the bounds and the validity of the range `p` of `s`.
pub record IsAlike (s : Store) (p : ℕ) (s' : Store) (q : ℕ) : Type 0 where
  pub old : MappedRange
  pub new : MappedRange
  pub old_present : s.object p ≡ some old
  pub new_present : s'.object q ≡ some new
  pub same_base : new.base_address ≡ old.base_address
  pub same_limit : new.limit_address ≡ old.limit_address
  pub same_valid : is_valid s' q ≡ is_valid s p

abbrev pub is_valid_body : Body → Bool
is_valid_body invalid = false
is_valid_body empty = true
is_valid_body (array bytes) = true
is_valid_body (copy_on_write q) = true

-- In a valid store only the class of a range counts, since parents are arrays.
pub is_valid_lem :
    (s : Store) (p : ℕ) (r : MappedRange)
    → IsValid s
    → s.object p ≡ some r
    → is_valid s p ≡ done (is_valid_body r.body)
unfolding is_valid
is_valid_lem s p r v e = elim (Body-cases r.body) [
  | inl b ↦ ground arith
  | inr (inl b) ↦ ground arith
  | inr (inr (inl (bytes, b))) ↦ ground arith
  | inr (inr (inr (q, b))) ↦ let w = v.parents p r q e b in ground (arith, w.present, w.is_array)
]

abbrev pub IsSameShape : MappedRange → MappedRange → Type 0
IsSameShape t r =
    (t.base_address ≡ r.base_address)
    × (t.limit_address ≡ r.limit_address)
    × (is_valid_body t.body ≡ is_valid_body r.body)

-- What Clone does to the objects.
pub record IsShaped (s : Store) (p q : ℕ) (r : MappedRange) (s' : Store) : Type 0 where
  pub twin : (t : MappedRange) × (s'.object q ≡ some t) × IsSameShape t r
  pub self : (t : MappedRange) × (s'.object p ≡ some t) × IsSameShape t r
  pub others : (k : ℕ) (o : MappedRange) → k ≢ p → s.object k ≡ some o → s'.object k ≡ some o
  pub no_parent : (j : ℕ) (o : MappedRange) → s.object j ≡ some o → IsNoParent s j → IsNoParent s' j
  pub twin_no_parent : IsNoParent s' q

module _ (s : Store) (p : ℕ) (r : MappedRange) (v : IsValid s) (e : s.object p ≡ some r) where
  -- No range of the store has a parent that is not there.
  parent_there :
      (k j : ℕ) (o : MappedRange) → s.object k ≡ some o → o.body ≡ copy_on_write j → s.next ≤ j → ⊥
  parent_there k j o f b le = ground (arith, v.fresh j le, (v.parents k o j f b).present)

  one_new :
      (t : MappedRange)
      → IsSameShape t r
      → ((j : ℕ) (o : MappedRange)
          → s.object j ≡ some o
          → IsNoParent s j
          → t.body ≢ copy_on_write j)
      → t.body ≢ copy_on_write s.next
      → IsShaped s p s.next r (make_shared s t).1
  one_new t shape apart fresh = record {
    twin = (t, ground arith, shape);
    self = (r, ground (arith, v.fresh s.next), (refl, refl, refl));
    others = λ k o ne f. ground (arith, v.fresh s.next);
    no_parent = λ j o f alone k u g b. ground (arith, alone k u, apart j o f alone);
    twin_no_parent = λ k u g b. elim (ℕ_discrete k s.next) [
      | yes same ↦ ground (arith, fresh)
      | no other ↦ parent_there k s.next u (ground arith) b (omega arith)
    ];
  }

  two_new :
      (bytes : ℕ → ℕ) (s' : Store) (t u : MappedRange)
      → r.body ≡ array bytes
      → s'.object
        ≡ update (update (update s.object s.next (some u)) p (some t)) (suc s.next) (some t)
      → t.base_address ≡ r.base_address
      → t.limit_address ≡ r.limit_address
      → t.body ≡ copy_on_write s.next
      → u.body ≡ array bytes
      → IsShaped s p (suc s.next) r s'
  two_new bytes s' t u b objects same_base same_limit tb ub =
      let at : (k : ℕ)
          → s'.object k
            ≡ update (update (update s.object s.next (some u)) p (some t)) (suc s.next) (some t) k =
        λ k. ap (λ f. f k) objects in
      let shape : IsSameShape t r =
        (same_base, same_limit, ap is_valid_body tb ∙ sym (ap is_valid_body b)) in
      record {
        twin = (t, ground (arith, at (suc s.next)), shape);
        self = (t, ground (arith, at p, v.fresh (suc s.next)), shape);
        others = λ k o ne f. ground (arith, at k, v.fresh s.next, v.fresh (suc s.next));
        no_parent = λ j o f alone k x g h. ground (arith, at k, alone k x, v.fresh s.next);
        twin_no_parent = λ k x g h. elim (ℕ_discrete k (suc s.next)) [
          | yes same ↦ ground (arith, at k)
          | no other ↦ elim (ℕ_discrete k p) [
            | yes same ↦ ground (arith, at k)
            | no other' ↦ elim (ℕ_discrete k s.next) [
              | yes same ↦ ground (arith, at k)
              | no other'' ↦ parent_there k (suc s.next) x (ground (arith, at k)) h (omega arith)
            ]
          ]
        ];
      }

  pub clone_shape :
      IsNoParent s p → (q : ℕ) × (s' : Store) × (clone s p ≡ done (q, s')) × IsShaped s p q r s'
  unfolding clone
  clone_shape alone = elim (Body-cases r.body) [
    | inl b ↦ (
      s.next,
      _,
      ground arith,
      one_new (same_range invalid) (refl, refl, ap is_valid_body (sym b)) (λ j o f h. λ x. cc)
          (λ x. cc),
    )
    | inr (inl b) ↦ (
      s.next,
      _,
      ground arith,
      one_new (same_range empty) (refl, refl, ap is_valid_body (sym b)) (λ j o f h. λ x. cc)
          (λ x. cc),
    )
    | inr (inr (inl (bytes, b))) ↦
        let (t, u, s', made, objects, h1, h2, h3, h4) =
          clone-array_objects s p r v e alone bytes b in
        (suc s.next, s', made, two_new bytes s' t u b objects h1 h2 h3 h4)
    | inr (inr (inr (q, b))) ↦
        let w = v.parents p r q e b in
        let t =
          new_range (w.root).base_address (w.root).limit_address (some (w.root).name)
            (w.root).offset (copy_on_write q) in
        (
          s.next,
          (make_shared s t).1,
          ground (arith, w.present, w.is_array),
          one_new t (w.same_base, w.same_limit, ap is_valid_body (sym b))
              (λ j o f alone' same. alone' p r e (ground arith))
              (λ same. parent_there p q r e b (ground arith)),
        )
  ]
    where
      same_range : Body → MappedRange
      same_range = new_range r.base_address r.limit_address (some r.name) r.offset
