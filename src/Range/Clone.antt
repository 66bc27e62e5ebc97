-- ===== src/Range/Clone.antt =====
-- Clone keeps what every range reads as, and its twin reads as the range does.
pub mod Arrays
pub mod Isolation
pub mod Shape
use vmill.Prelude.{
  ℕ, suc, ◌+◌, ◌≤◌, ◌<◌, ◌≡◌, ◌≢◌, refl, sym, ap, ◌∙◌, inl, inr, some, none, arith, sub64, true,
  Bool, Outcome, done, ◌>>=◌, ℕ_discrete, subst,
}
use vmill.Range.{
  Body, invalid, empty, array, copy_on_write, MappedRange, Store, fetch, in_array, read, new_range,
  put, make_shared,
}
use vmill.Range.Duplicates.{clone}
use vmill.Range.Frame.{
  IsParent, IsValid, IsNoParent, Agrees, Body-cases, read-invalid, read-empty, read-array,
  read-copy_on_write, read-Agrees, moved,
}
use vmill.Range.Changes.{added, added-Agrees, added_self, added-IsValid, put-Agrees, put-IsValid}

-- The range `q` of `s'` is a twin of the range `p` of `s`, and nothing else can be told apart.
pub record IsClone (s : Store) (p q : ℕ) (s' : Store) : Type 0 where
  pub is_new : s.object q ≡ none
  pub twin : (a : ℕ) → read s' q a ≡ read s p a
  pub self : (a : ℕ) → read s' p a ≡ read s p a
  pub others : (k a : ℕ) (r : MappedRange) → s.object k ≡ some r → k ≢ p → read s' k a ≡ read s k a
  pub still_valid : IsValid s'

in_array_same :
    (t r : MappedRange) (bytes : ℕ → ℕ) (a : ℕ)
    → t.base_address ≡ r.base_address
    → t.limit_address ≡ r.limit_address
    → in_array {A = Bool × ℕ} t (sub64 a t.base_address) (true, bytes (sub64 a t.base_address))
      ≡ in_array r (sub64 a r.base_address) (true, bytes (sub64 a r.base_address))
in_array_same t r bytes a b l = rw (b, l)

-- A copy-on-write range over all of an array has it for a parent.
abbrev root_IsParent :
    {s : Store} {r : MappedRange} {q : ℕ} (w : IsParent s r q)
    → IsParent s
        (new_range
          (w.root).base_address
          (w.root).limit_address
          (some (w.root).name)
          (w.root).offset
          (copy_on_write q))
        q
root_IsParent w = record {
  root = w.root;
  bytes = w.bytes;
  present = w.present;
  is_array = w.is_array;
  same_base = refl;
  same_limit = refl;
}

module _ (s : Store) (p : ℕ) (r : MappedRange) (v : IsValid s) (e : s.object p ≡ some r) where
  same_range : Body → MappedRange
  same_range = new_range r.base_address r.limit_address (some r.name) r.offset

  -- A clone that is one new range.
  one_new :
      (t : MappedRange)
      → ((q : ℕ) → t.body ≡ copy_on_write q → IsParent s t q)
      → ((a : ℕ) → read (added s t) s.next a ≡ read s p a)
      → IsClone s p s.next (added s t)
  one_new t h twin = record {
    is_new = v.fresh s.next (omega arith);
    twin = twin;
    self = λ a. added_self s v t p a r e;
    others = λ k a o f ne. added_self s v t k a o f;
    still_valid = added-IsValid s v t h;
  }

  pub clone-invalid :
      r.body ≡ invalid → (q : ℕ) × (s' : Store) × (clone s p ≡ done (q, s')) × IsClone s p q s'
  unfolding clone same_range
  clone-invalid b = (
    s.next,
    added s (same_range invalid),
    ground arith,
    one_new (same_range invalid) (λ q h. cc)
        λ a.
          read-invalid _ s.next (same_range invalid) a (ground arith) refl
          ∙ sym (read-invalid s p r a e b),
  )

  pub clone-empty :
      r.body ≡ empty → (q : ℕ) × (s' : Store) × (clone s p ≡ done (q, s')) × IsClone s p q s'
  unfolding clone same_range
  clone-empty b = (
    s.next,
    added s (same_range empty),
    ground arith,
    one_new (same_range empty) (λ q h. cc)
        λ a.
          read-empty _ s.next (same_range empty) a (ground arith) refl
          ∙ sym (read-empty s p r a e b),
  )

  pub clone-copy_on_write :
      (q : ℕ)
      → r.body ≡ copy_on_write q
      → (k : ℕ) × (s' : Store) × (clone s p ≡ done (k, s')) × IsClone s p k s'
  unfolding clone
  clone-copy_on_write q b =
      let parent = v.parents p r q e b in
      let root = parent.root in
      let t =
        new_range root.base_address root.limit_address (some root.name) root.offset
          (copy_on_write q) in
      let w : IsParent s t q = root_IsParent parent in
      (
        s.next,
        added s t,
        ground arith,
        one_new t (λ q' h. subst (IsParent s t) (ground arith) w)
            λ a.
              read-copy_on_write (added s t) s.next t q a
                (moved w (added-Agrees s v t (suc q) q root parent.present (omega arith)))
                (ground arith) refl
              ∙ in_array_same t r parent.bytes a parent.same_base parent.same_limit
              ∙ sym (read-copy_on_write s p r q a parent e b),
      )
