-- ===== src/Range/Frame.antt =====
-- The invariant of the store of ranges, and what a read depends on.
use vmill.Prelude.{
  ℕ, ◌≤◌, ◌≡◌, ◌≢◌, ◌⊎◌, inl, inr, refl, sym, ap, ◌∙◌, true, false, none, some, arith, sub64, done,
}
use vmill.Range.{
  Body, invalid, empty, array, copy_on_write, MappedRange, Store, fetch, in_array, read,
}

-- The parent of a copy-on-write range is an array over the same addresses.
pub record IsParent (s : Store) (r : MappedRange) (q : ℕ) : Type 0 where
  pub root : MappedRange
  pub bytes : ℕ → ℕ
  pub present : s.object q ≡ some root
  pub is_array : root.body ≡ array bytes
  pub same_base : root.base_address ≡ r.base_address
  pub same_limit : root.limit_address ≡ r.limit_address

pub record IsValid (s : Store) : Type 0 where
  pub fresh : (p : ℕ) → s.next ≤ p → s.object p ≡ none
  pub parents :
      (p : ℕ) (r : MappedRange) (q : ℕ)
      → s.object p ≡ some r
      → r.body ≡ copy_on_write q
      → IsParent s r q

-- No copy-on-write range reads through `p`.
abbrev pub IsNoParent : Store → ℕ → Type 0
IsNoParent s p = (k : ℕ) (r : MappedRange) → s.object k ≡ some r → r.body ≢ copy_on_write p

pub Body-cases :
    (b : Body)
    → (b ≡ invalid)
      ⊎ (b ≡ empty)
      ⊎ ((bytes : ℕ → ℕ) × (b ≡ array bytes))
      ⊎ ((q : ℕ) × (b ≡ copy_on_write q))
Body-cases invalid = inl refl
Body-cases empty = inr (inl refl)
Body-cases (array bytes) = inr (inr (inl (bytes, refl)))
Body-cases (copy_on_write q) = inr (inr (inr (q, refl)))

pub object_of_fetch :
    (s : Store) (p : ℕ) (r : MappedRange) → fetch s p ≡ done r → s.object p ≡ some r
object_of_fetch s p r h = ground arith

pub read-invalid :
    (s : Store) (p : ℕ) (r : MappedRange) (a : ℕ)
    → s.object p ≡ some r
    → r.body ≡ invalid
    → read s p a ≡ done (false, 0)
unfolding read
read-invalid s p r a e b = ground arith

pub read-empty :
    (s : Store) (p : ℕ) (r : MappedRange) (a : ℕ)
    → s.object p ≡ some r
    → r.body ≡ empty
    → read s p a ≡ done (true, 0)
unfolding read
read-empty s p r a e b = ground arith

pub read-array :
    (s : Store) (p : ℕ) (r : MappedRange) (bytes : ℕ → ℕ) (a : ℕ)
    → s.object p ≡ some r
    → r.body ≡ array bytes
    → read s p a ≡ in_array r (sub64 a r.base_address) (true, bytes (sub64 a r.base_address))
unfolding read
read-array s p r bytes a e b = ground arith

pub read-copy_on_write :
    (s : Store) (p : ℕ) (r : MappedRange) (q : ℕ) (a : ℕ) (v : IsParent s r q)
    → s.object p ≡ some r
    → r.body ≡ copy_on_write q
    → read s p a ≡ in_array r (sub64 a r.base_address) (true, v.bytes (sub64 a r.base_address))
unfolding read
read-copy_on_write s p r q a v e b = ground arith

-- `s'` has every range of `s`, but for the range `x` as it is there.
abbrev pub Agrees : Store → Store → ℕ → Type 0
Agrees s s' x = (k : ℕ) (r : MappedRange) → s.object k ≡ some r → k ≢ x → s'.object k ≡ some r

abbrev pub moved :
    {s s' : Store} {r : MappedRange} {q : ℕ} (v : IsParent s r q)
    → s'.object q ≡ some v.root
    → IsParent s' r q
moved v e = record {
  root = v.root;
  bytes = v.bytes;
  present = e;
  is_array = v.is_array;
  same_base = v.same_base;
  same_limit = v.same_limit;
}

-- A change of a range that is no parent is seen by no read through another range.
pub read-Agrees :
    (s s' : Store) (x k a : ℕ) (r : MappedRange)
    → IsValid s
    → IsNoParent s x
    → Agrees s s' x
    → s.object k ≡ some r
    → k ≢ x
    → read s' k a ≡ read s k a
read-Agrees s s' x k a r v alone agrees e ne = elim (Body-cases r.body) [
  | inl b ↦ read-invalid s' k r a (agrees k r e ne) b ∙ sym (read-invalid s k r a e b)
  | inr (inl b) ↦ read-empty s' k r a (agrees k r e ne) b ∙ sym (read-empty s k r a e b)
  | inr (inr (inl (bytes, b))) ↦
      read-array s' k r bytes a (agrees k r e ne) b ∙ sym (read-array s k r bytes a e b)
  | inr (inr (inr (q, b))) ↦
      let parent = v.parents k r q e b in
      let same = agrees q parent.root parent.present (λ h. alone k r e (b ∙ ap copy_on_write h)) in
      read-copy_on_write s' k r q a (moved parent same) (agrees k r e ne) b
      ∙ sym (read-copy_on_write s k r q a parent e b)
]
