-- ===== src/Range/Clone/Arrays.antt =====
-- The clone of an array, which turns two ranges into copy-on-write ranges over a third.
use vmill.Prelude.{ℕ, suc, ◌≡◌, ◌≢◌, refl, sym, ◌∙◌, some, arith, done, subst, update}
use vmill.Range.{array, copy_on_write, MappedRange, Store, read, new_range, put}
use vmill.Range.Duplicates.{clone}
use vmill.Range.Frame.{IsParent, IsValid, IsNoParent, read-array, read-copy_on_write, read-Agrees}
use vmill.Range.Changes.{added, added_self, added-IsValid, put-Agrees, put-IsValid}
use vmill.Range.Clone.{IsClone}

-- The array of `p` moves to the new range `s.next`, and `p` and its twin read through that.
module _ (s : Store) (p : ℕ) (r : MappedRange) (v : IsValid s) (e : s.object p ≡ some r)
    (alone : IsNoParent s p) (bytes : ℕ → ℕ) (b : r.body ≡ array bytes) where
  stolen : MappedRange
  stolen = new_range r.base_address r.limit_address (some r.name) r.offset (array bytes)

  twin_of : MappedRange
  unfolding stolen
  twin_of =
      new_range r.base_address r.limit_address (some stolen.name) r.offset (copy_on_write s.next)

  moved_array : Store
  moved_array = put (added s stolen) p twin_of

  cloned : Store
  cloned = added moved_array twin_of

  p_not_new : p ≢ s.next
  p_not_new h = ground (arith, v.fresh s.next)

  clone-array_lem : clone s p ≡ done (suc s.next, cloned)
  unfolding clone cloned moved_array twin_of stolen
  clone-array_lem = ground (arith, p_not_new)

  stolen-IsParent : (s' : Store) → s'.object s.next ≡ some stolen → IsParent s' twin_of s.next
  unfolding twin_of stolen
  stolen-IsParent s' f = record {
    root = stolen;
    bytes = bytes;
    present = f;
    is_array = refl;
    same_base = refl;
    same_limit = refl;
  }

  stolen-IsValid : IsValid (added s stolen)
  unfolding stolen
  stolen-IsValid = added-IsValid s v stolen (λ q h. cc)

  alone_added : IsNoParent (added s stolen) p
  unfolding stolen
  alone_added k o f h = ground (arith, alone k o)

  moved_array-IsValid : IsValid moved_array
  unfolding moved_array twin_of
  moved_array-IsValid =
      put-IsValid (added s stolen) p r stolen-IsValid (ground (arith, p_not_new)) twin_of
        alone_added
        (λ q h.
          let same : s.next ≡ q = ground arith in
          (
            subst (IsParent (added s stolen) twin_of) same
                (stolen-IsParent (added s stolen) (ground arith)),
            λ k. p_not_new (sym k ∙ sym same),
          ))

  cloned-IsValid : IsValid cloned
  unfolding cloned moved_array twin_of
  cloned-IsValid = added-IsValid moved_array moved_array-IsValid twin_of (λ q h.
      let same : s.next ≡ q = ground arith in
      subst (IsParent moved_array twin_of) same
        (stolen-IsParent moved_array (ground (arith, p_not_new))))

  -- Through the new array `p` and its twin read as `p` did.
  read_through : (k a : ℕ) → cloned.object k ≡ some twin_of → read cloned k a ≡ read s p a
  unfolding cloned moved_array twin_of stolen stolen-IsParent
  read_through k a f =
      read-copy_on_write cloned k twin_of s.next a
        (stolen-IsParent cloned (ground (arith, p_not_new))) f refl
      ∙ sym (read-array s p r bytes a e b)

  read_other :
      (k a : ℕ) (o : MappedRange) → s.object k ≡ some o → k ≢ p → read cloned k a ≡ read s k a
  unfolding cloned moved_array
  read_other k a o f ne =
      let f' : (added s stolen).object k ≡ some o = ground (arith, v.fresh s.next) in
      let f'' : moved_array.object k ≡ some o = ground arith in
      added_self moved_array moved_array-IsValid twin_of k a o f''
      ∙ read-Agrees (added s stolen) moved_array p k a o stolen-IsValid alone_added
          (put-Agrees (added s stolen) p r stolen-IsValid (ground (arith, p_not_new)) twin_of) f' ne
      ∙ added_self s v stolen k a o f

  pub clone-array : (q : ℕ) × (s' : Store) × (clone s p ≡ done (q, s')) × IsClone s p q s'
  unfolding cloned moved_array
  clone-array = (
    suc s.next,
    cloned,
    clone-array_lem,
    record {
      is_new = v.fresh (suc s.next) (omega arith);
      twin = λ a. read_through (suc s.next) a (ground arith);
      self = λ a. read_through p a (ground (arith, v.fresh (suc s.next)));
      others = read_other;
      still_valid = cloned-IsValid;
    },
  )

  -- The ranges of the store after it.
  pub clone-array_objects :
      (t u : MappedRange) × (s' : Store) × (clone s p ≡ done (suc s.next, s'))
      × (s'.object
          ≡ update (update (update s.object s.next (some u)) p (some t)) (suc s.next) (some t))
      × (t.base_address ≡ r.base_address)
      × (t.limit_address ≡ r.limit_address)
      × (t.body ≡ copy_on_write s.next)
      × (u.body ≡ array bytes)
  unfolding cloned moved_array twin_of stolen
  clone-array_objects = (twin_of, stolen, cloned, clone-array_lem, refl, refl, refl, refl, refl)
