-- ===== src/Range/Changes.antt =====
-- A new range in the store, and a range of the store replaced: both keep the invariant, and what
-- the other ranges read as.
use vmill.Prelude.{ℕ, suc, ◌≡◌, ◌≢◌, ap, ◌∙◌, some, arith, ℕ_discrete, subst}
use vmill.Range.{copy_on_write, MappedRange, Store, read, put, make_shared}
use vmill.Range.Frame.{IsParent, IsValid, IsNoParent, Agrees, read-Agrees, moved}

-- The store with a new range at the free key.
abbrev pub added : Store → MappedRange → Store
added s t = (make_shared s t).1

-- It leaves the other ranges as they are.
module _ (s : Store) (v : IsValid s) (t : MappedRange) where
  pub added-Agrees : (x : ℕ) → Agrees s (added s t) x
  added-Agrees x k r e ne = ground (arith, v.fresh k)

  pub added_self :
      (k a : ℕ) (r : MappedRange) → s.object k ≡ some r → read (added s t) k a ≡ read s k a
  added_self k a r e =
      read-Agrees s (added s t) s.next k a r v (λ j o f b. absurd (no_parent j o f b))
        (added-Agrees s.next) e (λ h. absurd (not_free k r e h))
    where
      not_free : (j : ℕ) (o : MappedRange) → s.object j ≡ some o → j ≡ s.next → ⊥
      not_free j o f h = ground (arith, v.fresh s.next)

      no_parent :
          (j : ℕ) (o : MappedRange) → s.object j ≡ some o → o.body ≡ copy_on_write s.next → ⊥
      no_parent j o f b = ground (arith, v.fresh s.next, (v.parents j o s.next f b).present)

  pub added-IsValid : ((q : ℕ) → t.body ≡ copy_on_write q → IsParent s t q) → IsValid (added s t)
  added-IsValid h = record { fresh = λ k le. ground (arith, v.fresh k); parents = parents }
    where
      kept : (r : MappedRange) (q : ℕ) → IsParent s r q → IsParent (added s t) r q
      kept r q w = moved w (added-Agrees (suc q) q w.root w.present (omega arith))

      parents :
          (k : ℕ) (r : MappedRange) (q : ℕ)
          → (added s t).object k ≡ some r
          → r.body ≡ copy_on_write q
          → IsParent (added s t) r q
      parents k r q e b = elim (ℕ_discrete k s.next) [
        | yes new ↦
            let same : t ≡ r = ground arith in
            kept r q (subst (λ o. IsParent s o q) same (h q (ap (λ o. o.body) same ∙ b)))
        | no old ↦ kept r q (v.parents k r q (ground arith) b)
      ]

-- The range `p`, which is no parent, is replaced by `t`.
module _ (s : Store) (p : ℕ) (r : MappedRange) (v : IsValid s) (e : s.object p ≡ some r) where
  pub put-Agrees : (t : MappedRange) → Agrees s (put s p t) p
  put-Agrees t k o f ne = ground arith

  pub put-IsValid :
      (t : MappedRange)
      → IsNoParent s p
      → ((q : ℕ) → t.body ≡ copy_on_write q → IsParent s t q × (q ≢ p))
      → IsValid (put s p t)
  put-IsValid t alone h = record { fresh = λ k le. ground (arith, v.fresh k); parents = parents }
    where
      kept : (o : MappedRange) (q : ℕ) → IsParent s o q → q ≢ p → IsParent (put s p t) o q
      kept o q w ne = moved w (put-Agrees t q w.root w.present ne)

      parents :
          (k : ℕ) (o : MappedRange) (q : ℕ)
          → (put s p t).object k ≡ some o
          → o.body ≡ copy_on_write q
          → IsParent (put s p t) o q
      parents k o q f b = elim (ℕ_discrete k p) [
        | yes new ↦
            let same : t ≡ o = ground arith in
            let parent = h q (ap (λ x. x.body) same ∙ b) in
            kept o q (subst (λ x. IsParent s x q) same parent.0) parent.1
        | no old ↦
            let f' : s.object k ≡ some o = ground arith in
            kept o q (v.parents k o q f' b) (λ h'. alone k o f' (b ∙ ap copy_on_write h'))
      ]
