-- ===== src/Removal/Coverage/Loss.antt =====
-- What RemoveRange does to a range that sticks out of [base, limit) at the top only.
use vmill.Prelude.{
  ℕ, ◌<◌, ◌≡◌, inl, inr, ◌∙◌, sym, ap, some, Bool, List, [], ◌∷◌, arith, Outcome, done, ◌>>=◌,
  >>=-eq-done, done-injective, subst,
}
use vmill.Range.{MappedRange, Store}
use vmill.Range.Duplicates.{copy}
use vmill.Removal.{suffix, overlap, carve}
use vmill.Removal.Disjoint.{IsAdded, copy-IsAdded}
use vmill.Removal.Coverage.{Holds, Covers}

top_suffix :
    (b l base limit : ℕ) → base < b → b < limit → limit < l → overlap b l base limit ≡ suffix
unfolding overlap
top_suffix b l base limit h1 h2 h3 = ground arith

carve_suffix :
    (s : Store) (p base limit : ℕ) (r : MappedRange)
    → s.object p ≡ some r
    → overlap r.base_address r.limit_address base limit ≡ suffix
    → carve s p base limit ≡ (copy s p r.base_address base >>= λ low. done (low.0 ∷ [], low.1))
unfolding carve
carve_suffix s p base limit r e o = ground arith

-- A copy over an inverted range holds no address.
no_address :
    (s : Store) (b l q : ℕ) (s' : Store) (a : ℕ) (x : Outcome (Bool × ℕ))
    → l < b
    → IsAdded s b l q s'
    → Holds s' a x q
    → ⊥
no_address s b l q s' a x lt (t, eq, es, eb, el) h =
    let there : s'.object q ≡ some t = rw (eq, es) (ground arith) in
    let same : h.range ≡ t = ground (arith, h.present, there) in
    omega (
      arith,
      lt,
      h.above,
      h.under,
      ap (λ r. r.base_address) same,
      ap (λ r. r.limit_address) same,
      eb,
      el,
    )

-- A range that begins inside of [base, limit) and goes on beyond `limit` leaves nothing: when
-- RemoveRange treats it and succeeds, what it puts into its result has no address at all, so the
-- bytes from `limit` on are gone too.
pub carve_top_lost :
    (s : Store) (p base limit : ℕ) (r : MappedRange) (kept : List ℕ) (s' : Store)
    → s.object p ≡ some r
    → base < r.base_address
    → r.base_address < limit
    → limit < r.limit_address
    → carve s p base limit ≡ done (kept, s')
    → (a : ℕ) (x : Outcome (Bool × ℕ)) → ¬ Covers s' kept a x
carve_top_lost s p base limit r kept s' e h1 h2 h3 h a x covered =
    let o = top_suffix r.base_address r.limit_address base limit h1 h2 h3 in
    let (low, f, g) =
      >>=-eq-done (copy s p r.base_address base) (λ low. done (low.0 ∷ [], low.1))
        (sym (carve_suffix s p base limit r e o) ∙ h) in
    let (t, eq, es, eb, el) = copy-IsAdded s p r.base_address base low.0 low.1 f in
    elim (subst (λ y. Covers y.1 y.0 a x) (sym (done-injective (low.0 ∷ [], low.1) (kept, s') g))
      covered) [
        | inl held ↦ no_address s r.base_address base low.0 low.1 a x h1 (t, eq, es, eb, el) held
        | inr none' ↦ none'
      ]
