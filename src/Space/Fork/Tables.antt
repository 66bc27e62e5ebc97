-- ===== src/Space/Fork/Tables.antt =====
-- The page tables over ranges that stand for one another are alike.
use vmill.Prelude.{
  ℕ, ◌≡◌, inl, inr, refl, sym, ap, ◌∙◌, Bool, true, false, Bool-cases, Option, none, some, List, [],
  ◌∷◌, leb, if◌then◌else◌, arith, done,
}
use vmill.Range.{MappedRange, Store}
use vmill.Range.Frame.{IsValid}
use vmill.Range.Clone.Shape.{is_valid_body, is_valid_lem}
use vmill.Space.{fetch_all, insert_by_base, sort_by_base}
use vmill.Space.Index.{owner, has_page}
use vmill.Space.Fork.{IsTwin, Twins}

-- What two tables say of a page: nothing, or ranges that stand for one another.
abbrev pub SameOwner : Store → Store → Option ℕ → Option ℕ → Type 0
SameOwner s s' none none = Unit {0}
SameOwner s s' none (some q) = ⊥
SameOwner s s' (some p) none = ⊥
SameOwner s s' (some p) (some q) = IsTwin s p s' q

module _ (s s' : Store) (v : IsValid s) (v' : IsValid s') where
  pub record IsTwinEntry (e f : ℕ × MappedRange) : Type 0 where
    pub twin : IsTwin s e.0 s' f.0
    pub old_there : s.object e.0 ≡ some e.1
    pub new_there : s'.object f.0 ≡ some f.1

  abbrev pub TwinEntries : List (ℕ × MappedRange) → List (ℕ × MappedRange) → Type 0
  TwinEntries [] [] = Unit {0}
  TwinEntries [] (f ∷ fs) = ⊥
  TwinEntries (e ∷ es) [] = ⊥
  TwinEntries (e ∷ es) (f ∷ fs) = IsTwinEntry e f × TwinEntries es fs

  pub fetch_all-Twins :
      (ps qs : List ℕ)
      → Twins s s' ps qs
      → (es : List (ℕ × MappedRange)) × (fs : List (ℕ × MappedRange)) × (fetch_all s ps ≡ done es)
        × (fetch_all s' qs ≡ done fs)
        × TwinEntries es fs
  unfolding fetch_all
  fetch_all-Twins [] [] w = ([], [], refl, refl, tt)
  fetch_all-Twins [] (q ∷ qs) w = absurd w
  fetch_all-Twins (p ∷ ps) [] w = absurd w
  fetch_all-Twins (p ∷ ps) (q ∷ qs) (w, ws) =
      let (es, fs, made, made', rest) = fetch_all-Twins ps qs ws in
      (
        (p, w.old) ∷ es,
        (q, w.new) ∷ fs,
        ground (arith, w.old_present, made),
        ground (arith, w.new_present, made'),
        (record { twin = w; old_there = w.old_present; new_there = w.new_present }, rest),
      )

  entry_shape :
      (e f : ℕ × MappedRange)
      → IsTwinEntry e f
      → ((f.1).base_address ≡ (e.1).base_address)
        × ((f.1).limit_address ≡ (e.1).limit_address)
        × (is_valid_body (f.1).body ≡ is_valid_body (e.1).body)
  entry_shape e f w =
      let (b, l, x) = (w.twin).shape in
      let same : (w.twin).old ≡ e.1 = ground (arith, (w.twin).old_present, w.old_there) in
      let same' : (w.twin).new ≡ f.1 = ground (arith, (w.twin).new_present, w.new_there) in
      (
        ap (λ r. r.base_address) (sym same') ∙ b ∙ ap (λ r. r.base_address) same,
        ap (λ r. r.limit_address) (sym same') ∙ l ∙ ap (λ r. r.limit_address) same,
        ap (λ r. is_valid_body r.body) (sym same') ∙ x ∙ ap (λ r. is_valid_body r.body) same,
      )

  insert_twins :
      (e f : ℕ × MappedRange) (es fs : List (ℕ × MappedRange))
      → IsTwinEntry e f
      → TwinEntries es fs
      → TwinEntries (insert_by_base e es) (insert_by_base f fs)
  unfolding insert_by_base
  insert_twins e f [] [] w ws = (w, tt)
  insert_twins e f [] (g ∷ gs) w ws = absurd ws
  insert_twins e f (g ∷ gs) [] w ws = absurd ws
  insert_twins e f (g ∷ gs) (h ∷ hs) w (u, us) =
      let (be, _, _) = entry_shape e f w in
      let (bg, _, _) = entry_shape g h u in
      let test : leb (f.1).base_address (h.1).base_address
          ≡ leb (e.1).base_address (g.1).base_address =
        rw (be, bg) refl in
      elim (Bool-cases (leb (e.1).base_address (g.1).base_address)) [
        | inl le ↦ rw (test, le) (w, (u, us))
        | inr gt ↦ rw (test, gt) (u, insert_twins e f gs hs w us)
      ]

  pub sort_twins :
      (es fs : List (ℕ × MappedRange))
      → TwinEntries es fs
      → TwinEntries (sort_by_base es) (sort_by_base fs)
  unfolding sort_by_base
  sort_twins [] [] w = tt
  sort_twins [] (f ∷ fs) w = absurd w
  sort_twins (e ∷ es) [] w = absurd w
  sort_twins (e ∷ es) (f ∷ fs) (w, ws) =
      insert_twins e f (sort_by_base es) (sort_by_base fs) w (sort_twins es fs ws)

  has_page_twins :
      (e f : ℕ × MappedRange) (a : ℕ) → IsTwinEntry e f → has_page s' f a ≡ has_page s e a
  has_page_twins e f a w =
      let (b, l, x) = entry_shape e f w in
      let old = is_valid_lem s e.0 e.1 v w.old_there in
      let new = is_valid_lem s' f.0 f.1 v' w.new_there in rw (old, new, b, l, x) refl

  pub owner_twins :
      (es fs : List (ℕ × MappedRange)) (a : ℕ) (d d' : Option ℕ)
      → TwinEntries es fs
      → SameOwner s s' d d'
      → SameOwner s s' (owner s es a d) (owner s' fs a d')
  unfolding owner
  owner_twins [] [] a d d' w same = same
  owner_twins [] (f ∷ fs) a d d' w same = absurd w
  owner_twins (e ∷ es) [] a d d' w same = absurd w
  owner_twins (e ∷ es) (f ∷ fs) a d d' (w, ws) same =
      owner_twins es fs a _ _ ws
        (picked (has_page s e a) (has_page s' f a) (has_page_twins e f a w))
    where
      picked :
          (b b' : Bool)
          → b' ≡ b
          → SameOwner s s' (if b then some e.0 else d) (if b' then some f.0 else d')
      picked true true h = w.twin
      picked false false h = same
      picked true false h = absurd (cc)
      picked false true h = absurd (cc)
