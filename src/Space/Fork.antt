-- ===== src/Space/Fork.antt =====
-- Cloning the ranges of an address space: the loop of AddressSpace(const AddressSpace &).
pub mod Tables
pub mod Views
mod Tests
use vmill.Prelude.{
  ℕ, ◌≡◌, ◌≢◌, inl, inr, refl, sym, ap, Option-cases, ◌∙◌, subst, Bool, true, false, Bool-cases,
  none, some, List, [], ◌∷◌, All, All-map, if◌then◌else◌, arith, Outcome, done, done-injective,
  ◌>>=◌, ℕ_discrete,
}
use vmill.Range.{MappedRange, Store, read, is_valid}
use vmill.Range.Duplicates.{clone}
use vmill.Range.Frame.{IsValid, IsNoParent}
use vmill.Range.Clone.{IsClone}
use vmill.Range.Clone.Isolation.{clone-IsClone}
use vmill.Range.Clone.Shape.{IsShaped, IsSameShape, is_valid_body, is_valid_lem, clone_shape}
use vmill.Space.Mapping.{clone_maps}

-- The ranges of `s` are in `s'` with their bounds, their validity and their reads.
pub record Stays (s s' : Store) : Type 0 where
  pub object :
      (k : ℕ) (o : MappedRange)
      → s.object k ≡ some o
      → (o' : MappedRange) × (s'.object k ≡ some o') × IsSameShape o' o
  pub reads : (k a : ℕ) (o : MappedRange) → s.object k ≡ some o → read s' k a ≡ read s k a
  pub lonely : (j : ℕ) (o : MappedRange) → s.object j ≡ some o → IsNoParent s j → IsNoParent s' j
  pub still_valid : IsValid s'

Stays-refl : (s : Store) → IsValid s → Stays s s
Stays-refl s v = record {
  object = λ k o e. (o, e, (refl, refl, refl));
  reads = λ k a o e. refl;
  lonely = λ j o e alone. alone;
  still_valid = v;
}

Stays-trans : (s t u : Store) → Stays s t → Stays t u → Stays s u
Stays-trans s t u h k = record {
  object = λ j o e.
      let (o', e', (b, l, x)) = h.object j o e in
      let (o'', e'', (b', l', x')) = k.object j o' e' in (o'', e'', (b' ∙ b, l' ∙ l, x' ∙ x));
  reads = λ j a o e. let (o', e', _) = h.object j o e in k.reads j a o' e' ∙ h.reads j a o e;
  lonely =
      λ j o e alone. let (o', e', _) = h.object j o e in k.lonely j o' e' (h.lonely j o e alone);
  still_valid = k.still_valid;
}

-- The range `q` of `s'` stands for the range `p` of `s`, and is a new one if that is valid.
pub record IsTwin (s : Store) (p : ℕ) (s' : Store) (q : ℕ) : Type 0 where
  pub old : MappedRange
  pub new : MappedRange
  pub old_present : s.object p ≡ some old
  pub new_present : s'.object q ≡ some new
  pub shape : IsSameShape new old
  pub reads : (a : ℕ) → read s' q a ≡ read s p a
  pub lonely : IsNoParent s' q
  pub fresh : is_valid_body old.body ≡ true → s.object q ≡ none

IsTwin-before :
    (s s1 : Store) (p : ℕ) (o : MappedRange) (s' : Store) (q : ℕ)
    → Stays s s1
    → s.object p ≡ some o
    → IsTwin s1 p s' q
    → IsTwin s p s' q
IsTwin-before s s1 p o s' q h e w =
    let (o', e', (b, l, x)) = h.object p o e in
    let same : w.old ≡ o' = ground (arith, w.old_present, e') in
    let (b', l', x') = w.shape in
    record {
      old = o;
      new = w.new;
      old_present = e;
      new_present = w.new_present;
      shape = (
        b' ∙ ap (λ r. r.base_address) same ∙ b,
        l' ∙ ap (λ r. r.limit_address) same ∙ l,
        x' ∙ ap (λ r. is_valid_body r.body) same ∙ x,
      );
      reads = λ a. w.reads a ∙ h.reads p a o e;
      lonely = w.lonely;
      fresh = λ valid. absent (w.fresh (ap (λ r. is_valid_body r.body) same ∙ x ∙ valid));
    }
  where
    absent : s1.object q ≡ none → s.object q ≡ none
    absent f = elim (Option-cases (s.object q)) [
      | inl gone ↦ gone
      | inr (r, there) ↦ let (r', there', _) = h.object q r there in absurd (ground arith)
    ]

IsTwin-after :
    (s s1 : Store) (p : ℕ) (s' : Store) (q : ℕ) → IsTwin s p s1 q → Stays s1 s' → IsTwin s p s' q
IsTwin-after s s1 p s' q w h =
    let (o', e', (b, l, x)) = h.object q w.new w.new_present in
    let (b', l', x') = w.shape in
    record {
      old = w.old;
      new = o';
      old_present = w.old_present;
      new_present = e';
      shape = (b ∙ b', l ∙ l', x ∙ x');
      reads = λ a. h.reads q a w.new w.new_present ∙ w.reads a;
      lonely = h.lonely q w.new w.new_present w.lonely;
      fresh = w.fresh;
    }

-- Clone of one range.
clone-IsTwin :
    (s : Store) (p : ℕ) (r : MappedRange)
    → IsValid s
    → IsNoParent s p
    → s.object p ≡ some r
    → (q : ℕ) × (s' : Store) × (clone s p ≡ done (q, s')) × IsTwin s p s' q × Stays s s'
clone-IsTwin s p r v alone e =
    let (q, s', made, w) = clone-IsClone s p r v alone e in
    let (q2, s2, made2, h2) = clone_shape s p r v e alone in
    let same : ◌≡◌ {A = ℕ × Store} (q2, s2) (q, s') = done-injective _ _ (sym made2 ∙ made) in
    let h : IsShaped s p q r s' = subst (λ (x : ℕ × Store). IsShaped s p x.0 r x.1) same h2 in
    let (t, there, shape) = h.twin in
    (
      q,
      s',
      made,
      record {
        old = r;
        new = t;
        old_present = e;
        new_present = there;
        shape = shape;
        reads = w.twin;
        lonely = h.twin_no_parent;
        fresh = λ valid. w.is_new;
      },
      record {
        object = λ k o f. elim (ℕ_discrete k p) [
          | yes here ↦
              let (t', there', shape') = h.self in
              let same_range : r ≡ o = ground arith in
              subst (λ x. (o' : MappedRange) × (s'.object k ≡ some o') × IsSameShape o' x)
                same_range (t', ground (arith, there', here), shape')
          | no other ↦ (o, h.others k o other f, (refl, refl, refl))
        ];
        reads = λ k a o f. elim (ℕ_discrete k p) [
          | yes here ↦ rw here (w.self a)
          | no other ↦ w.others k a o f other
        ];
        lonely = h.no_parent;
        still_valid = w.still_valid;
      },
    )

abbrev pub IsCloneable : Store → ℕ → Type 0
IsCloneable s p = (r : MappedRange) × (s.object p ≡ some r) × IsNoParent s p

-- One by one.
abbrev pub Twins : Store → Store → List ℕ → List ℕ → Type 0
Twins s s' [] [] = Unit {0}
Twins s s' [] (q ∷ qs) = ⊥
Twins s s' (p ∷ ps) [] = ⊥
Twins s s' (p ∷ ps) (q ∷ qs) = IsTwin s p s' q × Twins s s' ps qs

Twins-before :
    (s s1 s' : Store) (ps qs : List ℕ)
    → Stays s s1
    → All (IsCloneable s) ps
    → Twins s1 s' ps qs
    → Twins s s' ps qs
Twins-before s s1 s' [] [] h good w = tt
Twins-before s s1 s' [] (q ∷ qs) h good w = w
Twins-before s s1 s' (p ∷ ps) [] h good w = w
Twins-before s s1 s' (p ∷ ps) (q ∷ qs) h ((r, e, alone), good) (w, ws) =
    (IsTwin-before s s1 p r s' q h e w, Twins-before s s1 s' ps qs h good ws)

IsCloneable-Stays : (s s1 : Store) (p : ℕ) → Stays s s1 → IsCloneable s p → IsCloneable s1 p
IsCloneable-Stays s s1 p h (r, e, alone) =
    let (r', e', _) = h.object p r e in (r', e', h.lonely p r e alone)

-- A range that is not valid is shared.
one-IsTwin :
    (s : Store) (p : ℕ) (r : MappedRange) (valid : Bool)
    → IsValid s
    → s.object p ≡ some r
    → IsNoParent s p
    → is_valid_body r.body ≡ valid
    → (q : ℕ) × (s' : Store) × ((if valid then clone s p else done (p, s)) ≡ done (q, s'))
      × IsTwin s p s' q
      × Stays s s'
one-IsTwin s p r true v e alone b = clone-IsTwin s p r v alone e
one-IsTwin s p r false v e alone b = (
  p,
  s,
  refl,
  record {
    old = r;
    new = r;
    old_present = e;
    new_present = e;
    shape = (refl, refl, refl);
    reads = λ a. refl;
    lonely = alone;
    fresh = λ valid. cc;
  },
  Stays-refl s v,
)

pub clone_maps-Twins :
    (s : Store) (ps : List ℕ)
    → IsValid s
    → All (IsCloneable s) ps
    → (qs : List ℕ) × (s' : Store) × (clone_maps s ps ≡ done (qs, s'))
      × Twins s s' ps qs
      × Stays s s'
unfolding clone_maps
clone_maps-Twins s [] v good = ([], s, refl, tt, Stays-refl s v)
clone_maps-Twins s (p ∷ ps) v ((r, e, alone), good) =
    let valid = is_valid_lem s p r v e in
    let (q, s1, made, w, h) = one-IsTwin s p r (is_valid_body r.body) v e alone refl in
    let good1 =
      All-map (IsCloneable s) (IsCloneable s1) ps (λ k. IsCloneable-Stays s s1 k h) good in
    let (qs, s', made', ws, h') = clone_maps-Twins s1 ps h.still_valid good1 in
    (
      q ∷ qs,
      s',
      rw (valid, made, made') refl,
      (IsTwin-after s s1 p s' q w h', Twins-before s s1 s' ps qs h good ws),
      Stays-trans s s1 s' h h',
    )
