-- ===== src/Removal/Coverage/Parts.antt =====
-- One range cut by RemoveRange, in each of the five branches.
use vmill.Prelude.{
  ℕ, ◌-◌, ◌%◌, ◌≤◌, ◌<◌, ◌≡◌, ◌⊎◌, inl, inr, ap, sym, ◌∙◌, Bool, [], ◌∷◌, arith, Outcome, done,
  page_size,
}
use vmill.Range.{Store}
use vmill.Range.Duplicates.{copy}
use vmill.Range.Frame.{IsValid}
use vmill.Range.Copies.{IsCopy, copy-IsCopy}
use vmill.Removal.{apart, inside, around, prefix, suffix, overlap, carve}
use vmill.Removal.Coverage.{
  Holds, IsCuttable, Keeps, IsOutside, IsCut, Cuts, Keeps-refl, Keeps-copy,
}

-- A copy is one still after the store has grown.
pub IsCopy-Keeps :
    (s : Store) (p b l q : ℕ) (s1 s2 : Store)
    → Keeps s1 s2
    → IsValid s2
    → IsCopy s p b l q s1
    → IsCopy s p b l q s2
IsCopy-Keeps s p b l q s1 s2 k v w = record {
  is_new = w.is_new;
  self = w.self;
  present = k.objects q w.self w.present;
  at_base = w.at_base;
  at_limit = w.at_limit;
  same_bytes = λ a lo hi. k.reads q a w.self w.present ∙ w.same_bytes a lo hi;
  others = λ j a o e. k.reads j a o (w.keeps j o e) ∙ w.others j a o e;
  keeps = λ j o e. k.objects j o (w.keeps j o e);
  still_valid = v;
}

module _ (s : Store) (p : ℕ) (base limit : ℕ) (v : IsValid s) (c : IsCuttable s base limit p)
    (base_aligned : base % page_size ≡ 0) (limit_aligned : limit % page_size ≡ 0)
    (ordered : base < limit) where
  -- A copied part holds what the range holds there, and nothing else.
  pub part_forth :
      (s0 : Store) (b l q : ℕ) (s' : Store) (a : ℕ) (x : Outcome (Bool × ℕ))
      → Keeps s s0
      → IsCopy s0 p b l q s'
      → b ≤ a
      → a < l
      → Holds s a x p
      → Holds s' a x q
  part_forth s0 b l q s' a x k w lo hi h = record {
    range = w.self;
    present = w.present;
    above = omega (arith, w.at_base);
    under = omega (arith, w.at_limit);
    reads = w.same_bytes a lo hi ∙ k.reads p a c.range c.present ∙ h.reads;
  }

  pub part_back :
      (s0 : Store) (b l q : ℕ) (s' : Store) (a : ℕ) (x : Outcome (Bool × ℕ))
      → Keeps s s0
      → IsCopy s0 p b l q s'
      → (c.range).base_address ≤ b
      → l ≤ (c.range).limit_address
      → Holds s' a x q
      → Holds s a x p
  part_back s0 b l q s' a x k w lo hi h =
      let same : h.range ≡ w.self = ground (arith, h.present, w.present) in
      let from_base : b ≤ a = omega (arith, h.above, ap (λ o. o.base_address) same, w.at_base) in
      let to_limit : a < l = omega (arith, h.under, ap (λ o. o.limit_address) same, w.at_limit) in
      record {
        range = c.range;
        present = c.present;
        above = omega (arith, lo, from_base);
        under = omega (arith, hi, to_limit);
        reads = sym (w.same_bytes a from_base to_limit ∙ k.reads p a c.range c.present) ∙ h.reads;
      }

  abbrev pub Cut : Type 0
  Cut = Cuts s (p ∷ []) base limit (carve s p base limit)

  pub Cut-apart : overlap (c.range).base_address (c.range).limit_address base limit ≡ apart → Cut
  unfolding carve
  Cut-apart o = (
    p ∷ [],
    s,
    ground (arith, c.present),
    record {
      keeps = Keeps-refl s;
      still_valid = v;
      in_store = ((c.range, c.present), tt);
      forth = λ a x out h. h;
      back = λ a x out h. h;
    },
  )

  -- The range that `Holds` speaks of is the one that is cut.
  pub bounds :
      (a : ℕ) (x : Outcome (Bool × ℕ))
      → Holds s a x p
      → ((c.range).base_address ≤ a) × (a < (c.range).limit_address)
  bounds a x h =
      let same : h.range ≡ c.range = ground (arith, h.present, c.present) in
      (
        omega (arith, h.above, ap (λ o. o.base_address) same),
        omega (arith, h.under, ap (λ o. o.limit_address) same),
      )

  inside_bounds : (b l : ℕ) → overlap b l base limit ≡ inside → (base ≤ b) × (l ≤ limit)
  unfolding overlap
  inside_bounds b l o = ground arith

  pub Cut-inside : overlap (c.range).base_address (c.range).limit_address base limit ≡ inside → Cut
  unfolding carve
  Cut-inside o =
      let within = inside_bounds (c.range).base_address (c.range).limit_address o in
      (
        [],
        s,
        ground (arith, c.present),
        record {
          keeps = Keeps-refl s;
          still_valid = v;
          in_store = tt;
          forth = λ a x out h. elim h [
            | inl held ↦
                let at = bounds a x held in
                absurd (omega (arith, out, at.0, at.1, within.0, within.1))
            | inr none' ↦ none'
          ];
          back = λ a x out h. absurd h;
        },
      )

  pub around_bounds : (b l : ℕ) → overlap b l base limit ≡ around → (b < base) × (limit < l)
  unfolding overlap
  around_bounds b l o = ground arith

  pub prefix_bounds : (b l : ℕ) → overlap b l base limit ≡ prefix → (b ≡ base) × (limit < l)
  unfolding overlap
  prefix_bounds b l o = ground arith

  pub suffix_bounds :
      (b l : ℕ)
      → (limit ≤ b) ⊎ (b ≤ base) ⊎ (l ≤ limit)
      → overlap b l base limit ≡ suffix
      → (b < base) × (base < l) × (l ≤ limit)
  unfolding overlap
  suffix_bounds b l not_top o = ground arith

  -- The part of the range over [b, l), copied from a store that keeps those of `s`.
  pub part :
      (s0 : Store) (b l : ℕ)
      → Keeps s s0
      → IsValid s0
      → (c.range).base_address ≤ b
      → b ≤ l
      → l ≤ (c.range).limit_address
      → (l - b) % page_size ≡ 0
      → (q : ℕ) × (s' : Store) × (copy s0 p b l ≡ done (q, s')) × IsCopy s0 p b l q s'
  part s0 b l k v0 lo mid hi whole =
      copy-IsCopy s0 p c.range v0 (k.objects p c.range c.present) c.paged b l lo mid hi whole
        c.plain

  -- One part is kept, and it is all of the range that lies outside.
  pub one_part :
      (b l : ℕ)
      → (c.range).base_address ≤ b
      → l ≤ (c.range).limit_address
      → ((a : ℕ)
          → IsOutside base limit a
          → (c.range).base_address ≤ a
          → a < (c.range).limit_address
          → (b ≤ a) × (a < l))
      → (q : ℕ) (s' : Store) → IsCopy s p b l q s'
      → IsCut s (p ∷ []) base limit (q ∷ []) s'
  one_part b l lo hi all q s' w = record {
    keeps = Keeps-copy s p b l q s' w;
    still_valid = w.still_valid;
    in_store = ((w.self, w.present), tt);
    forth = λ a x out h. elim h [
      | inl held ↦
          let at = bounds a x held in
          let within = all a out at.0 at.1 in
          inl (part_forth s b l q s' a x (Keeps-refl s) w within.0 within.1 held)
      | inr none' ↦ inr none'
    ];
    back = λ a x out h. elim h [
      | inl held ↦ inl (part_back s b l q s' a x (Keeps-refl s) w lo hi held)
      | inr none' ↦ inr none'
    ];
  }
