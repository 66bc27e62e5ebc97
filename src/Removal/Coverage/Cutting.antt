-- ===== src/Removal/Coverage/Cutting.antt =====
-- RemoveRange over a list of ranges, none of which sticks out of [base, limit) at the top only.
use vmill.Prelude.{
  ℕ, ◌-◌, ◌%◌, ◌≤◌, ◌<◌, ◌≡◌, inl, inr, refl, Bool, List, [], ◌∷◌, ◌++◌, Any-left, Any-right,
  Any-split, Any-map, All, All-map, All-append, Any-map-All, arith, Outcome, done, page_size,
}
use vmill.Range.{Store}
use vmill.Range.Duplicates.{copy}
use vmill.Range.Frame.{IsValid}
use vmill.Range.Copies.{IsCopy}
use vmill.Removal.{around, prefix, suffix, overlap, Overlap-cases, carve, remove_range}
use vmill.Removal.Coverage.{
  Holds, Covers, IsCuttable, Keeps, Keeps-trans, Holds-Keeps, IsCuttable-Keeps, IsOutside, IsCut,
  Cuts, Keeps-refl, Keeps-copy, IsPresent, Holds-back,
}
use vmill.Removal.Coverage.Parts.{
  IsCopy-Keeps, part_forth, part_back, bounds, Cut, Cut-apart, Cut-inside, around_bounds,
  prefix_bounds, suffix_bounds, part, one_part,
}

module _ (s : Store) (p : ℕ) (base limit : ℕ) (v : IsValid s) (c : IsCuttable s base limit p)
    (base_aligned : base % page_size ≡ 0) (limit_aligned : limit % page_size ≡ 0)
    (ordered : base < limit) where
  abbrev low_base : ℕ
  low_base = (c.range).base_address

  abbrev high_limit : ℕ
  high_limit = (c.range).limit_address

  one_cut :
      (b l : ℕ)
      → ((q : ℕ) (s' : Store)
          → copy s p b l ≡ done (q, s')
          → carve s p base limit ≡ done (q ∷ [], s'))
      → low_base ≤ b
      → b ≤ l
      → l ≤ high_limit
      → (l - b) % page_size ≡ 0
      → ((a : ℕ) → IsOutside base limit a → low_base ≤ a → a < high_limit → (b ≤ a) × (a < l))
      → Cut s p base limit v c base_aligned limit_aligned ordered
  one_cut b l steps lo mid hi whole all =
      let (q, s', made, w) =
        part s p base limit v c base_aligned limit_aligned ordered s b l (Keeps-refl s) v lo mid hi
          whole in
      (
        q ∷ [],
        s',
        steps q s' made,
        one_part s p base limit v c base_aligned limit_aligned ordered b l lo hi all q s' w,
      )

  Cut-prefix :
      overlap low_base high_limit base limit ≡ prefix
      → Cut s p base limit v c base_aligned limit_aligned ordered
  unfolding carve
  Cut-prefix o =
      let at =
        prefix_bounds s p base limit v c base_aligned limit_aligned ordered low_base high_limit o in
      one_cut limit high_limit (λ q s' made. ground (arith, c.present)) (omega arith) (omega arith)
        (omega arith) (omega (arith, c.aligned, (c.paged).whole))
        (λ a out lo hi. (omega (arith, out), omega arith))

  Cut-suffix :
      overlap low_base high_limit base limit ≡ suffix
      → Cut s p base limit v c base_aligned limit_aligned ordered
  unfolding carve
  Cut-suffix o =
      let at =
        suffix_bounds s p base limit v c base_aligned limit_aligned ordered low_base high_limit
          c.not_top o in
      one_cut low_base base (λ q s' made. ground (arith, c.present)) (omega arith) (omega arith)
        (omega arith) (omega (arith, c.aligned, base_aligned))
        (λ a out lo hi. (omega arith, omega (arith, out)))

  -- Two parts are kept, the one below `base` and the one from `limit` on.
  two_parts :
      (q1 q2 : ℕ) (s1 s2 : Store)
      → low_base ≤ base
      → limit ≤ high_limit
      → IsCopy s p low_base base q1 s1
      → IsCopy s1 p limit high_limit q2 s2
      → IsCut s (p ∷ []) base limit (q1 ∷ q2 ∷ []) s2
  two_parts q1 q2 s1 s2 lo hi w1 w2 =
      let k1 = Keeps-copy s p low_base base q1 s1 w1 in
      let k2 = Keeps-copy s1 p limit high_limit q2 s2 w2 in
      let w1' = IsCopy-Keeps s p low_base base q1 s1 s2 k2 w2.still_valid w1 in
      record {
        keeps = Keeps-trans s s1 s2 k1 k2;
        still_valid = w2.still_valid;
        in_store = ((w1'.self, w1'.present), ((w2.self, w2.present), tt));
        forth = λ a x out h. elim h [
          | inl held ↦ elim out [
            | inl under ↦ inl (
                part_forth s p base limit v c base_aligned limit_aligned ordered s low_base base q1
                  s2 a x (Keeps-refl s) w1'
                  (bounds s p base limit v c base_aligned limit_aligned ordered a x held).0 under
                  held)
            | inr above ↦ inr (
                inl (
                  part_forth s p base limit v c base_aligned limit_aligned ordered s1 limit
                    high_limit q2 s2 a x k1 w2 above
                    (bounds s p base limit v c base_aligned limit_aligned ordered a x held).1 held))
          ]
          | inr none' ↦ inr (inr none')
        ];
        back = λ a x out h. elim h [
          | inl held ↦ inl (
              part_back s p base limit v c base_aligned limit_aligned ordered s low_base base q1 s2
                a x (Keeps-refl s) w1' (omega arith) (omega (arith, hi, ordered)) held)
          | inr (inl held) ↦ inl (
              part_back s p base limit v c base_aligned limit_aligned ordered s1 limit high_limit q2
                s2 a x k1 w2 (omega (arith, lo, ordered)) (omega arith) held)
          | inr (inr none') ↦ inr none'
        ];
      }

  Cut-around :
      overlap low_base high_limit base limit ≡ around
      → Cut s p base limit v c base_aligned limit_aligned ordered
  unfolding carve
  Cut-around o =
      let at =
        around_bounds s p base limit v c base_aligned limit_aligned ordered low_base high_limit o in
      let (q1, s1, made1, w1) =
        part s p base limit v c base_aligned limit_aligned ordered s low_base base (Keeps-refl s) v
          (omega arith) (omega arith) (omega arith) (omega (arith, c.aligned, base_aligned)) in
      let (q2, s2, made2, w2) =
        part s p base limit v c base_aligned limit_aligned ordered s1 limit high_limit
          (Keeps-copy s p low_base base q1 s1 w1) w1.still_valid (omega arith) (omega arith)
          (omega arith) (omega (arith, c.aligned, (c.paged).whole)) in
      (
        q1 ∷ q2 ∷ [],
        s2,
        ground (arith, c.present, made1, made2),
        two_parts q1 q2 s1 s2 (omega arith) (omega arith) w1 w2,
      )

  carve-Cuts : Cut s p base limit v c base_aligned limit_aligned ordered
  carve-Cuts = elim (Overlap-cases (overlap low_base high_limit base limit)) [
    | inl o ↦ Cut-apart s p base limit v c base_aligned limit_aligned ordered o
    | inr (inl o) ↦ Cut-inside s p base limit v c base_aligned limit_aligned ordered o
    | inr (inr (inl o)) ↦ Cut-around o
    | inr (inr (inr (inl o))) ↦ Cut-prefix o
    | inr (inr (inr (inr o))) ↦ Cut-suffix o
  ]

module _ (base limit : ℕ) (base_aligned : base % page_size ≡ 0)
    (limit_aligned : limit % page_size ≡ 0) (ordered : base < limit) where
  IsCuttable-after :
      (s s' : Store) (ps : List ℕ)
      → Keeps s s'
      → All (IsCuttable s base limit) ps
      → All (IsCuttable s' base limit) ps
  IsCuttable-after s s' ps k =
      All-map (IsCuttable s base limit) (IsCuttable s' base limit) ps
        (λ p. IsCuttable-Keeps s s' base limit p k)

  -- One result after another.
  IsCut-append :
      (s s0 s1 : Store) (p : ℕ) (ps kept0 kept1 : List ℕ)
      → All (IsCuttable s base limit) ps
      → IsCut s (p ∷ []) base limit kept0 s0
      → IsCut s0 ps base limit kept1 s1
      → IsCut s (p ∷ ps) base limit (kept0 ++ kept1) s1
  IsCut-append s s0 s1 p ps kept0 kept1 good c d = record {
    keeps = Keeps-trans s s0 s1 c.keeps d.keeps;
    still_valid = d.still_valid;
    forth = λ a x out h. elim h [
      | inl held ↦ Any-left (Holds s1 a x) kept0 kept1 (
          Any-map (Holds s0 a x) (Holds s1 a x) kept0 (λ q. Holds-Keeps s0 s1 a x q d.keeps)
            (c.forth a x out (inl held)))
      | inr later ↦ Any-right (Holds s1 a x) kept0 kept1 (
          d.forth a x out
            (Any-map (Holds s a x) (Holds s0 a x) ps (λ q. Holds-Keeps s s0 a x q c.keeps) later))
    ];
    back = λ a x out h. elim (Any-split (Holds s1 a x) kept0 kept1 h) [
      | inl first ↦ elim (c.back a x out (first_back a x first)) [
        | inl held ↦ inl held
        | inr none' ↦ absurd none'
      ]
      | inr later ↦ inr (later_back a x (d.back a x out later))
    ];
    in_store = All-append (IsPresent s1) kept0 kept1 (kept_present kept0 c.in_store) d.in_store;
  }
    where
      first_back : (a : ℕ) (x : Outcome (Bool × ℕ)) → Covers s1 kept0 a x → Covers s0 kept0 a x
      first_back a x =
          Any-map-All (Holds s1 a x) (IsPresent s0) (Holds s0 a x) kept0 c.in_store
            (λ q. Holds-back s0 s1 a x q d.keeps)

      later_back : (a : ℕ) (x : Outcome (Bool × ℕ)) → Covers s0 ps a x → Covers s ps a x
      later_back a x =
          Any-map-All (Holds s0 a x) (IsCuttable s base limit) (Holds s a x) ps good
            (λ q g. Holds-back s s0 a x q c.keeps (g.range, g.present))

      kept_present : (qs : List ℕ) → All (IsPresent s0) qs → All (IsPresent s1) qs
      kept_present qs =
          All-map (IsPresent s0) (IsPresent s1) qs (λ q o. (o.0, d.keeps.objects q o.0 o.1))

  -- In a valid store, RemoveRange of a non-empty page-aligned [base, limit) from ranges of which
  -- none that it cuts is copy-on-write, or sticks out at the top only, succeeds; the ranges of the
  -- store stay as they are, and for each address outside of [base, limit) and each read: some
  -- range of the result has that read there exactly when some range of the list had it.
  pub remove_range-Cuts :
      (s : Store) (ps : List ℕ)
      → IsValid s
      → All (IsCuttable s base limit) ps
      → Cuts s ps base limit (remove_range s ps base limit)
  unfolding remove_range
  remove_range-Cuts s [] v good = (
    [],
    s,
    refl,
    record {
      keeps = Keeps-refl s;
      still_valid = v;
      in_store = tt;
      forth = λ a x out h. h;
      back = λ a x out h. h;
    },
  )
  remove_range-Cuts s (p ∷ ps) v good =
      let (kept0, s0, made0, cut0) =
        carve-Cuts s p base limit v good.0 base_aligned limit_aligned ordered in
      let (kept1, s1, made1, cut1) =
        remove_range-Cuts s0 ps cut0.still_valid (IsCuttable-after s s0 ps cut0.keeps good.1) in
      (
        kept0 ++ kept1,
        s1,
        rw (made0, made1),
        IsCut-append s s0 s1 p ps kept0 kept1 good.1 cut0 cut1,
      )
