-- ===== src/Decoder/Closure.antt =====
-- A trace is closed under direct control flow, unless an instruction in it cannot be decoded.
use vmill.Prelude.{
  ℕ, zero, suc, ◌≡◌, ◌⊎◌, refl, sym, ap, ◌∙◌, subst, Bool, true, false, ◌||◌, Bool-cases, inl, inr,
  none, some, Option-cases, elem, List, [], ◌∷◌, arith, done, done-injective, ℕ_discrete,
}
use vmill.Decoder.{
  Instruction, Decoding, find_inst, insert_inst, is_known, insert_all, successors, decode_new,
  decode_one, decode_loop,
}
use vmill.Decoder.Lists.{find-insert, is_known-insert, elem-insert_all}

module _ (decode : ℕ → Bool × Instruction) where
  -- Each instruction is what is decoded at its address, and cannot be decoded, or what it leads to is
  -- decoded or on the list.
  abbrev pub IsFollowed : List (ℕ × Instruction) → List ℕ → Type 0
  IsFollowed insts ws =
      (pc : ℕ) (i : Instruction)
      → find_inst insts pc ≡ some i
      → (i ≡ (decode pc).1)
        × (((decode pc).0 ≡ false)
            ⊎ ((q : ℕ) → elem q (successors i) ≡ true → (is_known insts q || elem q ws) ≡ true))

  -- A round loses nothing that is known or on the list.
  abbrev Kept : List (ℕ × Instruction) → List ℕ → List (ℕ × Instruction) → List ℕ → Type 0
  Kept insts ws insts' ws' =
      (q : ℕ) → (is_known insts q || elem q ws) ≡ true → (is_known insts' q || elem q ws') ≡ true

  IsFollowed-Kept :
      (insts : List (ℕ × Instruction)) (ws ws' : List ℕ)
      → Kept insts ws insts ws'
      → IsFollowed insts ws
      → IsFollowed insts ws'
  IsFollowed-Kept insts ws ws' kept h pc i e =
      let (same, next) = h pc i e in
      (same, elim next [ inl failed ↦ inl failed | inr all ↦ inr (λ q m. kept q (all q m)) ])

  -- A round on the program counter `pc`, which was taken off the list.
  record IsFollowing (pc : ℕ) (d : Decoding) (stop : Bool) (d' : Decoding) : Type 0 where
    followed : IsFollowed d'.instructions d'.work
    kept : Kept d.instructions (pc ∷ d.work) d'.instructions d'.work
    failed : stop ≡ true → (is_known d'.instructions pc ≡ true) × ((decode pc).0 ≡ false)

  known_round :
      (pc : ℕ) (d : Decoding)
      → is_known d.instructions pc ≡ true
      → IsFollowed d.instructions (pc ∷ d.work)
      → IsFollowing pc d false d
  known_round pc d known h =
      let kept : Kept d.instructions (pc ∷ d.work) d.instructions d.work = λ q m. in_list q m in
      record {
        followed = IsFollowed-Kept d.instructions (pc ∷ d.work) d.work kept h;
        kept = kept;
        failed = λ s. absurd (cc);
      }
    where
      in_list :
          (q : ℕ)
          → (is_known d.instructions q || elem q (pc ∷ d.work)) ≡ true
          → (is_known d.instructions q || elem q d.work) ≡ true
      in_list q m = elim (ℕ_discrete q pc) [
        | yes same ↦ rw (same, known) refl
        | no other ↦ ground arith
      ]

  -- An instruction is added, and with it what it leads to.
  module _ (pc : ℕ) (insts : List (ℕ × Instruction)) (ws ws' : List ℕ) where
    abbrev grown : List (ℕ × Instruction)
    grown = insert_inst pc (decode pc).1 insts

    grown-Kept :
        find_inst insts pc ≡ none
        → ((q : ℕ) → elem q ws ≡ true → elem q ws' ≡ true)
        → Kept insts (pc ∷ ws) grown ws'
    grown-Kept new more q m =
        let known = is_known-insert pc (decode pc).1 insts q new in
        rw known (ground (arith, more q))

    grown-IsFollowed :
        find_inst insts pc ≡ none
        → ((q : ℕ) → elem q ws ≡ true → elem q ws' ≡ true)
        → (((decode pc).0 ≡ false)
            ⊎ ((q : ℕ) → elem q (successors (decode pc).1) ≡ true → elem q ws' ≡ true))
        → IsFollowed insts (pc ∷ ws)
        → IsFollowed grown ws'
    grown-IsFollowed new more next h j i e =
        let found = find-insert pc (decode pc).1 insts j new in
        elim (ℕ_discrete j pc) [
          | yes same ↦
              let this : i ≡ (decode pc).1 = ground (arith, found, e, same) in
              (
                rw same this,
                elim next [
                  | inl failed ↦ inl (rw same failed)
                  | inr all ↦
                      inr
                        (λ q m. on_list q (all q (ap (λ x. elem q (successors x)) (sym this) ∙ m)))
                ],
              )
          | no other ↦
              let (same, rest) = h j i (ground (arith, found, e, other)) in
              (
                same,
                elim rest [
                  | inl failed ↦ inl failed
                  | inr all ↦ inr (λ q m. grown-Kept new more q (all q m))
                ],
              )
        ]
      where
        on_list : (q : ℕ) → elem q ws' ≡ true → (is_known grown q || elem q ws') ≡ true
        on_list q m = ground (arith, m)

  new_round :
      (pc : ℕ) (d : Decoding)
      → find_inst d.instructions pc ≡ none
      → IsFollowed d.instructions (pc ∷ d.work)
      → IsFollowing pc d (decode_new decode pc d).0 (decode_new decode pc d).1
  unfolding decode_new
  new_round pc d new h =
      let next = successors (decode pc).1 in
      let more = λ (q : ℕ) (m : elem q d.work ≡ true).
        elem-insert_all q next d.work ∙ either (elem q next) (elem q d.work) (inr m) in
      let also = λ (q : ℕ) (m : elem q next ≡ true).
        elem-insert_all q next d.work ∙ either (elem q next) (elem q d.work) (inl m) in
      elim (Bool-cases (decode pc).0) [
        | inl decoded ↦ rw decoded (record {
          followed =
              grown-IsFollowed pc d.instructions d.work (insert_all next d.work) new more (inr also)
                h;
          kept = grown-Kept pc d.instructions d.work (insert_all next d.work) new more;
          failed = λ s. absurd (cc);
        })
        | inr fails ↦ rw fails (record {
          followed = grown-IsFollowed pc d.instructions d.work d.work new (λ q m. m) (inl fails) h;
          kept = grown-Kept pc d.instructions d.work d.work new (λ q m. m);
          failed =
              λ s. (is_known-insert pc (decode pc).1 d.instructions pc new ∙ ground arith, fails);
        })
      ]
    where
      either : (a b : Bool) → (a ≡ true) ⊎ (b ≡ true) → (a || b) ≡ true
      either a b (inl h) = ground arith
      either a b (inr h) = ground arith

  round-IsFollowing :
      (pc : ℕ) (d : Decoding)
      → IsFollowed d.instructions (pc ∷ d.work)
      → IsFollowing pc d (decode_one decode pc d).0 (decode_one decode pc d).1
  round-IsFollowing pc d h = elim (Option-cases (find_inst d.instructions pc)) [
    | inl new ↦ rw new (new_round pc d new h)
    | inr (i, known) ↦ rw known (known_round pc d (rw known refl) h)
  ]

  -- At the end, the list is empty or an instruction could not be decoded.
  pub record IsClosed (insts : List (ℕ × Instruction)) (ws : List ℕ) (d' : Decoding) : Type 0 where
    pub followed : IsFollowed d'.instructions d'.work
    pub kept : Kept insts ws d'.instructions d'.work
    pub ended :
        (d'.work ≡ []) ⊎ ((pc : ℕ) × (is_known d'.instructions pc ≡ true) × ((decode pc).0 ≡ false))

  closed :
      (insts : List (ℕ × Instruction)) (ls : List ℕ)
      → IsFollowed insts []
      → IsClosed insts [] (record { work = []; instructions = insts; later = ls })
  closed insts ls h = record { followed = h; kept = λ q m. m; ended = inl refl }

  pub loop-IsClosed :
      (fuel : ℕ) (ws : List ℕ) (insts : List (ℕ × Instruction)) (ls : List ℕ) (d' : Decoding)
      → IsFollowed insts ws
      → decode_loop decode fuel (record { work = ws; instructions = insts; later = ls }) ≡ done d'
      → IsClosed insts ws d'
  unfolding decode_loop
  loop-IsClosed zero [] insts ls d' h k =
      subst (IsClosed insts []) (done-injective _ _ k) (closed insts ls h)
  loop-IsClosed (suc fuel) [] insts ls d' h k =
      subst (IsClosed insts []) (done-injective _ _ k) (closed insts ls h)
  loop-IsClosed zero (pc ∷ rest) insts ls d' h k = absurd (ground arith)
  loop-IsClosed (suc fuel) (pc ∷ rest) insts ls d' h k =
      let d : Decoding = record { work = rest; instructions = insts; later = ls } in
      let round = round-IsFollowing pc d h in
      let d1 = (decode_one decode pc d).1 in
      elim (Bool-cases (decode_one decode pc d).0) [
        | inl stop ↦
            subst (IsClosed insts (pc ∷ rest)) (done-injective _ _ (rw stop at k)) (record {
              followed = round.followed;
              kept = round.kept;
              ended = inr (pc, (round.failed stop).0, (round.failed stop).1);
            })
        | inr onward ↦
            let rest_closed =
              loop-IsClosed fuel d1.work d1.instructions d1.later d' round.followed
                (rw onward at k) in
            record {
              followed = rest_closed.followed;
              kept = λ q m. rest_closed.kept q (round.kept q m);
              ended = rest_closed.ended;
            }
      ]
