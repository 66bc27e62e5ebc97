-- ===== src/Decoder/Rounds.antt =====
-- The loop over the work list ends.
use vmill.Prelude.{
  ℕ, zero, suc, ◌+◌, ◌*◌, ◌≡◌, ◌≤◌, ◌<◌, refl, Bool, true, false, Bool-cases, inl, inr,
  Option-cases, length, List, [], ◌∷◌, All, ltb, ◌==◌, if◌then◌else◌, arith, done,
}
use vmill.Decoder.{
  Instruction, is_direct_call, Category, category_invalid, category_error, category_indirect_jump,
  category_function_return, category_async_hyper_call, category_indirect_function_call,
  category_direct_function_call, category_normal, category_no_op,
  category_conditional_async_hyper_call, category_direct_jump, category_conditional_branch,
  Decoding, insert_pc, find_inst, direct_successors, successors, add_called, decode_new, decode_one,
  decode_loop,
}
use vmill.Decoder.Lists.{
  IsAscending, IsAscending-weaken, insert_pc-All, insert_all-All, insert_all-IsAscending,
  length-insert_all, missing, missing-insert,
}

-- The program counters that an instruction leads to are below `n`.
abbrev pub IsWithin : ℕ → Instruction → Type 0
IsWithin n i = (i.next_pc < n) × (i.branch_taken_pc < n)

successors-All :
    (P : ℕ → Type 0) (c : Category) (next taken : ℕ)
    → P next
    → P taken
    → All P (direct_successors c next taken)
successors-All P category_invalid next taken h k = tt
successors-All P category_error next taken h k = tt
successors-All P category_indirect_jump next taken h k = tt
successors-All P category_function_return next taken h k = tt
successors-All P category_async_hyper_call next taken h k = tt
successors-All P category_indirect_function_call next taken h k = (h, tt)
successors-All P category_direct_function_call next taken h k = (h, tt)
successors-All P category_normal next taken h k = (h, tt)
successors-All P category_no_op next taken h k = (h, tt)
successors-All P category_conditional_async_hyper_call next taken h k = (h, tt)
successors-All P category_direct_jump next taken h k = (k, tt)
successors-All P category_conditional_branch next taken h k = (k, (h, tt))

length-successors : (c : Category) (next taken : ℕ) → length (direct_successors c next taken) ≤ 2
length-successors c next taken = ground arith

module _ (n : ℕ) (decode : ℕ → Bool × Instruction) where
  abbrev pub work_left : Decoding → ℕ
  work_left d = 2 * missing n d.instructions + length d.work

  -- What the rounds keep: the work list is a set of program counters below `n`.
  pub record IsReady (d : Decoding) : Type 0 where
    pub below : All (λ p. p < n) d.work
    pub ascending : IsAscending 0 d.work
    pub later_below : All (λ p. p < n) d.later

  -- A round on a program counter that was taken off the list.
  record IsRound (pc : ℕ) (d : Decoding) (stop : Bool) (d' : Decoding) : Type 0 where
    ready : IsReady d'
    less : work_left d' ≤ work_left d

  add_called-All :
      (i : Instruction) (traces : List ℕ)
      → i.branch_taken_pc < n
      → All (λ p. p < n) traces
      → All (λ p. p < n) (add_called i traces)
  unfolding add_called
  add_called-All i traces small h =
      either (is_direct_call i.category) (i.branch_taken_pc == i.next_pc)
    where
      either :
          (b c : Bool)
          → All
              (λ p. p < n)
              (if b then if c then traces else insert_pc i.branch_taken_pc traces else traces)
      either true true = h
      either true false = insert_pc-All (λ p. p < n) i.branch_taken_pc traces small h
      either false c = h

  decode_one-IsRound :
      (pc : ℕ) (d : Decoding)
      → pc < n
      → IsWithin n (decode pc).1
      → IsReady d
      → IsRound pc d (decode_one decode pc d).0 (decode_one decode pc d).1
  unfolding decode_new
  decode_one-IsRound pc d small within h =
      let inst = (decode pc).1 in
      elim (Option-cases (find_inst d.instructions pc)) [
        | inl new ↦
            let fewer = missing-insert n pc inst d.instructions new in
            elim (Bool-cases (decode pc).0) [
              | inl decoded ↦
                  rw (new, decoded)
                    (record {
                      ready = record {
                        below =
                            insert_all-All (λ p. p < n) (successors inst) d.work
                              (successors-All (λ p. p < n) inst.category inst.next_pc
                                inst.branch_taken_pc within.0 within.1)
                              h.below;
                        ascending = insert_all-IsAscending (successors inst) d.work h.ascending;
                        later_below = add_called-All inst d.later within.1 h.later_below;
                      };
                      less =
                          less_work inst d.work _ _ _ fewer
                            (length-insert_all (successors inst) d.work);
                    })
              | inr failed ↦
                  rw (new, failed)
                    (record {
                      ready = record {
                        below = h.below;
                        ascending = h.ascending;
                        later_below = h.later_below;
                      };
                      less = less_kept _ _ (length d.work) fewer;
                    })
            ]
        | inr (i, known) ↦ rw known (record { ready = h; less = omega arith })
      ]
    where
      less_work :
          (inst : Instruction) (ws : List ℕ) (m m' l : ℕ)
          → m ≡ (if ltb pc n then 1 else 0) + m'
          → l ≤ length (successors inst) + length ws
          → 2 * m' + l ≤ 2 * m + length ws
      less_work inst ws m m' l fewer longer =
          let two = length-successors inst.category inst.next_pc inst.branch_taken_pc in
          ground arith

      less_kept : (m m' l : ℕ) → m ≡ (if ltb pc n then 1 else 0) + m' → 2 * m' + l ≤ 2 * m + l
      less_kept m m' l fewer = ground arith

  loop_ends :
      ((pc : ℕ) → IsWithin n (decode pc).1)
      → (fuel : ℕ) (ws : List ℕ) (insts : List (ℕ × Instruction)) (ls : List ℕ)
      → IsReady (record { work = ws; instructions = insts; later = ls })
      → 2 * missing n insts + length ws ≤ fuel
      → (d' : Decoding) × (decode_loop decode fuel
            (record { work = ws; instructions = insts; later = ls })
          ≡ done d')
        × IsReady d'
  unfolding decode_loop
  loop_ends within zero [] insts ls h le =
      (record { work = []; instructions = insts; later = ls }, refl, h)
  loop_ends within (suc fuel) [] insts ls h le =
      (record { work = []; instructions = insts; later = ls }, refl, h)
  loop_ends within zero (pc ∷ rest) insts ls h le = absurd (omega arith)
  loop_ends within (suc fuel) (pc ∷ rest) insts ls h le =
      let d : Decoding = record { work = rest; instructions = insts; later = ls } in
      let ready : IsReady d = record {
        below = h.below.1;
        ascending = IsAscending-weaken 0 (suc pc) rest (omega arith) h.ascending.1;
        later_below = h.later_below;
      } in
      let round = decode_one-IsRound pc d h.below.0 (within pc) ready in
      let d1 = (decode_one decode pc d).1 in
      let (d', ends, kept) =
        loop_ends within fuel d1.work d1.instructions d1.later round.ready
          (omega (arith, round.less)) in
      elim (Bool-cases (decode_one decode pc d).0) [
        | inl stop ↦ (d1, rw stop refl, round.ready)
        | inr onward ↦ (d', rw onward ends, kept)
      ]

  -- With as many rounds as there may be work, the loop ends, and the list is a set still.
  pub decode_loop_ends :
      ((pc : ℕ) → IsWithin n (decode pc).1)
      → (fuel : ℕ) (d : Decoding) → IsReady d
      → work_left d ≤ fuel
      → (d' : Decoding) × (decode_loop decode fuel d ≡ done d') × IsReady d'
  decode_loop_ends within fuel d h le = loop_ends within fuel d.work d.instructions d.later h le
