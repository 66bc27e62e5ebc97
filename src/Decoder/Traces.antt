-- ===== src/Decoder/Traces.antt =====
-- DecodeTraces ends, and its traces are closed under direct control flow.
use vmill.Prelude.{
  ℕ, zero, suc, ◌+◌, ◌*◌, ◌≡◌, ◌≤◌, ◌<◌, ◌⊎◌, refl, ◌∙◌, subst, Bool, true, false, ◌||◌, Bool-cases,
  inl, inr, elem, List, [], ◌∷◌, All, ltb, if◌then◌else◌, update, arith, done, ℕ_discrete,
}
use vmill.Decoder.{
  Instruction, Decoding, DecodedTrace, Decoder, insert_pc, find_inst, is_known, decode_loop,
  decode_trace, trace_loop, decode_traces, hash_trace_instructions,
}
use vmill.Decoder.Lists.{
  IsAscending, insert_pc-IsAscending, length-IsAscending, insert_pc-All, elem-insert_pc, missing,
}
use vmill.Decoder.Rounds.{IsWithin, IsReady, decode_loop_ends}
use vmill.Decoder.Closure.{IsFollowed, IsClosed, loop-IsClosed}

-- How many of the numbers below `n` are not marked.
unfoldable unmarked : ℕ → (ℕ → Bool) → ℕ
unmarked zero marked = 0
unmarked (suc n) marked = (if marked n then 0 else 1) + unmarked n marked

unmarked-update :
    (n pc : ℕ) (marked : ℕ → Bool)
    → marked pc ≡ false
    → unmarked n marked ≡ (if ltb pc n then 1 else 0) + unmarked n (update marked pc true)
unfolding unmarked
unmarked-update zero pc marked new = ground arith
unmarked-update (suc n) pc marked new =
    let later = unmarked-update n pc marked new in
    elim (ℕ_discrete n pc) [
      | yes same ↦ let fresh : marked n ≡ false = rw same new in ground (arith, later, fresh)
      | no other ↦ ground (arith, later)
    ]

missing_none : (n : ℕ) → missing n [] ≤ n
unfolding missing find_inst
missing_none zero = omega arith
missing_none (suc n) = omega (arith, missing_none n)

module _ (n : ℕ) (decode : ℕ → Bool × Instruction)
    (within : (pc : ℕ) → IsWithin n (decode pc).1) where
  -- One trace, with what an earlier trace has left on the work list.
  pub trace_ends :
      (rounds pc : ℕ) (left ls : List ℕ)
      → pc < n
      → All (λ p. p < n) left
      → IsAscending 0 left
      → All (λ p. p < n) ls
      → 3 * n ≤ rounds
      → (d' : Decoding) × (decode_loop decode rounds
            (record { work = insert_pc pc left; instructions = []; later = ls })
          ≡ done d')
        × IsReady n decode d'
        × IsClosed decode [] (insert_pc pc left) d'
  unfolding find_inst
  trace_ends rounds pc left ls small below ascending later enough =
      let ws = insert_pc pc left in
      let below' = insert_pc-All (λ p. p < n) pc left small below in
      let ascending' = insert_pc-IsAscending 0 pc left (omega arith) ascending in
      let start : Decoding = record { work = ws; instructions = []; later = ls } in
      let ready : IsReady n decode start = record {
        below = below';
        ascending = ascending';
        later_below = later;
      } in
      let size = length-IsAscending n 0 ws (omega arith) ascending' below' in
      let (d', ends, kept) =
        decode_loop_ends n decode within rounds start ready (omega (arith, size, missing_none n)) in
      (d', ends, kept, loop-IsClosed decode rounds ws [] ls d' (λ q i e. absurd (cc)) ends)

  -- A trace has an instruction that cannot be decoded, or it has its head and with each instruction
  -- all that it leads to.
  abbrev pub IsTrace : DecodedTrace → Type 0
  IsTrace t =
      ((pc : ℕ) × (is_known t.instructions pc ≡ true) × ((decode pc).0 ≡ false))
      ⊎ ((is_known t.instructions t.pc ≡ true) × IsFollowed decode t.instructions [])

  head_known :
      (pc : ℕ) (left : List ℕ) (version hash : ℕ) (d' : Decoding)
      → IsClosed decode [] (insert_pc pc left) d'
      → IsTrace
          (record { pc = pc; code_version = version; hash = hash; instructions = d'.instructions })
  unfolding find_inst
  head_known pc left version hash d' h = elim h.ended [
    | inr failed ↦ inl failed
    | inl empty ↦ inr (
      reached (
          subst (λ ws. (is_known d'.instructions pc || elem pc ws) ≡ true) empty
            (h.kept pc (elem-insert_pc pc pc left ∙ ground arith))),
      subst (IsFollowed decode d'.instructions) empty h.followed,
    )
  ]
    where
      reached : {b : Bool} → (b || false) ≡ true → b ≡ true
      reached {b} e = ground arith

  module _ (code_version : ℕ → ℕ) (digest : ℕ → List (List ℕ) → ℕ) (rounds : ℕ)
      (enough : 3 * n ≤ rounds) where
    -- What the outer loop keeps.
    record IsGoing (s : Decoder) : Type 0 where
      heads : All (λ p. p < n) s.trace_list
      below : All (λ p. p < n) s.work_list
      ascending : IsAscending 0 s.work_list
      whole : All IsTrace s.traces

    abbrev Ends : Decoder → Type 0
    Ends s =
        (fuel : ℕ) × (s' : Decoder) × (trace_loop decode code_version digest rounds fuel s
          ≡ done s')
        × (s'.trace_list ≡ [])
        × All IsTrace s'.traces

    decode_trace-IsGoing :
        (pc : ℕ) (s : Decoder)
        → pc < n
        → IsGoing s
        → (s' : Decoder) × (decode_trace decode code_version digest rounds pc s ≡ done s')
          × (s'.marked ≡ update s.marked pc true)
          × IsGoing s'
    unfolding decode_trace
    decode_trace-IsGoing pc s small h =
        let (d, ends, ready, closed) =
          trace_ends rounds pc s.work_list s.trace_list small h.below h.ascending h.heads enough in
        let insts = d.instructions in
        let trace : DecodedTrace = record {
          pc = pc;
          code_version = code_version pc;
          hash = hash_trace_instructions decode code_version digest insts;
          instructions = insts;
        } in
        let s' : Decoder = record {
          trace_list = d.later;
          work_list = d.work;
          marked = update s.marked pc true;
          traces = trace ∷ s.traces;
        } in
        (
          s',
          rw ends refl,
          refl,
          record {
            heads = ready.later_below;
            below = ready.below;
            ascending = ready.ascending;
            whole = (head_known pc s.work_list trace.code_version trace.hash d closed, h.whole);
          },
        )

    abbrev state : List ℕ → List ℕ → (ℕ → Bool) → List DecodedTrace → Decoder
    state tl wl marked ts = record { trace_list = tl; work_list = wl; marked = marked; traces = ts }

    -- The loop ends from all states with fewer than `u` numbers that are not marked.
    abbrev EndsBelow : ℕ → Type 0
    EndsBelow u =
        (tl wl : List ℕ) (marked : ℕ → Bool) (ts : List DecodedTrace)
        → IsGoing (state tl wl marked ts)
        → unmarked n marked < u
        → Ends (state tl wl marked ts)

    list-Ends :
        (u : ℕ)
        → EndsBelow u
        → (tl wl : List ℕ) (marked : ℕ → Bool) (ts : List DecodedTrace)
        → IsGoing (state tl wl marked ts)
        → unmarked n marked ≤ u
        → Ends (state tl wl marked ts)
    unfolding trace_loop
    list-Ends u next [] wl marked ts h few = (0, state [] wl marked ts, refl, refl, h.whole)
    list-Ends u next (pc ∷ rest) wl marked ts h few =
        let taken = state rest wl marked ts in
        let going : IsGoing taken = record {
          heads = h.heads.1;
          below = h.below;
          ascending = h.ascending;
          whole = h.whole;
        } in
        elim (Bool-cases (marked pc)) [
          | inl old ↦
              let (fuel, s', ends, empty, whole) = list-Ends u next rest wl marked ts going few in
              (suc fuel, s', rw old ends, empty, whole)
          | inr new ↦
              let (s1, made, mark, going1) = decode_trace-IsGoing pc taken h.heads.0 going in
              let fewer = unmarked-update n pc marked new in
              let one : ◌≡◌ {A = ℕ} (if ltb pc n then 1 else 0) 1 = ground (arith, h.heads.0) in
              let less : unmarked n s1.marked < u = rw mark (omega (arith, fewer, one)) in
              let (fuel, s', ends, empty, whole) =
                next s1.trace_list s1.work_list s1.marked s1.traces going1 less in
              (suc fuel, s', rw (new, made) ends, empty, whole)
        ]

    ends_below : (u : ℕ) → EndsBelow u
    ends_below zero tl wl marked ts h few = absurd (omega arith)
    ends_below (suc u) tl wl marked ts h few =
        list-Ends u (ends_below u) tl wl marked ts h (omega arith)

    -- For a start below a number `n` and an instruction decoder that leads to program counters below
    -- `n`, with at least `3 * n` rounds for the loop over the work list, there is a number of rounds of
    -- the outer loop with which DecodeTraces ends, with no trace left to decode. Each of its traces has
    -- an instruction that cannot be decoded; or it has its head, and each of its instructions is what
    -- is decoded at its program counter and cannot be decoded, or has in the trace all that it directly
    -- leads to.
    pub decode_traces_ends :
        (marked : ℕ → Bool) (start_pc : ℕ)
        → start_pc < n
        → (fuel : ℕ) × (s' : Decoder) × (decode_traces decode code_version digest rounds fuel marked
              start_pc
            ≡ done s')
          × (s'.trace_list ≡ [])
          × All IsTrace s'.traces
    decode_traces_ends marked start_pc small =
        ends_below (suc (unmarked n marked)) (start_pc ∷ []) [] marked []
          (record { heads = (small, tt); below = tt; ascending = tt; whole = tt }) (omega arith)
