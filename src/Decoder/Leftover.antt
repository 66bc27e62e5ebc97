-- ===== src/Decoder/Leftover.antt =====
-- What DecodeTraces does with the work that a failed trace leaves.
use vmill.Prelude.{
  ℕ, ◌*◌, ◌≡◌, ◌≤◌, ◌<◌, ◌∙◌, refl, Bool, true, ◌||◌, elem, List, ◌∷◌, All, done, arith, update,
}
use vmill.Decoder.{
  Instruction, DecodedTrace, Decoder, insert_pc, find_inst, is_known, decode_trace,
  hash_trace_instructions,
}
use vmill.Decoder.Lists.{IsAscending, elem-insert_pc}
use vmill.Decoder.Rounds.{IsWithin}
use vmill.Decoder.Traces.{trace_ends}

-- If an earlier trace has left a program counter on the work list, the next trace that is decoded,
-- from any head, takes it over: it is one of that trace's instructions, or is left on the list
-- again. The program counters on the lists, the head and those that instructions lead to are below
-- `n`, the work list is a set, and the loop over it has at least `3 * n` rounds.
pub decode_trace_leftover :
    (n : ℕ) (decode : ℕ → Bool × Instruction) (code_version : ℕ → ℕ)
    (digest : ℕ → List (List ℕ) → ℕ) (rounds pc q : ℕ) (s : Decoder)
    → ((p : ℕ) → IsWithin n (decode p).1)
    → 3 * n ≤ rounds
    → pc < n
    → All (λ p. p < n) s.work_list
    → IsAscending 0 s.work_list
    → All (λ p. p < n) s.trace_list
    → elem q s.work_list ≡ true
    → (t : DecodedTrace) × (s' : Decoder) × (decode_trace decode code_version digest rounds pc s
        ≡ done s')
      × (s'.traces ≡ t ∷ s.traces)
      × (t.pc ≡ pc)
      × ((is_known t.instructions q || elem q s'.work_list) ≡ true)
unfolding decode_trace find_inst
decode_trace_leftover n decode code_version digest rounds pc q s within enough small below ascending
      later left =
    let (d, ends, ready, closed) =
      trace_ends n decode within rounds pc s.work_list s.trace_list small below ascending later
        enough in
    let listed : elem q (insert_pc pc s.work_list) ≡ true =
      elem-insert_pc q pc s.work_list ∙ ground (arith, left) in
    let t : DecodedTrace = record {
      pc = pc;
      code_version = code_version pc;
      hash = hash_trace_instructions decode code_version digest d.instructions;
      instructions = d.instructions;
    } in
    let s' : Decoder = record {
      trace_list = d.later;
      work_list = d.work;
      marked = update s.marked pc true;
      traces = t ∷ s.traces;
    } in
    (t, s', rw ends refl, refl, refl, closed.kept q listed)
