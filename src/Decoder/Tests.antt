-- ===== src/Decoder/Tests.antt =====
-- DecodeTraces on a program of four instructions.
use vmill.Prelude.{
  some, ℕ, ◌≡◌, refl, Bool, true, false, List, [], ◌∷◌, All, elem, ◌||◌, if◌then◌else◌, ◌==◌, arith,
  done, map, ◌>>=◌,
}
use vmill.Decoder.{
  decode_at, Instruction, is_known, category_conditional_branch, category_direct_function_call,
  category_function_return, Decoder, DecodedTrace, decode_traces, trace_loop, decode_trace,
  decode_loop, decode_new, insert_pc, insert_inst, find_inst, insert_all, add_called,
  hash_trace_instructions,
}
use vmill.Decoder.Rounds.{IsWithin}
use vmill.Decoder.Leftover.{decode_trace_leftover}
use vmill.Decoder.Traces.{IsTrace, decode_traces_ends}

-- 0 branches to 0 or 1, 1 calls 3, 2 and 3 return.
abbrev code : ℕ → Instruction
code pc =
    if pc == 0
    then record {
      category = category_conditional_branch;
      next_pc = 1;
      branch_taken_pc = 0;
      bytes = 117 ∷ [];
    }
    else if pc == 1
    then record {
      category = category_direct_function_call;
      next_pc = 2;
      branch_taken_pc = 3;
      bytes = 232 ∷ [];
    }
    else record {
      category = category_function_return;
      next_pc = 0;
      branch_taken_pc = 0;
      bytes = 195 ∷ [];
    }

abbrev decode_code : ℕ → Bool × Instruction
decode_code = decode_at (λ pc bytes. (true, code pc)) (λ a. some 144) 15

code-IsWithin : (pc : ℕ) → IsWithin 4 (code pc)
code-IsWithin pc = (ground arith, ground arith)

decode_traces_ends_example :
    (fuel : ℕ) × (s' : Decoder) × (decode_traces decode_code
        (λ pc. 0)
        (λ seed bytes. seed)
        12
        fuel
        (λ pc. false)
        0
      ≡ done s')
    × (s'.trace_list ≡ [])
    × All (IsTrace 4 decode_code code-IsWithin) s'.traces
decode_traces_ends_example =
    decode_traces_ends 4 decode_code code-IsWithin (λ pc. 0) (λ seed bytes. seed) 12 (omega arith)
      (λ pc. false) 0 (omega arith)

abbrev decoded_pcs : Decoder → List (List ℕ)
decoded_pcs s =
    map (λ (t : DecodedTrace). map (λ (e : ℕ × Instruction). e.0) t.instructions) s.traces

decodes_two_traces :
    (decode_traces decode_code (λ pc. 0) (λ seed bytes. seed) 12 3 (λ pc. false) 0
      >>= λ (s : Decoder). done (decoded_pcs s))
    ≡ done ((3 ∷ []) ∷ (0 ∷ 1 ∷ 2 ∷ []) ∷ [])
unfolding trace_loop decode_trace decode_loop decode_new insert_pc insert_inst find_inst insert_all
    add_called hash_trace_instructions
decodes_two_traces = refl

-- A trace for 3, where 2 was left.
abbrev left_over : Decoder
left_over = record { trace_list = []; work_list = 2 ∷ []; marked = λ pc. false; traces = [] }

leftover_work :
    (t : DecodedTrace) × (s' : Decoder) × (decode_trace decode_code
        (λ pc. 0)
        (λ seed bytes. seed)
        12
        3
        left_over
      ≡ done s')
    × (s'.traces ≡ t ∷ [])
    × (t.pc ≡ 3)
    × ((is_known t.instructions 2 || elem 2 s'.work_list) ≡ true)
leftover_work =
    decode_trace_leftover 4 decode_code (λ pc. 0) (λ seed bytes. seed) 12 3 2 left_over
      code-IsWithin (omega arith) (omega arith) (omega arith, tt) (omega arith, tt) tt refl
