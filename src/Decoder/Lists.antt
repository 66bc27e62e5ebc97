-- ===== src/Decoder/Lists.antt =====
-- The work list as a set, and the map of instructions.
use vmill.Prelude.{
  ℕ, zero, suc, ◌+◌, ◌≡◌, ◌≤◌, ◌<◌, refl, ap, ◌∙◌, Bool, true, false, ◌||◌, Bool-cases, inl, inr,
  Option, none, some, length, elem, List, [], ◌∷◌, All, ltb, ◌==◌, if◌then◌else◌, arith, ℕ_discrete,
}
use vmill.Decoder.{Instruction, insert_pc, find_inst, insert_inst, is_known, is_there, insert_all}

-- Strictly ascending, from `b` on: each number stands once.
abbrev pub IsAscending : ℕ → List ℕ → Type 0
IsAscending b [] = Unit {0}
IsAscending b (x ∷ xs) = (b ≤ x) × IsAscending (suc x) xs

pub IsAscending-weaken : (b c : ℕ) (xs : List ℕ) → b ≤ c → IsAscending c xs → IsAscending b xs
IsAscending-weaken b c [] le h = tt
IsAscending-weaken b c (x ∷ xs) le h = (omega (arith, h.0), h.1)

pub insert_pc-IsAscending :
    (b p : ℕ) (xs : List ℕ) → b ≤ p → IsAscending b xs → IsAscending b (insert_pc p xs)
unfolding insert_pc
insert_pc-IsAscending b p [] le h = (le, tt)
insert_pc-IsAscending b p (x ∷ xs) le h = elim (Bool-cases (p == x)) [
  | inl same ↦ rw same h
  | inr other ↦ elim (Bool-cases (ltb p x)) [
    | inl below ↦ rw (other, below) (le, (ground arith, h.1))
    | inr above ↦ rw (other, above) (h.0, insert_pc-IsAscending (suc x) p xs (ground arith) h.1)
  ]
]

-- A set of numbers below `n` has at most `n` of them.
pub length-IsAscending :
    (n b : ℕ) (xs : List ℕ) → b ≤ n → IsAscending b xs → All (λ p. p < n) xs → b + length xs ≤ n
length-IsAscending n b [] le h below = omega arith
length-IsAscending n b (x ∷ xs) le h below =
    omega (arith, h.0, length-IsAscending n (suc x) xs below.0 h.1 below.1)

pub insert_pc-All : (P : ℕ → Type 0) (p : ℕ) (xs : List ℕ) → P p → All P xs → All P (insert_pc p xs)
unfolding insert_pc
insert_pc-All P p [] h k = (h, tt)
insert_pc-All P p (x ∷ xs) h k = elim (Bool-cases (p == x)) [
  | inl same ↦ rw same k
  | inr other ↦ elim (Bool-cases (ltb p x)) [
    | inl below ↦ rw (other, below) (h, k)
    | inr above ↦ rw (other, above) (k.0, insert_pc-All P p xs h k.1)
  ]
]

pub length-insert_pc : (p : ℕ) (xs : List ℕ) → length (insert_pc p xs) ≤ suc (length xs)
unfolding insert_pc
length-insert_pc p [] = omega arith
length-insert_pc p (x ∷ xs) = ground (arith, length-insert_pc p xs)

pub elem-insert_pc : (q p : ℕ) (xs : List ℕ) → elem q (insert_pc p xs) ≡ (q == p || elem q xs)
unfolding insert_pc
elem-insert_pc q p [] = refl
elem-insert_pc q p (x ∷ xs) = ground (arith, elem-insert_pc q p xs)

pub find-insert :
    (pc : ℕ) (inst : Instruction) (insts : List (ℕ × Instruction)) (q : ℕ)
    → find_inst insts pc ≡ none
    → find_inst (insert_inst pc inst insts) q ≡ (if q == pc then some inst else find_inst insts q)
unfolding find_inst insert_inst
find-insert pc inst [] q absent = refl
find-insert pc inst ((p, i) ∷ rest) q absent = ground (arith, find-insert pc inst rest q)

-- How many of the program counters below `n` have no instruction yet.
unfoldable pub missing : ℕ → List (ℕ × Instruction) → ℕ
missing zero insts = 0
missing (suc n) insts = (if is_known insts n then 0 else 1) + missing n insts

pub is_known-insert :
    (pc : ℕ) (inst : Instruction) (insts : List (ℕ × Instruction)) (q : ℕ)
    → find_inst insts pc ≡ none
    → is_known (insert_inst pc inst insts) q ≡ (q == pc || is_known insts q)
is_known-insert pc inst insts q absent =
    ap is_there (find-insert pc inst insts q absent) ∙ either (q == pc) (find_inst insts q)
  where
    either :
        (b : Bool) (o : Option Instruction)
        → is_there (if b then some inst else o) ≡ (b || is_there o)
    either true o = refl
    either false o = refl

pub missing-insert :
    (n pc : ℕ) (inst : Instruction) (insts : List (ℕ × Instruction))
    → find_inst insts pc ≡ none
    → missing n insts ≡ (if ltb pc n then 1 else 0) + missing n (insert_inst pc inst insts)
unfolding missing
missing-insert zero pc inst insts absent = ground arith
missing-insert (suc n) pc inst insts absent =
    let later = missing-insert n pc inst insts absent in
    let known = is_known-insert pc inst insts n absent in
    elim (ℕ_discrete n pc) [
      | yes same ↦
          let fresh : is_known insts n ≡ false = rw (same, absent) refl in
          ground (arith, later, known, fresh)
      | no other ↦
          let kept : is_known (insert_inst pc inst insts) n ≡ is_known insts n =
            ground (arith, known) in
          rw kept (ground (arith, later))
    ]

-- Insertion of several numbers.
pub insert_all-All :
    (P : ℕ → Type 0) (ps work : List ℕ) → All P ps → All P work → All P (insert_all ps work)
unfolding insert_all
insert_all-All P [] work h k = k
insert_all-All P (p ∷ ps) work h k =
    insert_all-All P ps (insert_pc p work) h.1 (insert_pc-All P p work h.0 k)

pub length-insert_all : (ps work : List ℕ) → length (insert_all ps work) ≤ length ps + length work
unfolding insert_all
length-insert_all [] work = omega arith
length-insert_all (p ∷ ps) work =
    omega (arith, length-insert_all ps (insert_pc p work), length-insert_pc p work)

pub insert_all-IsAscending :
    (ps work : List ℕ) → IsAscending 0 work → IsAscending 0 (insert_all ps work)
unfolding insert_all
insert_all-IsAscending [] work h = h
insert_all-IsAscending (p ∷ ps) work h =
    insert_all-IsAscending ps (insert_pc p work) (insert_pc-IsAscending 0 p work (omega arith) h)

pub elem-insert_all :
    (q : ℕ) (ps work : List ℕ) → elem q (insert_all ps work) ≡ (elem q ps || elem q work)
unfolding insert_all
elem-insert_all q [] work = refl
elem-insert_all q (p ∷ ps) work =
    ground (arith, elem-insert_all q ps (insert_pc p work), elem-insert_pc q p work)
