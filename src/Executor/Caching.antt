-- ===== src/Executor/Caching.antt =====
-- What the maps of vmill/Executor/CodeCache.cpp and of the executor keep.
use mathlib.Core.Option.{some-injective}
use vmill.Prelude.{
  ==_iff, ℕ, ◌≡◌, ◌≢◌, ◌++◌, inl, inr, refl, sym, ap, ◌∙◌, subst, Bool, Bool-cases, true, false,
  ◌&&◌, ◌==◌, some, Option-cases, List, [], ◌∷◌, if◌then◌else◌, arith,
}
use vmill.Decoder.{DecodedTrace}
use vmill.Executor.{
  CacheIndexEntry, Executor, IndexEntry, update_pair, load_index, make_live, take_lifted,
  add_lifted, lift_traces, lookup,
}

pair_test : (x y a b : ℕ) → ((x == a) && (y == b)) ≡ true → (x ≡ a) × (y ≡ b)
pair_test x y a b h = (ground (arith, h), ground (arith, h))

same_pair : {A : Type 0} (f : ℕ → ℕ → A) (x y a b : ℕ) → (x ≡ a) × (y ≡ b) → f x y ≡ f a b
same_pair f x y a b h = let hx = h.0 in let hy = h.1 in rw (hx, hy) refl

update_pair_same :
    {A : Type 0} (f : ℕ → ℕ → A) (a b : ℕ) (v : A) (x y : ℕ)
    → ((x == a) && (y == b)) ≡ true
    → update_pair f a b v x y ≡ v
update_pair_same f a b v x y h = rw h refl

update_pair_other :
    {A : Type 0} (f : ℕ → ℕ → A) (a b : ℕ) (v : A) (x y : ℕ)
    → ((x == a) && (y == b)) ≡ false
    → update_pair f a b v x y ≡ f x y
update_pair_other f a b v x y h = rw h refl

-- A new entry where there was the null pointer.
added-Keeps :
    (f : ℕ → ℕ → ℕ) (a b v x y : ℕ)
    → (f a b == 0) ≡ true
    → f x y ≢ 0
    → update_pair f a b v x y ≡ f x y
added-Keeps f a b v x y fresh there = elim (Bool-cases ((x == a) && (y == b))) [
  | inl same ↦
      absurd (there (same_pair f x y a b (pair_test x y a b same) ∙ (==_iff (f a b) 0).0 fresh))
  | inr other ↦ update_pair_other f a b v x y other
]

-- The functions that are there stay.
abbrev pub Keeps : (ℕ → ℕ → ℕ) → (ℕ → ℕ → ℕ) → Type 0
Keeps f g = (pc hash : ℕ) → f pc hash ≢ 0 → g pc hash ≡ f pc hash

pub load_index-Keeps :
    (contains : ℕ → Bool) (es : List CacheIndexEntry) (f : ℕ → ℕ → ℕ)
    → Keeps f (load_index contains es f).1
unfolding load_index
load_index-Keeps contains [] f pc hash h = refl
load_index-Keeps contains (e ∷ es) f pc hash h =
    let id = e.trace_id in
    let later = load_index-Keeps contains es f pc hash h in
    elim (Bool-cases (id.pc == 0)) [
      | inl zero_pc ↦ rw zero_pc later
      | inr some_pc ↦ elim (Bool-cases (contains e.lifted_function)) [
        | inr out ↦ rw (some_pc, out) later
        | inl inside ↦ elim (Bool-cases (f id.pc id.hash == 0)) [
          | inr there ↦ rw (some_pc, inside, there) later
          | inl fresh ↦
              let g = update_pair f id.pc id.hash e.lifted_function in
              let same : g pc hash ≡ f pc hash =
                added-Keeps f id.pc id.hash e.lifted_function pc hash fresh h in
              let h' : g pc hash ≢ 0 = λ z. h (sym same ∙ z) in
              rw (some_pc, inside, fresh) (load_index-Keeps contains es g pc hash h' ∙ same)
        ]
      ]
    ]

-- Each live trace has a function of the code cache for its program counter.
abbrev pub IsOf : Executor → ℕ → ℕ → Type 0
IsOf ex pc f = (f ≢ 0) × ((hash : ℕ) × (ex.lifted_functions pc hash ≡ f))

unfoldable pub IsCached : Executor → Type 0
IsCached ex = (pc version f : ℕ) → ex.live_traces pc version ≡ some f → IsOf ex pc f

pub make_live-IsCached :
    (ex : Executor) (pc version hash : ℕ)
    → IsCached ex
    → (lookup ex pc hash == 0) ≡ false
    → IsCached (make_live pc version (lookup ex pc hash) ex)
unfolding IsCached
make_live-IsCached ex pc version hash ok there p v f e =
    elim (Bool-cases ((p == pc) && (v == version))) [
      | inl same ↦
          let func = lookup ex pc hash in
          let is_func : func ≡ f =
            some-injective _ _
              (sym (update_pair_same ex.live_traces pc version (some func) p v same) ∙ e) in
          let at_pc = (pair_test p v pc version same).0 in
          (
            λ z. ground (arith, there, is_func, z),
            (hash, same_pair ex.lifted_functions p hash pc hash (at_pc, refl) ∙ is_func),
          )
      | inr other ↦ ok p v f (
          sym (update_pair_other ex.live_traces pc version (some (lookup ex pc hash)) p v other)
          ∙ e)
    ]

indexed-IsCached :
    (ex : Executor) (entries : List IndexEntry)
    → IsCached ex
    → IsCached (record ex { index = entries })
unfolding IsCached
indexed-IsCached ex entries ok = ok

-- A state of the executor with the same functions, and its live traces.
abbrev pub IsKept : Executor → Executor → Type 0
IsKept ex ex' = IsCached ex' × (ex'.lifted_functions ≡ ex.lifted_functions)

pub take_lifted-IsKept :
    (ts : List DecodedTrace) (ex : Executor) → IsCached ex → IsKept ex (take_lifted ts ex).1
unfolding take_lifted
take_lifted-IsKept [] ex ok = (ok, refl)
take_lifted-IsKept (t ∷ ts) ex ok = elim (Option-cases (ex.live_traces t.pc t.code_version)) [
  | inr (f, live) ↦
      let step : take_lifted (t ∷ ts) ex ≡ take_lifted ts ex = rw (take_lifted, live) refl in
      subst (λ p. IsKept ex p.1) (sym step) (take_lifted-IsKept ts ex ok)
  | inl new ↦
      let entry : IndexEntry = record {
        trace_id = record { pc = t.pc; hash = t.hash };
        live_trace_id = record { pc = t.pc; code_version = t.code_version };
      } in
      let noted : Executor = record ex { index = ex.index ++ (entry ∷ []) } in
      let found = make_live t.pc t.code_version (lookup ex t.pc t.hash) noted in
      let later = take_lifted ts ex in
      let choose : Bool → List DecodedTrace × Executor =
        λ b. if b then (t ∷ later.0, later.1) else take_lifted ts found in
      let step : take_lifted (t ∷ ts) ex ≡ choose (lookup ex t.pc t.hash == 0) =
        rw (take_lifted, new) refl in
      subst (λ p. IsKept ex p.1) (sym step)
        (elim (Bool-cases (lookup ex t.pc t.hash == 0)) [
          | inl missing ↦
              subst (λ b. IsKept ex (choose b).1) (sym missing) (take_lifted-IsKept ts ex ok)
          | inr there ↦
              let ok' =
                make_live-IsCached noted t.pc t.code_version t.hash
                  (indexed-IsCached ex noted.index ok) there in
              subst (λ b. IsKept ex (choose b).1) (sym there) (take_lifted-IsKept ts found ok')
        ])
]

pub add_lifted-IsKept :
    (ts : List DecodedTrace) (ex : Executor) → IsCached ex → IsKept ex (add_lifted ts ex)
unfolding add_lifted
add_lifted-IsKept [] ex ok = (ok, refl)
add_lifted-IsKept (t ∷ ts) ex ok =
    let live = make_live t.pc t.code_version (lookup ex t.pc t.hash) ex in
    elim (Bool-cases (lookup ex t.pc t.hash == 0)) [
      | inl missing ↦
          let step : add_lifted (t ∷ ts) ex ≡ add_lifted ts ex = rw missing refl in
          subst (IsKept ex) (sym step) (add_lifted-IsKept ts ex ok)
      | inr there ↦
          let step : add_lifted (t ∷ ts) ex ≡ add_lifted ts live = rw there refl in
          let ok' = make_live-IsCached ex t.pc t.code_version t.hash ok there in
          subst (IsKept ex) (sym step) (add_lifted-IsKept ts live ok')
    ]

grown-IsCached :
    (ex : Executor) (g : ℕ → ℕ → ℕ)
    → IsCached ex
    → Keeps ex.lifted_functions g
    → IsCached (record ex { lifted_functions = g })
unfolding IsCached
grown-IsCached ex g ok keeps pc version f e =
    let (some_f, (hash, is_f)) = ok pc version f e in
    (some_f, (hash, keeps pc hash (λ z. some_f (sym is_f ∙ z)) ∙ is_f))

pub lift_traces-IsCached :
    (compile : List DecodedTrace → List CacheIndexEntry) (contains : ℕ → Bool)
    (ts : List DecodedTrace) (ex : Executor)
    → IsCached ex
    → IsCached (lift_traces compile contains ts ex)
      × Keeps ex.lifted_functions (lift_traces compile contains ts ex).lifted_functions
unfolding lift_traces
lift_traces-IsCached compile contains [] ex ok = (ok, λ pc hash h. refl)
lift_traces-IsCached compile contains (t ∷ ts) ex ok =
    let es = compile (t ∷ ts) in
    let g = (load_index contains es ex.lifted_functions).1 in
    let keeps = load_index-Keeps contains es ex.lifted_functions in
    let (ok', same) =
      add_lifted-IsKept (t ∷ ts) (record ex { lifted_functions = g })
        (grown-IsCached ex g ok keeps) in
    (ok', λ pc hash h. ap (λ f. f pc hash) same ∙ keeps pc hash h)
