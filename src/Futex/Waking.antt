-- ===== src/Futex/Waking.antt =====
-- The loop of DoWake along a path of the ring wakes the tasks that a reference definition chooses.
use Prim.Native.Nat.{bit_and}
use vmill.Prelude.{
  ℕ, zero, suc, ◌+◌, ◌-◌, ◌<◌, ◌≡◌, ◌≢◌, ◌⊎◌, inl, inr, refl, ap, ◌∙◌, subst, Bool, true, false,
  Bool-cases, Option, none, some, List, [], ◌∷◌, length, elem, leb, if◌then◌else◌, All, ℕ_discrete,
  arith, done, not, ◌&&◌, ◌==◌,
}
use vmill.Tasks.{LinuxTask, System, put_task}
use vmill.Futex.{is_waiting, woken, wake_from}

-- The task `q` is there, and `o` follows it in the ring.
abbrev pub Follows : System → ℕ → ℕ → Type 0
Follows s q o = (t : LinuxTask) × (s.task q ≡ some t) × (t.next_circular ≡ some o)

-- From `q` on, the ring leads through the tasks `qs`, all different, to `self`.
abbrev pub IsPath : System → ℕ → ℕ → List ℕ → Type 0
IsPath s self q [] = q ≡ self
IsPath s self q (p ∷ ps) =
    (q ≡ p) × (p ≢ self) × All (λ j. j ≢ p) ps × ((o : ℕ) × Follows s p o × IsPath s self o ps)

-- The task `p` is there, in the address space, and waits at the address with a common bit.
abbrev pub waits : System → ℕ → ℕ → ℕ → ℕ → Bool
waits s memory uaddr bitset p = elim (s.task p) [
  | none ↦ false
  | some t ↦
      not (t.blocked_count == 0)
      && ((t.memory == memory) && (t.futex_uaddr == uaddr))
      && not (bit_and t.futex_bitset bitset == 0)
]

-- The tasks to wake, in order: those that wait, up to `n` of them, and one if `n` is 0.
unfoldable pub chosen : (ℕ → Bool) → ℕ → List ℕ → List ℕ
chosen waits' n [] = []
chosen waits' n (p ∷ ps) =
    let later = chosen waits' (n - 1) ps in
    let others = chosen waits' n ps in
    if waits' p then if leb n 1 then p ∷ [] else p ∷ later else others

-- The task `q` where the tasks `ws` have been woken.
abbrev pub wake_task : List ℕ → (ℕ → Option LinuxTask) → ℕ → Option LinuxTask
wake_task ws task q =
    if elem q ws
    then elim (task q) [ none ↦ none | some t ↦ some (record t { blocked_count = 0 }) ]
    else task q

-- Waking another task changes nothing for the rest of the path.
IsPath-put :
    (s : System) (self p : ℕ) (t : LinuxTask) (q : ℕ) (ps : List ℕ)
    → All (λ j. j ≢ p) ps
    → IsPath s self q ps
    → IsPath (put_task s p t) self q ps
IsPath-put s self p t q [] ne path = path
IsPath-put s self p t q (r ∷ rs) ne (e, away, fresh, (o, (u, present, circ), rest)) =
    (e, away, fresh, (o, (u, ground (arith, ne.0), circ), IsPath-put s self p t o rs ne.1 rest))

chosen_same :
    (w w' : ℕ → Bool) (p n : ℕ) (ps : List ℕ)
    → ((j : ℕ) → j ≢ p → w' j ≡ w j)
    → All (λ j. j ≢ p) ps
    → chosen w' n ps ≡ chosen w n ps
unfolding chosen
chosen_same w w' p n [] same ne = refl
chosen_same w w' p n (r ∷ rs) same ne =
    rw (same r ne.0, chosen_same w w' p (n - 1) rs same ne.1, chosen_same w w' p n rs same ne.1)
      refl

not_chosen :
    (w : ℕ → Bool) (n p : ℕ) (ps : List ℕ) → All (λ j. j ≢ p) ps → elem p (chosen w n ps) ≡ false
unfolding chosen
not_chosen w n p [] ne = refl
not_chosen w n p (r ∷ rs) ne =
    ground (arith, ne.0, not_chosen w (n - 1) p rs ne.1, not_chosen w n p rs ne.1)

chosen_idle :
    (w : ℕ → Bool) (n p : ℕ) (ps : List ℕ) → w p ≡ false → chosen w n ps ≡ chosen w n (p ∷ ps)
unfolding chosen
chosen_idle w n p ps h = rw h refl

chosen_last :
    (w : ℕ → Bool) (n p : ℕ) (ps : List ℕ)
    → w p ≡ true
    → leb n 1 ≡ true
    → p ∷ [] ≡ chosen w n (p ∷ ps)
unfolding chosen
chosen_last w n p ps h l = rw (h, l) refl

chosen_more :
    (w : ℕ → Bool) (n p : ℕ) (ps : List ℕ)
    → w p ≡ true
    → leb n 1 ≡ false
    → p ∷ chosen w (n - 1) ps ≡ chosen w n (p ∷ ps)
unfolding chosen
chosen_more w n p ps h l = rw (h, l) refl

module _ (self memory uaddr bitset num : ℕ) where
  -- A pass of the loop: past a task that does not wait, and with one that does.
  past_idle :
      (s : System) (rounds k p o : ℕ) (t : LinuxTask)
      → p ≢ self
      → s.task p ≡ some t
      → t.next_circular ≡ some o
      → is_waiting memory uaddr bitset t ≡ false
      → wake_from (suc rounds) self memory uaddr bitset num p k s
        ≡ wake_from rounds self memory uaddr bitset num o k s
  unfolding wake_from
  past_idle s rounds k p o t away present circ idle = ground arith

  past_waiting :
      (s : System) (rounds k p o : ℕ) (t : LinuxTask)
      → p ≢ self
      → s.task p ≡ some t
      → t.next_circular ≡ some o
      → is_waiting memory uaddr bitset t ≡ true
      → wake_from (suc rounds) self memory uaddr bitset num p k s ≡ (
          if leb num (k + 1)
          then done (k + 1, put_task s p (woken t))
          else wake_from rounds self memory uaddr bitset num o (k + 1) (put_task s p (woken t)))
  unfolding wake_from
  past_waiting s rounds k p o t away present circ waiting = ground arith

  -- What the loop makes of the rest of the path, where it is to wake `ws`.
  abbrev pub Goes : System → ℕ → ℕ → ℕ → List ℕ → Type 0
  Goes s rounds k q ws =
      (s' : System) × (wake_from rounds self memory uaddr bitset num q k s
        ≡ done (k + length ws, s'))
      × ((j : ℕ) → s'.task j ≡ wake_task ws s.task j)

  waits_put :
      (s : System) (p : ℕ) (t : LinuxTask) (j : ℕ)
      → j ≢ p
      → waits (put_task s p t) memory uaddr bitset j ≡ waits s memory uaddr bitset j
  waits_put s p t j ne = ground arith

  wake_rest :
      (s : System) (p : ℕ) (t : LinuxTask) (ws : List ℕ) (j : ℕ)
      → s.task p ≡ some t
      → elem p ws ≡ false
      → wake_task ws (put_task s p (woken t)).task j ≡ wake_task (p ∷ ws) s.task j
  wake_rest s p t ws j present ne = elim (ℕ_discrete j p) [
    | yes same ↦ ground arith
    | no other ↦ ground arith
  ]

  pub wake_from_lem :
      (s : System) (rounds k q : ℕ) (ps : List ℕ)
      → length ps < rounds
      → (k < num) ⊎ (num ≡ 0)
      → IsPath s self q ps
      → Goes s rounds k q (chosen (waits s memory uaddr bitset) (num - k) ps)
  unfolding chosen wake_from
  wake_from_lem s zero k q ps enough left path = absurd (omega arith)
  wake_from_lem s (suc rounds) k q [] enough left path = (s, ground arith, λ j. refl)
  wake_from_lem s (suc rounds) k q (p ∷ ps) enough left
        (e, away, fresh, (o, (t, present, circ), rest)) =
      let w = waits s memory uaddr bitset in
      let here : w p ≡ is_waiting memory uaddr bitset t = ground arith in
      let put = put_task s p (woken t) in
      elim (Bool-cases (is_waiting memory uaddr bitset t)) [
        | inr idle ↦
            let (s', made, tasks) = wake_from_lem s rounds k o ps (omega arith) left rest in
            subst (Goes s (suc rounds) k q) (chosen_idle w (num - k) p ps (here ∙ idle))
              (s', rw e (past_idle s rounds k p o t away present circ idle ∙ made), tasks)
        | inl waiting ↦ elim (Bool-cases (leb num (k + 1))) [
          | inl last ↦
              subst (Goes s (suc rounds) k q)
                (chosen_last w (num - k) p ps (here ∙ waiting) (ground arith))
                (
                  put,
                  rw e (past_waiting s rounds k p o t away present circ waiting ∙ rw last refl),
                  λ j. ground (arith, present),
                )
          | inr more ↦
              let (s', made, tasks) =
                wake_from_lem put rounds (k + 1) o ps (omega arith) (inl (ground arith))
                  (IsPath-put s self p (woken t) o ps fresh rest) in
              let same =
                chosen_same w (waits put memory uaddr bitset) p (num - (k + 1)) ps
                  (waits_put s p (woken t)) fresh in
              let ws = chosen w (num - (k + 1)) ps in
              let (s2, made2, tasks2) = subst (Goes put rounds (k + 1) o) same (s', made, tasks) in
              let wake : p ∷ ws ≡ chosen w (num - k) (p ∷ ps) =
                ap (λ n. p ∷ chosen w n ps) (omega arith)
                ∙ chosen_more w (num - k) p ps (here ∙ waiting) (ground arith) in
              let count : k + 1 + length ws ≡ k + length (p ∷ ws) = omega arith in
              subst (Goes s (suc rounds) k q) wake (
                s2,
                rw e (
                    past_waiting s rounds k p o t away present circ waiting
                    ∙ rw more made2
                    ∙ ap (λ n. done (n, s2)) count),
                λ j.
                    tasks2 j
                    ∙ wake_rest s p t ws j present (not_chosen w (num - (k + 1)) p ps fresh),
              )
        ]
      ]
