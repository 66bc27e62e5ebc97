-- ===== src/Futex/Round.antt =====
-- DoWake in a system of tasks: it goes once around the ring.
use vmill.Prelude.{
  ℕ, zero, suc, ◌+◌, ◌-◌, ◌≤◌, ◌<◌, ◌≡◌, ◌≢◌, ◌⊎◌, refl, sym, ap, Bool, ◌∙◌, subst, Option, some,
  List, [], ◌∷◌, ◌++◌, length, All, All-map, All-append, arith, done, inl, inr,
}
use vmill.Tasks.{LinuxTask, System}
use vmill.Tasks.Ring.{after, IsRun, HasTasks}
use vmill.Futex.{do_wake}
use vmill.Futex.Waking.{Follows, IsPath, waits, chosen, wake_task, wake_from_lem}

-- From `q` on, the ring leads through `ps` to `r`.
abbrev Leads : System → ℕ → List ℕ → ℕ → Type 0
Leads s q [] r = q ≡ r
Leads s q (p ∷ ps) r = (q ≡ p) × ((o : ℕ) × Follows s p o × Leads s o ps r)

Leads-append :
    (s : System) (q r u : ℕ) (ps qs : List ℕ)
    → Leads s q ps r
    → Leads s r qs u
    → Leads s q (ps ++ qs) u
Leads-append s q r u [] qs l m = rw l m
Leads-append s q r u (p ∷ ps) qs (e, (o, f, l)) m = (e, (o, f, Leads-append s o r u ps qs l m))

abbrev IsDistinct : List ℕ → Type 0
IsDistinct [] = Unit {0}
IsDistinct (p ∷ ps) = All (λ j. j ≢ p) ps × IsDistinct ps

IsDistinct-append :
    (ps qs : List ℕ)
    → IsDistinct ps
    → IsDistinct qs
    → All (λ p. All (λ j. j ≢ p) qs) ps
    → IsDistinct (ps ++ qs)
IsDistinct-append [] qs d e apart = e
IsDistinct-append (p ∷ ps) qs d e apart =
    (All-append (λ j. j ≢ p) ps qs d.0 apart.0, IsDistinct-append ps qs d.1 e apart.1)

Leads-IsPath :
    (s : System) (self q : ℕ) (ps : List ℕ)
    → Leads s q ps self
    → IsDistinct ps
    → All (λ j. j ≢ self) ps
    → IsPath s self q ps
Leads-IsPath s self q [] l d away = l
Leads-IsPath s self q (p ∷ ps) (e, (o, f, l)) d away =
    (e, away.0, d.0, (o, f, Leads-IsPath s self o ps l d.1 away.1))

-- What the list and the ring say of the tasks before and after `self`.
record Parts (s : System) (head self : ℕ) (pre post : List ℕ) : Type 0 where
  before : Leads s (after pre self) pre self
  here : Follows s self (after post head)
  behind : Leads s (after post head) post head
  newer : All (λ j. self < j) pre
  older : All (λ j. j < self) post
  distinct_newer : IsDistinct pre
  distinct_older : IsDistinct post

run_Leads :
    (s : System) (head : ℕ) (ks : List ℕ) (o : Option ℕ)
    → IsRun s head ks o
    → Leads s (after ks head) ks head × IsDistinct ks
run_Leads s head [] o run = (refl, tt)
run_Leads s head (k ∷ ks) o (e, below, (t, present, circ, rest)) =
    let (leads, distinct) = run_Leads s head ks t.next rest in
    (
      (refl, (after ks head, (t, present, circ), leads)),
      (All-map (λ j. j < k) (λ j. j ≢ k) ks (λ j lt. λ e'. omega (arith, e', lt)) below, distinct),
    )

All-middle :
    (P : ℕ → Type 0) (pre : List ℕ) (x : ℕ) (post : List ℕ)
    → All P (pre ++ x ∷ post)
    → All P pre × P x
All-middle P [] x post h = (tt, h.0)
All-middle P (p ∷ pre) x post h = let rest = All-middle P pre x post h.1 in ((h.0, rest.0), rest.1)

run_Parts :
    (s : System) (head self : ℕ) (pre post : List ℕ) (o : Option ℕ)
    → IsRun s head (pre ++ self ∷ post) o
    → Parts s head self pre post
run_Parts s head self [] post o (e, below, (t, present, circ, rest)) =
    let (leads, distinct) = run_Leads s head post t.next rest in
    record {
      before = refl;
      here = (t, present, circ);
      behind = leads;
      newer = tt;
      older = below;
      distinct_newer = tt;
      distinct_older = distinct;
    }
run_Parts s head self (k ∷ pre) post o (e, below, (t, present, circ, rest)) =
    let parts = run_Parts s head self pre post t.next rest in
    let (lower, self_below) = All-middle (λ j. j < k) pre self post below in
    record {
      before =
          (refl, (after pre self, (t, present, circ ∙ ap some (after_middle pre)), parts.before));
      here = parts.here;
      behind = parts.behind;
      newer = (self_below, parts.newer);
      older = parts.older;
      distinct_newer = (
        All-map (λ j. j < k) (λ j. j ≢ k) pre (λ j lt. λ e'. omega (arith, e', lt)) lower,
        parts.distinct_newer,
      );
      distinct_older = parts.distinct_older;
    }
  where
    after_middle : (js : List ℕ) → after (js ++ self ∷ post) head ≡ after js self
    after_middle [] = refl
    after_middle (j ∷ js) = refl

-- The ring from `self` on: the older tasks, then the newer ones from the head on.
around_IsPath :
    (s : System) (head self : ℕ) (pre post : List ℕ)
    → head ≡ after pre self
    → Parts s head self pre post
    → IsPath s self (after post head) (post ++ pre)
around_IsPath s head self pre post start parts =
    Leads-IsPath s self (after post head) (post ++ pre)
      (Leads-append s (after post head) head self post pre parts.behind
        (subst (λ h. Leads s h pre self) (sym start) parts.before))
      (IsDistinct-append post pre parts.distinct_older parts.distinct_newer (
        All-map (λ j. j < self) (λ p. All (λ j. j ≢ p) pre) post
          (λ p lt.
            All-map (λ j. self < j) (λ j. j ≢ p) pre (λ j above. λ e. omega (arith, e, above, lt))
              parts.newer)
          parts.older))
      (All-append (λ j. j ≢ self) post pre
        (All-map (λ j. j < self) (λ j. j ≢ self) post (λ j lt. λ e. omega (arith, e, lt))
          parts.older)
        (All-map (λ j. self < j) (λ j. j ≢ self) pre (λ j lt. λ e. omega (arith, e, lt))
          parts.newer))

head_after : (k self : ℕ) (ks pre post : List ℕ) → k ∷ ks ≡ pre ++ self ∷ post → k ≡ after pre self
head_after k self ks [] post e = cc
head_after k self ks (p ∷ pre) post e = cc

length-append : (xs ys : List ℕ) → length (xs ++ ys) ≡ length xs + length ys
length-append [] ys = omega arith
length-append (x ∷ xs) ys = omega (arith, length-append xs ys)

abbrev WokeRound : System → ℕ → ℕ → ℕ → ℕ → ℕ → (ℕ → Bool) → List ℕ → ℕ → Type 0
WokeRound s self rounds uaddr bitset num w ps n =
    (s' : System) × (do_wake rounds self uaddr bitset num s ≡ done (length (chosen w n ps), s'))
    × ((j : ℕ) → s'.task j ≡ wake_task (chosen w n ps) s.task j)

-- In a system of tasks, DoWake by the task `self` ends. It looks at the older tasks, newest first, and
-- then at the newer ones, newest first. It wakes those of them in the same address space that wait
-- at the address with a common bit, but no more than it is asked to, and one if it is asked for none;
-- it returns how many it woke, and changes no other task.
pub do_wake-chosen :
    (s : System) (pre post : List ℕ) (self rounds uaddr bitset num : ℕ) (t : LinuxTask)
    → HasTasks s (pre ++ self ∷ post)
    → s.task self ≡ some t
    → length (pre ++ self ∷ post) ≤ rounds
    → let ws = chosen (waits s t.memory uaddr bitset) num (post ++ pre) in
      (s' : System) × (do_wake rounds self uaddr bitset num s ≡ done (length ws, s'))
      × ((j : ℕ) → s'.task j ≡ wake_task ws s.task j)
unfolding do_wake
do_wake-chosen s pre post self rounds uaddr bitset num t tasks there enough =
    let (k, run, start) = head_run pre tasks in
    let parts = run_Parts s k self pre post s.task_list run in
    let (u, present, circ) = parts.here in
    let same : u ≡ t = ground (arith, present, there) in
    let path = around_IsPath s k self pre post start parts in
    let (s', made, woke) =
      wake_from_lem self t.memory uaddr bitset num s rounds 0 (after post k) (post ++ pre)
        (omega (arith, length-append post pre, length-append pre (self ∷ post), enough))
        (some_left num) path in
    let none_yet : num - 0 ≡ num = omega arith in
    subst (WokeRound s self rounds uaddr bitset num (waits s t.memory uaddr bitset) (post ++ pre))
      none_yet (s', ground (arith, there, present, same, circ, made), woke)
  where
    some_left : (n : ℕ) → (0 < n) ⊎ (n ≡ 0)
    some_left zero = inr refl
    some_left (suc n) = inl (omega arith)

    head_run :
        (js : List ℕ)
        → HasTasks s (js ++ self ∷ post)
        → (k : ℕ) × IsRun s k (js ++ self ∷ post) s.task_list × (k ≡ after js self)
    head_run [] ring = (self, ring.run, refl)
    head_run (j ∷ js) ring = (j, ring.run, refl)
