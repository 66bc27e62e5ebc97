-- ===== src/Tasks/Links.antt =====
-- What keeps the list and the ring of the tasks, and the task that __vmill_create_task makes.
use vmill.Prelude.{
  ℕ_discrete, suc, update_ne, update_self, ℕ, ◌+◌, ◌≡◌, refl, sym, ◌∙◌, subst, Option, some,
  Option-cases, List, [], ◌∷◌, inl, inr, arith, Outcome, done, >>=-eq-done, done-injective,
}
use vmill.Tasks.{LinuxTask, System, create_task, deref, fetch_task, put_task}
use vmill.Tasks.Ring.{IsRun, HasTasks}

-- Two tasks that are linked to the same ones.
abbrev pub IsLinkedAs : LinuxTask → LinuxTask → Type 0
IsLinkedAs t t' = (t'.next ≡ t.next) × (t'.next_circular ≡ t.next_circular)

same_task :
    (s : System) (j k : ℕ) (t u : LinuxTask) → j ≡ k → s.task j ≡ some u → s.task k ≡ some t → t ≡ u
same_task s j k t u h e at = cc

module _ (s : System) (k : ℕ) (t t' : LinuxTask) (at : s.task k ≡ some t)
    (linked : IsLinkedAs t t') where
  pub relinked_at :
      (j : ℕ) (u : LinuxTask)
      → s.task j ≡ some u
      → (v : LinuxTask) × ((put_task s k t').task j ≡ some v) × IsLinkedAs u v
  relinked_at j u e = elim (ℕ_discrete j k) [
    | yes same ↦
        (t', ground arith, subst (λ x. IsLinkedAs x t') (same_task s j k t u same e at) linked)
    | no other ↦ (u, update_ne s.task k (some t') j other ∙ e, (refl, refl))
  ]

  put_task-IsRun :
      (head : ℕ) (ks : List ℕ) (o : Option ℕ)
      → IsRun s head ks o
      → IsRun (put_task s k t') head ks o
  put_task-IsRun head [] o e = e
  put_task-IsRun head (j ∷ js) o (e, below, (u, present, circ, rest)) =
      let (v, here, links) = relinked_at j u present in
      (
        e,
        below,
        (
          v,
          here,
          links.1 ∙ circ,
          put_task-IsRun head js v.next (subst (λ x. IsRun s head js x) (sym links.0) rest),
        ),
      )

  -- A task may be replaced by one that has its links.
  pub put_task-HasTasks : (ks : List ℕ) → HasTasks s ks → HasTasks (put_task s k t') ks
  put_task-HasTasks [] h = h
  put_task-HasTasks (j ∷ js) h = record {
    run = put_task-IsRun j (j ∷ js) s.task_list h.run;
    last = h.last;
    free = h.free;
  }

abbrev IsBorn : System → ℕ → ℕ → ℕ → ℕ → Type 0
IsBorn s' k pc memory tid =
    (child : LinuxTask) × (s'.task k ≡ some child)
    × (child.pc ≡ pc)
    × (child.memory ≡ memory)
    × (child.tid ≡ tid)

put-IsBorn :
    (s s' : System) (k k' : ℕ) (t : LinuxTask)
    → ◌≡◌ {A = Outcome (ℕ × System)} (done (k', put_task s k' t)) (done (k, s'))
    → IsBorn s' k t.pc t.memory t.tid
put-IsBorn s s' k k' t h =
    let e = done-injective (k', put_task s k' t) (k, s') h in
    subst (λ x. IsBorn x.1 x.0 t.pc t.memory t.tid) e
      (t, update_self s.task k' (some t), refl, refl, refl)

-- The task that __vmill_create_task makes.
pub create_task_lem :
    (s s' : System) (k pc memory : ℕ)
    → create_task s pc memory ≡ done (k, s')
    → (child : LinuxTask) × (s'.task k ≡ some child)
      × (child.pc ≡ pc)
      × (child.memory ≡ memory)
      × (child.tid ≡ s.next_tid)
unfolding create_task
create_task_lem s s' k pc memory h = elim (Option-cases s.task_list) [
  | inl empty ↦ put-IsBorn _ s' k s.next_key _ (rw empty at h)
  | inr (head, e) ↦
      let (last, at, h1) = >>=-eq-done (deref s.last_task) _ (rw e at h) in
      let (l, there, h2) =
        >>=-eq-done
          (fetch_task
            (record s {
              next_key = suc s.next_key;
              next_tid = s.next_tid + 1;
              task_list = some s.next_key;
            })
            last)
          _ h1 in
      put-IsBorn _ s' k s.next_key _ h2
]
