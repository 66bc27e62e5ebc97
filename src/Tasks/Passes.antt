-- ===== src/Tasks/Passes.antt =====
-- What a pass of __vmill_resume of vmill/Runtime/Linux/Run.cpp runs.
use vmill.Prelude.{
  ℕ, ◌-◌, zero, suc, ◌≡◌, refl, sym, ap, subst, ◌∙◌, Bool, true, false, ◌||◌, ◌==◌, Bool-cases, inl,
  inr, Option, none, some, List, [], ◌∷◌, length, done, if◌then◌else◌,
}
use vmill.Tasks.{LinuxTask, System, may_run, visit, resume_pass}
use vmill.Tasks.Ring.{IsRun, HasTasks}
use vmill.Tasks.Links.{relinked_at}
use vmill.Tasks.Running.{pass_step}

-- `next` leads through the tasks `ks`.
abbrev IsChain : System → List ℕ → Option ℕ → Type 0
IsChain s [] o = o ≡ none
IsChain s (k ∷ ks) o = (o ≡ some k) × ((t : LinuxTask) × (s.task k ≡ some t) × IsChain s ks t.next)

-- The tasks of a system are there in another one, and lead to the same tasks.
abbrev pub KeepsNext : System → System → Type 0
KeepsNext s s' =
    (j : ℕ) (t : LinuxTask)
    → s.task j ≡ some t
    → (t' : LinuxTask) × (s'.task j ≡ some t') × (t'.next ≡ t.next)

run-IsChain :
    (s : System) (head : ℕ) (ks : List ℕ) (o : Option ℕ) → IsRun s head ks o → IsChain s ks o
run-IsChain s head [] o e = e
run-IsChain s head (k ∷ ks) o (e, below, (t, present, circ, rest)) =
    (e, (t, present, run-IsChain s head ks t.next rest))

tasks-IsChain : (s : System) (ks : List ℕ) → HasTasks s ks → IsChain s ks s.task_list
tasks-IsChain s [] h = h
tasks-IsChain s (k ∷ ks) h = run-IsChain s k (k ∷ ks) s.task_list h.run

kept-IsChain :
    (s s' : System) (ks : List ℕ) (o : Option ℕ) → KeepsNext s s' → IsChain s ks o → IsChain s' ks o
kept-IsChain s s' [] o keeps e = e
kept-IsChain s s' (k ∷ ks) o keeps (e, (t, present, rest)) =
    let (t', there, next) = keeps k t present in
    (
      e,
      (t', there, subst (λ x. IsChain s' ks x) (sym next) (kept-IsChain s s' ks t.next keeps rest)),
    )

or_false : (b : Bool) → (b || false) ≡ b
or_false true = refl
or_false false = refl

or_again : (m p r : Bool) → ((if m then true else p) || r) ≡ (p || (m || r))
or_again true true r = refl
or_again true false r = refl
or_again false p r = refl

module _ (run : System → ℕ → System) where
  abbrev visit_found : System → ℕ → Option LinuxTask → Bool × System
  visit_found s k none = (false, s)
  visit_found s k (some t) = (may_run t.status, visit run s k t)

  -- The tasks of a list, each visited once: whether one of them could run when it came to it, and the
  -- system after the last one.
  unfoldable pub visit_all : List ℕ → System → Bool × System
  visit_all [] s = (false, s)
  visit_all (k ∷ ks) s =
      let here = visit_found s k (s.task k) in
      let rest = visit_all ks here.1 in (here.0 || rest.0, rest.1)

  module _ (keeps : (s : System) (k : ℕ) → KeepsNext s (run s k)) where
    visit-KeepsNext :
        (s : System) (k : ℕ) (t : LinuxTask) → s.task k ≡ some t → KeepsNext s (visit run s k t)
    unfolding visit
    visit-KeepsNext s k t at j u e = elim (Bool-cases (may_run t.status)) [
      | inr not_ready ↦ rw not_ready (u, e, refl)
      | inl ready ↦ elim (Bool-cases (t.blocked_count == 0)) [
        | inl unblocked ↦ rw (ready, unblocked) (keeps s k j u e)
        | inr blocked ↦
            let waiting : LinuxTask = record t { blocked_count = t.blocked_count - 1 } in
            let (v, there, links) = relinked_at s k t waiting at (refl, refl) j u e in
            rw (ready, blocked) (v, there, links.0)
      ]
    ]

    pass_from :
        (ks : List ℕ) (s : System) (o : Option ℕ) (progressed : Bool)
        → IsChain s ks o
        → resume_pass run (length ks) s o progressed
          ≡ done (progressed || (visit_all ks s).0, (visit_all ks s).1)
    unfolding resume_pass visit_all
    pass_from [] s o progressed e =
        ap (λ o. resume_pass run zero s o progressed) e
        ∙ ap (λ b. done (b, s)) (sym (or_false progressed))
    pass_from (k ∷ ks) s o progressed (e, (t, present, rest)) =
        let s' = visit run s k t in
        let keep = visit-KeepsNext s k t present in
        let (t', there, next) = keep k t present in
        let chain : IsChain s' ks t'.next =
          subst (λ x. IsChain s' ks x) (sym next) (kept-IsChain s s' ks t.next keep rest) in
        let again = if may_run t.status then true else progressed in
        ap (λ o. resume_pass run (suc (length ks)) s o progressed) e
        ∙ pass_step run (length ks) s k t t' progressed present there
        ∙ pass_from ks s' t'.next again chain
        ∙ ap (λ b. done (b, (visit_all ks s').1))
            (or_again (may_run t.status) progressed (visit_all ks s').0)
        ∙ ap
            (λ o. done (
              progressed || ((visit_found s k o).0 || (visit_all ks (visit_found s k o).1).0),
              (visit_all ks (visit_found s k o).1).1,
            ))
            (sym present)

    -- A pass of __vmill_resume over a system of tasks, for a run of a task that leaves all tasks in the
    -- list where they are, ends, and visits each task that the list had at its start once, newest first: a
    -- task that can run is run, or has its count lowered if it is blocked. The pass made
    -- progress if one of them could run.
    pub resume_pass-visit_all :
        (ks : List ℕ) (s : System)
        → HasTasks s ks
        → resume_pass run (length ks) s s.task_list false ≡ done (visit_all ks s)
    unfolding visit_all
    resume_pass-visit_all ks s tasks = pass_from ks s s.task_list false (tasks-IsChain s ks tasks)
