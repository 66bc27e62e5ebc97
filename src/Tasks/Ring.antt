-- ===== src/Tasks/Ring.antt =====
-- The list and the ring of the tasks, and that creating a task keeps them.
use vmill.Prelude.{
  ℕ, suc, ◌+◌, ◌<◌, ◌≡◌, ◌≢◌, refl, ◌∙◌, Option, none, some, List, [], ◌∷◌, update, All, All-map,
  arith, done,
}
use vmill.Tasks.{LinuxTask, System, create_task, put_task, init_task}

-- What follows in the ring: the next task of the list, or its head.
abbrev pub after : List ℕ → ℕ → ℕ
after [] head = head
after (k ∷ ks) head = k

abbrev pub last_of : ℕ → List ℕ → ℕ
last_of k [] = k
last_of k (j ∷ js) = last_of j js

-- From `o` on, `next` leads through the tasks `ks` to the end, and next_circular through the same
-- ones to `head`. The keys descend.
abbrev pub IsRun : System → ℕ → List ℕ → Option ℕ → Type 0
IsRun s head [] o = o ≡ none
IsRun s head (k ∷ ks) o =
    (o ≡ some k)
    × All (λ j. j < k) ks
    × ((t : LinuxTask) × (s.task k ≡ some t)
        × (t.next_circular ≡ some (after ks head))
        × IsRun s head ks t.next)

-- The tasks of a system, newest first.
pub record IsRing (s : System) (k : ℕ) (ks : List ℕ) : Type 0 where
  pub run : IsRun s k (k ∷ ks) s.task_list
  pub last : s.last_task ≡ some (last_of k ks)
  pub free : All (λ j. j < s.next_key) (k ∷ ks)

last_of_below : (k : ℕ) (js : List ℕ) (n : ℕ) → All (λ i. i < n) (k ∷ js) → last_of k js < n
last_of_below k [] n h = h.0
last_of_below k (j ∷ js) n h = last_of_below j js n h.1

-- The new link of the last task: the run now ends at `new`.
relinked :
    (s s' : System) (head new k : ℕ) (ks : List ℕ) (o : Option ℕ)
    → All (λ i. i < new) (k ∷ ks)
    → ((j : ℕ) → j ≢ last_of k ks → j < new → s'.task j ≡ s.task j)
    → ((l : LinuxTask)
        → s.task (last_of k ks) ≡ some l
        → s'.task (last_of k ks) ≡ some (record l { next_circular = some new }))
    → IsRun s head (k ∷ ks) o
    → IsRun s' new (k ∷ ks) o
relinked s s' head new k [] o small same at_last (e, below, (t, present, circ, rest)) =
    (e, below, (record t { next_circular = some new }, at_last t present, refl, rest))
relinked s s' head new k (j ∷ js) o small same at_last (e, below, (t, present, circ, rest)) = (
  e,
  below,
  (
    t,
    same k (λ h. omega (arith, last_of_below j js k below, h)) small.0 ∙ present,
    circ,
    relinked s s' head new j js t.next small.1 same at_last rest,
  ),
)

last_present :
    (s : System) (head k : ℕ) (ks : List ℕ) (o : Option ℕ)
    → IsRun s head (k ∷ ks) o
    → (l : LinuxTask) × (s.task (last_of k ks) ≡ some l)
last_present s head k [] o (e, below, (t, present, circ, rest)) = (t, present)
last_present s head k (j ∷ js) o (e, below, (t, present, circ, rest)) =
    last_present s head j js t.next rest

grown : (n : ℕ) (ks : List ℕ) → All (λ j. j < n) ks → All (λ j. j < suc n) ks
grown n ks = All-map (λ j. j < n) (λ j. j < suc n) ks (λ j h. omega arith)

add_to_ring :
    (s : System) (k : ℕ) (ks : List ℕ) (pc memory : ℕ)
    → IsRing s k ks
    → (s' : System) × (create_task s pc memory ≡ done (s.next_key, s'))
      × IsRing s' s.next_key (k ∷ ks)
unfolding create_task
add_to_ring s k ks pc memory ring =
    let (l, present) = last_present s k k ks s.task_list ring.run in
    let last = last_of k ks in
    let new = s.next_key in
    let t = record (init_task pc memory) {
      tid = s.next_tid;
      next = s.task_list;
      next_circular = some k;
    } in
    let start = record s { next_key = suc new; next_tid = s.next_tid + 1; task_list = some new } in
    let linked = put_task s last (record l { next_circular = some new }) in
    let s' = record start { task = update linked.task new (some t) } in
    let small = last_of_below k ks new ring.free in
    (
      s',
      ground (arith, (ring.run).0, ring.last, present),
      record {
        run = (
          refl,
          ring.free,
          (
            t,
            ground arith,
            refl,
            relinked s s' k new k ks s.task_list ring.free (λ j ne lt. ground arith)
                (λ l' e. ground arith) ring.run,
          ),
        );
        last = ring.last;
        free = (omega arith, grown new (k ∷ ks) ring.free);
      },
    )

-- A system whose tasks, newest first, are `ks`.
abbrev pub HasTasks : System → List ℕ → Type 0
HasTasks s [] = s.task_list ≡ none
HasTasks s (k ∷ ks) = IsRing s k ks

-- The list of all tasks and the ring through them survive __vmill_create_task: in a system whose
-- tasks `ks` form a list from gTaskList on, and a ring in the same order, it succeeds, and the list
-- and the ring have the new task before them.
pub create_task-HasTasks :
    (s : System) (ks : List ℕ) (pc memory : ℕ)
    → HasTasks s ks
    → (s' : System) × (create_task s pc memory ≡ done (s.next_key, s'))
      × HasTasks s' (s.next_key ∷ ks)
unfolding create_task
create_task-HasTasks s (k ∷ ks) pc memory ring = add_to_ring s k ks pc memory ring
create_task-HasTasks s [] pc memory alone =
    let new = s.next_key in
    let t = record (init_task pc memory) {
      tid = s.next_tid;
      next = s.task_list;
      next_circular = some new;
    } in
    let start = record s {
      next_key = suc new;
      next_tid = s.next_tid + 1;
      task_list = some new;
      last_task = some new;
    } in
    (
      put_task start new t,
      ground (arith, alone),
      record {
        run = (refl, tt, (t, ground arith, refl, alone));
        last = refl;
        free = (omega arith, tt);
      },
    )
