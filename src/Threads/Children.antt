-- ===== src/Threads/Children.antt =====
-- What DoClone of vmill/Runtime/Linux/Thread.cpp makes.
use vmill.Prelude.{
  ℕ, ◌%◌, ◌==◌, ◌<◌, ◌⊎◌, inl, inr, ◌≡◌, ◌≢◌, refl, sym, ap, ◌∙◌, subst, Bool, Bool-cases, true,
  false, none, some, List, ◌∷◌, if◌then◌else◌, update, update_self, done, arith,
}
use vmill.Futex.Operators.{Guest}
use vmill.Replies.{returns}
use vmill.Tasks.{LinuxTask, System}
use vmill.Tasks.Ring.{HasTasks, create_task-HasTasks}
use vmill.Tasks.Links.{put_task-HasTasks, create_task_lem}
use vmill.Calls.{SystemCallAbi, State, get_return_address, set_return}
use vmill.Threads.{Machine, reply}
use vmill.Threads.Clone.{
  CloneArgs, asks, clone_settls, is_process, refuses, do_clone, make_thread, set_tls, started,
  resumed, fs_base, with_child, answer,
}

module _ {M : Type 0} where
  -- The registers of the tasks, but for the bases of the segments of `k`.
  record IsSteady (k : ℕ) (mc mc' : Machine M) : Type 0 where
    tasks : mc'.system ≡ mc.system
    same_rip : (mc'.state k).rip ≡ (mc.state k).rip
    same_rsp : (mc'.state k).rsp ≡ (mc.state k).rsp
    same_rax : (mc'.state k).rax ≡ (mc.state k).rax
    same_others : (j : ℕ) → j ≢ k → mc'.state j ≡ mc.state j

  fs_set :
      (k v : ℕ) (mc : Machine M)
      → IsSteady k mc (record mc {
        state = update mc.state k (record (mc.state k) { base = fs_base v (mc.state k).base });
      })
  fs_set k v mc = record {
    tasks = refl;
    same_rip = ground arith;
    same_rsp = ground arith;
    same_rax = ground arith;
    same_others = λ j ne. ground arith;
  }

-- A new entry, which is then changed, and then the change of another one.
new_and_old :
    {A : Type 0} (f : ℕ → A) (self k : ℕ) (x : A) (F G : A → A)
    → self ≢ k
    → (let f1 = update f k x in
        let f2 = update f1 k (F (f1 k)) in
        let f3 = update f2 self (G (f2 self)) in
        (f3 k ≡ F x) × (f3 self ≡ G (f self)) × ((j : ℕ) → j ≢ self → j ≢ k → f3 j ≡ f j))
new_and_old f self k x F G ne = (ground arith, ground arith, λ j a b. ground arith)

module _ {M : Type 0} (g : Guest M) (wide : Bool) (abi : SystemCallAbi) where
  -- A new thread of `self` after a clone, without thread data to set.
  pub record IsThread (self : ℕ) (a : CloneArgs) (parent : LinuxTask) (mc mc' : Machine M)
      : Type 0 where
    pub child : LinuxTask
    pub present : (mc'.system).task (mc.system).next_key ≡ some child
    pub shares : child.memory ≡ parent.memory
    pub number : child.tid ≡ (mc.system).next_tid
    pub resumes : child.pc ≡ get_return_address g abi mc.memory ((mc.state self).rip)
    pub in_step : (mc'.state (mc.system).next_key).rip ≡ child.pc
    pub stack :
        (mc'.state (mc.system).next_key).rsp
        ≡ (if a.child_stack == 0 then (mc.state self).rsp else a.child_stack)
    pub zero_for_child : (mc'.state (mc.system).next_key).rax ≡ 0
    pub number_for_parent : (mc'.state self).rax ≡ child.tid % g.width
    pub others : (k : ℕ) → k ≢ self → k ≢ (mc.system).next_key → mc'.state k ≡ mc.state k

  set_tls-IsSteady :
      (self k : ℕ) (a : CloneArgs) (mc : Machine M)
      → (wide ≡ true) ⊎ (asks a clone_settls ≡ false)
      → IsSteady k mc (set_tls g wide abi self k a mc)
  unfolding set_tls
  set_tls-IsSteady self k a mc (inr none_asked) = rw none_asked (record {
    tasks = refl;
    same_rip = refl;
    same_rsp = refl;
    same_rax = refl;
    same_others = λ j ne. refl;
  })
  set_tls-IsSteady self k a mc (inl is_wide) = elim (Bool-cases (asks a clone_settls)) [
    | inr none_asked ↦ rw none_asked (record {
      tasks = refl;
      same_rip = refl;
      same_rsp = refl;
      same_rax = refl;
      same_others = λ j ne. refl;
    })
    | inl asked ↦ rw (asked, is_wide) (fs_set k a.newtls mc)
  ]

  -- The registers of the two tasks after the results are set.
  answered :
      (self : ℕ) (mc : Machine M) (a : CloneArgs) (parent child : LinuxTask) (k : ℕ) (s' : System)
      → self ≢ k
      → (let mc' =
            answer g wide abi self k child.tid
              (with_child g wide abi self mc a parent (k, s') child) in
          ((mc'.state k).rip ≡ get_return_address g abi mc.memory (mc.state self).rip)
          × ((mc'.state k).rsp
              ≡ (if a.child_stack == 0 then (mc.state self).rsp else a.child_stack))
          × ((mc'.state k).rax ≡ 0)
          × ((mc'.state self).rax ≡ child.tid % g.width)
          × ((j : ℕ) → j ≢ self → j ≢ k → mc'.state j ≡ mc.state j))
  unfolding reply set_return
  answered self mc a parent child k s' ne =
      let ret_addr = get_return_address g abi mc.memory (mc.state self).rip in
      let (new, old, rest) =
        new_and_old mc.state self k (resumed ret_addr a (mc.state self))
          (set_return g.width (returns 0)) (set_return g.width (returns child.tid)) ne in
      (
        ap State.rip new ∙ ground arith,
        ap State.rsp new ∙ ground arith,
        ap State.rax new ∙ ground arith,
        ap State.rax old,
        rest,
      )

  -- A clone that passes the tests makes a task, answers both, and then sets the thread data.
  pub record IsMade (self : ℕ) (a : CloneArgs) (mc : Machine M) (ks : List ℕ) (parent : LinuxTask)
      : Type 0 where
    pub system : System
    pub child : LinuxTask
    pub in_ring : HasTasks system ((mc.system).next_key ∷ ks)
    pub present : system.task (mc.system).next_key ≡ some child
    pub resumes : child.pc ≡ get_return_address g abi mc.memory (mc.state self).rip
    pub shares : child.memory ≡ parent.memory
    pub number : child.tid ≡ (mc.system).next_tid
    pub result :
        do_clone g wide abi self mc a
        ≡ done (
            set_tls g wide abi self (mc.system).next_key a (
              answer g wide abi self
                (mc.system).next_key
                child.tid
                (with_child g wide abi self mc a parent ((mc.system).next_key, system) child)))

  pub do_clone-IsMade :
      (self : ℕ) (a : CloneArgs) (mc : Machine M) (ks : List ℕ) (parent : LinuxTask)
      → HasTasks mc.system ks
      → (mc.system).task self ≡ some parent
      → is_process a ≡ false
      → refuses g wide abi mc.memory a ≡ none
      → IsMade self a mc ks parent
  unfolding do_clone make_thread
  do_clone-IsMade self a mc ks parent ring at thread ok =
      let ret_addr = get_return_address g abi mc.memory (mc.state self).rip in
      let k = (mc.system).next_key in
      let (s', made, ring') = create_task-HasTasks mc.system ks ret_addr parent.memory ring in
      let (child, here, pc, memory, tid) =
        create_task_lem mc.system s' k ret_addr parent.memory made in
      record {
        system = s';
        child = child;
        in_ring = ring';
        present = here;
        resumes = pc;
        shares = memory;
        number = tid;
        result = rw (thread, ok, at, made, here) refl;
      }

  -- Clone of a thread, over a system of tasks, for flags that pass its tests and, in the 32-bit
  -- runtime, with no thread data to set: the list and the ring of the tasks get the child before the
  -- others, with the next number, in the memory of its parent. The child resumes at the return
  -- address of the call, on the given stack or on that of its parent, with the result 0; the parent
  -- gets the child's number; and the registers of all other tasks are as before.
  pub do_clone-IsThread :
      (self : ℕ) (a : CloneArgs) (mc : Machine M) (ks : List ℕ) (parent : LinuxTask)
      → HasTasks mc.system ks
      → self < (mc.system).next_key
      → (mc.system).task self ≡ some parent
      → is_process a ≡ false
      → refuses g wide abi mc.memory a ≡ none
      → (wide ≡ true) ⊎ (asks a clone_settls ≡ false)
      → (mc' : Machine M) × (do_clone g wide abi self mc a ≡ done mc')
        × HasTasks mc'.system ((mc.system).next_key ∷ ks)
        × IsThread self a parent mc mc'
  unfolding reply
  do_clone-IsThread self a mc ks parent ring below at thread ok tls =
      let k = (mc.system).next_key in
      let made = do_clone-IsMade self a mc ks parent ring at thread ok in
      let s' = made.system in
      let t : LinuxTask = started a parent made.child in
      let ready =
        answer g wide abi self k (made.child).tid
          (with_child g wide abi self mc a parent (k, s') made.child) in
      let ne : self ≢ k = λ e. omega arith in
      let (rip, rsp, rax, own, rest) = answered self mc a parent made.child k s' ne in
      let same = set_tls-IsSteady self k a ready tls in
      let ring' =
        put_task-HasTasks s' k made.child t made.present (refl, refl) (k ∷ ks) made.in_ring in
      (
        set_tls g wide abi self k a ready,
        made.result,
        subst (λ s. HasTasks s (k ∷ ks)) (sym same.tasks) ring',
        record {
          child = t;
          present = ap (λ s. s.task k) same.tasks ∙ update_self s'.task k (some t);
          shares = made.shares;
          number = made.number;
          resumes = made.resumes;
          in_step = same.same_rip ∙ rip ∙ sym made.resumes;
          stack = same.same_rsp ∙ rsp;
          zero_for_child = same.same_rax ∙ rax;
          number_for_parent = ap State.rax (same.same_others self ne) ∙ own;
          others = λ j a b. same.same_others j b ∙ rest j a b;
        },
      )
