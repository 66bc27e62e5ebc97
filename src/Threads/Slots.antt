-- ===== src/Threads/Slots.antt =====
-- Where DoClone of vmill/Runtime/Linux/Thread.cpp puts the thread data of a new thread.
use vmill.Prelude.{
  ℕ, ◌-◌, ◌≤◌, ◌≡◌, ◌<◌, ◌∙◌, sym, subst, true, false, some, none, List, arith, update_self, done,
}
use vmill.Futex.Operators.{Guest}
use vmill.Tasks.{LinuxTask}
use vmill.Tasks.Ring.{HasTasks}
use vmill.Calls.{SystemCallAbi, try_read_bytes}
use vmill.Threads.{
  Machine, UserDesc, zero_desc, check_desc, do_set_thread_area, install_desc, reply, is_refused,
  desc_of, min_index, max_index,
}
use vmill.Threads.Segments.{IsInstalled, install_desc-IsInstalled}
use vmill.Threads.Clone.{
  CloneArgs, asks, clone_settls, is_process, refuses, do_clone, set_tls, announce, answer,
  with_child,
}
use vmill.Threads.Children.{do_clone-IsMade}

module _ {M : Type 0} (g : Guest M) (abi : SystemCallAbi) where
  installs_there :
      (self k addr : ℕ) (d : UserDesc) (mc : Machine M)
      → is_refused d ≡ false
      → min_index ≤ d.entry_number
      → d.entry_number ≤ max_index
      → check_desc g self k addr d mc ≡ install_desc g self k d mc
  unfolding check_desc
  installs_there self k addr d mc fine lo hi = rw fine (ground arith)

  sets_tls :
      (self k : ℕ) (a : CloneArgs) (bytes : List ℕ) (mc : Machine M)
      → asks a clone_settls ≡ true
      → try_read_bytes g mc.memory a.newtls 16 ≡ some bytes
      → is_refused (desc_of bytes) ≡ false
      → min_index ≤ (desc_of bytes).entry_number
      → (desc_of bytes).entry_number ≤ max_index
      → IsInstalled g self k (desc_of bytes) mc (set_tls g false abi self k a mc)
  unfolding set_tls do_set_thread_area
  sets_tls self k a bytes mc asked read fine lo hi =
      rw
        (
          asked,
          do_set_thread_area,
          read,
          installs_there self k a.newtls (desc_of bytes) mc fine lo hi,
        )
        (install_desc-IsInstalled g self k (desc_of bytes) mc)

  -- In the 32-bit runtime, a clone that passes its tests, with a valid descriptor of thread data for
  -- an index in the range, puts the descriptor into the slots of the task that calls it, and
  -- leaves those of the new task zero.
  pub do_clone_tls :
      (self : ℕ) (a : CloneArgs) (mc : Machine M) (ks : List ℕ) (parent : LinuxTask)
      (bytes : List ℕ)
      → HasTasks mc.system ks
      → self < (mc.system).next_key
      → (mc.system).task self ≡ some parent
      → is_process a ≡ false
      → refuses g false abi mc.memory a ≡ none
      → asks a clone_settls ≡ true
      → try_read_bytes g (announce g false abi mc.memory a (mc.system).next_tid) a.newtls 16
        ≡ some bytes
      → is_refused (desc_of bytes) ≡ false
      → min_index ≤ (desc_of bytes).entry_number
      → (desc_of bytes).entry_number ≤ max_index
      → (mc' : Machine M) × (do_clone g false abi self mc a ≡ done mc')
        × (mc'.tls_slots self ((desc_of bytes).entry_number - min_index) ≡ desc_of bytes)
        × (mc'.tls_slots (mc.system).next_key ≡ (λ _. zero_desc))
  unfolding reply
  do_clone_tls self a mc ks parent bytes ring below at thread ok asked read fine lo hi =
      let k = (mc.system).next_key in
      let made = do_clone-IsMade g false abi self a mc ks parent ring at thread ok in
      let tid = (made.child).tid in
      let ready =
        answer g false abi self k tid
          (with_child g false abi self mc a parent (k, made.system) made.child) in
      let readable : try_read_bytes g (announce g false abi mc.memory a tid) a.newtls 16
          ≡ some bytes =
        subst (λ n. try_read_bytes g (announce g false abi mc.memory a n) a.newtls 16 ≡ some bytes)
          (sym made.number) read in
      let there = sets_tls self k a bytes ready asked readable fine lo hi in
      (
        set_tls g false abi self k a ready,
        made.result,
        there.slot,
        there.other_slots k (λ e. omega arith) ∙ update_self mc.tls_slots k (λ _. zero_desc),
      )
