-- ===== src/Futex/Waiting.antt =====
-- A task that waits for a futex as a state machine: its rounds, the scheduler, and the wakers.
use vmill.Prelude.{
  ℕ, zero, suc, ◌-◌, ◌%◌, ◌≤◌, ◌<◌, ◌≡◌, ◌≢◌, inl, inr, refl, Bool, true, false, not, ◌||◌, ap,
  Option, none, some, ◌==◌, arith, Outcome, done, done-injective, subst, Bool-cases,
}
use vmill.Tasks.{LinuxTask}
use vmill.Futex.{
  Reply, returns, fails, einval, efault, eagain, etimedout, wait_round, wait_block,
  do_futex_wait_bit_set, futex_blocked_for_a_bit, woken,
}

-- What can happen to a task that waits at `uaddr`, and how it ends. The scheduler counts down and runs
-- the task again when nothing is left; another task wakes it.
pub data Waits (uaddr val bitset : ℕ) : LinuxTask → Option Reply → Type 0 where
  begins :
      (t : LinuxTask) {t' : LinuxTask} {reply : Option Reply} (uval : Option ℕ) (writable : Bool)
      → t.blocked_count ≡ 0
      → t.futex_uaddr ≡ 0
      → do_futex_wait_bit_set uaddr val true bitset uval writable t ≡ done (reply, t')
      → Waits uaddr val bitset t' reply
  ticks :
      (t : LinuxTask)
      → Waits uaddr val bitset t none
      → 0 < t.blocked_count
      → Waits uaddr val bitset (record t { blocked_count = t.blocked_count - 1 }) none
  is_woken : (t : LinuxTask) → Waits uaddr val bitset t none → Waits uaddr val bitset (woken t) none
  resumes :
      (t : LinuxTask) {t' : LinuxTask} {reply : Option Reply} (uval : Option ℕ) (writable : Bool)
      → Waits uaddr val bitset t none
      → t.blocked_count ≡ 0
      → wait_round uaddr val true bitset uval writable t ≡ done (reply, t')
      → Waits uaddr val bitset t' reply

-- While it waits, it has the address, and at most a hundred rounds to go; it never ends in ETIMEDOUT.
abbrev pub IsPatient : ℕ → LinuxTask → Option Reply → Type 0
IsPatient uaddr t none = (t.futex_uaddr ≡ uaddr) × (t.blocked_count ≤ futex_blocked_for_a_bit)
IsPatient uaddr t (some r) = r ≢ fails etimedout

IsPatient-done :
    (uaddr : ℕ) (x : Option Reply × LinuxTask) (reply : Option Reply) (t' : LinuxTask)
    → IsPatient uaddr x.1 x.0
    → ◌≡◌ {A = Outcome (Option Reply × LinuxTask)} (done x) (done (reply, t'))
    → IsPatient uaddr t' reply
IsPatient-done uaddr x reply t' p h =
    subst (λ (y : Option Reply × LinuxTask). IsPatient uaddr y.1 y.0)
      (done-injective x (reply, t') h) p

wait_round-IsPatient :
    (uaddr val bitset : ℕ) (uval : Option ℕ) (writable : Bool) (t t' : LinuxTask)
    (reply : Option Reply)
    → t.blocked_count ≡ 0
    → wait_round uaddr val true bitset uval writable t ≡ done (reply, t')
    → IsPatient uaddr t' reply
unfolding wait_round
wait_round-IsPatient uaddr val bitset none writable t t' reply idle h =
    IsPatient-done uaddr (some (fails efault), t) reply t' (λ e. cc) h
wait_round-IsPatient uaddr val bitset (some uval) false t t' reply idle h =
    IsPatient-done uaddr (some (fails efault), t) reply t' (λ e. cc) h
wait_round-IsPatient uaddr val bitset (some uval) true t t' reply idle h =
    elim (Bool-cases (uval == val)) [
      | inr other ↦
          IsPatient-done uaddr
            (some (fails eagain), record t { futex_uaddr = 0; blocked_count = 0 }) reply t'
            (λ e. cc) (ground arith)
      | inl same ↦ elim (Bool-cases (t.futex_uaddr == 0)) [
        | inl fresh ↦
            IsPatient-done uaddr (wait_block uaddr true bitset t) reply t' (begun t idle)
              (ground arith)
        | inr again ↦ elim (Bool-cases (t.futex_uaddr == uaddr)) [
          | inr elsewhere ↦ ground arith
          | inl here ↦
              IsPatient-done uaddr
                (some (returns 0), record t { futex_bitset = 0; futex_uaddr = 0 }) reply t'
                (λ e. cc) (ground arith)
        ]
      ]
    ]
  where
    begun :
        (u : LinuxTask)
        → u.blocked_count ≡ 0
        → IsPatient uaddr (wait_block uaddr true bitset u).1 (wait_block uaddr true bitset u).0
    begun u e =
        let start : Option Reply × LinuxTask = (
          none,
          record u {
            blocked_count = futex_blocked_for_a_bit;
            futex_bitset = bitset;
            futex_uaddr = uaddr;
          },
        ) in
        let same : start ≡ wait_block uaddr true bitset u = ground arith in
        subst (λ (y : Option Reply × LinuxTask). IsPatient uaddr y.1 y.0) same (refl, omega arith)

do_futex_wait_bit_set-IsPatient :
    (uaddr val bitset : ℕ) (uval : Option ℕ) (writable : Bool) (t t' : LinuxTask)
    (reply : Option Reply)
    → t.blocked_count ≡ 0
    → do_futex_wait_bit_set uaddr val true bitset uval writable t ≡ done (reply, t')
    → IsPatient uaddr t' reply
unfolding do_futex_wait_bit_set
do_futex_wait_bit_set-IsPatient uaddr val bitset uval writable t t' reply idle h =
    elim (Bool-cases (not (uaddr % 4 == 0) || bitset == 0)) [
      | inl bad ↦ IsPatient-done uaddr (some (fails einval), t) reply t' (λ e. cc) (rw bad at h)
      | inr good ↦
          wait_round-IsPatient uaddr val bitset uval writable t t' reply idle (rw good at h)
    ]

-- However the scheduler and the other tasks interfere, a task that waits for a futex with a timeout
-- has its address and at most a hundred rounds to go, and its wait never ends in ETIMEDOUT.
pub Waits-IsPatient :
    {uaddr val bitset : ℕ} {t : LinuxTask} {reply : Option Reply}
    → Waits uaddr val bitset t reply
    → IsPatient uaddr t reply
Waits-IsPatient {uaddr} {val} {bitset} (begins t {t'} {reply} uval writable idle fresh h) =
    do_futex_wait_bit_set-IsPatient uaddr val bitset uval writable t t' reply idle h
Waits-IsPatient (ticks t w some_left) = let p = Waits-IsPatient w in (p.0, omega (arith, p.1))
Waits-IsPatient (is_woken t w) = let p = Waits-IsPatient w in (p.0, omega arith)
Waits-IsPatient {uaddr} {val} {bitset} (resumes t {t'} {reply} uval writable w idle h) =
    wait_round-IsPatient uaddr val bitset uval writable t t' reply idle h

-- The scheduler counts down to nothing.
abbrev pub ticked : ℕ → LinuxTask → LinuxTask
ticked n t = record t { blocked_count = t.blocked_count - n }

ticked-Waits :
    {uaddr val bitset : ℕ} (n : ℕ) (t : LinuxTask)
    → n ≤ t.blocked_count
    → Waits uaddr val bitset t none
    → Waits uaddr val bitset (ticked n t) none
ticked-Waits {uaddr} {val} {bitset} zero t le w =
    let same : t ≡ ticked 0 t = ap (λ c. record t { blocked_count = c }) (omega arith) in
    subst (λ u. Waits uaddr val bitset u none) same w
ticked-Waits {uaddr} {val} {bitset} (suc n) t le w =
    let one = ticks (ticked n t) (ticked-Waits n t (omega arith) w) (omega arith) in
    let same : record t { blocked_count = t.blocked_count - n - 1 } ≡ ticked (suc n) t =
      ap (λ c. record t { blocked_count = c }) (omega arith) in
    subst (λ u. Waits uaddr val bitset u none) same one

-- If nobody wakes a task that waits at an address other than 0 and the word keeps its value, the
-- wait ends after the hundred rounds at most that are left, and the task is told that it was woken.
pub Waits-end :
    {uaddr val bitset : ℕ} (t : LinuxTask)
    → uaddr ≢ 0
    → Waits uaddr val bitset t none
    → (n : ℕ) × (t' : LinuxTask) × (n ≤ futex_blocked_for_a_bit)
      × Waits uaddr val bitset (ticked n t) none
      × (wait_round uaddr val true bitset (some val) true (ticked n t)
          ≡ done (some (returns 0), t'))
      × Waits uaddr val bitset t' (some (returns 0))
unfolding wait_round
Waits-end {uaddr} {val} {bitset} t ne w =
    let p = Waits-IsPatient w in
    let n = t.blocked_count in
    let last = record t { blocked_count = 0; futex_bitset = 0; futex_uaddr = 0 } in
    let waited = ticked-Waits n t (omega arith) w in
    let ends : wait_round uaddr val true bitset (some val) true (ticked n t)
        ≡ done (some (returns 0), last) =
      ground (arith, p.0) in
    (n, last, p.1, waited, ends, resumes (ticked n t) (some val) true waited (omega arith) ends)
