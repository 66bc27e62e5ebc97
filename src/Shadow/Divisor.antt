-- ===== src/Shadow/Divisor.antt =====
-- The loop of GreatestCommonDivisor (vmill/Program/ShadowMemory.cpp).
use native.Mathlib.Nat
use Prim.Native.Nat.{◌∣◌}
use vmill.Prelude.{
  ◌/◌, ◌%◌, ◌⊎◌, false, none, word_mod, done, undefined, ℕ, zero, suc, ◌+◌, ◌-◌, ◌*◌, ◌≤◌, ◌<◌, ◌≡◌,
  refl, ap, sym, ◌∙◌, subst, some, arith, ltb, ◌==◌, false, Bool-cases, inl, inr,
}
use vmill.Shadow.{least_common_multiple, divided, greatest_common_divisor}

-- A common divisor that every other one divides, also when all are multiplied by a number.
abbrev IsGreatest : ℕ → ℕ → ℕ → Type 0
IsGreatest k m g = (g ∣ k) × (g ∣ m) × ((d c : ℕ) → d ∣ k * c → d ∣ m * c → d ∣ g * c)

-- A common multiple that divides every other one.
abbrev pub IsLeast : ℕ → ℕ → ℕ → Type 0
IsLeast k m l = (k ∣ l) × (m ∣ l) × ((x : ℕ) → k ∣ x → m ∣ x → l ∣ x)

-- Taking the smaller one from the larger one keeps the common divisors.
dvd_minus : (d c k m : ℕ) → m ≤ k → d ∣ k * c → d ∣ m * c → d ∣ (k - m) * c
dvd_minus d c k m h a b =
    let swap = Nat.mul_comm c in
    let same : k * c - m * c ≡ (k - m) * c =
      rw (Nat.mul_comm (k - m) c, Nat.mul-sub c k m, swap k, swap m) refl in
    subst (◌∣◌ d) same (Nat.dvd-sub d a b)

keep_left : (k m g : ℕ) → m ≤ k → IsGreatest (k - m) m g → IsGreatest k m g
keep_left k m g h (a, b, most) = (
  subst (◌∣◌ g) (omega (arith, h)) (Nat.dvd-add g a b),
  b,
  λ d c dk dm. most d c (dvd_minus d c k m h dk dm) dm,
)

keep_right : (k m g : ℕ) → k ≤ m → IsGreatest k (m - k) g → IsGreatest k m g
keep_right k m g h (a, b, most) = (
  a,
  subst (◌∣◌ g) (omega (arith, h)) (Nat.dvd-add g b a),
  λ d c dk dm. most d c dk (dvd_minus d c m k h dm dk),
)

-- For positive numbers the loop ends within their sum of rounds, with their greatest common divisor.
greatest_common_divisor-IsGreatest :
    (n k m : ℕ)
    → 0 < k
    → 0 < m
    → k + m ≤ n
    → (g : ℕ) × (greatest_common_divisor n k m ≡ some g) × IsGreatest k m g
unfolding greatest_common_divisor
greatest_common_divisor-IsGreatest zero k m hk hm h = absurd (omega (arith, hk, h))
greatest_common_divisor-IsGreatest (suc n) k m hk hm h = elim (Bool-cases (k == m)) [
  | inl same ↦ (
    k,
    rw same refl,
    (Nat.dvd_refl k, subst (◌∣◌ k) (ground (arith, same)) (Nat.dvd_refl k), λ d c dk dm. dk),
  )
  | inr other ↦ elim (Bool-cases (ltb m k)) [
    | inl more ↦
        let (g, e, is) =
          greatest_common_divisor-IsGreatest n (k - m) m (ground arith) hm (ground arith) in
        (g, rw (other, more) e, keep_left k m g (ground arith) is)
    | inr less ↦
        let (g, e, is) =
          greatest_common_divisor-IsGreatest n k (m - k) hk (ground arith) (ground arith) in
        (g, rw (other, less) e, keep_right k m g (ground arith) is)
  ]
]

-- More rounds do not change what the loop gives.
rounds_agree :
    (n n' k m g : ℕ)
    → n ≤ n'
    → greatest_common_divisor n k m ≡ some g
    → greatest_common_divisor n' k m ≡ some g
unfolding greatest_common_divisor
rounds_agree zero n' k m g le h = absurd cc
rounds_agree (suc n) zero k m g le h = absurd (omega (arith, le))
rounds_agree (suc n) (suc n') k m g le h = elim (Bool-cases (k == m)) [
  | inl same ↦ ground (arith, same, h)
  | inr other ↦ elim (Bool-cases (ltb m k)) [
    | inl more ↦
        rw (other, more) (rounds_agree n n' (k - m) m g (omega (arith, le)) (rw (other, more) at h))
    | inr less ↦
        rw (other, less) (rounds_agree n n' k (m - k) g (omega (arith, le)) (rw (other, less) at h))
  ]
]

-- With one number zero the loop has no end.
endless : (n k : ℕ) → 0 < k → greatest_common_divisor n 0 k ≡ none
unfolding greatest_common_divisor
endless zero k h = refl
endless (suc n) k h =
    let other : (0 == k) ≡ false = ground arith in
    let less : ltb k 0 ≡ false = ground arith in
    let same : k - 0 ≡ k = omega arith in rw (other, less, same) (endless n k h)

quotient-IsLeast : (k m g : ℕ) → 0 < k → IsGreatest k m g → IsLeast k m (k * m / g)
quotient-IsLeast k m g hk (a, b, most) =
    let positive = Nat.pos_of_dvd_of_pos a hk in
    let of_k : k * m / g ≡ k * (m / g) = Nat.mul-div_assoc g k b in
    let of_m : k * m / g ≡ m * (k / g) =
      ap (λ n. n / g) (Nat.mul_comm k m) ∙ Nat.mul-div_assoc g m a in
    let whole : k * m / g * g ≡ k * m = Nat.div-mul_cancel g (Nat.dvd-mul_right_of_dvd g a m) in
    (
      subst (◌∣◌ k) (sym of_k) (Nat.dvd-mul_right k (m / g)),
      subst (◌∣◌ m) (sym of_m) (Nat.dvd-mul_right m (k / g)),
      λ x kx mx.
          let first : k * m ∣ k * x = Nat.mul-dvd-mul_left m k mx in
          let second : k * m ∣ m * x =
            subst (λ n. n ∣ m * x) (Nat.mul_comm m k) (Nat.mul-dvd-mul_left k m kx) in
          let both = most (k * m) x first second in
          Nat.dvd_of_mul-dvd-mul_right (k * m / g) positive
            (subst (λ n. n ∣ x * g) (sym whole) (subst (◌∣◌ (k * m)) (Nat.mul_comm g x) both)),
    )

-- For positive numbers whose product is a uint64_t, the loop of LeastCommonMultiple ends in any
-- `k + m` or more rounds, and LeastCommonMultiple gives the least common multiple, the product divided
-- by what the loop gives; when the first number is zero, no number of rounds is enough for the loop,
-- and it does not end.
pub least_common_multiple-IsLeast :
    (n k m : ℕ)
    → 0 < m
    → k * m < word_mod
    → k + m ≤ n
    → ((0 < k)
        × ((g : ℕ) × (greatest_common_divisor n k m ≡ some g)
            × (least_common_multiple k m ≡ done (k * m / g))
            × IsLeast k m (k * m / g)))
      ⊎ ((k ≡ 0)
          × ((rounds : ℕ) → greatest_common_divisor rounds k m ≡ none)
          × (least_common_multiple k m ≡ undefined))
least_common_multiple-IsLeast n zero m hm small enough =
    inr (
      refl,
      (λ rounds. endless rounds m hm),
      ap (divided (0 * m % word_mod)) (endless (0 + m) m hm),
    )
least_common_multiple-IsLeast n (suc k) m hm small enough =
    let some_k : 0 < suc k = omega arith in
    let (g, ends, is) =
      greatest_common_divisor-IsGreatest (suc k + m) (suc k) m some_k hm (omega arith) in
    let product : suc k * m % word_mod ≡ suc k * m = omega (arith, small) in
    inl (
      some_k,
      (
        g,
        rounds_agree (suc k + m) n (suc k) m g enough ends,
        ap (divided (suc k * m % word_mod)) ends ∙ ap (λ n. done (n / g)) product,
        quotient-IsLeast (suc k) m g some_k is,
      ),
    )
