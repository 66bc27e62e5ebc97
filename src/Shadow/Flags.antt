-- ===== src/Shadow/Flags.antt =====
-- BoolRef of vmill/Program/ShadowMemory.h: one bit of a byte, with the value that was read.
use native.Mathlib.Nat
use vmill.Prelude.{
  dec_lt, ℕ, ◌+◌, ◌-◌, ◌^◌, ◌≤◌, ◌<◌, ◌≡◌, Bool, true, false, ◌==◌, arith, update_self, Bool-cases,
  inl, inr,
}
use vmill.Area.{HostMemory}
use vmill.Shadow.{bool_ref, assign, has_bit}

module _ (byte mask : ℕ) (positive : 0 < mask) where
  mask_le : has_bit byte mask ≡ true → mask ≤ byte
  mask_le on = elim (dec_lt byte mask) [
    | yes less ↦ absurd (ground (arith, Nat.div-eq_of_lt less))
    | no k ↦ omega (arith, k)
  ]

  -- The bit is switched off, and on again.
  minus_mask : has_bit byte mask ≡ true → has_bit (byte - mask) mask ≡ false
  minus_mask on = let less = Nat.div-eq-sub-div positive (mask_le on) in ground (arith, less)

  plus_mask : has_bit byte mask ≡ false → has_bit (byte + mask) mask ≡ true
  plus_mask off = let more = Nat.add-div_right byte positive in ground (arith, more)

module _ (mem : HostMemory) (at offset : ℕ) where
  abbrev mask : ℕ
  mask = 2 ^ offset

  positive : 0 < mask
  positive = Nat.one-le-pow offset 2 (omega arith)

  abbrev reads : HostMemory → Bool
  reads m = has_bit (m at) mask

  assign-reads : (b : Bool) → reads (assign (bool_ref mem at offset) b mem).1 ≡ b
  unfolding assign bool_ref
  assign-reads true = elim (Bool-cases (reads mem)) [
    | inl on ↦ rw on on
    | inr off ↦ rw (off, update_self mem at (mem at + mask)) (plus_mask (mem at) mask positive off)
  ]
  assign-reads false = elim (Bool-cases (reads mem)) [
    | inl on ↦ rw (on, update_self mem at (mem at - mask)) (minus_mask (mem at) mask positive on)
    | inr off ↦ rw off off
  ]

  assign-twice :
      reads mem ≡ true
      → (let ref = bool_ref mem at offset in
          reads (assign ref false (assign ref false mem).1).1 ≡ true)
  unfolding assign bool_ref
  assign-twice on =
      let once = mem at - mask in
      let off = minus_mask (mem at) mask positive on in
      let same : (at == at) ≡ true = ground arith in
      rw (on, update_self mem at once, off, same) (plus_mask once mask positive off)

  -- Assigning to a reference sets the bit that a new one then reads; but of two references to a bit that
  -- is set, assigning false to both sets it again.
  pub assign-bool_ref :
      ((b : Bool) → (bool_ref (assign (bool_ref mem at offset) b mem).1 at offset).cache ≡ b)
      × (reads mem ≡ true
          → (let ref = bool_ref mem at offset in
              (bool_ref (assign ref false (assign ref false mem).1).1 at offset).cache ≡ true))
  unfolding bool_ref
  assign-bool_ref = (assign-reads, assign-twice)
