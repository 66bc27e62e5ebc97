-- ===== src/Files/Gathering.antt =====
-- What writev of vmill/Runtime/Linux/IO.cpp gives to the host.
use mathlib.Core.Option.{some-injective}
use vmill.Prelude.{
  length-append, ℕ, zero, suc, ◌+◌, ◌<◌, ◌^◌, ◌≡◌, refl, sym, ap, subst, ◌∙◌, Bool, true, false,
  Option, none, some, length, List, [], ◌∷◌, ◌++◌, inr, if◌then◌else◌, arith,
}
use vmill.Replies.{Errno, Reply, returns}
use vmill.Futex.Operators.{Guest}
use vmill.Calls.{read_bytes}
use vmill.Files.{Host, can_read_bytes, do_write, int_of, sys_writev, try_read_vec, write_vectors}

abbrev before : List ℕ → Option (List ℕ) → Option (List ℕ)
before bs none = none
before bs (some cs) = some (bs ++ cs)

before-some :
    (xs : List ℕ) (may : Bool) (rest : Option (List ℕ)) (bs : List ℕ)
    → (if may then before xs rest else none) ≡ some bs
    → (may ≡ true) × ((cs : List ℕ) × (rest ≡ some cs) × (bs ≡ xs ++ cs))
before-some xs false rest bs h = absurd cc
before-some xs true none bs h = absurd cc
before-some xs true (some cs) bs h = (refl, (cs, refl, sym (some-injective _ _ h)))

-- The bytes of `n` elements of a vector from `i` on, if all can be read.
module _ {M : Type 0} (g : Guest M) (word_size : ℕ) where
  abbrev bytes_or_none : M → Option (ℕ × ℕ) → Option (List ℕ) → Option (List ℕ)
  bytes_or_none m none rest = none
  bytes_or_none m (some vec) rest =
      if can_read_bytes g m vec.0 vec.1 then before (read_bytes g m vec.0 vec.1) rest else none

  unfoldable pub gathered : ℕ → M → ℕ → ℕ → Option (List ℕ)
  gathered zero m iov i = some []
  gathered (suc n) m iov i =
      bytes_or_none m (try_read_vec g word_size m iov i) (gathered n m iov (i + 1))

  bytes-some :
      (m : M) (v : Option (ℕ × ℕ)) (rest : Option (List ℕ)) (bs : List ℕ)
      → bytes_or_none m v rest ≡ some bs
      → (vec : ℕ × ℕ) × (v ≡ some vec)
        × (can_read_bytes g m vec.0 vec.1 ≡ true)
        × ((cs : List ℕ) × (rest ≡ some cs) × (bs ≡ read_bytes g m vec.0 vec.1 ++ cs))
  bytes-some m none rest bs h = absurd cc
  bytes-some m (some vec) rest bs h =
      let (may, split) =
        before-some (read_bytes g m vec.0 vec.1) (can_read_bytes g m vec.0 vec.1) rest bs h in
      (vec, refl, may, split)

module _ {M H : Type 0} (g : Guest M) (host : Host H) (word_size : ℕ) (append : H → ℕ → List ℕ → H)
    (takes : (h : H) (fd : ℕ) (bs : List ℕ)
      → host.write h fd bs ≡ (inr (length bs), append h fd bs))
    (append_nil : (h : H) (fd : ℕ) → append h fd [] ≡ h)
    (append_append : (h : H) (fd : ℕ) (as' bs : List ℕ)
      → append (append h fd as') fd bs ≡ append h fd (as' ++ bs)) where
  abbrev same_result : ℕ → H → Reply × H
  same_result count h = (returns count, h)

  both : {a b : ℕ} {h k : H} → a ≡ b → h ≡ k → ◌≡◌ {A = Reply × H} (returns a, h) (returns b, k)
  both e f = rw (e, f) refl

  writes :
      (m : M) (h : H) (fd buf size count : ℕ)
      → can_read_bytes g m buf size ≡ true
      → (let bs = read_bytes g m buf size in
          do_write g host word_size m h fd buf size count
          ≡ (none, count + length bs, append h fd bs))
  unfolding do_write
  writes m h fd buf size count may = rw (may, takes h fd (read_bytes g m buf size)) refl

  write_step :
      (n : ℕ) (m : M) (h : H) (fd iov i count : ℕ) (vec : ℕ × ℕ)
      → try_read_vec g word_size m iov i ≡ some vec
      → can_read_bytes g m vec.0 vec.1 ≡ true
      → (let bs = read_bytes g m vec.0 vec.1 in
          write_vectors g host word_size (suc n) m h fd iov i count
          ≡ write_vectors g host word_size n m (append h fd bs) fd iov (i + 1) (count + length bs))
  unfolding write_vectors
  write_step n m h fd iov i count vec there may =
      let wrote = writes m h fd vec.0 vec.1 count may in
      rw (write_vectors, there, wrote)
        (ap
          (λ (r : Option Errno × ℕ × H). write_vectors g host word_size n m r.2 fd iov (i + 1) r.1)
          wrote)

  writes_all :
      (n : ℕ) (m : M) (h : H) (fd iov i count : ℕ) (bs : List ℕ)
      → gathered g word_size n m iov i ≡ some bs
      → write_vectors g host word_size n m h fd iov i count
        ≡ (returns (count + length bs), append h fd bs)
  unfolding write_vectors gathered
  writes_all zero m h fd iov i count bs e =
      let nil = some-injective [] bs e in
      subst (λ bs. same_result count h ≡ same_result (count + length bs) (append h fd bs)) nil
        (both (omega arith) (sym (append_nil h fd)))
  writes_all (suc n) m h fd iov i count bs e =
      let v = try_read_vec g word_size m iov i in
      let (vec, there, may, (cs, later, is)) =
        bytes-some g word_size m v (gathered g word_size n m iov (i + 1)) bs e in
      let first = read_bytes g m vec.0 vec.1 in
      let rest =
        writes_all n m (append h fd first) fd iov (i + 1) (count + length first) cs later in
      write_step n m h fd iov i count vec there may
      ∙ rest
      ∙ subst
          (λ bs.
            same_result (count + length first + length cs) (append (append h fd first) fd cs)
            ≡ same_result (count + length bs) (append h fd bs))
          (sym is) (both (omega (arith, length-append first cs)) (append_append h fd first cs))

  -- On a host that takes all bytes of a write and appends them to the file, writev of a vector whose
  -- elements can all be read gives the file the bytes of the elements one after the other, as one write of
  -- all of them does, and returns their number; memory stays as it is.
  pub sys_writev_lem :
      (m : M) (h : H) (fd iov n : ℕ) (bs : List ℕ)
      → fd < 2 ^ 32
      → gathered g word_size n m iov 0 ≡ some bs
      → sys_writev g host word_size m h (some (fd ∷ iov ∷ n ∷ []))
        ≡ (returns (length bs), m, append h fd bs)
  unfolding sys_writev
  sys_writev_lem m h fd iov n bs small e =
      let small_fd : int_of fd ≡ fd = omega arith in
      let all = writes_all n m h fd iov 0 0 bs e in
      let none_before : 0 + length bs ≡ length bs = omega arith in
      rw (small_fd, all, none_before) refl
