-- ===== src/FileBackedCache/Bytes.antt =====
-- The bytes of a file that is resized and stored into.
use vmill.Prelude.{
  ℕ, zero, suc, ◌+◌, ◌*◌, ◌≤◌, ◌≡◌, refl, ap, length, length-append, take, List, [], ◌∷◌, ◌++◌, All,
  arith,
}
use vmill.FileBackedCache.{resized, stored_at, joined}

pub length-resized : (n : ℕ) (xs : List ℕ) → length (resized n xs) ≡ n
unfolding resized
length-resized zero xs = refl
length-resized (suc n) [] = ap suc (length-resized n [])
length-resized (suc n) (x ∷ xs) = ap suc (length-resized n xs)

-- The first bytes stay, where there are so many before and after.
pub take-resized :
    (k n : ℕ) (xs : List ℕ) → k ≤ n → k ≤ length xs → take k (resized n xs) ≡ take k xs
unfolding resized
take-resized zero n xs h l = refl
take-resized (suc k) zero xs h l = absurd (omega (arith, h))
take-resized (suc k) (suc n) [] h l = absurd (omega (arith, l))
take-resized (suc k) (suc n) (x ∷ xs) h l =
    ap (λ ys. x ∷ ys) (take-resized k n xs (omega (arith, h)) (omega (arith, l)))

pub length-stored_at : (n : ℕ) (bs xs : List ℕ) → length (stored_at n bs xs) ≡ length xs
unfolding stored_at
length-stored_at zero [] xs = refl
length-stored_at zero (b ∷ bs) [] = refl
length-stored_at zero (b ∷ bs) (x ∷ xs) = ap suc (length-stored_at zero bs xs)
length-stored_at (suc n) bs [] = refl
length-stored_at (suc n) bs (x ∷ xs) = ap suc (length-stored_at n bs xs)

-- Up to their end, there are the bytes before the offset and then those that are stored.
pub take-stored_at :
    (k n : ℕ) (bs xs : List ℕ)
    → k ≡ n + length bs
    → k ≤ length xs
    → take k (stored_at n bs xs) ≡ take n xs ++ bs
unfolding stored_at
take-stored_at zero zero [] xs e h = refl
take-stored_at zero zero (b ∷ bs) xs e h = absurd (omega (arith, e))
take-stored_at zero (suc n) bs xs e h = absurd (omega (arith, e))
take-stored_at (suc k) zero [] xs e h = absurd (omega (arith, e))
take-stored_at (suc k) n bs [] e h = absurd (omega (arith, h))
take-stored_at (suc k) zero (b ∷ bs) (x ∷ xs) e h =
    ap (λ ys. b ∷ ys) (take-stored_at k zero bs xs (omega (arith, e)) (omega (arith, h)))
take-stored_at (suc k) (suc n) bs (x ∷ xs) e h =
    ap (λ ys. x ∷ ys) (take-stored_at k n bs xs (omega (arith, e)) (omega (arith, h)))

pub length-joined :
    (size : ℕ) (es : List (List ℕ))
    → All (λ e. length e ≡ size) es
    → length (joined es) ≡ length es * size
length-joined size [] h = omega arith
length-joined size (e ∷ es) (h, hs) =
    let both = length-append e (joined es) in let rest = length-joined size es hs in grind arith
