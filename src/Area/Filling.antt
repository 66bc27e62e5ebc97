-- ===== src/Area/Filling.antt =====
-- FillWithBreakPoints: what it writes, and what it leaves alone.
use vmill.Prelude.{
  ℕ, zero, suc, ◌+◌, ◌-◌, ◌≤◌, ◌<◌, ◌≡◌, ◌∙◌, refl, List, [], ◌∷◌, length, ltb, leb, ◌&&◌,
  if◌then◌else◌, update, arith,
}
use vmill.Area.{HostMemory, store_break_point, fill_rounds, fill_with_break_points}

store_break_point_below :
    (code : List ℕ) (a x : ℕ) (mem : HostMemory) → x < a → store_break_point code a mem x ≡ mem x
unfolding store_break_point
store_break_point_below [] a x mem lt = refl
store_break_point_below (b ∷ bs) a x mem lt =
    store_break_point_below bs (a + 1) x (update mem a b) (omega arith) ∙ ground arith

pub fill_rounds_below :
    (code : List ℕ) (n base limit x : ℕ) (mem : HostMemory)
    → x < base
    → fill_rounds code n base limit mem x ≡ mem x
unfolding fill_rounds
fill_rounds_below code zero base limit x mem lt = refl
fill_rounds_below code (suc n) base limit x mem lt =
    let one = store_break_point_below code base x mem lt in
    let rest =
      fill_rounds_below code n (base + length code) limit x (store_break_point code base mem)
        (omega arith) in
    ground arith

fill_rounds_lem :
    (b n base limit x : ℕ) (mem : HostMemory)
    → limit ≤ base + n
    → fill_rounds (b ∷ []) n base limit mem x ≡ (if leb base x && ltb x limit then b else mem x)
unfolding fill_rounds store_break_point
fill_rounds_lem b zero base limit x mem enough = ground arith
fill_rounds_lem b (suc n) base limit x mem enough =
    let rest = fill_rounds_lem b n (base + 1) limit x (update mem base b) (omega arith) in
    ground arith

-- With a break point of one byte, FillWithBreakPoints makes each byte of [base, limit) that byte, and
-- leaves all other bytes as they are.
pub fill_with_break_points_lem :
    (b base limit x : ℕ) (mem : HostMemory)
    → fill_with_break_points (b ∷ []) base limit mem x
      ≡ (if leb base x && ltb x limit then b else mem x)
fill_with_break_points_lem b base limit x mem =
    fill_rounds_lem b (limit - base) base limit x mem (omega arith)
