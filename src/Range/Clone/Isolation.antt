-- ===== src/Range/Clone/Isolation.antt =====
-- Clone on every class of range.
use vmill.Prelude.{ℕ, ◌≡◌, inl, inr, some, done}
use vmill.Range.{MappedRange, Store}
use vmill.Range.Duplicates.{clone}
use vmill.Range.Frame.{IsValid, IsNoParent, Body-cases}
use vmill.Range.Clone.{IsClone, clone-invalid, clone-empty, clone-copy_on_write}
use vmill.Range.Clone.Arrays.{clone-array}

-- In a valid store, Clone of a range that is no copy-on-write range's parent succeeds with a new
-- range. The new range, and the cloned one afterwards, give at every address the read that the
-- cloned one gave before; every other range reads as before; and the store stays valid.
pub clone-IsClone :
    (s : Store) (p : ℕ) (r : MappedRange)
    → IsValid s
    → IsNoParent s p
    → s.object p ≡ some r
    → (q : ℕ) × (s' : Store) × (clone s p ≡ done (q, s')) × IsClone s p q s'
clone-IsClone s p r v alone e = elim (Body-cases r.body) [
  | inl b ↦ clone-invalid s p r v e b
  | inr (inl b) ↦ clone-empty s p r v e b
  | inr (inr (inl (bytes, b))) ↦ clone-array s p r v e alone bytes b
  | inr (inr (inr (q, b))) ↦ clone-copy_on_write s p r v e q b
]
