-- ===== src/Removal/Coverage.antt =====
-- What it means that RemoveRange keeps the bytes outside of the range that it removes.
pub mod Parts
pub mod Cutting
pub mod Loss
use vmill.Prelude.{
  ℕ, suc, ◌+◌, ◌-◌, ◌%◌, ◌≤◌, ◌<◌, ◌≡◌, ◌≢◌, ◌⊎◌, ◌↔◌, inl, inr, refl, ap, sym, ◌∙◌, subst, some,
  none, Bool, List, [], ◌∷◌, ◌++◌, Any, Any-left, Any-right, Any-split, Any-map, All, All-map,
  arith, Outcome, done, ◌>>=◌, page_size, dec_lt,
}
use vmill.Range.{Body, copy_on_write, MappedRange, Store, read}
use vmill.Range.Duplicates.{copy}
use vmill.Range.Frame.{IsValid}
use vmill.Range.Bytes.{IsPaged}
use vmill.Range.Copies.{IsCopy, copy-IsCopy}
use vmill.Removal.{
  Overlap, apart, inside, around, prefix, suffix, overlap, Overlap-cases, carve, remove_range,
}

-- The range `p` has the address `a`, and reads there as `x`.
pub record Holds (s : Store) (a : ℕ) (x : Outcome (Bool × ℕ)) (p : ℕ) : Type 0 where
  pub range : MappedRange
  pub present : s.object p ≡ some range
  pub above : range.base_address ≤ a
  pub under : a < range.limit_address
  pub reads : read s p a ≡ x

-- Some range of the list does.
abbrev pub Covers : Store → List ℕ → ℕ → Outcome (Bool × ℕ) → Type 0
Covers s ps a x = Any (Holds s a x) ps

-- What RemoveRange is made for: page-aligned bounds; and a range that it cuts does not stick out of
-- [base, limit) at the top only, and is not copy-on-write.
pub record IsCuttable (s : Store) (base limit p : ℕ) : Type 0 where
  pub range : MappedRange
  pub present : s.object p ≡ some range
  pub paged : IsPaged range
  pub aligned : range.base_address % page_size ≡ 0
  pub not_top :
      (limit ≤ range.base_address) ⊎ (range.base_address ≤ base) ⊎ (range.limit_address ≤ limit)
  pub plain : (q : ℕ) → range.body ≢ copy_on_write q

-- The ranges of `s` are as they were in `s'`, and read as they did.
pub record Keeps (s s' : Store) : Type 0 where
  pub objects : (k : ℕ) (o : MappedRange) → s.object k ≡ some o → s'.object k ≡ some o
  pub reads : (k a : ℕ) (o : MappedRange) → s.object k ≡ some o → read s' k a ≡ read s k a

pub Keeps-trans : (s0 s1 s2 : Store) → Keeps s0 s1 → Keeps s1 s2 → Keeps s0 s2
Keeps-trans s0 s1 s2 k l = record {
  objects = λ p o e. l.objects p o (k.objects p o e);
  reads = λ p a o e. l.reads p a o (k.objects p o e) ∙ k.reads p a o e;
}

pub Holds-Keeps :
    (s s' : Store) (a : ℕ) (x : Outcome (Bool × ℕ)) (p : ℕ)
    → Keeps s s'
    → Holds s a x p
    → Holds s' a x p
Holds-Keeps s s' a x p k h = record {
  range = h.range;
  present = k.objects p h.range h.present;
  above = h.above;
  under = h.under;
  reads = k.reads p a h.range h.present ∙ h.reads;
}

pub IsCuttable-Keeps :
    (s s' : Store) (base limit p : ℕ)
    → Keeps s s'
    → IsCuttable s base limit p
    → IsCuttable s' base limit p
IsCuttable-Keeps s s' base limit p k c = record {
  range = c.range;
  present = k.objects p c.range c.present;
  paged = c.paged;
  aligned = c.aligned;
  not_top = c.not_top;
  plain = c.plain;
}

-- The address lies outside of what is removed.
abbrev pub IsOutside : ℕ → ℕ → ℕ → Type 0
IsOutside base limit a = (a < base) ⊎ (limit ≤ a)

-- The key is one of a range.
abbrev pub IsPresent : Store → ℕ → Type 0
IsPresent s p = (o : MappedRange) × (s.object p ≡ some o)

pub Holds-back :
    (s s' : Store) (a : ℕ) (x : Outcome (Bool × ℕ)) (p : ℕ)
    → Keeps s s'
    → IsPresent s p
    → Holds s' a x p
    → Holds s a x p
Holds-back s s' a x p k (o, e) h =
    let same : h.range ≡ o = ground (arith, h.present, k.objects p o e) in
    record {
      range = o;
      present = e;
      above = omega (arith, h.above, ap (λ r. r.base_address) same);
      under = omega (arith, h.under, ap (λ r. r.limit_address) same);
      reads = sym (k.reads p a o e) ∙ h.reads;
    }

-- A result: the store keeps its ranges, and `kept` covers what `ps` does outside.
pub record IsCut (s : Store) (ps : List ℕ) (base limit : ℕ) (kept : List ℕ) (s' : Store)
    : Type 0 where
  pub keeps : Keeps s s'
  pub still_valid : IsValid s'
  pub in_store : All (IsPresent s') kept
  pub forth :
      (a : ℕ) (x : Outcome (Bool × ℕ))
      → IsOutside base limit a
      → Covers s ps a x
      → Covers s' kept a x
  pub back :
      (a : ℕ) (x : Outcome (Bool × ℕ))
      → IsOutside base limit a
      → Covers s' kept a x
      → Covers s ps a x

abbrev pub Cuts : Store → List ℕ → ℕ → ℕ → Outcome (List ℕ × Store) → Type 0
Cuts s ps base limit out =
    (kept : List ℕ) × (s' : Store) × (out ≡ done (kept, s')) × IsCut s ps base limit kept s'

pub Keeps-refl : (s : Store) → Keeps s s
Keeps-refl s = record { objects = λ k o e. e; reads = λ k a o e. refl }

pub Keeps-copy : (s : Store) (p b l q : ℕ) (s' : Store) → IsCopy s p b l q s' → Keeps s s'
Keeps-copy s p b l q s' c = record { objects = c.keeps; reads = c.others }
