-- ===== src/Transfers/Tests.antt =====
-- The round trip through guest memory with a hole, and the test of accesses that miss one.
use vmill.Prelude.{
  ℕ, Bool, ◌||◌, ◌≢◌, if◌then◌else◌, ◌^◌, ltb, ◌≡◌, ◌≤◌, ◌<◌, true, some, List, [], ◌∷◌, update,
  update_self, update_ne, arith,
}
use vmill.Transfers.{can_access_memory, try_read_memory, try_write_memory}
use vmill.Transfers.Accessing.{can_access_memory_first}
use vmill.Transfers.RoundTrip.{steps, Accessible, try_write_memory-try_read_memory}

-- Memory of sixteen addresses of which 8 to 11 are not mapped: they read as 0, and a write there has no
-- effect. Those from 4 to 7 can be read only.
abbrev mapped : ℕ → Bool
mapped a = ltb a 8 || ltb 11 a

abbrev writable : ℕ → Bool
writable a = ltb a 4 || ltb 11 a

abbrev byte_at : (ℕ → ℕ) → ℕ → ℕ
byte_at m a = if mapped a then m a else 0

abbrev put_byte : (ℕ → ℕ) → ℕ → ℕ → ℕ → ℕ
put_byte m a v = if writable a then update m a v else m

put_byte-same : (m : ℕ → ℕ) (a v : ℕ) → writable a ≡ true → v < 256 → byte_at (put_byte m a v) a ≡ v
put_byte-same m a v h small =
    let there : mapped a ≡ true = ground (arith, h) in rw (there, h) (update_self m a v)

put_byte-other :
    (m : ℕ → ℕ) (a v b : ℕ)
    → writable a ≡ true
    → writable b ≡ true
    → b ≢ a
    → byte_at (put_byte m a v) b ≡ byte_at m b
put_byte-other m a v b h k ne =
    let there : mapped b ≡ true = ground (arith, k) in rw (h, there) (update_ne m a v b ne)

-- Three bytes, the last one at the lowest address.
abbrev three_bytes : List ℕ
three_bytes = 1 ∷ 2 ∷ 3 ∷ []

abbrev written : Bool × (ℕ → ℕ)
written = try_write_memory byte_at put_byte 16 writable (λ a. 0) 14 three_bytes

all-Accessible : Accessible writable 16 14 3
all-Accessible k h = ground (arith, h)

try_write_memory-try_read_memory_example :
    (written.0 ≡ true)
    × (try_read_memory byte_at put_byte 16 mapped written.1 14 3 ≡ some three_bytes)
    × ((b : ℕ)
        → b < 16
        → writable b ≡ true
        → 3 ≤ steps 16 14 b
        → byte_at written.1 b ≡ byte_at (λ a. 0) b)
try_write_memory-try_read_memory_example =
    try_write_memory-try_read_memory byte_at put_byte 16 writable put_byte-same put_byte-other
      mapped writable (λ a h. ground (arith, h)) (λ a h. h) (λ a. 0) 14 three_bytes (omega arith)
      (omega arith) (omega arith, (omega arith, (omega arith, tt))) all-Accessible

-- Eight bytes of which the last two are in the next page, which cannot be accessed.
over_the_end : can_access_memory (λ a. ltb a 4096) (2 ^ 32) 4090 8 ≡ true
over_the_end = can_access_memory_first (λ a. ltb a 4096) (2 ^ 32) 4090 8 (omega arith) (omega arith)
