-- ===== src/Shadow/Tests.antt =====
-- A shadow with a byte for each byte of the program.
use vmill.Prelude.{
  ℕ, ◌*◌, ◌/◌, ◌+◌, ◌<◌, none, ◌^◌, ◌≡◌, refl, ◌⊎◌, inl, Bool, true, false, ◌>>=◌, Option, some,
  update, arith, done, undefined,
}
use vmill.Area.{HostMemory}
use vmill.Shadow.{
  ShadowMemory, new_shadow_memory, shadow_page_size, greatest_common_divisor, least_common_multiple,
  at_in_range, bool_ref, assign, is_there, in_pages, forced, add_page_for_address,
}
use vmill.Shadow.Divisor.{IsLeast, least_common_multiple-IsLeast}
use vmill.Shadow.Pages.{IsPaged, Reached, at_in_range-Reached}
use vmill.Shadow.Flags.{assign-bool_ref}

abbrev maps_there : ℕ → ℕ → Option ℕ
maps_there p size = some p

abbrev bytes_shadow : ShadowMemory
bytes_shadow = new_shadow_memory 0 12 (2 ^ 44)

abbrev zeros : HostMemory
zeros a = 0

bytes_shadow-IsPaged : IsPaged bytes_shadow
unfolding new_shadow_memory
bytes_shadow-IsPaged = record { pages = tt; none_yet = λ h. refl }

page_of_bytes :
    shadow_page_size
      (record bytes_shadow { last_shadow_address = 2 ^ 44 + 5; last_shadow_elem_size_bits = 8 })
    ≡ done 4096
unfolding new_shadow_memory shadow_page_size greatest_common_divisor
page_of_bytes = refl

least_common_multiple-IsLeast_example :
    ((0 < 6)
      × ((g : ℕ) × (greatest_common_divisor 12 6 4 ≡ some g)
          × (least_common_multiple 6 4 ≡ done (6 * 4 / g))
          × IsLeast 6 4 (6 * 4 / g)))
    ⊎ (◌≡◌ {A = ℕ} 6 0
        × ((rounds : ℕ) → greatest_common_divisor rounds 6 4 ≡ none)
        × (least_common_multiple 6 4 ≡ undefined))
least_common_multiple-IsLeast_example =
    least_common_multiple-IsLeast 12 6 4 (omega arith) (omega arith) (omega arith)

at_in_range-Reached_example :
    (sm' : ShadowMemory) × (mem' : HostMemory) × (at_in_range maps_there bytes_shadow zeros 8 5
      ≡ done (2 ^ 44 + 5, sm', mem'))
    × Reached bytes_shadow zeros (2 ^ 44 + 5) 4096 sm' mem'
unfolding new_shadow_memory
at_in_range-Reached_example =
    at_in_range-Reached maps_there bytes_shadow zeros 8 5 4096 bytes_shadow-IsPaged (omega arith)
      (omega arith) page_of_bytes (inl refl) (λ p. refl)

-- An element of 8 bytes at the last byte of a page of the shadow: its last byte is not there.
last_byte_missing :
    (at_in_range maps_there bytes_shadow zeros 64 32767 >>= λ r. done (is_there r.1 (r.0 + 7)))
    ≡ done false
unfolding at_in_range new_shadow_memory shadow_page_size greatest_common_divisor in_pages forced
    add_page_for_address
last_byte_missing = refl

assign-bool_ref_example :
    ((b : Bool)
      → (bool_ref (assign (bool_ref (update zeros 7 6) 7 2) b (update zeros 7 6)).1 7 2).cache ≡ b)
    × ((true ≡ true)
        → (let ref = bool_ref (update zeros 7 6) 7 2 in
            (bool_ref (assign ref false (assign ref false (update zeros 7 6)).1).1 7 2).cache
            ≡ true))
assign-bool_ref_example = assign-bool_ref (update zeros 7 6) 7 2
