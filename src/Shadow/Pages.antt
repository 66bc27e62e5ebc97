-- ===== src/Shadow/Pages.antt =====
-- The pages of the shadow, and what is in them (vmill/Program/ShadowMemory.h and ShadowMemory.cpp).
use vmill.Prelude.{
  ℕ, ◌+◌, ◌-◌, ◌%◌, ◌*◌, ◌/◌, ◌^◌, ◌≤◌, ◌<◌, ◌≡◌, refl, ap, sym, ◌∙◌, subst, Bool, true, false,
  ◌==◌, ltb, leb, arith, List, [], ◌∷◌, ◌++◌, ◌⊎◌, inl, inr, All, All-append, dec_lt, Option, some,
  done, word_mod, sub64, ◌&&◌, ◌||◌, Bool-cases,
}
use vmill.Area.{HostMemory, filled}
use vmill.Shadow.{
  ShadowMemory, shadow_page_size, in_pages, is_there, add_page_for_address, forced, at_in_range,
  shadow_address,
}

-- A page of `size` bytes begins at a multiple of it from the base on.
abbrev IsPage : ℕ → ℕ → ℕ → Type 0
IsPage base size p = (i : ℕ) × (p ≡ base + i * size)

-- All pages that are mapped are of one size.
pub record IsPaged (sm : ShadowMemory) : Type 0 where
  pub pages : All (IsPage sm.shadow_base sm.last_shadow_page_size) sm.shadow_pages
  pub none_yet : sm.last_shadow_page_size ≡ 0 → sm.shadow_pages ≡ []

above : (i j size : ℕ) → i < j → i * size + size ≤ j * size
above i j size h = grind arith

-- Two pages that have an address in common are the same.
same_page :
    (base size p q a : ℕ)
    → IsPage base size p
    → IsPage base size q
    → p ≤ a
    → a < p + size
    → q ≤ a
    → a < q + size
    → p ≡ q
same_page base size p q a (i, ip) (j, iq) lo hi lo' hi' = elim (dec_lt i j) [
  | yes less ↦ absurd (omega (arith, above i j size less, ip, iq, hi, lo'))
  | no k ↦ elim (dec_lt j i) [
    | yes more ↦ absurd (omega (arith, above j i size more, ip, iq, lo, hi'))
    | no l ↦ let same : i ≡ j = omega (arith, k, l) in ip ∙ ap (λ n. base + n * size) same ∙ sym iq
  ]
]

self_test : (n : ℕ) → (n == n) ≡ true
self_test n = ground arith

abbrev pub covers : ℕ → ℕ → ℕ → Bool
covers size p a = leb p a && ltb a (p + size)

covers-bounds : (size p a : ℕ) → covers size p a ≡ true → (p ≤ a) × (a < p + size)
covers-bounds size p a h = (ground (arith, h), ground (arith, h))

true_right : (b : Bool) → (b || true) ≡ true
true_right true = refl
true_right false = refl

or_cases : (b c : Bool) → (b || c) ≡ true → (b ≡ true) ⊎ (c ≡ true)
or_cases true c h = inl refl
or_cases false c h = inr h

or_false : (b : Bool) → (b || false) ≡ b
or_false true = refl
or_false false = refl

or_assoc : (b c d : Bool) → (b || c || d) ≡ (b || (c || d))
or_assoc true c d = refl
or_assoc false c d = refl

neither : (b c : Bool) → (b || c) ≡ false → (b ≡ false) × (c ≡ false)
neither true c h = absurd cc
neither false c h = (refl, h)

module _ (base size page at : ℕ) (is : IsPage base size page)
    (there : covers size page at ≡ true) where
  -- A page with an address that no mapped page has shares none with them.
  apart :
      (ps : List ℕ) (a : ℕ)
      → All (IsPage base size) ps
      → in_pages size ps at ≡ false
      → in_pages size ps a ≡ true
      → covers size page a ≡ false
  unfolding in_pages
  apart [] a all no_at has = absurd cc
  apart (p ∷ ps) a (first, all) no_at has =
      let (not_p, no_later) = neither (covers size p at) (in_pages size ps at) no_at in
      elim (or_cases (covers size p a) (in_pages size ps a) has) [
        | inr later ↦ apart ps a all no_later later
        | inl on_p ↦ elim (Bool-cases (covers size page a)) [
          | inr off ↦ off
          | inl on ↦
              let (lo, hi) = covers-bounds size page a on in
              let (lo', hi') = covers-bounds size p a on_p in
              let same = same_page base size page p a is first lo hi lo' hi' in
              let on_at : covers size p at ≡ true =
                subst (λ q. covers size q at ≡ true) same there in
              absurd cc
        ]
      ]

  -- A page that has an address of a mapped page is mapped.
  together :
      (ps : List ℕ) (a : ℕ)
      → All (IsPage base size) ps
      → in_pages size ps at ≡ true
      → covers size page a ≡ true
      → in_pages size ps a ≡ true
  unfolding in_pages
  together [] a all has on = absurd cc
  together (p ∷ ps) a (first, all) has on =
      elim (or_cases (covers size p at) (in_pages size ps at) has) [
        | inr later ↦ rw (together ps a all later on) (true_right (covers size p a))
        | inl on_p ↦
            let (lo, hi) = covers-bounds size page at there in
            let (lo', hi') = covers-bounds size p at on_p in
            let same = same_page base size page p at is first lo hi lo' hi' in
            let first_has : covers size p a ≡ true = subst (λ q. covers size q a ≡ true) same on in
            rw first_has refl
      ]

  in_pages-append :
      (ps : List ℕ) (a : ℕ)
      → in_pages size (ps ++ page ∷ []) a ≡ (in_pages size ps a || covers size page a)
  unfolding in_pages
  in_pages-append [] a = or_false (covers size page a)
  in_pages-append (p ∷ ps) a =
      rw (in_pages-append ps a)
        (sym (or_assoc (covers size p a) (in_pages size ps a) (covers size page a)))

-- The page of `size` bytes that an address of the host at or above shadow_base is in.
abbrev pub page_of : ShadowMemory → ℕ → ℕ → ℕ
page_of sm size at = (at - sm.shadow_base) / size * size + sm.shadow_base

-- The mapped pages are those before and the page of an address; what is in the pages that were
-- mapped before is kept, and a new one is zero.
pub record Reached (sm : ShadowMemory) (mem : HostMemory) (at size : ℕ) (sm' : ShadowMemory)
    (mem' : HostMemory) : Type 0 where
  pub paged : IsPaged sm'
  pub there : (a : ℕ) → is_there sm' a ≡ (is_there sm a || covers size (page_of sm size at) a)
  pub element : (i : ℕ) → (at - sm.shadow_base) % size + i < size → is_there sm' (at + i) ≡ true
  pub kept : (a : ℕ) → is_there sm a ≡ true → mem' a ≡ mem a
  pub zero_first : (a : ℕ) → is_there sm a ≡ false → is_there sm' a ≡ true → mem' a ≡ 0

module _ (mmap : ℕ → ℕ → Option ℕ) (sm : ShadowMemory) (mem : HostMemory) (bits addr size : ℕ) where
  abbrev at : ℕ
  at = shadow_address sm addr

  abbrev asked : ShadowMemory
  asked = record sm { last_shadow_address = at; last_shadow_elem_size_bits = bits }

  module _ (is : IsPaged sm) (some_size : 0 < size) (small : at < word_mod)
      (sized : shadow_page_size asked ≡ done size)
      (same_size : (sm.last_shadow_page_size ≡ 0) ⊎ (sm.last_shadow_page_size ≡ size))
      (maps : (p : ℕ) → mmap p size ≡ some p) where
    abbrev page : ℕ
    page = page_of sm size at

    offset : at - sm.shadow_base ≡ addr / 2 ^ sm.shadow_granularity
    offset = omega arith

    abbrev with_page : ShadowMemory
    with_page = record asked {
      last_shadow_page_size = size;
      shadow_pages = sm.shadow_pages ++ page ∷ [];
    }

    page-covers : covers size page at ≡ true
    page-covers =
        let off = at - sm.shadow_base in
        let lo : off / size * size ≤ off = grind arith in
        let hi : off < off / size * size + size = grind arith in
        let base_first : sm.shadow_base ≤ at = omega arith in ground (arith, lo, hi, base_first)

    page-IsPage : IsPage sm.shadow_base size page
    page-IsPage = ((at - sm.shadow_base) / size, omega arith)

    -- The bytes of the page from the address on.
    rest-covers :
        (i : ℕ) → (at - sm.shadow_base) % size + i < size → covers size page (at + i) ≡ true
    rest-covers i h =
        let off = at - sm.shadow_base in
        let split : off / size * size + off % size ≡ off = grind arith in
        let base_first : sm.shadow_base + off ≡ at = omega arith in
        ground (arith, split, base_first, h)

    sized_pages :
        All (IsPage sm.shadow_base size) sm.shadow_pages
        × ((a : ℕ) → is_there sm a ≡ in_pages size sm.shadow_pages a)
    unfolding in_pages
    sized_pages = elim same_size [
      | inl none_sized ↦
          subst
            (λ ps.
              All (IsPage sm.shadow_base size) ps
              × ((a : ℕ) → in_pages sm.last_shadow_page_size ps a ≡ in_pages size ps a))
            (sym (is.none_yet none_sized)) (tt, λ a. refl)
      | inr same ↦
          subst
            (λ n.
              All (IsPage sm.shadow_base n) sm.shadow_pages
              × ((a : ℕ) → is_there sm a ≡ in_pages n sm.shadow_pages a))
            same (is.pages, λ a. refl)
    ]

    same_size_test : (sm.last_shadow_page_size == 0 || sm.last_shadow_page_size == size) ≡ true
    same_size_test = elim same_size [ inl none_sized ↦ ground arith | inr same ↦ ground arith ]

    add_page_lem :
        is_there sm at ≡ false
        → add_page_for_address mmap asked mem at
          ≡ done (true, with_page, filled page (page + size) 0 mem)
    unfolding add_page_for_address
    add_page_lem off =
        let from_base : sub64 at sm.shadow_base ≡ at - sm.shadow_base = omega (arith, small) in
        rw (self_test at, sized, from_base)
          (rw (same_size_test, page-covers, maps page, self_test page) refl)

    -- Where the page was added or was there, the rest of it is there.
    element-Reached :
        (sm' : ShadowMemory)
        → ((a : ℕ) → is_there sm' a ≡ (is_there sm a || covers size page a))
        → (i : ℕ) → (at - sm.shadow_base) % size + i < size
        → is_there sm' (at + i) ≡ true
    element-Reached sm' there i h =
        there (at + i) ∙ rw (rest-covers i h) (true_right (is_there sm (at + i)))

    with_page-there : (a : ℕ) → is_there with_page a ≡ (is_there sm a || covers size page a)
    with_page-there a =
        let (pages, same) = sized_pages in
        in_pages-append sm.shadow_base size page at page-IsPage page-covers sm.shadow_pages a
        ∙ ap (λ b. b || covers size page a) (sym (same a))

    with_page-Reached :
        is_there sm at ≡ false → Reached sm mem at size with_page (filled page (page + size) 0 mem)
    with_page-Reached off =
        let (pages, same) = sized_pages in
        let base = sm.shadow_base in
        record {
          paged = record {
            pages =
                All-append (IsPage base size) sm.shadow_pages (page ∷ []) pages (page-IsPage, tt);
            none_yet = λ none_sized. absurd (omega (arith, none_sized, some_size));
          };
          there = with_page-there;
          element = element-Reached with_page with_page-there;
          kept = λ a h.
              let outside =
                apart base size page at page-IsPage page-covers sm.shadow_pages a pages
                  (sym (same at) ∙ off) (sym (same a) ∙ h) in
              rw outside refl;
          zero_first = λ a before h.
              let on : covers size page a ≡ true =
                ap (λ b. b || covers size page a) (sym before) ∙ sym (with_page-there a) ∙ h in
              rw on refl;
        }

    there_already :
        is_there sm at ≡ true → (a : ℕ) → is_there sm a ≡ (is_there sm a || covers size page a)
    there_already on a =
        let (pages, same) = sized_pages in
        elim (Bool-cases (covers size page a)) [
          | inr off ↦ rw off (sym (or_false (is_there sm a)))
          | inl covered ↦
              let has : is_there sm a ≡ true =
                same a
                ∙ together sm.shadow_base size page at page-IsPage page-covers sm.shadow_pages a
                    pages (sym (same at) ∙ on) covered in
              rw has refl
        ]

    -- At of an address whose element is below 2 ^ 64, for a size of elements whose pages are like those
    -- before, on a host that maps each page where it is asked to, ends. The pages that are mapped
    -- then are those before and the page that has the first byte of the element, so that an element
    -- is in mapped memory as far as it does not go beyond that page. What is in the pages that were
    -- mapped before is kept, and a new page is zero.
    pub at_in_range-Reached :
        (sm' : ShadowMemory) × (mem' : HostMemory) × (at_in_range mmap sm mem bits addr
          ≡ done (at, sm', mem'))
        × Reached sm mem at size sm' mem'
    unfolding at_in_range forced
    at_in_range-Reached = elim (Bool-cases (is_there sm at)) [
      | inl on ↦ (
        asked,
        mem,
        rw on refl,
        record {
          paged = record { pages = is.pages; none_yet = is.none_yet };
          there = there_already on;
          element = element-Reached asked (there_already on);
          kept = λ a h. refl;
          zero_first = λ a before h. absurd cc;
        },
      )
      | inr off ↦ (
        with_page,
        filled page (page + size) 0 mem,
        rw (off, add_page_lem off) refl,
        with_page-Reached off,
      )
    ]
