-- ===== src/Files/Tests.antt =====
-- writev of two elements to a host that collects the bytes, and mkdir of an address that cannot be
-- read, after open.
use mathlib.Core.List.{append-nil, append_assoc}
use vmill.Prelude.{
  ℕ, ◌^◌, ◌≡◌, refl, true, ◌==◌, ltb, if◌then◌else◌, none, some, inl, inr, length, List, [], ◌∷◌,
  ◌++◌, arith, update,
}
use vmill.Replies.{fails, of_host, returns}
use vmill.Transfers.{accessible_bytes_from, copy_from_memory, string_from}
use vmill.Futex.Operators.{Guest}
use vmill.Calls.{arg_or}
use vmill.Files.{Host, path_max, check_path, sys_open, sys_writev}
use vmill.Files.Paths.{Names, c_string, sys_make_directory}
use vmill.Files.Stale.{sys_make_directory-sys_open}
use vmill.Files.Gathering.{gathered, sys_writev_lem}

abbrev open_guest : Guest (ℕ → ℕ)
open_guest = record {
  read = λ m a. m a;
  write = update;
  can_read = λ _ _. true;
  can_write = λ _ _. true;
  width = 2 ^ 32;
}

-- One file, to which every write appends.
abbrev collector : Host (List ℕ)
collector = record {
  read = λ h fd size. (inr [], h);
  write = λ h fd bs. (inr (length bs), h ++ bs);
  open_path = λ h name flags mode. (inl 2, h);
  open_at = λ h dirfd name flags mode. (inl 2, h);
  close = λ h fd. (none, h);
  poll = λ h bytes nfds timeout. (inl 22, h);
  max_files = λ h. 1024;
}

-- At 0, two bytes from 100 on; at 8, one byte at 200.
abbrev two_elements : ℕ → ℕ
two_elements =
    update
      (update (update (update (update (update (update (λ _. 0) 0 100) 4 2) 8 200) 12 1) 100 7) 101
        8)
      200 9

both_gathered : gathered open_guest 4 2 two_elements 0 0 ≡ some (7 ∷ 8 ∷ 9 ∷ [])
unfolding gathered accessible_bytes_from copy_from_memory
both_gathered = refl

sys_writev_lem_example :
    sys_writev open_guest collector 4 two_elements (5 ∷ []) (some (1 ∷ 0 ∷ 2 ∷ []))
    ≡ (returns 3, two_elements, 5 ∷ 7 ∷ 8 ∷ 9 ∷ [])
sys_writev_lem_example =
    sys_writev_lem open_guest collector 4 (λ h fd bs. h ++ bs) (λ h fd bs. refl)
      (λ h fd. append-nil h) (λ h fd xs ys. append_assoc h xs ys) two_elements (5 ∷ []) 1 0 2
      (7 ∷ 8 ∷ 9 ∷ []) (omega arith) both_gathered

-- Below 300 memory can be read.
abbrev low_guest : Guest (ℕ → ℕ)
low_guest = record open_guest { can_read = λ m a. ltb a 300 }

-- There is a file whose name has 8 as its second byte.
abbrev one_name : Names (List ℕ)
one_name = record {
  access = λ h name mode. (none, h);
  access_at = λ h dirfd name mode flags. (none, h);
  seek = λ h fd offset whence. (inr offset, h);
  make_directory = λ h name mode. if arg_or 0 name 1 == 8 then (some 17, h) else (none, h);
  make_directory_at = λ h dirfd name mode. (none, h);
  remove_directory = λ h name. (none, h);
  dup = λ h fd. (inl 9, h);
  event_fd = λ h count flags. (inl 22, h);
  working_directory = λ h size. inr (47 ∷ []);
}

abbrev opened_path : ℕ → ℕ
opened_path = (sys_open low_guest collector 4 two_elements [] (λ i. 0) (some (100 ∷ 0 ∷ 0 ∷ []))).2

path_accepted : check_path low_guest two_elements (λ i. 0) 100 ≡ none
unfolding check_path accessible_bytes_from string_from
path_accepted = refl

stale_path :
    (c_string path_max opened_path ≡ 7 ∷ 8 ∷ [])
    × ((sys_make_directory low_guest one_name two_elements
          (sys_open low_guest collector 4 two_elements [] (λ i. 0) (some (100 ∷ 0 ∷ 0 ∷ []))).1
          opened_path
          (some (400 ∷ 511 ∷ []))).0
        ≡ fails (of_host 17))
unfolding string_from accessible_bytes_from
stale_path =
    sys_make_directory-sys_open low_guest one_name collector 4 two_elements [] (λ i. 0) 100 0 0 400
      511 path_accepted refl
