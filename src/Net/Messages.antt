-- ===== src/Net/Messages.antt =====
-- vmill/Runtime/Linux/Net.cpp: IOVec and MessageHeader, sendmsg and recvmsg, for the 32-bit structures of
-- vmill/Runtime/Linux/Run.h, whose fields are uint32_t, so that the tests for negative ones never hold.
use vmill.Prelude.{
  ℕ, zero, suc, ◌+◌, ◌*◌, ◌%◌, not, Option, none, some, length, take, drop, List, [], ◌∷◌, ◌++◌,
  ◌==◌, if◌then◌else◌, ◌⊎◌, inl, inr,
}
use vmill.Replies.{Errno, efault, of_host, Reply, returns, fails}
use vmill.Transfers.{bytes_of, copy_to_memory, try_write_memory, word_of}
use vmill.Futex.Operators.{Guest}
use vmill.Calls.{arg_or, read_bytes, try_read_bytes}
use vmill.Files.{can_read_bytes, can_write_bytes, int_of, number_reply}

-- linux32_msghdr.
pub record MsgHdr : Type 0 where
  pub msg_name : ℕ
  pub msg_namelen : ℕ
  pub msg_iov : ℕ
  pub msg_iovlen : ℕ
  pub msg_control : ℕ
  pub msg_controllen : ℕ
  pub msg_flags : ℕ

abbrev pub msghdr_size : ℕ
msghdr_size = 28

abbrev field_of : List ℕ → ℕ → ℕ
field_of bytes i = word_of (take 4 (drop (4 * i) bytes))

abbrev pub msghdr_of : List ℕ → MsgHdr
msghdr_of bytes = record {
  msg_name = field_of bytes 0;
  msg_namelen = field_of bytes 1;
  msg_iov = field_of bytes 2;
  msg_iovlen = field_of bytes 3;
  msg_control = field_of bytes 4;
  msg_controllen = field_of bytes 5;
  msg_flags = field_of bytes 6;
}

abbrev pub msghdr_bytes : MsgHdr → List ℕ
msghdr_bytes c =
    bytes_of 4 c.msg_name
    ++ bytes_of 4 c.msg_namelen
    ++ bytes_of 4 c.msg_iov
    ++ bytes_of 4 c.msg_iovlen
    ++ bytes_of 4 c.msg_control
    ++ bytes_of 4 c.msg_controllen
    ++ bytes_of 4 c.msg_flags

-- A linux32_iovec of the guest, and the bytes that the host has for it.
pub record IoVec : Type 0 where
  pub iov_base : ℕ
  pub iov_len : ℕ
  pub buffer : List ℕ

-- The msghdr of the host: buffers, which are none where the pointer is null.
pub record MessageHeader : Type 0 where
  pub name : Option (List ℕ)
  pub iov : List IoVec
  pub control : Option (List ℕ)
  pub flags : ℕ

pub record Messages (H : Type 0) : Type 1 where
  pub send_message : H → ℕ → MessageHeader → ℕ → (ℕ ⊎ ℕ) × H
  pub receive_message : H → ℕ → MessageHeader → ℕ → (ℕ ⊎ (ℕ × MessageHeader)) × H

-- The lengths of null pointers are taken for 0.
abbrev pub normalised : MsgHdr → MsgHdr
normalised c = record c {
  msg_namelen = if c.msg_name == 0 then 0 else c.msg_namelen;
  msg_iovlen = if c.msg_iov == 0 then 0 else c.msg_iovlen;
  msg_controllen = if c.msg_control == 0 then 0 else c.msg_controllen;
}

infixl 5 ◌>>?◌
abbrev ◌>>?◌ : {A B : Type 0} → Errno ⊎ A → (A → Errno ⊎ B) → Errno ⊎ B
inl e >>? f = inl e
inr a >>? f = f a

module _ {M : Type 0} (g : Guest M) where
  abbrev import_buffer : M → ℕ → ℕ → Errno ⊎ List ℕ
  import_buffer m addr n =
      if not (can_read_bytes g m addr n) then inl efault else inr (read_bytes g m addr n)

  -- IOVec::Import, of the element at `at`.
  abbrev pub import_vec : M → ℕ → Errno ⊎ IoVec
  import_vec m at =
      let base = word_of (read_bytes g m at 4) in
      let len = if base == 0 then 0 else word_of (read_bytes g m ((at + 4) % g.width) 4) in
      import_buffer m base len >>? λ bytes.
      inr (record { iov_base = base; iov_len = len; buffer = bytes })

  unfoldable pub import_vecs : M → ℕ → ℕ → Errno ⊎ List IoVec
  import_vecs m at zero = inr []
  import_vecs m at (suc n) =
      import_vec m at >>? λ v. import_vecs m ((at + 8) % g.width) n >>? λ vs. inr (v ∷ vs)

  -- MessageHeader::Import, of a header that is normalised.
  abbrev import_name : M → MsgHdr → Errno ⊎ Option (List ℕ)
  import_name m c =
      let named = import_buffer m c.msg_name c.msg_namelen >>? λ bytes. inr (some bytes) in
      if c.msg_namelen == 0 then inr none else named

  abbrev import_iov : M → MsgHdr → Errno ⊎ List IoVec
  import_iov m c =
      let vecs = import_vecs m c.msg_iov c.msg_iovlen in
      if c.msg_iovlen == 0
      then inr []
      else if not (can_read_bytes g m c.msg_iov (c.msg_iovlen * 8))
      then inl efault
      else vecs

  abbrev import_control : M → MsgHdr → Errno ⊎ Option (List ℕ)
  import_control m c =
      let given = import_buffer m c.msg_control c.msg_controllen >>? λ bytes. inr (some bytes) in
      if c.msg_control == 0 then inr none else given

  unfoldable pub import_header : M → MsgHdr → Errno ⊎ MessageHeader
  import_header m c = import_name m c >>? λ name. import_iov m c >>? λ iov.
      import_control m c >>? λ control.
      inr (record { name = name; iov = iov; control = control; flags = 0 })

  -- The parts of Export give an error or none, and what memory is then.
  abbrev export_buffer : M → ℕ → List ℕ → Option Errno × M
  export_buffer m addr bytes =
      if not (can_write_bytes g m addr (length bytes))
      then (some efault, m)
      else (none, copy_to_memory g.read g.write g.width m addr bytes)

  abbrev export_optional : M → ℕ → Option (List ℕ) → Option Errno × M
  export_optional m addr none = (none, m)
  export_optional m addr (some bytes) = export_buffer m addr bytes

  abbrev and_then : Option Errno × M → (M → Option Errno × M) → Option Errno × M
  and_then (some e, m) f = (some e, m)
  and_then (none, m) f = f m

  unfoldable pub export_vecs : M → List IoVec → Option Errno × M
  export_vecs m [] = (none, m)
  export_vecs m (v ∷ vs) =
      let first = if length v.buffer == 0 then (none, m) else export_buffer m v.iov_base v.buffer in
      and_then first (λ m'. export_vecs m' vs)

  -- The elements are written back; the test is of as many bytes as there are elements.
  abbrev vec_bytes : List IoVec → List ℕ
  vec_bytes [] = []
  vec_bytes (v ∷ vs) = bytes_of 4 v.iov_base ++ bytes_of 4 (length v.buffer) ++ vec_bytes vs

  abbrev export_iov : M → ℕ → List IoVec → Option Errno × M
  export_iov m at [] = (none, m)
  export_iov m at (v ∷ vs) = and_then (export_vecs m (v ∷ vs)) λ m'.
      if not (can_write_bytes g m' at (length (v ∷ vs)))
      then (some efault, m')
      else (none, copy_to_memory g.read g.write g.width m' at (vec_bytes (v ∷ vs)))

  unfoldable pub export_header : M → MsgHdr → MessageHeader → Option Errno × M
  export_header m c r = and_then (export_optional m c.msg_name r.name) λ m'.
      and_then (export_iov m' c.msg_iov r.iov) λ m''. export_optional m'' c.msg_control r.control

  abbrev pub length_of : Option (List ℕ) → ℕ
  length_of none = 0
  length_of (some bytes) = length bytes

  -- The header that Export leaves, where it succeeds.
  abbrev pub exported : MsgHdr → MessageHeader → MsgHdr
  exported c r = record c {
    msg_flags = r.flags;
    msg_namelen = length_of r.name;
    msg_iovlen = length r.iov;
    msg_controllen = length_of r.control;
  }

module _ {M H : Type 0} (g : Guest M) (host : Messages H) where
  unfoldable pub sys_send_msg : M → H → Option (List ℕ) → Reply × H
  sys_send_msg m h none = (fails efault, h)
  sys_send_msg m h (some args) = elim (try_read_bytes g m (arg_or 0 args 1) msghdr_size) [
    | none ↦ (fails efault, h)
    | some bytes ↦ elim (import_header g m (normalised (msghdr_of bytes))) [
      | inl e ↦ (fails e, h)
      | inr header ↦
          let r =
            host.send_message h (int_of (arg_or 0 args 0)) header (int_of (arg_or 0 args 2)) in
          (number_reply r.0, r.1)
    ]
  ]

  -- The end of SysRecvMsg, which does not look at the result of Export.
  abbrev pub header_stored : ℕ → MsgHdr → MessageHeader → ℕ → Option Errno × M → Reply × M
  header_stored message c r ret (e, m) =
      let c' : MsgHdr = elim e [ none ↦ exported g c r | some _ ↦ c ] in
      let wrote =
        try_write_memory g.read g.write g.width (g.can_write m) m message (msghdr_bytes c') in
      if wrote.0 then (returns ret, wrote.1) else (fails efault, m)

  abbrev pub received : M → ℕ → MsgHdr → (ℕ ⊎ (ℕ × MessageHeader)) × H → Reply × M × H
  received m message c (inl e, h) = (fails (of_host e), m, h)
  received m message c (inr (ret, r), h) =
      let d = header_stored message c r ret (export_header g m c r) in (d.0, d.1, h)

  abbrev pub imported : M → H → ℕ → ℕ → ℕ → MsgHdr → Errno ⊎ MessageHeader → Reply × M × H
  imported m h fd message flags c (inl e) = (fails e, m, h)
  imported m h fd message flags c (inr header) =
      received m message c (host.receive_message h fd header flags)

  abbrev pub header_read : M → H → ℕ → ℕ → ℕ → Option (List ℕ) → Reply × M × H
  header_read m h fd message flags none = (fails efault, m, h)
  header_read m h fd message flags (some bytes) =
      let c = normalised (msghdr_of bytes) in imported m h fd message flags c (import_header g m c)

  unfoldable pub sys_recv_msg : M → H → Option (List ℕ) → Reply × M × H
  sys_recv_msg m h none = (fails efault, m, h)
  sys_recv_msg m h (some args) =
      let message = arg_or 0 args 1 in
      header_read m h (int_of (arg_or 0 args 0)) message (int_of (arg_or 0 args 2))
        (try_read_bytes g m message msghdr_size)
