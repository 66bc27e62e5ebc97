-- ===== src/Net/Delivery.antt =====
-- What SysRecvMsg (vmill/Runtime/Linux/Net.cpp) does when the buffers of a message cannot be written.
use vmill.Prelude.{
  ℕ, ◌<◌, ◌≡◌, refl, ap, ◌∙◌, true, false, inr, Option, none, some, length, List, [], ◌∷◌, ◌==◌,
  arith,
}
use vmill.Replies.{Reply, Errno, efault, returns}
use vmill.Transfers.{copy_to_memory}
use vmill.Futex.Operators.{Guest}
use vmill.Calls.{try_read_bytes}
use vmill.Files.{can_write_bytes, int_of}
use vmill.Net.Messages.{
  Messages, MessageHeader, MsgHdr, IoVec, msghdr_of, msghdr_bytes, msghdr_size, normalised,
  import_header, export_header, export_vecs, sys_recv_msg, header_stored, received, imported,
  header_read,
}

module _ {M H : Type 0} (g : Guest M) (host : Messages H) where
  -- The first buffer that cannot be written ends Export.
  export_fails :
      (m : M) (c : MsgHdr) (r : MessageHeader) (v : IoVec) (vs : List IoVec)
      → r.name ≡ none
      → r.iov ≡ v ∷ vs
      → 0 < length v.buffer
      → can_write_bytes g m v.iov_base (length v.buffer) ≡ false
      → export_header g m c r ≡ (some efault, m)
  unfolding export_header export_vecs
  export_fails m c r v vs no_name first some_bytes cannot =
      let not_empty : (length v.buffer == 0) ≡ false = ground (arith, some_bytes) in
      rw (no_name, first, not_empty, cannot) refl

  header_stored_lem :
      (m : M) (message ret : ℕ) (c : MsgHdr) (r : MessageHeader)
      → can_write_bytes g m message msghdr_size ≡ true
      → header_stored g host message c r ret (some efault, m)
        ≡ (returns ret, copy_to_memory g.read g.write g.width m message (msghdr_bytes c))
  header_stored_lem m message ret c r can = rw can refl

  -- When the host has received a message without a name, and the first of its buffers cannot be written
  -- back, but its header can, recvmsg returns the number that the host gave, and memory has of what was
  -- received nothing, only the header again.
  pub sys_recv_msg_lost :
      (m : M) (h h' : H) (fd message flags ret : ℕ) (bytes : List ℕ) (header r : MessageHeader)
      (v : IoVec) (vs : List IoVec)
      → try_read_bytes g m message msghdr_size ≡ some bytes
      → import_header g m (normalised (msghdr_of bytes)) ≡ inr header
      → host.receive_message h (int_of fd) header (int_of flags) ≡ (inr (ret, r), h')
      → r.name ≡ none
      → r.iov ≡ v ∷ vs
      → 0 < length v.buffer
      → can_write_bytes g m v.iov_base (length v.buffer) ≡ false
      → can_write_bytes g m message msghdr_size ≡ true
      → sys_recv_msg g host m h (some (fd ∷ message ∷ flags ∷ [])) ≡ (
        returns ret,
        copy_to_memory g.read g.write g.width m message
            (msghdr_bytes (normalised (msghdr_of bytes))),
        h',
      )
  unfolding sys_recv_msg
  sys_recv_msg_lost m h h' fd message flags ret bytes header r v vs there made got no_name first
        some_bytes cannot can =
      let c = normalised (msghdr_of bytes) in
      let failed = export_fails m c r v vs no_name first some_bytes cannot in
      ap (header_read g host m h (int_of fd) message (int_of flags)) there
      ∙ ap (imported g host m h (int_of fd) message (int_of flags) c) made
      ∙ ap (received g host m message c) got
      ∙ ap
          (λ (o : Option Errno × M).
            let d = header_stored g host message c r ret o in (d.0, d.1, h'))
          failed
      ∙ ap (λ (d : Reply × M). (d.0, d.1, h')) (header_stored_lem m message ret c r can)
