-- ===== src/Net/Tests.antt =====
-- A listening socket by socketcall, and a message whose buffer is not writable.
use vmill.Prelude.{ℕ, ◌≡◌, refl, ◌^◌, true, some, none, inl, inr, List, [], ◌∷◌, arith, ltb, update}
use vmill.Replies.{returns}
use vmill.Transfers.{accessible_bytes_from, copy_from_memory, copy_to_memory}
use vmill.Futex.Operators.{Guest}
use vmill.Calls.{try_read_bytes}
use vmill.Net.{Received, Sockets, sys_listen}
use vmill.Net.Messages.{
  IoVec, MessageHeader, Messages, import_header, import_vecs, msghdr_bytes, msghdr_of, msghdr_size,
  normalised, sys_recv_msg,
}
use vmill.Net.Delivery.{sys_recv_msg_lost}
use vmill.Net.SocketCalls.{sys_socket_call}
use vmill.Net.Dispatch.{sys_socket_call-Is}

abbrev low_writes : Guest (ℕ → ℕ)
low_writes = record {
  read = λ m a. m a;
  write = update;
  can_read = λ _ _. true;
  can_write = λ _ a. ltb a 100;
  width = 2 ^ 32;
}

abbrev nobody : Received
nobody = record { answer = inl 107; bytes = []; info = []; addrlen = 0 }

-- A host that counts the calls of listen.
abbrev listener : Sockets ℕ
listener = record {
  socket = λ h domain type_of protocol. (inr 3, h);
  bind = λ h fd info addrlen. (none, h);
  connect = λ h fd info addrlen. (some 111, h);
  listen = λ h fd backlog. (none, 1);
  accept = λ h fd info addrlen flags. (nobody, h);
  sock_name = λ h fd info addrlen. nobody;
  peer_name = λ h fd info addrlen. nobody;
  socket_pair = λ h domain type_of protocol. (inl 95, h);
  send_to = λ h fd bs flags info addrlen. (inl 32, h);
  recv_from = λ h fd bs flags info addrlen. (nobody, h);
  shutdown = λ h fd how. (none, h);
  set_option = λ h fd level option bs. (none, h);
  get_option = λ h fd level option bs. inl 92;
  optlen_pointer = 0;
}

abbrev nine : IoVec
nine = record { iov_base = 200; iov_len = 1; buffer = 9 ∷ [] }

abbrev asked_message : MessageHeader
asked_message = record {
  name = none;
  iov = record nine { buffer = 0 ∷ [] } ∷ [];
  control = none;
  flags = 0;
}

abbrev nine_message : MessageHeader
nine_message = record { name = none; iov = nine ∷ []; control = none; flags = 0 }

-- Each message is the byte 9.
abbrev sender : Messages ℕ
sender = record {
  send_message = λ h fd header flags. (inr 0, h);
  receive_message = λ h fd header flags. (inr (1, nine_message), h);
}

-- A header at 0, with one element at 64 for the byte at 200.
abbrev one_buffer : ℕ → ℕ
one_buffer = update (update (update (update (λ _. 0) 8 64) 12 1) 64 200) 68 1

abbrev header_bytes : List ℕ
header_bytes =
    0 ∷ 0 ∷ 0 ∷ 0 ∷ 0 ∷ 0 ∷ 0 ∷ 0 ∷ 64 ∷ 0 ∷ 0 ∷ 0 ∷ 1 ∷ 0 ∷ 0 ∷ 0 ∷ 0 ∷ 0 ∷ 0 ∷ 0 ∷ 0 ∷ 0 ∷ 0 ∷ 0
    ∷ 0 ∷ 0 ∷ 0 ∷ 0 ∷ []

header_there : try_read_bytes low_writes one_buffer 0 msghdr_size ≡ some header_bytes
unfolding accessible_bytes_from copy_from_memory
header_there = refl

header_imported :
    import_header low_writes one_buffer (normalised (msghdr_of header_bytes)) ≡ inr asked_message
unfolding import_header import_vecs accessible_bytes_from copy_from_memory
header_imported = refl

sys_recv_msg_lost_example : sys_recv_msg low_writes sender one_buffer 5 (some (3 ∷ 0 ∷ 0 ∷ [])) ≡ (
  returns 1,
  copy_to_memory
      (λ (m : ℕ → ℕ) a. m a)
      update
      (2 ^ 32)
      one_buffer
      0
      (msghdr_bytes (normalised (msghdr_of header_bytes))),
  5,
)
unfolding accessible_bytes_from
sys_recv_msg_lost_example =
    sys_recv_msg_lost low_writes sender one_buffer 5 5 3 0 0 1 header_bytes asked_message
      nine_message nine [] header_there header_imported refl refl refl (omega arith) refl refl

-- listen of the socket 0, with the words 0 and 0 at 32.
sys_socket_call-Is_example :
    sys_socket_call low_writes listener sender one_buffer 0 [] (some (4 ∷ 32 ∷ []))
    ≡ (returns 0, one_buffer, 1, [])
unfolding sys_listen accessible_bytes_from copy_from_memory
sys_socket_call-Is_example =
    (sys_socket_call-Is low_writes listener sender one_buffer 0 [] 32 (0 ∷ 0 ∷ 0 ∷ 0 ∷ 0 ∷ 0 ∷ [])
      (omega arith) refl (refl, (refl, (refl, (refl, (refl, (refl, tt)))))) 21 (omega arith)
      (omega arith)).3
