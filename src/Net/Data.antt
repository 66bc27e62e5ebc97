-- ===== src/Net/Data.antt =====
-- vmill/Runtime/Linux/Net.cpp: pairs of sockets, sending and receiving bytes, and the options.
use vmill.Prelude.{ℕ, not, Option, none, some, List, ◌==◌, ltb, if◌then◌else◌, ◌⊎◌, inl, inr}
use vmill.Replies.{Errno, efault, einval, of_host, Reply, returns, fails}
use vmill.Transfers.{bytes_of, try_write_memory}
use vmill.Futex.Operators.{Guest, read_word}
use vmill.Calls.{arg_or, read_bytes, try_read_bytes}
use vmill.Files.{can_read_bytes, can_write_bytes, int_of, number_reply, status_reply}
use vmill.Net.{Received, Sockets, linux_sockaddr_size, no_sockaddr, store, with_length}

module _ {M H : Type 0} (g : Guest M) (host : Sockets H) where
  -- A SocketVector has two ints.
  unfoldable pub sys_socket_pair : M → H → Option (List ℕ) → Reply × M × H
  sys_socket_pair m h none = (fails efault, m, h)
  sys_socket_pair m h (some args) =
      let at = arg_or 0 args 3 in
      let made =
        host.socket_pair h (int_of (arg_or 0 args 0)) (int_of (arg_or 0 args 1))
          (int_of (arg_or 0 args 2)) in
      elim (try_read_bytes g m at 8) [
        | none ↦ (fails efault, m, h)
        | some _ ↦ elim (made.0) [
          | inl e ↦ (fails (of_host e), m, made.1)
          | inr pair ↦
              let wrote = try_write_memory g.read g.write g.width (g.can_write m) m at pair in
              if wrote.0 then (returns 0, wrote.1, made.1) else (fails efault, m, made.1)
        ]
      ]

  -- The end of DoSysSendTo.
  abbrev sent_to : M → H → ℕ → ℕ → ℕ → ℕ → Option (List ℕ) → ℕ → Reply × H
  sent_to m h fd buf n flags info addrlen =
      let r = host.send_to h fd (read_bytes g m buf n) flags info addrlen in
      if not (can_read_bytes g m buf n) then (fails efault, h) else (number_reply r.0, r.1)

  unfoldable pub do_sys_send_to : M → H → ℕ → ℕ → ℕ → ℕ → ℕ → ℕ → Reply × H
  do_sys_send_to m h fd buf n flags addr addrlen =
      let unnamed = sent_to m h fd buf n flags none addrlen in
      if ltb linux_sockaddr_size addrlen
      then (fails einval, h)
      else if n == 0
      then (fails einval, h)
      else if addrlen == 0
      then unnamed
      else elim (try_read_bytes g m addr linux_sockaddr_size) [
        | none ↦ (fails efault, h)
        | some info ↦ sent_to m h fd buf n flags (some info) addrlen
      ]

  unfoldable pub sys_send : M → H → Option (List ℕ) → Reply × H
  sys_send m h none = (fails efault, h)
  sys_send m h (some args) =
      do_sys_send_to m h (int_of (arg_or 0 args 0)) (arg_or 0 args 1) (arg_or 0 args 2)
        (int_of (arg_or 0 args 3)) 0 0

  unfoldable pub sys_send_to : M → H → Option (List ℕ) → Reply × H
  sys_send_to m h none = (fails efault, h)
  sys_send_to m h (some args) =
      do_sys_send_to m h (int_of (arg_or 0 args 0)) (arg_or 0 args 1) (arg_or 0 args 2)
        (int_of (arg_or 0 args 3)) (arg_or 0 args 4) (int_of (arg_or 0 args 5))

  -- The length and the address of the sender that DoSysRecvFrom gives to the host.
  abbrev sender_of : M → ℕ → ℕ → Errno ⊎ (ℕ × List ℕ)
  sender_of m addr addrlen_addr =
      let given : Errno ⊎ (ℕ × List ℕ) = elim (read_word g m addrlen_addr) [
        | none ↦ inl efault
        | some addrlen ↦
            let info = try_read_bytes g m addr linux_sockaddr_size in
            if ltb linux_sockaddr_size addrlen
            then inl einval
            else if addrlen == 0
            then inr (0, no_sockaddr)
            else elim info [ none ↦ inl efault | some bytes ↦ inr (addrlen, bytes) ]
      ] in
      if addrlen_addr == 0 then inr (0, no_sockaddr) else given

  -- The end of DoSysRecvFrom: what was received is copied also after an error.
  abbrev delivered : M → ℕ → ℕ → ℕ → ℕ → ℕ → Received → Reply × M
  delivered m buf n addr addrlen_addr orig_addrlen r =
      let m' = store g host m buf r.bytes n in
      let last =
        with_length g host (store g host m' addr r.info orig_addrlen) addrlen_addr r.addrlen
          (number_reply r.answer) in
      if not (can_write_bytes g m buf n)
      then (fails efault, m)
      else if orig_addrlen == 0
      then (number_reply r.answer, m')
      else if not (can_write_bytes g m' addr orig_addrlen)
      then (fails efault, m')
      else last

  unfoldable pub do_sys_recv_from : M → H → ℕ → ℕ → ℕ → ℕ → ℕ → ℕ → Reply × M × H
  do_sys_recv_from m h fd buf n flags addr addrlen_addr =
      let received : Reply × M × H = elim (sender_of m addr addrlen_addr) [
        | inl e ↦ (fails e, m, h)
        | inr (addrlen, info) ↦
            let r = host.recv_from h fd (read_bytes g m buf n) flags info addrlen in
            let d = delivered m buf n addr addrlen_addr addrlen r.0 in (d.0, d.1, r.1)
      ] in
      if n == 0 then (fails einval, m, h) else received

  unfoldable pub sys_recv : M → H → Option (List ℕ) → Reply × M × H
  sys_recv m h none = (fails efault, m, h)
  sys_recv m h (some args) =
      do_sys_recv_from m h (int_of (arg_or 0 args 0)) (arg_or 0 args 1) (arg_or 0 args 2)
        (int_of (arg_or 0 args 3)) 0 0

  unfoldable pub sys_recv_from : M → H → Option (List ℕ) → Reply × M × H
  sys_recv_from m h none = (fails efault, m, h)
  sys_recv_from m h (some args) =
      do_sys_recv_from m h (int_of (arg_or 0 args 0)) (arg_or 0 args 1) (arg_or 0 args 2)
        (int_of (arg_or 0 args 3)) (arg_or 0 args 4) (arg_or 0 args 5)

  unfoldable pub sys_shutdown : H → Option (List ℕ) → Reply × H
  sys_shutdown h none = (fails efault, h)
  sys_shutdown h (some args) =
      let r = host.shutdown h (int_of (arg_or 0 args 0)) (int_of (arg_or 0 args 1)) in
      (status_reply r.0, r.1)

  unfoldable pub sys_set_sock_opt : M → H → Option (List ℕ) → Reply × H
  sys_set_sock_opt m h none = (fails efault, h)
  sys_set_sock_opt m h (some args) =
      let optval = arg_or 0 args 3 in
      let optlen = int_of (arg_or 0 args 4) in
      let r =
        host.set_option h (int_of (arg_or 0 args 0)) (int_of (arg_or 0 args 1))
          (int_of (arg_or 0 args 2)) (read_bytes g m optval optlen) in
      if optlen == 0
      then (fails einval, h)
      else if not (can_read_bytes g m optval optlen)
      then (fails efault, h)
      else (status_reply r.0, r.1)

  -- The end of SysGetSockOpt: in place of the length its address is written.
  abbrev option_stored : M → ℕ → ℕ → List ℕ → ℕ → Reply × M
  option_stored m optval optlen_ptr value optlen =
      let wrote =
        try_write_memory g.read g.write g.width (g.can_write m) m optlen_ptr
          (bytes_of 8 host.optlen_pointer) in
      if not (can_write_bytes g m optval optlen)
      then (fails efault, m)
      else if wrote.0
      then (returns 0, store g host wrote.1 optval value optlen)
      else (fails efault, m)

  unfoldable pub sys_get_sock_opt : M → H → Option (List ℕ) → Reply × M
  sys_get_sock_opt m h none = (fails efault, m)
  sys_get_sock_opt m h (some args) =
      let optval = arg_or 0 args 3 in
      let optlen_ptr = arg_or 0 args 4 in
      elim (read_word g m optlen_ptr) [
        | none ↦ (fails efault, m)
        | some optlen ↦
            let ask =
              host.get_option h (int_of (arg_or 0 args 0)) (int_of (arg_or 0 args 1))
                (int_of (arg_or 0 args 2)) (read_bytes g m optval optlen) in
            let answered : Reply × M = elim ask [
              | inl e ↦ (fails (of_host e), m)
              | inr (value, len) ↦ option_stored m optval optlen_ptr value len
            ] in
            if not (can_read_bytes g m optval optlen)
            then (fails efault, m)
            else if optlen == 0
            then (fails einval, m)
            else answered
      ]
