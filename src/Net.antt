-- ===== src/Net.antt =====
-- vmill/Runtime/Linux/Net.cpp: the calls on sockets, between guest memory and the host.
pub mod Data
pub mod Messages
pub mod SocketCalls
pub mod Delivery
pub mod Dispatch
mod Tests
use vmill.Prelude.{
  ℕ, zero, suc, ◌+◌, ◌*◌, ◌%◌, ◌^◌, Bool, true, false, not, ◌&&◌, Option, none, some, length, take,
  List, [], ◌∷◌, ◌==◌, ltb, leb, if◌then◌else◌, ◌⊎◌, inl, inr,
}
use vmill.Replies.{Errno, efault, einval, of_host, Reply, returns, fails}
use vmill.Transfers.{bytes_of, copy_to_memory, try_write_memory, word_of}
use vmill.Futex.Operators.{Guest, read_word}
use vmill.Calls.{arg_or, read_bytes, try_read_bytes}
use vmill.Files.{can_read_bytes, can_write_bytes, int_of, number_reply, status_reply}

-- What the host answers with an address: the error or the number, and the buffers after the call.
pub record Received : Type 0 where
  pub answer : ℕ ⊎ ℕ
  pub bytes : List ℕ
  pub info : List ℕ
  pub addrlen : ℕ

-- The host's calls. An address is its bytes, and those that fail give the error's number.
-- `optlen_pointer` is where the host has the variable `optlen` of SysGetSockOpt.
pub record Sockets (H : Type 0) : Type 1 where
  pub socket : H → ℕ → ℕ → ℕ → (ℕ ⊎ ℕ) × H
  pub bind : H → ℕ → Option (List ℕ) → ℕ → Option ℕ × H
  pub connect : H → ℕ → Option (List ℕ) → ℕ → Option ℕ × H
  pub listen : H → ℕ → ℕ → Option ℕ × H
  pub accept : H → ℕ → List ℕ → ℕ → ℕ → Received × H
  pub sock_name : H → ℕ → List ℕ → ℕ → Received
  pub peer_name : H → ℕ → List ℕ → ℕ → Received
  pub socket_pair : H → ℕ → ℕ → ℕ → (ℕ ⊎ List ℕ) × H
  pub send_to : H → ℕ → List ℕ → ℕ → Option (List ℕ) → ℕ → (ℕ ⊎ ℕ) × H
  pub recv_from : H → ℕ → List ℕ → ℕ → List ℕ → ℕ → Received × H
  pub shutdown : H → ℕ → ℕ → Option ℕ × H
  pub set_option : H → ℕ → ℕ → ℕ → List ℕ → Option ℕ × H
  pub get_option : H → ℕ → ℕ → ℕ → List ℕ → ℕ ⊎ (List ℕ × ℕ)
  pub optlen_pointer : ℕ

-- sizeof(struct sockaddr) and sizeof(linux_sockaddr).
abbrev pub sockaddr_size : ℕ
sockaddr_size = 16

abbrev pub linux_sockaddr_size : ℕ
linux_sockaddr_size = 128

-- A linux_sockaddr that is `= {}`.
unfoldable pub zeros : ℕ → List ℕ
zeros zero = []
zeros (suc n) = 0 ∷ zeros n

abbrev pub no_sockaddr : List ℕ
no_sockaddr = zeros linux_sockaddr_size

module _ {M H : Type 0} (g : Guest M) (host : Sockets H) where
  -- CopyToMemory of the first bytes of a buffer.
  abbrev pub store : M → ℕ → List ℕ → ℕ → M
  store m addr bytes n = copy_to_memory g.read g.write g.width m addr (take n bytes)

  -- TryWriteMemory of the length, after which a call gives `r`.
  abbrev pub with_length : M → ℕ → ℕ → Reply → Reply × M
  with_length m addrlen_addr addrlen r =
      let wrote =
        try_write_memory g.read g.write g.width (g.can_write m) m addrlen_addr
          (bytes_of 4 addrlen) in
      if wrote.0 then (r, wrote.1) else (fails efault, m)

  unfoldable pub sys_socket : H → Option (List ℕ) → Reply × H
  sys_socket h none = (fails efault, h)
  sys_socket h (some args) =
      let r =
        host.socket h (int_of (arg_or 0 args 0)) (int_of (arg_or 0 args 1))
          (int_of (arg_or 0 args 2)) in
      (number_reply r.0, r.1)

  -- bind reads the 16 bytes of a sockaddr, however long the address is.
  unfoldable pub sys_bind : M → H → Option (List ℕ) → Reply × H
  sys_bind m h none = (fails efault, h)
  sys_bind m h (some args) =
      let fd = int_of (arg_or 0 args 0) in
      let addr = arg_or 0 args 1 in
      let addrlen = int_of (arg_or 0 args 2) in
      let unnamed = host.bind h fd none addrlen in
      if addr == 0
      then (status_reply unnamed.0, unnamed.1)
      else elim (try_read_bytes g m addr sockaddr_size) [
        | none ↦ (fails efault, h)
        | some info ↦ let r = host.bind h fd (some info) addrlen in (status_reply r.0, r.1)
      ]

  unfoldable pub sys_connect : M → H → Option (List ℕ) → Reply × H
  sys_connect m h none = (fails efault, h)
  sys_connect m h (some args) =
      let fd = int_of (arg_or 0 args 0) in
      let addrlen = int_of (arg_or 0 args 2) in
      let unnamed = host.connect h fd none addrlen in
      if ltb linux_sockaddr_size addrlen
      then (fails einval, h)
      else if addrlen == 0
      then (status_reply unnamed.0, unnamed.1)
      else elim (try_read_bytes g m (arg_or 0 args 1) linux_sockaddr_size) [
        | none ↦ (fails efault, h)
        | some info ↦ let r = host.connect h fd (some info) addrlen in (status_reply r.0, r.1)
      ]

  unfoldable pub sys_listen : H → Option (List ℕ) → Reply × H
  sys_listen h none = (fails efault, h)
  sys_listen h (some args) =
      let r = host.listen h (int_of (arg_or 0 args 0)) (int_of (arg_or 0 args 1)) in
      (status_reply r.0, r.1)

  -- The length at `addrlen_addr`, and a linux_sockaddr at `addr`.
  abbrev pub read_sockaddr : M → ℕ → ℕ → Errno ⊎ (ℕ × List ℕ)
  read_sockaddr m addr addrlen_addr = elim (read_word g m addrlen_addr) [
    | none ↦ inl efault
    | some addrlen ↦
        let info = try_read_bytes g m addr linux_sockaddr_size in
        if ltb linux_sockaddr_size addrlen
        then inl einval
        else elim info [ none ↦ inl efault | some bytes ↦ inr (addrlen, bytes) ]
  ]

  -- The end of DoSysAccept, and what is left in its static `info`.
  abbrev accepted : M → ℕ → ℕ → ℕ → Received × H → Reply × M × H × List ℕ
  accepted m addr addrlen_addr orig_addrlen (r, h) = elim r.answer [
    | inl e ↦ (fails (of_host e), m, h, r.info)
    | inr fd ↦
        let m' = if addr == 0 then m else store m addr r.info orig_addrlen in
        let last = with_length m' addrlen_addr r.addrlen (returns fd) in
        if addrlen_addr == 0 then (returns fd, m', h, r.info) else (last.0, last.1, h, r.info)
  ]

  unfoldable pub do_sys_accept : M → H → List ℕ → ℕ → ℕ → ℕ → ℕ → Reply × M × H × List ℕ
  do_sys_accept m h info fd addr addrlen_addr flags =
      let unnamed = accepted m addr addrlen_addr 0 (host.accept h fd info 0 flags) in
      if addr == 0 then unnamed else elim (read_sockaddr m addr addrlen_addr) [
        | inl e ↦ (fails e, m, h, info)
        | inr (addrlen, bytes) ↦
            accepted m addr addrlen_addr addrlen (host.accept h fd bytes addrlen flags)
      ]

  unfoldable pub sys_accept : M → H → List ℕ → Option (List ℕ) → Reply × M × H × List ℕ
  sys_accept m h info none = (fails efault, m, h, info)
  sys_accept m h info (some args) =
      do_sys_accept m h info (int_of (arg_or 0 args 0)) (arg_or 0 args 1) (arg_or 0 args 2) 0

  unfoldable pub sys_accept4 : M → H → List ℕ → Option (List ℕ) → Reply × M × H × List ℕ
  sys_accept4 m h info none = (fails efault, m, h, info)
  sys_accept4 m h info (some args) =
      do_sys_accept m h info (int_of (arg_or 0 args 0)) (arg_or 0 args 1) (arg_or 0 args 2)
        (int_of (arg_or 0 args 3))

  -- The end of SysGetSockName, which does not copy to a null pointer, and of SysGetPeerName.
  abbrev named : Bool → M → ℕ → ℕ → ℕ → Received → Reply × M
  named skips m addr addrlen_addr orig_addrlen r = elim r.answer [
    | inl e ↦ (fails (of_host e), m)
    | inr _ ↦
        let m' = if skips && addr == 0 then m else store m addr r.info orig_addrlen in
        with_length m' addrlen_addr r.addrlen (returns 0)
  ]

  abbrev get_name : Bool → (H → ℕ → List ℕ → ℕ → Received) → M → H → Option (List ℕ) → Reply × M
  get_name skips ask m h none = (fails efault, m)
  get_name skips ask m h (some args) = elim (read_sockaddr m (arg_or 0 args 1) (arg_or 0 args 2)) [
    | inl e ↦ (fails e, m)
    | inr (addrlen, info) ↦
        named skips m (arg_or 0 args 1) (arg_or 0 args 2) addrlen
          (ask h (int_of (arg_or 0 args 0)) info addrlen)
  ]

  unfoldable pub sys_get_sock_name : M → H → Option (List ℕ) → Reply × M
  sys_get_sock_name m h args = get_name true host.sock_name m h args

  unfoldable pub sys_get_peer_name : M → H → Option (List ℕ) → Reply × M
  sys_get_peer_name m h args = get_name false host.peer_name m h args
