-- ===== src/Net/SocketCalls.antt =====
-- vmill/Runtime/Linux/Net.cpp: SocketCallABI and SysSocketCall, for 32-bit arguments.
use vmill.Prelude.{
  ℕ, zero, suc, ◌+◌, ◌*◌, ◌%◌, Option, none, some, List, [], ◌∷◌, ltb, if◌then◌else◌,
}
use vmill.Replies.{Reply, efault, einval, enosys, fails}
use vmill.Transfers.{word_of}
use vmill.Futex.Operators.{Guest}
use vmill.Calls.{arg_or, read_bytes}
use vmill.Calls.Arguments.{args_tested}
use vmill.Files.{can_read_bytes, int_of}
use vmill.Net.{
  Sockets, sys_socket, sys_bind, sys_connect, sys_listen, sys_accept, sys_accept4,
  sys_get_sock_name, sys_get_peer_name,
}
use vmill.Net.Data.{
  sys_socket_pair, sys_send, sys_recv, sys_send_to, sys_recv_from, sys_shutdown, sys_set_sock_opt,
  sys_get_sock_opt,
}
use vmill.Net.Messages.{Messages, sys_send_msg, sys_recv_msg}

-- The calls that the switch has a case for.
pub data SocketCall : Type 0 where
  socket bind connect listen accept get_sock_name get_peer_name socket_pair send recv send_to :
      SocketCall
  recv_from shutdown set_sock_opt get_sock_opt send_msg recv_msg accept4 : SocketCall

abbrev pub socket_calls : List SocketCall
socket_calls =
    socket ∷ bind ∷ connect ∷ listen ∷ accept ∷ get_sock_name ∷ get_peer_name ∷ socket_pair ∷ send
    ∷ recv ∷ send_to ∷ recv_from ∷ shutdown ∷ set_sock_opt ∷ get_sock_opt ∷ send_msg ∷ recv_msg
    ∷ accept4 ∷ []

-- They are counted from 1.
abbrev pub call_at : List SocketCall → ℕ → Option SocketCall
call_at [] n = none
call_at (c ∷ cs) zero = none
call_at (c ∷ cs) (suc zero) = some c
call_at (c ∷ cs) (suc (suc n)) = call_at cs (suc n)

-- How many arguments the calls want.
abbrev pub num_args : SocketCall → ℕ
num_args socket = 3
num_args bind = 3
num_args connect = 3
num_args listen = 2
num_args accept = 3
num_args get_sock_name = 3
num_args get_peer_name = 3
num_args socket_pair = 4
num_args send = 4
num_args recv = 4
num_args send_to = 6
num_args recv_from = 6
num_args shutdown = 2
num_args set_sock_opt = 5
num_args get_sock_opt = 5
num_args send_msg = 3
num_args recv_msg = 3
num_args accept4 = 4

module _ {M : Type 0} (g : Guest M) where
  -- TryGetArgs of `n` arguments, over the words from `arg_addr` on.
  abbrev pub words_at : M → ℕ → ℕ → List ℕ
  words_at m addr zero = []
  words_at m addr (suc n) = word_of (read_bytes g m addr 4) ∷ words_at m ((addr + 4) % g.width) n

  abbrev pub packed_args : M → ℕ → ℕ → Option (List ℕ)
  packed_args m arg_addr n =
      if can_read_bytes g m arg_addr (args_tested n * 4) then some (words_at m arg_addr n) else none

module _ {M H : Type 0} (g : Guest M) (host : Sockets H) (messages : Messages H) where
  -- A call with its result, memory, the host, and the static `info` of DoSysAccept.
  unfoldable pub run_socket_call :
      SocketCall → M → H → List ℕ → Option (List ℕ) → Reply × M × H × List ℕ
  run_socket_call socket m h info args = let r = sys_socket g host h args in (r.0, m, r.1, info)
  run_socket_call bind m h info args = let r = sys_bind g host m h args in (r.0, m, r.1, info)
  run_socket_call connect m h info args = let r = sys_connect g host m h args in (r.0, m, r.1, info)
  run_socket_call listen m h info args = let r = sys_listen g host h args in (r.0, m, r.1, info)
  run_socket_call accept m h info args = sys_accept g host m h info args
  run_socket_call get_sock_name m h info args =
      let r = sys_get_sock_name g host m h args in (r.0, r.1, h, info)
  run_socket_call get_peer_name m h info args =
      let r = sys_get_peer_name g host m h args in (r.0, r.1, h, info)
  run_socket_call socket_pair m h info args =
      let r = sys_socket_pair g host m h args in (r.0, r.1, r.2, info)
  run_socket_call send m h info args = let r = sys_send g host m h args in (r.0, m, r.1, info)
  run_socket_call recv m h info args = let r = sys_recv g host m h args in (r.0, r.1, r.2, info)
  run_socket_call send_to m h info args = let r = sys_send_to g host m h args in (r.0, m, r.1, info)
  run_socket_call recv_from m h info args =
      let r = sys_recv_from g host m h args in (r.0, r.1, r.2, info)
  run_socket_call shutdown m h info args = let r = sys_shutdown g host h args in (r.0, m, r.1, info)
  run_socket_call set_sock_opt m h info args =
      let r = sys_set_sock_opt g host m h args in (r.0, m, r.1, info)
  run_socket_call get_sock_opt m h info args =
      let r = sys_get_sock_opt g host m h args in (r.0, r.1, h, info)
  run_socket_call send_msg m h info args =
      let r = sys_send_msg g messages m h args in (r.0, m, r.1, info)
  run_socket_call recv_msg m h info args =
      let r = sys_recv_msg g messages m h args in (r.0, r.1, r.2, info)
  run_socket_call accept4 m h info args = sys_accept4 g host m h info args

  -- The switch. The test for a negative number of an int is that for one above 20.
  abbrev pub switched : Option SocketCall → M → H → List ℕ → ℕ → Reply × M × H × List ℕ
  switched none m h info addr = (fails enosys, m, h, info)
  switched (some c) m h info addr = run_socket_call c m h info (packed_args g m addr (num_args c))

  unfoldable pub sys_socket_call : M → H → List ℕ → Option (List ℕ) → Reply × M × H × List ℕ
  sys_socket_call m h info none = (fails efault, m, h, info)
  sys_socket_call m h info (some args) =
      let call = int_of (arg_or 0 args 0) in
      let done = switched (call_at socket_calls call) m h info (int_of (arg_or 0 args 1)) in
      if ltb 20 call then (fails einval, m, h, info) else done
