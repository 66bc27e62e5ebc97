-- ===== src/Net/Dispatch.antt =====
-- SysSocketCall (vmill/Runtime/Linux/Net.cpp) and the calls that it stands for.
use vmill.Prelude.{
  ℕ, ◌+◌, ◌*◌, ◌%◌, ◌<◌, ◌≤◌, ◌^◌, ◌≡◌, refl, ap, Bool-cases, ◌∙◌, true, false, Option, none, some,
  List, [], ◌∷◌, length, take, zero, suc, ltb, if◌then◌else◌, arith, inl, inr,
}
use vmill.Replies.{Reply, Errno, efault, einval, enosys, fails}
use vmill.Transfers.{word_of}
use vmill.Futex.Operators.{Guest}
use vmill.Calls.{read_bytes}
use vmill.Calls.Arguments.{args_tested}
use vmill.Files.{can_read_bytes, int_of}
use vmill.Net.{
  Sockets, sys_socket, sys_bind, sys_connect, sys_listen, sys_accept, sys_accept4,
  sys_get_sock_name, sys_get_peer_name,
}
use vmill.Net.Data.{
  sys_socket_pair, sys_send, sys_recv, sys_send_to, sys_recv_from, sys_shutdown, sys_set_sock_opt,
  sys_get_sock_opt,
}
use vmill.Net.Messages.{Messages, sys_send_msg, sys_recv_msg}
use vmill.Net.SocketCalls.{
  SocketCall, num_args, packed_args, words_at, run_socket_call, sys_socket_call, call_at,
  socket_calls, switched, socket, bind, connect, listen, accept, get_sock_name, get_peer_name,
  socket_pair, send, recv, send_to, recv_from, shutdown, set_sock_opt, get_sock_opt, send_msg,
  recv_msg, accept4,
}

two_tested : (c : SocketCall) → args_tested (num_args c) ≡ 2
two_tested c = ground arith

module _ {M H : Type 0} (g : Guest M) (host : Sockets H) (messages : Messages H) where
  run_without_args :
      (c : SocketCall) (m : M) (h : H) (info : List ℕ)
      → run_socket_call g host messages c m h info none ≡ (fails efault, m, h, info)
  unfolding run_socket_call sys_socket sys_bind sys_connect sys_listen sys_accept sys_accept4
      sys_get_sock_name sys_get_peer_name sys_socket_pair sys_send sys_recv sys_send_to
      sys_recv_from sys_shutdown sys_set_sock_opt sys_get_sock_opt sys_send_msg sys_recv_msg
  run_without_args c m h info = ground arith

  -- What a call does with its words, to memory, the host, and the static `info` of DoSysAccept.
  abbrev pub Handler : Type 0
  Handler = M → H → List ℕ → Option (List ℕ) → Reply × M × H × List ℕ

  abbrev pub on_host : (H → Option (List ℕ) → Reply × H) → Handler
  on_host f m h info args = let r = f h args in (r.0, m, r.1, info)

  abbrev pub from_memory : (M → H → Option (List ℕ) → Reply × H) → Handler
  from_memory f m h info args = let r = f m h args in (r.0, m, r.1, info)

  abbrev pub to_memory : (M → H → Option (List ℕ) → Reply × M) → Handler
  to_memory f m h info args = let r = f m h args in (r.0, r.1, h, info)

  abbrev pub with_both : (M → H → Option (List ℕ) → Reply × M × H) → Handler
  with_both f m h info args = let r = f m h args in (r.0, r.1, r.2, info)

  -- The words at an address, each of 4 bytes, where addresses wrap around.
  abbrev pub Holds : M → ℕ → List ℕ → Type 0
  Holds m addr [] = Unit {0}
  Holds m addr (w ∷ ws) = (word_of (read_bytes g m addr 4) ≡ w) × Holds m ((addr + 4) % g.width) ws

  words_at-Holds :
      (n : ℕ) (m : M) (addr : ℕ) (ws : List ℕ)
      → n ≤ length ws
      → Holds m addr ws
      → words_at g m addr n ≡ take n ws
  words_at-Holds zero m addr ws fits h = refl
  words_at-Holds (suc n) m addr [] fits h = absurd (omega (arith, fits))
  words_at-Holds (suc n) m addr (w ∷ ws) fits (first, rest) =
      rw (first, words_at-Holds n m ((addr + 4) % g.width) ws (omega (arith, fits)) rest) refl

  module _ (m : M) (h : H) (info : List ℕ) (addr : ℕ) (ws : List ℕ) where
    -- Call `n` of socketcall is the handler called with the first `count` of some words; when the first
    -- two words at the address cannot be read, it gives EFAULT and changes nothing.
    abbrev pub Is : ℕ → ℕ → Handler → Type 0
    Is n count handler = sys_socket_call g host messages m h info (some (n ∷ addr ∷ [])) ≡ (
        if can_read_bytes g m addr 8
        then handler m h info (some (take count ws))
        else (fails efault, m, h, info))

    -- Call `n` gives an error and changes nothing.
    abbrev pub Fails : ℕ → Errno → Type 0
    Fails n e =
        sys_socket_call g host messages m h info (some (n ∷ addr ∷ [])) ≡ (fails e, m, h, info)

    module _ (small : addr < 2 ^ 32) (six : length ws ≡ 6) (holds : Holds m addr ws) where
      packed :
          (c : SocketCall)
          → packed_args g m addr (num_args c)
            ≡ (if can_read_bytes g m addr 8 then some (take (num_args c) ws) else none)
      packed c =
          let most : num_args c ≤ length ws = ground (arith, six) in
          let words = words_at-Holds (num_args c) m addr ws most holds in
          ap
            (λ n.
              if can_read_bytes g m addr (n * 4)
              then some (words_at g m addr (num_args c))
              else none)
            (two_tested c)
          ∙ ap (λ vs. if can_read_bytes g m addr 8 then some vs else none) words

      ran :
          (c : SocketCall)
          → switched g host messages (some c) m h info addr ≡ (
              if can_read_bytes g m addr 8
              then run_socket_call g host messages c m h info (some (take (num_args c) ws))
              else (fails efault, m, h, info))
      ran c = elim (Bool-cases (can_read_bytes g m addr 8)) [
        | inl can ↦
            let words : packed_args g m addr (num_args c) ≡ some (take (num_args c) ws) =
              packed c ∙ rw can refl in
            rw can (ap (run_socket_call g host messages c m h info) words)
        | inr cannot ↦
            let nothing : packed_args g m addr (num_args c) ≡ none = packed c ∙ rw cannot refl in
            rw cannot (
              ap (run_socket_call g host messages c m h info) nothing ∙ run_without_args c m h info)
      ]

      run_at :
          (n : ℕ) (c : SocketCall)
          → call_at socket_calls n ≡ some c
          → n ≤ 20
          → Is n (num_args c) (run_socket_call g host messages c)
      unfolding sys_socket_call
      run_at n c listed le =
          let number : int_of n ≡ n = omega (arith, le) in
          let address : int_of addr ≡ addr = omega (arith, small) in
          let fine : ltb 20 n ≡ false = ground (arith, le) in
          rw (number, address, fine, listed) (ran c)

      -- Let there be six words at an address of 32 bits. By the number of the call, socketcall for 32-bit
      -- arguments is the call of that name, with as many of the words as the call has arguments, if
      -- the first two can be read, and else gives EFAULT and changes nothing; the numbers 0, 19 and 20
      -- give ENOSYS, and those above give EINVAL, and change nothing.
      pub sys_socket_call-Is :
          (above : ℕ)
          → 20 < above
          → above < 2 ^ 32
          → Is 1 3 (on_host (sys_socket g host))
            × Is 2 3 (from_memory (sys_bind g host))
            × Is 3 3 (from_memory (sys_connect g host))
            × Is 4 2 (on_host (sys_listen g host))
            × Is 5 3 (sys_accept g host)
            × Is 6 3 (to_memory (sys_get_sock_name g host))
            × Is 7 3 (to_memory (sys_get_peer_name g host))
            × Is 8 4 (with_both (sys_socket_pair g host))
            × Is 9 4 (from_memory (sys_send g host))
            × Is 10 4 (with_both (sys_recv g host))
            × Is 11 6 (from_memory (sys_send_to g host))
            × Is 12 6 (with_both (sys_recv_from g host))
            × Is 13 2 (on_host (sys_shutdown g host))
            × Is 14 5 (from_memory (sys_set_sock_opt g host))
            × Is 15 5 (to_memory (sys_get_sock_opt g host))
            × Is 16 3 (from_memory (sys_send_msg g messages))
            × Is 17 3 (with_both (sys_recv_msg g messages))
            × Is 18 4 (sys_accept4 g host)
            × Fails 0 enosys
            × Fails 19 enosys
            × Fails 20 enosys
            × Fails above einval
      unfolding run_socket_call sys_socket_call
      sys_socket_call-Is above big fits =
          let number : int_of above ≡ above = omega (arith, fits) in
          let refused : ltb 20 above ≡ true = ground (arith, big) in
          (
            run_at 1 socket refl (omega arith),
            run_at 2 bind refl (omega arith),
            run_at 3 connect refl (omega arith),
            run_at 4 listen refl (omega arith),
            run_at 5 accept refl (omega arith),
            run_at 6 get_sock_name refl (omega arith),
            run_at 7 get_peer_name refl (omega arith),
            run_at 8 socket_pair refl (omega arith),
            run_at 9 send refl (omega arith),
            run_at 10 recv refl (omega arith),
            run_at 11 send_to refl (omega arith),
            run_at 12 recv_from refl (omega arith),
            run_at 13 shutdown refl (omega arith),
            run_at 14 set_sock_opt refl (omega arith),
            run_at 15 get_sock_opt refl (omega arith),
            run_at 16 send_msg refl (omega arith),
            run_at 17 recv_msg refl (omega arith),
            run_at 18 accept4 refl (omega arith),
            refl,
            refl,
            refl,
            rw (number, refused) refl,
          )
