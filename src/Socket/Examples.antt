-- ===== src/Socket/Examples.antt =====
-- Inputs for the theorems on packets, and runs of the code on them.
use relay_proxy.Base.{◌≤◌}
use relay_proxy.Base.{◌≡◌, refl}
use relay_proxy.Base.{true}
use relay_proxy.Base.{List, [], ◌∷◌, ◌++◌, arith}
use relay_proxy.Base.{replicate}
use relay_proxy.Base.{wrap_int}
use relay_proxy.Base.{Bytes, codes}
use relay_proxy.Base.{int_key, bytes_key}
use relay_proxy.Base.{ok, throw}
use relay_proxy.Base.{
  socket_exception, server_exception, err_ipc_error, err_socket_recv_close, err_packet_length,
}
use relay_proxy.Socket.{Io, SocketBase, Receiver, ready, again, recv_ok, send_ok}
use relay_proxy.Socket.{
  size_left, read, write, progress, recv, send, int_bytes, read_int, recv_head, recv_body, receive,
  encode, decode,
}
use relay_proxy.Socket.Framing.{receive_all, fresh}
use relay_proxy.Socket.Arrival.{receive_all_total}
use relay_proxy.Socket.Send.{send_all, send_all-receive_all}

abbrev pub after : Bytes
after = 7 ∷ []

abbrev pub packet : Bytes
packet = codes "hi"

-- The whole packet of four bytes of length and two of content.
abbrev pub whole : SocketBase
whole = record { process_buf = 2 ∷ 0 ∷ 0 ∷ 0 ∷ 104 ∷ 105 ∷ []; process_total = 6; processed = 6 }

-- The content comes byte by byte, after a turn at which it is not there.
abbrev pub turns : List (Io × Io)
turns = (ready 9, again) ∷ (ready 9, ready 1) ∷ (ready 9, ready 7) ∷ []

receive_all_test :
    receive_all turns fresh ((encode packet).process_buf ++ 7 ∷ [])
    ≡ ok (recv_ok, record { base = whole; is_head = true }, 7 ∷ [])
unfolding receive_all receive recv_head recv_body recv read size_left progress read_int wrap_int
    encode int_bytes
receive_all_test = refl

short_head_test :
    receive (ready 3) again fresh (1 ∷ 0 ∷ 0 ∷ 0 ∷ []) ≡ throw (socket_exception err_ipc_error)
unfolding receive recv_head read
short_head_test = refl

long_packet_test :
    receive (ready 4) again fresh (253 ∷ 124 ∷ 0 ∷ 0 ∷ [])
    ≡ throw (server_exception err_packet_length)
unfolding receive recv_head read read_int wrap_int
long_packet_test = refl

negative_length_test :
    receive (ready 4) again fresh (255 ∷ 255 ∷ 255 ∷ 255 ∷ [])
    ≡ throw (server_exception err_packet_length)
unfolding receive recv_head read read_int wrap_int
negative_length_test = refl

closed_test : receive (ready 4) again fresh [] ≡ throw (socket_exception err_socket_recv_close)
unfolding receive recv_head read
closed_test = refl

send_all_test :
    send_all (ready 4 ∷ again ∷ ready 5 ∷ []) (encode packet) []
    ≡ ok (send_ok, whole, 2 ∷ 0 ∷ 0 ∷ 0 ∷ 104 ∷ 105 ∷ [])
unfolding send_all send write size_left progress encode int_bytes
send_all_test = refl

abbrev busy_turns : List (Io × Io)
busy_turns = replicate 6 (ready 4, ready 1)

receive_all_total_example :
    (r : Receiver) × (receive_all busy_turns fresh ((encode packet).process_buf ++ [])
      ≡ ok (recv_ok, r, []))
    × (decode r.base ≡ packet)
receive_all_total_example =
    let now : (4 ≤ 4) × (1 ≤ 1) = (omega arith, omega arith) in
    receive_all_total busy_turns packet [] (omega arith) (omega arith)
      (now, (now, (now, (now, (now, (now, tt)))))) (omega arith)

send_all-receive_all_example : (decode whole ≡ packet) × (after ≡ after)
unfolding encode int_bytes
send_all-receive_all_example =
    send_all-receive_all (ready 4 ∷ again ∷ ready 5 ∷ []) turns packet
      (2 ∷ 0 ∷ 0 ∷ 0 ∷ 104 ∷ 105 ∷ []) after whole (record { base = whole; is_head = true }) after
      (omega arith) (omega arith) send_all_test receive_all_test
