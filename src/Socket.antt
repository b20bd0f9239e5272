-- ===== src/Socket.antt =====
-- Packets over a non-blocking TCP socket: `sys/socket_base.cpp`, `CSocketOpt::read` and `write`
-- (`sys/trpc_socket_opt.cpp`), and the framing by a length that `src/client_socket.cpp` and
-- `api/relay_api.cpp` share. What the kernel does at one system call is an input of the model.
mod Words
pub mod Receive
pub mod Head
pub mod Framing
pub mod Arrival
pub mod Send
mod Examples
use relay_proxy.Base.{ℕ, zero, suc, ◌+◌, ◌-◌, ◌*◌, ◌/◌, ◌%◌, ◌^◌, ◌≤◌, ◌<◌}
use relay_proxy.Base.{◌≡◌, refl, sym, ap, ◌∙◌, ◌≢◌, ◌↔◌, ◌⊎◌, inl, inr}
use relay_proxy.Base.{Bool, true, false, not, ◌&&◌, ◌||◌, Option, none, some}
use relay_proxy.Base.{List, [], ◌∷◌, ◌++◌, map, append_assoc, append-nil, arith}
use relay_proxy.Base.{ltb, leb, ◌==◌, if◌then◌else◌, Bool-cases, Option-cases, is_some}
use relay_proxy.Base.{length, get_elem?, set, get_or, take, drop, replicate, All, all}
use relay_proxy.Base.{length-append, take-append, drop-append, length-take, All-append}
use relay_proxy.Base.{
  ℤ, pos, negsuc, pos_part, neg_part, ◌+ℤ◌, ◌-ℤ◌, ◌*ℤ◌, ◌≤ℤ◌, ◌<ℤ◌, ltb_ℤ, leb_ℤ, eqb_ℤ,
}
use relay_proxy.Base.{
  eqb_ℤ_iff, int_max, int_min, incr, incr_pos, wrap_int, wrap_int-pos, add_int, add_int_exact,
}
use relay_proxy.Base.{Bytes, codes, eqb, bytes_lt, eqb_iff, eqb_refl, ne_of_eqb}
use relay_proxy.Base.{
  Key, int_key, bytes_key, Map, find, count, insert, emplace, modify, map_values,
}
use relay_proxy.Base.{find-insert, find-insert_self, find-emplace, find-modify, find-map_values}
use relay_proxy.Base.{
  socket_exception, server_exception, trpc_exception, err_ipc_error, err_socket_recv_close,
  err_sys_unknown, err_packet_length,
}
use relay_proxy.Base.{Code, Exception, Result, ok, throw, ◌>>=◌, ◌>>◌, Result-cases}

-- What a read or a write meets: `ready n`, the kernel can move up to `n` bytes; `again`, an error
-- that is not terminal; `failed`, a terminal one.
pub data Io : Type 0 where
  ready : ℕ → Io
  again : Io
  failed : Io

-- The return values of `_recv`, `_send` and `_init`.
pub data Ret : Type 0 where
  recv_ok : Ret
  recv_have_more : Ret
  send_ok : Ret
  send_have_more : Ret
  connecting : Ret
  init_ok : Ret

-- `_process_buf` up to the last byte written; behind it are the zeros of `memset`.
pub record SocketBase : Type 0 where
  pub process_buf : Bytes
  pub process_total : ℕ
  pub processed : ℕ

abbrev pub max_packet_len : ℕ
max_packet_len = 32000

-- `_process_total - _processed` as the `size_t` that `read` and `write` take: a negative
-- difference wraps.
unfoldable pub size_left : SocketBase → ℕ
size_left b =
    if leb b.processed b.process_total
    then b.process_total - b.processed
    else 18446744073709551616 - (b.processed - b.process_total)

abbrev pub is_nil : Bytes → Bool
is_nil [] = true
is_nil (c ∷ s) = false

-- `CSocketOpt::read`: what it took from the stream and what stays there, or nothing for -1. A
-- read of no bytes means that the peer has closed.
unfoldable pub read : Io → ℕ → Bytes → Result (Option (Bytes × Bytes))
read again n s = ok none
read failed n s = throw (socket_exception err_ipc_error)
read (ready k) n s =
    let m = if leb k n then k else n in
    if is_nil (take m s)
    then throw (socket_exception err_socket_recv_close)
    else ok (some (take m s, drop m s))

-- `CSocketOpt::write`: the number of bytes that went out, or nothing for -1.
unfoldable pub write : Io → ℕ → Result (Option ℕ)
write again n = ok none
write failed n = throw (socket_exception err_ipc_error)
write (ready k) n = ok (some (if leb k n then k else n))

-- `memcpy` into the buffer at an offset.
abbrev pub put_at : ℕ → Bytes → Bytes → Bytes
put_at i s buf = take i buf ++ s ++ drop (i + length s) buf

-- What is left to do after `_processed += size`.
unfoldable pub progress : Ret → Ret → SocketBase → Result Ret
progress more done b =
    if ltb b.processed b.process_total
    then ok more
    else (if ltb b.process_total b.processed
        then throw (trpc_exception err_sys_unknown)
        else ok done)

unfoldable pub recv : Io → SocketBase → Bytes → Result (Ret × SocketBase × Bytes)
recv io b s = read io (size_left b) s >>= λ r. elim r [
  | none ↦ ok (recv_have_more, b, s)
  | some (got, rest) ↦
      let b' = record b {
        process_buf = put_at b.processed got b.process_buf;
        processed = b.processed + length got;
      } in
      progress recv_have_more recv_ok b' >>= λ ret. ok (ret, b', rest)
]

-- `_send`, with the bytes that the peer was sent so far.
unfoldable pub send : Io → SocketBase → Bytes → Result (Ret × SocketBase × Bytes)
send io b out = write io (size_left b) >>= λ r. elim r [
  | none ↦ ok (send_have_more, b, out)
  | some size ↦
      let b' = record b { processed = b.processed + size } in
      progress send_have_more send_ok b' >>= λ ret.
      ok (ret, b', out ++ take size (drop b.processed b.process_buf))
]

-- An `int` in memory: four bytes, the lowest first.
unfoldable pub int_bytes : ℕ → Bytes
int_bytes n = n % 256 ∷ n / 256 % 256 ∷ n / 65536 % 256 ∷ n / 16777216 % 256 ∷ []

unfoldable pub read_int : Bytes → ℤ
read_int s =
    wrap_int
      (pos (get_or s 0 0 + 256 * get_or s 1 0 + 65536 * get_or s 2 0 + 16777216 * get_or s 3 0))

pub record Receiver : Type 0 where
  pub base : SocketBase
  pub is_head : Bool

-- `_recv_head`: the length must come in one read, and fit the buffer.
unfoldable pub recv_head : Io → Receiver → Bytes → Result (Receiver × Bytes)
recv_head io r s = read io 4 s >>= λ o. elim o [
  | none ↦ throw (socket_exception err_ipc_error)
  | some (got, rest) ↦
      if ltb (length got) 4
      then throw (socket_exception err_ipc_error)
      else (if leb_ℤ (read_int got) (pos 0) || ltb_ℤ (pos (max_packet_len - 4)) (read_int got)
          then throw (server_exception err_packet_length)
          else ok (
            record {
              base = record {
                process_buf = put_at 0 got r.base.process_buf;
                process_total = pos_part (read_int got) + 4;
                processed = 4;
              };
              is_head = true;
            },
            rest,
          ))
]

unfoldable pub recv_body : Io → Receiver → Bytes → Result (Ret × Receiver × Bytes)
recv_body io r s = recv io r.base s >>= λ (ret, b, s'). ok (ret, record r { base = b }, s')

-- `CRelayApi::_recv`, and the `EM_READ` case of `CClientSocket::process`: the head if it is not
-- there yet, and then the rest, in the same call.
unfoldable pub receive : Io → Io → Receiver → Bytes → Result (Ret × Receiver × Bytes)
receive head body r s =
    (if r.is_head then ok (r, s) else recv_head head r s) >>= λ (r', s'). recv_body body r' s'

-- `CRelayApi::_encode` and `_decode`.
unfoldable pub encode : Bytes → SocketBase
encode packet = record {
  process_buf = int_bytes (length packet) ++ packet;
  process_total = length packet + 4;
  processed = 0;
}

unfoldable pub decode : SocketBase → Bytes
decode b = take (pos_part (read_int b.process_buf)) (drop 4 b.process_buf)
