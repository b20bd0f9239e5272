-- ===== src/Calls.antt =====
-- `api/api_base.cpp` with its two subclasses, `api/relay_api.cpp` and `api/middle_api.cpp`: the state
-- machine of one connection to a server, from the connect and the login to the answer. The kernel's
-- answers are an argument of each step, what the server has sent is a stream, and what it was sent is
-- a list of bytes. An exception ends a step; the caller then closes the connection by `set_free`.
mod Phases
mod Cycle
mod Completion
mod Kept
mod Login
mod Session
pub mod Numbers
pub mod First
mod Examples
use relay_proxy.Base.{
  ℕ, suc, ◌+◌, ◌-◌, ◌%◌, ◌^◌, ◌++◌, ℤ, Bytes, Bool, true, false, not, ◌&&◌, ◌||◌, if◌then◌else◌,
  leb, ltb, ◌==◌, Option, none, some, List, [], ◌∷◌, length, take, drop, replicate, get_or, is_some,
  Result, ok, throw, ◌>>=◌, check, Exception, server_exception, trpc_exception, socket_exception,
  err_packet_error, err_sys_unknown, err_packet_fmt, err_packet_length, err_ipc_error,
  err_server_error, err_socket_terminal, wrap_int, pos, pos_part, leb_ℤ, ltb_ℤ, null_pointer,
}
use relay_proxy.Socket as Socket
use relay_proxy.Socket.{
  Io, Ret, SocketBase, Receiver, recv_ok, recv_have_more, send_ok, send_have_more, connecting,
  init_ok, read, recv, send, receive, put_at, max_packet_len,
}
use relay_proxy.Package as Package
use relay_proxy.Package.{Package, set_service_name, get_int32, stx}

-- `EM_API_STATUS`.
pub data ApiStatus : Type 0 where
  free connect send_request read_answer time_out closed over initing read_done ready : ApiStatus

-- `EM_LOGIN_STATUS`.
pub data LoginStatus : Type 0 where
  no_connect connecting_now sending receiving login_ok : LoginStatus

pub data Protocol : Type 0 where
  relay middle : Protocol

-- `CApiBase` with the fields of both subclasses. `_fd` is open or `INVALID_SOCKET`; the head mark
-- stands with the buffer.
pub record Connection : Type 0 where
  pub protocol : Protocol
  pub status : ApiStatus
  pub is_init : Bool
  pub is_used : Bool
  pub req_packet : Option Bytes
  pub other_info : Option Bytes
  pub client_seq_no : ℕ
  pub receiver : Receiver
  pub is_open : Bool
  pub is_connecting : Bool
  pub login_status : LoginStatus
  pub seq_no : ℕ
  pub user : Bytes
  pub passwd : Bytes

-- What the kernel answers in one step: `connect_ok` to `socket` and `connect`, `connected_ok` to the
-- check of the connect, `head` and `body` to the two reads, `write` to the write. `reserve` is what
-- the stack holds where `Encode` writes nothing.
pub record Kernel : Type 0 where
  pub connect_ok : Bool
  pub connected_ok : Bool
  pub head : Io
  pub body : Io
  pub write : Io
  pub reserve : Bytes

-- The connection, the stream that comes in, and the bytes that went out.
pub record State : Type 0 where
  pub api : Connection
  pub stream : Bytes
  pub sent : Bytes

abbrev pub set_api : Connection → State → State
set_api a s = record s { api = a }

abbrev pub set_base : SocketBase → Connection → Connection
set_base b a = record a { receiver = record a.receiver { base = b } }

-- `_processed = 0; _process_total = 0`, without a change of the buffer.
abbrev pub rewind : SocketBase → SocketBase
rewind b = record b { process_total = 0; processed = 0 }

abbrev pub no_bytes : SocketBase
no_bytes = record { process_buf = []; process_total = 0; processed = 0 }

unfoldable pub send_step : Kernel → State → Result (Ret × State)
send_step k s = send k.write s.api.receiver.base s.sent >>= λ (ret, b, out).
    ok (ret, record s { api = set_base b s.api; sent = out })

-- `CMiddleApi::_recv_head`: the start byte and the whole length, in one read.
unfoldable pub middle_head : Io → Receiver → Bytes → Result (Receiver × Bytes)
middle_head io r s = read io 5 s >>= λ o. elim o [
  | none ↦ throw (socket_exception err_ipc_error)
  | some (got, rest) ↦
      let total = wrap_int (pos (get_int32 (drop 1 got))) in
      if ltb (length got) 5
      then throw (socket_exception err_ipc_error)
      else (if not (get_or got 0 0 == stx)
          then throw (server_exception err_packet_fmt)
          else (if leb_ℤ total (pos 0) || ltb_ℤ (pos max_packet_len) total
              then throw (server_exception err_packet_length)
              else ok (
                record {
                  base = record {
                    process_buf = put_at 0 got r.base.process_buf;
                    process_total = pos_part total;
                    processed = 5;
                  };
                  is_head = true;
                },
                rest,
              )))
]

abbrev is_recv_ok : Ret → Bool
is_recv_ok recv_ok = true
is_recv_ok r = false

-- `CMiddleApi::_recv`: the mark of the head goes when the packet is complete.
unfoldable pub middle_receive : Io → Io → Receiver → Bytes → Result (Ret × Receiver × Bytes)
middle_receive head body r s =
    (if r.is_head then ok (r, s) else middle_head head r s) >>= λ (r', s').
    recv body r'.base s' >>= λ (ret, b, s'').
    ok (ret, record { base = b; is_head = r'.is_head && not (is_recv_ok ret) }, s'')

-- The virtual `_recv`.
unfoldable pub receive_by : Protocol → Io → Io → Receiver → Bytes → Result (Ret × Receiver × Bytes)
receive_by relay = receive
receive_by middle = middle_receive

unfoldable pub recv_step : Kernel → State → Result (Ret × State)
recv_step k s =
    receive_by s.api.protocol k.head k.body s.api.receiver s.stream >>= λ (ret, r, rest).
    ok (ret, record s { api = record s.api { receiver = r }; stream = rest })

-- The encoded package goes into the buffer; `_seq_no++` wraps as an `int` of 32 bits.
unfoldable pub put_package : Option (Package × Bytes) → Connection → Result Connection
put_package none a = throw (server_exception err_packet_error)
put_package (some (p, buf)) a = ok (record a {
  seq_no = (a.seq_no + 1) % 2 ^ 32;
  receiver = record a.receiver {
    base = record { process_buf = buf; process_total = p.len; processed = 0 };
  };
})

-- A package of `CMiddleApi`.
unfoldable pub encode_package :
    Bytes → (msg_type : ℕ) → (service content : Bytes) → Connection → Result Connection
encode_package reserve msg_type service content a =
    let p = set_service_name service (record {
      len = 0;
      version = 1000000;
      seq_no = a.seq_no;
      msg_type = msg_type;
      service_name = [];
      result = 0;
      data_len = length content;
      content = content;
    }) in
    put_package (Package.encode reserve p max_packet_len) a

-- A C string in a field of `n` bytes, the last one kept for the end.
unfoldable pub field : ℕ → Bytes → Bytes
field n s = take (n - 1) (s ++ replicate n 0) ++ 0 ∷ []

unfoldable pub encode_login_packet : Bytes → Connection → Result Connection
encode_login_packet reserve a = encode_package reserve 1 [] (field 32 a.user ++ field 32 a.passwd) a

-- The checks of an answer of the middle server: its package, its type, its result.
unfoldable pub answer_of : (msg_type : ℕ) → SocketBase → Result Package
answer_of msg_type b = elim (Package.decode (take b.process_total b.process_buf)) [
  | none ↦ throw (server_exception err_packet_error)
  | some p ↦
      if not (p.msg_type == msg_type)
      then throw (server_exception err_packet_error)
      else (if not (p.result == 0) then throw (server_exception err_server_error) else ok p)
]

unfoldable pub decode_login_packet : Connection → Result Connection
decode_login_packet a =
    answer_of 2 a.receiver.base >>= λ p. ok (record a { login_status = login_ok })

-- `CRelayApi::_init`.
unfoldable pub relay_init : Kernel → State → Result (Ret × State)
relay_init k s =
    if not s.api.is_connecting && not s.api.is_open
    then check k.connect_ok (socket_exception err_socket_terminal) (
        ok (
          connecting,
          set_api (record s.api { is_open = true; status = initing; is_connecting = true }) s,
        ))
    else check k.connected_ok (socket_exception err_socket_terminal)
        (ok (init_ok, set_api (record s.api { is_connecting = false }) s))

-- Sending the login. The next step waits for the answer.
unfoldable pub login_send : Kernel → State → Result (Ret × State)
login_send k s = send_step k s >>= λ (ret, t). elim ret [
  | send_ok ↦ ok (
    send_ok,
    set_api (record (set_base (rewind t.api.receiver.base) t.api) { login_status = receiving }) t,
  )
  | other ↦ ok (other, t)
]

unfoldable pub login_receive : Kernel → State → Result (Ret × State)
login_receive k s = recv_step k s >>= λ (ret, t). elim ret [
  | recv_ok ↦ decode_login_packet t.api >>= λ a. ok (init_ok, set_api a t)
  | other ↦ ok (other, t)
]

-- `CMiddleApi::_init`. The check of the connect goes on to the first write of the login.
unfoldable pub middle_init_at : LoginStatus → Kernel → State → Result (Ret × State)
middle_init_at no_connect k s = check (not s.api.is_open) Exception.assertion (
    check k.connect_ok (socket_exception err_socket_terminal) (
      ok (
        connecting,
        set_api (record s.api { is_open = true; status = initing; login_status = connecting_now })
            s,
      )))
middle_init_at connecting_now k s = check k.connected_ok (socket_exception err_socket_terminal) (
    encode_login_packet k.reserve s.api >>= λ a.
    login_send k (set_api (record a { login_status = sending }) s))
middle_init_at sending k s = login_send k s
middle_init_at receiving k s = login_receive k s
middle_init_at login_ok k s = throw (server_exception err_sys_unknown)

unfoldable pub init_by : Protocol → Kernel → State → Result (Ret × State)
init_by relay k s = relay_init k s
init_by middle k s = middle_init_at s.api.login_status k s

-- `CApiBase::init`.
unfoldable pub init : Kernel → State → Result (Ret × State)
init k s =
    if s.api.is_init
    then ok (init_ok, s)
    else (init_by s.api.protocol k s >>= λ (ret, t). elim ret [
      | init_ok ↦ ok (init_ok, set_api (record t.api { is_init = true }) t)
      | other ↦ ok (other, t)
    ])

abbrev pub follow : Option Bytes → Result Bytes
follow none = throw null_pointer
follow (some b) = ok b

-- The virtual `_encode`: the packet into the buffer. A packet that is not there is a null pointer.
unfoldable pub encode_by : Protocol → Bytes → Connection → Result Connection
encode_by relay reserve a = elim a.req_packet [
  | none ↦ throw Exception.assertion
  | some packet ↦ ok (set_base (Socket.encode packet) a)
]
encode_by middle reserve a = follow a.other_info >>= λ service.
    follow a.req_packet >>= λ packet. encode_package reserve 3 service packet a

unfoldable pub process_init : Kernel → State → Result (Ret × State)
process_init k s = init k s >>= λ (ret, t). elim ret [
  | init_ok ↦ encode_by t.api.protocol k.reserve t.api >>= λ a.
      ok (init_ok, set_api (record a { status = send_request }) t)
  | other ↦ ok (other, t)
]

unfoldable pub process_send : Kernel → State → Result (Ret × State)
process_send k s = send_step k s >>= λ (ret, t). elim ret [
  | send_ok ↦ ok (send_ok, set_api (record (set_base no_bytes t.api) { status = read_answer }) t)
  | other ↦ ok (other, t)
]

unfoldable pub process_read : Kernel → State → Result (Ret × State)
process_read k s = recv_step k s >>= λ (ret, t). elim ret [
  | recv_ok ↦ ok (recv_ok, set_api (record t.api { status = read_done }) t)
  | other ↦ ok (other, t)
]

-- `process`: one step of the machine.
unfoldable pub process_at : ApiStatus → Kernel → State → Result (Ret × State)
process_at ready k s = process_init k s
process_at free k s = process_init k s
process_at initing k s = process_init k s
process_at send_request k s = process_send k s
process_at read_answer k s = process_read k s
process_at connect k s = throw (trpc_exception err_sys_unknown)
process_at time_out k s = throw (trpc_exception err_sys_unknown)
process_at closed k s = throw (trpc_exception err_sys_unknown)
process_at over k s = throw (trpc_exception err_sys_unknown)
process_at read_done k s = throw (trpc_exception err_sys_unknown)

unfoldable pub process : Kernel → State → Result (Ret × State)
unfolding process_at
process k s = process_at s.api.status k s

abbrev pub is_idle : ApiStatus → Bool
is_idle free = true
is_idle over = true
is_idle other = false

-- `encode` keeps the packet for the time after the login.
unfoldable pub encode : (packet service : Bytes) → Connection → Result Connection
encode packet service a =
    check (is_idle a.status && not (is_some a.req_packet) && not (is_some a.other_info))
      Exception.assertion
      (ok (record a { req_packet = some packet; other_info = some service; status = ready }))

-- The virtual `_decode`: the answer of the server.
unfoldable pub decode_by : Protocol → SocketBase → Result Bytes
decode_by relay b = ok (Socket.decode b)
decode_by middle b = answer_of 4 b >>= λ p. ok p.content

abbrev pub is_read_done : ApiStatus → Bool
is_read_done read_done = true
is_read_done other = false

unfoldable pub decode : Connection → Result (Bytes × Connection)
decode a =
    check (is_read_done a.status) Exception.assertion
      (decode_by a.protocol a.receiver.base >>= λ packet. ok (packet, record a { status = over }))

-- The virtual `_fini`: a relay connection is always closed, one to a middle only by force.
unfoldable pub fini_by : Protocol → Bool → Connection → Connection
fini_by relay force a = record a {
  is_connecting = false;
  receiver = record a.receiver { is_head = false };
  is_open = false;
  is_init = false;
}
fini_by middle true a = record a {
  login_status = no_connect;
  receiver = record a.receiver { is_head = false };
  seq_no = 0;
  is_open = false;
  is_init = false;
}
fini_by middle false a = a

unfoldable pub fini : Bool → Connection → Connection
fini force a =
    let b = fini_by a.protocol force a in
    record (set_base (rewind b.receiver.base) b) {
      req_packet = none;
      other_info = none;
      client_seq_no = 0;
      status = free;
    }

unfoldable pub set_free : Bool → Connection → Connection
set_free force a = record (fini force a) { is_used = false }

-- `set_used`, with the answer of `check_tcp_ok`.
unfoldable pub set_used : Bool → Connection → Result Connection
set_used tcp_ok a =
    check (not a.is_used) Exception.assertion
      (ok (record (if tcp_ok then a else fini true a) { is_used = true }))
