-- ===== src/Client.antt =====
-- `src/client_socket.cpp`: a client's connection from the accept to the answer. `errcode_escape_conf` and
-- `detail_info_service_conf` are what their files give: a map from codes to texts, a set of request
-- types. An answer that does not fit the buffer is an access out of range.
mod Answers
mod Examples
use relay_proxy.Base.{
  ℕ, zero, suc, ◌+◌, ◌-◌, ◌*◌, ◌/◌, ◌%◌, ◌^◌, ◌++◌, ℤ, pos, negsuc, ◌+ℤ◌, ◌-ℤ◌, ◌*ℤ◌, eqb_ℤ, ltb_ℤ,
  wrap_int, Bytes, codes, eqb, negsuc, Bool, true, false, not, ◌&&◌, if◌then◌else◌, leb, ltb, ◌==◌,
  Option, none, some, is_some, List, [], ◌∷◌, length, take, drop, Map, find, count, insert,
  bytes_key, int_key, Result, ok, throw, ◌>>=◌, check, Exception, trpc_exception, err_sys_unknown,
}
use relay_proxy.Text.{atoi}
use relay_proxy.Url.{parse_url, pack_url, is_empty}
use relay_proxy.Routing.{
  RequestKeyConf, value_of, gen_request_key, request_type_name, split_char, find_range,
}
use relay_proxy.Events.{TimeVal}
use relay_proxy.Socket as Socket
use relay_proxy.Socket.{
  Io, Ret, SocketBase, Receiver, recv_ok, send_ok, int_bytes, read_int, receive, send,
  max_packet_len,
}

-- `EM_Status`.
pub data ClientStatus : Type 0 where
  free reading processing sending over time_out : ClientStatus

-- `CRequestTypeConf::ST_RequestConfData`, as far as a call needs it.
pub record RequestConf : Type 0 where
  pub site_no : ℤ
  pub service_name : Bytes
  pub is_binary : Bool

-- `CClientSocket`; `_fd` is open or `INVALID_SOCKET`, and `_relay`, `_server_ip` and `_server_port`,
-- which are only printed, are left out. The packets have their lengths with them.
pub record ClientSocket : Type 0 where
  pub status : ClientStatus
  pub is_open : Bool
  pub thread_no : ℤ
  pub seq_no : ℕ
  pub ip : Bytes
  pub port : ℤ
  pub receiver : Receiver
  pub req_packet : Bytes
  pub res_packet : Bytes
  pub request_type : ℤ
  pub request_key : Bytes
  pub request_key_index : ℤ
  pub request_conf : RequestConf
  pub has_api : Bool
  pub is_system_error : Bool
  pub access_stamp : TimeVal
  pub recv_ok_stamp : TimeVal
  pub process_stamp : TimeVal

abbrev pub no_time : TimeVal
no_time = record { tv_sec = pos 0; tv_usec = pos 0 }

abbrev pub no_conf : RequestConf
no_conf = record { site_no = pos 0; service_name = []; is_binary = false }

-- `_reset`. The sequence number stays.
unfoldable pub fini : ClientSocket → ClientSocket
fini c = record {
  status = free;
  is_open = false;
  thread_no = negsuc 0;
  seq_no = c.seq_no;
  ip = [];
  port = pos 0;
  receiver = record {
    base = record { process_buf = []; process_total = 0; processed = 0 };
    is_head = false;
  };
  req_packet = [];
  res_packet = [];
  request_type = negsuc 0;
  request_key = [];
  request_key_index = negsuc 0;
  request_conf = no_conf;
  has_api = false;
  is_system_error = false;
  access_stamp = no_time;
  recv_ok_stamp = no_time;
  process_stamp = no_time;
}

-- `init`, with what the kernel says of the peer, and the time.
unfoldable pub init :
    (thread_no : ℤ) (seq_no : ℕ) (ip : Bytes) (port : ℤ) (now : TimeVal)
    → ClientSocket
    → Result ClientSocket
init thread_no seq_no ip port now c = check (not c.is_open) Exception.assertion (
    check (ltb_ℤ c.thread_no (pos 0)) (trpc_exception err_sys_unknown) (
      ok (record c {
        is_open = true;
        ip = ip;
        port = port;
        access_stamp = now;
        recv_ok_stamp = no_time;
        process_stamp = no_time;
        thread_no = thread_no;
        status = reading;
        seq_no = seq_no;
      })))

-- The cases of `process`.
unfoldable pub read_request :
    Io → Io → TimeVal → ClientSocket → Bytes → Result (Ret × ClientSocket × Bytes)
read_request head body now c s = receive head body c.receiver s >>= λ (ret, r, rest). elim ret [
  | recv_ok ↦
      ok (recv_ok, record c { receiver = r; status = processing; recv_ok_stamp = now }, rest)
  | other ↦ ok (other, record c { receiver = r }, rest)
]

unfoldable pub send_answer :
    Io → TimeVal → ClientSocket → Bytes → Result (Ret × ClientSocket × Bytes)
send_answer io now c out = send io c.receiver.base out >>= λ (ret, b, out').
    let c' = record c { receiver = record c.receiver { base = b } } in
    elim ret [
      | send_ok ↦ ok (send_ok, record c' { status = over; process_stamp = now }, out')
      | other ↦ ok (other, c', out')
    ]

-- `process`: a step of the request or of the answer. What the client has sent is a stream, what it was
-- sent a list of bytes.
unfoldable pub process_at :
    ClientStatus
    → (head body write : Io) (now : TimeVal) → ClientSocket
    → (stream sent : Bytes) → Result (Ret × ClientSocket × Bytes × Bytes)
process_at reading head body write now c stream sent =
    read_request head body now c stream >>= λ (ret, d, rest). ok (ret, d, rest, sent)
process_at sending head body write now c stream sent =
    send_answer write now c sent >>= λ (ret, d, out). ok (ret, d, stream, out)
process_at free head body write now c stream sent = throw (trpc_exception err_sys_unknown)
process_at processing head body write now c stream sent = throw (trpc_exception err_sys_unknown)
process_at over head body write now c stream sent = throw (trpc_exception err_sys_unknown)
process_at time_out head body write now c stream sent = throw (trpc_exception err_sys_unknown)

unfoldable pub process :
    (head body write : Io) (now : TimeVal)
    → ClientSocket
    → (stream sent : Bytes) → Result (Ret × ClientSocket × Bytes × Bytes)
process head body write now c stream sent = process_at c.status head body write now c stream sent

-- A string in a `char` array ends at its first zero.
unfoldable pub c_str : Bytes → Bytes
c_str [] = []
c_str (c ∷ s) = let rest = c_str s in if c == 0 then [] else c ∷ rest

unfoldable pub is_prefix : Bytes → Bytes → Bool
is_prefix [] s = true
is_prefix (a ∷ p) [] = false
is_prefix (a ∷ p) (b ∷ s) = a == b && is_prefix p s

-- `strstr(s, p) != NULL`.
unfoldable pub contains : Bytes → Bytes → Bool
contains p [] = is_prefix p []
contains p (c ∷ s) = let rest = contains p s in if is_prefix p (c ∷ s) then true else rest

-- The last `w` decimal digits of a number, and `%u`: the digits of an `unsigned int` are at most ten.
unfoldable pub digits : ℕ → ℕ → Bytes
digits zero n = []
digits (suc w) n = digits w (n / 10) ++ (48 + n % 10) ∷ []

unfoldable pub drop_zeros : Bytes → Bytes
drop_zeros [] = []
drop_zeros (c ∷ []) = c ∷ []
drop_zeros (c ∷ d ∷ s) = let rest = drop_zeros (d ∷ s) in if c == 48 then rest else c ∷ d ∷ s

unfoldable pub unsigned_text : ℕ → Bytes
unsigned_text n = drop_zeros (digits 10 n)

unfoldable pub to_string : ℤ → Bytes
to_string (pos n) = unsigned_text n
to_string (negsuc n) = 45 ∷ unsigned_text (suc n)

abbrev pub at_least_three : Bytes → Bytes
at_least_three (a ∷ []) = 48 ∷ 48 ∷ a ∷ []
at_least_three (a ∷ b ∷ []) = 48 ∷ a ∷ b ∷ []
at_least_three s = s

-- `MSG_NO=%03u%010u%010u&`.
unfoldable pub msg_no : (relay_no now msg_index : ℕ) → Bytes
msg_no relay_no now msg_index =
    codes "MSG_NO="
    ++ at_least_three (unsigned_text relay_no)
    ++ digits 10 now
    ++ digits 10 msg_index
    ++ codes "&"

abbrev packet_of : SocketBase → Bytes
packet_of b = Socket.decode b

-- `decode`: the request with a number of its own, and the key of its server. The counter of the
-- numbers is before and after.
unfoldable pub decode :
    (ℕ → ℕ → ℕ)
    → (relay_no now msg_index : ℕ) → List RequestKeyConf
    → ClientSocket
    → ℕ × Result ClientSocket
decode junk relay_no now msg_index confs c =
    let packet = packet_of c.receiver.base in
    let next = (msg_index + 1) % 2 ^ 32 in
    let is_new =
      not (contains (codes "MSG_NO") (c_str (drop 4 c.receiver.base.process_buf)))
      && leb c.receiver.base.process_total (max_packet_len - 64) in
    let request = if is_new then msg_no relay_no now next ++ packet else packet in
    (
      if is_new then next else msg_index,
      gen_request_key junk (c_str request) confs >>= λ r. ok (record c {
        req_packet = request;
        request_type = r.request_type;
        request_key_index = pos r.request_key_index;
        request_key = r.request_key;
        status = processing;
      }),
    )

-- The part of a key that `_gen_request_key` has built when it throws: up to the first parameter that is
-- not there.
unfoldable pub key_so_far : Map Bytes Bytes → List Bytes → Bytes
key_so_far params [] = []
key_so_far params (k ∷ ks) =
    let rest = key_so_far params ks in
    if is_empty k params then [] else value_of k params ++ split_char ∷ rest

-- The client when `_gen_request_key` has thrown on a request.
unfoldable pub key_failed :
    (ℕ → ℕ → ℕ) → List RequestKeyConf → (request : Bytes) → ClientSocket → ClientSocket
key_failed junk [] request c = record c { req_packet = request }
key_failed junk (conf ∷ confs) request c =
    let params = parse_url junk (c_str request) in
    let t = atoi (value_of request_type_name params) in
    if is_empty request_type_name params
    then record c { req_packet = request; request_key = [] }
    else elim (find_range t 0 (conf ∷ confs)) [
      | none ↦ record c {
        req_packet = request;
        request_key = [];
        request_type = t;
        request_key_index = negsuc 0;
      }
      | some (i, range) ↦ record c {
        req_packet = request;
        request_key = key_so_far params range.request_key;
        request_type = t;
        request_key_index = pos i;
      }
    ]

-- What `decode` leaves of a client when it throws.
unfoldable pub decode_failed :
    (ℕ → ℕ → ℕ) → (relay_no now msg_index : ℕ) → List RequestKeyConf → ClientSocket → ClientSocket
decode_failed junk relay_no now msg_index confs c =
    let packet = packet_of c.receiver.base in
    let is_new =
      not (contains (codes "MSG_NO") (c_str (drop 4 c.receiver.base.process_buf)))
      && leb c.receiver.base.process_total (max_packet_len - 64) in
    key_failed junk confs
      (if is_new then msg_no relay_no now ((msg_index + 1) % 2 ^ 32) ++ packet else packet) c

abbrev pub Escapes : Type 0
Escapes = Map ℤ Bytes

-- `isOriginalCode`, `isEscapedCode` and `getEscapedText`.
unfoldable pub is_original_code : Escapes → ℤ → Bool
is_original_code m code = elim (find code m) [ none ↦ false | some s ↦ eqb s (codes "NO_ESCAPE") ]

unfoldable pub is_escaped_code : Escapes → ℤ → Bool
is_escaped_code m code = count code m

unfoldable pub escaped_text : Escapes → ℤ → Bytes
escaped_text m code = elim (find code m) [ none ↦ [] | some s ↦ s ]

abbrev pub key_result : Bytes
key_result = codes "result"

abbrev pub key_res_info : Bytes
key_res_info = codes "res_info"

abbrev pub key_comm_value : Bytes
key_comm_value = codes "comm_value"

abbrev pub busy_text : Bytes → Bytes
busy_text code = codes "[" ++ code ++ codes "]system busy"

-- The text for a code, as `encode_protocol_text` chooses it.
unfoldable pub text_for : Escapes → ℤ → Bytes → Bytes
text_for escapes result res_info =
    if is_original_code escapes result
    then []
    else (if is_escaped_code escapes result then escaped_text escapes result else res_info)

-- What goes back of the parameters of an answer that is no success. A service with details keeps all.
unfoldable pub kept_params : (is_detail : Bool) → Map Bytes Bytes → Map Bytes Bytes
kept_params true param = param
kept_params false param =
    let res =
      insert key_res_info (value_of key_res_info param)
        (insert key_result (value_of key_result param) []) in
    if count key_comm_value param
    then insert key_comm_value (value_of key_comm_value param) res
    else res

unfoldable pub escaped_params : Escapes → (is_detail : Bool) → Map Bytes Bytes → Map Bytes Bytes
escaped_params escapes is_detail param =
    let text = text_for escapes (atoi (value_of key_result param)) (value_of key_res_info param) in
    insert key_res_info
      (if ltb 0 (length text) then text else busy_text (value_of key_result param))
      (kept_params is_detail param)

-- A packet with its length goes to the buffer.
unfoldable pub put_packet : Bytes → ClientSocket → Result ClientSocket
put_packet packet c =
    check (leb (length packet + 4) max_packet_len) Exception.out_of_range
      (ok (record c { receiver = record c.receiver { base = Socket.encode packet } }))

-- `encode_protocol_text`. Reading `param["result"]` puts the key there.
unfoldable pub encode_protocol_text :
    (ℕ → ℕ → ℕ) → Escapes → (is_detail : ℤ → Bool) → ClientSocket → Result ClientSocket
encode_protocol_text junk escapes is_detail c =
    let param = parse_url junk (c_str c.res_packet) in
    if eqb_ℤ (atoi (value_of key_result param)) (pos 0)
    then put_packet c.res_packet c
    else put_packet (pack_url (escaped_params escapes (is_detail c.request_type) param)) c

unfoldable pub binary_text : Escapes → ℤ → Bytes
binary_text escapes result =
    if eqb_ℤ result (pos 0) then [] else text_for escapes result (busy_text (to_string result))

unfoldable pub encode_protocol_binary : Escapes → ClientSocket → Result ClientSocket
encode_protocol_binary escapes c =
    let text = binary_text escapes (read_int c.res_packet) in
    if ltb 0 (length text)
    then put_packet (take 4 c.res_packet ++ text) c
    else put_packet c.res_packet c

-- `encode`.
unfoldable pub encode :
    (ℕ → ℕ → ℕ) → Escapes → (is_detail : ℤ → Bool) → ClientSocket → Result ClientSocket
encode junk escapes is_detail c =
    (if c.request_conf.is_binary
      then encode_protocol_binary escapes c
      else encode_protocol_text junk escapes is_detail c)
    >>= λ d. ok (record d { status = sending })

-- `get_call_result`.
unfoldable pub get_call_result : (ℕ → ℕ → ℕ) → ClientSocket → ℤ
get_call_result junk c =
    if c.request_conf.is_binary
    then read_int c.res_packet
    else atoi (value_of key_result (parse_url junk (c_str c.res_packet)))

-- `acc_res_packet`: `snprintf` keeps 1022 bytes.
unfoldable pub acc_res_packet : (ℕ → ℕ → ℕ) → ClientSocket → Bytes
acc_res_packet junk c =
    let result = get_call_result junk c in
    if c.request_conf.is_binary && not (eqb_ℤ result (pos 0))
    then take 1022
        (codes "result=" ++ to_string result ++ codes "&res_info=" ++ c_str (drop 4 c.res_packet))
    else c_str c.res_packet

-- The time between two stamps that are set, as an `int` of microseconds.
unfoldable pub microseconds : TimeVal → TimeVal → ℤ
microseconds end start =
    if not (eqb_ℤ end.tv_sec (pos 0)) && not (eqb_ℤ start.tv_sec (pos 0))
    then wrap_int ((end.tv_sec -ℤ start.tv_sec) *ℤ pos 1000000 +ℤ end.tv_usec -ℤ start.tv_usec)
    else pos 0

unfoldable pub call_middle_microseconds : ClientSocket → ℤ
call_middle_microseconds c = microseconds c.process_stamp c.recv_ok_stamp

unfoldable pub total_process_microseconds : ClientSocket → ℤ
total_process_microseconds c = microseconds c.process_stamp c.access_stamp

-- A stamp that is set stays.
unfoldable pub set_process_time_stamp : TimeVal → ClientSocket → ClientSocket
set_process_time_stamp now c =
    if eqb_ℤ c.process_stamp.tv_sec (pos 0) then record c { process_stamp = now } else c

unfoldable pub set_recv_time_stamp : TimeVal → ClientSocket → ClientSocket
set_recv_time_stamp now c =
    if eqb_ℤ c.recv_ok_stamp.tv_sec (pos 0) then record c { recv_ok_stamp = now } else c
