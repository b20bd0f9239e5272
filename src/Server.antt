-- ===== src/Server.antt =====
-- `src/relay_server.cpp`: what a thread does at an event of a client or of the connection that
-- serves it. The logs are left out; the connection that `get_api` gives, the answers of the kernel
-- and the time are arguments. `api` stays in the exchange when it has been given back. The manager
-- of the switches, which all threads share, is kept in the exchange.
mod Watch
mod Calling
mod Rounds
mod Clients
pub mod Accepting
mod Examples
use relay_proxy.Base.{
  ℕ, ◌++◌, ◌+◌, ◌%◌, ◌^◌, pos_part, ◌-◌, ℤ, pos, eqb_ℤ, ltb_ℤ, leb_ℤ, Bytes, Bool, true, false, not,
  ◌&&◌, if◌then◌else◌, leb, ltb, ◌==◌, Option, none, some, is_some, List, [], ◌∷◌, length, take,
  Map, find, insert, bytes_key, Result, ok, throw, ◌>>=◌, Exception, Code, config_exception,
  server_exception, ipc_exception, socket_exception, trpc_exception, null_pointer, out_of_range,
  err_sys_unknown, err_ipc_error, err_socket_time_out, err_conf, err_socket_recv_close,
  err_socket_terminal, err_packet_length, err_packet_fmt, err_packet_error, err_server_busy,
  err_server_error, err_socket_again, err_server_maintain, exceed_freq_limit, invalid_access,
  trpc_info_pool_invalid, request_type_invalid,
}
use relay_proxy.Url.{pack_url, parse_url}
use relay_proxy.Routing.{RequestKeyConf, covers, value_of, choose_thread}
use relay_proxy.Access as Access
use relay_proxy.Access.{AccessControl, Authorize, authorized, check_ip, check_type}
use relay_proxy.Frequency as Frequency
use relay_proxy.Frequency.{FrequencyMap}
use relay_proxy.Rules as Rules
use relay_proxy.Rules.{ServiceRequestControl}
use relay_proxy.Events.{TimeVal, check_mask, ev_read, ev_write, ev_timeout}
use relay_proxy.Socket.{
  read_int, Io, Ret, recv_ok, recv_have_more, send_ok, send_have_more, connecting, init_ok,
  int_bytes, max_packet_len,
}
use relay_proxy.Calls as Calls
use relay_proxy.Calls.{Kernel, Connection}
use relay_proxy.SwitchMgr as SwitchMgr
use relay_proxy.SwitchMgr.{RelaySwitchMgr, incr_request}
use relay_proxy.Stats.{FloatOps}
use relay_proxy.Text.{atoi}
use relay_proxy.Client as Client
use relay_proxy.Client.{
  get_call_result, ClientSocket, ClientStatus, RequestConf, Escapes, reading, processing, sending,
  c_str, to_string, key_result, key_res_info, set_recv_time_stamp, set_process_time_stamp,
}

-- What the threads share: the configuration, and the counters of the limits and of the numbers.
pub record Service : Type 0 where
  pub relay_no : ℕ
  pub request_keys : List RequestKeyConf
  pub request_types : Map Bytes RequestConf
  pub access : AccessControl
  pub authorize : Authorize
  pub limits : FrequencyMap
  pub control : ServiceRequestControl
  pub escapes : Escapes
  pub is_detail : ℤ → Bool
  pub msg_index : ℕ

-- A client, what it has sent and was sent, and the connection that serves it. An event is the mask
-- that the thread waits for, if the descriptor is in its queue.
pub record Exchange : Type 0 where
  pub client : ClientSocket
  pub client_stream : Bytes
  pub client_sent : Bytes
  pub client_event : Option ℕ
  pub api : Calls.State
  pub api_event : Option ℕ
  pub switch_mgr : RelaySwitchMgr

-- What one turn of the event loop meets: the reads and writes of the client and of the server, the
-- clock, whether `add_event` and `update_event` work, and the connection that the pool gives.
pub record Turn : Type 1 where
  pub head : Io
  pub body : Io
  pub write : Io
  pub kernel : Kernel
  pub now : TimeVal
  pub event_ok : Bool
  pub get_api : ℤ → Result Calls.State
  pub float : FloatOps

abbrev pub Outcome : Type 0
Outcome = Exchange × Result (Unit {0})

abbrev pub is_sending : ClientStatus → Bool
is_sending sending = true
is_sending other = false

abbrev pub same_status : ClientStatus → ClientStatus → Bool
same_status reading reading = true
same_status sending sending = true
same_status a b = false

abbrev pub read_mask : ℕ
read_mask = 3

abbrev pub write_mask : ℕ
write_mask = 5

-- `CRequestTypeConf::get`.
unfoldable pub conf_of : Map Bytes RequestConf → Bytes → Result RequestConf
conf_of m key = elim (find key m) [
  | none ↦ throw (config_exception request_type_invalid)
  | some conf ↦ ok conf
]

-- `CSystemConf::master_request_key`: of the first range that fits.
unfoldable pub master_request_key : ℤ → List RequestKeyConf → Result Bytes
master_request_key t [] = ok []
master_request_key t (conf ∷ confs) =
    let rest = master_request_key t confs in
    if covers t conf
    then elim conf.request_key [ [] ↦ throw out_of_range | key ∷ keys ↦ ok key ]
    else rest

-- `service_access_control_check`, with the counters before and after.
unfoldable pub service_access_control_check :
    (ℕ → ℕ → ℕ) → (now : ℤ) → Service → ClientSocket → Service × Result (Unit {0})
service_access_control_check junk now s c = elim (conf_of s.request_types c.request_key) [
  | throw x ↦ (s, throw x)
  | ok conf ↦
      let (limits, free) =
        Frequency.check s.limits (record { request_type = c.request_type; ip = c.ip }) now in
      let s' = record s { limits = limits } in
      elim (free >>= λ _. master_request_key c.request_type s.request_keys) [
        | throw x ↦ (s', throw x)
        | ok [] ↦ (s', ok tt)
        | ok (a ∷ key) ↦
            let text = c_str c.req_packet in
            let (control, result) =
              Rules.check junk now (value_of (a ∷ key) (parse_url junk text)) conf.service_name text
                s.control in
            (record s' { control = control }, result)
      ]
]

-- The checks of a request, in their order.
unfoldable pub admit :
    (ℕ → ℕ → ℕ) → (now : ℤ) → Service → ClientSocket → Service × Result (Unit {0})
admit junk now s c = elim (check_type s.access c.ip c.request_type) [
  | throw x ↦ (s, throw x)
  | ok u ↦
      if authorized s.authorize c.request_type c.ip
      then service_access_control_check junk now s c
      else (s, throw (server_exception invalid_access))
]

-- `CEventThread::add_event`: a descriptor that is in the queue is refused.
unfoldable pub add_event : (event_ok : Bool) → ℕ → Option ℕ → Result (Option ℕ)
add_event event_ok mask event =
    if is_some event
    then throw (trpc_exception err_sys_unknown)
    else (if event_ok then ok (some mask) else throw (trpc_exception err_sys_unknown))

unfoldable pub update_event : (event_ok : Bool) → ℕ → Option ℕ → Result (Option ℕ)
update_event event_ok mask none = throw Exception.assertion
update_event event_ok mask (some old) =
    if event_ok then ok (some mask) else throw (trpc_exception err_sys_unknown)

abbrev pub set_api_event : Exchange → Result (Option ℕ) → Outcome
set_api_event x (throw e) = (x, throw e)
set_api_event x (ok event) = (record x { api_event = event }, ok tt)

abbrev pub set_client_event : Exchange → Result (Option ℕ) → Outcome
set_client_event x (throw e) = (x, throw e)
set_client_event x (ok event) = (record x { client_event = event }, ok tt)

abbrev pub free_api : Bool → Exchange → Exchange
free_api force x = record x { api = record x.api { api = Calls.set_free force x.api.api } }

-- `client_socket.encode()`, and the wait for the client to take the answer.
unfoldable pub answer_client : (ℕ → ℕ → ℕ) → Turn → Service → Exchange → Outcome
answer_client junk turn s x = elim (Client.encode junk s.escapes s.is_detail x.client) [
  | throw e ↦ (x, throw e)
  | ok c ↦
      let y = record x { client = c } in
      set_client_event y (add_event turn.event_ok write_mask y.client_event)
]

-- `trySwitch` of `_relay_switch_mgr`, whose result only decides what is logged.
unfoldable pub tell_switch_mgr : Turn → RequestConf → (result : ℤ) → Exchange → Outcome
tell_switch_mgr turn conf result x =
    let (m, told) =
      SwitchMgr.try_switch turn.float x.switch_mgr conf.site_no conf.service_name result
        turn.now.tv_sec in
    (record x { switch_mgr = m }, elim told [ throw e ↦ throw e | ok n ↦ ok tt ])

-- What the manager of the switches is told of a result that is no success.
unfoldable pub result_told : (ℕ → ℕ → ℕ) → Turn → Service → Exchange → Outcome
result_told junk turn s x =
    let result = get_call_result junk x.client in
    if eqb_ℤ result (pos 0)
    then (x, ok tt)
    else elim (conf_of s.request_types x.client.request_key) [
      | throw e ↦ (x, throw e)
      | ok conf ↦ tell_switch_mgr turn conf result x
    ]

unfoldable pub then_answer : (ℕ → ℕ → ℕ) → Turn → Service → Outcome → Outcome
then_answer junk turn s (x, throw e) = (x, throw e)
then_answer junk turn s (x, ok u) = answer_client junk turn s x

-- The answer of the server is there.
unfoldable pub service_answered : (ℕ → ℕ → ℕ) → Turn → Service → Exchange → Outcome
service_answered junk turn s x =
    let y = record x { api_event = none } in
    if not (y.api.api.client_seq_no == y.client.seq_no)
    then (free_api false y, ok tt)
    else elim (Calls.decode y.api.api) [
      | throw e ↦ (y, throw e)
      | ok (packet, a) ↦ then_answer junk turn s (
          result_told junk turn s (
            free_api false (record y {
              api = record y.api { api = a };
              client = record y.client { res_packet = packet; has_api = false };
            })))
    ]

-- What `_service_dispatch` does with the result of `process`. Whether the caller has an event is
-- whether one is in the queue.
unfoldable pub service_step : (ℕ → ℕ → ℕ) → Turn → Service → Ret → Exchange → Outcome
service_step junk turn s connecting x = set_api_event x (add_event turn.event_ok 7 x.api_event)
service_step junk turn s init_ok x = set_api_event x (
    if is_some x.api_event
    then update_event turn.event_ok write_mask x.api_event
    else add_event turn.event_ok write_mask x.api_event)
service_step junk turn s send_have_more x = (x, ok tt)
service_step junk turn s send_ok x =
    set_api_event x (update_event turn.event_ok read_mask x.api_event)
service_step junk turn s recv_have_more x = (x, ok tt)
service_step junk turn s recv_ok x = service_answered junk turn s x

-- `_service_dispatch`.
unfoldable pub service_dispatch : (ℕ → ℕ → ℕ) → Turn → Service → Exchange → Outcome
service_dispatch junk turn s x = elim (Calls.process turn.kernel x.api) [
  | throw e ↦ (x, throw e)
  | ok (ret, a) ↦ service_step junk turn s ret (record x { api = a })
]

-- `CTrpcException` and its classes, which the handlers catch; what is left ends the process.
abbrev pub is_caught : Exception → Bool
is_caught Exception.assertion = false
is_caught null_pointer = false
is_caught out_of_range = false
is_caught x = true

-- The connection is given up, and closed.
abbrev pub give_up : Exchange → Exchange
give_up x = let y = free_api true x in record y { client = record y.client { has_api = false } }

-- The connection of the pool, with the request in it.
unfoldable pub request_api : Turn → RequestConf → ClientSocket → Result Calls.State
request_api turn conf c = turn.get_api conf.site_no >>= λ a.
    Calls.encode c.req_packet conf.service_name (record a.api { client_seq_no = c.seq_no }) >>= λ b.
    ok (record a { api = b })

unfoldable pub call_ended : Outcome → Outcome
call_ended (x, ok u) = (x, ok tt)
call_ended (x, throw e) = (if is_caught e then give_up x else x, throw e)

-- `_call_server`. The configuration of the request stays when there is no connection.
unfoldable pub call_server : (ℕ → ℕ → ℕ) → Turn → Service → Exchange → Outcome
call_server junk turn s x = elim (conf_of s.request_types x.client.request_key) [
  | throw e ↦ (x, throw e)
  | ok conf ↦
      let y = record x { client = record x.client { request_conf = conf } } in
      elim (request_api turn conf y.client) [
        | throw e ↦ (y, throw e)
        | ok a ↦ call_ended (
            service_dispatch junk turn s
              (record y { client = record y.client { has_api = true }; api = a; api_event = none }))
      ]
]

-- The request is counted, and the server called.
unfoldable pub counted_call : (ℕ → ℕ → ℕ) → Turn → Service → Exchange → Outcome
counted_call junk turn s x = elim (conf_of s.request_types x.client.request_key) [
  | throw e ↦ (x, throw e)
  | ok conf ↦ call_server junk turn s (record x {
    switch_mgr = incr_request x.switch_mgr conf.site_no conf.service_name turn.now.tv_sec;
  })
]

-- The checks of a request that is decoded, and the call.
unfoldable pub request_decoded :
    (ℕ → ℕ → ℕ) → Turn → Exchange → Service × Result (Unit {0}) → Service × Outcome
request_decoded junk turn x (s, throw e) = (s, (x, throw e))
request_decoded junk turn x (s, ok u) = (s, counted_call junk turn s x)

-- The request of a client is there.
unfoldable pub request_read : (ℕ → ℕ → ℕ) → Turn → Service → Exchange → Service × Outcome
request_read junk turn s x =
    let y = record x { client_event = none } in
    let (i, decoded) =
      Client.decode junk s.relay_no (pos_part turn.now.tv_sec % 2 ^ 32) s.msg_index s.request_keys
        y.client in
    let s' = record s { msg_index = i } in
    elim decoded [
      | throw e ↦ (
        s',
        (
          record y {
            client =
                Client.decode_failed junk s.relay_no (pos_part turn.now.tv_sec % 2 ^ 32) s.msg_index
                  s.request_keys y.client;
          },
          throw e,
        ),
      )
      | ok c ↦ request_decoded junk turn (record y { client = c }) (admit junk turn.now.tv_sec s' c)
    ]

-- What `_thread_dispatch` does with the result of `process`.
unfoldable pub client_step : (ℕ → ℕ → ℕ) → Turn → Service → Ret → Exchange → Service × Outcome
client_step junk turn s recv_have_more x = (s, (x, ok tt))
client_step junk turn s recv_ok x = request_read junk turn s x
client_step junk turn s send_have_more x = (s, (x, ok tt))
client_step junk turn s send_ok x =
    (s, (record x { client_event = none; client = Client.fini x.client }, ok tt))
client_step junk turn s connecting x = (s, (x, throw (server_exception err_sys_unknown)))
client_step junk turn s init_ok x = (s, (x, throw (server_exception err_sys_unknown)))

-- `_thread_dispatch`.
unfoldable pub thread_dispatch :
    (ℕ → ℕ → ℕ) → Turn → ClientStatus → Service → Exchange → Service × Outcome
thread_dispatch junk turn status s x =
    if not (same_status x.client.status status)
    then (s, (x, throw (trpc_exception err_sys_unknown)))
    else elim (Client.process turn.head turn.body turn.write turn.now x.client x.client_stream
        x.client_sent) [
          | throw e ↦ (s, (x, throw e))
          | ok (ret, c, stream, out) ↦
              client_step junk turn s ret
                (record x { client = c; client_stream = stream; client_sent = out })
        ]

-- What the exceptions say: the numbers of `src/relay_error.h`, by the names of
-- `base/trpc_internal_error.h`.
unfoldable pub code_number : Code → ℤ
code_number request_type_invalid = pos 10002
code_number invalid_access = pos 10003
code_number err_socket_again = pos 10006
code_number err_socket_terminal = pos 10006
code_number err_ipc_error = pos 10006
code_number err_packet_length = pos 10006
code_number err_packet_fmt = pos 10006
code_number err_packet_error = pos 10006
code_number trpc_info_pool_invalid = pos 10009
code_number err_socket_time_out = pos 10010
code_number err_server_error = pos 10025
code_number err_server_maintain = pos 10025
code_number err_server_busy = pos 10025
code_number exceed_freq_limit = pos 10048
code_number err_sys_unknown = pos 10050
code_number err_conf = pos 10050
code_number err_socket_recv_close = pos 10051

unfoldable pub error_of : Exception → ℤ
error_of (config_exception c) = code_number c
error_of (server_exception c) = code_number c
error_of (ipc_exception c) = code_number c
error_of (socket_exception c) = code_number c
error_of (trpc_exception c) = code_number c
error_of Exception.assertion = code_number err_sys_unknown
error_of null_pointer = code_number err_sys_unknown
error_of out_of_range = code_number err_sys_unknown

-- The answer of a text protocol; what does not fit is cut, and the zero at the end counts when nothing
-- but it does not fit.
unfoldable pub text_error : ℤ → Bytes → Bytes
text_error error res_info =
    let packet = pack_url (insert key_res_info res_info (insert key_result (to_string error) [])) in
    take (max_packet_len - 1) packet ++ (if length packet == max_packet_len then 0 ∷ [] else [])

-- The answer that tells an error, as it is before `encode`. The numbers of errors are positive.
unfoldable pub error_packet : Result RequestConf → ℤ → Bytes → Bytes
error_packet (throw e) error res_info = text_error error res_info
error_packet (ok conf) error res_info =
    if conf.is_binary then int_bytes (pos_part error) ++ res_info else text_error error res_info

-- The manager is told of an error when the request is of a known type.
unfoldable pub error_told : Turn → Result RequestConf → (error : ℤ) → Exchange → Outcome
error_told turn (throw e) error x = (x, ok tt)
error_told turn (ok conf) error x = tell_switch_mgr turn conf error x

-- `_write_error`, with the text of the exception.
unfoldable pub write_error : (ℕ → ℕ → ℕ) → Turn → Service → ℤ → Bytes → Exchange → Outcome
write_error junk turn s error res_info x =
    let conf = conf_of s.request_types x.client.request_key in
    let c = set_process_time_stamp turn.now (set_recv_time_stamp turn.now x.client) in
    then_answer junk turn s (
      error_told turn conf error (record x {
        client = record c { is_system_error = true; res_packet = error_packet conf error res_info };
      }))

-- How a handler of a client's event ends: when the work has thrown, the error is told, or the client,
-- to whom an answer was on its way, is closed.
unfoldable pub client_ended :
    (ℕ → ℕ → ℕ) → Turn → (text : Exception → Bytes) → Service → Outcome → Outcome
client_ended junk turn text s (x, ok u) = (x, ok tt)
client_ended junk turn text s (x, throw e) =
    let y = record x { client_event = none } in
    if is_caught e
    then (if is_sending y.client.status
        then (record y { client = Client.fini y.client }, ok tt)
        else write_error junk turn s (error_of e) (text e) y)
    else (x, throw e)

-- The exception for an event that is neither a read nor a write.
unfoldable pub other_event : ℕ → Exception
other_event event =
    if check_mask event ev_timeout
    then server_exception err_socket_time_out
    else trpc_exception err_sys_unknown

-- `_dispatch_handler`: an event of the client.
unfoldable pub dispatch_handler :
    (ℕ → ℕ → ℕ)
    → Turn
    → (text : Exception → Bytes) → (event : ℕ) → Service
    → Exchange
    → Service × Outcome
dispatch_handler junk turn text event s x =
    let (s', outcome) =
      if check_mask event ev_read
      then thread_dispatch junk turn reading s x
      else (if check_mask event ev_write
          then thread_dispatch junk turn sending s x
          else (s, (x, throw (other_event event)))) in
    (s', client_ended junk turn text s' outcome)

-- How a handler of the server's event ends: the connection is closed and the error told.
unfoldable pub service_ended :
    (ℕ → ℕ → ℕ) → Turn → (text : Exception → Bytes) → Service → Outcome → Outcome
service_ended junk turn text s (x, ok u) = (x, ok tt)
service_ended junk turn text s (x, throw e) =
    if is_caught e
    then write_error junk turn s (error_of e) (text e) (give_up (record x { api_event = none }))
    else (x, throw e)

-- `_service_handler`: an event of the connection to the server. The status that `_service_dispatch`
-- is given is not looked at.
unfoldable pub service_handler :
    (ℕ → ℕ → ℕ) → Turn → (text : Exception → Bytes) → (event : ℕ) → Service → Exchange → Outcome
service_handler junk turn text event s x = service_ended junk turn text s (
    if check_mask event ev_read
    then service_dispatch junk turn s x
    else (if check_mask event ev_write
        then service_dispatch junk turn s x
        else (x, throw (other_event event))))
