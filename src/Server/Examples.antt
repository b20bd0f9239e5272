-- ===== src/Server/Examples.antt =====
-- Events of a client and of its server, on concrete inputs (`CRelayServer`).
use relay_proxy.Base.{
  ℕ, ◌≡◌, refl, pos, negsuc, Bytes, codes, eqb, count, find, ◌-ℤ◌, ◌+ℤ◌, true, false, none, some,
  [], ◌∷◌, ok, throw, server_exception, err_server_busy, Exception,
}
use relay_proxy.Socket.{ready, again, write}
use relay_proxy.Calls as Calls
use relay_proxy.Calls.{Kernel, State, Connection, relay, no_connect}
use relay_proxy.Client as Client
use relay_proxy.Client.{ClientSocket, free, reading, processing, no_time, no_conf}
use relay_proxy.Stats.Rounding.{exact}
use relay_proxy.SwitchMgr.Examples.{manager}
use relay_proxy.Server.{Service, Exchange, Turn, read_mask, write_mask}
use relay_proxy.Server.Watch.{Reads}
use relay_proxy.Access.{check_ip}
use relay_proxy.Routing.{choose_thread}
use relay_proxy.Server.Accepting.{
  Message, process_accept, accept_ended, hand_over, process_dispatch,
  process_dispatch-process_accept,
}

abbrev junk : ℕ → ℕ → ℕ
junk a b = 0

abbrev text : Exception → Bytes
text e = codes "error"

abbrev service : Service
service = record {
  relay_no = 3;
  request_keys = [];
  request_types = [];
  access = [];
  authorize = record { authorized_set = []; is_init = false };
  limits = [];
  control = record { rule_pool = []; is_init = false };
  escapes = [];
  is_detail = λ t. false;
  msg_index = 0;
}

-- A turn at which the head of a request is there, and nothing can be written.
abbrev turn : Turn
turn = record {
  head = ready 4;
  body = again;
  write = again;
  kernel = record {
    connect_ok = true;
    connected_ok = true;
    head = again;
    body = again;
    write = again;
    reserve = [];
  };
  now = no_time;
  event_ok = true;
  get_api = λ site_no. throw (server_exception err_server_busy);
  float = exact;
}

abbrev client : ClientSocket
client = record {
  status = reading;
  is_open = true;
  thread_no = pos 0;
  seq_no = 1;
  ip = codes "10.0.0.1";
  port = pos 4000;
  receiver = record {
    base = record { process_buf = []; process_total = 0; processed = 0 };
    is_head = false;
  };
  req_packet = [];
  res_packet = [];
  request_type = negsuc 0;
  request_key = [];
  request_key_index = negsuc 0;
  request_conf = no_conf;
  has_api = false;
  is_system_error = false;
  access_stamp = no_time;
  recv_ok_stamp = no_time;
  process_stamp = no_time;
}

abbrev server : Connection
server = record {
  protocol = relay;
  status = Calls.send_request;
  is_init = true;
  is_used = true;
  req_packet = some (codes "hi");
  other_info = some [];
  client_seq_no = 1;
  receiver = record {
    base = record { process_buf = 2 ∷ 0 ∷ 0 ∷ 0 ∷ codes "hi"; process_total = 6; processed = 0 };
    is_head = false;
  };
  is_open = true;
  is_connecting = false;
  login_status = no_connect;
  seq_no = 0;
  user = [];
  passwd = [];
}

-- A client that has sent the head of its request and a byte.
abbrev asking : Exchange
asking = record {
  client = client;
  client_stream = 2 ∷ 0 ∷ 0 ∷ 0 ∷ 104 ∷ [];
  client_sent = [];
  client_event = some read_mask;
  api = record { api = server; stream = []; sent = [] };
  api_event = none;
  switch_mgr = manager;
}

abbrev headed : Exchange
headed = record asking {
  client = record client {
    receiver = record {
      base = record { process_buf = 2 ∷ 0 ∷ 0 ∷ 0 ∷ []; process_total = 6; processed = 4 };
      is_head = true;
    };
  };
  client_stream = 104 ∷ [];
}

-- A client whose request is on its way to the server.
abbrev calling : Exchange
calling = record asking {
  client = record client { status = processing };
  client_event = none;
  api_event = some write_mask;
}

-- A client that has just come, and a service that admits its address.
abbrev coming : ClientSocket
coming = record client { status = free; is_open = false; thread_no = negsuc 0; seq_no = 0 }

abbrev admitting : Service
admitting = record service { access = (codes "10.0.0.1", []) ∷ [] }

abbrev handed_over : Exchange
handed_over = record asking { client_event = none }

abbrev message : Message
message = record { thread_no = pos 0; fd = pos 11; seq_no = 1 }

process_accept_test :
    process_accept true
      (pos 4)
      (pos 11)
      (codes "10.0.0.1")
      (pos 4000)
      no_time
      true
      (record { thread_index = pos 0; seq_no = 0 })
      coming
    ≡ (record { thread_index = pos 1; seq_no = 1 }, client, ok message)
unfolding process_accept accept_ended hand_over choose_thread Client.init ◌-ℤ◌ ◌+ℤ◌
process_accept_test = refl

check_ip_test : check_ip admitting.access client.ip ≡ ok tt
unfolding check_ip count find eqb
check_ip_test = refl

process_dispatch-process_accept_example :
    (y : Exchange) × (process_dispatch junk turn text (some message) admitting handed_over
      ≡ (y, ok tt))
    × Reads y
    × (y.client ≡ client)
    × (pos 0 ≡ y.client.thread_no)
process_dispatch-process_accept_example =
    process_dispatch-process_accept junk turn text admitting handed_over true (pos 4) (pos 11)
      (codes "10.0.0.1") (pos 4000) no_time true (record { thread_index = pos 0; seq_no = 0 })
      (record { thread_index = pos 1; seq_no = 1 }) coming message process_accept_test check_ip_test
      refl refl refl
