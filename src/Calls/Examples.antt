-- ===== src/Calls/Examples.antt =====
-- Calls over a relay connection and the login of a middle connection, on concrete inputs
-- (`CApiBase`).
use relay_proxy.Base.{
  ℕ, zero, suc, arith, wrap_int, ◌≡◌, refl, ◌++◌, Bytes, true, false, none, some, [], ◌∷◌,
  replicate, ok, All,
}
use relay_proxy.Socket as Socket
use relay_proxy.Socket.{
  int_bytes, ready, recv_ok, send, write, progress, recv, read, read_int, recv_head, recv_body,
  receive, connecting, size_left,
}
use relay_proxy.Socket.Head.{frame}
use relay_proxy.Calls as Calls
use relay_proxy.Calls.{
  Kernel, State, Connection, free, over, relay, middle, no_connect, connecting_now, initing,
  read_done, process_send, process_read, relay_init, encode_by, send_step, recv_step, receive_by,
  encode, decode, set_used, process, process_at, process_init, init, init_by, middle_init_at,
}
use relay_proxy.Calls.Cycle.{run, run-exact}
use relay_proxy.Calls.Completion.{IsAnswering, run-ends}
use relay_proxy.Calls.Kept.{IsConsistent}
use relay_proxy.Calls.Session.{Uses, Uses-IsConsistent, processes, encodes, takes, start, next}

abbrev hello : Bytes
hello = 104 ∷ 105 ∷ []

abbrev fine : Bytes
fine = 111 ∷ 107 ∷ []

-- A connection to the relay server, before its first use.
abbrev new_relay : Connection
new_relay = record {
  protocol = relay;
  status = free;
  is_init = false;
  is_used = false;
  req_packet = none;
  other_info = none;
  client_seq_no = 0;
  receiver = record {
    base = record { process_buf = []; process_total = 0; processed = 0 };
    is_head = false;
  };
  is_open = false;
  is_connecting = false;
  login_status = no_connect;
  seq_no = 0;
  user = [];
  passwd = [];
}

abbrev asking_relay : Connection
asking_relay = record new_relay {
  status = Calls.ready;
  req_packet = some hello;
  other_info = some [];
}

-- A kernel that takes and gives four bytes at a time.
abbrev turn : Kernel
turn = record {
  connect_ok = true;
  connected_ok = true;
  head = ready 4;
  body = ready 4;
  write = ready 4;
  reserve = [];
}

turn-IsAnswering : IsAnswering turn
turn-IsAnswering = record {
  connects = refl;
  connected = refl;
  reads = (omega arith, omega arith);
  writes = omega arith;
}

turns-IsAnswering : (n : ℕ) → All IsAnswering (replicate n turn)
turns-IsAnswering zero = tt
turns-IsAnswering (suc n) = (turn-IsAnswering, turns-IsAnswering n)

encode_test : encode hello [] new_relay ≡ ok asking_relay
unfolding encode
encode_test = refl

abbrev answered : State
answered = record {
  api = record asking_relay {
    status = read_done;
    is_init = true;
    is_open = true;
    receiver = record {
      base = record {
        process_buf = 2 ∷ 0 ∷ 0 ∷ 0 ∷ 111 ∷ 107 ∷ [];
        process_total = 6;
        processed = 6;
      };
      is_head = true;
    };
  };
  stream = 0 ∷ [];
  sent = 2 ∷ 0 ∷ 0 ∷ 0 ∷ 104 ∷ 105 ∷ [];
}

run_test :
    run (replicate 5 turn) (record { api = asking_relay; stream = frame fine ++ 0 ∷ []; sent = [] })
    ≡ ok (recv_ok, answered)
unfolding run process process_at process_init process_send process_read init init_by relay_init
    encode_by Socket.encode send_step recv_step receive_by receive recv_head recv_body recv send
    read write progress size_left read_int wrap_int int_bytes
run_test = refl

run-exact_example :
    (answered.sent ≡ [] ++ frame hello)
    × (answered.stream ≡ 0 ∷ [])
    × (decode answered.api ≡ ok (fine, record answered.api { status = over }))
run-exact_example =
    run-exact (replicate 5 turn) hello [] fine (0 ∷ []) [] new_relay asking_relay answered refl refl
      (omega arith) (omega arith) encode_test run_test

run-ends_example :
    (t : State) × (run
        (replicate 14 turn)
        (record { api = asking_relay; stream = frame fine ++ 0 ∷ []; sent = [] })
      ≡ ok (recv_ok, t))
    × (decode t.api ≡ ok (fine, record t.api { status = over }))
run-ends_example =
    run-ends (replicate 14 turn) hello [] fine (0 ∷ []) [] new_relay asking_relay refl refl
      (omega arith) (omega arith) encode_test (turns-IsAnswering 14) (omega arith)

-- A connection to a middle server, before its first use and while it connects.
abbrev new_middle : Connection
new_middle = record new_relay { protocol = middle }

abbrev used_middle : Connection
used_middle = record new_middle { is_used = true }

abbrev asking_middle : Connection
asking_middle = record used_middle {
  status = Calls.ready;
  req_packet = some hello;
  other_info = some [];
}

abbrev connecting_middle : Connection
connecting_middle = record asking_middle {
  status = initing;
  is_open = true;
  login_status = connecting_now;
}

set_used_test : set_used true new_middle ≡ ok used_middle
unfolding set_used
set_used_test = refl

encode_middle_test : encode hello [] used_middle ≡ ok asking_middle
unfolding encode
encode_middle_test = refl

process_middle_test :
    process turn (record { api = asking_middle; stream = []; sent = [] })
    ≡ ok (connecting, record { api = connecting_middle; stream = []; sent = [] })
unfolding process process_at process_init init init_by middle_init_at
process_middle_test = refl

connecting_middle-Uses : Uses new_middle connecting_middle
connecting_middle-Uses =
    next new_middle asking_middle connecting_middle
      (next new_middle used_middle asking_middle
        (next new_middle new_middle used_middle (start new_middle)
          (takes true new_middle used_middle set_used_test))
        (encodes hello [] used_middle asking_middle encode_middle_test))
      (processes turn (record { api = asking_middle; stream = []; sent = [] })
        (record { api = connecting_middle; stream = []; sent = [] }) connecting process_middle_test)

new_middle-IsConsistent : IsConsistent new_middle
new_middle-IsConsistent = record {
  by_middle = refl;
  logged = refl;
  opened = refl;
  asking = λ x. absurd (cc x);
}

Uses-IsConsistent_example : IsConsistent connecting_middle
Uses-IsConsistent_example =
    Uses-IsConsistent new_middle connecting_middle connecting_middle-Uses new_middle-IsConsistent
