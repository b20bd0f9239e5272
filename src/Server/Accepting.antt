-- ===== src/Server/Accepting.antt =====
-- A client that is accepted, handed to a thread and taken over there (`CRelayServer::_process_accept`,
-- `_choose_thread`, `_process_dispatch`).
use mathlib.Core.Path.{subst}
use relay_proxy.Base.{
  ℕ, ◌+◌, ◌%◌, ◌^◌, ◌==◌, ◌≡◌, inl, inr, refl, sym, ap, ◌∙◌, ℤ, pos, ltb_ℤ, Bytes, Bool, true,
  false, not, if◌then◌else◌, Option, none, some, Result, ok, throw, ◌>>=◌, Exception, Bool-cases,
  ipc_exception, err_ipc_error, server_exception, err_socket_again, arith,
}
use relay_proxy.Access.{check_ip}
use relay_proxy.Events.{TimeVal}
use relay_proxy.Routing.{choose_thread}
use relay_proxy.Socket.Receive.{of_ok}
use relay_proxy.Socket.Framing.{if_false}
use relay_proxy.Client as Client
use relay_proxy.Client.{ClientSocket, reading}
use relay_proxy.Server.{
  Service, Exchange, Turn, Outcome, read_mask, add_event, write_error, is_sending, error_of,
  is_caught,
}
use relay_proxy.Server.Watch.{Reads}

-- What `_process_dispatch` does with the event that was added, and its `catch`: an error is told and
-- thrown on.
unfoldable pub taken_over :
    (ℕ → ℕ → ℕ)
    → Turn
    → (text : Exception → Bytes) → Service
    → Exchange
    → Result (Option ℕ)
    → Outcome
taken_over junk turn text s x (ok event) = (record x { client_event = event }, ok tt)
taken_over junk turn text s x (throw e) =
    let (y, told) =
      if is_sending x.client.status
      then (record x { client = Client.fini x.client }, ok tt)
      else write_error junk turn s (error_of e) (text e) x in
    (y, elim told [ throw f ↦ throw f | ok u ↦ throw e ])

-- `ST_ThreadPipeMsg`, and the thread to whose pipe it goes.
pub record Message : Type 0 where
  pub thread_no : ℤ
  pub fd : ℤ
  pub seq_no : ℕ

-- `_process_dispatch`: the thread takes over a client, of whom the pipe told the descriptor and a number.
-- The exchange is that of the client with the descriptor. Nothing is taken
-- over when the message could not be read in full.
unfoldable pub process_dispatch :
    (ℕ → ℕ → ℕ)
    → Turn
    → (text : Exception → Bytes) → (message : Option Message) → Service
    → Exchange
    → Outcome
process_dispatch junk turn text none s x = (x, throw (ipc_exception err_ipc_error))
process_dispatch junk turn text (some message) s x = taken_over junk turn text s x (
    if not (message.seq_no == x.client.seq_no)
    then throw (ipc_exception err_ipc_error)
    else (check_ip s.access x.client.ip >>= λ u. add_event turn.event_ok read_mask x.client_event))

-- `thread_index` and `seq_no` of `_choose_thread`, the next thread and the number of the last client.
pub record Chooser : Type 0 where
  pub thread_index : ℤ
  pub seq_no : ℕ

-- `_choose_thread` of a client, with whether the pipe of the thread took the message.
unfoldable pub hand_over :
    (thread_num fd : ℤ) (ip : Bytes) (port : ℤ) (now : TimeVal) (pipe_ok : Bool)
    → Chooser
    → ClientSocket
    → Chooser × ClientSocket × Result Message
hand_over thread_num fd ip port now pipe_ok ch c =
    let (thread_no, next) = choose_thread thread_num ch.thread_index in
    let seq_no = (ch.seq_no + 1) % 2 ^ 32 in
    let ch' : Chooser = record { thread_index = next; seq_no = seq_no } in
    let message : Message = record { thread_no = thread_no; fd = fd; seq_no = seq_no } in
    elim (Client.init thread_no seq_no ip port now c) [
      | throw e ↦ (ch', c, throw e)
      | ok d ↦ (ch', d, if pipe_ok then ok message else throw (ipc_exception err_ipc_error))
    ]

unfoldable pub accept_ended :
    Chooser × ClientSocket × Result Message → Chooser × ClientSocket × Result Message
accept_ended (ch, c, ok n) = (ch, c, ok n)
accept_ended (ch, c, throw e) = (ch, if is_caught e then Client.fini c else c, throw e)

-- `_process_accept`, with what `accept` gives: a client that cannot be handed over is closed again.
unfoldable pub process_accept :
    (accepted : Bool) (thread_num fd : ℤ) (ip : Bytes) (port : ℤ) (now : TimeVal) (pipe_ok : Bool)
    → Chooser
    → ClientSocket
    → Chooser × ClientSocket × Result Message
process_accept accepted thread_num fd ip port now pipe_ok ch c =
    if accepted
    then accept_ended (hand_over thread_num fd ip port now pipe_ok ch c)
    else (ch, c, throw (server_exception err_socket_again))

-- What the accept leaves when the message is in the pipe: a client that is read from, with the number
-- and the thread of the message.
abbrev Handed : Chooser × ClientSocket × Result Message → Type 0
Handed (ch, c, ok n) = (c.status ≡ reading) × (c.seq_no ≡ n.seq_no) × (c.thread_no ≡ n.thread_no)
Handed (ch, c, throw e) = Unit

init-reading :
    (thread_no : ℤ) (seq_no : ℕ) (ip : Bytes) (port : ℤ) (now : TimeVal) (c d : ClientSocket)
    → Client.init thread_no seq_no ip port now c ≡ ok d
    → (d.status ≡ reading) × (d.seq_no ≡ seq_no) × (d.thread_no ≡ thread_no)
unfolding Client.init
init-reading thread_no seq_no ip port now c d h = elim (Bool-cases (not c.is_open)) [
  | inr used ↦ absurd (cc (rw used at h))
  | inl shut ↦ elim (Bool-cases (ltb_ℤ c.thread_no (pos 0))) [
    | inr old ↦ absurd (cc (rw (shut, old) at h))
    | inl new ↦ (
      ap (λ x. x.status) (sym (of_ok _ d (rw (shut, new) at h))),
      ap (λ x. x.seq_no) (sym (of_ok _ d (rw (shut, new) at h))),
      ap (λ x. x.thread_no) (sym (of_ok _ d (rw (shut, new) at h))),
    )
  ]
]

handed :
    (ch : Chooser) (c : ClientSocket) (r : Result ClientSocket) (n : Message) (pipe_ok : Bool)
    → ((d : ClientSocket)
        → r ≡ ok d
        → (d.status ≡ reading) × (d.seq_no ≡ n.seq_no) × (d.thread_no ≡ n.thread_no))
    → Handed (
        accept_ended (elim r as (λ _. Chooser × ClientSocket × Result Message) [
          | throw e ↦ (ch, c, throw e)
          | ok d ↦ (ch, d, if pipe_ok then ok n else throw (ipc_exception err_ipc_error))
        ]))
unfolding accept_ended
handed ch c (throw e) n pipe_ok h = tt
handed ch c (ok d) n true h = h d refl
handed ch c (ok d) n false h = tt

process_accept-Handed :
    (accepted : Bool) (thread_num fd : ℤ) (ip : Bytes) (port : ℤ) (now : TimeVal) (pipe_ok : Bool)
    (ch : Chooser) (c : ClientSocket)
    → Handed (process_accept accepted thread_num fd ip port now pipe_ok ch c)
unfolding process_accept hand_over
process_accept-Handed false thread_num fd ip port now pipe_ok ch c = tt
process_accept-Handed true thread_num fd ip port now pipe_ok ch c =
    let chosen = choose_thread thread_num ch.thread_index in
    let seq_no = (ch.seq_no + 1) % 2 ^ 32 in
    handed (record { thread_index = chosen.1; seq_no = seq_no }) c
      (Client.init chosen.0 seq_no ip port now c)
      (record { thread_no = chosen.0; fd = fd; seq_no = seq_no }) pipe_ok
      (init-reading chosen.0 seq_no ip port now c)

==-same : (m n : ℕ) → m ≡ n → (m == n) ≡ true
==-same m n h = ground (arith, h)

add_event-none :
    (event_ok : Bool) (event : Option ℕ)
    → event_ok ≡ true
    → event ≡ none
    → add_event event_ok read_mask event ≡ ok (some read_mask)
unfolding add_event
add_event-none event_ok event h free = rw (h, free)

-- A client that was accepted and whose message is in the pipe is taken over by the thread that reads the
-- message, when the address is admitted, the descriptor is free and the queue of the thread takes it:
-- the thread then listens to the very client that was handed over, and to no connection for it, and the
-- message went to the thread of the client.
pub process_dispatch-process_accept :
    (junk : ℕ → ℕ → ℕ) (turn : Turn) (text : Exception → Bytes) (s : Service) (x : Exchange)
    (accepted : Bool) (thread_num fd : ℤ) (ip : Bytes) (port : ℤ) (now : TimeVal) (pipe_ok : Bool)
    (ch ch' : Chooser) (c : ClientSocket) (n : Message)
    → process_accept accepted thread_num fd ip port now pipe_ok ch c ≡ (ch', x.client, ok n)
    → check_ip s.access x.client.ip ≡ ok tt
    → turn.event_ok ≡ true
    → x.client_event ≡ none
    → x.api_event ≡ none
    → (y : Exchange) × (process_dispatch junk turn text (some n) s x ≡ (y, ok tt))
      × Reads y
      × (y.client ≡ x.client)
      × (n.thread_no ≡ y.client.thread_no)
unfolding process_dispatch taken_over
process_dispatch-process_accept junk turn text s x accepted thread_num fd ip port now pipe_ok ch ch'
      c n h admitted event_ok free quiet =
    let (status, number, thread) =
      subst Handed h (process_accept-Handed accepted thread_num fd ip port now pipe_ok ch c) in
    (
      record x { client_event = some read_mask },
      ap (taken_over junk turn text s x) (
          if_false _ _ _ (ap not (==-same n.seq_no x.client.seq_no (sym number)))
          ∙ ap (λ r. r >>= λ u. add_event turn.event_ok read_mask x.client_event) admitted
          ∙ add_event-none turn.event_ok x.client_event event_ok free),
      (status, refl, quiet),
      refl,
      sym thread,
    )
