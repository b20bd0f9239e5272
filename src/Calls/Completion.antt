-- ===== src/Calls/Completion.antt =====
-- How many steps a call over a relay connection takes (`CApiBase::process` with `CRelayApi`).
use relay_proxy.Base.{
  ℕ, ◌+◌, ◌-◌, ◌≤◌, ◌<◌, ◌≡◌, ◌⊎◌, inl, inr, refl, ap, ◌∙◌, ◌++◌, Bytes, true, false, not, ◌&&◌,
  if◌then◌else◌, List, [], ◌∷◌, length, ok, ◌>>=◌, All, Bool-cases, arith,
}
use relay_proxy.Socket as Socket
use relay_proxy.Socket.{
  Receiver, Ret, Io, ready, again, failed, recv_ok, recv_have_more, send_ok, send_have_more,
  connecting, init_ok, receive, send,
}
use relay_proxy.Socket.Head.{frame}
use relay_proxy.Socket.Arrival.{
  IsArriving, receive-Advances, Incoming-lacking, lacking, lacking-off, length-frame,
}
use relay_proxy.Socket.Send.{IsReady, send-ready}
use relay_proxy.Calls.{
  Kernel, State, Connection, no_bytes, init, init_by, relay_init, relay, initing, send_request,
  read_answer, read_done, over, process, process_at, process_read, process_send, process_init,
  recv_step, send_step, receive_by, encode, decode,
}
use relay_proxy.Calls.Phases.{
  Waiting, Sending, Reading, init-Connected, encode_by-relay, process_init-Begun, recv_step-Read,
  send_step-Moved, process_send-Progressing,
}
use relay_proxy.Calls.Cycle.{run, run-exact, encode-Waiting}

-- A turn of the event loop at which the peer answers, takes a byte and has some bytes there.
pub record IsAnswering (k : Kernel) : Type 0 where
  pub connects : k.connect_ok ≡ true
  pub connected : k.connected_ok ≡ true
  pub reads : IsArriving (k.head, k.body)
  pub writes : IsReady k.write

arriving :
    (head body : Io)
    → IsArriving (head, body)
    → (j : ℕ) × (k : ℕ) × (head ≡ ready j) × (body ≡ ready k) × (4 ≤ j) × (1 ≤ k)
arriving (ready j) (ready k) (h, b) = (j, k, refl, refl, h, b)
arriving again body h = absurd h
arriving failed body h = absurd h
arriving (ready j) again h = absurd h
arriving (ready j) failed h = absurd h

writing : (io : Io) → IsReady io → (k : ℕ) × (io ≡ ready k) × (1 ≤ k)
writing (ready k) h = (k, refl, h)
writing again h = absurd h
writing failed h = absurd h

module _ (p ans rest out : Bytes) where
  recv_step-Advances :
      (k : Kernel) (s : State)
      → 1 ≤ length ans
      → length ans ≤ 31996
      → IsAnswering k
      → Reading p ans rest out s
      → (ret : Ret) × (t : State) × (recv_step k s ≡ ok (ret, t))
        × (lacking ans t.api.receiver < lacking ans s.api.receiver)
  unfolding recv_step receive_by
  recv_step-Advances k s lo hi g w =
      let (i, j, h, b, hi', lo') = arriving k.head k.body g.reads in
      let (ret, r, o, e, less) =
        receive-Advances i j ans rest s.api.receiver s.stream hi' lo' lo hi w.incoming in
      (
        ret,
        record s { api = record s.api { receiver = r }; stream = o },
        ap
              (λ x. receive_by x k.head k.body s.api.receiver s.stream >>= λ (ret, r, rest).
                ok (ret, record s { api = record s.api { receiver = r }; stream = rest }))
              w.by_relay
            ∙ ap
                (λ x. x >>= λ (ret, r, rest).
                  ok (ret, record s { api = record s.api { receiver = r }; stream = rest }))
                (ap (λ x. receive x k.body s.api.receiver s.stream) h
                  ∙ ap (λ x. receive (ready i) x s.api.receiver s.stream) b
                  ∙ e),
        less,
      )

  -- A step while the answer comes in.
  process_read-Advances :
      (k : Kernel) (s : State)
      → 1 ≤ length ans
      → length ans ≤ 31996
      → IsAnswering k
      → Reading p ans rest out s
      → ((t : State) × (process k s ≡ ok (recv_ok, t)))
        ⊎ ((t : State) × (process k s ≡ ok (recv_have_more, t))
            × Reading p ans rest out t
            × (lacking ans t.api.receiver < lacking ans s.api.receiver))
  unfolding process process_at process_read
  process_read-Advances k s lo hi g w =
      let (ret, t, e, less) = recv_step-Advances k s lo hi g w in
      let at : process k s ≡ process_read k s = ap (λ x. process_at x k s) w.at in
      elim (recv_step-Read p ans rest out lo hi k s (ret, t) w e) [
        | inl (r, w') ↦ inr (t, at ∙ rw (e, r) refl, w', less)
        | inr (r, _, _, _, _) ↦
            inl (record t { api = record t.api { status = read_done } }, at ∙ rw (e, r) refl)
      ]

  Reading-lacking :
      (s : State) → 1 ≤ length ans → Reading p ans rest out s → 1 ≤ lacking ans s.api.receiver
  Reading-lacking s lo w = elim (Bool-cases s.api.receiver.is_head) [
    | inl on ↦ Incoming-lacking ans rest s.api.receiver s.stream w.incoming on
    | inr off ↦ omega (arith, lacking-off ans s.api.receiver off, lo)
  ]

  run-Reading :
      (ks : List Kernel) (s : State)
      → 1 ≤ length ans
      → length ans ≤ 31996
      → All IsAnswering ks
      → Reading p ans rest out s
      → lacking ans s.api.receiver ≤ length ks
      → (t : State) × (run ks s ≡ ok (recv_ok, t))
  unfolding run
  run-Reading [] s lo hi gs w n = absurd (omega (arith, n, Reading-lacking s lo w))
  run-Reading (k ∷ ks) s lo hi (g, gs) w n = elim (process_read-Advances k s lo hi g w) [
    | inl (t, e) ↦ (t, rw e refl)
    | inr (u, e, w', less) ↦
        let (t, h) = run-Reading ks u lo hi gs w' (omega (arith, n, less)) in (t, rw e h)
  ]

  -- What is still to be sent.
  abbrev unsent : State → ℕ
  unsent s = length (frame p) - s.api.receiver.base.processed

  process_send-Advances :
      (k : Kernel) (s : State)
      → IsAnswering k
      → Sending p ans rest out s
      → ((t : State) × (process k s ≡ ok (send_ok, t)) × Reading p ans rest out t)
        ⊎ ((t : State) × (process k s ≡ ok (send_have_more, t))
            × Sending p ans rest out t
            × (unsent t < unsent s))
  unfolding process process_at process_send send_step
  process_send-Advances k s g w =
      let (m, io, lo) = writing k.write g.writes in
      let (ret, b, o, e, up) =
        send-ready m (frame p) out s.api.receiver.base s.sent lo w.outgoing w.more in
      let at : process k s ≡ process_send k s = ap (λ x. process_at x k s) w.at in
      let u : State = record s {
        api = record s.api { receiver = record s.api.receiver { base = b } };
        sent = o;
      } in
      let step : send_step k s ≡ ok (ret, u) = rw (io, e) refl in
      let sent_all : State = record u {
        api = record u.api {
          receiver = record u.api.receiver { base = no_bytes };
          status = read_answer;
        };
      } in
      elim (send_step-Moved p ans rest out k s (ret, u) w step) [
        | inl (r, w') ↦ inr (u, at ∙ rw (step, r) refl, w', omega (arith, up, w.more))
        | inr (r, _, _, _, _) ↦
            let done : process_send k s ≡ ok (send_ok, sent_all) = rw (step, r) refl in
            inl (sent_all, at ∙ done, reading k s sent_all w done)
      ]
    where
      reading :
          (k : Kernel) (s t : State)
          → Sending p ans rest out s
          → process_send k s ≡ ok (send_ok, t)
          → Reading p ans rest out t
      reading k s t w e = elim (process_send-Progressing p ans rest out k s (send_ok, t) w e) [
        | inl (r, _) ↦ absurd (cc r)
        | inr (_, w') ↦ w'
      ]

  lacking_all : (r : Receiver) → lacking ans r ≤ length ans + 4
  unfolding lacking
  lacking_all r = elim (Bool-cases r.is_head) [
    | inl on ↦ rw on (omega arith)
    | inr off ↦ rw off (omega arith)
  ]

  run-Sending :
      (ks : List Kernel) (s : State)
      → 1 ≤ length ans
      → length ans ≤ 31996
      → All IsAnswering ks
      → Sending p ans rest out s
      → unsent s + (length ans + 4) ≤ length ks
      → (t : State) × (run ks s ≡ ok (recv_ok, t))
  unfolding run
  run-Sending [] s lo hi gs w n = absurd (omega (arith, n))
  run-Sending (k ∷ ks) s lo hi (g, gs) w n = elim (process_send-Advances k s g w) [
    | inl (u, e, w') ↦
        let (t, h) =
          run-Reading ks u lo hi gs w' (omega (arith, n, w.more, lacking_all u.api.receiver)) in
        (t, rw e h)
    | inr (u, e, w', less) ↦
        let (t, h) = run-Sending ks u lo hi gs w' (omega (arith, n, less)) in (t, rw e h)
  ]

  -- The steps before the connection is there.
  abbrev unopened : State → ℕ
  unopened s = if not s.api.is_connecting && not s.api.is_open then 1 else 0

  init-opens :
      (k : Kernel) (s : State)
      → IsAnswering k
      → s.api.protocol ≡ relay
      → ((t : State) × (init k s ≡ ok (connecting, t)) × (unopened t < unopened s))
        ⊎ ((t : State) × (init k s ≡ ok (init_ok, t)))
  unfolding init init_by relay_init
  init-opens k s g r = elim (Bool-cases s.api.is_init) [
    | inl on ↦ inr (s, rw on refl)
    | inr off ↦ elim (Bool-cases (not s.api.is_connecting && not s.api.is_open)) [
      | inl new ↦ inl (
        record s { api = record s.api { is_open = true; status = initing; is_connecting = true } },
        rw (off, r, new, g.connects) refl,
        rw new (omega arith),
      )
      | inr old ↦ inr (
        record s { api = record s.api { is_connecting = false; is_init = true } },
        rw (off, r, old, g.connected) refl,
      )
    ]
  ]

  process_init-Advances :
      (k : Kernel) (s : State)
      → IsAnswering k
      → Waiting p ans rest out s
      → ((t : State) × (process k s ≡ ok (init_ok, t)) × Sending p ans rest out t)
        ⊎ ((t : State) × (process k s ≡ ok (connecting, t))
            × Waiting p ans rest out t
            × (unopened t < unopened s))
  unfolding process process_at process_init
  process_init-Advances k s g w = elim (init-opens k s g w.by_relay) [
    | inl (u, e, less) ↦ inr (u, at ∙ rw e refl, waits k s u w (rw e refl), less)
    | inr (u, e) ↦
        let w' = waiting k s u w e in
        let t : State = record u {
          api = record u.api {
            receiver = record u.api.receiver { base = Socket.encode p };
            status = send_request;
          };
        } in
        let done : process_init k s ≡ ok (init_ok, t) =
          rw (e, encode_by-relay p ans rest out k.reserve u.api w'.by_relay w'.request) refl in
        inl (t, at ∙ done, begun k s t w done)
  ]
    where
      at : process k s ≡ process_init k s
      at = elim w.at [ inl a ↦ ap (λ x. process_at x k s) a | inr a ↦ ap (λ x. process_at x k s) a ]

      waits :
          (k : Kernel) (s t : State)
          → Waiting p ans rest out s
          → process_init k s ≡ ok (connecting, t)
          → Waiting p ans rest out t
      waits k s t w e = elim (process_init-Begun p ans rest out k s (connecting, t) w e) [
        | inl (_, w') ↦ w'
        | inr (r, _) ↦ absurd (cc r)
      ]

      waiting :
          (k : Kernel) (s t : State)
          → Waiting p ans rest out s
          → init k s ≡ ok (init_ok, t)
          → Waiting p ans rest out t
      waiting k s t w e = elim (init-Connected p ans rest out k s (init_ok, t) w e) [
        | inl (r, _) ↦ absurd (cc r)
        | inr (_, w') ↦ w'
      ]

      begun :
          (k : Kernel) (s t : State)
          → Waiting p ans rest out s
          → process_init k s ≡ ok (init_ok, t)
          → Sending p ans rest out t
      begun k s t w e = elim (process_init-Begun p ans rest out k s (init_ok, t) w e) [
        | inl (r, _) ↦ absurd (cc r)
        | inr (_, w') ↦ w'
      ]

  frame-positive : (s : State) → Sending p ans rest out s → unsent s ≤ length p + 4
  frame-positive s w = omega (arith, length-frame p)

  run-Waiting :
      (ks : List Kernel) (s : State)
      → 1 ≤ length ans
      → length ans ≤ 31996
      → All IsAnswering ks
      → Waiting p ans rest out s
      → unopened s + 1 + (length p + 4) + (length ans + 4) ≤ length ks
      → (t : State) × (run ks s ≡ ok (recv_ok, t))
  unfolding run
  run-Waiting [] s lo hi gs w n = absurd (omega (arith, n))
  run-Waiting (k ∷ ks) s lo hi (g, gs) w n = elim (process_init-Advances k s g w) [
    | inl (u, e, w') ↦
        let (t, h) = run-Sending ks u lo hi gs w' (omega (arith, n, frame-positive u w')) in
        (t, rw e h)
    | inr (u, e, w', less) ↦
        let (t, h) = run-Waiting ks u lo hi gs w' (omega (arith, n, less)) in (t, rw e h)
  ]

  unopened_bound : (s : State) → unopened s ≤ 1
  unopened_bound s = elim (Bool-cases (not s.api.is_connecting && not s.api.is_open)) [
    | inl new ↦ rw new (omega arith)
    | inr old ↦ rw old (omega arith)
  ]

-- A call over a relay connection ends: when a packet was given to an idle connection and at each turn
-- of the event loop the connect holds, the kernel takes at least one byte, the whole length of the
-- answer is there when it is awaited, and a byte of its body, then ten turns more than the packet and
-- the answer have bytes are enough, and `decode` then gives what the server framed. The answer has
-- from 1 to 31996 bytes, and no part of an earlier one is in the buffer.
pub run-ends :
    (ks : List Kernel) (p service ans rest out : Bytes) (a b : Connection)
    → a.protocol ≡ relay
    → a.receiver.is_head ≡ false
    → 1 ≤ length ans
    → length ans ≤ 31996
    → encode p service a ≡ ok b
    → All IsAnswering ks
    → length p + length ans + 10 ≤ length ks
    → (t : State) × (run ks (record { api = b; stream = frame ans ++ rest; sent = out })
        ≡ ok (recv_ok, t))
      × (decode t.api ≡ ok (ans, record t.api { status = over }))
run-ends ks p service ans rest out a b r n lo hi e gs m =
    let s : State = record { api = b; stream = frame ans ++ rest; sent = out } in
    let w = encode-Waiting p service ans rest out a b r n e in
    let (t, h) =
      run-Waiting p ans rest out ks s lo hi gs w
        (omega (arith, m, unopened_bound p ans rest out s)) in
    let (_, _, read) = run-exact ks p service ans rest out a b t r n lo hi e h in (t, h, read)
