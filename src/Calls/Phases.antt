-- ===== src/Calls/Phases.antt =====
-- The phases of a call over a relay connection (`CApiBase::process` with `CRelayApi`), and the step
-- that each of them makes.
use mathlib.Core.Path.{subst}
use relay_proxy.Base.{
  ◌≤◌, ◌<◌, ◌≡◌, ◌⊎◌, inl, inr, refl, sym, ap, ◌∙◌, ◌++◌, Bytes, true, false, not, ◌&&◌, none, some,
  length, ok, throw, ◌>>=◌, >>=-eq-ok, Bool-cases,
}
use relay_proxy.Socket as Socket
use relay_proxy.Base.{assertion}
use relay_proxy.Socket.{
  Io, Ret, SocketBase, Receiver, recv_ok, recv_have_more, send_ok, send_have_more, connecting,
  init_ok, receive, send,
}
use relay_proxy.Socket.Head.{Incoming, frame}
use relay_proxy.Socket.Framing.{receive-Received, if_true, if_false}
use relay_proxy.Socket.Send.{IsOutgoing, send-Sent, encode-IsOutgoing, encode-left, all_out}
use relay_proxy.Socket.Receive.{of_ok}
use relay_proxy.Calls.{
  Kernel, State, Connection, relay, ready, initing, send_request, read_answer, read_done,
  process_init, process_send, process_read, init, init_by, relay_init, encode_by, send_step,
  recv_step, receive_by,
}

module _ (p ans rest out : Bytes) where
  -- Before the request is encoded: the connect may be under way.
  pub record Waiting (s : State) : Type 0 where
    pub by_relay : s.api.protocol ≡ relay
    pub request : s.api.req_packet ≡ some p
    pub no_head : s.api.receiver.is_head ≡ false
    pub nothing_sent : s.sent ≡ out
    pub coming : s.stream ≡ frame ans ++ rest
    pub at : (s.api.status ≡ ready) ⊎ (s.api.status ≡ initing)

  pub record Sending (s : State) : Type 0 where
    pub by_relay : s.api.protocol ≡ relay
    pub no_head : s.api.receiver.is_head ≡ false
    pub outgoing : IsOutgoing (frame p) out s.api.receiver.base s.sent
    pub more : s.api.receiver.base.processed < length (frame p)
    pub coming : s.stream ≡ frame ans ++ rest
    pub at : s.api.status ≡ send_request

  pub record Reading (s : State) : Type 0 where
    pub by_relay : s.api.protocol ≡ relay
    pub all_sent : s.sent ≡ out ++ frame p
    pub incoming : Incoming (frame ans) rest s.api.receiver s.stream
    pub at : s.api.status ≡ read_answer

  pub record Answered (s : State) : Type 0 where
    pub by_relay : s.api.protocol ≡ relay
    pub all_sent : s.sent ≡ out ++ frame p
    pub answer : s.api.receiver.base.process_buf ≡ frame ans
    pub left : s.stream ≡ rest
    pub at : s.api.status ≡ read_done

  abbrev pub Connected : Ret × State → Type 0
  Connected (ret, t) = ((ret ≡ connecting) × Waiting t) ⊎ ((ret ≡ init_ok) × Waiting t)

  relay_init-Connected :
      (k : Kernel) (s : State) (t : Ret × State) → Waiting s → relay_init k s ≡ ok t → Connected t
  unfolding relay_init
  relay_init-Connected k s t w h =
      elim (Bool-cases (not s.api.is_connecting && not s.api.is_open)) [
        | inl new ↦ elim (Bool-cases k.connect_ok) [
          | inl good ↦ subst Connected (of_ok _ _ (rw (new, good) at h)) (
              inl (
                refl,
                record {
                  by_relay = w.by_relay;
                  request = w.request;
                  no_head = w.no_head;
                  nothing_sent = w.nothing_sent;
                  coming = w.coming;
                  at = inr refl;
                },
              ))
          | inr bad ↦ absurd (cc (rw (new, bad) at h))
        ]
        | inr old ↦ elim (Bool-cases k.connected_ok) [
          | inl good ↦ subst Connected (of_ok _ _ (rw (old, good) at h)) (
              inr (
                refl,
                record {
                  by_relay = w.by_relay;
                  request = w.request;
                  no_head = w.no_head;
                  nothing_sent = w.nothing_sent;
                  coming = w.coming;
                  at = w.at;
                },
              ))
          | inr bad ↦ absurd (cc (rw (old, bad) at h))
        ]
      ]

  pub init-Connected :
      (k : Kernel) (s : State) (t : Ret × State) → Waiting s → init k s ≡ ok t → Connected t
  unfolding init init_by
  init-Connected k s t w h = elim (Bool-cases s.api.is_init) [
    | inl on ↦ subst Connected (of_ok _ _ (sym (if_true s.api.is_init _ _ on) ∙ h)) (inr (refl, w))
    | inr off ↦
        let (u, e, g) =
          >>=-eq-ok (init_by s.api.protocol k s) _ (sym (if_false s.api.is_init _ _ off) ∙ h) in
        marked u t (relay_init-Connected k s u w (sym (ap (λ x. init_by x k s) w.by_relay) ∙ e)) g
  ]
    where
      marked :
          (u t : Ret × State)
          → Connected u
          → elim u.0 [
            | init_ok ↦ ok (init_ok, record u.1 { api = record u.1.api { is_init = true } })
            | other ↦ ok (other, u.1)
          ]
            ≡ ok t
          → Connected t
      marked u t c g = elim c [
        | inl (e, w') ↦ subst Connected (of_ok _ _ (rw e at g)) (inl (refl, w'))
        | inr (e, w') ↦ subst Connected (of_ok _ _ (rw e at g)) (
            inr (
              refl,
              record {
                by_relay = w'.by_relay;
                request = w'.request;
                no_head = w'.no_head;
                nothing_sent = w'.nothing_sent;
                coming = w'.coming;
                at = w'.at;
              },
            ))
      ]

  abbrev pub Begun : Ret × State → Type 0
  Begun (ret, t) = ((ret ≡ connecting) × Waiting t) ⊎ ((ret ≡ init_ok) × Sending t)

  pub encode_by-relay :
      (reserve : Bytes) (a : Connection)
      → a.protocol ≡ relay
      → a.req_packet ≡ some p
      → encode_by a.protocol reserve a
        ≡ ok (record a { receiver = record a.receiver { base = Socket.encode p } })
  unfolding encode_by
  encode_by-relay reserve a r q =
      ap (λ x. encode_by x reserve a) r
      ∙ ap
          (λ o. elim o [
            | none ↦ throw assertion
            | some packet ↦
                ok (record a { receiver = record a.receiver { base = Socket.encode packet } })
          ])
          q

  -- The packet is encoded as soon as the connection is there.
  encoded :
      (k : Kernel) (s : State) (t : Ret × State)
      → Waiting s
      → (encode_by s.api.protocol k.reserve s.api >>= λ a.
          ok (init_ok, record s { api = record a { status = send_request } }))
        ≡ ok t
      → Begun t
  encoded k s t w h =
      subst Begun (of_ok _ _ (rw (encode_by-relay k.reserve s.api w.by_relay w.request) at h)) (
        inr (
          refl,
          record {
            by_relay = w.by_relay;
            no_head = w.no_head;
            outgoing =
                subst (λ o. IsOutgoing (frame p) out (Socket.encode p) o) (sym w.nothing_sent)
                  (encode-IsOutgoing p out);
            more = encode-left p;
            coming = w.coming;
            at = refl;
          },
        ))

  pub process_init-Begun :
      (k : Kernel) (s : State) (t : Ret × State) → Waiting s → process_init k s ≡ ok t → Begun t
  unfolding process_init
  process_init-Begun k s t w h =
      let (u, e, g) = >>=-eq-ok (init k s) _ h in
      elim (init-Connected k s u w e) [
        | inl (c, w') ↦ subst Begun (of_ok _ _ (rw c at g)) (inl (refl, w'))
        | inr (c, w') ↦ encoded k u.1 t w' (rw c at g)
      ]

  abbrev pub Progressing : Ret × State → Type 0
  Progressing (ret, t) = ((ret ≡ send_have_more) × Sending t) ⊎ ((ret ≡ send_ok) × Reading t)

  abbrev pub Moved : Ret × State → Type 0
  Moved (ret, t) =
      ((ret ≡ send_have_more) × Sending t)
      ⊎ ((ret ≡ send_ok)
          × (t.api.protocol ≡ relay)
          × (t.api.receiver.is_head ≡ false)
          × (t.sent ≡ out ++ frame p)
          × (t.stream ≡ frame ans ++ rest))

  pub send_step-Moved :
      (k : Kernel) (s : State) (t : Ret × State) → Sending s → send_step k s ≡ ok t → Moved t
  unfolding send_step
  send_step-Moved k s t w h =
      let ((ret, b, o), e, g) = >>=-eq-ok (send k.write s.api.receiver.base s.sent) _ h in
      let (i, outcome) =
        send-Sent k.write (frame p) out s.api.receiver.base s.sent (ret, b, o) w.outgoing w.more
          e in
      subst Moved (of_ok _ _ g) (elim outcome [
        | inl (done, full) ↦
            inr (done, w.by_relay, w.no_head, all_out (frame p) out b o i full, w.coming)
        | inr (part, more) ↦ inl (
          part,
          record {
            by_relay = w.by_relay;
            no_head = w.no_head;
            outgoing = i;
            more = more;
            coming = w.coming;
            at = w.at;
          },
        )
      ])

  pub process_send-Progressing :
      (k : Kernel) (s : State) (t : Ret × State)
      → Sending s
      → process_send k s ≡ ok t
      → Progressing t
  unfolding process_send
  process_send-Progressing k s t w h =
      let (u, e, g) = >>=-eq-ok (send_step k s) _ h in
      elim (send_step-Moved k s u w e) [
        | inl (c, w') ↦ subst Progressing (of_ok _ _ (rw c at g)) (inl (refl, w'))
        | inr (c, r, n, o, m) ↦ subst Progressing (of_ok _ _ (rw c at g)) (
            inr (
              refl,
              record {
                by_relay = r;
                all_sent = o;
                incoming = record { joined = m; state = inl (n, refl) };
                at = refl;
              },
            ))
      ]

  abbrev pub Arriving : Ret × State → Type 0
  Arriving (ret, t) = ((ret ≡ recv_have_more) × Reading t) ⊎ ((ret ≡ recv_ok) × Answered t)

  abbrev pub Read : Ret × State → Type 0
  Read (ret, t) =
      ((ret ≡ recv_have_more) × Reading t)
      ⊎ ((ret ≡ recv_ok)
          × (t.api.protocol ≡ relay)
          × (t.sent ≡ out ++ frame p)
          × (t.api.receiver.base.process_buf ≡ frame ans)
          × (t.stream ≡ rest))

  module _ (lo : 1 ≤ length ans) (hi : length ans ≤ 31996) where
    pub recv_step-Read :
        (k : Kernel) (s : State) (t : Ret × State) → Reading s → recv_step k s ≡ ok t → Read t
    unfolding recv_step receive_by
    recv_step-Read k s t w h =
        let ((ret, r, o), e, g) =
          >>=-eq-ok (receive_by s.api.protocol k.head k.body s.api.receiver s.stream) _ h in
        let e' : receive k.head k.body s.api.receiver s.stream ≡ ok (ret, r, o) =
          sym (ap (λ x. receive_by x k.head k.body s.api.receiver s.stream) w.by_relay) ∙ e in
        subst Read (of_ok _ _ g)
          (elim (receive-Received k.head k.body ans rest s.api.receiver s.stream ret r o lo hi
            w.incoming e') [
              | inl (done, same, after) ↦ inr (done, w.by_relay, w.all_sent, same, after)
              | inr (part, on, i) ↦ inl (
                part,
                record { by_relay = w.by_relay; all_sent = w.all_sent; incoming = i; at = w.at },
              )
            ])

    pub process_read-Arriving :
        (k : Kernel) (s : State) (t : Ret × State)
        → Reading s
        → process_read k s ≡ ok t
        → Arriving t
    unfolding process_read
    process_read-Arriving k s t w h =
        let (u, e, g) = >>=-eq-ok (recv_step k s) _ h in
        elim (recv_step-Read k s u w e) [
          | inl (c, w') ↦ subst Arriving (of_ok _ _ (rw c at g)) (inl (refl, w'))
          | inr (c, r, o, b, m) ↦
              subst Arriving (of_ok _ _ (rw c at g))
                (inr (refl, record { by_relay = r; all_sent = o; answer = b; left = m; at = refl }))
        ]
