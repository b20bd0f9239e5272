-- ===== src/Calls/Numbers.antt =====
-- What `process` leaves as it was: the number of the client that the connection serves
-- (`CApiBase::client_seq_no`).
use mathlib.Core.Path.{subst}
use relay_proxy.Base.{
  ℕ, ◌≡◌, inl, inr, refl, sym, ap, ◌∙◌, Bytes, true, false, not, ◌&&◌, Option, none, some, Result,
  ok, throw, ◌>>=◌, >>=-eq-ok, Bool-cases, assertion, [],
}
use relay_proxy.Package.{Package}
use relay_proxy.Socket as Socket
use relay_proxy.Socket.{Ret, recv_ok, send_ok, connecting, init_ok, send}
use relay_proxy.Socket.Receive.{of_ok}
use relay_proxy.Socket.Framing.{if_true, if_false}
use relay_proxy.Calls.{
  Kernel, State, Connection, ApiStatus, LoginStatus, Protocol, relay, middle, no_connect,
  connecting_now, sending, receiving, login_ok, free, ready, connect, time_out, closed, initing,
  send_request, read_answer, read_done, over, receive_by, answer_of, put_package, follow,
  encode_package, encode_login_packet, decode_login_packet, encode_by, send_step, recv_step,
  relay_init, login_send, login_receive, middle_init_at, init_by, init, process, process_at,
  process_init, process_send, process_read, set_api, set_base, rewind, no_bytes,
}
use relay_proxy.Calls.Login.{send_ok_or, recv_ok_or, init_ok_or, if_check}

abbrev Serves : ℕ → Ret × State → Type 0
Serves n (ret, t) = t.api.client_seq_no ≡ n

module _ (n : ℕ) where
  send_step-Serves :
      (k : Kernel) (s : State) (t : Ret × State)
      → s.api.client_seq_no ≡ n
      → send_step k s ≡ ok t
      → Serves n t
  unfolding send_step
  send_step-Serves k s t c h =
      let ((ret, b, o), e, g) = >>=-eq-ok (send k.write s.api.receiver.base s.sent) _ h in
      subst (Serves n)
        (of_ok
          (
            ret,
            record s {
              api = record s.api { receiver = record s.api.receiver { base = b } };
              sent = o;
            },
          )
          t g)
        c

  recv_step-Serves :
      (k : Kernel) (s : State) (t : Ret × State)
      → s.api.client_seq_no ≡ n
      → recv_step k s ≡ ok t
      → Serves n t
  unfolding recv_step
  recv_step-Serves k s t c h =
      let ((ret, r, o), e, g) =
        >>=-eq-ok (receive_by s.api.protocol k.head k.body s.api.receiver s.stream) _ h in
      subst (Serves n)
        (of_ok (ret, record s { api = record s.api { receiver = r }; stream = o }) t g) c

  put_package-number :
      (o : Option (Package × Bytes)) (a b : Connection)
      → a.client_seq_no ≡ n
      → put_package o a ≡ ok b
      → b.client_seq_no ≡ n
  unfolding put_package
  put_package-number none a b c h = absurd (cc h)
  put_package-number (some (p, buf)) a b c h = sym (ap (λ x. x.client_seq_no) (of_ok _ b h)) ∙ c

  encode_package-number :
      (reserve : Bytes) (m : ℕ) (service content : Bytes) (a b : Connection)
      → a.client_seq_no ≡ n
      → encode_package reserve m service content a ≡ ok b
      → b.client_seq_no ≡ n
  unfolding encode_package
  encode_package-number reserve m service content a b c h = put_package-number _ a b c h

  encode_by-number :
      (p : Protocol) (reserve : Bytes) (a b : Connection)
      → a.client_seq_no ≡ n
      → encode_by p reserve a ≡ ok b
      → b.client_seq_no ≡ n
  unfolding encode_by
  encode_by-number middle reserve a b c h =
      let (service, e, g) = >>=-eq-ok (follow a.other_info) _ h in
      let (packet, e', g') = >>=-eq-ok (follow a.req_packet) _ g in
      encode_package-number reserve 3 service packet a b c g'
  encode_by-number relay reserve a b c h = with_packet a.req_packet h
    where
      with_packet :
          (o : Option Bytes)
          → elim o as (λ _. Result Connection) [
            | none ↦ throw assertion
            | some packet ↦ ok (set_base (Socket.encode packet) a)
          ]
            ≡ ok b
          → b.client_seq_no ≡ n
      with_packet none h = absurd (cc h)
      with_packet (some packet) h = sym (ap (λ x. x.client_seq_no) (of_ok _ b h)) ∙ c

  login_send-Serves :
      (k : Kernel) (s : State) (t : Ret × State)
      → s.api.client_seq_no ≡ n
      → login_send k s ≡ ok t
      → Serves n t
  unfolding login_send
  login_send-Serves k s t c h =
      let (u, e, g) = >>=-eq-ok (send_step k s) _ h in
      let c' = send_step-Serves k s u c e in
      let v : State = record u.1 {
        api = record (set_base (rewind u.1.api.receiver.base) u.1.api) { login_status = receiving };
      } in
      elim (send_ok_or u.0) [
        | inl done ↦ subst (Serves n) (of_ok (send_ok, v) t (rw done at g)) c'
        | inr other ↦
            subst (Serves n) (of_ok u t (sym (other (ok (send_ok, v)) (λ r. ok (r, u.1))) ∙ g)) c'
      ]

  login_receive-Serves :
      (k : Kernel) (s : State) (t : Ret × State)
      → s.api.client_seq_no ≡ n
      → login_receive k s ≡ ok t
      → Serves n t
  unfolding login_receive decode_login_packet
  login_receive-Serves k s t c h =
      let (u, e, g) = >>=-eq-ok (recv_step k s) _ h in
      let c' = recv_step-Serves k s u c e in
      elim (recv_ok_or u.0) [
        | inl done ↦
            let (a, e₁, g₁) = >>=-eq-ok (decode_login_packet u.1.api) _ (rw done at g) in
            let (p, e₂, g₂) = >>=-eq-ok (answer_of 2 u.1.api.receiver.base) _ e₁ in
            sym (ap (λ x. x.1.api.client_seq_no) (of_ok (init_ok, set_api a u.1) t g₁))
            ∙ sym (
                ap (λ x. x.client_seq_no) (of_ok (record u.1.api { login_status = login_ok }) a g₂))
            ∙ c'
        | inr other ↦
            subst (Serves n)
              (of_ok u t (
                sym (
                  other (decode_login_packet u.1.api >>= λ a. ok (init_ok, set_api a u.1))
                    (λ r. ok (r, u.1)))
                ∙ g))
              c'
      ]

  middle_init_at-Serves :
      (l : LoginStatus) (k : Kernel) (s : State) (t : Ret × State)
      → s.api.client_seq_no ≡ n
      → middle_init_at l k s ≡ ok t
      → Serves n t
  unfolding middle_init_at encode_login_packet
  middle_init_at-Serves no_connect k s t c h = elim (Bool-cases s.api.is_open) [
    | inl used ↦ absurd (cc (rw used at h))
    | inr shut ↦ elim (Bool-cases k.connect_ok) [
      | inr bad ↦ absurd (cc (rw (shut, bad) at h))
      | inl good ↦
          subst (Serves n)
            (of_ok _ t (sym (if_check _ _ _ (ap not shut) ∙ if_check _ _ _ good) ∙ h)) c
    ]
  ]
  middle_init_at-Serves connecting_now k s t c h = elim (Bool-cases k.connected_ok) [
    | inr bad ↦ absurd (cc (rw bad at h))
    | inl good ↦
        let (a, e, g) =
          >>=-eq-ok (encode_login_packet k.reserve s.api) _ (sym (if_check _ _ _ good) ∙ h) in
        login_send-Serves k (record s { api = record a { login_status = sending } }) t
          (encode_package-number k.reserve 1 [] _ s.api a c e) g
  ]
  middle_init_at-Serves sending k s t c h = login_send-Serves k s t c h
  middle_init_at-Serves receiving k s t c h = login_receive-Serves k s t c h
  middle_init_at-Serves login_ok k s t c h = absurd (cc h)

  init_by-Serves :
      (p : Protocol) (k : Kernel) (s : State) (t : Ret × State)
      → s.api.client_seq_no ≡ n
      → init_by p k s ≡ ok t
      → Serves n t
  unfolding init_by relay_init
  init_by-Serves middle k s t c h = middle_init_at-Serves s.api.login_status k s t c h
  init_by-Serves relay k s t c h =
      elim (Bool-cases (not s.api.is_connecting && not s.api.is_open)) [
        | inl new ↦ elim (Bool-cases k.connect_ok) [
          | inr bad ↦ absurd (cc (rw (new, bad) at h))
          | inl good ↦
              subst (Serves n)
                (of_ok
                  (
                    connecting,
                    set_api
                        (record s.api { is_open = true; status = initing; is_connecting = true }) s,
                  )
                  t (rw (new, good) at h))
                c
        ]
        | inr old ↦ elim (Bool-cases k.connected_ok) [
          | inr bad ↦ absurd (cc (rw (old, bad) at h))
          | inl good ↦
              subst (Serves n)
                (of_ok (init_ok, set_api (record s.api { is_connecting = false }) s) t
                  (rw (old, good) at h))
                c
        ]
      ]

  init-Serves :
      (k : Kernel) (s : State) (t : Ret × State)
      → s.api.client_seq_no ≡ n
      → init k s ≡ ok t
      → Serves n t
  unfolding init
  init-Serves k s t c h = elim (Bool-cases s.api.is_init) [
    | inl on ↦ subst (Serves n) (of_ok (init_ok, s) t (sym (if_true s.api.is_init _ _ on) ∙ h)) c
    | inr off ↦
        let (u, e, g) =
          >>=-eq-ok (init_by s.api.protocol k s) _ (sym (if_false s.api.is_init _ _ off) ∙ h) in
        let c' = init_by-Serves s.api.protocol k s u c e in
        let v : State = record u.1 { api = record u.1.api { is_init = true } } in
        elim (init_ok_or u.0) [
          | inl done ↦ subst (Serves n) (of_ok (init_ok, v) t (rw done at g)) c'
          | inr other ↦
              subst (Serves n) (of_ok u t (sym (other (ok (init_ok, v)) (λ r. ok (r, u.1))) ∙ g)) c'
        ]
  ]

  process_init-Serves :
      (k : Kernel) (s : State) (t : Ret × State)
      → s.api.client_seq_no ≡ n
      → process_init k s ≡ ok t
      → Serves n t
  unfolding process_init
  process_init-Serves k s t c h =
      let (u, e, g) = >>=-eq-ok (init k s) _ h in
      let c' = init-Serves k s u c e in
      let go : Result (Ret × State) = encode_by u.1.api.protocol k.reserve u.1.api >>= λ a.
      ok (init_ok, record u.1 { api = record a { status = send_request } }) in
      elim (init_ok_or u.0) [
        | inl done ↦
            let (a, e₁, g₁) =
              >>=-eq-ok (encode_by u.1.api.protocol k.reserve u.1.api) _ (rw done at g) in
            sym (ap (λ x. x.1.api.client_seq_no) (of_ok _ t g₁))
            ∙ encode_by-number u.1.api.protocol k.reserve u.1.api a c' e₁
        | inr other ↦ subst (Serves n) (of_ok u t (sym (other go (λ r. ok (r, u.1))) ∙ g)) c'
      ]

  process_at-Serves :
      (x : ApiStatus) (k : Kernel) (s : State) (t : Ret × State)
      → s.api.client_seq_no ≡ n
      → process_at x k s ≡ ok t
      → Serves n t
  unfolding process_at process_send process_read
  process_at-Serves free k s t c h = process_init-Serves k s t c h
  process_at-Serves ready k s t c h = process_init-Serves k s t c h
  process_at-Serves initing k s t c h = process_init-Serves k s t c h
  process_at-Serves send_request k s t c h =
      let (u, e, g) = >>=-eq-ok (send_step k s) _ h in
      let c' = send_step-Serves k s u c e in
      let v : State = record u.1 {
        api = record u.1.api {
          receiver = record u.1.api.receiver { base = no_bytes };
          status = read_answer;
        };
      } in
      elim (send_ok_or u.0) [
        | inl done ↦ subst (Serves n) (of_ok (send_ok, v) t (rw done at g)) c'
        | inr other ↦
            subst (Serves n) (of_ok u t (sym (other (ok (send_ok, v)) (λ r. ok (r, u.1))) ∙ g)) c'
      ]
  process_at-Serves read_answer k s t c h =
      let (u, e, g) = >>=-eq-ok (recv_step k s) _ h in
      let c' = recv_step-Serves k s u c e in
      let v : State = record u.1 { api = record u.1.api { status = read_done } } in
      elim (recv_ok_or u.0) [
        | inl done ↦ subst (Serves n) (of_ok (recv_ok, v) t (rw done at g)) c'
        | inr other ↦
            subst (Serves n) (of_ok u t (sym (other (ok (recv_ok, v)) (λ r. ok (r, u.1))) ∙ g)) c'
      ]
  process_at-Serves connect k s t c h = absurd (cc h)
  process_at-Serves time_out k s t c h = absurd (cc h)
  process_at-Serves closed k s t c h = absurd (cc h)
  process_at-Serves over k s t c h = absurd (cc h)
  process_at-Serves read_done k s t c h = absurd (cc h)

-- A step of the machine leaves the number of the client.
pub process-client_seq_no :
    (k : Kernel) (s : State) (t : Ret × State)
    → process k s ≡ ok t
    → t.1.api.client_seq_no ≡ s.api.client_seq_no
unfolding process
process-client_seq_no k s t h = process_at-Serves s.api.client_seq_no s.api.status k s t refl h
