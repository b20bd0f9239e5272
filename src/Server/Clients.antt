-- ===== src/Server/Clients.antt =====
-- What an event of a client leaves to wait for (`CRelayServer::_dispatch_handler`).
use mathlib.Core.Path.{subst}
use relay_proxy.Base.{
  ℕ, ◌%◌, ◌^◌, ◌≡◌, ◌⊎◌, inl, inr, refl, sym, ◌∙◌, pos_part, Bytes, not, if◌then◌else◌, none,
  Result, ok, throw, Bool-cases, Exception,
}
use relay_proxy.Events.{check_mask, ev_read, ev_write}
use relay_proxy.Socket.{Ret, recv_ok, recv_have_more, send_ok, send_have_more, connecting, init_ok}
use relay_proxy.Socket.Framing.{if_true, if_false}
use relay_proxy.Client as Client
use relay_proxy.Client.{
  ClientSocket, ClientStatus, RequestConf, free, reading, processing, sending, over, read_request,
  send_answer,
}
use relay_proxy.Server.{
  Service, Exchange, Turn, Outcome, is_sending, same_status, request_decoded, request_read,
  client_step, thread_dispatch, admit, write_error, error_of, other_event, client_ended,
  dispatch_handler, is_caught,
}
use relay_proxy.Server.Watch.{
  elim-Result, Ended, Reads, Waits, Answers, Watched, Quiet, quiet, write_error-Answers,
}
use relay_proxy.Server.Calling.{GivesAtRest, counted_call-Waits}
use relay_proxy.Server.Rounds.{Steps, decode-processing, process-Steps}

module _ (junk : ℕ → ℕ → ℕ) (turn : Turn) (rest : GivesAtRest turn) where
  request_read-Waits :
      (x : Exchange) (s : Service)
      → x.api_event ≡ none
      → Ended Waits Quiet (request_read junk turn s x).1
  unfolding request_read request_decoded
  request_read-Waits x s a =
      let now = pos_part turn.now.tv_sec % 2 ^ 32 in
      let decoded = Client.decode junk s.relay_no now s.msg_index s.request_keys x.client in
      let s' = record s { msg_index = decoded.0 } in
      elim-Result (λ (r : Service × Outcome). Ended Waits Quiet r.1) decoded.1 _ _
        (λ e h. (refl, a))
        (λ c h.
          checked (record x { client_event = none; client = c }) (admit junk turn.now.tv_sec s' c)
            (refl, a)
            (decode-processing junk s.relay_no now s.msg_index s.request_keys x.client c h))
    where
      checked :
          (x : Exchange) (r : Service × Result (Unit {0}))
          → Quiet x
          → x.client.status ≡ processing
          → Ended Waits Quiet (request_decoded junk turn x r).1
      checked x (s, throw e) q p = q
      checked x (s, ok u) q p = counted_call-Waits junk turn rest x s q p

  -- The thread waits for a client to read or to write.
  abbrev pub Listens : Exchange → Type 0
  Listens x = Reads x ⊎ Answers x

  abbrev pub Alone : Exchange → Type 0
  Alone x = x.api_event ≡ none

  on :
      (x : Exchange) (c : ClientSocket) (stream out : Bytes)
      → Listens x
      → c.status ≡ x.client.status
      → Watched (record x { client = c; client_stream = stream; client_sent = out })
  on x c stream out (inl (p, e, a)) k = inr (inl (k ∙ p, e, a))
  on x c stream out (inr (p, e, a)) k = inr (inr (inr (k ∙ p, e, a)))

  alone : (x : Exchange) → Listens x → Alone x
  alone x (inl (p, e, a)) = a
  alone x (inr (p, e, a)) = a

  waiting : (r : Outcome) → Ended Waits Quiet r → Ended Watched Alone r
  waiting (y, ok u) h = inr (inr (inl h))
  waiting (y, throw e) h = h.1

  client_step-Watched :
      (ret : Ret) (x : Exchange) (c : ClientSocket) (stream out : Bytes) (s : Service)
      → Listens x
      → Steps x.client (ret, c)
      → Ended Watched Alone
          (client_step junk turn s ret
            (record x { client = c; client_stream = stream; client_sent = out })).1
  unfolding client_step Client.fini
  client_step-Watched recv_ok x c stream out s l k =
      let y = record x { client = c; client_stream = stream; client_sent = out } in
      waiting (request_read junk turn s y).1 (request_read-Waits y s (alone x l))
  client_step-Watched send_ok x c stream out s l k = inl (refl, refl, alone x l)
  client_step-Watched connecting x c stream out s l k = alone x l
  client_step-Watched init_ok x c stream out s l k = alone x l
  client_step-Watched recv_have_more x c stream out s l k = elim k [
    | inl e ↦ absurd (cc e)
    | inr (inl e) ↦ absurd (cc e)
    | inr (inr e) ↦ on x c stream out l e
  ]
  client_step-Watched send_have_more x c stream out s l k = elim k [
    | inl e ↦ absurd (cc e)
    | inr (inl e) ↦ absurd (cc e)
    | inr (inr e) ↦ on x c stream out l e
  ]

  status_of : (x : Exchange) → Listens x → (x.client.status ≡ reading) ⊎ (x.client.status ≡ sending)
  status_of x (inl (p, _, _)) = inl p
  status_of x (inr (p, _, _)) = inr p

  thread_dispatch-Watched :
      (status : ClientStatus) (x : Exchange) (s : Service)
      → Listens x
      → Ended Watched Alone (thread_dispatch junk turn status s x).1
  unfolding thread_dispatch
  thread_dispatch-Watched status x s l =
      elim (Bool-cases (not (same_status x.client.status status))) [
        | inl wrong ↦
            subst (λ (r : Service × Outcome). Ended Watched Alone r.1)
              (sym (if_true (not (same_status x.client.status status)) _ _ wrong)) (alone x l)
        | inr right ↦
            subst (λ (r : Service × Outcome). Ended Watched Alone r.1)
              (sym (if_false (not (same_status x.client.status status)) _ _ right))
              (elim-Result (λ (r : Service × Outcome). Ended Watched Alone r.1)
                (Client.process turn.head turn.body turn.write turn.now x.client x.client_stream
                  x.client_sent)
                _ _ (λ e h. alone x l)
                (λ (ret, c, stream, out) h. client_step-Watched ret x c stream out s l (
                  process-Steps turn.head turn.body turn.write turn.now x.client x.client_stream
                    x.client_sent ret c stream out (status_of x l) h)))
      ]

  client_ended-Watched :
      (text : Exception → Bytes) (s : Service) (r : Outcome)
      → Ended Watched Alone r
      → Ended Watched (λ _. Unit {0}) (client_ended junk turn text s r)
  unfolding client_ended Client.fini
  client_ended-Watched text s (x, ok u) h = h
  client_ended-Watched text s (x, throw e) h =
      let y = record x { client_event = none } in
      let told = write_error junk turn s (error_of e) (text e) y in
      elim (Bool-cases (is_caught e)) [
        | inr off ↦ subst (Ended Watched (λ _. Unit {0})) (sym (if_false (is_caught e) _ _ off)) tt
        | inl on ↦
            subst (Ended Watched (λ _. Unit {0})) (sym (if_true (is_caught e) _ _ on))
              (elim (Bool-cases (is_sending x.client.status)) [
                | inl out ↦
                    subst (Ended Watched (λ _. Unit {0}))
                      (sym (if_true (is_sending x.client.status) _ _ out)) (inl (refl, refl, h))
                | inr in_ ↦
                    subst (Ended Watched (λ _. Unit {0}))
                      (sym (if_false (is_sending x.client.status) _ _ in_))
                      (quiet junk turn s told
                        (write_error-Answers junk turn s (error_of e) (text e) y (refl, h)))
              ])
      ]

  pub dispatch_handler-Ended :
      (text : Exception → Bytes) (event : ℕ) (x : Exchange) (s : Service)
      → Listens x
      → Ended Watched (λ _. Unit {0}) (dispatch_handler junk turn text event s x).1
  unfolding dispatch_handler
  dispatch_handler-Ended text event x s l =
      ended
        (if check_mask event ev_read
          then thread_dispatch junk turn reading s x
          else (if check_mask event ev_write
              then thread_dispatch junk turn sending s x
              else (s, (x, throw (other_event event)))))
        (elim (Bool-cases (check_mask event ev_read)) [
          | inl reads ↦
              subst (λ (r : Service × Outcome). Ended Watched Alone r.1)
                (sym (if_true (check_mask event ev_read) _ _ reads))
                (thread_dispatch-Watched reading x s l)
          | inr other ↦
              subst (λ (r : Service × Outcome). Ended Watched Alone r.1)
                (sym (if_false (check_mask event ev_read) _ _ other))
                (elim (Bool-cases (check_mask event ev_write)) [
                  | inl writes ↦
                      subst (λ (r : Service × Outcome). Ended Watched Alone r.1)
                        (sym (if_true (check_mask event ev_write) _ _ writes))
                        (thread_dispatch-Watched sending x s l)
                  | inr last ↦
                      subst (λ (r : Service × Outcome). Ended Watched Alone r.1)
                        (sym (if_false (check_mask event ev_write) _ _ last)) (alone x l)
                ])
        ])
    where
      ended :
          (r : Service × Outcome)
          → Ended Watched Alone r.1
          → Ended Watched (λ _. Unit {0}) (client_ended junk turn text r.0 r.1)
      ended (s', outcome) h = client_ended-Watched text s' outcome h
