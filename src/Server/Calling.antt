-- ===== src/Server/Calling.antt =====
-- What the call of a server leaves to wait for (`CRelayServer::_call_server`).
use mathlib.Core.Path.{subst}
use relay_proxy.Base.{
  ℕ, ◌≡◌, inl, inr, refl, sym, ap, ◌∙◌, ℤ, true, none, is_some, ok, throw, >>=-eq-ok, Bool-cases,
}
use relay_proxy.Socket.{Ret, recv_ok, recv_have_more, send_ok, send_have_more, connecting, init_ok}
use relay_proxy.Socket.Receive.{of_ok}
use relay_proxy.Socket.Framing.{if_false}
use relay_proxy.Calls as Calls
use relay_proxy.Calls.{State}
use relay_proxy.Calls.Numbers.{process-client_seq_no}
use relay_proxy.Calls.First.{AtRest, Registers, encode-AtRest, process-Registers}
use relay_proxy.Client.{ClientSocket, RequestConf, processing}
use relay_proxy.SwitchMgr.{incr_request}
use relay_proxy.Server.{
  Service, Exchange, Turn, Outcome, write_mask, add_event, set_api_event, service_step,
  service_dispatch, conf_of, request_api, call_ended, call_server, counted_call, is_caught,
}
use relay_proxy.Server.Watch.{elim-Result, Ended, Waits, Quiet}

-- The pool gives connections at rest.
abbrev pub GivesAtRest : Turn → Type 0
GivesAtRest turn = (site_no : ℤ) (a : State) → turn.get_api site_no ≡ ok a → AtRest a.api

request_api-AtRest :
    (turn : Turn) (conf : RequestConf) (c : ClientSocket) (a : State)
    → GivesAtRest turn
    → request_api turn conf c ≡ ok a
    → (a.api.client_seq_no ≡ c.seq_no) × AtRest a.api × (a.api.status ≡ Calls.ready)
unfolding request_api
request_api-AtRest turn conf c a r h =
    let (b, e, g) = >>=-eq-ok (turn.get_api conf.site_no) _ h in
    let (d, e', g') =
      >>=-eq-ok
        (Calls.encode c.req_packet conf.service_name (record b.api { client_seq_no = c.seq_no })) _
        g in
    subst (λ x. (x.api.client_seq_no ≡ c.seq_no) × AtRest x.api × (x.api.status ≡ Calls.ready))
      (of_ok (record b { api = d }) a g')
      (encode-AtRest c.req_packet conf.service_name (record b.api { client_seq_no = c.seq_no }) d
        (r conf.site_no b e) e')

module _ (junk : ℕ → ℕ → ℕ) (turn : Turn) (rest : GivesAtRest turn) where
  first :
      (mask : ℕ) (x : Exchange) (s : Service)
      → Quiet x
      → x.client.status ≡ processing
      → x.api.api.client_seq_no ≡ x.client.seq_no
      → Ended Waits Quiet (set_api_event x (add_event turn.event_ok mask x.api_event))
  unfolding add_event
  first mask x s (c, a) p n = elim (Bool-cases turn.event_ok) [
    | inl good ↦ rw (a, good) (p, c, refl, n)
    | inr bad ↦ rw (a, bad) (c, refl)
  ]

  first_step :
      (ret : Ret) (x : Exchange) (s : Service)
      → Registers ret
      → Quiet x
      → x.client.status ≡ processing
      → x.api.api.client_seq_no ≡ x.client.seq_no
      → Ended Waits Quiet (service_step junk turn s ret x)
  unfolding service_step
  first_step connecting x s r q p n = first 7 x s q p n
  first_step init_ok x s r (c, a) p n =
      subst (λ e. Ended Waits Quiet (set_api_event x e))
        (sym (if_false (is_some x.api_event) _ _ (ap is_some a))) (first write_mask x s (c, a) p n)
  first_step send_ok x s r q p n = elim r [ inl e ↦ absurd (cc e) | inr e ↦ absurd (cc e) ]
  first_step send_have_more x s r q p n = elim r [ inl e ↦ absurd (cc e) | inr e ↦ absurd (cc e) ]
  first_step recv_ok x s r q p n = elim r [ inl e ↦ absurd (cc e) | inr e ↦ absurd (cc e) ]
  first_step recv_have_more x s r q p n = elim r [ inl e ↦ absurd (cc e) | inr e ↦ absurd (cc e) ]

  first_dispatch :
      (x : Exchange) (s : Service)
      → Quiet x
      → x.client.status ≡ processing
      → x.api.api.client_seq_no ≡ x.client.seq_no
      → AtRest x.api.api
      → x.api.api.status ≡ Calls.ready
      → Ended Waits Quiet (service_dispatch junk turn s x)
  unfolding service_dispatch
  first_dispatch x s q p n r a =
      elim-Result (Ended Waits Quiet) (Calls.process turn.kernel x.api) _ _ (λ e h. q)
        (λ (ret, t) h.
          first_step ret (record x { api = t }) s
            (process-Registers turn.kernel x.api (ret, t) r a h) q p
            (process-client_seq_no turn.kernel x.api (ret, t) h ∙ n))

  call_ended-Waits : (r : Outcome) → Ended Waits Quiet r → Ended Waits Quiet (call_ended r)
  unfolding call_ended
  call_ended-Waits (x, ok u) h = h
  call_ended-Waits (x, throw e) h = elim (Bool-cases (is_caught e)) [
    | inl on ↦ rw on h
    | inr off ↦ rw off h
  ]

  pub call_server-Waits :
      (x : Exchange) (s : Service)
      → Quiet x
      → x.client.status ≡ processing
      → Ended Waits Quiet (call_server junk turn s x)
  unfolding call_server
  call_server-Waits x s q p =
      elim-Result (Ended Waits Quiet) (conf_of s.request_types x.client.request_key) _ _ (λ e h. q)
        (λ conf h.
          elim-Result (Ended Waits Quiet)
            (request_api turn conf (record x.client { request_conf = conf })) _ _ (λ e h. q)
            (λ a h.
              started x conf a q p
                (request_api-AtRest turn conf (record x.client { request_conf = conf }) a rest h)))
    where
      started :
          (x : Exchange) (conf : RequestConf) (a : State)
          → Quiet x
          → x.client.status ≡ processing
          → (a.api.client_seq_no ≡ x.client.seq_no) × AtRest a.api × (a.api.status ≡ Calls.ready)
          → Ended Waits Quiet (
              call_ended (
                service_dispatch junk turn s (record x {
                  client = record x.client { request_conf = conf; has_api = true };
                  api = a;
                  api_event = none;
                })))
      started x conf a (c, _) p (n, r, t) = call_ended-Waits _ (
          first_dispatch
            (record x {
              client = record x.client { request_conf = conf; has_api = true };
              api = a;
              api_event = none;
            })
            s (c, refl) p n r t)

  pub counted_call-Waits :
      (x : Exchange) (s : Service)
      → Quiet x
      → x.client.status ≡ processing
      → Ended Waits Quiet (counted_call junk turn s x)
  unfolding counted_call
  counted_call-Waits x s q p =
      elim-Result (Ended Waits Quiet) (conf_of s.request_types x.client.request_key) _ _ (λ e h. q)
        (λ conf h.
          call_server-Waits
            (record x {
              switch_mgr = incr_request x.switch_mgr conf.site_no conf.service_name turn.now.tv_sec;
            })
            s q p)
