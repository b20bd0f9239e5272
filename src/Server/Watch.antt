-- ===== src/Server/Watch.antt =====
-- What a thread waits for between two events, and what an event of the connection to a server
-- leaves of it (`CRelayServer::_service_handler`).
use relay_proxy.Base.{
  ℕ, ◌≡◌, ◌⊎◌, inl, inr, refl, sym, ap, ℤ, Bytes, true, if◌then◌else◌, Option, none, some, is_some,
  Result, ok, throw, >>=-eq-ok, Bool-cases, Exception,
}
use relay_proxy.Socket.Receive.{of_ok}
use relay_proxy.Calls as Calls
use relay_proxy.Calls.{State, Connection}
use relay_proxy.SwitchMgr as SwitchMgr
use relay_proxy.Client as Client
use relay_proxy.Client.{ClientSocket, RequestConf, free, reading, processing, sending}
use relay_proxy.Server.{
  Service, Exchange, Turn, Outcome, read_mask, write_mask, add_event, tell_switch_mgr, then_answer,
  error_told, conf_of, set_client_event, set_api_event, answer_client, write_error,
}

abbrev pub Closed : Exchange → Type 0
Closed x = (x.client.status ≡ free) × (x.client_event ≡ none) × (x.api_event ≡ none)

abbrev pub Reads : Exchange → Type 0
Reads x = (x.client.status ≡ reading) × (x.client_event ≡ some read_mask) × (x.api_event ≡ none)

abbrev pub Waits : Exchange → Type 0
Waits x =
    (x.client.status ≡ processing)
    × (x.client_event ≡ none)
    × (is_some x.api_event ≡ true)
    × (x.api.api.client_seq_no ≡ x.client.seq_no)

abbrev pub Answers : Exchange → Type 0
Answers x = (x.client.status ≡ sending) × (x.client_event ≡ some write_mask) × (x.api_event ≡ none)

abbrev pub Watched : Exchange → Type 0
Watched x = Closed x ⊎ (Reads x ⊎ (Waits x ⊎ Answers x))

-- Nothing is waited for.
abbrev pub Quiet : Exchange → Type 0
Quiet x = (x.client_event ≡ none) × (x.api_event ≡ none)

abbrev pub Ended : (Exchange → Type 0) → (Exchange → Type 0) → Outcome → Type 0
Ended P Q (x, ok u) = P x
Ended P Q (x, throw e) = Q x

-- A property of what follows a result, by its two cases.
pub elim-Result {ℓ κ} :
    {A : Type ℓ} {B : Type κ} (P : B → Type 0) (r : Result A) (f : Exception → B) (g : A → B)
    → ((e : Exception) → r ≡ throw e → P (f e))
    → ((a : A) → r ≡ ok a → P (g a))
    → P (elim r as (λ _. B) [ throw e ↦ f e | ok a ↦ g a ])
elim-Result P (ok a) f g hf hg = hg a refl
elim-Result P (throw e) f g hf hg = hf e refl

module _ (junk : ℕ → ℕ → ℕ) (turn : Turn) (s : Service) where
  encode-sending :
      (c d : ClientSocket) → Client.encode junk s.escapes s.is_detail c ≡ ok d → d.status ≡ sending
  unfolding Client.encode
  encode-sending c d h =
      let (e, _, g) =
        >>=-eq-ok
          (if c.request_conf.is_binary
            then Client.encode_protocol_binary s.escapes c
            else Client.encode_protocol_text junk s.escapes s.is_detail c)
          _ h in
      sym (ap (λ x. x.status) (of_ok (record e { status = sending }) d g))

  answers :
      (x : Exchange)
      → Quiet x
      → x.client.status ≡ sending
      → Ended Answers Quiet (set_client_event x (add_event turn.event_ok write_mask x.client_event))
  unfolding add_event
  answers x (c, a) t = elim (Bool-cases turn.event_ok) [
    | inl good ↦ rw (c, good) (t, refl, a)
    | inr bad ↦ rw (c, bad) (refl, a)
  ]

  pub answer_client-Answers :
      (x : Exchange) → Quiet x → Ended Answers Quiet (answer_client junk turn s x)
  unfolding answer_client
  answer_client-Answers x q =
      elim-Result (Ended Answers Quiet) (Client.encode junk s.escapes s.is_detail x.client) _ _
        (λ e h. q) (λ c h. answers (record x { client = c }) q (encode-sending x.client c h))

  abbrev pub Still : Outcome → Type 0
  Still r = Ended Quiet Quiet r

  tell_switch_mgr-Quiet :
      (conf : RequestConf) (result : ℤ) (x : Exchange)
      → Quiet x
      → Still (tell_switch_mgr turn conf result x)
  unfolding tell_switch_mgr
  tell_switch_mgr-Quiet conf result x q = told (
      SwitchMgr.try_switch turn.float x.switch_mgr conf.site_no conf.service_name result
        turn.now.tv_sec)
    where
      told :
          (r : SwitchMgr.RelaySwitchMgr × Result ℤ)
          → Still (record x { switch_mgr = r.0 }, elim r.1 [ throw e ↦ throw e | ok n ↦ ok tt ])
      told (m, ok n) = q
      told (m, throw e) = q

  error_told-Quiet :
      (conf : Result RequestConf) (error : ℤ) (x : Exchange)
      → Quiet x
      → Still (error_told turn conf error x)
  unfolding error_told
  error_told-Quiet (throw e) error x q = q
  error_told-Quiet (ok conf) error x q = tell_switch_mgr-Quiet conf error x q

  then_answer-Answers : (r : Outcome) → Still r → Ended Answers Quiet (then_answer junk turn s r)
  unfolding then_answer
  then_answer-Answers (x, throw e) q = q
  then_answer-Answers (x, ok u) q = answer_client-Answers x q

  abbrev pub Unheard : Exchange → Type 0
  Unheard y = y.client_event ≡ none

  -- The client waits, and the thread for its server, when the event is set.
  pub waits :
      (x : Exchange) (event : Result (Option ℕ))
      → x.client.status ≡ processing
      → x.client_event ≡ none
      → x.api.api.client_seq_no ≡ x.client.seq_no
      → ((o : Option ℕ) → event ≡ ok o → is_some o ≡ true)
      → Ended Waits Unheard (set_api_event x event)
  waits x (ok o) p c n h = (p, c, h o refl, n)
  waits x (throw e) p c n h = c

  pub added :
      (mask : ℕ) (event o : Option ℕ) → add_event turn.event_ok mask event ≡ ok o → is_some o ≡ true
  unfolding add_event
  added mask event o h = elim (Bool-cases (is_some event)) [
    | inl has ↦ absurd (cc (rw has at h))
    | inr lacks ↦ elim (Bool-cases turn.event_ok) [
      | inl good ↦ ap is_some (sym (of_ok (some mask) o (rw (lacks, good) at h)))
      | inr bad ↦ absurd (cc (rw (lacks, bad) at h))
    ]
  ]

  pub write_error-Answers :
      (error : ℤ) (text : Bytes) (x : Exchange)
      → Quiet x
      → Ended Answers Quiet (write_error junk turn s error text x)
  unfolding write_error
  write_error-Answers error text x q =
      then_answer-Answers _
        (error_told-Quiet (conf_of s.request_types x.client.request_key) error _ q)

  abbrev pub Any : Exchange → Type 0
  Any x = Unit {0}

  pub quiet : (r : Outcome) → Ended Answers Quiet r → Ended Watched Any r
  quiet (y, ok u) h = inr (inr (inr h))
  quiet (y, throw e) h = tt
