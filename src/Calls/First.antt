-- ===== src/Calls/First.antt =====
-- The first step of a connection that the pool gives (`CApiBase::process`).
use mathlib.Core.Path.{subst}
use relay_proxy.Base.{
  ◌≡◌, ◌⊎◌, inl, inr, refl, sym, ap, ◌∙◌, Bytes, true, false, not, ◌&&◌, is_some, ok, >>=-eq-ok,
  Bool-cases,
}
use relay_proxy.Socket.{Ret, connecting, init_ok}
use relay_proxy.Socket.Receive.{of_ok}
use relay_proxy.Socket.Framing.{if_true, if_false}
use relay_proxy.Calls.{
  Kernel, State, Connection, relay, middle, no_connect, initing, ready, encode_by, relay_init,
  middle_init_at, init_by, init, encode, process, process_at, process_init, is_idle, set_api,
}
use relay_proxy.Calls.Login.{init_ok_or, if_check}

-- A connection to a relay, or one to a middle that is logged in or not connected.
abbrev pub AtRest : Connection → Type 0
AtRest a =
    (a.protocol ≡ relay)
    ⊎ ((a.protocol ≡ middle) × ((a.is_init ≡ true) ⊎ (a.login_status ≡ no_connect)))

abbrev pub Registers : Ret → Type 0
Registers ret = (ret ≡ connecting) ⊎ (ret ≡ init_ok)

relay_init-Registers :
    (k : Kernel) (s : State) (t : Ret × State) → relay_init k s ≡ ok t → Registers t.0
unfolding relay_init
relay_init-Registers k s t h = elim (Bool-cases (not s.api.is_connecting && not s.api.is_open)) [
  | inl new ↦ elim (Bool-cases k.connect_ok) [
    | inr bad ↦ absurd (cc (rw (new, bad) at h))
    | inl good ↦ inl (
        sym (
          ap (λ x. x.0)
            (of_ok
              (
                connecting,
                set_api (record s.api { is_open = true; status = initing; is_connecting = true }) s,
              )
              t (rw (new, good) at h))))
  ]
  | inr old ↦ elim (Bool-cases k.connected_ok) [
    | inr bad ↦ absurd (cc (rw (old, bad) at h))
    | inl good ↦ inr (
        sym (
          ap (λ x. x.0)
            (of_ok (init_ok, set_api (record s.api { is_connecting = false }) s) t
              (rw (old, good) at h))))
  ]
]

no_connect-Registers :
    (k : Kernel) (s : State) (t : Ret × State)
    → middle_init_at no_connect k s ≡ ok t
    → Registers t.0
unfolding middle_init_at
no_connect-Registers k s t h = elim (Bool-cases s.api.is_open) [
  | inl used ↦ absurd (cc (rw used at h))
  | inr shut ↦ elim (Bool-cases k.connect_ok) [
    | inr bad ↦ absurd (cc (rw (shut, bad) at h))
    | inl good ↦ inl (
        sym (
          ap (λ x. x.0) (of_ok _ t (sym (if_check _ _ _ (ap not shut) ∙ if_check _ _ _ good) ∙ h))))
  ]
]

init_by-Registers :
    (k : Kernel) (s : State) (t : Ret × State)
    → AtRest s.api
    → s.api.is_init ≡ false
    → init_by s.api.protocol k s ≡ ok t
    → Registers t.0
unfolding init_by
init_by-Registers k s t r off h = elim r [
  | inl p ↦ relay_init-Registers k s t (sym (ap (λ x. init_by x k s) p) ∙ h)
  | inr (p, inl on) ↦ absurd (cc (on, off))
  | inr (p, inr l) ↦
      no_connect-Registers k s t
        (sym (ap (λ x. init_by x k s) p ∙ ap (λ x. middle_init_at x k s) l) ∙ h)
]

init-Registers :
    (k : Kernel) (s : State) (t : Ret × State) → AtRest s.api → init k s ≡ ok t → Registers t.0
unfolding init
init-Registers k s t r h = elim (Bool-cases s.api.is_init) [
  | inl on ↦
      inr (sym (ap (λ x. x.0) (of_ok (init_ok, s) t (sym (if_true s.api.is_init _ _ on) ∙ h))))
  | inr off ↦
      let (u, e, g) =
        >>=-eq-ok (init_by s.api.protocol k s) _ (sym (if_false s.api.is_init _ _ off) ∙ h) in
      let v : State = record u.1 { api = record u.1.api { is_init = true } } in
      elim (init_by-Registers k s u r off e) [
        | inr done ↦ inr (sym (ap (λ x. x.0) (of_ok (init_ok, v) t (rw done at g))))
        | inl more ↦ elim (init_ok_or u.0) [
          | inl done ↦ absurd (cc (more, done))
          | inr other ↦ inl (
              sym (ap (λ x. x.0) (of_ok u t (sym (other (ok (init_ok, v)) (λ r. ok (r, u.1))) ∙ g)))
              ∙ more)
        ]
      ]
]

process_init-Registers :
    (k : Kernel) (s : State) (t : Ret × State)
    → AtRest s.api
    → process_init k s ≡ ok t
    → Registers t.0
unfolding process_init
process_init-Registers k s t r h =
    let (u, e, g) = >>=-eq-ok (init k s) _ h in
    elim (init-Registers k s u r e) [
      | inl more ↦ inl (sym (ap (λ x. x.0) (of_ok (connecting, u.1) t (rw more at g))))
      | inr done ↦
          let (a, e₁, g₁) =
            >>=-eq-ok (encode_by u.1.api.protocol k.reserve u.1.api) _ (rw done at g) in
          inr (sym (ap (λ x. x.0) (of_ok _ t g₁)))
    ]

-- What `encode` leaves: the number of the client and the rest of the connection.
pub encode-AtRest :
    (packet service : Bytes) (a b : Connection)
    → AtRest a
    → encode packet service a ≡ ok b
    → (b.client_seq_no ≡ a.client_seq_no) × AtRest b × (b.status ≡ ready)
unfolding encode
encode-AtRest packet service a b r h =
    elim (Bool-cases
      (is_idle a.status && not (is_some a.req_packet) && not (is_some a.other_info))) [
        | inl idle ↦
            subst (λ x. (x.client_seq_no ≡ a.client_seq_no) × AtRest x × (x.status ≡ ready))
              (of_ok _ b (rw idle at h)) (refl, r, refl)
        | inr busy ↦ absurd (cc (rw busy at h))
      ]

pub process-Registers :
    (k : Kernel) (s : State) (t : Ret × State)
    → AtRest s.api
    → s.api.status ≡ ready
    → process k s ≡ ok t
    → Registers t.0
unfolding process process_at
process-Registers k s t r a h =
    process_init-Registers k s t r (sym (ap (λ x. process_at x k s) a) ∙ h)
