-- ===== src/Calls/Login.antt =====
-- The login of a connection to a middle server (`CMiddleApi::_init` under `CApiBase`).
use mathlib.Core.Path.{subst}
use relay_proxy.Base.{
  ◌≡◌, ◌⊎◌, inl, inr, refl, sym, ap, ◌∙◌, Bool, true, false, not, if◌then◌else◌, Result, ok, ◌>>=◌,
  >>=-eq-ok, check, Bool-cases, Exception, [],
}
use relay_proxy.Socket.{
  Ret, recv_ok, recv_have_more, send_ok, send_have_more, connecting, init_ok, send, recv,
}
use relay_proxy.Socket.Receive.{of_ok}
use relay_proxy.Calls.{
  Kernel, State, Connection, LoginStatus, middle, no_connect, connecting_now, sending, receiving,
  login_ok, initing, receive_by, middle_receive, middle_head, answer_of, middle_init_at, login_send,
  login_receive, encode_login_packet, decode_login_packet, send_step, recv_step, set_base, set_api,
  rewind,
}
use relay_proxy.Calls.Kept.{
  has_socket, has_login, is_asking, IsConsistent, Same, Same-IsConsistent, send_step-Same,
  recv_step-Same, encode_package-Same, is_init_ok, send-ret, recv-ret,
}

pub if_check {ℓ} :
    {A : Type ℓ} (b : Bool) (x : Exception) (r : Result A) → b ≡ true → check b x r ≡ r
if_check b x r e = ap (λ c. check c x r) e

send_step-ret :
    (k : Kernel) (s : State) (t : Ret × State) → send_step k s ≡ ok t → is_init_ok t.0 ≡ false
unfolding send_step
send_step-ret k s t h =
    let (u, e, g) = >>=-eq-ok (send k.write s.api.receiver.base s.sent) _ h in
    ap (λ x. is_init_ok x.0) (sym (of_ok _ t g)) ∙ send-ret k.write s.api.receiver.base s.sent u e

recv_step-ret :
    (k : Kernel) (s : State) (t : Ret × State)
    → s.api.protocol ≡ middle
    → recv_step k s ≡ ok t
    → is_init_ok t.0 ≡ false
unfolding recv_step receive_by middle_receive
recv_step-ret k s t m h =
    let ((ret, r, o), e, g) =
      >>=-eq-ok (receive_by s.api.protocol k.head k.body s.api.receiver s.stream) _ h in
    let e' = sym (ap (λ x. receive_by x k.head k.body s.api.receiver s.stream) m) ∙ e in
    let ((r', s'), e₁, g₁) =
      >>=-eq-ok
        (if s.api.receiver.is_head
          then ok (s.api.receiver, s.stream)
          else middle_head k.head s.api.receiver s.stream)
        _ e' in
    let (u, e₂, g₂) = >>=-eq-ok (recv k.body r'.base s') _ g₁ in
    ap (λ x. is_init_ok x.0) (sym (of_ok _ t g))
    ∙ ap (λ x. is_init_ok x.0) (sym (of_ok _ (ret, r, o) g₂))
    ∙ recv-ret k.body r'.base s' u e₂

-- What the login leaves: it goes on, or it is done but for the mark `_is_init`.
abbrev pub LoggingIn : Ret × State → Type 0
LoggingIn (ret, t) =
    ((is_init_ok ret ≡ false) × IsConsistent t.api × (is_asking t.api.status ≡ false))
    ⊎ ((ret ≡ init_ok) × IsConsistent (record t.api { is_init = true }))

-- A connection whose login is under way.
pub record IsPending (a : Connection) : Type 0 where
  pub consistent : IsConsistent a
  pub pending : a.is_init ≡ false
  pub idle : is_asking a.status ≡ false

Same-IsPending : (a b : Connection) → Same a b → IsPending a → IsPending b
Same-IsPending a b (p, i, l, o, t) c = record {
  consistent = Same-IsConsistent a b (p, i, l, o, t) c.consistent;
  pending = i ∙ c.pending;
  idle = ap is_asking t ∙ c.idle;
}

-- Once the socket is there the login goes on from one state to another.
move :
    (a b : Connection)
    → IsPending a
    → b.protocol ≡ middle
    → b.is_init ≡ false
    → b.is_open ≡ true
    → has_socket b.login_status ≡ true
    → has_login b.login_status ≡ false
    → is_asking b.status ≡ false
    → IsPending b
move a b c m i o s l t = record {
  consistent = record {
    by_middle = m;
    logged = i ∙ sym l;
    opened = o ∙ sym s;
    asking = λ x. absurd (cc (x, t));
  };
  pending = i;
  idle = t;
}

pub send_ok_or :
    (ret : Ret)
    → (ret ≡ send_ok)
      ⊎ ((x : Result (Ret × State)) (f : Ret → Result (Ret × State))
          → elim ret as (λ _. Result (Ret × State)) [ send_ok ↦ x | other ↦ f other ] ≡ f ret)
send_ok_or recv_ok = inr (λ x f. refl)
send_ok_or recv_have_more = inr (λ x f. refl)
send_ok_or send_ok = inl refl
send_ok_or send_have_more = inr (λ x f. refl)
send_ok_or connecting = inr (λ x f. refl)
send_ok_or init_ok = inr (λ x f. refl)

pub recv_ok_or :
    (ret : Ret)
    → (ret ≡ recv_ok)
      ⊎ ((x : Result (Ret × State)) (f : Ret → Result (Ret × State))
          → elim ret as (λ _. Result (Ret × State)) [ recv_ok ↦ x | other ↦ f other ] ≡ f ret)
recv_ok_or recv_ok = inl refl
recv_ok_or recv_have_more = inr (λ x f. refl)
recv_ok_or send_ok = inr (λ x f. refl)
recv_ok_or send_have_more = inr (λ x f. refl)
recv_ok_or connecting = inr (λ x f. refl)
recv_ok_or init_ok = inr (λ x f. refl)

pub init_ok_or :
    (ret : Ret)
    → (ret ≡ init_ok)
      ⊎ ((x : Result (Ret × State)) (f : Ret → Result (Ret × State))
          → elim ret as (λ _. Result (Ret × State)) [ init_ok ↦ x | other ↦ f other ] ≡ f ret)
init_ok_or recv_ok = inr (λ x f. refl)
init_ok_or recv_have_more = inr (λ x f. refl)
init_ok_or send_ok = inr (λ x f. refl)
init_ok_or send_have_more = inr (λ x f. refl)
init_ok_or connecting = inr (λ x f. refl)
init_ok_or init_ok = inl refl

pending : (t : Ret × State) → is_init_ok t.0 ≡ false → IsPending t.1.api → LoggingIn t
pending t n c = inl (n, c.consistent, c.idle)

login_send-LoggingIn :
    (k : Kernel) (s : State) (t : Ret × State)
    → IsPending s.api
    → has_socket s.api.login_status ≡ true
    → login_send k s ≡ ok t
    → LoggingIn t
unfolding login_send
login_send-LoggingIn k s t c l h =
    let (u, e, g) = >>=-eq-ok (send_step k s) _ h in
    let n = send_step-ret k s u e in
    let c' = Same-IsPending s.api u.1.api (send_step-Same k s u e) c in
    let v : State = record u.1 {
      api = record (set_base (rewind u.1.api.receiver.base) u.1.api) { login_status = receiving };
    } in
    elim (send_ok_or u.0) [
      | inl done ↦ subst LoggingIn (of_ok (send_ok, v) t (rw done at g)) (
          pending (send_ok, v) refl
            (moved u.1 c' (send_step-opened s u l (send_step-Same k s u e) c)))
      | inr other ↦
          subst LoggingIn (of_ok u t (sym (other (ok (send_ok, v)) (λ r. ok (r, u.1))) ∙ g))
            (pending u n c')
    ]
  where
    send_step-opened :
        (s : State) (u : Ret × State)
        → has_socket s.api.login_status ≡ true
        → Same s.api u.1.api
        → IsPending s.api
        → u.1.api.is_open ≡ true
    send_step-opened s u l (_, _, _, o, _) c = o ∙ c.consistent.opened ∙ l

    moved :
        (u : State)
        → IsPending u.api
        → u.api.is_open ≡ true
        → IsPending
            (record (set_base (rewind u.api.receiver.base) u.api) { login_status = receiving })
    moved u c o = move u.api _ c c.consistent.by_middle c.pending o refl refl c.idle

login_receive-LoggingIn :
    (k : Kernel) (s : State) (t : Ret × State)
    → IsPending s.api
    → has_socket s.api.login_status ≡ true
    → login_receive k s ≡ ok t
    → LoggingIn t
unfolding login_receive decode_login_packet
login_receive-LoggingIn k s t c l h =
    let (u, e, g) = >>=-eq-ok (recv_step k s) _ h in
    let n = recv_step-ret k s u c.consistent.by_middle e in
    let same = recv_step-Same k s u e in
    elim (recv_ok_or u.0) [
      | inl done ↦
          let (a, e₁, g₁) = >>=-eq-ok (decode_login_packet u.1.api) _ (rw done at g) in
          let (p, e₂, g₂) = >>=-eq-ok (answer_of 2 u.1.api.receiver.base) _ e₁ in
          let v : State = record u.1 { api = record u.1.api { login_status = login_ok } } in
          subst LoggingIn
            (of_ok (init_ok, v) t
              (ap (λ x. ok (init_ok, set_api x u.1))
                  (of_ok (record u.1.api { login_status = login_ok }) a g₂)
                ∙ g₁))
            (inr (refl, logged s u.1 c l same))
      | inr other ↦
          subst LoggingIn
            (of_ok u t (
              sym (
                other (decode_login_packet u.1.api >>= λ a. ok (init_ok, set_api a u.1))
                  (λ r. ok (r, u.1)))
              ∙ g))
            (pending u n (Same-IsPending s.api u.1.api same c))
    ]
  where
    logged :
        (s u : State)
        → IsPending s.api
        → has_socket s.api.login_status ≡ true
        → Same s.api u.api
        → IsConsistent (record u.api { login_status = login_ok; is_init = true })
    logged s u c l (m, _, _, o, _) = record {
      by_middle = m ∙ c.consistent.by_middle;
      logged = refl;
      opened = o ∙ c.consistent.opened ∙ l;
      asking = λ x. refl;
    }

pub middle_init_at-LoggingIn :
    (l : LoginStatus) (k : Kernel) (s : State) (t : Ret × State)
    → IsPending s.api
    → s.api.login_status ≡ l
    → middle_init_at l k s ≡ ok t
    → LoggingIn t
unfolding middle_init_at encode_login_packet
middle_init_at-LoggingIn no_connect k s t c l h = elim (Bool-cases s.api.is_open) [
  | inl used ↦ absurd (cc (rw used at h))
  | inr shut ↦ elim (Bool-cases k.connect_ok) [
    | inr bad ↦ absurd (cc (rw (shut, bad) at h))
    | inl good ↦
        let v : State = record s {
          api = record s.api { is_open = true; status = initing; login_status = connecting_now };
        } in
        subst LoggingIn
          (of_ok (connecting, v) t (sym (if_check _ _ _ (ap not shut) ∙ if_check _ _ _ good) ∙ h))
          (pending (connecting, v) refl
            (move s.api v.api c c.consistent.by_middle c.pending refl refl refl refl))
  ]
]
middle_init_at-LoggingIn connecting_now k s t c l h = elim (Bool-cases k.connected_ok) [
  | inr bad ↦ absurd (cc (rw bad at h))
  | inl good ↦
      let (a, e, g) =
        >>=-eq-ok (encode_login_packet k.reserve s.api) _ (sym (if_check _ _ _ good) ∙ h) in
      let same = encode_package-Same k.reserve 1 [] _ s.api a e in
      let c' = Same-IsPending s.api a same c in
      login_send-LoggingIn k (record s { api = record a { login_status = sending } }) t
        (move a _ c' c'.consistent.by_middle c'.pending (now_open s a c l same) refl refl c'.idle)
        refl g
]
  where
    now_open :
        (s : State) (a : Connection)
        → IsPending s.api
        → s.api.login_status ≡ connecting_now
        → Same s.api a
        → a.is_open ≡ true
    now_open s a c l (_, _, _, o, _) = o ∙ c.consistent.opened ∙ ap has_socket l
middle_init_at-LoggingIn sending k s t c l h = login_send-LoggingIn k s t c (ap has_socket l) h
middle_init_at-LoggingIn receiving k s t c l h = login_receive-LoggingIn k s t c (ap has_socket l) h
middle_init_at-LoggingIn login_ok k s t c l h = absurd (cc h)
