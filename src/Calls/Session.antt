-- ===== src/Calls/Session.antt =====
-- The life of a connection to a middle server (`CApiBase` with `CMiddleApi`).
use mathlib.Core.Path.{subst}
use relay_proxy.Base.{
  ◌≡◌, ◌⊎◌, inl, inr, refl, sym, ap, ◌∙◌, Bytes, Bool, true, false, not, ◌&&◌, none, is_some,
  Result, ok, ◌>>=◌, >>=-eq-ok, Bool-cases,
}
use relay_proxy.Socket.{Ret, Receiver, recv_ok, send_ok, init_ok}
use relay_proxy.Socket.Receive.{of_ok}
use relay_proxy.Socket.Framing.{if_true, if_false}
use relay_proxy.Calls.{
  Kernel, State, Connection, ApiStatus, free, ready, connect, time_out, closed, initing,
  send_request, read_answer, read_done, over, process, process_at, process_init, process_send,
  process_read, init, init_by, middle_init_at, encode_by, send_step, recv_step, encode, decode,
  set_free, set_used, fini, fini_by, set_base, rewind, no_bytes, is_idle, is_read_done, decode_by,
}
use relay_proxy.Calls.Kept.{
  has_socket, has_login, is_asking, IsConsistent, Same, Same-IsConsistent, send_step-Same,
  recv_step-Same, encode_by-Same, is_init_ok,
}
use relay_proxy.Calls.Login.{middle_init_at-LoggingIn, send_ok_or, recv_ok_or, init_ok_or, if_check}

-- What `init` leaves: when it says so the connection is logged in.
abbrev Inited : Ret × State → Type 0
Inited (ret, t) =
    ((is_init_ok ret ≡ false) × IsConsistent t.api)
    ⊎ ((ret ≡ init_ok) × IsConsistent t.api × (t.api.is_init ≡ true))

not_asking : (a : Connection) → IsConsistent a → a.is_init ≡ false → is_asking a.status ≡ false
not_asking a c off = elim (Bool-cases (is_asking a.status)) [
  | inl on ↦ absurd (cc (c.asking on, off))
  | inr idle ↦ idle
]

init-Inited :
    (k : Kernel) (s : State) (t : Ret × State) → IsConsistent s.api → init k s ≡ ok t → Inited t
unfolding init init_by
init-Inited k s t c h = elim (Bool-cases s.api.is_init) [
  | inl on ↦
      subst Inited (of_ok (init_ok, s) t (sym (if_true s.api.is_init _ _ on) ∙ h))
        (inr (refl, c, on))
  | inr off ↦
      let (u, e, g) =
        >>=-eq-ok (init_by s.api.protocol k s) _ (sym (if_false s.api.is_init _ _ off) ∙ h) in
      let e' : middle_init_at s.api.login_status k s ≡ ok u =
        sym (ap (λ x. init_by x k s) c.by_middle) ∙ e in
      let v : State = record u.1 { api = record u.1.api { is_init = true } } in
      elim (middle_init_at-LoggingIn s.api.login_status k s u
        (record { consistent = c; pending = off; idle = not_asking s.api c off }) refl e') [
          | inl (n, c', _) ↦ elim (init_ok_or u.0) [
            | inl done ↦ absurd (cc (ap is_init_ok done, n))
            | inr other ↦
                subst Inited (of_ok u t (sym (other (ok (init_ok, v)) (λ r. ok (r, u.1))) ∙ g))
                  (inl (n, c'))
          ]
          | inr (done, c') ↦
              subst Inited (of_ok (init_ok, v) t (rw done at g)) (inr (refl, c', refl))
        ]
]

-- A request on its way moves on.
asks :
    (a b : Connection) (x : ApiStatus)
    → IsConsistent a
    → a.is_init ≡ true
    → Same a b
    → (r : Receiver) → IsConsistent (record b { receiver = r; status = x })
asks a b x c on (p, i, l, o, _) r = record {
  by_middle = p ∙ c.by_middle;
  logged = i ∙ c.logged ∙ ap has_login (sym l);
  opened = o ∙ c.opened ∙ ap has_socket (sym l);
  asking = λ _. i ∙ on;
}

process_init-IsConsistent :
    (k : Kernel) (s : State) (t : Ret × State)
    → IsConsistent s.api
    → process_init k s ≡ ok t
    → IsConsistent t.1.api
unfolding process_init
process_init-IsConsistent k s t c h =
    let (u, e, g) = >>=-eq-ok (init k s) _ h in
    let go : Result (Ret × State) = encode_by u.1.api.protocol k.reserve u.1.api >>= λ a.
    ok (init_ok, record u.1 { api = record a { status = send_request } }) in
    elim (init-Inited k s u c e) [
      | inl (n, c') ↦ elim (init_ok_or u.0) [
        | inl done ↦ absurd (cc (ap is_init_ok done, n))
        | inr other ↦
            subst (λ x. IsConsistent x.1.api) (of_ok u t (sym (other go (λ r. ok (r, u.1))) ∙ g)) c'
      ]
      | inr (done, c', on) ↦
          let (a, e₁, g₁) =
            >>=-eq-ok (encode_by u.1.api.protocol k.reserve u.1.api) _ (rw done at g) in
          let e₂ = sym (ap (λ x. encode_by x k.reserve u.1.api) c'.by_middle) ∙ e₁ in
          subst (λ x. IsConsistent x.1.api) (of_ok _ t g₁)
            (asks u.1.api a send_request c' on (encode_by-Same k.reserve u.1.api a e₂) a.receiver)
    ]

process_send-IsConsistent :
    (k : Kernel) (s : State) (t : Ret × State)
    → IsConsistent s.api
    → s.api.is_init ≡ true
    → process_send k s ≡ ok t
    → IsConsistent t.1.api
unfolding process_send
process_send-IsConsistent k s t c on h =
    let (u, e, g) = >>=-eq-ok (send_step k s) _ h in
    let same = send_step-Same k s u e in
    let r : Receiver = record u.1.api.receiver { base = no_bytes } in
    let v : State = record u.1 { api = record u.1.api { receiver = r; status = read_answer } } in
    elim (send_ok_or u.0) [
      | inl done ↦
          subst (λ x. IsConsistent x.1.api) (of_ok (send_ok, v) t (rw done at g))
            (asks s.api u.1.api read_answer c on same r)
      | inr other ↦
          subst (λ x. IsConsistent x.1.api)
            (of_ok u t (sym (other (ok (send_ok, v)) (λ r. ok (r, u.1))) ∙ g))
            (Same-IsConsistent s.api u.1.api same c)
    ]

process_read-IsConsistent :
    (k : Kernel) (s : State) (t : Ret × State)
    → IsConsistent s.api
    → s.api.is_init ≡ true
    → process_read k s ≡ ok t
    → IsConsistent t.1.api
unfolding process_read
process_read-IsConsistent k s t c on h =
    let (u, e, g) = >>=-eq-ok (recv_step k s) _ h in
    let same = recv_step-Same k s u e in
    let v : State = record u.1 { api = record u.1.api { status = read_done } } in
    elim (recv_ok_or u.0) [
      | inl done ↦
          subst (λ x. IsConsistent x.1.api) (of_ok (recv_ok, v) t (rw done at g))
            (asks s.api u.1.api read_done c on same u.1.api.receiver)
      | inr other ↦
          subst (λ x. IsConsistent x.1.api)
            (of_ok u t (sym (other (ok (recv_ok, v)) (λ r. ok (r, u.1))) ∙ g))
            (Same-IsConsistent s.api u.1.api same c)
    ]

process_at-IsConsistent :
    (x : ApiStatus) (k : Kernel) (s : State) (t : Ret × State)
    → s.api.status ≡ x
    → IsConsistent s.api
    → process_at x k s ≡ ok t
    → IsConsistent t.1.api
unfolding process_at
process_at-IsConsistent free k s t a c h = process_init-IsConsistent k s t c h
process_at-IsConsistent ready k s t a c h = process_init-IsConsistent k s t c h
process_at-IsConsistent initing k s t a c h = process_init-IsConsistent k s t c h
process_at-IsConsistent send_request k s t a c h =
    process_send-IsConsistent k s t c (c.asking (ap is_asking a)) h
process_at-IsConsistent read_answer k s t a c h =
    process_read-IsConsistent k s t c (c.asking (ap is_asking a)) h
process_at-IsConsistent connect k s t a c h = absurd (cc h)
process_at-IsConsistent time_out k s t a c h = absurd (cc h)
process_at-IsConsistent closed k s t a c h = absurd (cc h)
process_at-IsConsistent over k s t a c h = absurd (cc h)
process_at-IsConsistent read_done k s t a c h = absurd (cc h)

encode-IsConsistent :
    (packet service : Bytes) (a b : Connection)
    → IsConsistent a
    → encode packet service a ≡ ok b
    → IsConsistent b
unfolding encode
encode-IsConsistent packet service a b c h =
    elim (Bool-cases
      (is_idle a.status && not (is_some a.req_packet) && not (is_some a.other_info))) [
        | inl idle ↦ subst IsConsistent (of_ok _ b (rw idle at h)) (record {
          by_middle = c.by_middle;
          logged = c.logged;
          opened = c.opened;
          asking = λ x. absurd (cc x);
        })
        | inr busy ↦ absurd (cc (rw busy at h))
      ]

decode-IsConsistent :
    (a : Connection) (packet : Bytes) (b : Connection)
    → IsConsistent a
    → decode a ≡ ok (packet, b)
    → IsConsistent b
unfolding decode
decode-IsConsistent a packet b c h = elim (Bool-cases (is_read_done a.status)) [
  | inr early ↦ absurd (cc (rw early at h))
  | inl done ↦
      let (p, e, g) =
        >>=-eq-ok (decode_by a.protocol a.receiver.base) _ (sym (if_check _ _ _ done) ∙ h) in
      subst IsConsistent (ap (λ x. x.1) (of_ok (p, record a { status = over }) (packet, b) g))
        (asks a a over c (c.asking (late a.status done)) (refl, refl, refl, refl, refl) a.receiver)
]
  where
    late : (x : ApiStatus) → is_read_done x ≡ true → is_asking x ≡ true
    late read_done h = refl
    late free h = absurd (cc h)
    late ready h = absurd (cc h)
    late initing h = absurd (cc h)
    late send_request h = absurd (cc h)
    late read_answer h = absurd (cc h)
    late connect h = absurd (cc h)
    late time_out h = absurd (cc h)
    late closed h = absurd (cc h)
    late over h = absurd (cc h)

fini-IsConsistent : (force : Bool) (a : Connection) → IsConsistent a → IsConsistent (fini force a)
unfolding fini fini_by
fini-IsConsistent true a c =
    subst
      (λ x.
        IsConsistent
          (record (set_base (rewind (fini_by x true a).receiver.base) (fini_by x true a)) {
            req_packet = none;
            other_info = none;
            client_seq_no = 0;
            status = free;
          }))
      (sym c.by_middle)
      (record {
        by_middle = c.by_middle;
        logged = refl;
        opened = refl;
        asking = λ x. absurd (cc x);
      })
fini-IsConsistent false a c =
    subst
      (λ x.
        IsConsistent
          (record (set_base (rewind (fini_by x false a).receiver.base) (fini_by x false a)) {
            req_packet = none;
            other_info = none;
            client_seq_no = 0;
            status = free;
          }))
      (sym c.by_middle)
      (record {
        by_middle = c.by_middle;
        logged = c.logged;
        opened = c.opened;
        asking = λ x. absurd (cc x);
      })

-- What is done with a connection: the steps of the event loop, the calls of the server on it, and the
-- two calls of the connection pool.
pub data Use : Connection → Connection → Type 0 where
  processes : (k : Kernel) (s t : State) (ret : Ret) → process k s ≡ ok (ret, t) → Use s.api t.api
  encodes : (packet service : Bytes) (a b : Connection) → encode packet service a ≡ ok b → Use a b
  decodes : (a b : Connection) (packet : Bytes) → decode a ≡ ok (packet, b) → Use a b
  frees : (force : Bool) (a : Connection) → Use a (set_free force a)
  takes : (tcp_ok : Bool) (a b : Connection) → set_used tcp_ok a ≡ ok b → Use a b

pub data Uses : Connection → Connection → Type 0 where
  start : (a : Connection) → Uses a a
  next : (a b c : Connection) → Uses a b → Use b c → Uses a c

used-IsConsistent :
    (u : Bool) (a : Connection) → IsConsistent a → IsConsistent (record a { is_used = u })
used-IsConsistent u a c = record {
  by_middle = c.by_middle;
  logged = c.logged;
  opened = c.opened;
  asking = c.asking;
}

Use-IsConsistent : (a b : Connection) → Use a b → IsConsistent a → IsConsistent b
unfolding process set_free set_used
Use-IsConsistent _ _ (processes k s t ret h) c =
    process_at-IsConsistent s.api.status k s (ret, t) refl c h
Use-IsConsistent _ _ (encodes packet service a b h) c = encode-IsConsistent packet service a b c h
Use-IsConsistent _ _ (decodes a b packet h) c = decode-IsConsistent a packet b c h
Use-IsConsistent _ _ (frees force a) c = used-IsConsistent false _ (fini-IsConsistent force a c)
Use-IsConsistent _ _ (takes tcp_ok a b h) c = elim (Bool-cases (not a.is_used)) [
  | inr busy ↦ absurd (cc (rw busy at h))
  | inl idle ↦ elim (Bool-cases tcp_ok) [
    | inl good ↦
        subst IsConsistent (of_ok (record a { is_used = true }) b (rw (idle, good) at h))
          (used-IsConsistent true a c)
    | inr bad ↦
        subst IsConsistent (of_ok (record (fini true a) { is_used = true }) b (rw (idle, bad) at h))
          (used-IsConsistent true _ (fini-IsConsistent true a c))
  ]
]

-- The fields of a connection to a middle server are consistent after any use of it, when they were so
-- before: it is initialized exactly when the login was answered, its socket is there exactly from the
-- connect on, and a request is encoded, sent or answered only when it is initialized. The steps of
-- the event loop, `encode`, `decode`, `set_free` and `set_used` come in any order, with any answers
-- of the kernel, as far as none of them throws.
pub Uses-IsConsistent : (a b : Connection) → Uses a b → IsConsistent a → IsConsistent b
Uses-IsConsistent _ _ (start a) c = c
Uses-IsConsistent _ _ (next a b d us u) c = Use-IsConsistent b d u (Uses-IsConsistent a b us c)
