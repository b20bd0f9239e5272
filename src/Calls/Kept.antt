-- ===== src/Calls/Kept.antt =====
-- What the fields of a connection to a middle server say together (`CMiddleApi` under `CApiBase`), and
-- what the reads, the writes and the encoding leave as it was.
use mathlib.Core.Path.{subst}
use relay_proxy.Base.{
  ℕ, ◌≡◌, inl, inr, refl, sym, ap, ◌∙◌, Bytes, Bool, true, false, Option, none, some, ok, >>=-eq-ok,
  Bool-cases,
}
use relay_proxy.Base.{Result-cases, ltb, ◌+◌, ◌%◌, ◌^◌, length}
use relay_proxy.Package.{Package}
use relay_proxy.Socket.{
  Io, SocketBase, progress, read, write, size_left, put_at, recv, send, Ret, recv_ok,
  recv_have_more, send_ok, send_have_more, init_ok,
}
use relay_proxy.Socket.Receive.{of_ok}
use relay_proxy.Calls.{
  Kernel, State, Connection, ApiStatus, LoginStatus, middle, no_connect, login_ok, send_request,
  read_answer, read_done, over, receive_by, put_package, follow, encode_package, encode_by,
  send_step, recv_step,
}

-- The connection is there, and logged in, as far as the login has come.
abbrev pub has_socket : LoginStatus → Bool
has_socket no_connect = false
has_socket other = true

abbrev pub has_login : LoginStatus → Bool
has_login login_ok = true
has_login other = false

-- A request was encoded.
abbrev pub is_asking : ApiStatus → Bool
is_asking send_request = true
is_asking read_answer = true
is_asking read_done = true
is_asking over = true
is_asking other = false

pub record IsConsistent (a : Connection) : Type 0 where
  pub by_middle : a.protocol ≡ middle
  pub logged : a.is_init ≡ has_login a.login_status
  pub opened : a.is_open ≡ has_socket a.login_status
  pub asking : is_asking a.status ≡ true → a.is_init ≡ true

-- Nothing but the buffer and the sequence number differs.
abbrev pub Same : Connection → Connection → Type 0
Same a b =
    (b.protocol ≡ a.protocol)
    × (b.is_init ≡ a.is_init)
    × (b.login_status ≡ a.login_status)
    × (b.is_open ≡ a.is_open)
    × (b.status ≡ a.status)

pub Same-IsConsistent : (a b : Connection) → Same a b → IsConsistent a → IsConsistent b
Same-IsConsistent a b (p, i, l, o, t) c = record {
  by_middle = p ∙ c.by_middle;
  logged = i ∙ c.logged ∙ ap has_login (sym l);
  opened = o ∙ c.opened ∙ ap has_socket (sym l);
  asking = λ x. i ∙ c.asking (ap is_asking (sym t) ∙ x);
}

pub send_step-Same :
    (k : Kernel) (s : State) (t : Ret × State) → send_step k s ≡ ok t → Same s.api t.1.api
unfolding send_step
send_step-Same k s t h =
    let ((ret, b, o), e, g) = >>=-eq-ok (send k.write s.api.receiver.base s.sent) _ h in
    subst (λ x. Same s.api x.1.api)
      (of_ok
        (
          ret,
          record s {
            api = record s.api { receiver = record s.api.receiver { base = b } };
            sent = o;
          },
        )
        t g)
      (refl, refl, refl, refl, refl)

pub recv_step-Same :
    (k : Kernel) (s : State) (t : Ret × State) → recv_step k s ≡ ok t → Same s.api t.1.api
unfolding recv_step
recv_step-Same k s t h =
    let ((ret, r, o), e, g) =
      >>=-eq-ok (receive_by s.api.protocol k.head k.body s.api.receiver s.stream) _ h in
    subst (λ x. Same s.api x.1.api)
      (of_ok (ret, record s { api = record s.api { receiver = r }; stream = o }) t g)
      (refl, refl, refl, refl, refl)

put_package-Same :
    (o : Option (Package × Bytes)) (a b : Connection) → put_package o a ≡ ok b → Same a b
unfolding put_package
put_package-Same none a b h = absurd (cc h)
put_package-Same (some (p, buf)) a b h =
    subst (Same a)
      (of_ok
        (record a {
          seq_no = (a.seq_no + 1) % 2 ^ 32;
          receiver = record a.receiver {
            base = record { process_buf = buf; process_total = p.len; processed = 0 };
          };
        })
        b h)
      (refl, refl, refl, refl, refl)

pub encode_package-Same :
    (reserve : Bytes) (n : ℕ) (service content : Bytes) (a b : Connection)
    → encode_package reserve n service content a ≡ ok b
    → Same a b
unfolding encode_package
encode_package-Same reserve n service content a b h = put_package-Same _ a b h

pub encode_by-Same :
    (reserve : Bytes) (a b : Connection) → encode_by middle reserve a ≡ ok b → Same a b
unfolding encode_by
encode_by-Same reserve a b h =
    let (service, e, g) = >>=-eq-ok (follow a.other_info) _ h in
    let (packet, e', g') = >>=-eq-ok (follow a.req_packet) _ g in
    encode_package-Same reserve 3 service packet a b g'

-- What a read or a write returns is never `init_ok`.
abbrev pub is_init_ok : Ret → Bool
is_init_ok init_ok = true
is_init_ok other = false

progress-ret :
    (more done : Ret) (b : SocketBase) (r : Ret)
    → is_init_ok more ≡ false
    → is_init_ok done ≡ false
    → progress more done b ≡ ok r
    → is_init_ok r ≡ false
unfolding progress
progress-ret more done b r m d h = elim (Bool-cases (ltb b.processed b.process_total)) [
  | inl lt ↦ ap is_init_ok (sym (of_ok more r (rw lt at h))) ∙ m
  | inr ge ↦ elim (Bool-cases (ltb b.process_total b.processed)) [
    | inl gt ↦ absurd (cc (rw (ge, gt) at h))
    | inr eq ↦ ap is_init_ok (sym (of_ok done r (rw (ge, eq) at h))) ∙ d
  ]
]

pub send-ret :
    (io : Io) (b : SocketBase) (out : Bytes) (t : Ret × SocketBase × Bytes)
    → send io b out ≡ ok t
    → is_init_ok t.0 ≡ false
unfolding send
send-ret io b out t h = elim (Result-cases (write io (size_left b))) [
  | inr (x, e) ↦ absurd (cc (rw e at h))
  | inl (none, e) ↦ ap (λ x. is_init_ok x.0) (sym (of_ok (send_have_more, b, out) t (rw e at h)))
  | inl (some n, e) ↦
      let (r, p, g) =
        >>=-eq-ok (progress send_have_more send_ok (record b { processed = b.processed + n })) _
          (rw e at h) in
      ap (λ x. is_init_ok x.0) (sym (of_ok _ t g))
      ∙ progress-ret send_have_more send_ok _ r refl refl p
]

pub recv-ret :
    (io : Io) (b : SocketBase) (s : Bytes) (t : Ret × SocketBase × Bytes)
    → recv io b s ≡ ok t
    → is_init_ok t.0 ≡ false
unfolding recv
recv-ret io b s t h = elim (Result-cases (read io (size_left b) s)) [
  | inr (x, e) ↦ absurd (cc (rw e at h))
  | inl (none, e) ↦ ap (λ x. is_init_ok x.0) (sym (of_ok (recv_have_more, b, s) t (rw e at h)))
  | inl (some (got, rest), e) ↦
      let (r, p, g) =
        >>=-eq-ok
          (progress recv_have_more recv_ok (record b {
            process_buf = put_at b.processed got b.process_buf;
            processed = b.processed + length got;
          }))
          _ (rw e at h) in
      ap (λ x. is_init_ok x.0) (sym (of_ok _ t g))
      ∙ progress-ret recv_have_more recv_ok _ r refl refl p
]
