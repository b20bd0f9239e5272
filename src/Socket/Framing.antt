-- ===== src/Socket/Framing.antt =====
-- The framing of packets by their length (`CRelayApi::_recv`, `CClientSocket::process`).
use relay_proxy.Base.{◌≤◌}
use relay_proxy.Base.{◌≡◌, refl, sym, ap, ◌∙◌, inl, inr}
use relay_proxy.Base.{Bool, true, false}
use relay_proxy.Base.{List, [], ◌∷◌, ◌++◌, arith}
use relay_proxy.Base.{if◌then◌else◌, Bool-cases}
use relay_proxy.Base.{length, take, drop}
use relay_proxy.Base.{pos_part}
use relay_proxy.Base.{Bytes}
use relay_proxy.Base.{int_key, bytes_key}
use relay_proxy.Base.{Result, ok, ◌>>=◌, Result-cases}
use relay_proxy.Socket.{Io, Ret, SocketBase, Receiver, recv_ok, recv_have_more}
use relay_proxy.Socket.{int_bytes, read_int, recv_head, recv_body, receive, encode, decode}
use relay_proxy.Socket.Words.{read_int-int_bytes, take-all}
use relay_proxy.Socket.Receive.{of_ok}
use relay_proxy.Socket.Head.{Incoming, frame, Received, recv_head-Incoming, body-Received}

pub if_true {ℓ} : {A : Type ℓ} (b : Bool) (x y : A) → b ≡ true → (if b then x else y) ≡ x
if_true true x y h = refl
if_true false x y h = cc h

pub receive-on :
    (head body : Io) (r : Receiver) (s : Bytes)
    → r.is_head ≡ true
    → receive head body r s ≡ recv_body body r s
unfolding receive
receive-on head body r s on =
    ap (λ o. o >>= λ (r', s'). recv_body body r' s')
      (if_true r.is_head (ok (r, s)) (recv_head head r s) on)

pub if_false {ℓ} : {A : Type ℓ} (b : Bool) (x y : A) → b ≡ false → (if b then x else y) ≡ y
if_false true x y h = cc h
if_false false x y h = refl

pub receive-off :
    (head body : Io) (r : Receiver) (s : Bytes)
    → r.is_head ≡ false
    → receive head body r s ≡ (recv_head head r s >>= λ (r', s'). recv_body body r' s')
unfolding receive
receive-off head body r s off =
    ap (λ o. o >>= λ (r', s'). recv_body body r' s')
      (if_false r.is_head (ok (r, s)) (recv_head head r s) off)

-- One call of `_recv` on a connection where a packet comes in: the packet is complete and nothing
-- behind it was taken, or a part of it is there and the rest is still in the stream. The packet
-- has at least one byte and fits the buffer.
pub receive-Received :
    (head body : Io) (p rest : Bytes) (r : Receiver) (s : Bytes) (ret : Ret) (r' : Receiver)
    (s' : Bytes)
    → 1 ≤ length p
    → length p ≤ 31996
    → Incoming (frame p) rest r s
    → receive head body r s ≡ ok (ret, r', s')
    → Received p rest (ret, r', s')
unfolding receive
receive-Received head body p rest r s ret r' s' lo hi i h = elim (Bool-cases r.is_head) [
  | inl on ↦
      body-Received body p rest r s (ret, r', s') i on (sym (receive-on head body r s on) ∙ h)
  | inr off ↦ elim (Result-cases (recv_head head r s)) [
    | inr (x, e) ↦ absurd (cc (rw e at (sym (receive-off head body r s off) ∙ h)))
    | inl ((r₁, s₁), e) ↦
        let (i₁, on) = recv_head-Incoming head p rest r r₁ s s₁ lo hi i off e in
        body-Received body p rest r₁ s₁ (ret, r', s') i₁ on
          (rw e at (sym (receive-off head body r s off) ∙ h))
  ]
]

-- The calls of `_recv` that the event loop makes until the packet is complete.
unfoldable pub receive_all : List (Io × Io) → Receiver → Bytes → Result (Ret × Receiver × Bytes)
receive_all [] r s = ok (recv_have_more, r, s)
receive_all ((head, body) ∷ ios) r s = receive head body r s >>= λ (ret, r', s'). elim ret [
  | recv_ok ↦ ok (recv_ok, r', s')
  | _ ↦ receive_all ios r' s'
]

abbrev pub fresh : Receiver
fresh = record {
  base = record { process_buf = []; process_total = 0; processed = 0 };
  is_head = false;
}

pub fresh-Incoming : (p rest : Bytes) → Incoming (frame p) rest fresh (frame p ++ rest)
fresh-Incoming p rest = record { joined = refl; state = inl (refl, refl) }

triple : (x y : Ret × Receiver × Bytes) → x ≡ y → (x.0 ≡ y.0) × (x.1 ≡ y.1) × (x.2 ≡ y.2)
triple x y e = (ap (λ t. t.0) e, ap (λ t. t.1) e, ap (λ t. t.2) e)

receive_all-Received :
    (ios : List (Io × Io)) (p rest : Bytes) (r : Receiver) (s : Bytes) (r' : Receiver) (s' : Bytes)
    → 1 ≤ length p
    → length p ≤ 31996
    → Incoming (frame p) rest r s
    → receive_all ios r s ≡ ok (recv_ok, r', s')
    → (r'.base.process_buf ≡ frame p) × (s' ≡ rest)
unfolding receive_all
receive_all-Received [] p rest r s r' s' lo hi i h = absurd (cc h)
receive_all-Received ((head, body) ∷ ios) p rest r s r' s' lo hi i h =
    elim (Result-cases (receive head body r s)) [
      | inr (x, e) ↦ absurd (cc (rw e at h))
      | inl ((ret, r₁, s₁), e) ↦ elim (receive-Received head body p rest r s ret r₁ s₁ lo hi i e) [
        | inl (done, same, after) ↦
            let (_, er, es) =
              triple (recv_ok, r₁, s₁) (recv_ok, r', s') (of_ok _ _ (rw (e, done) at h)) in
            (ap (λ x. x.base.process_buf) (sym er) ∙ same, sym es ∙ after)
        | inr (more, _, i₁) ↦
            receive_all-Received ios p rest r₁ s₁ r' s' lo hi i₁ (rw (e, more) at h)
      ]
    ]

pub decode-frame :
    (b : SocketBase) (p : Bytes) → length p ≤ 31996 → b.process_buf ≡ frame p → decode b ≡ p
unfolding decode int_bytes
decode-frame b p hi e =
    ap (λ x. take (pos_part (read_int x)) (drop 4 x)) e
    ∙ ap (λ x. take (pos_part x) p) (read_int-int_bytes (length p) p (omega (arith, hi)))
    ∙ take-all p (length p) (omega arith)

-- However TCP splits the stream, a packet that `encode` framed comes out whole: whenever the
-- calls of `_recv` on a fresh connection say that a packet is complete, `_decode` gives the packet
-- that was sent, and what follows it is left in the stream. The packet has from 1 to 31996 bytes.
pub receive_all-encode :
    (ios : List (Io × Io)) (p rest : Bytes) (r : Receiver) (s : Bytes)
    → 1 ≤ length p
    → length p ≤ 31996
    → receive_all ios fresh ((encode p).process_buf ++ rest) ≡ ok (recv_ok, r, s)
    → (decode r.base ≡ p) × (s ≡ rest)
unfolding encode
receive_all-encode ios p rest r s lo hi h =
    let (same, after) =
      receive_all-Received ios p rest fresh (frame p ++ rest) r s lo hi (fresh-Incoming p rest) h in
    (decode-frame r.base p hi same, after)
