-- ===== src/Socket/Send.antt =====
-- Sending a packet (`CSocketBase::_send`).
use relay_proxy.Base.{ℕ, zero, suc, ◌+◌, ◌-◌, ◌≤◌, ◌<◌}
use relay_proxy.Base.{◌≡◌, refl, sym, ap, ◌∙◌, ◌⊎◌, inl, inr}
use relay_proxy.Base.{List, [], ◌∷◌, ◌++◌, append_assoc, append-nil, arith}
use relay_proxy.Base.{length, take, drop, All}
use relay_proxy.Base.{Bytes}
use relay_proxy.Base.{int_key, bytes_key}
use relay_proxy.Base.{Result, ok, ◌>>=◌, Result-cases}
use mathlib.Core.Path.{subst}
use relay_proxy.Socket.{
  Io, Ret, SocketBase, Receiver, ready, again, failed, recv_ok, send_ok, send_have_more,
}
use relay_proxy.Socket.{size_left, write, send, int_bytes, encode, decode}
use relay_proxy.Socket.Words.{take-drop, drop-all}
use relay_proxy.Socket.Receive.{of_ok, size_left-exact, progress-cases, moved}
use relay_proxy.Socket.Framing.{receive_all, receive_all-encode, fresh}

-- The calls of `_send` until the buffer is out.
unfoldable pub send_all : List Io → SocketBase → Bytes → Result (Ret × SocketBase × Bytes)
send_all [] b out = ok (send_have_more, b, out)
send_all (io ∷ ios) b out = send io b out >>= λ (ret, b', out'). elim ret [
  | send_ok ↦ ok (send_ok, b', out')
  | _ ↦ send_all ios b' out'
]

-- A buffer that is going out: `processed` of its bytes are with the peer.
pub record IsOutgoing (buf out : Bytes) (b : SocketBase) (out' : Bytes) : Type 0 where
  pub same : b.process_buf ≡ buf
  pub total : b.process_total ≡ length buf
  pub bound : b.processed ≤ length buf
  pub sent : out' ++ drop b.processed buf ≡ out ++ buf

abbrev pub Sent : Bytes → Bytes → Ret × SocketBase × Bytes → Type 0
Sent buf out (ret, b, out') =
    IsOutgoing buf out b out'
    × (((ret ≡ send_ok) × (b.processed ≡ length buf))
        ⊎ ((ret ≡ send_have_more) × (b.processed < length buf)))

zero_plus : (k : ℕ) → 0 + k ≡ k
zero_plus k = omega arith

suc_plus : (n k : ℕ) → suc n + k ≡ suc (n + k)
suc_plus n k = omega arith

drop-add : (n k : ℕ) (s : Bytes) → drop (n + k) s ≡ drop k (drop n s)
drop-add zero k s = ap (λ i. drop i s) (zero_plus k)
drop-add (suc n) k [] = drop-all [] (suc n + k) (omega arith) ∙ sym (drop-all [] k (omega arith))
drop-add (suc n) k (c ∷ s) = ap (λ i. drop i (c ∷ s)) (suc_plus n k) ∙ drop-add n k s

-- A write moves bytes from the buffer to the peer.
write-IsOutgoing :
    (buf out : Bytes) (b : SocketBase) (out' : Bytes) (m : ℕ)
    → IsOutgoing buf out b out'
    → b.processed + m ≤ length buf
    → IsOutgoing buf out
        (record b { processed = b.processed + m })
        (out' ++ take m (drop b.processed b.process_buf))
write-IsOutgoing buf out b out' m i h = record {
  same = i.same;
  total = i.total;
  bound = h;
  sent =
      ap (λ x. (out' ++ take m (drop b.processed x)) ++ drop (b.processed + m) buf) i.same
      ∙ append_assoc out' _ _
      ∙ ap (λ x. out' ++ (take m (drop b.processed buf) ++ x)) (drop-add b.processed m buf)
      ∙ ap (λ x. out' ++ x) (take-drop m (drop b.processed buf))
      ∙ i.sent;
}

pub send-Sent :
    (io : Io) (buf out : Bytes) (b : SocketBase) (out' : Bytes) (t : Ret × SocketBase × Bytes)
    → IsOutgoing buf out b out'
    → b.processed < length buf
    → send io b out' ≡ ok t
    → Sent buf out t
unfolding send write
send-Sent failed buf out b out' t i lt h = absurd (cc h)
send-Sent again buf out b out' t i lt h = subst (Sent buf out) (of_ok _ _ h) (i, inr (refl, lt))
send-Sent (ready k) buf out b out' t i lt h =
    let m = moved k (size_left b) in
    let b' = record b { processed = b.processed + m } in
    let fits = room k b buf i.total i.bound in
    let next = write-IsOutgoing buf out b out' m i fits in
    elim (progress-cases send_have_more send_ok b' (omega (arith, fits, i.total))) [
      | inl (e, full) ↦
          subst (Sent buf out) (of_ok _ _ (rw e at h))
            (next, inl (refl, omega (arith, full, i.total)))
      | inr (e, part) ↦
          subst (Sent buf out) (of_ok _ _ (rw e at h))
            (next, inr (refl, omega (arith, part, i.total)))
    ]
  where
    room :
        (k : ℕ) (b : SocketBase) (buf : Bytes)
        → b.process_total ≡ length buf
        → b.processed ≤ length buf
        → b.processed + moved k (size_left b) ≤ length buf
    room k b buf t h = ground (arith, size_left-exact b, t, h)

-- All of the buffer has gone out.
pub all_out :
    (buf out : Bytes) (b : SocketBase) (out' : Bytes)
    → IsOutgoing buf out b out'
    → b.processed ≡ length buf
    → out' ≡ out ++ buf
all_out buf out b out' i full =
    sym (append-nil out')
    ∙ ap (λ x. out' ++ x) (sym (drop-all buf b.processed (omega (arith, full))))
    ∙ i.sent

send_all-Sent :
    (ios : List Io) (buf out : Bytes) (b : SocketBase) (out' : Bytes) (b₁ : SocketBase)
    (out₁ : Bytes)
    → IsOutgoing buf out b out'
    → b.processed < length buf
    → send_all ios b out' ≡ ok (send_ok, b₁, out₁)
    → out₁ ≡ out ++ buf
unfolding send_all
send_all-Sent [] buf out b out' b₁ out₁ i lt h = absurd (cc h)
send_all-Sent (io ∷ ios) buf out b out' b₁ out₁ i lt h = elim (Result-cases (send io b out')) [
  | inr (x, e) ↦ absurd (cc (rw e at h))
  | inl ((ret, b₂, out₂), e) ↦
      let (j, step) = send-Sent io buf out b out' (ret, b₂, out₂) i lt e in
      elim step [
        | inl (done, full) ↦
            ap (λ x. x.2) (sym (of_ok (send_ok, b₂, out₂) (send_ok, b₁, out₁) (rw (e, done) at h)))
            ∙ all_out buf out b₂ out₂ j full
        | inr (more, part) ↦ send_all-Sent ios buf out b₂ out₂ b₁ out₁ j part (rw (e, more) at h)
      ]
]

abbrev pub IsReady : Io → Type 0
IsReady (ready k) = 1 ≤ k
IsReady again = ⊥
IsReady failed = ⊥

pub send-ready :
    (k : ℕ) (buf out : Bytes) (b : SocketBase) (out' : Bytes)
    → 1 ≤ k
    → IsOutgoing buf out b out'
    → b.processed < length buf
    → (ret : Ret) × (b' : SocketBase) × (out₁ : Bytes) × (send (ready k) b out'
        ≡ ok (ret, b', out₁))
      × (b.processed < b'.processed)
unfolding send write
send-ready k buf out b out' lo i lt =
    let m = moved k (size_left b) in
    let b' = record b { processed = b.processed + m } in
    let out₁ = out' ++ take m (drop b.processed b.process_buf) in
    let more = gain k b buf lo i.total lt in
    elim (progress-cases send_have_more send_ok b' more.1) [
      | inl (e, full) ↦ (send_ok, b', out₁, rw e refl, more.0)
      | inr (e, part) ↦ (send_have_more, b', out₁, rw e refl, more.0)
    ]
  where
    gain :
        (k : ℕ) (b : SocketBase) (buf : Bytes)
        → 1 ≤ k
        → b.process_total ≡ length buf
        → b.processed < length buf
        → (b.processed < b.processed + moved k (size_left b))
          × (b.processed + moved k (size_left b) ≤ b.process_total)
    gain k b buf lo t lt = ground (arith, size_left-exact b)

send_all_ends :
    (ios : List Io) (buf out : Bytes) (b : SocketBase) (out' : Bytes)
    → IsOutgoing buf out b out'
    → b.processed < length buf
    → All IsReady ios
    → length buf - b.processed ≤ length ios
    → (b₁ : SocketBase) × (out₁ : Bytes) × (send_all ios b out' ≡ ok (send_ok, b₁, out₁))
unfolding send_all
send_all_ends [] buf out b out' i lt rs n = absurd (omega (arith, lt, n))
send_all_ends (again ∷ ios) buf out b out' i lt (r, rs) n = absurd r
send_all_ends (failed ∷ ios) buf out b out' i lt (r, rs) n = absurd r
send_all_ends (ready k ∷ ios) buf out b out' i lt (r, rs) n =
    let (ret, b₂, out₂, e, up) = send-ready k buf out b out' r i lt in
    let (j, step) = send-Sent (ready k) buf out b out' (ret, b₂, out₂) i lt e in
    elim step [
      | inl (done, full) ↦ (b₂, out₂, rw (e, done) refl)
      | inr (more, part) ↦
          let (b₁, out₁, run) =
            send_all_ends ios buf out b₂ out₂ j part rs (omega (arith, n, up)) in
          (b₁, out₁, rw (e, more) run)
    ]

pub encode-IsOutgoing : (p out : Bytes) → IsOutgoing (int_bytes (length p) ++ p) out (encode p) out
unfolding encode int_bytes
encode-IsOutgoing p out = record {
  same = refl;
  total = omega arith;
  bound = omega arith;
  sent = refl;
}

pub encode-left : (p : Bytes) → (encode p).processed < length (int_bytes (length p) ++ p)
unfolding encode int_bytes
encode-left p = omega arith

pub enough :
    (p : Bytes) (ios : List Io)
    → length p + 4 ≤ length ios
    → length (int_bytes (length p) ++ p) - (encode p).processed ≤ length ios
unfolding int_bytes encode
enough p ios n = omega (arith, n)

-- An encoded packet goes out whole and once, and is accepted, when the kernel accepts at least one
-- byte at each write and as many writes as bytes are tried: the four of the length and those of
-- the packet.
pub send_all-encode :
    (ios : List Io) (p out : Bytes)
    → All IsReady ios
    → length p + 4 ≤ length ios
    → (b : SocketBase) × (send_all ios (encode p) out
        ≡ ok (send_ok, b, out ++ (encode p).process_buf))
unfolding encode
send_all-encode ios p out rs n =
    let start = encode-IsOutgoing p out in
    let (b, out₁, run) =
      send_all_ends ios (int_bytes (length p) ++ p) out (encode p) out start (encode-left p) rs
        (enough p ios n) in
    (
      b,
      run
          ∙ ap (λ x. ok (send_ok, b, x))
              (send_all-Sent ios (int_bytes (length p) ++ p) out (encode p) out b out₁ start
                (encode-left p) run),
    )

-- From one end of a connection to the other: when all of an encoded packet was sent, in any number
-- of writes, and the receiver, in any number of reads of what was sent and of what follows, has a
-- packet complete, it decodes the packet, and what follows is still in the stream. The packet has
-- from 1 to 31996 bytes.
pub send_all-receive_all :
    (outs : List Io) (ins : List (Io × Io)) (p out rest : Bytes) (b : SocketBase) (r : Receiver)
    (s : Bytes)
    → 1 ≤ length p
    → length p ≤ 31996
    → send_all outs (encode p) [] ≡ ok (send_ok, b, out)
    → receive_all ins fresh (out ++ rest) ≡ ok (recv_ok, r, s)
    → (decode r.base ≡ p) × (s ≡ rest)
unfolding encode
send_all-receive_all outs ins p out rest b r s lo hi hs hr =
    let sent =
      send_all-Sent outs (int_bytes (length p) ++ p) [] (encode p) [] b out (encode-IsOutgoing p [])
        (encode-left p) hs in
    receive_all-encode ins p rest r s lo hi
      (ap (λ x. receive_all ins fresh (x ++ rest)) (sym sent) ∙ hr)
