-- ===== src/Socket/Arrival.antt =====
-- How many turns of the event loop a packet takes to arrive (`CRelayApi::_recv`,
-- `CClientSocket::process`).
use mathlib.Core.Path.{subst}
use relay_proxy.Base.{ℕ, ◌+◌, ◌-◌, ◌≤◌, ◌<◌}
use relay_proxy.Base.{◌≡◌, refl, sym, ap, ◌∙◌, inl, inr}
use relay_proxy.Base.{true, false, some}
use relay_proxy.Base.{List, [], ◌∷◌, ◌++◌, append_assoc, arith}
use relay_proxy.Base.{if◌then◌else◌, Bool-cases}
use relay_proxy.Base.{length, All}
use relay_proxy.Base.{length-append}
use relay_proxy.Base.{Bytes}
use relay_proxy.Base.{int_key, bytes_key}
use relay_proxy.Base.{Result, ok, ◌>>=◌}
use relay_proxy.Socket.{Io, Ret, Receiver, ready, again, failed, recv_ok}
use relay_proxy.Socket.{read, int_bytes, recv_body, receive, encode, decode}
use relay_proxy.Socket.Receive.{recv-ready, read-some}
use relay_proxy.Socket.Head.{
  Incoming, frame, headed, recv_head-headed, Incoming-empty, headed-HasHead,
}
use relay_proxy.Socket.Framing.{
  receive-on, if_false, receive-off, receive-Received, receive_all, fresh, fresh-Incoming,
  receive_all-encode,
}

-- A turn of the event loop at which the head, if it is awaited, and some of the body are there.
abbrev pub IsArriving : Io × Io → Type 0
IsArriving (ready j, ready k) = (4 ≤ j) × (1 ≤ k)
IsArriving (head, body) = ⊥

read_head-ready :
    (j n : ℕ) (s : Bytes) → 4 ≤ j → read (ready j) 4 (int_bytes n ++ s) ≡ ok (some (int_bytes n, s))
unfolding int_bytes
read_head-ready j n s h =
    read-some j 4 4 (int_bytes n ++ s) (ground (arith, h)) (omega arith) (omega arith)

-- What an incoming packet still lacks.
unfoldable pub lacking : Bytes → Receiver → ℕ
lacking p r = if r.is_head then length p + 4 - r.base.processed else length p + 4

abbrev pub Advances : Bytes → Bytes → Receiver → Bytes → Result (Ret × Receiver × Bytes) → Type 0
Advances p rest r s result =
    (ret : Ret) × (r' : Receiver) × (s' : Bytes) × (result ≡ ok (ret, r', s'))
    × (lacking p r' < lacking p r)

Incoming-left :
    (p rest : Bytes) (r : Receiver) (s : Bytes)
    → Incoming (frame p) rest r s
    → length r.base.process_buf + length s ≡ length (frame p) + length rest
Incoming-left p rest r s i =
    sym (length-append r.base.process_buf s) ∙ ap length i.joined ∙ length-append (frame p) rest

pub length-frame : (p : Bytes) → length (frame p) ≡ length p + 4
unfolding int_bytes
length-frame p = omega arith

body-Advances :
    (k : ℕ) (p rest : Bytes) (r : Receiver) (s : Bytes)
    → 1 ≤ k
    → Incoming (frame p) rest r s
    → r.is_head ≡ true
    → Advances p rest r s (recv_body (ready k) r s)
unfolding recv_body lacking
body-Advances k p rest r s lo i on = elim i.state [
  | inl (off, _) ↦ absurd (cc (on, off))
  | inr (_, f, t, lt) ↦
      let (ret, b, s', e, up) =
        recv-ready k r.base s lo f lt (omega (arith, f.count, t, lt, Incoming-left p rest r s i)) in
      (ret, record r { base = b }, s', rw e refl, ground (arith, on, up, t, lt, length-frame p))
]

pub lacking-off : (p : Bytes) (r : Receiver) → r.is_head ≡ false → lacking p r ≡ length p + 4
unfolding lacking
lacking-off p r off = if_false r.is_head _ _ off

headed-lacking :
    (p : Bytes) → lacking p (record { base = headed (length p); is_head = true }) ≡ length p + 4 - 4
unfolding lacking
headed-lacking p = refl

pub receive-Advances :
    (j k : ℕ) (p rest : Bytes) (r : Receiver) (s : Bytes)
    → 4 ≤ j
    → 1 ≤ k
    → 1 ≤ length p
    → length p ≤ 31996
    → Incoming (frame p) rest r s
    → Advances p rest r s (receive (ready j) (ready k) r s)
receive-Advances j k p rest r s hj hk lo hi i = elim (Bool-cases r.is_head) [
  | inl on ↦
      subst (Advances p rest r s) (sym (receive-on (ready j) (ready k) r s on))
        (body-Advances k p rest r s hk i on)
  | inr off ↦
      let empty = Incoming-empty p rest r s i off in
      let start = ap (λ x. x ++ s) (sym empty) ∙ i.joined in
      let run = recv_head-headed (ready j) (length p) r s (p ++ rest) lo hi empty (
        ap (read (ready j) 4) (start ∙ append_assoc (int_bytes (length p)) p rest)
        ∙ read_head-ready j (length p) (p ++ rest) hj) in
      let r₁ : Receiver = record { base = headed (length p); is_head = true } in
      let (i₁, on) = headed-HasHead p rest (p ++ rest) lo refl in
      let (ret, r', s', e, less) = body-Advances k p rest r₁ (p ++ rest) hk i₁ on in
      (
        ret,
        r',
        s',
        receive-off (ready j) (ready k) r s off
            ∙ ap (λ o. o >>= λ (r', s'). recv_body (ready k) r' s') run
            ∙ e,
        omega (arith, less, lacking-off p r off, headed-lacking p),
      )
]

pub Incoming-lacking :
    (p rest : Bytes) (r : Receiver) (s : Bytes)
    → Incoming (frame p) rest r s
    → r.is_head ≡ true
    → 1 ≤ lacking p r
unfolding lacking
Incoming-lacking p rest r s i on = elim i.state [
  | inl (off, _) ↦ absurd (cc (on, off))
  | inr (_, f, t, lt) ↦ ground (arith, on, t, lt, length-frame p)
]

receive_all_ends :
    (ios : List (Io × Io)) (p rest : Bytes) (r : Receiver) (s : Bytes)
    → 1 ≤ length p
    → length p ≤ 31996
    → Incoming (frame p) rest r s
    → All IsArriving ios
    → lacking p r ≤ length ios
    → 1 ≤ lacking p r
    → (r' : Receiver) × (s' : Bytes) × (receive_all ios r s ≡ ok (recv_ok, r', s'))
unfolding receive_all
receive_all_ends [] p rest r s lo hi i ars n one = absurd (omega (arith, n, one))
receive_all_ends ((again, body) ∷ ios) p rest r s lo hi i (a, ars) n one = absurd a
receive_all_ends ((failed, body) ∷ ios) p rest r s lo hi i (a, ars) n one = absurd a
receive_all_ends ((ready j, again) ∷ ios) p rest r s lo hi i (a, ars) n one = absurd a
receive_all_ends ((ready j, failed) ∷ ios) p rest r s lo hi i (a, ars) n one = absurd a
receive_all_ends ((ready j, ready k) ∷ ios) p rest r s lo hi i ((hj, hk), ars) n one =
    let (ret, r₁, s₁, e, less) = receive-Advances j k p rest r s hj hk lo hi i in
    elim (receive-Received (ready j) (ready k) p rest r s ret r₁ s₁ lo hi i e) [
      | inl (done, _, _) ↦ (r₁, s₁, rw (e, done) refl)
      | inr (more, on, i₁) ↦
          let (r', s', run) =
            receive_all_ends ios p rest r₁ s₁ lo hi i₁ ars (omega (arith, n, less))
              (Incoming-lacking p rest r₁ s₁ i₁ on) in
          (r', s', rw (e, more) run)
    ]

-- The turns of the event loop end: if at each of them some bytes of the packet are there, with the
-- whole head at the first, as many turns as the packet and its length have bytes complete it, and
-- `_decode` gives what was sent. The packet has from 1 to 31996 bytes.
pub receive_all_total :
    (ios : List (Io × Io)) (p rest : Bytes)
    → 1 ≤ length p
    → length p ≤ 31996
    → All IsArriving ios
    → length p + 4 ≤ length ios
    → (r : Receiver) × (receive_all ios fresh ((encode p).process_buf ++ rest)
        ≡ ok (recv_ok, r, rest))
      × (decode r.base ≡ p)
unfolding encode lacking
receive_all_total ios p rest lo hi ars n =
    let (r, s, run) =
      receive_all_ends ios p rest fresh (frame p ++ rest) lo hi (fresh-Incoming p rest) ars n
        (omega arith) in
    let (same, after) = receive_all-encode ios p rest r s lo hi run in
    (r, run ∙ ap (λ x. ok (recv_ok, r, x)) after, same)
