-- ===== src/Socket/Head.antt =====
-- The head of a packet, its length (`_recv_head` of `src/client_socket.cpp` and
-- `api/relay_api.cpp`), and what is known of a packet that is on its way.
use mathlib.Core.Path.{subst}
use relay_proxy.Base.{ℕ, ◌+◌, ◌-◌, ◌≤◌, ◌<◌}
use relay_proxy.Base.{◌≡◌, refl, sym, ap, ◌∙◌, ◌⊎◌, inl, inr}
use relay_proxy.Base.{true, false, ◌||◌, none, some}
use relay_proxy.Base.{[], ◌++◌, arith}
use relay_proxy.Base.{ltb, Bool-cases}
use relay_proxy.Base.{length}
use relay_proxy.Base.{pos, ltb_ℤ, leb_ℤ}
use relay_proxy.Base.{Bytes}
use relay_proxy.Base.{int_key, bytes_key}
use relay_proxy.Base.{ok, Result-cases}
use relay_proxy.Socket.{Io, Ret, SocketBase, Receiver, recv_ok, recv_have_more}
use relay_proxy.Socket.{
  read, max_packet_len, recv, put_at, int_bytes, read_int, recv_head, recv_body,
}
use relay_proxy.Socket.Words.{read_int-int_bytes}
use relay_proxy.Socket.Receive.{IsFilled, recv-Advance, read_ok, of_ok, append_inj}

-- A packet `frame` is on its way: what is there and what is still in the stream make up the
-- packet and what follows it.
pub record Incoming (frame rest : Bytes) (r : Receiver) (s : Bytes) : Type 0 where
  pub joined : r.base.process_buf ++ s ≡ frame ++ rest
  pub state :
      ((r.is_head ≡ false) × (r.base.process_buf ≡ []))
      ⊎ ((r.is_head ≡ true)
          × IsFilled r.base
          × (r.base.process_total ≡ length frame)
          × (r.base.processed < r.base.process_total))

abbrev pub frame : Bytes → Bytes
frame p = int_bytes (length p) ++ p

abbrev pub Received : Bytes → Bytes → Ret × Receiver × Bytes → Type 0
Received p rest (ret, r, s) =
    ((ret ≡ recv_ok) × (r.base.process_buf ≡ frame p) × (s ≡ rest))
    ⊎ ((ret ≡ recv_have_more) × (r.is_head ≡ true) × Incoming (frame p) rest r s)

-- The body of a packet, once the head is there.
recv-Received :
    (io : Io) (p rest : Bytes) (r : Receiver) (s : Bytes) (ret : Ret) (b : SocketBase) (s' : Bytes)
    → Incoming (frame p) rest r s
    → r.is_head ≡ true
    → recv io r.base s ≡ ok (ret, b, s')
    → Received p rest (ret, record r { base = b }, s')
recv-Received io p rest r s ret b s' i on h = elim i.state [
  | inl (off, _) ↦ absurd (cc (on, off))
  | inr (_, f, t, lt) ↦
      let a = recv-Advance io r.base b s s' ret f lt h in
      elim a.outcome [
        | inl (e, full) ↦
            let (same, after) =
              append_inj b.process_buf s' (frame p) rest (a.joined ∙ i.joined)
                (omega (arith, a.filled.count, full, t)) in
            inl (e, same, after)
        | inr (e, part) ↦ inr (
          e,
          on,
          record {
            joined = a.joined ∙ i.joined;
            state = inr (on, a.filled, a.total ∙ t, ground (arith, a.total, part));
          },
        )
      ]
]

abbrev pub headed : ℕ → SocketBase
headed n = record { process_buf = put_at 0 (int_bytes n) []; process_total = n + 4; processed = 4 }

pub recv_head-headed :
    (io : Io) (n : ℕ) (r : Receiver) (s s' : Bytes)
    → 1 ≤ n
    → n ≤ 31996
    → r.base.process_buf ≡ []
    → read io 4 s ≡ ok (some (int_bytes n, s'))
    → recv_head io r s ≡ ok (record { base = headed n; is_head = true }, s')
unfolding recv_head int_bytes
recv_head-headed io n r s s' lo hi empty e = ground (arith, e, empty, read_int-int_bytes n [])

read-head :
    (io : Io) (p rest got s s' : Bytes)
    → s ≡ frame p ++ rest
    → length got ≡ 4
    → read io 4 s ≡ ok (some (got, s'))
    → (got ≡ int_bytes (length p)) × (s' ≡ p ++ rest)
unfolding int_bytes
read-head io p rest got s s' h four e =
    let (whole, _) = read_ok io 4 s got s' e in
    append_inj got s' (int_bytes (length p)) (p ++ rest) (whole ∙ h) four

-- The head is read whole, or `_recv_head` throws.
recv_head-read :
    (io : Io) (r r' : Receiver) (s s' : Bytes)
    → recv_head io r s ≡ ok (r', s')
    → (got : Bytes) × (read io 4 s ≡ ok (some (got, s'))) × (length got ≡ 4)
unfolding recv_head
recv_head-read io r r' s s' h = elim (Result-cases (read io 4 s)) [
  | inr (x, e) ↦ absurd (cc (rw e at h))
  | inl (none, e) ↦ absurd (cc (rw e at h))
  | inl (some (got, rest), e) ↦
      let (_, fits) = read_ok io 4 s got rest e in
      elim (Bool-cases (ltb (length got) 4)) [
        | inl short ↦ absurd (cc (rw (e, short) at h))
        | inr long ↦
            elim (Bool-cases
              (leb_ℤ (read_int got) (pos 0) || ltb_ℤ (pos (max_packet_len - 4)) (read_int got))) [
                | inl bad ↦ absurd (cc (rw (e, long, bad) at h))
                | inr good ↦ (
                  got,
                  ground (arith, e, of_ok _ _ (rw (e, long, good) at h)),
                  ground (arith, long, fits),
                )
              ]
      ]
]

pub Incoming-empty :
    (p rest : Bytes) (r : Receiver) (s : Bytes)
    → Incoming (frame p) rest r s
    → r.is_head ≡ false
    → r.base.process_buf ≡ []
Incoming-empty p rest r s i off = elim i.state [
  | inl (_, e) ↦ e
  | inr (on, _, _, _) ↦ absurd (cc (on, off))
]

abbrev HasHead : Bytes → Bytes → Receiver × Bytes → Type 0
HasHead p rest (r, s) = Incoming (frame p) rest r s × (r.is_head ≡ true)

pub headed-HasHead :
    (p rest s' : Bytes)
    → 1 ≤ length p
    → s' ≡ p ++ rest
    → HasHead p rest (record { base = headed (length p); is_head = true }, s')
unfolding int_bytes
headed-HasHead p rest s' lo e = (
  record {
    joined = ap (λ x. int_bytes (length p) ++ x) e;
    state =
        inr (refl, record { count = refl; bound = omega arith }, omega arith, omega (arith, lo));
  },
  refl,
)

pub recv_head-Incoming :
    (io : Io) (p rest : Bytes) (r r' : Receiver) (s s' : Bytes)
    → 1 ≤ length p
    → length p ≤ 31996
    → Incoming (frame p) rest r s
    → r.is_head ≡ false
    → recv_head io r s ≡ ok (r', s')
    → Incoming (frame p) rest r' s' × (r'.is_head ≡ true)
unfolding recv_head
recv_head-Incoming io p rest r r' s s' lo hi i off h =
    let (got, e, four) = recv_head-read io r r' s s' h in
    let empty = Incoming-empty p rest r s i off in
    let (same, after) =
      read-head io p rest got s s' (ap (λ x. x ++ s) (sym empty) ∙ i.joined) four e in
    let run =
      recv_head-headed io (length p) r s s' lo hi empty (e ∙ ap (λ x. ok (some (x, s'))) same) in
    subst (HasHead p rest) (of_ok _ _ (sym run ∙ h)) (headed-HasHead p rest s' lo after)

pub body-Received :
    (io : Io) (p rest : Bytes) (r : Receiver) (s : Bytes) (t : Ret × Receiver × Bytes)
    → Incoming (frame p) rest r s
    → r.is_head ≡ true
    → recv_body io r s ≡ ok t
    → Received p rest t
unfolding recv_body
body-Received io p rest r s t i on h = elim (Result-cases (recv io r.base s)) [
  | inr (x, e) ↦ absurd (cc (rw e at h))
  | inl ((ret, b, s''), e) ↦
      subst (Received p rest) (of_ok _ _ (rw e at h)) (recv-Received io p rest r s ret b s'' i on e)
]
