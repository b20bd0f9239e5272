-- ===== src/Socket/Receive.antt =====
-- Receiving a packet (`CSocketBase::_recv`, `CRelayApi::_recv`).
use mathlib.Core.Path.{subst}
use relay_proxy.Base.{ℕ, zero, suc, ◌+◌, ◌-◌, ◌≤◌, ◌<◌}
use relay_proxy.Base.{◌≡◌, refl, ap, ◌∙◌, ◌⊎◌, inl, inr}
use relay_proxy.Base.{none, some}
use relay_proxy.Base.{[], ◌∷◌, ◌++◌, append_assoc, append-nil, arith}
use relay_proxy.Base.{leb, if◌then◌else◌}
use relay_proxy.Base.{length, take, drop}
use relay_proxy.Base.{length-append, length-take}
use relay_proxy.Base.{Bytes}
use relay_proxy.Base.{int_key, bytes_key}
use relay_proxy.Base.{ok, throw, Result-cases}
use relay_proxy.Socket.{Io, Ret, SocketBase, ready, again, failed, recv_ok, recv_have_more}
use relay_proxy.Base.{socket_exception, err_socket_recv_close}
use relay_proxy.Socket.{is_nil, size_left, read, progress, recv, put_at}
use relay_proxy.Socket.Words.{take-drop, take-all, drop-all}

-- A buffer that holds what was received, up to `processed`.
pub record IsFilled (b : SocketBase) : Type 0 where
  pub count : b.processed ≡ length b.process_buf
  pub bound : b.processed ≤ b.process_total

-- What `_recv` may do to a buffer and the stream.
pub record Advance (b b' : SocketBase) (s s' : Bytes) (ret : Ret) : Type 0 where
  pub joined : b'.process_buf ++ s' ≡ b.process_buf ++ s
  pub filled : IsFilled b'
  pub total : b'.process_total ≡ b.process_total
  pub outcome :
      ((ret ≡ recv_ok) × (b'.processed ≡ b.process_total))
      ⊎ ((ret ≡ recv_have_more) × (b'.processed < b.process_total))

abbrev received : Bytes → SocketBase → SocketBase
received got b = record b {
  process_buf = put_at b.processed got b.process_buf;
  processed = b.processed + length got;
}

put_at-end :
    (b : SocketBase) (got : Bytes)
    → IsFilled b
    → put_at b.processed got b.process_buf ≡ b.process_buf ++ got
put_at-end b got f = ground (
  arith,
  f.count,
  take-all b.process_buf b.processed,
  drop-all b.process_buf (b.processed + length got),
  append-nil (b.process_buf ++ got),
)

received-Advance :
    (b : SocketBase) (got s' : Bytes) (ret : Ret)
    → IsFilled b
    → b.processed + length got ≤ b.process_total
    → progress recv_have_more recv_ok (received got b) ≡ ok ret
    → Advance b (received got b) (got ++ s') s' ret
unfolding progress
received-Advance b got s' ret f h p = record {
  joined = ap (λ x. x ++ s') (put_at-end b got f) ∙ append_assoc b.process_buf got s';
  filled = record {
    count =
        ground (arith, f.count, length-append b.process_buf got, ap length (put_at-end b got f));
    bound = h;
  };
  total = refl;
  outcome = ground (arith, h, p);
}

pub read_ok :
    (io : Io) (n : ℕ) (s got s' : Bytes)
    → read io n s ≡ ok (some (got, s'))
    → (got ++ s' ≡ s) × (length got ≤ n)
unfolding read
read_ok again n s got s' h = cc h
read_ok failed n s got s' h = cc h
read_ok (ready k) n s got s' h =
    let m = if leb k n then k else n in ground (arith, h, take-drop m s, length-take m s)

abbrev pub Outcome : SocketBase → Bytes → Ret × SocketBase × Bytes → Type 0
Outcome b s (ret, b', s') = Advance b b' s s' ret

pub of_ok {ℓ} : {A : Type ℓ} (x y : A) → ok x ≡ ok y → x ≡ y
of_ok x y e = cc e

stuck-Advance :
    (b : SocketBase) (s : Bytes)
    → IsFilled b
    → b.processed < b.process_total
    → Advance b b s s recv_have_more
stuck-Advance b s f lt = record {
  joined = refl;
  filled = f;
  total = refl;
  outcome = inr (refl, lt);
}

pub size_left-exact :
    (b : SocketBase) → b.processed ≤ b.process_total → size_left b ≡ b.process_total - b.processed
unfolding size_left
size_left-exact b h = ground arith

pub progress-cases :
    (more done : Ret) (b : SocketBase)
    → b.processed ≤ b.process_total
    → ((progress more done b ≡ ok done) × (b.processed ≡ b.process_total))
      ⊎ ((progress more done b ≡ ok more) × (b.processed < b.process_total))
unfolding progress
progress-cases more done b h = ground arith

abbrev pub moved : ℕ → ℕ → ℕ
moved k n = if leb k n then k else n

pub read-some :
    (j n m : ℕ) (s : Bytes)
    → moved j n ≡ m
    → 1 ≤ m
    → 1 ≤ length s
    → read (ready j) n s ≡ ok (some (take m s, drop m s))
unfolding read
read-some j n zero s e lo ls = absurd (omega (arith, lo))
read-some j n (suc m) [] e lo ls = absurd (omega (arith, ls))
read-some j n (suc m) (c ∷ s) e lo ls =
    ap
      (λ m.
        if is_nil (take m (c ∷ s))
        then throw (socket_exception err_socket_recv_close)
        else ok (some (take m (c ∷ s), drop m (c ∷ s))))
      e

-- Something comes: `_recv` succeeds and takes it.
pub recv-ready :
    (k : ℕ) (b : SocketBase) (s : Bytes)
    → 1 ≤ k
    → IsFilled b
    → b.processed < b.process_total
    → 1 ≤ length s
    → (ret : Ret) × (b' : SocketBase) × (s' : Bytes) × (recv (ready k) b s ≡ ok (ret, b', s'))
      × (b.processed < b'.processed)
unfolding recv
recv-ready k b s lo f lt ls =
    let m = moved k (size_left b) in
    let (up, fits) = gain k b s lo ls lt in
    let e = read-some k (size_left b) m s refl (first k b lo lt) ls in
    elim (progress-cases recv_have_more recv_ok (received (take m s) b) fits) [
      | inl (p, _) ↦ (recv_ok, received (take m s) b, drop m s, rw (e, p) refl, up)
      | inr (p, _) ↦ (recv_have_more, received (take m s) b, drop m s, rw (e, p) refl, up)
    ]
  where
    first :
        (k : ℕ) (b : SocketBase) → 1 ≤ k → b.processed < b.process_total → 1 ≤ moved k (size_left b)
    first k b lo lt = ground (arith, size_left-exact b)

    gain :
        (k : ℕ) (b : SocketBase) (s : Bytes)
        → 1 ≤ k
        → 1 ≤ length s
        → b.processed < b.process_total
        → (b.processed < b.processed + length (take (moved k (size_left b)) s))
          × (b.processed + length (take (moved k (size_left b)) s) ≤ b.process_total)
    gain k b s lo ls lt = ground (arith, size_left-exact b, length-take (moved k (size_left b)) s)

-- A successful `_recv` keeps the order of the bytes, and says whether the packet is complete.
pub recv-Advance :
    (io : Io) (b b' : SocketBase) (s s' : Bytes) (ret : Ret)
    → IsFilled b
    → b.processed < b.process_total
    → recv io b s ≡ ok (ret, b', s')
    → Advance b b' s s' ret
unfolding recv size_left
recv-Advance io b b' s s' ret f lt h = elim (Result-cases (read io (size_left b) s)) [
  | inr (x, e) ↦ absurd (cc (rw e at h))
  | inl (none, e) ↦ subst (Outcome b s) (of_ok _ _ (rw e at h)) (stuck-Advance b s f lt)
  | inl (some (got, rest), e) ↦
      elim (Result-cases (progress recv_have_more recv_ok (received got b))) [
        | inr (x, p) ↦ absurd (cc (rw (e, p) at h))
        | inl (r, p) ↦
            let (whole, fits) = read_ok io (size_left b) s got rest e in
            subst (Outcome b s) (of_ok _ _ (rw (e, p) at h)) (
              subst (λ x. Advance b (received got b) x rest r) whole
                (received-Advance b got rest r f (ground (arith, f.bound, fits)) p))
      ]
]

cons_head : (x z : ℕ) (xs ys zs ws : Bytes) → (x ∷ xs) ++ ys ≡ (z ∷ zs) ++ ws → x ≡ z
cons_head x z xs ys zs ws e = cc e

pub append_inj :
    (xs ys zs ws : Bytes) → xs ++ ys ≡ zs ++ ws → length xs ≡ length zs → (xs ≡ zs) × (ys ≡ ws)
append_inj [] ys [] ws e h = (refl, e)
append_inj [] ys (z ∷ zs) ws e h = absurd (omega (arith, h))
append_inj (x ∷ xs) ys [] ws e h = absurd (omega (arith, h))
append_inj (x ∷ xs) ys (z ∷ zs) ws e h =
    let (es, et) = append_inj xs ys zs ws (cc e) (omega (arith, h)) in
    (ground (arith, es, cons_head x z xs ys zs ws e), et)
