-- ===== src/Events/Monitor/Rounds.antt =====
-- One round of the loop of `sys/epoll_monitor.cpp`: what is active, when an event is out of time, and
-- when the heart beat is sent.
use relay_proxy.Base.{
  ℕ, zero, suc, ◌+◌, ◌-◌, ◌*◌, ◌/◌, ◌≤◌, ◌≡◌, refl, ℤ, pos, negsuc, ltb_ℤ, ◌-ℤ◌, ◌*ℤ◌, wrap_int,
  incr_pos, ltb, eq_of_parts, int_laws, ◌+ℤ◌, +ℤ_parts, -ℤ_parts, pos_part, neg_part, wrap_int-pos,
  ap, Bool, true, false, not, ◌&&◌, ◌||◌, if◌then◌else◌, arith, Bool-cases, inl, inr,
}
use relay_proxy.Events.{
  EventBase, TimeVal, check_mask, set_mask, is_time_out, ev_read, ev_write, ev_timeout, ev_persist,
}
use relay_proxy.Events.Monitor.{Monitor, active_of, epoll_in, epoll_out, beat}

abbrev mask_of : Bool → Bool → Bool → ℕ
mask_of i o over =
    let r = if i then set_mask 0 ev_read else 0 in
    let w = if o then set_mask r ev_write else r in
    if i || o then w else (if over then set_mask w ev_timeout else w)

masks :
    (i o over : Bool)
    → (check_mask (mask_of i o over) ev_read ≡ i)
      × (check_mask (mask_of i o over) ev_write ≡ o)
      × (check_mask (mask_of i o over) ev_timeout ≡ (not i && not o && over))
unfolding check_mask set_mask
masks true true over = (refl, refl, refl)
masks true false over = (refl, refl, refl)
masks false true over = (refl, refl, refl)
masks false false true = (refl, refl, refl)
masks false false false = (refl, refl, refl)

-- What a handler is told: that it can read or write exactly as the kernel reports, and that the
-- time is over only if the kernel reports neither. So an event that the kernel does not report is
-- never found to be out of time.
pub active_of_masks :
    (now : TimeVal) (what : ℕ) (e : EventBase)
    → (check_mask (active_of now what e) ev_read ≡ check_mask what epoll_in)
      × (check_mask (active_of now what e) ev_write ≡ check_mask what epoll_out)
      × (check_mask (active_of now what e) ev_timeout ≡ (
          not (check_mask what epoll_in) && not (check_mask what epoll_out) && is_time_out now e))
unfolding active_of
active_of_masks now what e =
    masks (check_mask what epoll_in) (check_mask what epoll_out) (is_time_out now e)

minus_plus : (a b : ℤ) (n : ℕ) → b ≡ a +ℤ pos n → b -ℤ a ≡ pos n
minus_plus a b n e =
    eq_of_parts (b -ℤ a) (pos n)
      (omega (int_laws, -ℤ_parts b a, +ℤ_parts a (pos n), ap pos_part e, ap neg_part e))

minus_self : (a b : ℤ) → b ≡ a → b -ℤ a ≡ pos 0
minus_self a b e =
    eq_of_parts (b -ℤ a) (pos 0) (omega (int_laws, -ℤ_parts b a, ap pos_part e, ap neg_part e))

micros : (s u : ℕ) → pos s *ℤ pos 1000000 +ℤ pos u ≡ pos (s * 1000000 + u)
unfolding ◌*ℤ◌ ◌+ℤ◌
micros s u = ground arith

wrap_int-negsuc :
    (n : ℕ) → 2147483648 ≤ n → n ≤ 4294967295 → wrap_int (pos n) ≡ negsuc (4294967295 - n)
unfolding wrap_int
wrap_int-negsuc n lo hi = ground arith

-- The elapsed time is cut to an `int` of microseconds: within the first 2147 seconds the test
-- compares the true time.
pub is_time_out-elapsed :
    (now : TimeVal) (e : EventBase) (s u : ℕ)
    → check_mask e.event ev_persist ≡ false
    → now.tv_sec ≡ e.init_time.tv_sec +ℤ pos s
    → now.tv_usec ≡ e.init_time.tv_usec +ℤ pos u
    → s * 1000000 + u ≤ 2147483647
    → is_time_out now e ≡ ltb_ℤ e.time_out (pos (s * 1000000 + u))
unfolding is_time_out
is_time_out-elapsed now e s u plain hs hu h =
    rw
      (
        plain,
        minus_plus e.init_time.tv_sec now.tv_sec s hs,
        minus_plus e.init_time.tv_usec now.tv_usec u hu,
        micros s u,
        wrap_int-pos (s * 1000000 + u) h,
      )
      refl

-- Between 2148 and 4294 seconds after its start, to the microsecond, the cut time is negative, and an
-- event with a limit that is not negative is not out of time.
pub is_time_out-wraps :
    (now : TimeVal) (e : EventBase) (s : ℕ) (limit : ℕ)
    → e.time_out ≡ pos limit
    → now.tv_sec ≡ e.init_time.tv_sec +ℤ pos s
    → now.tv_usec ≡ e.init_time.tv_usec
    → 2148 ≤ s
    → s ≤ 4294
    → is_time_out now e ≡ false
unfolding is_time_out
is_time_out-wraps now e s limit t hs hu lo hi = elim (Bool-cases (check_mask e.event ev_persist)) [
  | inl lasting ↦ rw lasting refl
  | inr plain ↦
      rw
        (
          plain,
          minus_plus e.init_time.tv_sec now.tv_sec s hs,
          minus_self e.init_time.tv_usec now.tv_usec hu,
          micros s 0,
          wrap_int-negsuc (s * 1000000 + 0) (omega arith) (omega arith),
          t,
        )
        (ground arith)
]

-- `k` rounds of the loop: how many heart beats they send.
unfoldable pub beats : ℕ → Monitor → ℕ
beats zero m = 0
beats (suc k) m =
    let (m', sent) = beat m in let rest = beats k m' in if sent then suc rest else rest

-- The heart beat is sent once in 33 rounds.
pub beats_count :
    (k c : ℕ) (m : Monitor) → m.heart_beat_count ≡ pos c → c ≤ 32 → beats k m ≡ (k + c) / 33
unfolding beats beat
beats_count zero c m e h = omega arith
beats_count (suc k) c m e h = elim (Bool-cases (ltb 31 c)) [
  | inl last ↦
      ground (arith, last, e, incr_pos c, beats_count k 0 (record m { heart_beat_count = pos 0 }))
  | inr more ↦ ground (
    arith,
    more,
    e,
    incr_pos c,
    beats_count k (c + 1) (record m { heart_beat_count = pos (c + 1) }),
  )
]
