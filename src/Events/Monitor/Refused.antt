-- ===== src/Events/Monitor/Refused.antt =====
-- `CEpollMonitor::add` (`sys/epoll_monitor.cpp`) where the kernel refuses.
use relay_proxy.Base.{
  ℕ, ◌≤◌, ◌≡◌, ◌≢◌, refl, sym, ap, ◌∙◌, Bool, true, false, ◌&&◌, ℤ, List, [], ◌∷◌, ◌++◌, length, ok,
  Result, ◌>>=◌, throw, ipc_exception, err_sys_unknown, All, arith, length-append, Bool-cases, inl,
  inr, ltb_ℤ, suc,
}
use mathlib.Core.Path.{subst}
use relay_proxy.Events.{EventQueue, EventBase, upd, add_sorted}
use relay_proxy.Events.Links.{Fresh, All-left, All-right}
use relay_proxy.Events.Queue.{Holds}
use relay_proxy.Events.Sorted.{
  Falling, insert_sorted, key_of, add_sorted-Falling, add_sorted-duplicate,
}
use relay_proxy.Events.Monitor.{Monitor, allocate, add, add_allocated, caught}
use relay_proxy.Events.Monitor.Allocated.{
  Watches, IsNewEvent, allocate-Holds, Falling-cong, same_keys, allocate-IsNew, allocated,
  allocated_tail,
}

add_allocated-failed :
    (fuel p : ℕ) (fstat_ok ctl_ok : Bool) (a : Monitor) (q : EventQueue)
    → add_sorted fuel p a.event_queue ≡ ok q
    → fstat_ok && ctl_ok ≡ false
    → add_allocated fuel fstat_ok ctl_ok p a ≡ ok (record a { event_queue = q }, false)
unfolding add_allocated
add_allocated-failed fuel p fstat_ok ctl_ok a q h bad = rw (h, add_allocated) (rw bad refl)

insert_view :
    (key : ℕ → ℤ) (v : ℕ) (xs : List ℕ)
    → (a : List ℕ) × (b : List ℕ) × (insert_sorted key v xs ≡ a ++ v ∷ b) × (xs ≡ a ++ b)
insert_view key v [] = ([], [], refl, refl)
insert_view key v (x ∷ xs) = elim (Bool-cases (ltb_ℤ (key v) (key x))) [
  | inl e ↦ let (a, b, i, j) = insert_view key v xs in (x ∷ a, b, rw e (ap (◌∷◌ x) i), ap (◌∷◌ x) j)
  | inr e ↦ ([], x ∷ xs, rw e refl, refl)
]

add_allocated-duplicate :
    (fuel p : ℕ) (fstat_ok ctl_ok : Bool) (a : Monitor)
    → add_sorted fuel p a.event_queue ≡ throw (ipc_exception err_sys_unknown)
    → add_allocated fuel fstat_ok ctl_ok p a ≡ ok (a, false)
unfolding caught add_allocated
add_allocated-duplicate fuel p fstat_ok ctl_ok a h = rw (h, add_allocated) refl

objects_keys :
    (r : ℕ) (d : EventBase) (p : ℕ) (c b : Monitor)
    → c.event_queue.object ≡ upd b.event_queue.object r d
    → r ≢ p
    → key_of b.event_queue p ≡ d.fd
    → key_of c.event_queue p ≡ key_of c.event_queue r
objects_keys r d p c b o n e =
    let at_p : c.event_queue.object p ≡ b.event_queue.object p =
      ap (λ g. g p) o ∙ ground (arith, n) in
    let at_r : c.event_queue.object r ≡ d = ap (λ g. g r) o ∙ ground arith in cc

-- One more `add` of a descriptor that an event `p` of the queue has: it fails, and leaves the queue.
refused_again :
    (fuel p r : ℕ) (d : EventBase) (fstat_ok ctl_ok : Bool) (left right : List ℕ) (b : Monitor)
    → let ys = left ++ p ∷ right in
      Holds ys b.event_queue
      → Falling (key_of b.event_queue) ys
      → length ys ≤ fuel
      → Fresh r (ys ++ b.event_queue.tail ∷ [])
      → d.fd ≡ key_of b.event_queue p
      → (add fuel fstat_ok ctl_ok r d b ≡ ok (allocate r d b, false))
        × Holds ys (allocate r d b).event_queue
        × Falling (key_of (allocate r d b).event_queue) ys
        × (key_of (allocate r d b).event_queue p ≡ key_of b.event_queue p)
unfolding add
refused_again fuel p r d fstat_ok ctl_ok left right b k fall size new same =
    let ys = left ++ p ∷ right in
    let c = allocate r d b in
    let names = All-left _ ys (b.event_queue.tail ∷ []) new in
    let falls =
      Falling-cong (key_of b.event_queue) (key_of c.event_queue) ys (same_keys r d ys b names)
        fall in
    let holds = allocate-Holds r d ys b new k in
    let apart = (All-right _ left (p ∷ right) names).0 in
    let at_p : c.event_queue.object p ≡ b.event_queue.object p =
      ap (λ g. g p) (allocated r d b).0 ∙ ground (arith, apart) in
    let here : key_of c.event_queue p ≡ key_of b.event_queue p = ap (λ x. x.fd) at_p in
    let keys : key_of c.event_queue p ≡ key_of c.event_queue r =
      objects_keys r d p c b (allocated r d b).0 (ground (arith, apart)) (sym same) in
    (
      add_allocated-duplicate fuel r fstat_ok ctl_ok c
          (add_sorted-duplicate fuel r p left right c.event_queue holds falls keys size),
      holds,
      falls,
      here,
    )

-- One call of `add`: the address of the new event, the event, and what the kernel answers.
pub record Attempt : Type 0 where
  pub address : ℕ
  pub event : EventBase
  pub fstat_ok : Bool
  pub ctl_ok : Bool

-- The calls one after another, and what each returned.
unfoldable pub attempts : (fuel : ℕ) → List Attempt → Monitor → Result (Monitor × List Bool)
attempts fuel [] m = ok (m, [])
attempts fuel (t ∷ ts) m = add fuel t.fstat_ok t.ctl_ok t.address t.event m >>= λ (m', added).
    attempts fuel ts m' >>= λ (m'', rest). ok (m'', added ∷ rest)

unfoldable pub all_false : List Attempt → List Bool
all_false [] = []
all_false (t ∷ ts) = false ∷ all_false ts

refused_always :
    (fuel p : ℕ) (left right : List ℕ) (ts : List Attempt) (b : Monitor) (tail : ℕ) (fd : ℤ)
    → let ys = left ++ p ∷ right in
      Holds ys b.event_queue
      → Falling (key_of b.event_queue) ys
      → length ys ≤ fuel
      → b.event_queue.tail ≡ tail
      → key_of b.event_queue p ≡ fd
      → All (λ t. Fresh t.address (ys ++ tail ∷ []) × (t.event.fd ≡ fd)) ts
      → (m : Monitor) × (attempts fuel ts b ≡ ok (m, all_false ts))
        × (m.event_queue.in_queue p ≡ true)
        × (m.watch ≡ b.watch)
unfolding attempts all_false
refused_always fuel p left right [] b tail fd k fall size at same h =
    (b, refl, (All-right _ left (p ∷ right) k.marked).0, refl)
refused_always fuel p left right (t ∷ ts) b tail fd k fall size at same ((new, is_fd), h) =
    let ys = left ++ p ∷ right in
    let (e, k', fall', here) =
      refused_again fuel p t.address t.event t.fstat_ok t.ctl_ok left right b k fall size
        (subst (λ n. Fresh t.address (ys ++ n ∷ [])) (sym at) new) (is_fd ∙ sym same) in
    let c = allocate t.address t.event b in
    let (m, e', q, w) =
      refused_always fuel p left right ts c tail fd k' fall' size
        (allocated_tail t.address t.event b ∙ at) (here ∙ same) h in
    (
      m,
      ap
            (λ (r : Result (Monitor × Bool)).
              r >>= λ (m', added). attempts fuel ts m' >>= λ (m'', rest). ok (m'', added ∷ rest))
            e
          ∙ ap (λ (r : Result (Monitor × List Bool)). r >>= λ (m'', rest). ok (m'', false ∷ rest))
              e',
      q,
      w ∙ (allocated t.address t.event b).1,
    )

-- After an `add` of a new event that the kernel refused, to a queue whose events are watched, the event
-- is in the queue and the kernel was not told of it: however often
-- the same descriptor is then added again, with nothing between, and whatever the kernel answers, each
-- `add` fails, the event stays in the queue and the kernel is told nothing. The new events are at
-- addresses that are not in the queue.
pub add_refused-stuck :
    (fuel p : ℕ) (e : EventBase) (fstat_ok ctl_ok : Bool) (ts : List Attempt) (xs : List ℕ)
    (m : Monitor)
    → Watches xs m
    → IsNewEvent p e xs m
    → suc (length xs) ≤ fuel
    → fstat_ok && ctl_ok ≡ false
    → All
        (λ t.
          Fresh t.address
            (insert_sorted (key_of (allocate p e m).event_queue) p xs ++ m.event_queue.tail ∷ [])
          × (t.event.fd ≡ e.fd))
        ts
    → (m' : Monitor) × (add fuel fstat_ok ctl_ok p e m ≡ ok (m', false))
      × (m'.event_queue.in_queue p ≡ true)
      × (m'.watch ≡ m.watch)
      × ((m'' : Monitor) × (attempts fuel ts m' ≡ ok (m'', all_false ts))
          × (m''.event_queue.in_queue p ≡ true)
          × (m''.watch ≡ m.watch))
unfolding add
add_refused-stuck fuel p e fstat_ok ctl_ok ts xs m w n f bad new =
    let a = allocate p e m in
    let names = All-left _ xs (m.event_queue.tail ∷ []) n.fresh in
    let falls =
      Falling-cong (key_of m.event_queue) (key_of a.event_queue) xs (same_keys p e xs m names)
        w.falling in
    let (q, s, k, fall, o, tl) =
      add_sorted-Falling fuel p xs a.event_queue (allocate-Holds p e xs m n.fresh w.holds) falls
        (allocate-IsNew p e xs m n) (omega (arith, f)) n.room in
    let b = record a { event_queue = q } in
    let (left, right, split, parts) = insert_view (key_of a.event_queue) p xs in
    let first : q.object p ≡ e = ap (λ g. g p) (o ∙ (allocated p e m).0) ∙ ground arith in
    let size : length (left ++ p ∷ right) ≤ fuel =
      omega (arith, f, ap length parts, length-append left (p ∷ right), length-append left right) in
    let marks =
      All-right _ left (p ∷ right) (subst (λ l. All (λ x. q.in_queue x ≡ true) l) split k.marked) in
    let (m'', e', stays, still) =
      refused_always fuel p left right ts b m.event_queue.tail e.fd (subst (λ l. Holds l q) split k)
        (subst (λ l. Falling (key_of q) l) split fall) size (tl ∙ allocated_tail p e m)
        (ap (λ (x : EventBase). x.fd) first)
        (subst
          (λ l. All (λ t. Fresh t.address (l ++ m.event_queue.tail ∷ []) × (t.event.fd ≡ e.fd)) ts)
          split new) in
    (
      b,
      add_allocated-failed fuel p fstat_ok ctl_ok a q s bad,
      marks.0,
      (allocated p e m).1,
      (m'', e', stays, still ∙ (allocated p e m).1),
    )
