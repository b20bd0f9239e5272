-- ===== src/Events/Monitor/Watched.antt =====
-- The queue of `sys/epoll_monitor.cpp` and the epoll set: the events of the queue that the kernel
-- watches, under `add` and `del`.
use relay_proxy.Base.{
  ℕ, ◌≤◌, ◌≡◌, refl, sym, ap, ◌∙◌, true, false, ℤ, eqb_ℤ, eqb_ℤ_iff, ◌<ℤ◌, none, List, [], ◌∷◌,
  ◌++◌, length, ok, All, All-append, arith,
}
use mathlib.Core.Path.{subst}
use relay_proxy.Events.{EventQueue, EventBase, check_mask, ev_persist}
use relay_proxy.Events.Links.{All-left, All-right}
use relay_proxy.Events.Removal.{del-Holds}
use relay_proxy.Events.Sorted.{Falling, insert_sorted, key_of, add_sorted-Falling, All-insert}
use relay_proxy.Events.Monitor.{Monitor, watch_fd, upd_ℤ, allocate, add, delete}
use relay_proxy.Events.Monitor.Allocated.{
  IsWatched, Watches, IsNewEvent, allocate-Holds, Falling-cong, same_keys, allocate-IsNew, All-map₂,
  watch_fd_self, add_allocated-ok, allocated, IsWatched-still,
}

-- `add` of a new event succeeds where the kernel does: the queue holds the event in its place, and
-- the kernel watches all events of the queue, the new one included.
pub add-Watches :
    (fuel p : ℕ) (e : EventBase) (xs : List ℕ) (m : Monitor)
    → Watches xs m
    → IsNewEvent p e xs m
    → length xs ≤ fuel
    → (m' : Monitor) × (add fuel true true p e m ≡ ok (m', true))
      × Watches (insert_sorted (key_of (allocate p e m).event_queue) p xs) m'
unfolding add watch_fd
add-Watches fuel p e xs m w n f =
    let a = allocate p e m in
    let names = All-left _ xs (m.event_queue.tail ∷ []) n.fresh in
    let others = All-left _ xs (m.event_queue.tail ∷ []) n.other_keys in
    let falls =
      Falling-cong (key_of m.event_queue) (key_of a.event_queue) xs (same_keys p e xs m names)
        w.falling in
    let (q, r, k, fall, o, tl) =
      add_sorted-Falling fuel p xs a.event_queue (allocate-Holds p e xs m n.fresh w.holds) falls
        (allocate-IsNew p e xs m n) f n.room in
    let b = record a { event_queue = q } in
    let old =
      All-map₂ _ _ (IsWatched (watch_fd p b)) p xs
        (λ x d u v. IsWatched-still p e m b x (o ∙ (allocated p e m).0) (allocated p e m).1 d u v)
        names w.watched others in
    (
      watch_fd p b,
      add_allocated-ok fuel p a q r,
      record {
        holds = k;
        falling = fall;
        watched =
            All-insert (key_of a.event_queue) (IsWatched (watch_fd p b)) p xs (watch_fd_self p b)
              old;
      },
    )

Falling-apart :
    (key : ℕ → ℤ) (v : ℕ) (xs ys : List ℕ)
    → Falling key (xs ++ v ∷ ys)
    → Falling key (xs ++ ys) × All (λ x. eqb_ℤ (key v) (key x) ≡ false) (xs ++ ys)
Falling-apart key v [] ys (hv, h) = (h, apart ys hv)
  where
    apart :
        (zs : List ℕ) → All (λ y. key y <ℤ key v) zs → All (λ y. eqb_ℤ (key v) (key y) ≡ false) zs
    apart [] k = tt
    apart (z ∷ zs) (q, k) = (ground (arith, q), apart zs k)
Falling-apart key v (x ∷ xs) ys (hx, h) =
    let (f, a) = Falling-apart key v xs ys h in
    let r = All-right _ xs (v ∷ ys) hx in
    ((All-append _ xs ys (All-left _ xs (v ∷ ys) hx) r.1, f), (ground (arith, r.0), a))

unwatched :
    (v : ℕ) (xs : List ℕ) (m : Monitor) (q : EventQueue)
    → q.object ≡ m.event_queue.object
    → All (λ x. eqb_ℤ (key_of m.event_queue v) (key_of m.event_queue x) ≡ false) xs
    → All (IsWatched m) xs
    → All
        (IsWatched
          (record m { event_queue = q; watch = upd_ℤ m.watch (key_of m.event_queue v) none }))
        xs
unwatched v [] m q o h w = tt
unwatched v (x ∷ xs) m q o (d, h) (u, w) =
    let there : q.object x ≡ m.event_queue.object x = ap (λ g. g x) o in
    (ground (arith, d, u, there), unwatched v xs m q o h w)

-- `del` of an event of the queue that is not persistent takes it out of the queue and out of the
-- epoll set, wherever it stands; all others stay in their order and stay watched.
pub delete-Watches :
    (v : ℕ) (xs ys : List ℕ) (m : Monitor)
    → Watches (xs ++ v ∷ ys) m
    → check_mask (m.event_queue.object v).event ev_persist ≡ false
    → length (xs ++ v ∷ ys) ≤ 2147483647
    → (m' : Monitor) × (delete v m ≡ ok (m', true))
      × Watches (xs ++ ys) m'
      × (m'.watch (key_of m.event_queue v) ≡ none)
      × (m'.event_queue.in_queue v ≡ false)
unfolding delete
delete-Watches v xs ys m w plain f =
    let (q, r, k, unmarked, t, o) = del-Holds v xs ys m.event_queue w.holds f in
    let mark = All-right _ xs (v ∷ ys) w.holds.marked in
    let (falls, apart) = Falling-apart (key_of m.event_queue) v xs ys w.falling in
    let rest = All-right _ xs (v ∷ ys) w.watched in
    (
      record m { event_queue = q; watch = upd_ℤ m.watch (key_of m.event_queue v) none },
      rw (mark.0, plain, r) refl,
      record {
        holds = k;
        falling = subst (λ (g : ℕ → EventBase). Falling (λ x. (g x).fd) (xs ++ ys)) (sym o) falls;
        watched =
            unwatched v (xs ++ ys) m q o apart
              (All-append _ xs ys (All-left _ xs (v ∷ ys) w.watched) rest.1);
      },
      ground (arith, eqb_ℤ_iff (key_of m.event_queue v) (key_of m.event_queue v)),
      unmarked,
    )
