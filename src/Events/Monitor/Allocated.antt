-- ===== src/Events/Monitor/Allocated.antt =====
-- `CEpollMonitor::add` (`sys/epoll_monitor.cpp`): the event that it allocates and puts in the queue.
use relay_proxy.Base.{
  ℕ, ◌<◌, ◌≡◌, ◌≢◌, refl, ap, ◌∙◌, true, false, ℤ, eqb_ℤ, eqb_ℤ_iff, ◌<ℤ◌, Option, none, some, List,
  [], ◌∷◌, ◌++◌, length, ok, All, arith,
}
use relay_proxy.Events.{EventQueue, EventBase, upd, add_sorted}
use relay_proxy.Events.Links.{Linked, Linked-cong, Fresh, All-left, upd-Fresh}
use relay_proxy.Events.Queue.{Holds}
use relay_proxy.Events.Sorted.{Falling, IsNew, key_of}
use relay_proxy.Events.Monitor.{Monitor, watch_fd, epoll_events, allocate, add_allocated}

abbrev pub IsWatched : Monitor → ℕ → Type 0
IsWatched m x =
    m.watch (key_of m.event_queue x) ≡ some (epoll_events (m.event_queue.object x).event, x)

-- The queue holds the events `xs` in falling order, and each is watched.
pub record Watches (xs : List ℕ) (m : Monitor) : Type 0 where
  pub holds : Holds xs m.event_queue
  pub falling : Falling (key_of m.event_queue) xs
  pub watched : All (IsWatched m) xs

-- A new event at a new address, with a descriptor that no event of the queue has.
pub record IsNewEvent (p : ℕ) (e : EventBase) (xs : List ℕ) (m : Monitor) : Type 0 where
  pub fresh : Fresh p (xs ++ m.event_queue.tail ∷ [])
  pub other_keys :
      All (λ x. eqb_ℤ (key_of m.event_queue x) e.fd ≡ false) (xs ++ m.event_queue.tail ∷ [])
  pub room : length xs < 2147483647

All-map :
    (P Q : ℕ → Type 0) (p : ℕ) (xs : List ℕ)
    → ((x : ℕ) → p ≢ x → P x → Q x)
    → Fresh p xs
    → All P xs
    → All Q xs
All-map P Q p [] f n h = tt
All-map P Q p (x ∷ xs) f (e, n) (q, h) = (f x e q, All-map P Q p xs f n h)

Linked-allocate :
    (f g : ℕ → Option ℕ) (p : ℕ) (xs : List ℕ)
    → Fresh p xs
    → Linked f g xs
    → Linked (upd f p none) (upd g p none) xs
Linked-allocate f g p [] n l = tt
Linked-allocate f g p (x ∷ xs) n l =
    Linked-cong f g (upd f p none) (upd g p none) x xs (upd-Fresh f p none (x ∷ xs) n)
      (upd-Fresh g p none xs n.1) l

pub allocate-Holds :
    (p : ℕ) (e : EventBase) (xs : List ℕ) (m : Monitor)
    → Fresh p (xs ++ m.event_queue.tail ∷ [])
    → Holds xs m.event_queue
    → Holds xs (allocate p e m).event_queue
unfolding allocate
allocate-Holds p e xs m n h = record {
  from_head = h.from_head;
  linked =
      Linked-allocate m.event_queue.next m.event_queue.prev p (xs ++ m.event_queue.tail ∷ []) n
        h.linked;
  distinct = h.distinct;
  marked =
      All-map _ _ p xs (λ x d q. ground (arith, d, q)) (All-left _ xs (m.event_queue.tail ∷ []) n)
        h.marked;
  counted = h.counted;
}

pub Falling-cong :
    (f g : ℕ → ℤ) (xs : List ℕ) → All (λ x. g x ≡ f x) xs → Falling f xs → Falling g xs
Falling-cong f g [] e h = tt
Falling-cong f g (x ∷ xs) (d, e) (hx, h) = (go xs e hx, Falling-cong f g xs e h)
  where
    go :
        (ys : List ℕ)
        → All (λ y. g y ≡ f y) ys
        → All (λ y. f y <ℤ f x) ys
        → All (λ y. g y <ℤ g x) ys
    go [] a b = tt
    go (y ∷ ys) (a, as') (b, bs) = (ground (arith, a, b, d), go ys as' bs)

pub same_keys :
    (p : ℕ) (e : EventBase) (xs : List ℕ) (m : Monitor)
    → Fresh p xs
    → All (λ x. key_of (allocate p e m).event_queue x ≡ key_of m.event_queue x) xs
unfolding allocate
same_keys p e [] m n = tt
same_keys p e (x ∷ xs) m (d, n) = (ground (arith, d), same_keys p e xs m n)

pub allocate-IsNew :
    (p : ℕ) (e : EventBase) (xs : List ℕ) (m : Monitor)
    → IsNewEvent p e xs m
    → IsNew p xs (allocate p e m).event_queue
unfolding allocate
allocate-IsNew p e xs m n = record {
  unmarked = ground arith;
  fresh = n.fresh;
  other_keys =
      All-map _ _ p (xs ++ m.event_queue.tail ∷ []) (λ x d q. ground (arith, d, q)) n.fresh
        n.other_keys;
}

pub All-map₂ :
    (P R Q : ℕ → Type 0) (p : ℕ) (xs : List ℕ)
    → ((x : ℕ) → p ≢ x → P x → R x → Q x)
    → Fresh p xs
    → All P xs
    → All R xs
    → All Q xs
All-map₂ P R Q p [] f n h k = tt
All-map₂ P R Q p (x ∷ xs) f (e, n) (q, h) (r, k) = (f x e q r, All-map₂ P R Q p xs f n h k)

pub watch_fd_self : (p : ℕ) (m : Monitor) → IsWatched (watch_fd p m) p
unfolding watch_fd
watch_fd_self p m = ground (arith, eqb_ℤ_iff (key_of m.event_queue p) (key_of m.event_queue p))

pub add_allocated-ok :
    (fuel p : ℕ) (a : Monitor) (q : EventQueue)
    → add_sorted fuel p a.event_queue ≡ ok q
    → add_allocated fuel true true p a ≡ ok (watch_fd p (record a { event_queue = q }), true)
unfolding add_allocated
add_allocated-ok fuel p a q h = rw (h, add_allocated) refl

pub allocated :
    (p : ℕ) (e : EventBase) (m : Monitor)
    → ((allocate p e m).event_queue.object ≡ upd m.event_queue.object p e)
      × ((allocate p e m).watch ≡ m.watch)
unfolding allocate
allocated p e m = (refl, refl)

pub allocated_tail :
    (p : ℕ) (e : EventBase) (m : Monitor) → (allocate p e m).event_queue.tail ≡ m.event_queue.tail
unfolding allocate
allocated_tail p e m = refl

pub IsWatched-still :
    (p : ℕ) (e : EventBase) (m b : Monitor) (x : ℕ)
    → b.event_queue.object ≡ upd m.event_queue.object p e
    → b.watch ≡ m.watch
    → p ≢ x
    → IsWatched m x
    → eqb_ℤ (key_of m.event_queue x) e.fd ≡ false
    → IsWatched (watch_fd p b) x
unfolding watch_fd
IsWatched-still p e m b x o h d w n =
    let here : b.event_queue.object p ≡ e = ap (λ g. g p) o ∙ ground arith in
    let there : b.event_queue.object x ≡ m.event_queue.object x =
      ap (λ g. g x) o ∙ ground (arith, d) in
    let same : b.watch (key_of m.event_queue x) ≡ m.watch (key_of m.event_queue x) =
      ap (λ g. g (key_of m.event_queue x)) h in
    ground (arith, here, there, same, w, n, eqb_ℤ_iff e.fd (key_of m.event_queue x))
