-- ===== src/Events/Sorted.antt =====
-- `add` of `CEventDecQueue` (`sys/event_queue.cpp`) and the insertion into a list.
use relay_proxy.Base.{
  ℕ, zero, suc, ◌≤◌, ◌<◌, ◌≡◌, ◌≢◌, refl, sym, ap, ◌∙◌, append_assoc, true, false, if◌then◌else◌,
  ◌==◌, ℤ, eqb_ℤ, ltb_ℤ, ◌<ℤ◌, ◌≤ℤ◌, some, List, [], ◌∷◌, ◌++◌, length, length-append, ok, throw,
  ◌>>=◌, ipc_exception, err_sys_unknown, All, arith, Bool-cases, inl, inr,
}
use mathlib.Core.Path.{subst}
use relay_proxy.Events.{EventQueue, EventBase, link_front, link_between, walk, place, add_sorted}
use relay_proxy.Events.Links.{Linked, Distinct, Fresh, All-left, All-right}
use relay_proxy.Events.Queue.{Holds, add_front-Holds, insert_between-Holds, tail_ne}

module _ (key : ℕ → ℤ) where
  -- Insertion into a list in falling order.
  abbrev pub insert_sorted : ℕ → List ℕ → List ℕ
  insert_sorted v [] = v ∷ []
  insert_sorted v (x ∷ xs) = if ltb_ℤ (key v) (key x) then x ∷ insert_sorted v xs else v ∷ x ∷ xs

  abbrev pub Falling : List ℕ → Type 0
  Falling [] = Unit
  Falling (x ∷ xs) = All (λ y. key y <ℤ key x) xs × Falling xs

-- `find` of a place behind `p`.
walk-splits :
    (fuel v p : ℕ) (b : List ℕ) (s : EventQueue)
    → Linked s.next s.prev (p ∷ (b ++ s.tail ∷ []))
    → All (λ x. x ≢ s.tail) b
    → length b < fuel
    → (a : List ℕ) × (q : ℕ) × (n : ℕ) × (c : List ℕ) × (d : List ℕ) × (walk fuel
          (s.object v).fd
          p
          s
        ≡ ok (some (q, n)))
      × (p ∷ b ≡ a ++ q ∷ c)
      × (c ++ s.tail ∷ [] ≡ n ∷ d)
      × (p ∷ insert_sorted (λ x. (s.object x).fd) v b ≡ a ++ q ∷ v ∷ c)
unfolding walk
walk-splits zero v p b s l t f = absurd (omega arith)
walk-splits (suc fuel) v p [] s l t f =
    ([], p, s.tail, [], [], rw l.0 (ground arith), refl, refl, refl)
walk-splits (suc fuel) v p (x ∷ b) s l (tx, t) f =
    elim (Bool-cases (ltb_ℤ (s.object v).fd (s.object x).fd)) [
      | inl more ↦
          let (a, q, n, c, d, w, e, g, i) = walk-splits fuel v x b s l.2 t (omega arith) in
          (
            p ∷ a,
            q,
            n,
            c,
            d,
            rw (l.0, more) (ground (arith, tx, w)),
            ap (◌∷◌ p) e,
            g,
            rw more (ap (◌∷◌ p) i),
          )
      | inr here ↦ (
        [],
        p,
        x,
        x ∷ b,
        b ++ s.tail ∷ [],
        rw (l.0, here) (ground (arith, tx)),
        refl,
        refl,
        rw here refl,
      )
    ]

abbrev pub key_of : EventQueue → ℕ → ℤ
key_of s x = (s.object x).fd

-- What a new event must be: in no queue, with a descriptor that is none of the queue's.
pub record IsNew (v : ℕ) (xs : List ℕ) (s : EventQueue) : Type 0 where
  pub unmarked : s.in_queue v ≡ false
  pub fresh : Fresh v (xs ++ s.tail ∷ [])
  pub other_keys : All (λ x. eqb_ℤ (key_of s x) (key_of s v) ≡ false) (xs ++ s.tail ∷ [])

tails_ne : (t : ℕ) (b : List ℕ) (s : EventQueue) → Holds b s → All (λ x. x ≢ s.tail) b
tails_ne t b s h = go b h.distinct
  where
    go : (ys : List ℕ) → Distinct (ys ++ s.tail ∷ []) → All (λ x. x ≢ s.tail) ys
    go [] d = tt
    go (y ∷ ys) (dy, d) = ((All-right _ ys (s.tail ∷ []) dy).0, go ys d)

behind_head :
    (fuel v p : ℕ) (b : List ℕ) (s : EventQueue)
    → Holds (p ∷ b) s
    → IsNew v (p ∷ b) s
    → length (p ∷ b) ≤ fuel
    → length (p ∷ b) < 2147483647
    → (t : EventQueue) × ((walk fuel (key_of s v) p s >>= λ r. place v r s) ≡ ok t)
      × Holds (p ∷ insert_sorted (key_of s) v b) t
      × (t.tail ≡ s.tail)
      × (t.object ≡ s.object)
unfolding place link_between
behind_head fuel v p b s h new f few =
    let (a, q, n, c, d, w, e, g, i) =
      walk-splits fuel v p b s h.linked (tails_ne v (p ∷ b) s h).1 (omega arith) in
    let split = subst (λ l. Holds l s) e h in
    let joined : (a ++ q ∷ c) ++ s.tail ∷ [] ≡ a ++ q ∷ n ∷ d =
      append_assoc a (q ∷ c) (s.tail ∷ []) ∙ ap (λ l. a ++ q ∷ l) g in
    let whole : p ∷ (b ++ s.tail ∷ []) ≡ a ++ q ∷ n ∷ d = ap (λ l. l ++ s.tail ∷ []) e ∙ joined in
    let keys =
      All-right _ a (q ∷ n ∷ d)
        (subst (λ l. All (λ x. eqb_ℤ (key_of s x) (key_of s v) ≡ false) l) whole new.other_keys) in
    let (r, k) =
      insert_between-Holds v q n a c d s split g new.unmarked
        (subst (λ l. Fresh v l)
          (ap (λ l. l ++ s.tail ∷ []) e ∙ append_assoc a (q ∷ c) (s.tail ∷ [])) new.fresh)
        (subst (λ l. length l < 2147483647) e few) in
    (
      link_between v q n s,
      rw (w, keys.1.0) r,
      subst (λ l. Holds l (link_between v q n s)) (sym i) k,
      refl,
      refl,
    )

add_sorted-behind :
    (fuel v p : ℕ) (b : List ℕ) (s : EventQueue)
    → Holds (p ∷ b) s
    → ltb_ℤ (key_of s p) (key_of s v) ≡ false
    → eqb_ℤ (key_of s p) (key_of s v) ≡ false
    → add_sorted fuel v s ≡ (walk fuel (key_of s v) p s >>= λ r. place v r s)
unfolding add_sorted
add_sorted-behind fuel v p b s h more other =
    let here : ltb_ℤ (key_of s s.head) (key_of s v) ≡ false = rw h.from_head more in
    let apart : eqb_ℤ (key_of s s.head) (key_of s v) ≡ false = rw h.from_head other in
    let not_end : (s.head == s.tail) ≡ false = rw h.from_head (tail_ne p s.tail [] b h.distinct) in
    rw (not_end, here, apart)
      (ap (λ y. walk fuel (key_of s v) y s >>= λ q. place v q s) h.from_head)

add_sorted-Holds :
    (fuel v : ℕ) (xs : List ℕ) (s : EventQueue)
    → Holds xs s
    → IsNew v xs s
    → length xs ≤ fuel
    → length xs < 2147483647
    → (t : EventQueue) × (add_sorted fuel v s ≡ ok t)
      × Holds (insert_sorted (key_of s) v xs) t
      × (t.tail ≡ s.tail)
      × (t.object ≡ s.object)
unfolding add_sorted link_front
add_sorted-Holds fuel v [] s h new f few =
    let (r, k) = add_front-Holds v [] s h new.unmarked new.fresh few in
    (link_front v s, rw h.from_head (ground (arith, r)), k, refl, refl)
add_sorted-Holds fuel v (p ∷ b) s h new f few =
    elim (Bool-cases (ltb_ℤ (key_of s p) (key_of s v))) [
      | inl less ↦
          let (r, k) = add_front-Holds v (p ∷ b) s h new.unmarked new.fresh few in
          let here : ltb_ℤ (key_of s s.head) (key_of s v) ≡ true = rw h.from_head less in
          let after : ltb_ℤ (key_of s v) (key_of s p) ≡ false = ground (arith, less) in
          (link_front v s, rw (not_end, here) r, rw after k, refl, refl)
      | inr more ↦
          let (t, r, k, e, o) = behind_head fuel v p b s h new f few in
          let before : ltb_ℤ (key_of s v) (key_of s p) ≡ true =
            ground (arith, more, new.other_keys.0) in
          (t, add_sorted-behind fuel v p b s h more new.other_keys.0 ∙ r, rw before k, e, o)
    ]
  where
    not_end : (s.head == s.tail) ≡ false
    not_end = rw h.from_head (tail_ne p s.tail [] b h.distinct)

pub All-insert :
    (key : ℕ → ℤ) (P : ℕ → Type 0) (v : ℕ) (xs : List ℕ)
    → P v
    → All P xs
    → All P (insert_sorted key v xs)
All-insert key P v [] p h = (p, tt)
All-insert key P v (x ∷ xs) p (q, h) = elim (Bool-cases (ltb_ℤ (key v) (key x))) [
  | inl e ↦ rw e (q, All-insert key P v xs p h)
  | inr e ↦ rw e (p, (q, h))
]

below :
    (key : ℕ → ℤ) (v x : ℕ) (xs : List ℕ)
    → key x ≤ℤ key v
    → All (λ y. key y <ℤ key x) xs
    → All (λ y. key y <ℤ key v) xs
below key v x [] e h = tt
below key v x (y ∷ xs) e (q, h) = (ground (arith, e, q), below key v x xs e h)

-- The list that the insertion gives is again in falling order, if no key was the new one's.
pub insert_sorted-Falling :
    (key : ℕ → ℤ) (v : ℕ) (xs : List ℕ)
    → Falling key xs
    → All (λ x. eqb_ℤ (key x) (key v) ≡ false) xs
    → Falling key (insert_sorted key v xs)
insert_sorted-Falling key v [] h n = (tt, tt)
insert_sorted-Falling key v (x ∷ xs) (hx, h) (nx, n) = elim (Bool-cases (ltb_ℤ (key v) (key x))) [
  | inl e ↦ rw e (
    All-insert key (λ y. key y <ℤ key x) v xs (ground (arith, e)) hx,
    insert_sorted-Falling key v xs h n,
  )
  | inr e ↦ rw e ((ground (arith, e, nx), below key v x xs (ground (arith, e)) hx), (hx, h))
]

-- The walk stops in front of an event that has the descriptor already.
walk-finds :
    (fuel v p y : ℕ) (a b : List ℕ) (s : EventQueue)
    → Linked s.next s.prev (p ∷ (a ++ y ∷ b))
    → All (λ x. x ≢ s.tail) a
    → All (λ x. key_of s y <ℤ key_of s x) a
    → key_of s y ≡ key_of s v
    → length a < fuel
    → (q : ℕ) × (walk fuel (s.object v).fd p s ≡ ok (some (q, y)))
unfolding walk
walk-finds zero v p y a b s l t h e f = absurd (omega arith)
walk-finds (suc fuel) v p y [] b s l t h e f = (p, rw l.0 (ground (arith, e)))
walk-finds (suc fuel) v p y (x ∷ a) b s l (tx, t) (hx, h) e f =
    let (q, w) = walk-finds fuel v x y a b s l.2 t h e (omega arith) in
    (q, rw l.0 (ground (arith, tx, hx, e, w)))

Falling-before :
    (key : ℕ → ℤ) (y : ℕ) (a b : List ℕ) → Falling key (a ++ y ∷ b) → All (λ x. key y <ℤ key x) a
Falling-before key y [] b h = tt
Falling-before key y (x ∷ a) b (hx, h) = ((All-right _ a (y ∷ b) hx).0, Falling-before key y a b h)

-- `add` of the sorted queue implements the insertion into a list in falling order, for any fuel not
-- less than the number of events: it succeeds, the linked nodes hold the new list, which is in
-- falling order again, and no object changes. The event is new, its descriptor is no other event's
-- and not that of the end node, and the queue has room for its size.
pub add_sorted-Falling :
    (fuel v : ℕ) (xs : List ℕ) (s : EventQueue)
    → Holds xs s
    → Falling (key_of s) xs
    → IsNew v xs s
    → length xs ≤ fuel
    → length xs < 2147483647
    → (t : EventQueue) × (add_sorted fuel v s ≡ ok t)
      × Holds (insert_sorted (key_of s) v xs) t
      × Falling (key_of t) (insert_sorted (key_of s) v xs)
      × (t.object ≡ s.object)
      × (t.tail ≡ s.tail)
add_sorted-Falling fuel v xs s h fall new f few =
    let (t, r, k, e, o) = add_sorted-Holds fuel v xs s h new f few in
    let keep =
      insert_sorted-Falling (key_of s) v xs fall (All-left _ xs (s.tail ∷ []) new.other_keys) in
    (
      t,
      r,
      k,
      subst (λ (g : ℕ → EventBase). Falling (λ x. (g x).fd) (insert_sorted (key_of s) v xs)) (sym o)
          keep,
      o,
      e,
    )

-- `add` throws where an event of the queue has the descriptor already, wherever it stands.
pub add_sorted-duplicate :
    (fuel v y : ℕ) (a b : List ℕ) (s : EventQueue)
    → Holds (a ++ y ∷ b) s
    → Falling (key_of s) (a ++ y ∷ b)
    → key_of s y ≡ key_of s v
    → length (a ++ y ∷ b) ≤ fuel
    → add_sorted fuel v s ≡ throw (ipc_exception err_sys_unknown)
unfolding add_sorted place
add_sorted-duplicate fuel v y [] b s h fall e f =
    rw (h.from_head, tail_ne y s.tail [] b h.distinct) (ground (arith, e))
add_sorted-duplicate fuel v y (p ∷ a) b s h (fp, fall) e f =
    let above = Falling-before (key_of s) y a b fall in
    let top = (All-right _ a (y ∷ b) fp).0 in
    let ends = (tails_ne v ((p ∷ a) ++ y ∷ b) s h).1 in
    let (q, w) =
      walk-finds fuel v p y a (b ++ s.tail ∷ []) s
        (rw (append_assoc a (y ∷ b) (s.tail ∷ [])) at h.linked) (All-left _ a (y ∷ b) ends) above e
        (omega (arith, length-append a (y ∷ b))) in
    add_sorted-behind fuel v p (a ++ y ∷ b) s h (ground (arith, top, e)) (ground (arith, top, e))
    ∙ rw w (ground (arith, e))
