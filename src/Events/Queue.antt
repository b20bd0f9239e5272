-- ===== src/Events/Queue.antt =====
-- The linked queue of `sys/event_queue.cpp` as a list of events: `add_front` and `insert_between`.
use relay_proxy.Base.{
  ℕ, suc, ◌<◌, ◌≡◌, ◌≢◌, refl, sym, ap, ◌∙◌, append_assoc, Bool, true, false, ◌==◌, pos, add_int,
  add_int_exact, some, List, [], ◌∷◌, ◌++◌, length, length-append, ok, All, All-append, arith,
}
use mathlib.Core.Path.{subst}
use relay_proxy.Events.{EventQueue, upd, add_front, link_front, insert_between, link_between}
use relay_proxy.Events.Links.{
  Linked, Distinct, Fresh, All-left, All-right, Distinct-right, Linked-insert, Linked-front,
}

abbrev pub first_or : ℕ → List ℕ → ℕ
first_or t [] = t
first_or t (x ∷ xs) = x

-- The queue holds these events in this order, the head first: the list that a client sees.
pub record Holds (xs : List ℕ) (s : EventQueue) : Type 0 where
  pub from_head : s.head ≡ first_or s.tail xs
  pub linked : Linked s.next s.prev (xs ++ s.tail ∷ [])
  pub distinct : Distinct (xs ++ s.tail ∷ [])
  pub marked : All (λ x. s.in_queue x ≡ true) xs
  pub counted : s.size ≡ pos (length xs)

All-behind :
    (P : ℕ → Type 0) (v p : ℕ) (a b : List ℕ) → P v → All P (a ++ p ∷ b) → All P (a ++ p ∷ v ∷ b)
All-behind P v p [] b q (h, hs) = (h, (q, hs))
All-behind P v p (x ∷ a) b q (h, hs) = (h, All-behind P v p a b q hs)

Distinct-behind :
    (v p : ℕ) (a b : List ℕ)
    → Fresh v (a ++ p ∷ b)
    → Distinct (a ++ p ∷ b)
    → Distinct (a ++ p ∷ v ∷ b)
Distinct-behind v p [] b (e, f) (dp, d) = ((λ q. e (sym q), dp), (f, d))
Distinct-behind v p (x ∷ a) b (e, f) (dx, d) =
    (All-behind _ v p a b (λ q. e (sym q)) dx, Distinct-behind v p a b f d)

Distinct-drop :
    (v : ℕ) (xs ys : List ℕ) → Distinct (xs ++ v ∷ ys) → Fresh v (xs ++ ys) × Distinct (xs ++ ys)
Distinct-drop v [] ys (f, d) = (f, d)
Distinct-drop v (x ∷ xs) ys (dx, d) =
    let (f, d') = Distinct-drop v xs ys d in
    let r = All-right (λ y. x ≢ y) xs (v ∷ ys) dx in
    ((λ q. r.0 (cc), f), (All-append _ xs ys (All-left _ xs (v ∷ ys) dx) r.1, d'))

marked_add :
    (g : ℕ → Bool) (v : ℕ) (xs : List ℕ)
    → All (λ x. g x ≡ true) xs
    → All (λ x. upd g v true x ≡ true) xs
marked_add g v [] h = tt
marked_add g v (x ∷ xs) (e, h) = (ground (arith, e), marked_add g v xs h)

pub marked_drop :
    (g : ℕ → Bool) (v : ℕ) (xs : List ℕ)
    → Fresh v xs
    → All (λ x. g x ≡ true) xs
    → All (λ x. upd g v false x ≡ true) xs
marked_drop g v [] f h = tt
marked_drop g v (x ∷ xs) (n, f) (e, h) = (ground (arith, e, n), marked_drop g v xs f h)

more_size :
    (s : EventQueue) (n : ℕ)
    → s.size ≡ pos n
    → n < 2147483647
    → add_int s.size (pos 1) ≡ pos (suc n)
more_size s n e h = rw e (ground (arith, add_int_exact n 1))

front_at :
    (s : EventQueue) (v x : ℕ) (r : List ℕ)
    → s.head ≡ x
    → Fresh v (x ∷ r)
    → Distinct (x ∷ r)
    → Linked s.next s.prev (x ∷ r)
    → Linked (upd s.next v (some s.head)) (upd s.prev s.head (some v)) (v ∷ x ∷ r)
front_at s v x r e f d l =
    subst (λ y. Linked (upd s.next v (some y)) (upd s.prev y (some v)) (v ∷ x ∷ r)) (sym e)
      (Linked-front s.next s.prev v x r f d l)

link_front-Holds :
    (v : ℕ) (xs : List ℕ) (s : EventQueue)
    → Holds xs s
    → Fresh v (xs ++ s.tail ∷ [])
    → length xs < 2147483647
    → Holds (v ∷ xs) (link_front v s)
unfolding link_front
link_front-Holds v [] s h f few = record {
  from_head = refl;
  linked = front_at s v s.tail [] h.from_head f (tt, tt) tt;
  distinct = (f, h.distinct);
  marked = (ground arith, tt);
  counted = more_size s 0 h.counted few;
}
link_front-Holds v (x ∷ xs) s h f few = record {
  from_head = refl;
  linked = front_at s v x (xs ++ s.tail ∷ []) h.from_head f h.distinct h.linked;
  distinct = (f, h.distinct);
  marked = (ground arith, marked_add s.in_queue v (x ∷ xs) h.marked);
  counted = more_size s (length (x ∷ xs)) h.counted few;
}

pub add_front-Holds :
    (v : ℕ) (xs : List ℕ) (s : EventQueue)
    → Holds xs s
    → s.in_queue v ≡ false
    → Fresh v (xs ++ s.tail ∷ [])
    → length xs < 2147483647
    → (add_front v s ≡ ok (link_front v s)) × Holds (v ∷ xs) (link_front v s)
unfolding add_front
add_front-Holds v xs s h new f few = (rw new, link_front-Holds v xs s h f few)

pub first_append : (t p : ℕ) (xs ys : List ℕ) → first_or t (xs ++ p ∷ ys) ≡ first_or p xs
first_append t p [] ys = refl
first_append t p (x ∷ xs) ys = refl

pub regroup : (a b : List ℕ) (p t : ℕ) → (a ++ p ∷ b) ++ t ∷ [] ≡ a ++ p ∷ (b ++ t ∷ [])
regroup a b p t = append_assoc a (p ∷ b) (t ∷ [])

pub length_more : (a b : List ℕ) (v p : ℕ) → length (a ++ p ∷ v ∷ b) ≡ suc (length (a ++ p ∷ b))
length_more a b v p = omega (arith, length-append a (p ∷ v ∷ b), length-append a (p ∷ b))

-- Behind `p` in the list stands `n`, which may be the end node.
link_between-Holds :
    (v p n : ℕ) (a b c : List ℕ) (s : EventQueue)
    → Holds (a ++ p ∷ b) s
    → b ++ s.tail ∷ [] ≡ n ∷ c
    → Fresh v (a ++ p ∷ (b ++ s.tail ∷ []))
    → length (a ++ p ∷ b) < 2147483647
    → Holds (a ++ p ∷ v ∷ b) (link_between v p n s)
unfolding link_between
link_between-Holds v p n a b c s h e f few = record {
  from_head = h.from_head ∙ first_append s.tail p a b ∙ sym (first_append s.tail p a (v ∷ b));
  linked =
      rw (regroup a (v ∷ b) p s.tail, e)
        (Linked-insert s.next s.prev v p n a c (rw e at d) (rw e at f)
          (rw (regroup a b p s.tail, e) at h.linked));
  distinct = rw (regroup a (v ∷ b) p s.tail) (Distinct-behind v p a (b ++ s.tail ∷ []) f d);
  marked = All-behind _ v p a b (ground arith) (marked_add s.in_queue v (a ++ p ∷ b) h.marked);
  counted = more_size s (length (a ++ p ∷ b)) h.counted few ∙ ap pos (sym (length_more a b v p));
}
  where
    d : Distinct (a ++ p ∷ (b ++ s.tail ∷ []))
    d = rw (regroup a b p s.tail) at h.distinct

pub head_ne : (p n : ℕ) (a c : List ℕ) → Distinct (a ++ p ∷ n ∷ c) → (n == first_or p a) ≡ false
head_ne p n [] c ((e, dp), d) = ground (arith, e)
head_ne p n (x ∷ a) c (dx, d) = let r = All-right _ a (p ∷ n ∷ c) dx in ground (arith, r.1.0)

pub tail_ne : (p t : ℕ) (a b : List ℕ) → Distinct (a ++ p ∷ (b ++ t ∷ [])) → (p == t) ≡ false
tail_ne p t a b d =
    let r = Distinct-right a (p ∷ (b ++ t ∷ [])) d in
    let q = All-right _ b (t ∷ []) r.0 in ground (arith, q.0)

pub insert_between-Holds :
    (v p n : ℕ) (a b c : List ℕ) (s : EventQueue)
    → Holds (a ++ p ∷ b) s
    → b ++ s.tail ∷ [] ≡ n ∷ c
    → s.in_queue v ≡ false
    → Fresh v (a ++ p ∷ (b ++ s.tail ∷ []))
    → length (a ++ p ∷ b) < 2147483647
    → (insert_between v p n s ≡ ok (link_between v p n s))
      × Holds (a ++ p ∷ v ∷ b) (link_between v p n s)
unfolding insert_between
insert_between-Holds v p n a b c s h e new f few =
    (rw (new, not_head, not_tail), link_between-Holds v p n a b c s h e f few)
  where
    d : Distinct (a ++ p ∷ (b ++ s.tail ∷ []))
    d = rw (regroup a b p s.tail) at h.distinct

    not_head : (n == s.head) ≡ false
    not_head = rw (h.from_head ∙ first_append s.tail p a b) (head_ne p n a c (rw e at d))

    not_tail : (p == s.tail) ≡ false
    not_tail = tail_ne p s.tail a b d
