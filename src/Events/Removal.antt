-- ===== src/Events/Removal.antt =====
-- What `del` of the linked queue of `sys/event_queue.cpp` does to the list of its events.
use relay_proxy.Base.{
  ℕ, suc, ◌≤◌, ◌≡◌, refl, sym, ap, ◌∙◌, append_assoc, true, false, ◌==◌, pos, negsuc, add_int,
  wrap_int, ◌+ℤ◌, Option, none, some, List, [], ◌∷◌, ◌++◌, length, ok, All, arith,
}
use mathlib.Core.Path.{subst}
use relay_proxy.Events.{EventQueue, upd, unlink, del}
use relay_proxy.Events.Links.{
  Linked, Distinct, Fresh, All-left, All-right, Distinct-right, Linked-remove, Linked-behind,
}
use relay_proxy.Events.Queue.{
  first_or, Holds, marked_drop, first_append, regroup, length_more, head_ne, tail_ne,
}

fewer_size :
    (s : EventQueue) (n : ℕ)
    → s.size ≡ pos (suc n)
    → suc n ≤ 2147483647
    → add_int s.size (negsuc 0) ≡ pos n
unfolding add_int wrap_int ◌+ℤ◌
fewer_size s n e h = rw e (ground arith)

-- The queue without its head `v`, which `n` follows, and without a `v` between `p` and `n`.
abbrev without_head : ℕ → ℕ → EventQueue → EventQueue
without_head v n s = record s {
  head = n;
  in_queue = upd s.in_queue v false;
  prev = upd (upd s.prev n none) v none;
  next = upd s.next v none;
  size = add_int s.size (negsuc 0);
}

abbrev without : ℕ → (p n : ℕ) → EventQueue → EventQueue
without v p n s = record s {
  in_queue = upd s.in_queue v false;
  prev = upd (upd s.prev n (s.prev v)) v none;
  next = upd (upd s.next p (s.next v)) v none;
  size = add_int s.size (negsuc 0);
}

end_first : (t n : ℕ) (xs r : List ℕ) → xs ++ t ∷ [] ≡ n ∷ r → n ≡ first_or t xs
end_first t n [] r e = cc
end_first t n (x ∷ xs) r e = cc

-- `del` of the head.
del_head-Holds :
    (v n : ℕ) (xs r : List ℕ) (s : EventQueue)
    → Holds (v ∷ xs) s
    → xs ++ s.tail ∷ [] ≡ n ∷ r
    → length (v ∷ xs) ≤ 2147483647
    → (del v s ≡ ok (without_head v n s)) × Holds xs (without_head v n s)
unfolding del unlink
del_head-Holds v n xs r s h e few = (
  rw (h.marked.0, tail_ne v s.tail [] xs h.distinct, h.from_head, l.0) (ground arith),
  record {
    from_head = end_first s.tail n xs r e;
    linked = rw e (Linked-behind s.next s.prev v n r (rw e at h.distinct) l);
    distinct = h.distinct.1;
    marked = marked_drop s.in_queue v xs (All-left _ xs (s.tail ∷ []) h.distinct.0) h.marked.1;
    counted = fewer_size s (length xs) h.counted few;
  },
)
  where
    l : Linked s.next s.prev (v ∷ n ∷ r)
    l = subst (λ l. Linked s.next s.prev (v ∷ l)) e h.linked

All-skip : (P : ℕ → Type 0) (v p : ℕ) (a b : List ℕ) → All P (a ++ p ∷ v ∷ b) → All P (a ++ p ∷ b)
All-skip P v p [] b (h, (q, hs)) = (h, hs)
All-skip P v p (x ∷ a) b (h, hs) = (h, All-skip P v p a b hs)

Distinct-skip :
    (v p : ℕ) (a b : List ℕ)
    → Distinct (a ++ p ∷ v ∷ b)
    → Fresh v (a ++ p ∷ b) × Distinct (a ++ p ∷ b)
Distinct-skip v p [] b ((e, dp), (f, d)) = (((λ q. e (sym q)), f), (dp, d))
Distinct-skip v p (x ∷ a) b (dx, d) =
    let (f, d') = Distinct-skip v p a b d in
    let r = All-right _ a (p ∷ v ∷ b) dx in (((λ q. r.1.0 (sym q)), f), (All-skip _ v p a b dx, d'))

links_at :
    (f g : ℕ → Option ℕ) (p v n : ℕ) (a c : List ℕ)
    → Linked f g (a ++ p ∷ v ∷ n ∷ c)
    → (g v ≡ some p) × (f v ≡ some n)
links_at f g p v n [] c (x, y, (z, w, l)) = (y, z)
links_at f g p v n (q ∷ []) c (x, y, l) = links_at f g p v n [] c l
links_at f g p v n (q ∷ o ∷ a) c (x, y, l) = links_at f g p v n (o ∷ a) c l

-- `del` of a node behind the head.
del_between-Holds :
    (v p n : ℕ) (a b c : List ℕ) (s : EventQueue)
    → Holds (a ++ p ∷ v ∷ b) s
    → b ++ s.tail ∷ [] ≡ n ∷ c
    → length (a ++ p ∷ v ∷ b) ≤ 2147483647
    → (del v s ≡ ok (without v p n s)) × Holds (a ++ p ∷ b) (without v p n s)
unfolding del unlink
del_between-Holds v p n a b c s h e few = (
  rw (mark.1.0, not_tail, v_not_head, there.1, there.0) (ground arith),
  record {
    from_head = h.from_head ∙ first_append s.tail p a (v ∷ b) ∙ sym (first_append s.tail p a b);
    linked =
        rw (regroup a b p s.tail, e)
          (Linked-remove s.next s.prev v p n a c (rw e at d) (rw e at l));
    distinct = rw (regroup a b p s.tail) skip.1;
    marked =
        marked_drop s.in_queue v (a ++ p ∷ b)
          (All-left _ (a ++ p ∷ b) (s.tail ∷ []) (rw (regroup a b p s.tail) skip.0))
          (All-skip _ v p a b h.marked);
    counted =
        fewer_size s (length (a ++ p ∷ b)) (h.counted ∙ ap pos (length_more a b v p))
          (omega (arith, length_more a b v p));
  },
)
  where
    d : Distinct (a ++ p ∷ v ∷ (b ++ s.tail ∷ []))
    d = rw (regroup a (v ∷ b) p s.tail) at h.distinct

    l : Linked s.next s.prev (a ++ p ∷ v ∷ (b ++ s.tail ∷ []))
    l = rw (regroup a (v ∷ b) p s.tail) at h.linked

    skip : Fresh v (a ++ p ∷ (b ++ s.tail ∷ [])) × Distinct (a ++ p ∷ (b ++ s.tail ∷ []))
    skip = Distinct-skip v p a (b ++ s.tail ∷ []) d

    there : (s.prev v ≡ some p) × (s.next v ≡ some n)
    there = links_at s.next s.prev p v n a c (rw e at l)

    mark : All (λ x. s.in_queue x ≡ true) (p ∷ v ∷ b)
    mark = All-right _ a (p ∷ v ∷ b) h.marked

    tails : Distinct (p ∷ v ∷ (b ++ s.tail ∷ []))
    tails = Distinct-right a (p ∷ v ∷ (b ++ s.tail ∷ [])) d

    not_tail : (v == s.tail) ≡ false
    not_tail = let q = All-right _ b (s.tail ∷ []) tails.1.0 in ground (arith, q.0)

    v_not_head : (v == s.head) ≡ false
    v_not_head =
        rw (h.from_head ∙ first_append s.tail p a (v ∷ b)) (head_ne p v a (b ++ s.tail ∷ []) d)

ends_view : (t : ℕ) (ys : List ℕ) → (n : ℕ) × (c : List ℕ) × (ys ++ t ∷ [] ≡ n ∷ c)
ends_view t [] = (t, [], refl)
ends_view t (y ∷ ys) = (y, ys ++ t ∷ [], refl)

last_view : (x : ℕ) (xs : List ℕ) → (a : List ℕ) × (p : ℕ) × (x ∷ xs ≡ a ++ p ∷ [])
last_view x [] = ([], x, refl)
last_view x (y ∷ xs) = let (a, p, e) = last_view y xs in (x ∷ a, p, ap (◌∷◌ x) e)

-- `del` of any event in the queue takes it out of the list, wherever it stands.
pub del-Holds :
    (v : ℕ) (xs ys : List ℕ) (s : EventQueue)
    → Holds (xs ++ v ∷ ys) s
    → length (xs ++ v ∷ ys) ≤ 2147483647
    → (t : EventQueue) × (del v s ≡ ok t)
      × Holds (xs ++ ys) t
      × (t.in_queue v ≡ false)
      × (t.tail ≡ s.tail)
      × (t.object ≡ s.object)
del-Holds v [] ys s h few =
    let (n, c, e) = ends_view s.tail ys in
    let (d, k) = del_head-Holds v n ys c s h e few in
    (without_head v n s, d, k, ground arith, refl, refl)
del-Holds v (x ∷ xs) ys s h few =
    let (n, c, e) = ends_view s.tail ys in
    let (a, p, q) = last_view x xs in
    let r : (x ∷ xs) ++ v ∷ ys ≡ a ++ p ∷ v ∷ ys =
      ap (λ l. l ++ v ∷ ys) q ∙ append_assoc a (p ∷ []) (v ∷ ys) in
    let (d, k) =
      del_between-Holds v p n a ys c s (subst (λ l. Holds l s) r h) e
        (subst (λ l. length l ≤ 2147483647) r few) in
    let u : Holds ((x ∷ xs) ++ ys) (without v p n s) =
      subst (λ l. Holds (l ++ ys) (without v p n s)) (sym q) (rw (append_assoc a (p ∷ []) ys) k) in
    (without v p n s, d, u, ground arith, refl, refl)
