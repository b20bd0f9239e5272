-- ===== src/Routing/Threads.antt =====
-- The threads that connections are given to (`_choose_thread` of `src/relay_server.cpp`).
use relay_proxy.Base.{ℕ, zero, suc, ◌+◌, ◌*◌, ◌≤◌, ◌<◌}
use relay_proxy.Base.{◌≡◌, ap, ◌∙◌, ◌≢◌}
use relay_proxy.Base.{arith}
use relay_proxy.Base.{ℤ, pos, ◌+ℤ◌, ◌-ℤ◌}
use relay_proxy.Base.{int_key, bytes_key}
use native.Mathlib.Numerals.{unary_clauses}
use relay_proxy.Routing.{choose_thread}

-- The thread of the `k`-th connection, from 0 on.
unfoldable pub index_after : ℤ → ℕ → ℤ
index_after thread_num zero = pos 0
index_after thread_num (suc k) = (choose_thread thread_num (index_after thread_num k)).1

next-inner : (w i : ℕ) → i + 1 < w → (choose_thread (pos (suc w)) (pos i)).1 ≡ pos (i + 1)
unfolding choose_thread ◌+ℤ◌ ◌-ℤ◌
next-inner w i h = ground (arith, h)

next-last : (w i : ℕ) → i + 1 ≡ w → (choose_thread (pos (suc w)) (pos i)).1 ≡ pos 0
unfolding choose_thread ◌+ℤ◌ ◌-ℤ◌
next-last w i h = ground (arith, h)

walk :
    (w m i : ℕ)
    → i < w
    → index_after (pos (suc w)) m ≡ pos 0
    → index_after (pos (suc w)) (m + i) ≡ pos i
unfolding index_after
walk w m zero l e = ap (index_after (pos (suc w))) (plus_zero m) ∙ e
  where
    plus_zero : (m : ℕ) → m + 0 ≡ m
    plus_zero m = omega arith
walk w m (suc i) l e =
    ap (index_after (pos (suc w))) (plus_suc m i)
    ∙ ap (λ j. (choose_thread (pos (suc w)) j).1) (walk w m i (omega (arith, l)) e)
    ∙ next-inner w i (omega (arith, l))
    ∙ ap pos (one_more i)
  where
    plus_suc : (m i : ℕ) → m + suc i ≡ suc (m + i)
    plus_suc m i = omega arith

    one_more : (i : ℕ) → i + 1 ≡ suc i
    one_more i = omega arith

rounds : (w q : ℕ) → 1 ≤ w → index_after (pos (suc w)) (q * w) ≡ pos 0
unfolding index_after
rounds w zero lo = ap (index_after (pos (suc w))) (no_rounds w)
  where
    no_rounds : (w : ℕ) → 0 * w ≡ 0
    no_rounds w = omega arith
rounds zero (suc q) lo = absurd (omega (arith, lo))
rounds (suc v) (suc q) lo =
    ap (index_after (pos (suc (suc v)))) (one_round v q)
    ∙ ap (λ j. (choose_thread (pos (suc (suc v))) j).1)
        (walk (suc v) (q * suc v) v (omega arith) (rounds (suc v) q lo))
    ∙ next-last (suc v) v (omega arith)
  where
    one_round : (v q : ℕ) → suc q * suc v ≡ suc (q * suc v + v)
    one_round v q = simp unary_clauses (omega arith)

-- With `w + 1` threads, connections go round the first `w` of them: the connection `i` of each round is
-- given to thread `i`, so that the last thread is never chosen. There are two threads at least.
pub index_after-round :
    (w q i : ℕ)
    → 1 ≤ w
    → i < w
    → ((choose_thread (pos (suc w)) (index_after (pos (suc w)) (q * w + i))).0 ≡ pos i)
      × (index_after (pos (suc w)) (q * w + i) ≢ pos w)
unfolding choose_thread
index_after-round w q i lo l =
    let e = walk w (q * w) i l (rounds w q lo) in (e, λ last. ground (arith, e, last, l))
