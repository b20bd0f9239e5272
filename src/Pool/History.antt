-- ===== src/Pool/History.antt =====
-- A pool over time: releases, and the invariant after any sequence of calls.
use relay_proxy.Base.{
  ℕ, suc, ◌+◌, ◌<◌, ◌≤◌, ◌≡◌, refl, ℤ, Bytes, Bool, true, false, not, ◌&&◌, ◌==◌, if◌then◌else◌,
  none, some, List, [], ◌∷◌, length, ok, arith,
}
use relay_proxy.HaSite.{HaSiteConf}
use relay_proxy.Pool.Leases.{count_api, count_lease, apis, leases, count_lease-le}
use relay_proxy.Pool.Invariant.{IsSound, no_null, is_fatal}
use relay_proxy.Pool.Service.{get-Served, get-Kept}
use relay_proxy.Pool.Factor.{get-factor}
use relay_proxy.Pool.{
  ApiPool, Entries, current, old, free_entries, release, get, set_switch_on, set_switch_off,
  new_pool,
}
use relay_proxy.Api.{set_free, fini}

module _ (conn_num : ℤ) (force_close : Bool) (id : ℕ) where
  free_entries_lem :
      (j : ℕ) (es : Entries)
      → (count_lease j (free_entries conn_num force_close id es)
          ≡ (if id == j then 0 else count_lease j es))
        × (count_api j (free_entries conn_num force_close id es) ≡ count_api j es)
        × (length (free_entries conn_num force_close id es) ≡ length es)
        × (no_null (free_entries conn_num force_close id es) ≡ no_null es)
  unfolding free_entries count_lease count_api set_free fini
  free_entries_lem j [] = ground arith
  free_entries_lem j (none ∷ es) = ground (arith, free_entries_lem j es)
  free_entries_lem j (some a ∷ es) = ground (arith, free_entries_lem j es)

release_lem :
    (p : ApiPool) (id : ℕ) (force_close : Bool)
    → (current (release p id force_close) ≡ free_entries p.conn_num force_close id (current p))
      × (old (release p id force_close) ≡ free_entries p.conn_num force_close id (old p))
      × (length (old (release p id force_close)) ≡ length (old p))
unfolding current old release
release_lem p id force_close = ground (
  arith,
  free_entries_lem p.conn_num force_close id 0 p.pool_0,
  free_entries_lem p.conn_num force_close id 0 p.pool_1,
)

length-nil : (es : Entries) → length es ≡ 0 → es ≡ []
length-nil [] h = refl
length-nil (e ∷ es) h = absurd (omega arith)

leases-le-apis : (j : ℕ) (p : ApiPool) → leases j p ≤ apis j p
unfolding leases apis
leases-le-apis j p = omega (arith, count_lease-le j (current p), count_lease-le j (old p))

module _ (p : ApiPool) (id : ℕ) (force_close : Bool) where
  release_fields :
      ((release p id force_close).pool_size ≡ p.pool_size)
      × ((release p id force_close).next_id ≡ p.next_id)
      × ((release p id force_close).switch_factor ≡ p.switch_factor)
      × ((release p id force_close).max_conn_num ≡ p.max_conn_num)
      × ((release p id force_close).switch_state ≡ p.switch_state)
  unfolding release
  release_fields = (refl, refl, refl, refl, refl)

  -- A release ends the leases of its connection, and of no other; it deletes no connection.
  pub leases-release :
      (j : ℕ)
      → (leases j (release p id force_close) ≡ (if id == j then 0 else leases j p))
        × (apis j (release p id force_close) ≡ apis j p)
  unfolding leases apis
  leases-release j = ground (
    arith,
    release_lem p id force_close,
    free_entries_lem p.conn_num force_close id j (current p),
    free_entries_lem p.conn_num force_close id j (old p),
  )

  release-IsSound : IsSound p → IsSound (release p id force_close)
  release-IsSound s =
      let r = release_lem p id force_close in
      let c = free_entries_lem p.conn_num force_close id 0 (current p) in
      record {
        size = ground (arith, release_fields, r, c, s.size);
        solid = ground (arith, r, c, s.solid);
        fresh = λ j h. ground (arith, release_fields, leases-release j, s.fresh j);
        unique = λ j. ground (arith, leases-release j, s.unique j);
        idle = λ h. length-nil _ (ground (arith, release_fields, r, s.idle));
        started = ground (arith, release_fields, s.started);
        within = ground (arith, release_fields, s.within);
        last = ground (arith, release_fields, s.last);
        bounded = ground (arith, release_fields, s.bounded);
      }

-- The calls on a pool; `reconfigured` is a change of the site configuration by another thread.
pub data Call : Type 0 where
  gets : (ℕ → Bool) → Call
  releases : ℕ → Bool → Call
  switches_on : Call
  switches_off : Call
  reconfigured : HaSiteConf → Call

pub record History : Type 0 where
  pub pool : ApiPool
  pub conf : HaSiteConf
  -- Whether every `get` so far ended without a fatal exception.
  pub healthy : Bool

unfoldable pub step : History → Call → History
step h (gets tcp_ok) =
    let (p, conf, r) = get tcp_ok h.pool h.conf in
    record { pool = p; conf = conf; healthy = h.healthy && not (is_fatal r) }
step h (releases id force_close) = record h { pool = release h.pool id force_close }
step h switches_on = record h { pool = set_switch_on h.pool }
step h switches_off = record h { pool = set_switch_off h.pool }
step h (reconfigured conf) = record h { conf = conf }

unfoldable pub run : History → List Call → History
run h [] = h
run h (c ∷ cs) = run (step h c) cs

flagged : (p : ApiPool) (b : Bool) → IsSound p → IsSound (record p { need_switch = b })
unfolding current old apis
flagged p b s = record {
  size = s.size;
  solid = s.solid;
  fresh = s.fresh;
  unique = s.unique;
  idle = s.idle;
  started = s.started;
  within = s.within;
  last = s.last;
  bounded = s.bounded;
}

step-IsSound :
    (h : History) (c : Call)
    → IsSound h.pool
    → h.pool.switch_factor < 2147483648
    → h.healthy ≡ true
    → IsSound (step h c).pool
      × ((step h c).healthy ≡ true)
      × ((step h c).pool.switch_factor ≤ suc h.pool.switch_factor)
unfolding step
step-IsSound h (gets tcp_ok) s small well =
    let served = get-Served tcp_ok h.pool h.conf s small in
    (served.sound, ground (arith, served.harmless), get-factor tcp_ok h.pool h.conf)
step-IsSound h (releases id force_close) s small well = (
  release-IsSound h.pool id force_close s,
  well,
  omega (arith, release_fields h.pool id force_close),
)
step-IsSound h switches_on s small well = (flagged h.pool true s, well, omega arith)
step-IsSound h switches_off s small well = (flagged h.pool false s, well, omega arith)
step-IsSound h (reconfigured conf) s small well = (s, well, omega arith)

run-IsSound :
    (h : History) (cs : List Call)
    → IsSound h.pool
    → h.pool.switch_factor + length cs ≤ 2147483648
    → h.healthy ≡ true
    → IsSound (run h cs).pool × ((run h cs).healthy ≡ true)
unfolding run
run-IsSound h [] s small well = (s, well)
run-IsSound h (c ∷ cs) s small well =
    let (s', well', near) = step-IsSound h c s (omega (arith, small)) well in
    run-IsSound (step h c) cs s' (omega (arith, small, near)) well'

pub new_pool-IsSound :
    (server : Bytes) (conn_num max_conn_num time_out : ℤ)
    → IsSound (new_pool server conn_num max_conn_num time_out)
unfolding new_pool current old apis count_api
new_pool-IsSound server conn_num max_conn_num time_out = record {
  size = refl;
  solid = refl;
  fresh = λ j h. refl;
  unique = λ j. omega arith;
  idle = λ h. refl;
  started = λ h. absurd (cc h);
  within = omega arith;
  last = λ h. absurd (omega (arith, h));
  bounded = omega arith;
}

-- Over no more than 2147483648 calls on a new pool, whatever they are, in whatever order and with
-- whatever changes of the site configuration, the pool stays sound: `_pool_size` counts the current vector, which holds no null
-- pointer and no more than `max_conn_num` connections, no connection stands in the pools twice, and
-- no `get` ends in a failed assertion, a null pointer or the error of a broken pool size.
pub run-new_pool :
    (server : Bytes) (conn_num max_conn_num time_out : ℤ) (conf : HaSiteConf) (cs : List Call)
    → length cs ≤ 2147483648
    → let h =
        run
          (record {
            pool = new_pool server conn_num max_conn_num time_out;
            conf = conf;
            healthy = true;
          })
          cs in
      IsSound h.pool × (h.healthy ≡ true)
unfolding new_pool
run-new_pool server conn_num max_conn_num time_out conf cs few =
    run-IsSound _ cs (new_pool-IsSound server conn_num max_conn_num time_out) (omega (arith, few))
      refl

-- In a sound pool the connection that `get` returns was not handed out, and is handed out once.
pub get-exclusive :
    (tcp_ok : ℕ → Bool) (p : ApiPool) (conf : HaSiteConf) (id : ℕ)
    → IsSound p
    → (get tcp_ok p conf).2 ≡ ok id
    → (leases id p ≡ 0) × (leases id (get tcp_ok p conf).0 ≡ 1)
get-exclusive tcp_ok p conf id s e =
    let served = get-Kept tcp_ok p conf s in
    ground
      (arith, served.counted id, served.sound.unique id, leases-le-apis id (get tcp_ok p conf).0)
