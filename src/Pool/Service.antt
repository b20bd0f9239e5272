-- ===== src/Pool/Service.antt =====
-- The outcome of `get`, stage by stage: what it owes to its caller and to the other holders.
use relay_proxy.Base.{
  ℕ, suc, ◌+◌, ◌<◌, ◌≡◌, ◌⊎◌, refl, ℤ, pos, pos_part, ltb_ℤ, Bytes, Bool, true, false, ◌&&◌, ◌==◌,
  not, ◌%◌, ◌^◌, if◌then◌else◌, some, [], length, Result, ok, throw, Exception, server_exception,
  config_exception, err_server_busy, err_conf, err_server_maintain, arith, Bool-cases, inl, inr,
  eqb,
}
use relay_proxy.HaSite.{HaSiteConf, ServerType, get_next_idc}
use relay_proxy.HaSite.Nodes.{get-throw}
use relay_proxy.Pool.Leases.{
  leases, apis, count_api, count_lease, current-with_current, current-begin_switch, leases-clean,
  count-pick,
}
use relay_proxy.Pool.Invariant.{
  IsSound, Kept, Served, Served-Kept, granted, is_fatal, no_null, no_null-pick, pick-ne-null_entry,
  clean-IsSound, set_used_lem, push_entry-IsSound, push_entry-leases,
}
use relay_proxy.Pool.{
  ApiPool, Entries, Pick, null_entry, no_free, picked, pick, is_positive, current, old,
  with_current, clean, is_ongoing, ongoing, push_entry, push_api, new_api, is_server_type, report,
  connect_to, add_api, grow, search_free, begin_switch, choose, get, Outcome,
}
use relay_proxy.Api.{Api, set_used}

-- A call that leaves the pool alone and throws.
refused :
    (p : ApiPool) (conf : HaSiteConf) (r : Result ℕ)
    → IsSound p
    → is_fatal r ≡ false
    → ((j : ℕ) → granted r j ≡ 0)
    → Served p (p, conf, r)
refused p conf r s h g = record { sound = s; counted = λ j. omega (arith, g j); harmless = h }

report-Served :
    (p : ApiPool) (conf : HaSiteConf) (a : Api)
    → a.id ≡ p.next_id
    → a.is_used ≡ true
    → p.pool_size < pos_part p.max_conn_num
    → IsSound p
    → Served p (report conf p.next_id (push_entry (some a) p))
report-Served p conf a new used room s =
    let s' = push_entry-IsSound a p new room s in
    record {
      sound = s';
      counted = λ j. ground (arith, s'.size, push_entry-leases a p j new used);
      harmless = ground (arith, s'.size);
    }

push_api-Served :
    (tcp_ok : ℕ → Bool) (p : ApiPool) (conf : HaSiteConf) (idc ip : Bytes) (port : ℤ)
    (kind : ServerType)
    → p.pool_size < pos_part p.max_conn_num
    → IsSound p
    → Served p (push_api tcp_ok p conf idc ip port kind)
unfolding push_api
push_api-Served tcp_ok p conf idc ip port kind room s =
    let made = set_used_lem (tcp_ok p.next_id) (new_api p idc ip port kind) in
    let served =
      report-Served p conf (set_used (tcp_ok p.next_id) (new_api p idc ip port kind)) made.0 made.1
        room s in
    elim (Bool-cases (is_server_type kind)) [
      | inl known ↦ rw known served
      | inr unknown ↦
          rw unknown (refused p conf (throw (config_exception err_conf)) s refl (λ j. refl))
    ]

-- The fields that `connect_to` and the test of `need_switch` write do not matter to the invariant.
addressed :
    (p : ApiPool) (ip : Bytes) (port : ℤ)
    → IsSound p
    → IsSound (record p { ip_addr = ip; port = port })
unfolding current old apis
addressed p ip port s = record {
  size = s.size;
  solid = s.solid;
  fresh = s.fresh;
  unique = s.unique;
  idle = s.idle;
  started = s.started;
  within = s.within;
  last = s.last;
  bounded = s.bounded;
}

leases-addressed :
    (p : ApiPool) (ip : Bytes) (port : ℤ) (j : ℕ)
    → leases j (record p { ip_addr = ip; port = port }) ≡ leases j p
unfolding current old leases
leases-addressed p ip port j = refl

unflagged : (p : ApiPool) (b : Bool) → IsSound p → IsSound (record p { need_switch = b })
unfolding current old apis
unflagged p b s = record {
  size = s.size;
  solid = s.solid;
  fresh = s.fresh;
  unique = s.unique;
  idle = s.idle;
  started = s.started;
  within = s.within;
  last = s.last;
  bounded = s.bounded;
}

leases-unflagged :
    (p : ApiPool) (b : Bool) (j : ℕ) → leases j (record p { need_switch = b }) ≡ leases j p
unfolding current old leases
leases-unflagged p b j = refl

-- What is owed from a state with the same leases is owed from this one.
rebase :
    (p q : ApiPool) (o : Outcome) → ((j : ℕ) → leases j q ≡ leases j p) → Served q o → Served p o
rebase p q o same s = record {
  sound = s.sound;
  counted = λ j. omega (arith, same j, s.counted j);
  harmless = s.harmless;
}

connect_to-Served :
    (tcp_ok : ℕ → Bool) (p : ApiPool) (conf : HaSiteConf) (idc : Bytes)
    (node : Result (Bytes × ℤ × ServerType))
    → ((e : Exception) → node ≡ throw e → e ≡ server_exception err_server_maintain)
    → p.pool_size < pos_part p.max_conn_num
    → IsSound p
    → Served p (connect_to tcp_ok p conf idc node)
unfolding connect_to
connect_to-Served tcp_ok p conf idc (throw e) only room s =
    rw (only e refl)
      (refused p conf (throw (server_exception err_server_maintain)) s refl (λ j. refl))
connect_to-Served tcp_ok p conf idc (ok (ip, port, kind)) only room s =
    rebase p (record p { ip_addr = ip; port = port }) _ (leases-addressed p ip port)
      (push_api-Served tcp_ok (record p { ip_addr = ip; port = port }) conf idc ip port kind room
        (addressed p ip port s))

grow-Served :
    (tcp_ok : ℕ → Bool) (p : ApiPool) (conf : HaSiteConf)
    → IsSound p
    → Served p (grow tcp_ok p conf)
grow-Served tcp_ok p conf s = elim (Bool-cases (ltb_ℤ (pos p.pool_size) p.max_conn_num)) [
  | inl room ↦
      unfold grow add_api in
      rw room
        (connect_to-Served tcp_ok p _ _ _ (λ e. get-throw _ _ p.server_name e) (ground arith) s)
  | inr full ↦
      unfold grow in
      rw full (refused p conf (throw (server_exception err_server_busy)) s refl (λ j. refl))
]

pub with_current_fields :
    (es : Entries) (p : ApiPool)
    → ((with_current es p).pool_size ≡ p.pool_size)
      × ((with_current es p).next_id ≡ p.next_id)
      × ((with_current es p).switch_factor ≡ p.switch_factor)
      × ((with_current es p).max_conn_num ≡ p.max_conn_num)
      × ((with_current es p).switch_state ≡ p.switch_state)
unfolding with_current
with_current_fields es p = ground arith

leases-with_current :
    (p : ApiPool) (es : Entries) (id j : ℕ)
    → count_lease j es ≡ count_lease j (current p) + (if id == j then 1 else 0)
    → leases j (with_current es p) ≡ leases j p + (if id == j then 1 else 0)
unfolding leases
leases-with_current p es id j h = ground (arith, current-with_current es p)

pub Pick-cases :
    (r : Pick) → (r ≡ null_entry) ⊎ (r ≡ no_free) ⊎ ((es : Entries) × (id : ℕ) × (r ≡ picked es id))
Pick-cases null_entry = inl refl
Pick-cases no_free = inr (inl refl)
Pick-cases (picked es id) = inr (inr (es, id, refl))

with_current-IsSound :
    (p : ApiPool) (es : Entries)
    → length es ≡ length (current p)
    → no_null es ≡ true
    → ((j : ℕ) → count_api j es ≡ count_api j (current p))
    → IsSound p
    → IsSound (with_current es p)
unfolding apis
with_current-IsSound p es len solid same s =
    let w = current-with_current es p in
    let f = with_current_fields es p in
    record {
      size = ground (arith, w, f, s.size);
      solid = ground (arith, w);
      fresh = λ j h. ground (arith, w, f, same j, s.fresh j);
      unique = λ j. ground (arith, w, same j, s.unique j);
      idle = ground (arith, w, f, s.idle);
      started = ground (arith, f, s.started);
      within = ground (arith, f, s.within);
      last = ground (arith, f, s.last);
      bounded = ground (arith, f, s.bounded);
    }

search_free-Served :
    (tcp_ok : ℕ → Bool) (p : ApiPool) (conf : HaSiteConf)
    → IsSound p
    → Served p (search_free tcp_ok p conf)
search_free-Served tcp_ok p conf s = elim (Pick-cases (pick tcp_ok (current p))) [
  | inl e ↦ absurd (pick-ne-null_entry tcp_ok (current p) s.solid e)
  | inr (inl e) ↦ unfold search_free in rw (e, search_free) (grow-Served tcp_ok p conf s)
  | inr (inr (es, id, e)) ↦ unfold search_free in rw (e, search_free) (found es id e)
]
  where
    found :
        (es : Entries) (id : ℕ)
        → pick tcp_ok (current p) ≡ picked es id
        → Served p (with_current es p, conf, ok id)
    found es id e = record {
      sound =
          with_current-IsSound p es (count-pick 0 tcp_ok (current p) es id e).2
            (no_null-pick tcp_ok (current p) es id e s.solid)
            (λ j. (count-pick j tcp_ok (current p) es id e).1) s;
      counted = λ j. leases-with_current p es id j (count-pick j tcp_ok (current p) es id e).0;
      harmless = refl;
    }

pub begin_switch_fields :
    (p : ApiPool)
    → ((begin_switch p).pool_size ≡ length (current (begin_switch p)))
      × ((begin_switch p).next_id ≡ p.next_id)
      × ((begin_switch p).switch_factor ≡ suc p.switch_factor % 2 ^ 32)
      × ((begin_switch p).max_conn_num ≡ p.max_conn_num)
      × ((begin_switch p).switch_state ≡ ongoing)
unfolding begin_switch current
begin_switch_fields p = (refl, refl, refl, refl, refl)

calm_factor :
    (p : ApiPool) → IsSound p → is_ongoing p.switch_state ≡ false → p.switch_factor < 2147483648
calm_factor p s calm = ground (arith, s.within, s.last, calm)

-- With the old pool empty, a switch begins with an empty current pool.
begin_switch-IsSound :
    (p : ApiPool) → IsSound p → is_ongoing p.switch_state ≡ false → IsSound (begin_switch p)
unfolding apis count_api
begin_switch-IsSound p s calm =
    let c = current-begin_switch p in
    let f = begin_switch_fields p in
    let small : p.switch_factor < 2147483648 = calm_factor p s calm in
    record {
      size = ground (arith, f, c);
      solid = ground (arith, c, s.idle calm);
      fresh = λ j h. ground (arith, f, c, s.fresh j);
      unique = λ j. ground (arith, c, s.unique j);
      idle = ground (arith, f);
      started = ground (arith, f, small);
      within = ground (arith, f, small);
      last = ground (arith, f);
      bounded = ground (arith, f, c, s.idle calm);
    }

leases-begin_switch : (p : ApiPool) (j : ℕ) → leases j (begin_switch p) ≡ leases j p
unfolding leases
leases-begin_switch p j = ground (arith, current-begin_switch p)

choose-Served :
    (tcp_ok : ℕ → Bool) (p : ApiPool) (conf : HaSiteConf)
    → IsSound p
    → Served p (choose tcp_ok p conf)
unfolding choose
choose-Served tcp_ok p conf s = elim (Bool-cases p.need_switch) [
  | inr off ↦ simp off (search_free-Served tcp_ok p conf s)
  | inl on ↦ elim (Bool-cases (eqb (get_next_idc conf p.server_name).1 [])) [
    | inl last ↦
        simp (on, last)
          (rebase p (record p { need_switch = false }) _ (leases-unflagged p false)
            (search_free-Served tcp_ok (record p { need_switch = false }) _ (unflagged p false s)))
    | inr more ↦ elim (Bool-cases (is_ongoing p.switch_state)) [
      | inl busy ↦
          simp (on, more, busy)
            (refused p _ (throw (server_exception err_server_busy)) s refl (λ j. refl))
      | inr calm ↦
          simp (on, more, calm)
            (rebase p (begin_switch p) _ (leases-begin_switch p)
              (grow-Served tcp_ok (begin_switch p) _ (begin_switch-IsSound p s calm)))
    ]
  ]
]

checked_factor :
    (p : ApiPool)
    → IsSound p
    → is_ongoing p.switch_state && not (is_positive p.switch_factor) ≡ false
    → p.switch_factor < 2147483648
checked_factor p s good = ground (arith, s.within, s.last, good)

checked :
    (tcp_ok : ℕ → Bool) (p : ApiPool) (conf : HaSiteConf)
    → IsSound p
    → is_ongoing p.switch_state && not (is_positive p.switch_factor) ≡ false
    → Served p (get tcp_ok p conf)
unfolding get
checked tcp_ok p conf s good = rw good (
    rebase p (clean p) _ (λ j. (leases-clean j p).0)
      (choose-Served tcp_ok (clean p) conf (clean-IsSound p s (checked_factor p s good))))

failed :
    (tcp_ok : ℕ → Bool) (p : ApiPool) (conf : HaSiteConf)
    → IsSound p
    → is_ongoing p.switch_state && not (is_positive p.switch_factor) ≡ true
    → Kept p (get tcp_ok p conf)
unfolding get
failed tcp_ok p conf s bad = rw bad (record { sound = s; counted = λ j. omega arith })

-- `get` leaves a sound pool and the leases of the others even where its assertion fails.
pub get-Kept :
    (tcp_ok : ℕ → Bool) (p : ApiPool) (conf : HaSiteConf) → IsSound p → Kept p (get tcp_ok p conf)
get-Kept tcp_ok p conf s =
    elim (Bool-cases (is_ongoing p.switch_state && not (is_positive p.switch_factor))) [
      | inl bad ↦ failed tcp_ok p conf s bad
      | inr good ↦ Served-Kept p _ (checked tcp_ok p conf s good)
    ]

positive :
    (p : ApiPool)
    → IsSound p
    → p.switch_factor < 2147483648
    → is_ongoing p.switch_state && not (is_positive p.switch_factor) ≡ false
positive p s small = ground (arith, s.started, small)

-- On a sound pool that has begun fewer than 2147483648 switches `get` ends with a sound pool, and
-- without an exception that would end the process. It adds one lease of the connection that it returns
-- and leaves the leases of all others as they are; where it throws, it leaves them all.
pub get-Served :
    (tcp_ok : ℕ → Bool) (p : ApiPool) (conf : HaSiteConf)
    → IsSound p
    → p.switch_factor < 2147483648
    → Served p (get tcp_ok p conf)
get-Served tcp_ok p conf s small = checked tcp_ok p conf s (positive p s small)
