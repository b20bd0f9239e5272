-- ===== src/Pool/Switching.antt =====
-- The switch of a pool to the next IDC of its server.
use relay_proxy.Base.{
  ◌≡◌, ◌≢◌, ◌<◌, ◌∙◌, sym, refl, ℤ, pos, negsuc, neg_part, pos_part, ltb_ℤ, Bytes, Bool, true,
  false, not, ◌&&◌, if◌then◌else◌, Option, none, some, [], ◌∷◌, ◌++◌, Result, ok, throw, Exception,
  ℕ, server_exception, err_server_busy, arith, Bool-cases, inl, inr, bytes_key, eqb_iff,
}
use relay_proxy.HaSite.{
  HaSiteConf, HaSiteInfo, lookup_site, get_next_idc, get_current_idc, set_current_idc,
}
use relay_proxy.Socket.Receive.{of_ok}
use relay_proxy.HaSite
use relay_proxy.HaSite.{ServerType, touch_site}
use relay_proxy.HaSite.Order.{set_current_idc-get_next_idc}
use relay_proxy.HaSite.Nodes.{lookup_site-touch_site, get_next_idc-touch_site}
use relay_proxy.Pool.Leases.{current-clean, current-begin_switch}
use relay_proxy.Pool.Service.{begin_switch_fields}
use relay_proxy.Pool.Invariant.{IsSound, set_used_lem, clean_fields, push_entry_lem}
use relay_proxy.Pool.{
  ApiPool, Entries, pick, no_free, current, old, clean, delete_free, switch_complete, is_ongoing,
  with_current, begin_switch, choose, get, grow, add_api, connect_to, push_api, search_free,
  push_entry, new_api, is_server_type,
}
use relay_proxy.Api.{Api, set_used, fini}

switch_complete-delete_free : (es : Entries) → switch_complete (delete_free es) ≡ switch_complete es
unfolding switch_complete delete_free
switch_complete-delete_free [] = refl
switch_complete-delete_free (none ∷ es) = switch_complete-delete_free es
switch_complete-delete_free (some a ∷ es) = ground (arith, switch_complete-delete_free es)

-- The clean-up ends a switch exactly when no connection of the old pool is in use, and then the old
-- pool is empty; otherwise the old pool holds the connections in use, with null pointers between.
pub clean_ends :
    (p : ApiPool)
    → is_ongoing p.switch_state ≡ true
    → (is_ongoing (clean p).switch_state ≡ not (switch_complete (old p)))
      × (old (clean p) ≡ (if switch_complete (old p) then [] else delete_free (old p)))
clean_ends p on =
    ground (arith, on, clean_fields p, current-clean p, switch_complete-delete_free (old p))

-- Every connection of a vector is in use.
abbrev all_used : Entries → Bool
all_used [] = true
all_used (none ∷ es) = false
all_used (some a ∷ es) = a.is_used && all_used es

pick-no_free : (tcp_ok : ℕ → Bool) (es : Entries) → all_used es ≡ true → pick tcp_ok es ≡ no_free
unfolding pick
pick-no_free tcp_ok [] h = refl
pick-no_free tcp_ok (none ∷ es) h = absurd (cc h)
pick-no_free tcp_ok (some a ∷ es) h = ground (arith, pick-no_free tcp_ok es)

-- Outside a switch, with every connection in use and the pool at its limit, `get` throws "busy" and
-- changes nothing.
pub get_full :
    (tcp_ok : ℕ → Bool) (p : ApiPool) (conf : HaSiteConf)
    → is_ongoing p.switch_state ≡ false
    → p.need_switch ≡ false
    → all_used (current p) ≡ true
    → ltb_ℤ (pos p.pool_size) p.max_conn_num ≡ false
    → get tcp_ok p conf ≡ (p, conf, throw (server_exception err_server_busy))
unfolding get choose clean search_free grow
get_full tcp_ok p conf calm off used full =
    ground (arith, calm, off, used, full, pick-no_free tcp_ok (current p) used)

-- What a connection attempt leaves alone, and which connection it adds.
record Adds (q : ApiPool) (conf : HaSiteConf) (idc : Bytes) (o : ApiPool × HaSiteConf × Result ℕ)
    : Type 0 where
  same_conf : o.1 ≡ conf
  same_old : old o.0 ≡ old q
  same_state : o.0.switch_state ≡ q.switch_state
  same_flag : o.0.need_switch ≡ q.need_switch
  added :
      (id : ℕ)
      → o.2 ≡ ok id
      → (a : Api) × (current o.0 ≡ current q ++ (some a ∷ [])) × (a.id ≡ id) × (a.idc ≡ idc)

push_flag : (e : Option Api) (q : ApiPool) → (push_entry e q).need_switch ≡ q.need_switch
unfolding push_entry with_current
push_flag e q = ground arith

set_used-idc : (b : Bool) (a : Api) → (set_used b a).idc ≡ a.idc
unfolding set_used fini
set_used-idc b a = ground arith

-- The number that the check at the end of `_add_api` lets through.
reported : (b : Bool) (n id : ℕ) (e : Exception) → (if b then ok n else throw e) ≡ ok id → n ≡ id
reported true n id e h = of_ok n id h
reported false n id e h = absurd (cc h)

push_api-Adds :
    (tcp_ok : ℕ → Bool) (q : ApiPool) (conf : HaSiteConf) (idc ip : Bytes) (port : ℤ)
    (kind : ServerType)
    → Adds q conf idc (push_api tcp_ok q conf idc ip port kind)
unfolding push_api
push_api-Adds tcp_ok q conf idc ip port kind =
    let a = set_used (tcp_ok q.next_id) (new_api q idc ip port kind) in
    let made = push_entry_lem (some a) q in
    elim (Bool-cases (is_server_type kind)) [
      | inl known ↦ rw known (record {
        same_conf = refl;
        same_old = made.1;
        same_state = made.6;
        same_flag = push_flag (some a) q;
        added = λ id e. (
          a,
          made.0,
          (set_used_lem (tcp_ok q.next_id) (new_api q idc ip port kind)).0
              ∙ reported _ q.next_id id _ e,
          set_used-idc (tcp_ok q.next_id) (new_api q idc ip port kind),
        );
      })
      | inr unknown ↦ rw unknown (record {
        same_conf = refl;
        same_old = refl;
        same_state = refl;
        same_flag = refl;
        added = λ id e. absurd (cc e);
      })
    ]

connect_to-Adds :
    (tcp_ok : ℕ → Bool) (q : ApiPool) (conf : HaSiteConf) (idc : Bytes)
    (node : Result (Bytes × ℤ × ServerType))
    → Adds q conf idc (connect_to tcp_ok q conf idc node)
unfolding connect_to
connect_to-Adds tcp_ok q conf idc (throw e) = record {
  same_conf = refl;
  same_old = refl;
  same_state = refl;
  same_flag = refl;
  added = λ id e. absurd (cc e);
}
connect_to-Adds tcp_ok q conf idc (ok (ip, port, kind)) =
    let h = push_api-Adds tcp_ok (record q { ip_addr = ip; port = port }) conf idc ip port kind in
    unfold current old in
    record {
      same_conf = h.same_conf;
      same_old = h.same_old;
      same_state = h.same_state;
      same_flag = h.same_flag;
      added = h.added;
    }

grow_room :
    (tcp_ok : ℕ → Bool) (q : ApiPool) (conf : HaSiteConf)
    → ltb_ℤ (pos q.pool_size) q.max_conn_num ≡ true
    → q.need_switch ≡ false
    → (conf' : HaSiteConf) × ((server : Bytes) → lookup_site conf' server ≡ lookup_site conf server)
      × Adds q conf' (lookup_site conf q.server_name).current_idc (grow tcp_ok q conf)
unfolding grow add_api get_current_idc HaSite.get
grow_room tcp_ok q conf room off = (
  touch_site (touch_site conf q.server_name) q.server_name,
  λ server.
      lookup_site-touch_site (touch_site conf q.server_name) q.server_name server
      ∙ lookup_site-touch_site conf q.server_name server,
  simp (room, off) (connect_to-Adds tcp_ok q _ _ _),
)

switched_idc :
    (conf : HaSiteConf) (server : Bytes)
    → (get_next_idc conf server).1 ≢ []
    → (lookup_site (set_current_idc (get_next_idc conf server).0 server) server).current_idc
      ≡ (get_next_idc conf server).1
unfolding get_current_idc
switched_idc conf server more =
    let e = get_next_idc-touch_site conf server in
    let there : (get_next_idc conf server).0 ≡ touch_site conf server =
      unfold get_next_idc in refl in
    rw there (
      (set_current_idc-get_next_idc (touch_site conf server) server server).0
        (λ h. more (sym e ∙ h))
      ∙ e)

get_calm :
    (tcp_ok : ℕ → Bool) (p : ApiPool) (conf : HaSiteConf)
    → is_ongoing p.switch_state ≡ false
    → p.need_switch ≡ true
    → (get_next_idc conf p.server_name).1 ≢ []
    → get tcp_ok p conf
      ≡ grow tcp_ok
          (begin_switch p)
          (set_current_idc (get_next_idc conf p.server_name).0 p.server_name)
unfolding get choose clean
get_calm tcp_ok p conf calm on more =
    ground (arith, calm, on, eqb_iff (get_next_idc conf p.server_name).1 [])

neg_part_zero : (a : ℤ) → 0 < pos_part a → neg_part a ≡ 0
neg_part_zero (pos n) h = refl
neg_part_zero (negsuc n) h = absurd (omega arith)

begin_switch_room :
    (p : ApiPool)
    → IsSound p
    → is_ongoing p.switch_state ≡ false
    → 0 < pos_part p.max_conn_num
    → ltb_ℤ (pos (begin_switch p).pool_size) (begin_switch p).max_conn_num ≡ true
begin_switch_room p s calm room = ground (
  arith,
  begin_switch_fields p,
  current-begin_switch p,
  s.idle calm,
  neg_part_zero p.max_conn_num room,
)

begin_switch_flags :
    (p : ApiPool)
    → ((begin_switch p).need_switch ≡ false)
      × (is_ongoing (begin_switch p).switch_state ≡ true)
      × ((begin_switch p).server_name ≡ p.server_name)
unfolding begin_switch
begin_switch_flags p = (refl, refl, refl)

-- A requested switch takes place: outside a switch, with a next IDC and room for one connection,
-- `get` makes the next IDC the current one and the request is done. The connections so far go to the
-- old pool, those in use with them, and the connection that it returns, if any, is the only one of
-- the current pool and belongs to the next IDC.
pub get-switches :
    (tcp_ok : ℕ → Bool) (p : ApiPool) (conf : HaSiteConf)
    → IsSound p
    → is_ongoing p.switch_state ≡ false
    → p.need_switch ≡ true
    → (get_next_idc conf p.server_name).1 ≢ []
    → 0 < pos_part p.max_conn_num
    → let o = get tcp_ok p conf in
      (is_ongoing o.0.switch_state ≡ true)
      × (o.0.need_switch ≡ false)
      × (old o.0 ≡ current p)
      × ((get_current_idc o.1 p.server_name).1 ≡ (get_next_idc conf p.server_name).1)
      × ((id : ℕ)
          → o.2 ≡ ok id
          → (a : Api) × (current o.0 ≡ some a ∷ [])
            × (a.id ≡ id)
            × (a.idc ≡ (get_next_idc conf p.server_name).1))
get-switches tcp_ok p conf s calm on more room =
    let q = begin_switch p in
    let set = set_current_idc (get_next_idc conf p.server_name).0 p.server_name in
    let (conf', same, h) =
      grow_room tcp_ok q set (begin_switch_room p s calm room) (begin_switch_flags p).0 in
    let now = same p.server_name in
    let idc = switched_idc conf p.server_name more in
    let name = (begin_switch_flags p).2 in
    rw (get_calm tcp_ok p conf calm on more) (
      rw h.same_state (begin_switch_flags p).1,
      h.same_flag ∙ (begin_switch_flags p).0,
      h.same_old ∙ (current-begin_switch p).1,
      rw h.same_conf (unfold get_current_idc in (rw now idc)),
      λ id e.
          let (a, c, n, i) = h.added id e in
          (a, c ∙ (rw ((current-begin_switch p).0, s.idle calm)), n, i ∙ (rw name idc)),
    )
