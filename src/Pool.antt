-- ===== src/Pool.antt =====
-- api/api_pool.h and .cpp: the connections of one server, and the switch to its next IDC. A pointer
-- to a connection is its `id`; whether the peer has closed a socket is an argument of `get`.
pub mod Leases
pub mod Invariant
pub mod Service
pub mod Factor
pub mod History
pub mod Switching
pub mod Examples
use relay_proxy.Base.{
  ℕ, zero, suc, ◌+◌, ◌%◌, ◌^◌, ltb, ◌≡◌, ℤ, pos, leb_ℤ, ltb_ℤ, Bytes, eqb, Bool, true, false, not,
  ◌&&◌, ◌||◌, ◌==◌, if◌then◌else◌, Option, none, some, List, [], ◌∷◌, ◌++◌, length, Result, ok,
  throw, Exception, server_exception, config_exception, trpc_exception, err_server_busy,
  err_sys_unknown, err_conf, assertion, null_pointer,
}
use relay_proxy.HaSite.{
  HaSiteConf, ServerType, middle, relay, unset, get_next_idc, get_current_idc, set_current_idc,
}
use relay_proxy.HaSite
use relay_proxy.Api.{Api, set_used, set_free}

pub data SwitchState : Type 0 where
  prior : SwitchState
  ongoing : SwitchState
  finished : SwitchState

abbrev pub is_ongoing : SwitchState → Bool
is_ongoing prior = false
is_ongoing ongoing = true
is_ongoing finished = false

-- A vector of pointers: `none` is NULL.
abbrev pub Entries : Type 0
Entries = List (Option Api)

-- `_pool[0]` and `_pool[1]`; `_api_pool` points to the one at `_switch_factor % 2`. `next_id` numbers
-- the objects that `new` makes. `_switch_factor` is an `int` that only `++` changes: its 32 bits are
-- kept as a number, which is odd when the `int` is.
pub record ApiPool : Type 0 where
  pub server_name : Bytes
  pub ip_addr : Bytes
  pub port : ℤ
  pub need_switch : Bool
  pub conn_num : ℤ
  pub max_conn_num : ℤ
  pub time_out : ℤ
  pub pool_size : ℕ
  pub pool_0 : Entries
  pub pool_1 : Entries
  pub switch_factor : ℕ
  pub switch_state : SwitchState
  pub next_id : ℕ

unfoldable pub new_pool : Bytes → (conn_num max_conn_num time_out : ℤ) → ApiPool
new_pool server conn_num max_conn_num time_out = record {
  server_name = server;
  ip_addr = [];
  port = pos 0;
  need_switch = false;
  conn_num = conn_num;
  max_conn_num = max_conn_num;
  time_out = time_out;
  pool_size = 0;
  pool_0 = [];
  pool_1 = [];
  switch_factor = 0;
  switch_state = prior;
  next_id = 0;
}

-- `_switch_factor > 0` for the bits of a signed number.
abbrev pub is_positive : ℕ → Bool
is_positive n = ltb 0 n && ltb n 2147483648

abbrev is_even : ApiPool → Bool
is_even p = p.switch_factor % 2 == 0

-- `*_api_pool`
unfoldable pub current : ApiPool → Entries
unfolding is_even
current p = if is_even p then p.pool_0 else p.pool_1

-- `_pool[(_switch_factor - 1) % 2]`, for a positive factor.
unfoldable pub old : ApiPool → Entries
unfolding is_even
old p = if is_even p then p.pool_1 else p.pool_0

unfoldable pub with_current : Entries → ApiPool → ApiPool
unfolding is_even
with_current xs p = if is_even p then record p { pool_0 = xs } else record p { pool_1 = xs }

unfoldable pub with_old : Entries → ApiPool → ApiPool
unfolding is_even
with_old xs p = if is_even p then record p { pool_1 = xs } else record p { pool_0 = xs }

abbrev pub set_switch_on : ApiPool → ApiPool
set_switch_on p = record p { need_switch = true }

abbrev pub set_switch_off : ApiPool → ApiPool
set_switch_off p = record p { need_switch = false }

-- The first loop over the old pool: free connections are deleted.
abbrev drop_free : Option Api → Option Api
drop_free none = none
drop_free (some a) = if a.is_used then some a else none

unfoldable pub delete_free : Entries → Entries
unfolding drop_free
delete_free [] = []
delete_free (e ∷ es) = drop_free e ∷ delete_free es

-- The second loop: whether no connection of the old pool is in use.
abbrev unused : Option Api → Bool
unused none = true
unused (some a) = not a.is_used

unfoldable pub switch_complete : Entries → Bool
unfolding unused
switch_complete [] = true
switch_complete (e ∷ es) = unused e && switch_complete es

-- What `_get` does first while a switch is under way.
unfoldable pub clean : ApiPool → ApiPool
clean p =
    let es = delete_free (old p) in
    if is_ongoing p.switch_state
    then if switch_complete es
      then record (with_old [] p) { switch_state = finished }
      else with_old es p
    else p

-- The loop that looks for a free connection.
pub data Pick : Type 0 where
  null_entry : Pick
  no_free : Pick
  picked : Entries → ℕ → Pick

abbrev pub behind : Option Api → Pick → Pick
behind e null_entry = null_entry
behind e no_free = no_free
behind e (picked es id) = picked (e ∷ es) id

unfoldable pub pick : (ℕ → Bool) → Entries → Pick
unfolding behind
pick tcp_ok [] = no_free
pick tcp_ok (none ∷ es) = null_entry
pick tcp_ok (some a ∷ es) =
    if a.is_used
    then behind (some a) (pick tcp_ok es)
    else picked (some (set_used (tcp_ok a.id) a) ∷ es) a.id

-- The state of a call, and the connection that it returns or the exception that it throws.
abbrev pub Outcome : Type 0
Outcome = ApiPool × HaSiteConf × Result ℕ

-- `new CRelayApi(…)` or `new CMiddleApi(…)`, with its number.
abbrev pub new_api : ApiPool → (idc ip : Bytes) → ℤ → ServerType → Api
new_api p idc ip port kind = record {
  id = p.next_id;
  kind = kind;
  index = p.pool_size;
  idc = idc;
  ip = ip;
  port = port;
  time_out = p.time_out;
  is_init = false;
  is_used = false;
}

-- `push_back` and `++_pool_size`.
unfoldable pub push_entry : Option Api → ApiPool → ApiPool
push_entry e p = record (with_current (current p ++ (e ∷ [])) p) {
  pool_size = suc p.pool_size;
  next_id = suc p.next_id;
}

-- `_create_api` and the rest of `_add_api`.
abbrev pub is_server_type : ServerType → Bool
is_server_type middle = true
is_server_type relay = true
is_server_type unset = false

-- The check at the end of `_add_api`.
abbrev pub report : HaSiteConf → ℕ → ApiPool → Outcome
report conf id p = (
  p,
  conf,
  if p.pool_size == length (current p) then ok id else throw (trpc_exception err_sys_unknown),
)

unfoldable pub push_api :
    (ℕ → Bool) → ApiPool → HaSiteConf → (idc ip : Bytes) → ℤ → ServerType → Outcome
unfolding is_server_type new_api report
push_api tcp_ok p conf idc ip port kind =
    if is_server_type kind
    then report conf p.next_id
        (push_entry (some (set_used (tcp_ok p.next_id) (new_api p idc ip port kind))) p)
    else (p, conf, throw (config_exception err_conf))

-- The address of a node, stored in `_ip_addr` and `_port` before the connection is made.
unfoldable pub connect_to :
    (ℕ → Bool) → ApiPool → HaSiteConf → Bytes → Result (Bytes × ℤ × ServerType) → Outcome
connect_to tcp_ok p conf idc (throw e) = (p, conf, throw e)
connect_to tcp_ok p conf idc (ok (ip, port, kind)) =
    push_api tcp_ok (record p { ip_addr = ip; port = port }) conf idc ip port kind

-- `_add_api`
unfoldable pub add_api : (ℕ → Bool) → ApiPool → HaSiteConf → Outcome
add_api tcp_ok p conf =
    let (conf1, idc) =
      if p.need_switch
      then get_next_idc conf p.server_name
      else get_current_idc conf p.server_name in
    let (conf2, node) = HaSite.get conf1 idc p.server_name in connect_to tcp_ok p conf2 idc node

-- The end of `_get`, where no free connection was found.
unfoldable pub grow : (ℕ → Bool) → ApiPool → HaSiteConf → Outcome
grow tcp_ok p conf =
    if ltb_ℤ (pos p.pool_size) p.max_conn_num
    then add_api tcp_ok p conf
    else (p, conf, throw (server_exception err_server_busy))

unfoldable pub search_free : (ℕ → Bool) → ApiPool → HaSiteConf → Outcome
search_free tcp_ok p conf = elim (pick tcp_ok (current p)) [
  | null_entry ↦ (p, conf, throw null_pointer)
  | no_free ↦ grow tcp_ok p conf
  | picked es id ↦ (with_current es p, conf, ok id)
]

-- The switch itself: the other pool becomes the current one.
unfoldable pub begin_switch : ApiPool → ApiPool
begin_switch p =
    let p' = record p { switch_state = ongoing; switch_factor = suc p.switch_factor % 2 ^ 32 } in
    record p' { pool_size = length (current p'); need_switch = false }

-- `_get` behind the clean-up.
unfoldable pub choose : (ℕ → Bool) → ApiPool → HaSiteConf → Outcome
choose tcp_ok p conf =
    if not p.need_switch
    then search_free tcp_ok p conf
    else let (conf', next_idc) = get_next_idc conf p.server_name in
      (if eqb next_idc []
        then search_free tcp_ok (record p { need_switch = false }) conf'
        else if is_ongoing p.switch_state
        then (p, conf', throw (server_exception err_server_busy))
        else grow tcp_ok (begin_switch p) (set_current_idc conf' p.server_name))

-- `_get`
unfoldable pub get : (ℕ → Bool) → ApiPool → HaSiteConf → Outcome
get tcp_ok p conf =
    if is_ongoing p.switch_state && not (is_positive p.switch_factor)
    then (p, conf, throw assertion)
    else choose tcp_ok (clean p) conf

-- `_release` through a pointer to the connection `id`, which stands in one of the pools.
abbrev free_entry : ℤ → Bool → ℕ → Option Api → Option Api
free_entry conn_num force_close id none = none
free_entry conn_num force_close id (some a) =
    if a.id == id then some (set_free (leb_ℤ conn_num (pos a.index) || force_close) a) else some a

unfoldable pub free_entries : ℤ → Bool → ℕ → Entries → Entries
unfolding free_entry
free_entries conn_num force_close id [] = []
free_entries conn_num force_close id (e ∷ es) =
    free_entry conn_num force_close id e ∷ free_entries conn_num force_close id es

unfoldable pub release : ApiPool → ℕ → Bool → ApiPool
release p id force_close = record p {
  pool_0 = free_entries p.conn_num force_close id p.pool_0;
  pool_1 = free_entries p.conn_num force_close id p.pool_1;
}
