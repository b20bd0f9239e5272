-- ===== src/Conf.antt =====
-- The readers of the configuration: the loop of `sys/trpc_config.cpp`, a line of
-- `src/request_type_conf.cpp`, `src/core_server_conf.cpp` with its pools, a line of
-- `src/switch_stats_conf.h`, and the lines of `src/errcode_escape_conf.cpp` and
-- `src/detail_info_service_conf.cpp`. A file is the list of its lines.
mod RequestTypes
pub mod Servers
pub mod Entries
mod Examples
use relay_proxy.Base.{
  ℕ, suc, ◌+◌, ◌-◌, ◌++◌, ℤ, pos, eqb_ℤ, leb_ℤ, Bytes, codes, eqb, Bool, true, false, not, ◌&&◌,
  ◌||◌, if◌then◌else◌, leb, ltb, ◌==◌, Option, none, some, List, [], ◌∷◌, map, length, take, drop,
  Map, find, insert, emplace, count, int_key, bytes_key, Result, ok, throw, ◌>>=◌, Exception,
  config_exception, null_pointer, err_conf, trpc_info_pool_invalid,
}
use relay_proxy.Text.{strstrip, split, strtok, atoi}
use relay_proxy.Url.{find_char}
use relay_proxy.Access.{is_skipped, insert_sorted}
use relay_proxy.Stats.{StatsConf}
use relay_proxy.HaSite.{HaSiteConf}
use relay_proxy.Pool as Pool
use relay_proxy.Pool.{ApiPool, new_pool, set_switch_on}
use relay_proxy.Client.{RequestConf, Escapes}

abbrev pub is_config_line : Bytes → Bool
is_config_line [] = false
is_config_line (c ∷ s) = not (c == 35)

-- The loop of `CConfig::read_conf` over `get_line_entrance`: what a line throws is told, and the line
-- passed over.
unfoldable pub read_conf {ℓ} : {C : Type ℓ} → (get_line : Bytes → C → Result C) → List Bytes → C → C
read_conf get_line [] c = c
read_conf get_line (line ∷ lines) c = read_conf get_line lines (
    if is_config_line (strstrip line)
    then elim (get_line (strstrip line) c) [ ok d ↦ d | throw e ↦ c ]
    else c)

-- The texts fit their fields.
abbrev pub RequestTypes : Type 0
RequestTypes = Map Bytes RequestConf

unfoldable pub add_keys :
    (site_no : ℤ) (is_binary : Bool) (master : Bytes)
    → (keys services : List Bytes) → RequestTypes
    → RequestTypes
add_keys site_no is_binary master (key ∷ keys) (service ∷ services) m =
    add_keys site_no is_binary master keys services (
      insert (master ++ codes "^" ++ key)
        (record { site_no = site_no; service_name = service; is_binary = is_binary }) m)
add_keys site_no is_binary master [] services m = m
add_keys site_no is_binary master (key ∷ keys) [] m = m

-- The keys of a line: one, or a master key with its sub keys and as many services.
unfoldable pub add_types :
    (site_no : ℤ) (is_binary : Bool) → (key services : Bytes) → RequestTypes → Result RequestTypes
add_types site_no is_binary key services m = elim (find_char 124 key) [
  | none ↦
      ok (
        insert key (record { site_no = site_no; service_name = services; is_binary = is_binary }) m)
  | some at ↦
      let keys = split 44 256 (drop (suc at) key) in
      let names = split 44 256 services in
      if not (length keys == length names)
      then throw (config_exception err_conf)
      else ok (add_keys site_no is_binary (take at key) keys names m)
]

-- `CRequestTypeConf::_get_line`. The property is only printed; a protocol of 2 is the binary one.
unfoldable pub get_request_line : Bytes → RequestTypes → Result RequestTypes
get_request_line line m = elim (split 58 8 line) [
  | key ∷ property ∷ site_no ∷ protocol ∷ services ∷ rest ↦
      add_types (atoi site_no) (eqb_ℤ (atoi protocol) (pos 2)) key services m
  | other ↦ throw (config_exception err_conf)
]

-- `ST_CoreServerConf`.
pub record CoreServerConf : Type 0 where
  pub site_no : ℤ
  pub conn_num : ℤ
  pub max_conn_num : ℤ
  pub server_name : Bytes
  pub port : ℤ
  pub time_out : ℤ
  pub user : Bytes
  pub passwd : Bytes

-- `CCoreServerConf`: what the file says of each site, and the pools.
pub record CoreServers : Type 0 where
  pub core_server_conf : Map ℤ CoreServerConf
  pub api_pool : Map ℤ ApiPool

-- The next field of a line, and the text behind it.
unfoldable pub next_field : Bytes → Result (Bytes × Bytes)
next_field s = elim (strtok 44 s) [
  | none ↦ throw (config_exception err_conf)
  | some (token, rest) ↦ ok (strstrip token, rest)
]

-- `CCoreServerConf::_get_line`.
unfoldable pub get_server_line : Bytes → CoreServers → Result CoreServers
get_server_line line c = next_field line >>= λ (site_no, s). next_field s >>= λ (conn_num, s).
    next_field s >>= λ (max_conn_num, s). next_field s >>= λ (server_name, s).
    next_field s >>= λ (port, s). next_field s >>= λ (time_out, s). next_field s >>= λ (user, s).
    next_field s >>= λ (passwd, s). ok (record c {
      core_server_conf =
          insert (atoi site_no)
            (record {
              site_no = atoi site_no;
              conn_num = atoi conn_num;
              max_conn_num = atoi max_conn_num;
              server_name = server_name;
              port = atoi port;
              time_out = atoi time_out;
              user = user;
              passwd = passwd;
            })
            c.core_server_conf;
    })

-- `get`, and `server_name`.
unfoldable pub get_server : CoreServers → ℤ → Result CoreServerConf
get_server c site_no = elim (find site_no c.core_server_conf) [
  | none ↦ throw (config_exception trpc_info_pool_invalid)
  | some conf ↦ ok conf
]

abbrev pub pool_of : CoreServerConf → ApiPool
pool_of conf = new_pool conf.server_name conf.conn_num conf.max_conn_num conf.time_out

-- `init_api_pool`: a pool for each site, in place of one that is there.
unfoldable pub make_pools : Map ℤ CoreServerConf → Map ℤ ApiPool → Map ℤ ApiPool
make_pools [] pools = pools
make_pools ((site_no, conf) ∷ m) pools = make_pools m (insert conf.site_no (pool_of conf) pools)

unfoldable pub init_api_pool : CoreServers → CoreServers
init_api_pool c = record c { api_pool = make_pools c.core_server_conf c.api_pool }

-- `re_init`: a pool that is there stays, with the numbers it was made with.
unfoldable pub add_pools : Map ℤ CoreServerConf → Map ℤ ApiPool → Map ℤ ApiPool
add_pools [] pools = pools
add_pools ((site_no, conf) ∷ m) pools = add_pools m (emplace site_no (pool_of conf) pools)

unfoldable pub re_init : List Bytes → CoreServers → CoreServers
re_init lines c =
    let d = read_conf get_server_line lines (record c { core_server_conf = [] }) in
    record d { api_pool = add_pools d.core_server_conf d.api_pool }

-- `get_api`, which gives the number of the connection.
unfoldable pub get_api :
    (ℕ → Bool) → ℤ → CoreServers → HaSiteConf → CoreServers × HaSiteConf × Result ℕ
get_api tcp_ok site_no c hasite = elim (find site_no c.api_pool) [
  | none ↦ (c, hasite, throw (config_exception err_conf))
  | some pool ↦
      let (pool', hasite', result) = Pool.get tcp_ok pool hasite in
      (record c { api_pool = insert site_no pool' c.api_pool }, hasite', result)
]

-- `free_api` of a connection that is there.
unfoldable pub free_api : ℤ → ℕ → Bool → CoreServers → Result CoreServers
free_api site_no id force c = elim (find site_no c.api_pool) [
  | none ↦ throw (config_exception err_conf)
  | some pool ↦ ok (record c { api_pool = insert site_no (Pool.release pool id force) c.api_pool })
]

unfoldable pub is_listed : Bytes → List Bytes → Bool
is_listed s [] = false
is_listed s (t ∷ ts) = eqb t s || is_listed s ts

-- `set_switch_on`: of the pools of one server only the first is told.
unfoldable pub switch_pools : List Bytes → Map ℤ ApiPool → Map ℤ ApiPool
switch_pools told [] = []
switch_pools told ((site_no, pool) ∷ pools) =
    if is_listed pool.server_name told
    then (site_no, pool) ∷ switch_pools told pools
    else (site_no, set_switch_on pool) ∷ switch_pools (pool.server_name ∷ told) pools

unfoldable pub switch_on : CoreServers → CoreServers
switch_on c = record c { api_pool = switch_pools [] c.api_pool }

-- `std::sort` of numbers.
unfoldable pub insert_int : ℤ → List ℤ → List ℤ
insert_int n [] = n ∷ []
insert_int n (m ∷ ms) = if leb_ℤ n m then n ∷ m ∷ ms else m ∷ insert_int n ms

unfoldable pub sort_ints : List ℤ → List ℤ
sort_ints [] = []
sort_ints (n ∷ ns) = insert_int n (sort_ints ns)

-- A line of `SwitchStatsConf::read_conf`; fewer than five parts fail an assertion.
unfoldable pub stats_line : Bytes → Result (Bytes × StatsConf)
stats_line line = elim (split 124 8 line) [
  | key ∷ id ∷ interval ∷ ratio ∷ threshold ∷ rest ↦ ok (
    key,
    record {
      key_id = id;
      time_interval = atoi interval;
      minimal_success_ratio = atoi ratio;
      minimal_request_threshold = atoi threshold;
      errcode_list = elim rest [
        | [] ↦ []
        | errors ∷ more ↦ sort_ints (map atoi (split 44 1000 errors))
      ];
    },
  )
  | other ↦ throw Exception.assertion
]

-- `read_conf` of the statistics of services, whose key is the text, and of sites, whose key is a number
-- (`type_cast`).
unfoldable pub read_service_stats : List Bytes → Map Bytes StatsConf → Result (Map Bytes StatsConf)
read_service_stats [] m = ok m
read_service_stats (line ∷ lines) m =
    if is_skipped (strstrip line)
    then read_service_stats lines m
    else (stats_line (strstrip line) >>= λ (key, conf).
        read_service_stats lines (insert key conf m))

unfoldable pub read_site_stats : List Bytes → Map ℤ StatsConf → Result (Map ℤ StatsConf)
read_site_stats [] m = ok m
read_site_stats (line ∷ lines) m =
    if is_skipped (strstrip line)
    then read_site_stats lines m
    else (stats_line (strstrip line) >>= λ (key, conf).
        read_site_stats lines (insert (atoi key) conf m))

-- `DetailInfoServiceConf::read_conf`, which begins anew, and `is_detail_info_service`.
unfoldable pub read_details : List Bytes → List ℤ
read_details [] = []
read_details (line ∷ lines) =
    let rest = read_details lines in
    if is_skipped (strstrip line) then rest else atoi (strstrip line) ∷ rest

unfoldable pub is_detail_info_service : List ℤ → ℤ → Bool
is_detail_info_service [] request_type = false
is_detail_info_service (t ∷ ts) request_type =
    eqb_ℤ t request_type || is_detail_info_service ts request_type

-- `trimString` of line ends and spaces.
unfoldable pub is_filtered : ℕ → Bool
is_filtered c = (c == 10) || (c == 13) || (c == 32)

unfoldable pub skip_front : Bytes → Bytes
skip_front [] = []
skip_front (c ∷ s) = let rest = skip_front s in if is_filtered c then rest else c ∷ s

unfoldable pub skip_back : Bytes → Bytes
skip_back [] = []
skip_back (c ∷ s) = elim (skip_back s) [
  | [] ↦ if is_filtered c then [] else c ∷ []
  | d ∷ t ↦ c ∷ d ∷ t
]

unfoldable pub trim_string : Bytes → Bytes
trim_string s = skip_back (skip_front s)

-- A line of `ErrorCodeEscapeConf::read_conf`: `split` with one cut. A line without a second part reads
-- behind the end of the vector.
unfoldable pub escape_line : Bytes → Escapes → Result Escapes
escape_line line m = elim (split 58 1 line) [
  | code ∷ text ∷ rest ↦ ok (insert (atoi code) text m)
  | other ↦ throw Exception.out_of_range
]

unfoldable pub read_escapes : List Bytes → Escapes → Result Escapes
read_escapes [] m = ok m
read_escapes (line ∷ lines) m =
    if is_skipped (trim_string line)
    then read_escapes lines m
    else (escape_line (trim_string line) m >>= read_escapes lines)
