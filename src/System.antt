-- ===== src/System.antt =====
-- `sys/trpc_key_value_conf.cpp` and `src/system_conf.cpp`: the configuration of the system, which is read
-- once. The texts fit their fields.
mod Keys
mod Examples
use relay_proxy.Base.{
  ℕ, zero, suc, ◌+◌, ◌-◌, ◌*◌, ◌++◌, ℤ, pos, pos_part, ◌*ℤ◌, eqb_ℤ, wrap_int, Bytes, codes, eqb,
  bytes_lt, Bool, true, false, ◌&&◌, ◌||◌, if◌then◌else◌, ltb, ◌==◌, Option, none, some, List, [],
  ◌∷◌, length, take, Result, ok, throw, ◌>>=◌, config_exception, trpc_exception, err_conf,
  err_sys_unknown, get_elem?, leb_ℤ, ltb_ℤ,
}
use relay_proxy.Text.{strstrip, strtok, split, atoi}
use relay_proxy.Routing.{RequestKeyConf, request_type_name, split_char}
use relay_proxy.Client.{to_string}
use relay_proxy.Conf.{read_conf}

-- `key_value_info`, in the order of the file.
abbrev pub Data : Type 0
Data = List (Bytes × Bytes)

-- `CKeyValueConf::get_line`.
unfoldable pub get_line : Bytes → Data → Result Data
get_line line values = elim (strtok 58 line) [
  | none ↦ throw (config_exception err_conf)
  | some (key, rest) ↦ elim (strtok 58 rest) [
    | none ↦ throw (config_exception err_conf)
    | some (value, more) ↦ ok (values ++ (strstrip key, strstrip value) ∷ [])
  ]
]

-- `qsort` by the keys.
unfoldable pub insert_pair : Bytes × Bytes → Data → Data
insert_pair p [] = p ∷ []
insert_pair p (q ∷ values) = if bytes_lt q.0 p.0 then q ∷ insert_pair p values else p ∷ q ∷ values

unfoldable pub sort_pairs : Data → Data
sort_pairs [] = []
sort_pairs (p ∷ values) = insert_pair p (sort_pairs values)

unfoldable pub read_values : List Bytes → Data
read_values lines = sort_pairs (read_conf get_line lines [])

-- `get_value`. `bsearch` may find any of the entries of a key; this is the first.
unfoldable pub get_value : Bytes → Data → Option Bytes
get_value key [] = none
get_value key ((k, v) ∷ values) = if eqb k key then some v else get_value key values

unfoldable pub required : Bytes → Data → Result Bytes
required key values = elim (get_value key values) [
  | none ↦ throw (config_exception err_conf)
  | some v ↦ ok v
]

unfoldable pub number_or : ℤ → Option Bytes → ℤ
number_or n none = n
number_or n (some v) = atoi v

unfoldable pub text_or : Bytes → Option Bytes → Bytes
text_or s none = s
text_or s (some v) = v

-- `strncasecmp(p, "on", 2) == 0`.
abbrev pub is_on : Bytes → Bool
is_on (a ∷ b ∷ s) = ((a == 111) || (a == 79)) && ((b == 110) || (b == 78))
is_on s = false

unfoldable pub switch_action : Option Bytes → ℤ
switch_action none = pos 0
switch_action (some v) = if is_on v then pos 1 else pos 0

unfoldable pub with_lock : Option Bytes → Bool
with_lock none = true
with_lock (some v) = eqb (take 2 v) (codes "on")

unfoldable pub not_zero : ℤ → ℤ
not_zero n = if eqb_ℤ n (pos 0) then pos 300 else n

abbrev pub max_request_key_num : ℕ
max_request_key_num = 5

-- The number at the end of a name.
unfoldable pub numbered : Bytes → ℕ → Bytes
numbered name i = name ++ codes "_" ++ to_string (pos i)

-- `_get_request_key_i`, with the file of the range.
unfoldable pub get_request_key_i : Data → ℕ → Result (RequestKeyConf × Bytes)
get_request_key_i values i = required (numbered (codes "RequestTypeBegin") i) values >>= λ begin.
    required (numbered (codes "RequestTypeEnd") i) values >>= λ end.
    required (numbered (codes "RequestKeyAppConf") i) values >>= λ conf_file.
    required (numbered (codes "RequestKey") i) values >>= λ key.
    let keys = split split_char (max_request_key_num * 2) key in
    if ltb max_request_key_num (length keys)
    then throw (config_exception err_conf)
    else ok (record { begin = atoi begin; end = atoi end; request_key = keys }, conf_file)

-- The loop over the ranges, `n` of them from the number `i` on.
unfoldable pub get_request_keys : Data → (i n : ℕ) → Result (List (RequestKeyConf × Bytes))
get_request_keys values i zero = ok []
get_request_keys values i (suc n) = get_request_key_i values i >>= λ key.
    get_request_keys values (suc i) n >>= λ keys. ok (key ∷ keys)

abbrev pub max_request_type : ℕ
max_request_type = 999999999

-- `_set_request_key_default` without a number of ranges: one, on the request type alone.
unfoldable pub request_keys_for : Option Bytes → Data → Result (List (RequestKeyConf × Bytes))
request_keys_for none values = ok (
    (
      record { begin = pos 0; end = pos max_request_type; request_key = request_type_name ∷ [] },
      codes "./conf/RequestAppServer.conf",
    )
    ∷ [])
request_keys_for (some n) values = get_request_keys values 0 (pos_part (atoi n))

-- `_get_request_key`.
unfoldable pub get_request_key : Data → Result (List (RequestKeyConf × Bytes))
get_request_key values = request_keys_for (get_value (codes "RequestKeyNum") values) values

-- `CSystemConf`.
pub record SystemConf : Type 0 where
  pub server_ip : Bytes
  pub server_port : ℤ
  pub relay_mgr_ip : Bytes
  pub relay_mgr_port : ℤ
  pub fetch_rule_interval : ℤ
  pub relay_svr_no : ℤ
  pub remote_ip : Bytes
  pub remote_port : ℤ
  pub thread_num : ℤ
  pub cgi_write_time_out : ℤ
  pub connect_time_out : ℤ
  pub site_switch_action : ℤ
  pub log_path : Bytes
  pub log_num : ℤ
  pub log_size : ℤ
  pub log_with_lock : Bool
  pub keepalive_idle : ℤ
  pub request_key : List (RequestKeyConf × Bytes)

-- `_init`, from the values of the file.
unfoldable pub init_values : Data → Result SystemConf
init_values values = required (codes "ServerIP") values >>= λ server_ip.
    required (codes "ServerPort") values >>= λ server_port.
    required (codes "RelayMgrServerIP") values >>= λ relay_mgr_ip.
    required (codes "RelayMgrServerPort") values >>= λ relay_mgr_port.
    required (codes "RelaySvrNo") values >>= λ relay_svr_no.
    required (codes "RemoteLogIp") values >>= λ remote_ip.
    required (codes "RemoteLogPort") values >>= λ remote_port.
    required (codes "ListenThreads") values >>= λ thread_num.
    get_request_key values >>= λ request_key. ok (record {
      server_ip = server_ip;
      server_port = atoi server_port;
      relay_mgr_ip = relay_mgr_ip;
      relay_mgr_port = atoi relay_mgr_port;
      fetch_rule_interval = number_or (pos 10) (get_value (codes "FetchRuleInterval") values);
      relay_svr_no = atoi relay_svr_no;
      remote_ip = remote_ip;
      remote_port = atoi remote_port;
      thread_num = atoi thread_num;
      cgi_write_time_out = number_or (pos 500) (get_value (codes "CgiWriteTimeOut") values);
      connect_time_out = number_or (pos 5) (get_value (codes "ConnectTimeOut") values);
      site_switch_action = switch_action (get_value (codes "SwitchAction") values);
      log_path = text_or (codes "/var/log") (get_value (codes "LogPath") values);
      log_num = number_or (pos 5) (get_value (codes "LogNum") values);
      log_size = wrap_int (number_or (pos 100) (get_value (codes "LogSize") values) *ℤ pos 1000000);
      log_with_lock = with_lock (get_value (codes "LogWithLock") values);
      keepalive_idle = not_zero (number_or (pos 300) (get_value (codes "KEEPALIVE_IDLE") values));
      request_key = request_key;
    })

unfoldable pub init : List Bytes → Result SystemConf
init lines = init_values (read_values lines)

unfoldable pub is_switch_on : SystemConf → Bool
is_switch_on conf = eqb_ℤ conf.site_switch_action (pos 1)
