-- ===== src/System/Examples.antt =====
-- A configuration of the system, on concrete inputs.
use relay_proxy.Base.{
  ◌<◌, ◌≤◌, ◌≡◌, refl, arith, pos, pos_part, ◌*ℤ◌, wrap_int, Bytes, codes, eqb, true, some, [], ◌∷◌,
  length, get_elem?, ok,
}
use relay_proxy.Text.{
  atoi, signed_value, digits_value, strchug, strchomp, split, split_from, trim_end, is_space,
}
use relay_proxy.Url.{find_char}
use relay_proxy.Routing.{RequestKeyConf}
use relay_proxy.Client.{to_string, unsigned_text, digits, drop_zeros}
use relay_proxy.System.{
  Data, SystemConf, get_value, required, number_or, text_or, switch_action, with_lock, not_zero,
  numbered, get_request_key_i, get_request_keys, request_keys_for, get_request_key, init_values,
  max_request_key_num,
}
use relay_proxy.System.Keys.{init_values-request_key}

abbrev values : Data
values =
    (codes "ListenThreads", codes "4")
    ∷ (codes "LogSize", codes "20")
    ∷ (codes "RelayMgrServerIP", codes "10.0.0.2")
    ∷ (codes "RelayMgrServerPort", codes "81")
    ∷ (codes "RelaySvrNo", codes "3")
    ∷ (codes "RemoteLogIp", codes "10.0.0.3")
    ∷ (codes "RemoteLogPort", codes "82")
    ∷ (codes "RequestKeyAppConf_0", codes "app")
    ∷ (codes "RequestKeyNum", codes "1")
    ∷ (codes "RequestKey_0", codes "request_type^bank")
    ∷ (codes "RequestTypeBegin_0", codes "1")
    ∷ (codes "RequestTypeEnd_0", codes "9")
    ∷ (codes "ServerIP", codes "10.0.0.1")
    ∷ (codes "ServerPort", codes "80")
    ∷ []

abbrev conf : SystemConf
conf = record {
  server_ip = codes "10.0.0.1";
  server_port = pos 80;
  relay_mgr_ip = codes "10.0.0.2";
  relay_mgr_port = pos 81;
  fetch_rule_interval = pos 10;
  relay_svr_no = pos 3;
  remote_ip = codes "10.0.0.3";
  remote_port = pos 82;
  thread_num = pos 4;
  cgi_write_time_out = pos 500;
  connect_time_out = pos 5;
  site_switch_action = pos 0;
  log_path = codes "/var/log";
  log_num = pos 5;
  log_size = pos 20000000;
  log_with_lock = true;
  keepalive_idle = pos 300;
  request_key =
      (
        record {
          begin = pos 1;
          end = pos 9;
          request_key = codes "request_type" ∷ codes "bank" ∷ [];
        },
        codes "app",
      )
      ∷ [];
}

init_values_test : init_values values ≡ ok conf
unfolding init_values required get_value number_or text_or switch_action with_lock not_zero numbered
    get_request_key_i get_request_keys request_keys_for get_request_key to_string unsigned_text
    digits drop_zeros atoi signed_value digits_value strchug is_space split split_from trim_end
    strchomp find_char eqb wrap_int ◌*ℤ◌
init_values_test = refl

number_test : get_value (codes "RequestKeyNum") values ≡ some (codes "1")
unfolding get_value eqb
number_test = refl

atoi_test : 0 < pos_part (atoi (codes "1"))
unfolding atoi signed_value digits_value strchug is_space
atoi_test = omega arith

init_values-request_key_example :
    (length conf.request_key ≡ pos_part (atoi (codes "1")))
    × ((key : RequestKeyConf × Bytes) × (get_elem? conf.request_key 0 ≡ some key)
        × (get_request_key_i values 0 ≡ ok key)
        × (length key.0.request_key ≤ max_request_key_num))
init_values-request_key_example =
    init_values-request_key values conf (codes "1") 0 init_values_test number_test atoi_test
