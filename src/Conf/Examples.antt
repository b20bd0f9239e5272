-- ===== src/Conf/Examples.antt =====
-- Lines of the configuration, on concrete inputs.
use relay_proxy.Base.{
  ◌≡◌, refl, pos, codes, true, none, [], ◌∷◌, map, find, int_key, bytes_key, throw,
  config_exception, err_conf,
}
use relay_proxy.Text.{strchug, strchomp, split, split_from, trim_end, is_space}
use relay_proxy.Url.{find_char}
use relay_proxy.Conf.{
  CoreServers, add_keys, add_types, get_request_line, re_init, trim_string, skip_back, skip_front,
  is_filtered,
}
use relay_proxy.Conf.RequestTypes.{find-add_keys, last_service, looked_up}
use relay_proxy.Conf.Servers.{kept_or_new}
use relay_proxy.Conf.Entries.{Entry, IsEntry, line, last_entry, re_init-entries}

find-add_keys_example :
    find (codes "7^a") (
      add_keys
        (pos 3)
        true
        (codes "7")
        (codes "a" ∷ codes "b" ∷ [])
        (codes "pay" ∷ codes "ask" ∷ [])
        [])
    ≡ looked_up
        (pos 3)
        true
        (last_service
          (codes "7")
          (codes "7^a")
          (codes "a" ∷ codes "b" ∷ [])
          (codes "pay" ∷ codes "ask" ∷ []))
        none
unfolding find
find-add_keys_example =
    find-add_keys (pos 3) true (codes "7") (codes "7^a") (codes "a" ∷ codes "b" ∷ [])
      (codes "pay" ∷ codes "ask" ∷ []) []

get_request_line_test :
    get_request_line (codes "7|a,b:1:3:2:pay") [] ≡ throw (config_exception err_conf)
unfolding get_request_line add_types split split_from find_char strchug trim_end is_space strchomp
get_request_line_test = refl

trim_string_test : trim_string (codes "  5:no money ") ≡ codes "5:no money"
unfolding trim_string skip_back skip_front is_filtered
trim_string_test = refl

abbrev no_servers : CoreServers
no_servers = record { core_server_conf = []; api_pool = [] }

abbrev pay : Entry
pay = record {
  site_no = codes "1";
  conn_num = codes "2";
  max_conn_num = codes "4";
  server_name = codes "pay";
  port = codes "80";
  time_out = codes "10";
  user = codes "relay";
  passwd = codes "secret";
}

pay-IsEntry : IsEntry pay
unfolding trim_end find_char strchug strchomp is_space
pay-IsEntry = (
  (
    ((refl, tt), refl, refl),
    (
      ((refl, tt), refl, refl),
      (
        ((refl, tt), refl, refl),
        (
          ((refl, (refl, (refl, tt))), refl, refl),
          (
            ((refl, (refl, tt)), refl, refl),
            (
              ((refl, (refl, tt)), refl, refl),
              (
                ((refl, (refl, (refl, (refl, (refl, tt))))), refl, refl),
                (((refl, (refl, (refl, (refl, (refl, (refl, tt)))))), refl, refl), tt),
              ),
            ),
          ),
        ),
      ),
    ),
  ),
  refl,
)

re_init-entries_example :
    (find (pos 1) (re_init (map line (pay ∷ [])) no_servers).core_server_conf
      ≡ last_entry (pos 1) (pay ∷ []) none)
    × (find (pos 1) (re_init (map line (pay ∷ [])) no_servers).api_pool
        ≡ kept_or_new (find (pos 1) no_servers.api_pool) (last_entry (pos 1) (pay ∷ []) none))
re_init-entries_example = re_init-entries (pos 1) (pay ∷ []) no_servers (pay-IsEntry, tt)
