-- ===== src/Conf/Servers.antt =====
-- The pools after the configuration was read again (`CCoreServerConf::re_init`).
use relay_proxy.Base.{
  ◌≡◌, inl, inr, refl, sym, ap, ◌∙◌, ℤ, Bytes, Option, none, some, List, [], ◌∷◌, Map, find,
  emplace, find-emplace, int_key, eqb_ℤ, Bool-cases, Option-cases, Result, ok, throw, >>=-eq-ok,
}
use relay_proxy.Pool.{ApiPool, new_pool}
use relay_proxy.Text.{strstrip}
use relay_proxy.Socket.Receive.{of_ok}
use relay_proxy.Socket.Framing.{if_true, if_false}
use relay_proxy.Conf.{
  next_field, is_config_line, CoreServerConf, CoreServers, pool_of, read_conf, get_server_line,
  add_pools, re_init,
}

-- The pool of a site: the one that was there, or a new one if the site is configured.
abbrev pub kept_or_new : Option ApiPool → Option CoreServerConf → Option ApiPool
kept_or_new (some pool) conf = some pool
kept_or_new none (some conf) =
    some (new_pool conf.server_name conf.conn_num conf.max_conn_num conf.time_out)
kept_or_new none none = none

pub find-add_pools :
    (site_no : ℤ) (m : Map ℤ CoreServerConf) (pools : Map ℤ ApiPool)
    → find site_no (add_pools m pools) ≡ kept_or_new (find site_no pools) (find site_no m)
unfolding add_pools find
find-add_pools site_no [] pools = elim (Option-cases (find site_no pools)) [
  | inl e ↦ rw e refl
  | inr (p, e) ↦ rw e refl
]
find-add_pools site_no ((s, conf) ∷ m) pools =
    let put = find-emplace s site_no (pool_of conf) pools in
    find-add_pools site_no m (emplace s (pool_of conf) pools)
    ∙ elim (Option-cases (find site_no pools)) [
      | inr (p, e) ↦
          let there : find site_no (emplace s (pool_of conf) pools) ≡ some p = put ∙ rw e refl in
          ap (λ o. kept_or_new o (find site_no m)) there ∙ rw e refl
      | inl e ↦ elim (Bool-cases (eqb_ℤ s site_no)) [
        | inl same ↦
            let there : find site_no (emplace s (pool_of conf) pools) ≡ some (pool_of conf) =
              put ∙ rw (e, same) refl in
            ap (λ o. kept_or_new o (find site_no m)) there ∙ rw (e, same) refl
        | inr other ↦
            let gone : find site_no (emplace s (pool_of conf) pools) ≡ none =
              put ∙ rw (e, other) refl in
            ap (λ o. kept_or_new o (find site_no m)) gone ∙ rw (e, other) refl
      ]
    ]

get_server_line-api_pool :
    (line : Bytes) (c d : CoreServers) → get_server_line line c ≡ ok d → d.api_pool ≡ c.api_pool
unfolding get_server_line
get_server_line-api_pool line c d h =
    let ((a, s), e, h) = >>=-eq-ok (next_field line) _ h in
    let ((b, s), e, h) = >>=-eq-ok (next_field s) _ h in
    let ((b, s), e, h) = >>=-eq-ok (next_field s) _ h in
    let ((b, s), e, h) = >>=-eq-ok (next_field s) _ h in
    let ((b, s), e, h) = >>=-eq-ok (next_field s) _ h in
    let ((b, s), e, h) = >>=-eq-ok (next_field s) _ h in
    let ((b, s), e, h) = >>=-eq-ok (next_field s) _ h in
    let ((b, s), e, h) = >>=-eq-ok (next_field s) _ h in sym (ap (λ x. x.api_pool) (of_ok _ d h))

read_line-api_pool :
    (line : Bytes) (c : CoreServers) (r : Result CoreServers)
    → get_server_line line c ≡ r
    → (elim r as (λ _. CoreServers) [ ok d ↦ d | throw e ↦ c ]).api_pool ≡ c.api_pool
read_line-api_pool line c (ok d) h = get_server_line-api_pool line c d h
read_line-api_pool line c (throw e) h = refl

read_conf-api_pool :
    (lines : List Bytes) (c : CoreServers)
    → (read_conf get_server_line lines c).api_pool ≡ c.api_pool
unfolding read_conf
read_conf-api_pool [] c = refl
read_conf-api_pool (line ∷ lines) c = elim (Bool-cases (is_config_line (strstrip line))) [
  | inl on ↦
      ap (λ d. (read_conf get_server_line lines d).api_pool)
        (if_true (is_config_line (strstrip line)) _ _ on)
      ∙ read_conf-api_pool lines _
      ∙ read_line-api_pool (strstrip line) c (get_server_line (strstrip line) c) refl
  | inr off ↦
      ap (λ d. (read_conf get_server_line lines d).api_pool)
        (if_false (is_config_line (strstrip line)) _ _ off)
      ∙ read_conf-api_pool lines c
]

-- After the file was read again, a site that had a pool keeps that very pool, whatever the file now
-- says of it; a site without one has a new pool exactly if the file configures it, made with the
-- numbers of the configuration that was read. This holds whatever the lines of the file are.
pub re_init-pools :
    (site_no : ℤ) (lines : List Bytes) (c : CoreServers)
    → find site_no (re_init lines c).api_pool
      ≡ kept_or_new (find site_no c.api_pool) (find site_no (re_init lines c).core_server_conf)
unfolding re_init
re_init-pools site_no lines c =
    let d = read_conf get_server_line lines (record c { core_server_conf = [] }) in
    find-add_pools site_no d.core_server_conf d.api_pool
    ∙ ap (λ pools. kept_or_new (find site_no pools) (find site_no d.core_server_conf))
        (read_conf-api_pool lines (record c { core_server_conf = [] }))
