-- ===== src/Pool/Factor.antt =====
-- `_switch_factor` under `get` (`api/api_pool.cpp`).
use relay_proxy.Base.{
  ℕ, suc, ◌%◌, ◌^◌, ◌≤◌, ◌≡◌, refl, ℤ, pos, ltb_ℤ, Bytes, Bool, false, not, ◌&&◌, eqb, inl, inr,
  some, [], Result, ok, throw, Bool-cases, arith,
}
use relay_proxy.HaSite.{HaSiteConf, ServerType, get_next_idc}
use relay_proxy.Pool.{
  ApiPool, Outcome, pick, current, clean, is_ongoing, is_positive, push_api, new_api, connect_to,
  add_api, grow, search_free, begin_switch, choose, get,
}
use relay_proxy.Pool.Invariant.{clean_fields, push_entry_lem}
use relay_proxy.Pool.Service.{Pick-cases, begin_switch_fields, with_current_fields}
use relay_proxy.Api.{set_used}

abbrev factor : Outcome → ℕ
factor o = o.0.switch_factor

module _ (tcp_ok : ℕ → Bool) (conf : HaSiteConf) where
  factor-push_api :
      (p : ApiPool) (idc ip : Bytes) (port : ℤ) (kind : ServerType)
      → factor (push_api tcp_ok p conf idc ip port kind) ≡ p.switch_factor
  unfolding push_api
  factor-push_api p idc ip port kind =
      ground
        (arith, push_entry_lem (some (set_used (tcp_ok p.next_id) (new_api p idc ip port kind))) p)

  factor-connect_to :
      (p : ApiPool) (idc : Bytes) (node : Result (Bytes × ℤ × ServerType))
      → factor (connect_to tcp_ok p conf idc node) ≡ p.switch_factor
  unfolding connect_to
  factor-connect_to p idc (throw e) = refl
  factor-connect_to p idc (ok (ip, port, kind)) =
      factor-push_api (record p { ip_addr = ip; port = port }) idc ip port kind

factor-grow :
    (tcp_ok : ℕ → Bool) (p : ApiPool) (conf : HaSiteConf)
    → factor (grow tcp_ok p conf) ≡ p.switch_factor
unfolding grow add_api
factor-grow tcp_ok p conf = elim (Bool-cases (ltb_ℤ (pos p.pool_size) p.max_conn_num)) [
  | inl room ↦ rw room (factor-connect_to tcp_ok _ p _ _)
  | inr full ↦ rw full refl
]

factor-search_free :
    (tcp_ok : ℕ → Bool) (p : ApiPool) (conf : HaSiteConf)
    → (search_free tcp_ok p conf).0.switch_factor ≡ p.switch_factor
unfolding search_free
factor-search_free tcp_ok p conf = elim (Pick-cases (pick tcp_ok (current p))) [
  | inl e ↦ rw (e, search_free) refl
  | inr (inl e) ↦ rw (e, search_free) (factor-grow tcp_ok p conf)
  | inr (inr (es, id, e)) ↦ rw (e, search_free) (with_current_fields es p).2
]

residue_le : (n : ℕ) → n % 2 ^ 32 ≤ n
residue_le n = omega arith

le_suc : (m n : ℕ) → m ≡ n → m ≤ suc n
le_suc m n e = omega (arith, e)

begun :
    (tcp_ok : ℕ → Bool) (p : ApiPool) (conf : HaSiteConf)
    → (grow tcp_ok (begin_switch p) conf).0.switch_factor ≤ suc p.switch_factor
begun tcp_ok p conf = omega (
  arith,
  factor-grow tcp_ok (begin_switch p) conf,
  (begin_switch_fields p).2,
  residue_le (suc p.switch_factor),
)

factor-choose :
    (tcp_ok : ℕ → Bool) (p : ApiPool) (conf : HaSiteConf)
    → (choose tcp_ok p conf).0.switch_factor ≤ suc p.switch_factor
unfolding choose
factor-choose tcp_ok p conf = elim (Bool-cases p.need_switch) [
  | inr off ↦ simp off (le_suc _ p.switch_factor (factor-search_free tcp_ok p conf))
  | inl on ↦ elim (Bool-cases (eqb (get_next_idc conf p.server_name).1 [])) [
    | inl none_left ↦
        simp (on, none_left)
          (le_suc _ p.switch_factor (
            factor-search_free tcp_ok (record p { need_switch = false })
              (get_next_idc conf p.server_name).0))
    | inr more ↦ elim (Bool-cases (is_ongoing p.switch_state)) [
      | inl busy ↦ simp (on, more, busy) (le_suc p.switch_factor p.switch_factor refl)
      | inr calm ↦ simp (on, more, calm) (begun tcp_ok p _)
    ]
  ]
]

pub get-factor :
    (tcp_ok : ℕ → Bool) (p : ApiPool) (conf : HaSiteConf)
    → (get tcp_ok p conf).0.switch_factor ≤ suc p.switch_factor
unfolding get
get-factor tcp_ok p conf =
    elim (Bool-cases (is_ongoing p.switch_state && not (is_positive p.switch_factor))) [
      | inl bad ↦ rw bad (omega arith)
      | inr good ↦ rw good (omega (arith, factor-choose tcp_ok (clean p) conf, clean_fields p))
    ]
