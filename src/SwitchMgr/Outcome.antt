-- ===== src/SwitchMgr/Outcome.antt =====
-- What a result of `trySwitch` says about the statistics and the connection pools.
use mathlib.Core.Option
use relay_proxy.Base.{
  ◌≡◌, ◌≢◌, refl, ◌∙◌, ap, ℤ, pos, negsuc, eqb_ℤ, eqb_ℤ_iff, Bytes, eqb, Bool, false, not, ◌&&◌,
  if◌then◌else◌, some, Key, find, find-modify, int_key, bytes_key, [], Result, ok, throw,
  Result-cases, Option-cases, Bool-cases, inl, inr, arith,
}
use relay_proxy.HaSite.{get_next_idc, get_current_idc}
use relay_proxy.HaSite.Nodes.{get_next_idc-touch_site}
use relay_proxy.Pool.{set_switch_on}
use relay_proxy.Stats.{
  FloatOps, StatsPool, is_switch_key, pool_is_exist, pool_increment_errors, pool_reset,
  pool_need_switch,
}
use relay_proxy.Stats.Shared.{pool_reset-need_switch}
use relay_proxy.SwitchMgr.{
  RelaySwitchMgr, request_switch, switched, count_service_error, try_service_switch,
  count_site_error, try_site_switch, combine, combined, then_site, try_switch,
}

-- Whether a switch of this server is asked for: it has a next IDC, and switching is on.
abbrev pub asks : RelaySwitchMgr → Bytes → Bool
asks m server = not (eqb (get_next_idc m.hasite_conf server).1 []) && m.is_switch_on

-- The connection pools after a switch of a site, and the statistics that were due.
pub record Done (m : RelaySwitchMgr) (site_no : ℤ) (service : Bytes) (m' : RelaySwitchMgr)
    : Type 0 where
  service_settled : pool_need_switch m'.service_stats_pool service ≡ false
  site_settled : pool_need_switch m'.site_stats_pool site_no ≡ false
  pub asked :
      (server : Bytes) × (find site_no m.server_names ≡ some server)
      × ((j : ℤ)
          → find j m'.api_pools ≡ (
              if eqb_ℤ site_no j && asks m server
              then Option.map set_switch_on (find j m.api_pools)
              else find j m.api_pools))

-- Nothing but the statistics differs.
abbrev SameWorld : RelaySwitchMgr → RelaySwitchMgr → Type 0
SameWorld m m' =
    (m'.server_names ≡ m.server_names)
    × (m'.api_pools ≡ m.api_pools)
    × (m'.hasite_conf ≡ m.hasite_conf)
    × (m'.is_switch_on ≡ m.is_switch_on)

pub record Post (m : RelaySwitchMgr) (site_no : ℤ) (service : Bytes) (o : RelaySwitchMgr × Result ℤ)
    : Type 0 where
  pub done : o.1 ≡ ok (pos 1) → Done m site_no service o.0
  undone : o.1 ≢ ok (pos 1) → SameWorld m o.0
  uncounted : o.1 ≡ ok (negsuc 0) → o.0 ≡ m

reset_self :
    {T : Type 0} ⦃key : Key T⦄ (pool : StatsPool T) (k : T) (now : ℤ)
    → pool_need_switch (pool_reset pool k now) k ≡ false
reset_self pool k now = elim (Option-cases (find k pool)) [
  | inl e ↦ unfold pool_reset pool_need_switch in ground (arith, e)
  | inr (s, e) ↦ pool_reset-need_switch pool k k now s s e e refl
]

request_switch_lem :
    (m : RelaySwitchMgr) (site_no : ℤ) (m' : RelaySwitchMgr)
    → request_switch m site_no ≡ ok m'
    → (server : Bytes) × (find site_no m.server_names ≡ some server)
      × ((j : ℤ)
          → find j m'.api_pools ≡ (
              if eqb_ℤ site_no j && asks m server
              then Option.map set_switch_on (find j m.api_pools)
              else find j m.api_pools))
request_switch_lem m site_no m' h = elim (Option-cases (find site_no m.server_names)) [
  | inl e ↦ unfold request_switch in absurd (ground (arith, e, h))
  | inr (server, e) ↦ (
    server,
    e,
    λ j.
        unfold request_switch get_current_idc in
        ground (
          arith,
          e,
          h,
          get_next_idc-touch_site m.hasite_conf server,
          find-modify site_no j set_switch_on m.api_pools,
        ),
  )
]

-- The manager with other statistics.
abbrev with_stats : RelaySwitchMgr → StatsPool Bytes → StatsPool ℤ → RelaySwitchMgr
with_stats m sp tp = record m { service_stats_pool = sp; site_stats_pool = tp }

request_switch-stats :
    (m : RelaySwitchMgr) (site_no : ℤ) (m' : RelaySwitchMgr)
    → request_switch m site_no ≡ ok m'
    → (m'.service_stats_pool ≡ m.service_stats_pool) × (m'.site_stats_pool ≡ m.site_stats_pool)
request_switch-stats m site_no m' h = elim (Option-cases (find site_no m.server_names)) [
  | inl e ↦ unfold request_switch in absurd (ground (arith, e, h))
  | inr (server, e) ↦ unfold request_switch in ground (arith, e, h)
]

switched-Post :
    (m : RelaySwitchMgr) (sp : StatsPool Bytes) (tp : StatsPool ℤ) (site_no : ℤ) (service : Bytes)
    (now : ℤ)
    → Post m site_no service (
        switched
          (with_stats m sp tp)
          site_no
          service
          now
          (request_switch (with_stats m sp tp) site_no))
switched-Post m sp tp site_no service now =
    elim (Result-cases (request_switch (with_stats m sp tp) site_no)) [
      | inl (m', e) ↦ rw e (record {
        done = λ h. record {
          service_settled = reset_self m'.service_stats_pool service now;
          site_settled = reset_self m'.site_stats_pool site_no now;
          asked = request_switch_lem (with_stats m sp tp) site_no m' e;
        };
        undone = λ h. absurd (h refl);
        uncounted = λ h. absurd (cc h);
      })
      | inr (x, e) ↦ rw e (record {
        done = λ h. absurd (cc h);
        undone = λ h. (refl, refl, refl, refl);
        uncounted = λ h. absurd (cc h);
      })
    ]

waiting-Post :
    (m : RelaySwitchMgr) (sp : StatsPool Bytes) (tp : StatsPool ℤ) (site_no : ℤ) (service : Bytes)
    → Post m site_no service (with_stats m sp tp, ok (pos 0))
waiting-Post m sp tp site_no service = record {
  done = λ h. absurd (ground (arith, h));
  undone = λ h. (refl, refl, refl, refl);
  uncounted = λ h. absurd (cc h);
}

ignored-Post :
    (m : RelaySwitchMgr) (site_no : ℤ) (service : Bytes) → Post m site_no service (m, ok (negsuc 0))
ignored-Post m site_no service = record {
  done = λ h. absurd (cc h);
  undone = λ h. (refl, refl, refl, refl);
  uncounted = λ h. refl;
}

module _ (fl : FloatOps) (m : RelaySwitchMgr) (site_no : ℤ) (service : Bytes) (error now : ℤ) where
  try_service_switch-Post :
      Post m site_no service (try_service_switch fl m site_no service error now)
  unfolding try_service_switch count_service_error
  try_service_switch-Post =
      let counts =
        m.is_service_init
        && (is_switch_key m.service_stats_pool service
            && not (pool_is_exist m.service_stats_pool service error)) in
      let sp = pool_increment_errors fl m.service_stats_pool service now in
      elim (Bool-cases counts) [
        | inr off ↦ rw off (ignored-Post m site_no service)
        | inl on ↦ rw on (elim (Bool-cases (pool_need_switch sp service)) [
          | inl due ↦ rw due (switched-Post m sp m.site_stats_pool site_no service now)
          | inr calm ↦ rw calm (waiting-Post m sp m.site_stats_pool site_no service)
        ])
      ]

  try_site_switch-Post : Post m site_no service (try_site_switch fl m site_no service error now)
  unfolding try_site_switch count_site_error
  try_site_switch-Post =
      let counts =
        m.is_site_init
        && (is_switch_key m.site_stats_pool site_no
            && pool_is_exist m.site_stats_pool site_no error) in
      let tp = pool_increment_errors fl m.site_stats_pool site_no now in
      elim (Bool-cases counts) [
        | inr off ↦ rw off (ignored-Post m site_no service)
        | inl on ↦ rw on (elim (Bool-cases (pool_need_switch tp site_no)) [
          | inl due ↦ rw due (switched-Post m m.service_stats_pool tp site_no service now)
          | inr calm ↦ rw calm (waiting-Post m m.service_stats_pool tp site_no service)
        ])
      ]

ok-injective : {a b : ℤ} → ◌≡◌ {A = Result ℤ} (ok a) (ok b) → a ≡ b
ok-injective h = cc h

Done-same :
    (m m1 : RelaySwitchMgr) (site_no : ℤ) (service : Bytes) (m' : RelaySwitchMgr)
    → SameWorld m m1
    → Done m1 site_no service m'
    → Done m site_no service m'
Done-same m m1 site_no service m' same d =
    let (server, known, moved) = d.asked in
    record {
      service_settled = d.service_settled;
      site_settled = d.site_settled;
      asked = (server, ground (arith, same, known), λ j. ground (arith, same, moved j));
    }

combine_cases :
    (ret ret1 : ℤ)
    → (combine ret ret1 ≡ pos 1 → ret1 ≡ pos 1)
      × (ret1 ≡ pos 1 → combine ret ret1 ≡ pos 1)
      × (combine ret ret1 ≡ negsuc 0 → (ret ≡ negsuc 0) × (ret1 ≡ negsuc 0))
unfolding combine
combine_cases ret ret1 = (
  λ h. ground (arith, eqb_ℤ_iff ret1 (pos 1)),
  λ h. ground (arith, eqb_ℤ_iff ret1 (pos 1)),
  λ h. ground (arith, eqb_ℤ_iff ret1 (negsuc 0), eqb_ℤ_iff ret (negsuc 0)),
)

-- The outcome of the second attempt, read against the state before the first.
combined-Post :
    (m m1 : RelaySwitchMgr) (site_no : ℤ) (service : Bytes) (ret : ℤ)
    (o : RelaySwitchMgr × Result ℤ)
    → SameWorld m m1
    → (ret ≡ negsuc 0 → m1 ≡ m)
    → Post m1 site_no service o
    → Post m site_no service (combined ret o)
combined-Post m m1 site_no service ret (m2, throw e) same idle p = record {
  done = λ h. absurd (cc h);
  undone = λ h. ground (arith, same, p.undone (λ q. absurd (cc q)));
  uncounted = λ h. absurd (cc h);
}
combined-Post m m1 site_no service ret (m2, ok ret1) same idle p =
    let (one, from_one, none_counted) = combine_cases ret ret1 in
    record {
      done = λ h. Done-same m m1 site_no service m2 same (p.done (ap ok (one (ok-injective h))));
      undone = λ h. ground (arith, same, p.undone (λ q. h (ap ok (from_one (ok-injective q)))));
      uncounted =
          λ h. let (r, r1) = none_counted (ok-injective h) in p.uncounted (ap ok r1) ∙ idle r;
    }

then_site-Post :
    (fl : FloatOps) (m : RelaySwitchMgr) (site_no : ℤ) (service : Bytes) (error now : ℤ)
    (o : RelaySwitchMgr × Result ℤ)
    → Post m site_no service o
    → Post m site_no service (then_site fl site_no service error now o)
unfolding then_site
then_site-Post fl m site_no service error now (m1, throw e) p = p
then_site-Post fl m site_no service error now (m1, ok ret) p =
    elim (Bool-cases (eqb_ℤ ret (pos 1))) [
      | inl one ↦ rw one (record {
        done = λ h. p.done (ap ok ((eqb_ℤ_iff ret (pos 1)).0 one));
        undone = λ h. absurd (h refl);
        uncounted = λ h. absurd (cc h);
      })
      | inr other ↦ rw other (
          combined-Post m m1 site_no service ret _
            (p.undone (λ h. absurd (ground (arith, ok-injective h)))) (λ h. p.uncounted (ap ok h))
            (try_site_switch-Post fl m1 site_no service error now))
    ]

-- A call of `trySwitch` that returns 1 leaves neither the service nor the site to be switched, and has
-- told exactly the connection pool of the site to switch, if the server of the site has a next IDC
-- and switching is on. With any other result, an exception included, only the statistics can have
-- changed; with -1 not even these.
pub try_switch-Post :
    (fl : FloatOps) (m : RelaySwitchMgr) (site_no : ℤ) (service : Bytes) (error now : ℤ)
    → Post m site_no service (try_switch fl m site_no service error now)
unfolding try_switch
try_switch-Post fl m site_no service error now =
    then_site-Post fl m site_no service error now _
      (try_service_switch-Post fl m site_no service error now)
