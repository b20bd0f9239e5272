-- ===== src/Stats/Shared.antt =====
-- `SwitchStatsPool`: keys that share an id.
use relay_proxy.Base.{
  ◌≡◌, ℤ, eqb, eqb_refl, false, if◌then◌else◌, some, Key, find, find-map_values, arith,
}
use relay_proxy.Stats.{
  SwitchKeyStats, StatsPool, reset_stats, reset_same_id, pool_reset, pool_need_switch,
}

module _ {T : Type 0} ⦃key : Key T⦄ where
  -- A reset of a key resets exactly the keys that share its id.
  pub find-pool_reset :
      (pool : StatsPool T) (k j : T) (now : ℤ) (s t : SwitchKeyStats T)
      → find k pool ≡ some s
      → find j pool ≡ some t
      → find j (pool_reset pool k now)
        ≡ some (if eqb s.key_id t.key_id then reset_stats now t else t)
  unfolding pool_reset reset_same_id
  find-pool_reset pool k j now s t fk fj =
      ground (arith, fk, fj, find-map_values j (reset_same_id s.key_id now) pool)

  -- After a reset of a key, no key that shares its id is to be switched.
  pub pool_reset-need_switch :
      (pool : StatsPool T) (k j : T) (now : ℤ) (s t : SwitchKeyStats T)
      → find k pool ≡ some s
      → find j pool ≡ some t
      → s.key_id ≡ t.key_id
      → pool_need_switch (pool_reset pool k now) j ≡ false
  unfolding pool_need_switch reset_stats
  pool_reset-need_switch pool k j now s t fk fj same =
      ground (arith, find-pool_reset pool k j now s t fk fj, eqb_refl s.key_id)
