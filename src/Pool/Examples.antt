-- ===== src/Pool/Examples.antt =====
-- Runs and instances for the connection pool: a server in two IDCs, two connections at most.
use relay_proxy.Base.{
  ℕ, ◌≡◌, ◌≢◌, refl, pos, codes, eqb, ne_of_eqb, Bool, true, false, List, [], ◌∷◌, ok, find,
  bytes_key, insert, bytes_lt, arith,
}
use relay_proxy.HaSite.{
  HaSiteConf, get_next_idc, get_current_idc, set_current_idc, element_after, touch_site, find_node,
  answer, advance,
}
use relay_proxy.HaSite
use relay_proxy.HaSite.Examples.{sites}
use relay_proxy.Pool.Leases.{leases, count_lease}
use relay_proxy.Pool.Invariant.{IsSound, Served}
use relay_proxy.Pool.Service.{get-Served}
use relay_proxy.Pool.History.{
  Call, gets, releases, switches_on, History, run, step, run-new_pool, new_pool-IsSound,
  get-exclusive,
}
use relay_proxy.Pool.Switching.{get-switches}
use relay_proxy.Pool.{
  choose, search_free, pick, grow, add_api, connect_to, push_api, push_entry, with_current,
  with_old, begin_switch, free_entries, ApiPool, new_pool, get, release, current, old, clean,
  delete_free, switch_complete, is_ongoing,
}
use relay_proxy.Api.{set_used, fini, set_free}

abbrev alive : ℕ → Bool
alive id = true

abbrev pub fresh_pool : ApiPool
fresh_pool = new_pool (codes "core") (pos 1) (pos 2) (pos 5)

abbrev fresh_sound : IsSound fresh_pool
fresh_sound = new_pool-IsSound (codes "core") (pos 1) (pos 2) (pos 5)

abbrev pub start : History
start = record { pool = fresh_pool; conf = sites; healthy = true }

get-Served_example : Served fresh_pool (get alive fresh_pool sites)
unfolding new_pool
get-Served_example = get-Served alive fresh_pool sites fresh_sound (omega arith)

-- What a run of the pool computes through.
pool_code : ℕ
unfolding new_pool get choose clean delete_free switch_complete search_free pick current old grow
    add_api connect_to push_api push_entry with_current with_old begin_switch set_used fini
    HaSite.get answer find_node touch_site get_current_idc get_next_idc set_current_idc advance
    element_after find insert eqb bytes_lt release free_entries set_free run step leases count_lease
pool_code = 0

first_get : (get alive fresh_pool sites).2 ≡ ok 0
unfolding pool_code
first_get = refl

get-exclusive_example : (leases 0 fresh_pool ≡ 0) × (leases 0 (get alive fresh_pool sites).0 ≡ 1)
get-exclusive_example = get-exclusive alive fresh_pool sites 0 fresh_sound first_get

-- Two connections in use, then a switch, a connection to the next IDC, and both releases.
abbrev pub busy : List Call
busy = gets alive ∷ gets alive ∷ []

abbrev busy_pool : ApiPool
busy_pool = (run start busy).pool

run-new_pool_example :
    IsSound
      (run start (gets alive ∷ switches_on ∷ gets alive ∷ releases 0 false ∷ gets alive ∷ [])).pool
    × ((run start
          (gets alive ∷ switches_on ∷ gets alive ∷ releases 0 false ∷ gets alive ∷ [])).healthy
        ≡ true)
run-new_pool_example =
    run-new_pool (codes "core") (pos 1) (pos 2) (pos 5) sites
      (gets alive ∷ switches_on ∷ gets alive ∷ releases 0 false ∷ gets alive ∷ []) (omega arith)

abbrev pub asked : ApiPool
asked = (run start (gets alive ∷ switches_on ∷ [])).pool

asked_sound : IsSound asked
asked_sound =
    (run-new_pool (codes "core") (pos 1) (pos 2) (pos 5) sites (gets alive ∷ switches_on ∷ [])
      (omega arith)).0

next_is_sh : (get_next_idc sites (codes "core")).1 ≢ []
unfolding pool_code
next_is_sh = ne_of_eqb _ _ refl

get-switches_example : is_ongoing (get alive asked sites).0.switch_state ≡ true
unfolding pool_code
get-switches_example =
    (get-switches alive asked sites asked_sound refl refl next_is_sh (omega arith)).0

abbrev pub switching : ApiPool
switching = (run start (gets alive ∷ switches_on ∷ gets alive ∷ [])).pool

switching_ongoing : is_ongoing switching.switch_state ≡ true
unfolding pool_code
switching_ongoing = refl

-- The connection of the old pool is released, and the next `get` ends the switch.
switch_finishes :
    is_ongoing
      (run start (
        gets alive
        ∷ switches_on
        ∷ gets alive
        ∷ releases 0 false
        ∷ gets alive
        ∷ [])).pool.switch_state
    ≡ false
unfolding pool_code
switch_finishes = refl
