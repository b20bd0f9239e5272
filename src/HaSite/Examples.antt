-- ===== src/HaSite/Examples.antt =====
-- Runs and instances for the site configuration: one server in three IDCs.
use Prim.Native.Nat.{min}
use relay_proxy.Base.{
  ◌+◌, ◌≡◌, ◌≢◌, refl, pos, codes, eqb, ne_of_eqb, true, false, some, [], ◌∷◌, get_elem?, find,
  bytes_key, ok,
}
use relay_proxy.HaSite.{
  HaSiteNodeInfo, HaSiteInfo, HaSiteConf, lookup_site, get_current_idc, middle, get, set_invalid,
}
use relay_proxy.HaSite.Order.{set_current_idc_times, set_current_idc_times-get_elem?}
use relay_proxy.HaSite.Nodes.{get_outcome, get-set_invalid}

abbrev node_sz : HaSiteNodeInfo
node_sz = record {
  ip = codes "10.1.0.1";
  port = pos 7000;
  idc = codes "sz";
  is_valid = true;
  is_forever_invalid = false;
  valid_time = pos 0;
  invalid_time = pos 0;
}

abbrev node_sh : HaSiteNodeInfo
node_sh = record node_sz { ip = codes "10.2.0.1"; idc = codes "sh" }

abbrev pub site : HaSiteInfo
site = record {
  protocol_type = middle;
  estop_time = pos 30;
  switch_order_list = codes "sz" ∷ codes "sh" ∷ codes "tj" ∷ [];
  current_idc = codes "sz";
  hasite_node = node_sz ∷ node_sh ∷ [];
}

abbrev pub sites : HaSiteConf
sites = (codes "core", site) ∷ []

set_current_idc_times-get_elem?_example :
    (get_elem? site.switch_order_list (min (0 + 5) 2)
      ≡ some (get_current_idc (set_current_idc_times 5 (codes "core") sites) (codes "core")).1)
    × (lookup_site (set_current_idc_times 5 (codes "core") sites) (codes "pay")
        ≡ lookup_site sites (codes "pay"))
unfolding eqb find get_current_idc
set_current_idc_times-get_elem?_example =
    set_current_idc_times-get_elem? sites (codes "core") (codes "pay") 0 5 distinct refl
      (ne_of_eqb _ _ refl)
  where
    distinct :
        ((codes "sz" ≢ codes "sh") × ((codes "sz" ≢ codes "tj") × Unit {0}))
        × (((codes "sh" ≢ codes "tj") × Unit {0}) × (Unit {0} × Unit {0}))
    distinct =
        ((ne_of_eqb _ _ refl, (ne_of_eqb _ _ refl, tt)), ((ne_of_eqb _ _ refl, tt), (tt, tt)))

get_outcome_example :
    (get sites (codes "sh") (codes "core")).1 ≡ ok (codes "10.2.0.1", pos 7000, middle)
unfolding find eqb
get_outcome_example =
    (get_outcome sites (codes "sh") (codes "core")).0 node_sh
      (node_sz ∷ [], [], refl, (refl, tt), refl)

get-set_invalid_example :
    (get
      (set_invalid sites (codes "sz") (codes "core") (codes "10.1.0.1") (pos 7000) false (pos 9)).0
      (codes "sz")
      (codes "core")).1
    ≡ (get sites (codes "sz") (codes "core")).1
get-set_invalid_example =
    get-set_invalid sites (codes "sz") (codes "core") (codes "10.1.0.1") (pos 7000) (pos 9)
      (codes "sz") (codes "core")
