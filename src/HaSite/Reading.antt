-- ===== src/HaSite/Reading.antt =====
-- `_get_site_info` of src/hasite_conf.cpp: one `site` element. TinyXML and the macros that read an
-- attribute are not part of the code, so an element is the values of its attributes.
use Prim.Native.Nat.{min}
use relay_proxy.Base.{
  ℕ, zero, suc, ◌+◌, ◌-◌, leb, ◌≤◌, ◌≡◌, refl, pos, eqb, Bytes, codes, true, false, if◌then◌else◌,
  Option, none, some, List, [], ◌∷◌, insert, bytes_key, length, take, map, ◌==◌, get_elem?, Result,
  ok, throw, Exception, config_exception, err_conf, ◌>>=◌, arith, Result-cases, Bool-cases, inl,
  inr,
}
use relay_proxy.Text.{split, atoi}
use relay_proxy.HaSite.{
  ServerType, middle, relay, HaSiteNodeInfo, HaSiteInfo, HaSiteConf, default_idc,
}
use relay_proxy.HaSite.Order.{Distinct, advances, advances-get_elem?}

-- `idc` and `switch_order` have a default.
pub record SiteNodeElement : Type 0 where
  pub ip : Bytes
  pub port : Bytes
  pub idc : Option Bytes

pub record SiteElement : Type 0 where
  pub server_name : Bytes
  pub estop_time : Bytes
  pub protocol : Bytes
  pub switch_order : Option Bytes
  pub nodes : List SiteNodeElement

abbrev or_default : Bytes → Option Bytes → Bytes
or_default d none = d
or_default d (some b) = b

abbrev get_protocol_type : Bytes → Result ServerType
get_protocol_type p =
    if eqb p (codes "tcp")
    then ok middle
    else (if eqb p (codes "relay") then ok relay else throw (config_exception err_conf))

-- `strncpy` into fields of 16 bytes, the last one kept for the end.
abbrev pub read_node : SiteNodeElement → HaSiteNodeInfo
read_node e = record {
  ip = take 15 e.ip;
  port = atoi e.port;
  idc = take 15 (or_default default_idc e.idc);
  is_valid = true;
  is_forever_invalid = false;
  valid_time = pos 0;
  invalid_time = pos 0;
}

-- The loop over the elements, with the room left in `hasite_node`: nothing guards its end.
unfoldable pub read_nodes : ℕ → List SiteNodeElement → Result (List HaSiteNodeInfo)
read_nodes room [] = ok []
read_nodes zero (e ∷ es) = throw Exception.out_of_range
read_nodes (suc room) (e ∷ es) = read_nodes room es >>= λ nodes. ok (read_node e ∷ nodes)

abbrev node_idc : HaSiteNodeInfo → Bytes
node_idc node = node.idc

abbrev read_order : Bytes → List HaSiteNodeInfo → List Bytes
read_order text nodes =
    if eqb text (codes "default_switch_order") then map node_idc nodes else split 58 5 text

-- The checks behind the loop, and the first IDC of the order.
unfoldable pub start_site :
    SiteElement → ServerType → List HaSiteNodeInfo → List Bytes → Result HaSiteInfo
start_site e protocol nodes [] = throw (config_exception err_conf)
start_site e protocol nodes (first ∷ rest) =
    if length nodes == suc (length rest)
    then ok (record {
      protocol_type = protocol;
      estop_time = atoi e.estop_time;
      switch_order_list = first ∷ rest;
      current_idc = first;
      hasite_node = nodes;
    })
    else throw (config_exception err_conf)

unfoldable pub read_site : SiteElement → Result HaSiteInfo
read_site e = get_protocol_type e.protocol >>= λ protocol. read_nodes 5 e.nodes >>= λ nodes.
    start_site e protocol nodes
      (read_order (or_default (codes "default_switch_order") e.switch_order) nodes)

-- `_get_hasite_conf`, which is `read_conf`, from the `site` elements on. An earlier site of the same name is replaced. What
-- an exception leaves in the half-read map is not followed.
unfoldable pub read_sites : List SiteElement → HaSiteConf → Result HaSiteConf
read_sites [] conf = ok conf
read_sites (e ∷ es) conf = read_site e >>= λ info. read_sites es (insert e.server_name info conf)

unfoldable pub get_hasite_conf : List SiteElement → HaSiteConf → Result HaSiteConf
get_hasite_conf [] conf = throw (config_exception err_conf)
get_hasite_conf (e ∷ es) conf = read_sites (e ∷ es) conf

-- `reload` clears the map before it reads.
unfoldable pub reload : List SiteElement → Result HaSiteConf
reload es = get_hasite_conf es []

-- The loop takes every element, in order, while there is room.
read_nodes-map :
    (room : ℕ) (es : List SiteNodeElement)
    → read_nodes room es
      ≡ (if leb (length es) room then ok (map read_node es) else throw Exception.out_of_range)
unfolding read_nodes
read_nodes-map room [] = ground arith
read_nodes-map zero (e ∷ es) = ground arith
read_nodes-map (suc room) (e ∷ es) = ground (arith, read_nodes-map room es)

start_site-ok :
    (e : SiteElement) (p : ServerType) (nodes : List HaSiteNodeInfo) (order : List Bytes)
    (info : HaSiteInfo)
    → start_site e p nodes order ≡ ok info
    → (info.hasite_node ≡ nodes)
      × (length info.switch_order_list ≡ length nodes)
      × (1 ≤ length nodes)
      × (get_elem? info.switch_order_list 0 ≡ some info.current_idc)
unfolding start_site
start_site-ok e p nodes [] info h = absurd (cc h)
start_site-ok e p nodes (first ∷ rest) info h = ground arith

length-map_node : (es : List SiteNodeElement) → length (map read_node es) ≡ length es
length-map_node [] = refl
length-map_node (e ∷ es) = omega (arith, length-map_node es)

-- What has succeeded where a site is read.
read_site-ok :
    (e : SiteElement) (info : HaSiteInfo)
    → read_site e ≡ ok info
    → (length e.nodes ≤ 5)
      × (p : ServerType) × (order : List Bytes) × (start_site e p (map read_node e.nodes) order
          ≡ ok info)
unfolding read_site
read_site-ok e info h = elim (Result-cases (get_protocol_type e.protocol)) [
  | inr (x, r) ↦ absurd (ground (arith, h, r))
  | inl (p, r) ↦ elim (Bool-cases (leb (length e.nodes) 5)) [
    | inr f ↦ absurd (ground (arith, h, r, f, read_nodes-map 5 e.nodes))
    | inl t ↦ (
      ground (arith, t),
      p,
      read_order (or_default (codes "default_switch_order") e.switch_order) (map read_node e.nodes),
      ground (arith, h, r, t, read_nodes-map 5 e.nodes),
    )
  ]
]

-- A site that is read holds its nodes in the order of the elements, from one to five, and as many
-- IDCs in its switch order. It starts at the first IDC, and calls of `set_current_idc` walk from
-- there one place each to the last one, provided that no IDC stands in the order twice.
pub read_site-advances :
    (e : SiteElement) (info : HaSiteInfo) (k : ℕ)
    → read_site e ≡ ok info
    → Distinct info.switch_order_list
    → (info.hasite_node ≡ map read_node e.nodes)
      × (1 ≤ length e.nodes)
      × (length e.nodes ≤ 5)
      × (length info.switch_order_list ≡ length e.nodes)
      × (get_elem? info.switch_order_list (min k (length e.nodes - 1))
          ≡ some (advances k info).current_idc)
read_site-advances e info k h d =
    let (few, p, order, s) = read_site-ok e info h in
    let (nodes, len, some_nodes, start) = start_site-ok e p (map read_node e.nodes) order info s in
    let same = length-map_node e.nodes in
    let walk = advances-get_elem? info 0 k d start in
    let from_start : 0 + k ≡ k = omega arith in
    let count : length info.switch_order_list ≡ length e.nodes = cc in
    (nodes, omega (arith, same, some_nodes), few, count, cc)
