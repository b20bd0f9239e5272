-- ===== src/HaSite.antt =====
-- src/hasite_conf.h and .cpp: the nodes (IDCs) of each server, their order, and the current one.
-- `HaSite/Reading` reads a site from the values of its attributes.
pub mod Order
pub mod Nodes
pub mod Reading
pub mod ReadingExamples
pub mod Examples
use relay_proxy.Base.{
  ℕ, zero, suc, ◌+◌, ◌≡◌, ℤ, pos, eqb_ℤ, Bytes, eqb, codes, Bool, true, false, not, ◌&&◌, ◌||◌,
  if◌then◌else◌, Option, none, some, Map, find, insert, bytes_key, List, [], ◌∷◌, length, take,
  ◌==◌, Result, ok, throw, Exception, server_exception, config_exception, err_server_maintain,
  err_conf, map, arith, ◌++◌,
}

pub data ServerType : Type 0 where
  middle : ServerType
  relay : ServerType
  -- The value 0 of an entry that `operator[]` made.
  unset : ServerType

pub record HaSiteNodeInfo : Type 0 where
  pub ip : Bytes
  pub port : ℤ
  pub idc : Bytes
  pub is_valid : Bool
  pub is_forever_invalid : Bool
  pub valid_time : ℤ
  pub invalid_time : ℤ

-- `hasite_node_num` is the length of `hasite_node`.
pub record HaSiteInfo : Type 0 where
  pub protocol_type : ServerType
  pub estop_time : ℤ
  pub switch_order_list : List Bytes
  pub current_idc : Bytes
  pub hasite_node : List HaSiteNodeInfo

abbrev pub HaSiteConf : Type 0
HaSiteConf = Map Bytes HaSiteInfo

abbrev pub default_idc : Bytes
default_idc = codes "default_idc"

-- What `_hasite_conf[server_name]` adds where the server is not there.
abbrev empty_info : HaSiteInfo
empty_info = record {
  protocol_type = unset;
  estop_time = pos 0;
  switch_order_list = [];
  current_idc = [];
  hasite_node = [];
}

abbrev info_or_empty : Option HaSiteInfo → HaSiteInfo
info_or_empty none = empty_info
info_or_empty (some i) = i

abbrev pub lookup_site : HaSiteConf → Bytes → HaSiteInfo
lookup_site conf server = info_or_empty (find server conf)

-- `operator[]` leaves an entry behind.
unfoldable pub touch_site : HaSiteConf → Bytes → HaSiteConf
touch_site conf server = insert server (lookup_site conf server) conf

-- The element behind the first occurrence, as `std::find` and `++iter` find it.
unfoldable pub element_after : Bytes → List Bytes → Option Bytes
element_after idc [] = none
element_after idc (x ∷ []) = none
element_after idc (x ∷ y ∷ rest) = if eqb x idc then some y else element_after idc (y ∷ rest)

unfoldable pub get_current_idc : HaSiteConf → Bytes → HaSiteConf × Bytes
get_current_idc conf server = (touch_site conf server, (lookup_site conf server).current_idc)

abbrev or_blank : Option Bytes → Bytes
or_blank none = []
or_blank (some b) = b

abbrev pub next_of : HaSiteInfo → Option Bytes
next_of info = element_after info.current_idc info.switch_order_list

-- The empty text stands for "no next one".
unfoldable pub get_next_idc : HaSiteConf → Bytes → HaSiteConf × Bytes
unfolding or_blank
get_next_idc conf server = (touch_site conf server, or_blank (next_of (lookup_site conf server)))

-- The record after `set_current_idc`.
unfoldable pub advance : HaSiteInfo → HaSiteInfo
advance info = elim (next_of info) [ none ↦ info | some idc ↦ record info { current_idc = idc } ]

unfoldable pub set_current_idc : HaSiteConf → Bytes → HaSiteConf
set_current_idc conf server = insert server (advance (lookup_site conf server)) conf

-- `strncmp(a, b, n) == 0`
abbrev same_prefix : ℕ → Bytes → Bytes → Bool
same_prefix n a b = eqb (take n a) (take n b)

-- `_get`: the address of a node of an IDC. A node without an IDC serves every one.
abbrev pub serves : HaSiteNodeInfo → Bytes → Bool
serves node idc = same_prefix 11 node.idc default_idc || same_prefix 16 node.idc idc

unfoldable pub find_node : Bytes → List HaSiteNodeInfo → Option HaSiteNodeInfo
find_node idc [] = none
find_node idc (node ∷ nodes) =
    if serves node idc
    then if node.is_forever_invalid then none else some node
    else find_node idc nodes

unfoldable pub answer : HaSiteInfo → Bytes → Result (Bytes × ℤ × ServerType)
answer info idc = elim (find_node idc info.hasite_node) [
  | none ↦ throw (server_exception err_server_maintain)
  | some node ↦ ok (node.ip, node.port, info.protocol_type)
]

unfoldable pub get :
    HaSiteConf → (idc server : Bytes) → HaSiteConf × Result (Bytes × ℤ × ServerType)
unfolding answer
get conf idc server = (touch_site conf server, answer (lookup_site conf server) idc)

-- The test by which `_set_valid` and `_set_invalid` choose the node.
abbrev pub is_node : (idc ip : Bytes) → ℤ → HaSiteNodeInfo → Bool
is_node idc ip port node =
    same_prefix 16 ip node.ip && eqb_ℤ port node.port && same_prefix 16 idc node.idc

-- A loop that changes the first node that the test accepts and stops there; `none` if there is none.
unfoldable pub update_first :
    (HaSiteNodeInfo → Bool)
    → (HaSiteNodeInfo → Result HaSiteNodeInfo)
    → List HaSiteNodeInfo
    → Result (List HaSiteNodeInfo)
update_first test f [] = throw (server_exception err_server_maintain)
update_first test f (node ∷ nodes) =
    if test node
    then elim (f node) [ ok node' ↦ ok (node' ∷ nodes) | throw e ↦ throw e ]
    else elim (update_first test f nodes) [ ok nodes' ↦ ok (node ∷ nodes') | throw e ↦ throw e ]

-- Stores the nodes, or keeps them and throws.
abbrev store_nodes :
    HaSiteConf → Bytes → Result (List HaSiteNodeInfo) → HaSiteConf × Result (Unit {0})
store_nodes conf server (ok nodes) =
    (insert server (record (lookup_site conf server) { hasite_node = nodes }) conf, ok tt)
store_nodes conf server (throw e) = (touch_site conf server, throw e)

abbrev make_valid : HaSiteNodeInfo → Result HaSiteNodeInfo
make_valid node =
    if node.is_forever_invalid
    then throw (server_exception err_server_maintain)
    else ok (record node { is_valid = true })

unfoldable set_valid : HaSiteConf → (idc server ip : Bytes) → ℤ → HaSiteConf × Result (Unit {0})
unfolding update_first
set_valid conf idc server ip port =
    store_nodes conf server
      (update_first (is_node idc ip port) make_valid (lookup_site conf server).hasite_node)

abbrev pub make_invalid : Bool → ℤ → HaSiteNodeInfo → Result HaSiteNodeInfo
make_invalid forever now node = ok (record node {
  is_valid = false;
  invalid_time = now;
  is_forever_invalid = forever || node.is_forever_invalid;
})

-- `_set_invalid`, with the flag that `set_invalid` and `set_invalid_forever` pass.
unfoldable pub set_invalid :
    HaSiteConf → (idc server ip : Bytes) → ℤ → Bool → ℤ → HaSiteConf × Result (Unit {0})
unfolding update_first
set_invalid conf idc server ip port forever now = store_nodes conf server (
    update_first (is_node idc ip port) (make_invalid forever now)
      (lookup_site conf server).hasite_node)
