-- ===== src/HaSite/Nodes.antt =====
-- Which node `get` hands out, and what `set_valid`, `set_invalid` and `set_invalid_forever` do to it.
use relay_proxy.Base.{
  ◌≡◌, refl, ℤ, Bytes, eqb, eqb_iff, eqb_refl, take, Bool, true, false, if◌then◌else◌, Option, none,
  some, List, [], ◌∷◌, ◌++◌, All, find-insert, insert, ok, throw, Exception, server_exception,
  err_server_maintain, bytes_key, arith, Result-cases, inl, inr,
}
use relay_proxy.HaSite.{
  HaSiteNodeInfo, HaSiteInfo, HaSiteConf, lookup_site, serves, find_node, answer, get, touch_site,
  is_node, update_first, get_next_idc, make_invalid, set_invalid,
}

-- The first node that serves the IDC.
abbrev FirstServing : Bytes → List HaSiteNodeInfo → HaSiteNodeInfo → Type 0
FirstServing idc nodes node =
    (before : List HaSiteNodeInfo) × (after : List HaSiteNodeInfo) × (nodes
      ≡ before ++ node ∷ after)
    × All (λ n. serves n idc ≡ false) before
    × (serves node idc ≡ true)

find_node-FirstServing :
    (idc : Bytes) (before after : List HaSiteNodeInfo) (node : HaSiteNodeInfo)
    → All (λ n. serves n idc ≡ false) before
    → serves node idc ≡ true
    → find_node idc (before ++ node ∷ after) ≡ (if node.is_forever_invalid then none else some node)
unfolding find_node
find_node-FirstServing idc [] after node hb h = rw h
find_node-FirstServing idc (n ∷ before) after node (hn, hb) h =
    rw hn (find_node-FirstServing idc before after node hb h)

find_node-none :
    (idc : Bytes) (nodes : List HaSiteNodeInfo)
    → All (λ n. serves n idc ≡ false) nodes
    → find_node idc nodes ≡ none
unfolding find_node
find_node-none idc [] h = refl
find_node-none idc (n ∷ nodes) (hn, h) = rw hn (find_node-none idc nodes h)

-- `get` gives the address of the first node that serves the IDC, unless that node is invalid for
-- ever: then it throws, whatever nodes follow. It throws too where no node serves the IDC.
pub get_outcome :
    (conf : HaSiteConf) (idc server : Bytes)
    → let info = lookup_site conf server in
      ((node : HaSiteNodeInfo)
        → FirstServing idc info.hasite_node node
        → (get conf idc server).1 ≡ (
            if node.is_forever_invalid
            then throw (server_exception err_server_maintain)
            else ok (node.ip, node.port, info.protocol_type)))
      × (All (λ n. serves n idc ≡ false) info.hasite_node
          → (get conf idc server).1 ≡ throw (server_exception err_server_maintain))
unfolding get
get_outcome conf idc server = (
  λ node (before, after, e, hb, h).
      ground (arith, e, find_node-FirstServing idc before after node hb h),
  λ h. ground (arith, find_node-none idc (lookup_site conf server).hasite_node h),
)

abbrev pub address : Option HaSiteNodeInfo → Option (Bytes × ℤ)
address none = none
address (some n) = some (n.ip, n.port)

find_node-make_invalid :
    (test : HaSiteNodeInfo → Bool) (now : ℤ) (idc : Bytes) (nodes nodes' : List HaSiteNodeInfo)
    → update_first test (make_invalid false now) nodes ≡ ok nodes'
    → address (find_node idc nodes') ≡ address (find_node idc nodes)
unfolding update_first find_node
find_node-make_invalid test now idc [] nodes' e = cc
find_node-make_invalid test now idc (n ∷ nodes) nodes' e =
    elim (Result-cases (update_first test (make_invalid false now) nodes)) [
      | inl (ns, r) ↦ ground (arith, r, find_node-make_invalid test now idc nodes ns r)
      | inr (x, r) ↦ ground (arith, r)
    ]

answer_nodes :
    (info : HaSiteInfo) (nodes : List HaSiteNodeInfo) (idc : Bytes)
    → address (find_node idc nodes) ≡ address (find_node idc info.hasite_node)
    → answer (record info { hasite_node = nodes }) idc ≡ answer info idc
unfolding answer
answer_nodes info nodes idc h = ground arith

lookup_site-insert :
    (conf : HaSiteConf) (server other : Bytes) (info : HaSiteInfo)
    → lookup_site (insert server info conf) other
      ≡ (if eqb server other then info else lookup_site conf other)
lookup_site-insert conf server other info = ground (arith, find-insert server other info conf)

answer-insert :
    (conf : HaSiteConf) (server other idc : Bytes) (info : HaSiteInfo)
    → answer info idc ≡ answer (lookup_site conf server) idc
    → answer (lookup_site (insert server info conf) other) idc ≡ answer (lookup_site conf other) idc
answer-insert conf server other idc info h =
    ground (arith, lookup_site-insert conf server other info, eqb_iff server other)

-- `set_invalid` without "for ever" changes no answer of `get`, for any server and IDC: `is_valid` is
-- recorded and never asked.
pub get-set_invalid :
    (conf : HaSiteConf) (idc server ip : Bytes) (port now : ℤ) (idc' server' : Bytes)
    → (get (set_invalid conf idc server ip port false now).0 idc' server').1
      ≡ (get conf idc' server').1
get-set_invalid conf idc server ip port now idc' server' =
    elim (Result-cases (update_first test (make_invalid false now) nodes)) [
      | inl (ns, r) ↦
          unfold set_invalid get in
          rw r (
            answer-insert conf server server' idc' _
              (answer_nodes info ns idc' (find_node-make_invalid test now idc' nodes ns r)))
      | inr (x, r) ↦
          unfold set_invalid get touch_site in
          rw r (answer-insert conf server server' idc' info refl)
    ]
  where
    info : HaSiteInfo
    info = lookup_site conf server

    nodes : List HaSiteNodeInfo
    nodes = info.hasite_node

    test : HaSiteNodeInfo → Bool
    test = is_node idc ip port

module _ (idc ip : Bytes) (port now : ℤ) where
  not_node : (n : HaSiteNodeInfo) → serves n idc ≡ false → is_node idc ip port n ≡ false
  not_node n h =
      ground (arith, eqb_iff (take 16 n.idc) (take 16 idc), eqb_iff (take 16 idc) (take 16 n.idc))

  update_first-make_invalid :
      (before after : List HaSiteNodeInfo) (node : HaSiteNodeInfo)
      → All (λ n. serves n idc ≡ false) before
      → is_node idc ip port node ≡ true
      → update_first (is_node idc ip port) (make_invalid true now) (before ++ node ∷ after)
        ≡ ok (
            before
            ++ record node { is_valid = false; invalid_time = now; is_forever_invalid = true }
              ∷ after)
  unfolding update_first
  update_first-make_invalid [] after node hb h = rw h
  update_first-make_invalid (n ∷ before) after node (hn, hb) h =
      rw (not_node n hn, update_first-make_invalid before after node hb h)

-- Once the node that `get` hands out for an IDC has been set invalid for ever, `get` throws for that
-- IDC.
pub get-set_invalid_forever :
    (conf : HaSiteConf) (idc server ip : Bytes) (port now : ℤ) (node : HaSiteNodeInfo)
    → FirstServing idc (lookup_site conf server).hasite_node node
    → is_node idc ip port node ≡ true
    → (get (set_invalid conf idc server ip port true now).0 idc server).1
      ≡ throw (server_exception err_server_maintain)
unfolding set_invalid get answer
get-set_invalid_forever conf idc server ip port now node (before, after, e, hb, h) is =
    let dead = record node { is_valid = false; invalid_time = now; is_forever_invalid = true } in
    ground (
      arith,
      e,
      update_first-make_invalid idc ip port now before after node hb is,
      lookup_site-insert conf server server
          (record (lookup_site conf server) { hasite_node = before ++ dead ∷ after }),
      eqb_refl server,
      find_node-FirstServing idc before after dead hb h,
    )

-- `get` throws nothing but "no site can use".
pub get-throw :
    (conf : HaSiteConf) (idc server : Bytes) (e : Exception)
    → (get conf idc server).1 ≡ throw e
    → e ≡ server_exception err_server_maintain
unfolding get
get-throw conf idc server e h = ground arith

-- The entry that `operator[]` leaves behind changes no lookup.
pub lookup_site-touch_site :
    (conf : HaSiteConf) (server other : Bytes)
    → lookup_site (touch_site conf server) other ≡ lookup_site conf other
unfolding touch_site
lookup_site-touch_site conf server other =
    ground
      (arith, lookup_site-insert conf server other (lookup_site conf server), eqb_iff server other)

pub get_next_idc-touch_site :
    (conf : HaSiteConf) (server : Bytes)
    → (get_next_idc (touch_site conf server) server).1 ≡ (get_next_idc conf server).1
unfolding get_next_idc
get_next_idc-touch_site conf server = ground (arith, lookup_site-touch_site conf server server)
