-- ===== src/Routing/Keys.antt =====
-- The range and the key of a request (`_gen_request_key` of `src/client_socket.cpp`).
use mathlib.Core.Path.{subst}
use relay_proxy.Base.{All, zero, ok}
use relay_proxy.Base.{ℕ, suc, ◌+◌}
use relay_proxy.Base.{◌≡◌, refl, sym, ap, ◌∙◌, inl, inr}
use relay_proxy.Base.{Bool, true, false, not, none, some}
use relay_proxy.Base.{List, [], ◌∷◌, ◌++◌, arith}
use relay_proxy.Base.{Option-cases}
use relay_proxy.Base.{get_elem?, drop, all}
use relay_proxy.Base.{ℤ}
use relay_proxy.Base.{Bytes}
use relay_proxy.Base.{int_key, bytes_key, Map}
use relay_proxy.Base.{ok, Result-cases}
use relay_proxy.Text.{atoi}
use relay_proxy.Url.{parse_url, is_empty}
use relay_proxy.Routing.{
  split_char, RequestKeyConf, request_type_name, covers, find_range, value_of, join_values, Routed,
  route, gen_request_key,
}

abbrev pub uncovered : ℤ → RequestKeyConf → Bool
uncovered t conf = not (covers t conf)

-- The range `conf` stands at `n`, covers the type, and no later one covers it.
abbrev pub IsLast : ℤ → List RequestKeyConf → ℕ → RequestKeyConf → Type 0
IsLast t confs n conf =
    (get_elem? confs n ≡ some conf)
    × (covers t conf ≡ true)
    × (all (uncovered t) (drop (suc n) confs) ≡ true)

find_range-none :
    (t : ℤ) (i : ℕ) (confs : List RequestKeyConf)
    → find_range t i confs ≡ none
    → all (uncovered t) confs ≡ true
unfolding find_range
find_range-none t i [] h = refl
find_range-none t i (conf ∷ confs) h = elim (Option-cases (find_range t (suc i) confs)) [
  | inl e ↦ ground (arith, e, h, find_range-none t (suc i) confs e)
  | inr (x, e) ↦ ground (arith, e, h)
]

find_range-IsLast :
    (t : ℤ) (i : ℕ) (confs : List RequestKeyConf) (j : ℕ) (conf : RequestKeyConf)
    → find_range t i confs ≡ some (j, conf)
    → (n : ℕ) × (j ≡ i + n) × IsLast t confs n conf
unfolding find_range
find_range-IsLast t i [] j conf h = absurd (cc h)
find_range-IsLast t i (c ∷ confs) j conf h = elim (Option-cases (find_range t (suc i) confs)) [
  | inl e ↦ (
    0,
    ground (arith, e, h),
    (ground (arith, e, h), ground (arith, e, h), find_range-none t (suc i) confs e),
  )
  | inr ((k, d), e) ↦
      let (n, at, (there, on, later)) =
        find_range-IsLast t (suc i) confs j conf (e ∙ (rw e at h)) in
      (suc n, omega (arith, at), (there, on, later))
]

-- The values of the keys, with the separator between them.
unfoldable pub joined : Map Bytes Bytes → List Bytes → Bytes
joined params [] = []
joined params (k ∷ []) = value_of k params
joined params (k ∷ l ∷ keys) = value_of k params ++ split_char ∷ joined params (l ∷ keys)

join_values-joined :
    (params : Map Bytes Bytes) (keys : List Bytes) (s : Bytes)
    → join_values params keys ≡ ok s
    → (s ≡ joined params keys) × (all (λ k. not (is_empty k params)) keys ≡ true)
unfolding join_values joined
join_values-joined params [] s h = absurd (cc h)
join_values-joined params (k ∷ []) s h = (ground (arith, h), ground (arith, h))
join_values-joined params (k ∷ l ∷ keys) s h = elim (Result-cases (join_values params (l ∷ keys))) [
  | inr (x, e) ↦ ground (arith, e, h)
  | inl (u, e) ↦
      let (same, there) = join_values-joined params (l ∷ keys) u e in
      (ground (arith, e, h, same), ground (arith, e, h, there))
]

accepted :
    (junk : ℕ → ℕ → ℕ) (req_packet : Bytes) (confs : List RequestKeyConf) (r : Routed)
    → gen_request_key junk req_packet confs ≡ ok r
    → route
        (parse_url junk req_packet)
        (atoi (value_of request_type_name (parse_url junk req_packet)))
        (find_range (atoi (value_of request_type_name (parse_url junk req_packet))) 0 confs)
      ≡ ok r
unfolding gen_request_key
accepted junk req_packet confs r h = ground (arith, h)

route-none : (params : Map Bytes Bytes) (t : ℤ) (r : Routed) → route params t none ≡ ok r → ⊥
unfolding route
route-none params t r h = cc h

route_lem :
    (params : Map Bytes Bytes) (t : ℤ) (i : ℕ) (conf : RequestKeyConf) (r : Routed)
    → route params t (some (i, conf)) ≡ ok r
    → (r.request_type ≡ t)
      × (r.request_key_index ≡ i)
      × (r.request_key ≡ joined params conf.request_key)
      × (all (λ k. not (is_empty k params)) conf.request_key ≡ true)
unfolding route
route_lem params t i conf r h = elim (Result-cases (join_values params conf.request_key)) [
  | inr (x, e) ↦ absurd (cc (rw e at h))
  | inl (s, e) ↦
      let (same, there) = join_values-joined params conf.request_key s e in
      (ground (arith, e, h), ground (arith, e, h), ground (arith, e, h, same), there)
]

moved :
    (t u : ℤ) (confs : List RequestKeyConf) (n j : ℕ) (conf : RequestKeyConf)
    → u ≡ t
    → j ≡ n
    → IsLast t confs n conf
    → IsLast u confs j conf
moved t u confs n j conf e f last = rw (e, f) last

-- What an accepted request is given: the last range that covers its type, and the values of that
-- range's keys with the separator between them, all of which are there and not empty. The type is the
-- number that the request gives.
pub gen_request_key_lem :
    (junk : ℕ → ℕ → ℕ) (req_packet : Bytes) (confs : List RequestKeyConf) (r : Routed)
    → gen_request_key junk req_packet confs ≡ ok r
    → (r.request_type ≡ atoi (value_of request_type_name (parse_url junk req_packet)))
      × ((conf : RequestKeyConf) × IsLast r.request_type confs r.request_key_index conf
          × (r.request_key ≡ joined (parse_url junk req_packet) conf.request_key)
          × (all (λ k. not (is_empty k (parse_url junk req_packet))) conf.request_key ≡ true))
unfolding gen_request_key
gen_request_key_lem junk req_packet confs r h =
    let params = parse_url junk req_packet in
    let t = atoi (value_of request_type_name params) in
    let run = accepted junk req_packet confs r h in
    elim (Option-cases (find_range t 0 confs)) [
      | inl e ↦ absurd (route-none params t r (ap (route params t) (sym e) ∙ run))
      | inr ((i, conf), e) ↦
          let (type, place, key, there) =
            route_lem params t i conf r (ap (route params t) (sym e) ∙ run) in
          let (n, at, last) = find_range-IsLast t 0 confs i conf e in
          (
            type,
            (
              conf,
              moved t r.request_type confs n r.request_key_index conf type
                  (omega (arith, at, place)) last,
              key,
              there,
            ),
          )
    ]

abbrev pub nonempty : List Bytes → Bool
nonempty [] = false
nonempty (k ∷ keys) = true

-- The request has a value for each key of the range, and the range has a key.
abbrev pub IsServed : Map Bytes Bytes → RequestKeyConf → Type 0
IsServed params conf =
    (nonempty conf.request_key ≡ true)
    × (all (λ k. not (is_empty k params)) conf.request_key ≡ true)

join_values-total :
    (params : Map Bytes Bytes) (keys : List Bytes)
    → nonempty keys ≡ true
    → all (λ k. not (is_empty k params)) keys ≡ true
    → (s : Bytes) × (join_values params keys ≡ ok s)
unfolding join_values
join_values-total params [] n h = absurd (cc n)
join_values-total params (k ∷ []) n h = (value_of k params, ground (arith, h))
join_values-total params (k ∷ l ∷ keys) n h =
    let (s, e) = join_values-total params (l ∷ keys) refl (ground (arith, h)) in
    (value_of k params ++ split_char ∷ s, ground (arith, h, e))

All-get :
    (P : RequestKeyConf → Type 0) (confs : List RequestKeyConf) (n : ℕ) (conf : RequestKeyConf)
    → All P confs
    → get_elem? confs n ≡ some conf
    → P conf
All-get P [] n conf h e = absurd (cc e)
All-get P (c ∷ confs) zero conf (p, h) e = subst P (cc e) p
All-get P (c ∷ confs) (suc n) conf (p, h) e = All-get P confs n conf h e

find_range-total :
    (t : ℤ) (confs : List RequestKeyConf)
    → all (uncovered t) confs ≡ false
    → (j : ℕ) × (conf : RequestKeyConf) × (find_range t 0 confs ≡ some (j, conf))
find_range-total t confs h = elim (Option-cases (find_range t 0 confs)) [
  | inl e ↦ absurd (cc (find_range-none t 0 confs e, h))
  | inr ((j, conf), e) ↦ (j, conf, e)
]

-- A request is accepted if it gives a type that some range covers and a value, not empty, for each
-- key of each range, and every range has a key.
pub gen_request_key-total :
    (junk : ℕ → ℕ → ℕ) (req_packet : Bytes) (confs : List RequestKeyConf)
    → is_empty request_type_name (parse_url junk req_packet) ≡ false
    → all (uncovered (atoi (value_of request_type_name (parse_url junk req_packet)))) confs ≡ false
    → All (IsServed (parse_url junk req_packet)) confs
    → (r : Routed) × (gen_request_key junk req_packet confs ≡ ok r)
unfolding gen_request_key route
gen_request_key-total junk req_packet [] here found served = absurd (cc found)
gen_request_key-total junk req_packet (c ∷ confs) here found served =
    let params = parse_url junk req_packet in
    let t = atoi (value_of request_type_name params) in
    let (i, conf, e) = find_range-total t (c ∷ confs) found in
    let (n, _, (there, _, _)) = find_range-IsLast t 0 (c ∷ confs) i conf e in
    let (some_key, all_keys) = All-get (IsServed params) (c ∷ confs) n conf served there in
    let (s, joins) = join_values-total params conf.request_key some_key all_keys in
    (
      record { request_type = t; request_key_index = i; request_key = s },
      ground (arith, here, ap (route params t) e, joins),
    )
