-- ===== src/Routing.antt =====
-- Where a request goes: `_choose_thread` of `src/relay_server.cpp`, which gives a connection to a
-- thread, and `_gen_request_key` of `src/client_socket.cpp`, the key of its server.
mod Threads
mod Keys
mod Examples
use relay_proxy.Base.{ℕ, zero, suc, ◌+◌, ◌-◌, ◌*◌, ◌/◌, ◌%◌, ◌^◌, ◌≤◌, ◌<◌}
use relay_proxy.Base.{◌≡◌, refl, sym, ap, ◌∙◌, ◌≢◌, ◌↔◌, ◌⊎◌, inl, inr}
use relay_proxy.Base.{Bool, true, false, not, ◌&&◌, ◌||◌, Option, none, some}
use relay_proxy.Base.{List, [], ◌∷◌, ◌++◌, map, append_assoc, append-nil, arith}
use relay_proxy.Base.{ltb, leb, ◌==◌, if◌then◌else◌, Bool-cases, Option-cases, is_some}
use relay_proxy.Base.{length, get_elem?, set, get_or, take, drop, replicate, All, all}
use relay_proxy.Base.{length-append, take-append, drop-append, length-take, All-append}
use relay_proxy.Base.{
  ℤ, pos, negsuc, pos_part, neg_part, ◌+ℤ◌, ◌-ℤ◌, ◌*ℤ◌, ◌≤ℤ◌, ◌<ℤ◌, ltb_ℤ, leb_ℤ, eqb_ℤ,
}
use relay_proxy.Base.{
  eqb_ℤ_iff, int_max, int_min, incr, incr_pos, wrap_int, wrap_int-pos, add_int, add_int_exact,
}
use relay_proxy.Base.{Bytes, codes, eqb, bytes_lt, eqb_iff, eqb_refl, ne_of_eqb}
use relay_proxy.Base.{
  Key, int_key, bytes_key, Map, find, count, insert, emplace, modify, map_values,
}
use relay_proxy.Base.{find-insert, find-insert_self, find-emplace, find-modify, find-map_values}
use relay_proxy.Base.{Code, Exception, Result, ok, throw, ◌>>=◌, ◌>>◌, Result-cases}
use relay_proxy.Base.{
  trpc_exception, server_exception, err_sys_unknown, err_packet_fmt, err_packet_error,
}
use relay_proxy.Text.{atoi}
use relay_proxy.Url.{parse_url, is_empty}

-- `thread_index`: the thread that is chosen, and the index after it.
unfoldable pub choose_thread : (thread_num thread_index : ℤ) → ℤ × ℤ
choose_thread thread_num thread_index = (
  thread_index,
  if leb_ℤ (thread_num -ℤ pos 1) (thread_index +ℤ pos 1) then pos 0 else thread_index +ℤ pos 1,
)

-- `CSystemConf::ST_RequestKeyConf`, less the name of its file.
pub record RequestKeyConf : Type 0 where
  pub begin : ℤ
  pub end : ℤ
  pub request_key : List Bytes

abbrev pub request_type_name : Bytes
request_type_name = codes "request_type"

abbrev pub split_char : ℕ
split_char = 94

unfoldable pub covers : ℤ → RequestKeyConf → Bool
covers t conf = leb_ℤ conf.begin t && ltb_ℤ t conf.end

-- The loop over the ranges does not stop at the first that fits: the last one counts. The index
-- counts from `i`.
unfoldable pub find_range : ℤ → ℕ → List RequestKeyConf → Option (ℕ × RequestKeyConf)
find_range t i [] = none
find_range t i (conf ∷ confs) = elim (find_range t (suc i) confs) [
  | some found ↦ some found
  | none ↦ if covers t conf then some (i, conf) else none
]

-- The value of a key that `isEmpty` has found to be there.
unfoldable pub value_of : Bytes → Map Bytes Bytes → Bytes
value_of k params = elim (find k params) [ none ↦ [] | some v ↦ v ]

-- The loop over the keys of the range, which reads the first before it looks for the end.
unfoldable pub join_values : Map Bytes Bytes → List Bytes → Result Bytes
join_values params [] = throw Exception.out_of_range
join_values params (k ∷ []) =
    if is_empty k params then throw (server_exception err_packet_fmt) else ok (value_of k params)
join_values params (k ∷ l ∷ keys) =
    if is_empty k params
    then throw (server_exception err_packet_fmt)
    else (join_values params (l ∷ keys) >>= λ s. ok (value_of k params ++ split_char ∷ s))

pub record Routed : Type 0 where
  pub request_type : ℤ
  pub request_key_index : ℕ
  pub request_key : Bytes

unfoldable pub route : Map Bytes Bytes → ℤ → Option (ℕ × RequestKeyConf) → Result Routed
route params t none = throw (server_exception err_packet_error)
route params t (some (i, conf)) = join_values params conf.request_key >>= λ s.
    ok (record { request_type = t; request_key_index = i; request_key = s })

abbrev is_nil : List RequestKeyConf → Bool
is_nil [] = true
is_nil (c ∷ cs) = false

unfoldable pub gen_request_key : (ℕ → ℕ → ℕ) → Bytes → List RequestKeyConf → Result Routed
gen_request_key junk req_packet confs =
    let params = parse_url junk req_packet in
    let t = atoi (value_of request_type_name params) in
    if is_nil confs
    then throw (trpc_exception err_sys_unknown)
    else (if is_empty request_type_name params
        then throw (server_exception err_packet_fmt)
        else route params t (find_range t 0 confs))
