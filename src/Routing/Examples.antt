-- ===== src/Routing/Examples.antt =====
-- Inputs for the theorems on routing, and runs of the code on them.
use relay_proxy.Base.{ℕ}
use relay_proxy.Base.{◌≡◌, refl, ◌≢◌}
use relay_proxy.Base.{true, not}
use relay_proxy.Base.{List, [], ◌∷◌, map, arith}
use relay_proxy.Base.{all}
use relay_proxy.Base.{pos, ◌+ℤ◌, ◌-ℤ◌}
use relay_proxy.Base.{Bytes, codes, eqb, bytes_lt}
use relay_proxy.Base.{int_key, bytes_key, find, insert, emplace}
use relay_proxy.Base.{ok, throw}
use relay_proxy.Base.{server_exception, err_packet_error, err_packet_fmt}
use relay_proxy.Text.{atoi, signed_value, digits_value, strchug, is_space}
use relay_proxy.Url.{
  find_char, parse_url, parse_from, parse_nv, decode_url, hextochar, hex_value, is_empty,
}
use relay_proxy.Routing.{
  choose_thread, RequestKeyConf, covers, find_range, value_of, join_values, Routed, route,
  gen_request_key,
}
use relay_proxy.Routing.Threads.{index_after, index_after-round}
use relay_proxy.Routing.Keys.{gen_request_key_lem, joined, IsLast}

abbrev no_junk : ℕ → ℕ → ℕ
no_junk a b = 0

-- Two ranges that overlap: the later one counts.
abbrev ranges : List RequestKeyConf
ranges =
    record { begin = pos 1; end = pos 200; request_key = codes "request_type" ∷ [] }
    ∷ record {
      begin = pos 100;
      end = pos 150;
      request_key = codes "bank" ∷ codes "request_type" ∷ [];
    }
    ∷ []

abbrev packet : Bytes
packet = codes "request_type=107&bank=8"

abbrev routed : Routed
routed = record { request_type = pos 107; request_key_index = 1; request_key = codes "8^107" }

gen_request_key_test : gen_request_key no_junk packet ranges ≡ ok routed
unfolding gen_request_key route find_range covers join_values value_of is_empty parse_url parse_from
    parse_nv find_char decode_url hextochar hex_value find emplace insert eqb bytes_lt atoi
    signed_value digits_value strchug is_space
gen_request_key_test = refl

unknown_type_test :
    gen_request_key no_junk (codes "request_type=200&") ranges
    ≡ throw (server_exception err_packet_error)
unfolding gen_request_key route find_range covers join_values value_of is_empty parse_url parse_from
    parse_nv find_char decode_url hextochar hex_value find emplace insert eqb bytes_lt atoi
    signed_value digits_value strchug is_space
unknown_type_test = refl

missing_key_test :
    gen_request_key no_junk (codes "request_type=107&bank=") ranges
    ≡ throw (server_exception err_packet_fmt)
unfolding gen_request_key route find_range covers join_values value_of is_empty parse_url parse_from
    parse_nv find_char decode_url hextochar hex_value find emplace insert eqb bytes_lt atoi
    signed_value digits_value strchug is_space
missing_key_test = refl

gen_request_key_lem_example :
    (routed.request_type ≡ atoi (value_of (codes "request_type") (parse_url no_junk packet)))
    × ((conf : RequestKeyConf) × IsLast routed.request_type ranges routed.request_key_index conf
        × (routed.request_key ≡ joined (parse_url no_junk packet) conf.request_key)
        × (all (λ k. not (is_empty k (parse_url no_junk packet))) conf.request_key ≡ true))
gen_request_key_lem_example = gen_request_key_lem no_junk packet ranges routed gen_request_key_test

-- Of three threads the third is not chosen: the connections 0 to 4 go to 0, 1, 0, 1 and 0.
threads_test :
    map (index_after (pos 3)) (0 ∷ 1 ∷ 2 ∷ 3 ∷ 4 ∷ []) ≡ pos 0 ∷ pos 1 ∷ pos 0 ∷ pos 1 ∷ pos 0 ∷ []
unfolding index_after choose_thread ◌+ℤ◌ ◌-ℤ◌
threads_test = refl

index_after-round_example :
    ((choose_thread (pos 3) (index_after (pos 3) 3)).0 ≡ pos 1) × (index_after (pos 3) 3 ≢ pos 2)
index_after-round_example = index_after-round 2 1 1 (omega arith) (omega arith)
