-- ===== src/Url/Examples.antt =====
-- Inputs for the theorems on URL parameters, and runs of the code on them.
use relay_proxy.Base.{ℕ}
use relay_proxy.Base.{◌≡◌, refl}
use relay_proxy.Base.{true}
use relay_proxy.Base.{[], ◌∷◌, arith}
use relay_proxy.Base.{Bytes, codes, eqb, bytes_lt}
use relay_proxy.Base.{int_key, bytes_key, Map, find, insert, emplace}
use relay_proxy.Url.{
  encode_url, decode_url, pack_url, parse_url, parse_from, pack_rest, is_literal, hex_digit,
  encode_byte, hex_value, hextochar, find_char, parse_nv, is_empty,
}
use relay_proxy.Url.Params.{parse_from_enough, find-parse_url-pack_url}

abbrev no_junk : ℕ → ℕ → ℕ
no_junk a b = 0

abbrev params : Map Bytes Bytes
params = (codes "a", codes "x=1&%") ∷ (codes "result", codes "0") ∷ (codes "uin", []) ∷ []

pack_url_test : pack_url params ≡ codes "result=0&a=x%3d1%26%25&uin=&"
unfolding pack_url pack_rest encode_url encode_byte is_literal hex_digit find eqb
pack_url_test = refl

-- A part without `=` and a second value of a name are passed over.
parse_url_test :
    parse_url no_junk (codes "a=%4A+&b&a=2&c==%3")
    ≡ (codes "a", codes "J+") ∷ (codes "c", codes "=%3") ∷ []
unfolding parse_url parse_from parse_nv find_char decode_url hextochar hex_value emplace find insert
    eqb bytes_lt
parse_url_test = refl

is_empty_test : is_empty (codes "uin") params ≡ true
unfolding is_empty find eqb
is_empty_test = refl

parse_from_enough_example :
    parse_from no_junk 4 (codes "a=1") [] ≡ parse_from no_junk 9 (codes "a=1") []
parse_from_enough_example =
    parse_from_enough no_junk 4 9 (codes "a=1") [] (omega arith) (omega arith)

find-parse_url-pack_url_example :
    find (codes "a") (parse_url no_junk (pack_url ((codes "a", codes "&") ∷ [])))
    ≡ find (codes "a") ((codes "a", codes "&") ∷ [])
find-parse_url-pack_url_example =
    find-parse_url-pack_url no_junk (codes "a") ((codes "a", codes "&") ∷ [])
      (((refl, tt), (refl, tt), (omega arith, tt)), tt)
