-- ===== src/Package.antt =====
-- `api/trpc_package`: the packages of the middle protocol. An `int` field is its 32 bits, and what
-- the buffer holds where `Encode` writes nothing, the reserved part, is an argument.
mod RoundTrip
mod Examples
use relay_proxy.Base.{ℕ, zero, suc, ◌+◌, ◌-◌, ◌*◌, ◌/◌, ◌%◌, ◌^◌, ◌≤◌, ◌<◌}
use relay_proxy.Base.{◌≡◌, refl, sym, ap, ◌∙◌, ◌≢◌, ◌↔◌, ◌⊎◌, inl, inr}
use relay_proxy.Base.{Bool, true, false, not, ◌&&◌, ◌||◌, Option, none, some}
use relay_proxy.Base.{List, [], ◌∷◌, ◌++◌, map, append_assoc, append-nil, arith}
use relay_proxy.Base.{ltb, leb, ◌==◌, if◌then◌else◌, Bool-cases, Option-cases, is_some}
use relay_proxy.Base.{length, get_elem?, set, get_or, take, drop, replicate, All, all}
use relay_proxy.Base.{length-append, take-append, drop-append, length-take, All-append}
use relay_proxy.Base.{
  ℤ, pos, negsuc, pos_part, neg_part, ◌+ℤ◌, ◌-ℤ◌, ◌*ℤ◌, ◌≤ℤ◌, ◌<ℤ◌, ltb_ℤ, leb_ℤ, eqb_ℤ,
}
use relay_proxy.Base.{
  eqb_ℤ_iff, int_max, int_min, incr, incr_pos, wrap_int, wrap_int-pos, add_int, add_int_exact,
}
use relay_proxy.Base.{Bytes, codes, eqb, bytes_lt, eqb_iff, eqb_refl, ne_of_eqb}
use relay_proxy.Base.{
  Key, int_key, bytes_key, Map, find, count, insert, emplace, modify, map_values,
}
use relay_proxy.Base.{find-insert, find-insert_self, find-emplace, find-modify, find-map_values}
use relay_proxy.Base.{Code, Exception, Result, ok, throw, ◌>>=◌, ◌>>◌, Result-cases}

abbrev pub stx : ℕ
stx = 2

abbrev etx : ℕ
etx = 3

-- The offset of `sData`, and the size of a package without data: the head and the end mark.
abbrev data_offset : ℕ
data_offset = 89

abbrev min_pack_size : ℕ
min_pack_size = 90

-- `Trpc_Package_T`, with the data that `sData` points to.
pub record Package : Type 0 where
  pub len : ℕ
  pub version : ℕ
  pub seq_no : ℕ
  pub msg_type : ℕ
  pub service_name : Bytes
  pub result : ℕ
  pub data_len : ℕ
  pub content : Bytes

-- `SetServiceName` with a C string.
unfoldable pub set_service_name : Bytes → Package → Package
set_service_name s p = record p { service_name = take 31 s }

-- `TRPC_PUT_INT32` and `TRPC_GET_INT32`: network byte order.
unfoldable pub put_int32 : ℕ → Bytes
put_int32 n = n / 16777216 % 256 ∷ n / 65536 % 256 ∷ n / 256 % 256 ∷ n % 256 ∷ []

unfoldable pub get_int32 : Bytes → ℕ
get_int32 s = 16777216 * get_or s 0 0 + 65536 * get_or s 1 0 + 256 * get_or s 2 0 + get_or s 3 0

-- `strncpy` of a C string into 32 bytes, and the C string in 31 bytes.
unfoldable pub put_str : Bytes → Bytes
put_str s = take 32 (s ++ replicate 32 0)

unfoldable pub c_string : Bytes → Bytes
c_string [] = []
c_string (c ∷ s) = let rest = c_string s in if c == 0 then [] else c ∷ rest

unfoldable pub get_str : Bytes → Bytes
get_str s = c_string (take 31 s)

-- `Encode`: the package with its length, and the buffer, or an error for -1.
unfoldable pub encode : (reserve : Bytes) → Package → (max : ℕ) → Option (Package × Bytes)
encode reserve p max =
    let p' : Package = record p { len = p.data_len + min_pack_size } in
    if ltb max p'.len
    then none
    else some (
      p',
      stx
          ∷ (put_int32 p'.len
              ++ (put_int32 p.version
                  ++ (put_int32 p.seq_no
                      ++ (put_int32 p.msg_type
                          ++ (put_str p.service_name
                              ++ (put_int32 p.result
                                  ++ (reserve
                                      ++ (put_int32 p.data_len
                                          ++ (take p.data_len p.content ++ etx ∷ []))))))))),
    )

-- `Decode` of a buffer of its whole length. The lengths are compared as the bits of two `int`s.
unfoldable pub decode : Bytes → Option Package
decode buf =
    let data_len = get_int32 (drop 85 buf) in
    if data_len == (length buf + (4294967296 - min_pack_size)) % 2 ^ 32
    then some (record {
      len = get_int32 (drop 1 buf);
      version = get_int32 (drop 5 buf);
      seq_no = get_int32 (drop 9 buf);
      msg_type = get_int32 (drop 13 buf);
      service_name = get_str (drop 17 buf);
      result = get_int32 (drop 49 buf);
      data_len = data_len;
      content = take data_len (drop data_offset buf);
    })
    else none
