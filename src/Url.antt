-- ===== src/Url.antt =====
-- `base/trpc_url_param_map`: parameters written as `name=value&`, with the values escaped.
-- A `string::size_type` relative to the part still to be read is a number, `npos` is `none`.
mod Escape
pub mod Params
mod Examples
use relay_proxy.Base.{ℕ, zero, suc, ◌+◌, ◌-◌, ◌*◌, ◌/◌, ◌%◌, ◌^◌, ◌≤◌, ◌<◌}
use relay_proxy.Base.{◌≡◌, refl, sym, ap, ◌∙◌, ◌≢◌, ◌↔◌, ◌⊎◌, inl, inr}
use relay_proxy.Base.{Bool, true, false, not, ◌&&◌, ◌||◌, Option, none, some}
use relay_proxy.Base.{List, [], ◌∷◌, ◌++◌, map, append_assoc, append-nil, arith}
use relay_proxy.Base.{ltb, leb, ◌==◌, if◌then◌else◌, Bool-cases, Option-cases, is_some}
use relay_proxy.Base.{length, get_elem?, set, get_or, take, drop, replicate, All, all}
use relay_proxy.Base.{length-append, take-append, drop-append, length-take, All-append}
use relay_proxy.Base.{
  ℤ, pos, negsuc, pos_part, neg_part, ◌+ℤ◌, ◌-ℤ◌, ◌*ℤ◌, ◌≤ℤ◌, ◌<ℤ◌, ltb_ℤ, leb_ℤ, eqb_ℤ,
}
use relay_proxy.Base.{
  eqb_ℤ_iff, int_max, int_min, incr, incr_pos, wrap_int, wrap_int-pos, add_int, add_int_exact,
}
use relay_proxy.Base.{Bytes, codes, eqb, bytes_lt, eqb_iff, eqb_refl, ne_of_eqb}
use relay_proxy.Base.{
  Key, int_key, bytes_key, Map, find, count, insert, emplace, modify, map_values,
}
use relay_proxy.Base.{find-insert, find-insert_self, find-emplace, find-modify, find-map_values}
use relay_proxy.Base.{Code, Exception, Result, ok, throw, ◌>>=◌, ◌>>◌, Result-cases}

abbrev pub percent : ℕ
percent = 37

abbrev pub seg_del : ℕ
seg_del = 38

abbrev pub ele_del : ℕ
ele_del = 61

abbrev pub must_in_first_field : Bytes
must_in_first_field = codes "result"

abbrev within : ℕ → ℕ → ℕ → Bool
within lo hi c = leb lo c && leb c hi

-- The entries of `chTable` that are the byte itself.
unfoldable pub is_literal : ℕ → Bool
is_literal c =
    (c == 32)
    || within 40 42 c
    || within 44 46 c
    || within 48 58 c
    || within 65 93 c
    || (c == 95)
    || within 97 122 c
    || (c == 124)
    || (c == 126)

unfoldable pub hex_digit : ℕ → ℕ
hex_digit d = if ltb d 10 then 48 + d else 87 + d

unfoldable pub encode_byte : ℕ → Bytes
encode_byte c =
    if is_literal c then c ∷ [] else percent ∷ hex_digit (c / 16) ∷ hex_digit (c % 16) ∷ []

unfoldable pub encode_url : Bytes → Bytes
encode_url [] = []
encode_url (c ∷ s) = encode_byte c ++ encode_url s

-- What `%x` reads from one character.
unfoldable pub hex_value : ℕ → Option ℕ
hex_value c =
    if within 48 57 c
    then some (c - 48)
    else (if within 97 102 c
        then some (c - 87)
        else (if within 65 70 c then some (c - 55) else none))

-- `hextochar`: `sscanf` of "0x" and the two characters. Where the first is no digit, nothing is
-- stored and the value is the one of the uninitialised `val`, the parameter `junk`.
unfoldable pub hextochar : (ℕ → ℕ → ℕ) → ℕ → ℕ → ℕ
hextochar junk a b = elim (hex_value a) [
  | none ↦ junk a b
  | some x ↦ elim (hex_value b) [ none ↦ x | some y ↦ 16 * x + y ]
]

unfoldable pub decode_url : (ℕ → ℕ → ℕ) → Bytes → Bytes
decode_url junk [] = []
decode_url junk (c ∷ []) = c ∷ []
decode_url junk (c ∷ a ∷ []) = c ∷ a ∷ []
decode_url junk (c ∷ a ∷ b ∷ s) = elim (c == percent) [
  | true ↦ hextochar junk a b ∷ decode_url junk s
  | false ↦ c ∷ decode_url junk (a ∷ b ∷ s)
]

-- `string::find` of a character.
unfoldable pub find_char : ℕ → Bytes → Option ℕ
find_char c [] = none
find_char c (a ∷ s) =
    let rest = find_char c s in
    if a == c then some 0 else elim rest [ none ↦ none | some i ↦ some (suc i) ]

-- `substr(0, n)`, where `npos` takes all.
abbrev substr : Option ℕ → Bytes → Bytes
substr none s = s
substr (some n) s = take n s

abbrev no_later : ℕ → Option ℕ → Bool
no_later at none = true
no_later at (some end) = leb at end

abbrev minus : Option ℕ → ℕ → Option ℕ
minus none n = none
minus (some e) n = some (e - n)

-- `parseNV`, of the string from `beg` on.
unfoldable pub parse_nv : (ℕ → ℕ → ℕ) → Bytes → Option ℕ → Map Bytes Bytes → Map Bytes Bytes
parse_nv junk s end m = elim (find_char ele_del s) [
  | none ↦ m
  | some at ↦
      if no_later at end
      then emplace (take at s) (decode_url junk (substr (minus end (suc at)) (drop (suc at) s))) m
      else m
]

-- The loop of `parseUrl`: each round starts behind a separator, so one more than the length is
-- fuel enough (`parse_from_enough`).
unfoldable pub parse_from : (ℕ → ℕ → ℕ) → ℕ → Bytes → Map Bytes Bytes → Map Bytes Bytes
parse_from junk zero s m = m
parse_from junk (suc n) s m =
    let next = parse_nv junk s (find_char seg_del s) m in
    elim (find_char seg_del s) [ none ↦ next | some p ↦ parse_from junk n (drop (suc p) s) next ]

unfoldable pub parse_url : (ℕ → ℕ → ℕ) → Bytes → Map Bytes Bytes
parse_url junk s = parse_from junk (suc (length s)) s []

abbrev pub pack_pair : Bytes → Bytes → Bytes
pack_pair k v = k ++ ele_del ∷ (encode_url v ++ seg_del ∷ [])

unfoldable pub pack_rest : Map Bytes Bytes → Bytes
pack_rest [] = []
pack_rest ((k, v) ∷ m) =
    let rest = pack_rest m in if eqb k must_in_first_field then rest else pack_pair k v ++ rest

unfoldable pub pack_url : Map Bytes Bytes → Bytes
pack_url m = elim (find must_in_first_field m) [
  | none ↦ pack_rest m
  | some v ↦ pack_pair must_in_first_field v ++ pack_rest m
]

unfoldable pub is_empty : Bytes → Map Bytes Bytes → Bool
is_empty k m = elim (find k m) [ none ↦ true | some v ↦ length v == 0 ]
