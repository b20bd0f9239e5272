-- ===== src/Access.antt =====
-- Who may ask for what: `src/access_control.cpp` (addresses and their request types) and
-- `src/service_authorize_access.cpp` (request types and their addresses).
pub mod Lines
mod Sorted
mod Examples
use relay_proxy.Base.{ℕ, zero, suc, ◌+◌, ◌-◌, ◌*◌, ◌/◌, ◌%◌, ◌^◌, ◌≤◌, ◌<◌}
use relay_proxy.Base.{◌≡◌, refl, sym, ap, ◌∙◌, ◌≢◌, ◌↔◌, ◌⊎◌, inl, inr}
use relay_proxy.Base.{Bool, true, false, not, ◌&&◌, ◌||◌, Option, none, some}
use relay_proxy.Base.{List, [], ◌∷◌, ◌++◌, map, append_assoc, append-nil, arith}
use relay_proxy.Base.{ltb, leb, ◌==◌, if◌then◌else◌, Bool-cases, Option-cases, is_some}
use relay_proxy.Base.{length, get_elem?, set, get_or, take, drop, replicate, All, all}
use relay_proxy.Base.{length-append, take-append, drop-append, length-take, All-append}
use relay_proxy.Base.{
  ℤ, pos, negsuc, pos_part, neg_part, ◌+ℤ◌, ◌-ℤ◌, ◌*ℤ◌, ◌≤ℤ◌, ◌<ℤ◌, ltb_ℤ, leb_ℤ, eqb_ℤ,
}
use relay_proxy.Base.{
  eqb_ℤ_iff, int_max, int_min, incr, incr_pos, wrap_int, wrap_int-pos, add_int, add_int_exact,
}
use relay_proxy.Base.{Bytes, codes, eqb, bytes_lt, eqb_iff, eqb_refl, ne_of_eqb}
use relay_proxy.Base.{
  Key, int_key, bytes_key, Map, find, count, insert, emplace, modify, map_values,
}
use relay_proxy.Base.{find-insert, find-insert_self, find-emplace, find-modify, find-map_values}
use relay_proxy.Base.{Code, Exception, Result, ok, throw, ◌>>=◌, ◌>>◌, Result-cases}
use relay_proxy.Base.{server_exception, invalid_access}
use relay_proxy.Text.{strstrip, strtok, split, atoi}

abbrev colon : ℕ
colon = 58

abbrev comma : ℕ
comma = 44

-- `_access_control`: the request types of an address, as the set's elements.
abbrev pub AccessControl : Type 0
AccessControl = Map Bytes (List ℤ)

-- `_get_line`, of a line that fits its buffer: the address, and the request types behind a colon.
unfoldable pub types_of : Bytes → List ℤ
types_of s = elim (strtok colon s) [
  | none ↦ []
  | some (tok, rest) ↦ map atoi (split comma 100 (strstrip tok))
]

unfoldable pub get_line : Bytes → AccessControl → AccessControl
get_line str access = elim (strtok colon str) [
  | none ↦ insert str [] access
  | some (tok, rest) ↦ insert (strstrip tok) (types_of rest) access
]

unfoldable pub contains : ℤ → List ℤ → Bool
contains t [] = false
contains t (u ∷ us) = eqb_ℤ u t || contains t us

abbrev pub denied : Result (Unit {0})
denied = throw (server_exception invalid_access)

-- `_check(ip)`
unfoldable pub check_ip : AccessControl → Bytes → Result (Unit {0})
check_ip access ip = if count ip access then ok tt else denied

abbrev is_empty_set : List ℤ → Bool
is_empty_set [] = true
is_empty_set (t ∷ ts) = false

-- `_check(ip, request_type)`
unfoldable pub check_type : AccessControl → Bytes → ℤ → Result (Unit {0})
check_type access ip request_type = elim (find ip access) [
  | none ↦ denied
  | some types ↦ if is_empty_set types || contains request_type types then ok tt else denied
]

-- `ServiceAuthorizeAccess`
pub record Authorize : Type 0 where
  pub authorized_set : Map ℤ (List Bytes)
  pub is_init : Bool

-- `std::sort`
unfoldable pub insert_sorted : Bytes → List Bytes → List Bytes
insert_sorted x [] = x ∷ []
insert_sorted x (y ∷ ys) =
    let rest = insert_sorted x ys in if bytes_lt x y then x ∷ y ∷ ys else y ∷ rest

unfoldable pub sort : List Bytes → List Bytes
sort [] = []
sort (x ∷ xs) = insert_sorted x (sort xs)

-- `std::binary_search` on a sorted range: whether the first element that is not below is the value.
unfoldable pub search_sorted : List Bytes → Bytes → Bool
search_sorted [] x = false
search_sorted (y ∷ ys) x =
    let rest = search_sorted ys x in if bytes_lt y x then rest else not (bytes_lt x y)

-- One line of `init_i`: blank lines and comments are skipped, and a line without a part throws
-- nothing but fails an assertion.
unfoldable pub add_parts : List Bytes → Map ℤ (List Bytes) → Result (Map ℤ (List Bytes))
add_parts [] m = throw Exception.assertion
add_parts (t ∷ []) m = ok (insert (atoi t) [] m)
add_parts (t ∷ ips ∷ ts) m = ok (insert (atoi t) (sort (split comma 100 ips)) m)

unfoldable pub is_skipped : Bytes → Bool
is_skipped [] = true
is_skipped (c ∷ []) = true
is_skipped (c ∷ d ∷ s) = c == 35

unfoldable pub add_line : Bytes → Map ℤ (List Bytes) → Result (Map ℤ (List Bytes))
add_line line m =
    if is_skipped (strstrip line) then ok m else add_parts (split colon 4 (strstrip line)) m

-- `init_i` of a file that can be opened.
unfoldable pub add_lines : List Bytes → Map ℤ (List Bytes) → Result (Map ℤ (List Bytes))
add_lines [] m = ok m
add_lines (line ∷ lines) m = add_line line m >>= add_lines lines

unfoldable pub init : List Bytes → Authorize → Result Authorize
init lines a =
    if a.is_init
    then ok a
    else add_lines lines a.authorized_set >>= λ m.
        ok (record { authorized_set = m; is_init = true })

unfoldable pub re_init : List Bytes → Authorize → Result Authorize
re_init lines a = init lines (record { authorized_set = []; is_init = false })

unfoldable pub authorized : Authorize → ℤ → Bytes → Bool
authorized a request_type ip =
    if not a.is_init
    then true
    else elim (find request_type a.authorized_set) [ none ↦ true | some ips ↦ search_sorted ips ip ]
