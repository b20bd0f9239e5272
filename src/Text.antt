-- ===== src/Text.antt =====
-- `base/trpc_comm_func.cpp`: white space and `split`; `strtok_r` and `atoi`, which the readers of
-- lines use with them. A delimiter is one byte, as in all calls of `split`.
pub mod Split
mod Examples
use relay_proxy.Base.{ℕ, zero, suc, ◌+◌, ◌-◌, ◌*◌, ◌/◌, ◌%◌, ◌^◌, ◌≤◌, ◌<◌}
use relay_proxy.Base.{◌≡◌, refl, sym, ap, ◌∙◌, ◌≢◌, ◌↔◌, ◌⊎◌, inl, inr}
use relay_proxy.Base.{Bool, true, false, not, ◌&&◌, ◌||◌, Option, none, some}
use relay_proxy.Base.{List, [], ◌∷◌, ◌++◌, map, append_assoc, append-nil, arith}
use relay_proxy.Base.{ltb, leb, ◌==◌, if◌then◌else◌, Bool-cases, Option-cases, is_some}
use relay_proxy.Base.{length, get_elem?, set, get_or, take, drop, replicate, All, all}
use relay_proxy.Base.{length-append, take-append, drop-append, length-take, All-append}
use relay_proxy.Base.{
  ℤ, pos, negsuc, pos_part, neg_part, ◌+ℤ◌, ◌-ℤ◌, ◌*ℤ◌, ◌≤ℤ◌, ◌<ℤ◌, ltb_ℤ, leb_ℤ, eqb_ℤ,
}
use relay_proxy.Base.{
  eqb_ℤ_iff, int_max, int_min, incr, incr_pos, wrap_int, wrap_int-pos, add_int, add_int_exact,
}
use relay_proxy.Base.{Bytes, codes, eqb, bytes_lt, eqb_iff, eqb_refl, ne_of_eqb}
use relay_proxy.Base.{
  Key, int_key, bytes_key, Map, find, count, insert, emplace, modify, map_values,
}
use relay_proxy.Base.{find-insert, find-insert_self, find-emplace, find-modify, find-map_values}
use relay_proxy.Base.{Code, Exception, Result, ok, throw, ◌>>=◌, ◌>>◌, Result-cases}
use relay_proxy.Url.{find_char}

-- `isspace`
unfoldable pub is_space : ℕ → Bool
is_space c = (c == 32) || (leb 9 c && leb c 13)

unfoldable pub strchug : Bytes → Bytes
strchug [] = []
strchug (c ∷ s) = let rest = strchug s in if is_space c then rest else c ∷ s

abbrev is_nil : Bytes → Bool
is_nil [] = true
is_nil (c ∷ s) = false

unfoldable pub strchomp : Bytes → Bytes
strchomp [] = []
strchomp (c ∷ s) = let rest = strchomp s in if is_space c && is_nil rest then [] else c ∷ rest

unfoldable pub strstrip : Bytes → Bytes
strstrip s = strchomp (strchug s)

-- The space behind a part of `split` is cut, but its first byte stays.
unfoldable pub trim_end : Bytes → Bytes
trim_end [] = []
trim_end (c ∷ s) = c ∷ strchomp s

abbrev last_part : Bytes → List Bytes
last_part [] = []
last_part (c ∷ s) = trim_end (c ∷ s) ∷ []

-- The loop of `split`, where `n` more rounds may follow and the delimiter stands at `p`.
unfoldable pub split_from : ℕ → ℕ → ℕ → Bytes → List Bytes
split_from d zero p s = trim_end (take p s) ∷ last_part (strchug (drop (suc p) s))
split_from d (suc m) p s = trim_end (take p s) ∷ elim (find_char d (strchug (drop (suc p) s))) [
  | none ↦ last_part (strchug (drop (suc p) s))
  | some q ↦ split_from d m q (strchug (drop (suc p) s))
]

-- `split(s, d, max_tokens, data)`; `max_tokens` is positive in all calls.
unfoldable pub split : ℕ → ℕ → Bytes → List Bytes
split d max_tokens s = elim (find_char d (strchug s)) [
  | none ↦ last_part (strchug s)
  | some p ↦ split_from d (max_tokens - 1) p (strchug s)
]

-- `is_number`: 0 or -1.
unfoldable pub is_number : Bytes → ℤ
is_number [] = pos 0
is_number (c ∷ s) = let rest = is_number s in if leb 48 c && leb c 57 then rest else negsuc 0

-- `strtok_r` with one separator: the token, and the text that the next call starts with.
unfoldable pub skip_char : ℕ → Bytes → Bytes
skip_char d [] = []
skip_char d (c ∷ s) = let rest = skip_char d s in if c == d then rest else c ∷ s

unfoldable pub strtok : ℕ → Bytes → Option (Bytes × Bytes)
strtok d s = elim (skip_char d s) [
  | [] ↦ none
  | c ∷ t ↦ elim (find_char d (c ∷ t)) [
    | none ↦ some (c ∷ t, [])
    | some p ↦ some (take p (c ∷ t), drop (suc p) (c ∷ t))
  ]
]

-- `atoi`: white space, a sign and digits. The value of a number beyond an `int` is left exact.
unfoldable pub digits_value : ℕ → Bytes → ℕ
digits_value acc [] = acc
digits_value acc (c ∷ s) =
    let rest = digits_value (10 * acc + (c - 48)) s in if leb 48 c && leb c 57 then rest else acc

abbrev negate : ℕ → ℤ
negate zero = pos 0
negate (suc n) = negsuc n

unfoldable pub signed_value : Bytes → ℤ
signed_value [] = pos 0
signed_value (c ∷ s) =
    if c == 45
    then negate (digits_value 0 s)
    else (if c == 43 then pos (digits_value 0 s) else pos (digits_value 0 (c ∷ s)))

unfoldable pub atoi : Bytes → ℤ
atoi s = signed_value (strchug s)
