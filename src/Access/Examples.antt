-- ===== src/Access/Examples.antt =====
-- Inputs for the theorems on access, and runs of the code on them.
use relay_proxy.Base.{◌≡◌, refl}
use relay_proxy.Base.{true}
use relay_proxy.Base.{[], ◌∷◌, ◌++◌, arith}
use relay_proxy.Base.{pos}
use relay_proxy.Base.{codes, eqb, bytes_lt}
use relay_proxy.Base.{int_key, bytes_key, find, insert}
use relay_proxy.Base.{ok}
use relay_proxy.Url.{find_char}
use relay_proxy.Text.{
  is_space, strchug, strchomp, strstrip, trim_end, split, split_from, strtok, skip_char, atoi,
  signed_value, digits_value,
}
use relay_proxy.Text.Split.{join}
use relay_proxy.Access.{
  AccessControl, types_of, get_line, contains, denied, check_type, insert_sorted, sort, add_parts,
  is_skipped, add_line, add_lines, init, re_init, authorized,
}
use relay_proxy.Access.Sorted.{authorized-add_parts, among}
use relay_proxy.Access.Lines.{check_type-get_line}

abbrev access : AccessControl
access = (codes "10.0.0.1", pos 5 ∷ []) ∷ (codes "10.0.0.2", []) ∷ []

get_line_test :
    get_line (codes " 10.0.0.2 : 7 , 8 ") access
    ≡ (codes "10.0.0.1", pos 5 ∷ []) ∷ (codes "10.0.0.2", pos 7 ∷ pos 8 ∷ []) ∷ []
unfolding get_line types_of strtok skip_char find_char strstrip strchug strchomp is_space split
    split_from trim_end atoi signed_value digits_value insert eqb bytes_lt
get_line_test = refl

check_test :
    (check_type access (codes "10.0.0.1") (pos 6) ≡ denied)
    × (check_type access (codes "10.0.0.2") (pos 6) ≡ ok tt)
unfolding check_type find eqb contains
check_test = (refl, refl)

re_init_test :
    re_init (codes "# types" ∷ codes "7: b,a" ∷ []) (record { authorized_set = []; is_init = true })
    ≡ ok (record { authorized_set = (pos 7, codes "a" ∷ codes "b" ∷ []) ∷ []; is_init = true })
unfolding re_init init add_lines add_line is_skipped add_parts sort insert_sorted strstrip strchug
    strchomp is_space split split_from find_char trim_end atoi signed_value digits_value insert eqb
    bytes_lt
re_init_test = refl

check_type-get_line_example :
    check_type
      (get_line (codes "ip" ++ 58 ∷ join 44 (codes "7" ∷ codes "8" ∷ [])) access)
      (codes "ip")
      (pos 8)
    ≡ ok tt
unfolding eqb contains atoi signed_value digits_value strchug is_space trim_end strchomp
check_type-get_line_example =
    check_type-get_line (codes "ip") (codes "7") (codes "8" ∷ []) access (codes "ip") (pos 8)
      ((refl, (refl, tt)), refl, refl) (((refl, tt), refl, refl), (((refl, tt), refl, refl), tt))
      ((refl, tt), ((refl, tt), tt)) (omega arith)

authorized-add_parts_example :
    authorized
      (record { authorized_set = (pos 7, codes "a" ∷ codes "b" ∷ []) ∷ []; is_init = true })
      (pos 7)
      (codes "a")
    ≡ true
unfolding among split split_from find_char strchug strchomp trim_end is_space eqb atoi signed_value
    digits_value add_parts sort insert_sorted bytes_lt insert
authorized-add_parts_example =
    authorized-add_parts (codes "7") (codes "b,a") [] [] ((pos 7, codes "a" ∷ codes "b" ∷ []) ∷ [])
      (pos 7) (codes "a") refl
