-- ===== src/Text/Examples.antt =====
-- Inputs for the theorem on `split`, and runs of the code on them.
use relay_proxy.Base.{◌≡◌, refl}
use relay_proxy.Base.{some}
use relay_proxy.Base.{[], ◌∷◌, arith}
use relay_proxy.Base.{pos, negsuc}
use relay_proxy.Base.{codes}
use relay_proxy.Base.{int_key, bytes_key}
use relay_proxy.Url.{find_char}
use relay_proxy.Text.{
  is_space, strchug, strchomp, strstrip, trim_end, split, split_from, is_number, strtok, skip_char,
  atoi, signed_value, digits_value,
}
use relay_proxy.Text.Split.{join, split-join}

-- The second delimiter is found and no more are looked for: the rest stays in one piece.
split_test : split 44 2 (codes "  a , b,c,d ") ≡ codes "a" ∷ codes "b" ∷ codes "c,d" ∷ []
unfolding split split_from find_char strchug strchomp trim_end is_space
split_test = refl

empty_part_test : split 44 9 (codes ",a,") ≡ [] ∷ codes "a" ∷ []
unfolding split split_from find_char strchug strchomp trim_end is_space
empty_part_test = refl

strstrip_test : strstrip (codes " a b  ") ≡ codes "a b"
unfolding strstrip strchug strchomp is_space
strstrip_test = refl

is_number_test : (is_number (codes "042") ≡ pos 0) × (is_number (codes "4-2") ≡ negsuc 0)
unfolding is_number
is_number_test = (refl, refl)

strtok_test : strtok 58 (codes "::a:b") ≡ some (codes "a", codes "b")
unfolding strtok skip_char find_char
strtok_test = refl

atoi_test : (atoi (codes " 107x") ≡ pos 107) × (atoi (codes "-5") ≡ negsuc 4)
unfolding atoi signed_value digits_value strchug is_space
atoi_test = (refl, refl)

split-join_example : split 44 4 (join 44 (codes "a" ∷ codes "b" ∷ [])) ≡ codes "a" ∷ codes "b" ∷ []
unfolding trim_end strchomp is_space
split-join_example =
    split-join 44 4 (codes "a") (codes "b" ∷ []) (omega arith) (omega arith)
      (((refl, tt), refl, refl), (((refl, tt), refl, refl), tt))
