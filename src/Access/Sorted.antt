-- ===== src/Access/Sorted.antt =====
-- Searching the sorted addresses of a request type (`src/service_authorize_access.cpp`).
use relay_proxy.Base.{◌≡◌, refl, ap, ◌∙◌, inl, inr}
use relay_proxy.Base.{Bool, true, false, ◌||◌}
use relay_proxy.Base.{List, [], ◌∷◌, arith}
use relay_proxy.Base.{if◌then◌else◌, Bool-cases}
use relay_proxy.Base.{All}
use relay_proxy.Base.{ℤ, eqb_ℤ}
use relay_proxy.Base.{Bytes, eqb, bytes_lt, eqb_iff}
use relay_proxy.Base.{int_key, bytes_key, Map}
use relay_proxy.Base.{find-insert}
use relay_proxy.Base.{ok}
use relay_proxy.Access.{Authorize, insert_sorted, sort, search_sorted, add_parts, authorized, comma}
use relay_proxy.Text.{split, atoi}

bytes_lt_irrefl : (a : Bytes) → bytes_lt a a ≡ false
unfolding bytes_lt
bytes_lt_irrefl [] = refl
bytes_lt_irrefl (x ∷ a) = ground (arith, bytes_lt_irrefl a)

bytes_lt_trans : (a b c : Bytes) → bytes_lt a b ≡ true → bytes_lt b c ≡ true → bytes_lt a c ≡ true
unfolding bytes_lt
bytes_lt_trans a b [] p q = cc q
bytes_lt_trans a [] (z ∷ c) p q = cc p
bytes_lt_trans [] (y ∷ b) (z ∷ c) p q = refl
bytes_lt_trans (x ∷ a) (y ∷ b) (z ∷ c) p q = ground (arith, p, q, bytes_lt_trans a b c)

bytes_lt_total : (a b : Bytes) → bytes_lt a b ≡ false → bytes_lt b a ≡ false → a ≡ b
unfolding bytes_lt
bytes_lt_total [] [] p q = refl
bytes_lt_total [] (y ∷ b) p q = cc p
bytes_lt_total (x ∷ a) [] p q = cc q
bytes_lt_total (x ∷ a) (y ∷ b) p q = ground (arith, p, q, bytes_lt_total a b)

unfoldable pub among : Bytes → List Bytes → Bool
among x [] = false
among x (y ∷ ys) = eqb y x || among x ys

-- No element is below `x`.
abbrev Above : Bytes → List Bytes → Type 0
Above x ys = All (λ y. bytes_lt y x ≡ false) ys

abbrev IsSorted : List Bytes → Type 0
IsSorted [] = Unit
IsSorted (x ∷ xs) = Above x xs × IsSorted xs

among-insert_sorted :
    (x z : Bytes) (ys : List Bytes) → among z (insert_sorted x ys) ≡ (eqb x z || among z ys)
unfolding among insert_sorted
among-insert_sorted x z [] = refl
among-insert_sorted x z (y ∷ ys) = ground (arith, among-insert_sorted x z ys)

among-sort : (z : Bytes) (xs : List Bytes) → among z (sort xs) ≡ among z xs
unfolding among sort
among-sort z [] = refl
among-sort z (x ∷ xs) = among-insert_sorted x z (sort xs) ∙ ap (λ b. eqb x z || b) (among-sort z xs)

Above-below : (x y : Bytes) (ys : List Bytes) → bytes_lt x y ≡ true → Above y ys → Above x ys
Above-below x y [] lt h = tt
Above-below x y (z ∷ ys) lt (hz, h) =
    (ground (arith, lt, hz, bytes_lt_trans z x y), Above-below x y ys lt h)

Above-insert_sorted :
    (w x : Bytes) (ys : List Bytes)
    → bytes_lt x w ≡ false
    → Above w ys
    → Above w (insert_sorted x ys)
unfolding insert_sorted
Above-insert_sorted w x [] hx h = (hx, tt)
Above-insert_sorted w x (y ∷ ys) hx (hy, h) = elim (Bool-cases (bytes_lt x y)) [
  | inl lt ↦ rw lt (hx, (hy, h))
  | inr ge ↦ rw ge (hy, Above-insert_sorted w x ys hx h)
]

insert_sorted-IsSorted : (x : Bytes) (ys : List Bytes) → IsSorted ys → IsSorted (insert_sorted x ys)
unfolding insert_sorted
insert_sorted-IsSorted x [] h = (tt, tt)
insert_sorted-IsSorted x (y ∷ ys) (a, h) = elim (Bool-cases (bytes_lt x y)) [
  | inl lt ↦ rw lt (
    (ground (arith, lt, bytes_lt_irrefl y, bytes_lt_trans y x y), Above-below x y ys lt a),
    (a, h),
  )
  | inr ge ↦ rw ge (Above-insert_sorted y x ys ge a, insert_sorted-IsSorted x ys h)
]

sort-IsSorted : (xs : List Bytes) → IsSorted (sort xs)
unfolding sort
sort-IsSorted [] = tt
sort-IsSorted (x ∷ xs) = insert_sorted-IsSorted x (sort xs) (sort-IsSorted xs)

among-Above :
    (x y : Bytes) (ys : List Bytes) → bytes_lt x y ≡ true → Above y ys → among x ys ≡ false
unfolding among
among-Above x y [] lt h = refl
among-Above x y (z ∷ ys) lt (hz, h) = ground (arith, lt, hz, eqb_iff z x, among-Above x y ys lt h)

search_sorted-among : (x : Bytes) (ys : List Bytes) → IsSorted ys → search_sorted ys x ≡ among x ys
unfolding search_sorted among
search_sorted-among x [] h = refl
search_sorted-among x (y ∷ ys) (a, h) = elim (Bool-cases (bytes_lt y x)) [
  | inl lt ↦ ground (arith, lt, bytes_lt_irrefl x, eqb_iff y x, search_sorted-among x ys h)
  | inr ge ↦ elim (Bool-cases (bytes_lt x y)) [
    | inl lt ↦ ground (arith, ge, lt, bytes_lt_irrefl x, eqb_iff y x, among-Above x y ys lt a)
    | inr same ↦ ground (arith, ge, same, bytes_lt_total x y same ge, eqb_iff y x)
  ]
]

abbrev loaded : Map ℤ (List Bytes) → Authorize
loaded m = record { authorized_set = m; is_init = true }

-- A line with a request type and addresses admits, for its request type, exactly the addresses
-- that it lists, however they are ordered, and changes nothing for other types.
pub authorized-add_parts :
    (t ips : Bytes) (ts : List Bytes) (m m' : Map ℤ (List Bytes)) (request_type : ℤ) (ip : Bytes)
    → add_parts (t ∷ ips ∷ ts) m ≡ ok m'
    → authorized (loaded m') request_type ip ≡ (
        if eqb_ℤ (atoi t) request_type
        then among ip (split comma 100 ips)
        else authorized (loaded m) request_type ip)
unfolding authorized add_parts
authorized-add_parts t ips ts m m' request_type ip h =
    let parts = split comma 100 ips in
    let listed = search_sorted-among ip (sort parts) (sort-IsSorted parts) ∙ among-sort ip parts in
    ground (arith, h, find-insert (atoi t) request_type (sort parts) m, listed)
