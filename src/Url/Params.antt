-- ===== src/Url/Params.antt =====
-- Packing and parsing a map of parameters (`base/trpc_url_param_map.cpp`).
use relay_proxy.Base.{ℕ, zero, suc, ◌<◌}
use relay_proxy.Base.{◌≡◌, refl, sym, ap, ◌∙◌, inl, inr}
use relay_proxy.Base.{false, Option, none, some}
use relay_proxy.Base.{[], ◌∷◌, ◌++◌, append_assoc, arith}
use relay_proxy.Base.{◌==◌, if◌then◌else◌, Bool-cases, Option-cases}
use relay_proxy.Base.{length, drop, All}
use relay_proxy.Base.{length-append, take-append, All-append}
use relay_proxy.Base.{Bytes, eqb, eqb_iff}
use relay_proxy.Base.{int_key, bytes_key, Map, find, count, emplace}
use relay_proxy.Base.{find-emplace}
use relay_proxy.Url.{seg_del, ele_del, must_in_first_field, encode_url, decode_url, find_char}
use relay_proxy.Url.{parse_nv, parse_from, parse_url, pack_pair, pack_rest, pack_url}
use relay_proxy.Url.Escape.{IsByte, decode_url-encode_url, encode_url-Free}

abbrev pub Free : ℕ → Bytes → Type 0
Free c s = All (λ a. (a == c) ≡ false) s

-- A name without separators, with a value of bytes.
abbrev IsEntry : Bytes × Bytes → Type 0
IsEntry (k, v) = Free ele_del k × Free seg_del k × All IsByte v

pub find_char-append : (c : ℕ) (s t : Bytes) → Free c s → find_char c (s ++ c ∷ t) ≡ some (length s)
unfolding find_char
find_char-append c [] t h = ground arith
find_char-append c (a ∷ s) t (ha, h) = ground (arith, ha, find_char-append c s t h)

pub drop_behind : (c : ℕ) (s t : Bytes) → drop (suc (length s)) (s ++ c ∷ t) ≡ t
drop_behind c [] t = refl
drop_behind c (a ∷ s) t = drop_behind c s t

-- The length of what a found character leaves.
find_char-drop :
    (c : ℕ) (s : Bytes) (p : ℕ) → find_char c s ≡ some p → length (drop (suc p) s) < length s
unfolding find_char
find_char-drop c [] p h = cc h
find_char-drop c (a ∷ s) p h = elim (Option-cases (find_char c s)) [
  | inl e ↦ ground (arith, e)
  | inr (i, e) ↦ ground (arith, e, find_char-drop c s i e)
]

-- One more than the length is fuel enough for the loop of `parseUrl`: with any larger amount the
-- result is the one of `parseUrl`, which started with the empty map.
pub parse_from_enough :
    (junk : ℕ → ℕ → ℕ) (n k : ℕ) (s : Bytes) (m : Map Bytes Bytes)
    → length s < n
    → length s < k
    → parse_from junk n s m ≡ parse_from junk k s m
unfolding parse_from
parse_from_enough junk zero k s m hn hk = absurd (omega (arith, hn))
parse_from_enough junk (suc n) zero s m hn hk = absurd (omega (arith, hk))
parse_from_enough junk (suc n) (suc k) s m hn hk = elim (Option-cases (find_char seg_del s)) [
  | inl e ↦ ground (arith, e)
  | inr (p, e) ↦ ground (
    arith,
    e,
    parse_from_enough junk n k (drop (suc p) s) (parse_nv junk s (some p) m)
        (omega (arith, hn, find_char-drop seg_del s p e))
        (omega (arith, hk, find_char-drop seg_del s p e)),
  )
]

parse_nv-pair :
    (junk : ℕ → ℕ → ℕ) (k e t : Bytes) (m : Map Bytes Bytes)
    → Free ele_del k
    → parse_nv junk (k ++ ele_del ∷ (e ++ t)) (some (length (k ++ ele_del ∷ e))) m
      ≡ emplace k (decode_url junk e) m
unfolding parse_nv
parse_nv-pair junk k e t m h = ground (
  arith,
  find_char-append ele_del k (e ++ t) h,
  length-append k (ele_del ∷ e),
  take-append e t,
  take-append k (ele_del ∷ (e ++ t)),
  drop_behind ele_del k (e ++ t),
)

parse_from-pair :
    (junk : ℕ → ℕ → ℕ) (n : ℕ) (k e s : Bytes) (m : Map Bytes Bytes)
    → Free ele_del k
    → Free seg_del (k ++ ele_del ∷ e)
    → parse_from junk (suc n) (k ++ ele_del ∷ (e ++ seg_del ∷ s)) m
      ≡ parse_from junk n s (emplace k (decode_url junk e) m)
unfolding parse_from
parse_from-pair junk n k e s m h f =
    let regroup = sym (append_assoc k (ele_del ∷ e) (seg_del ∷ s)) in
    ground (
      arith,
      ap (find_char seg_del) regroup,
      find_char-append seg_del (k ++ ele_del ∷ e) s f,
      ap (drop (suc (length (k ++ ele_del ∷ e)))) regroup,
      drop_behind seg_del (k ++ ele_del ∷ e) s,
      parse_nv-pair junk k e (seg_del ∷ s) m h,
    )

parse_from-pack_pair :
    (junk : ℕ → ℕ → ℕ) (n : ℕ) (k v s : Bytes) (m : Map Bytes Bytes)
    → IsEntry (k, v)
    → parse_from junk (suc n) (pack_pair k v ++ s) m ≡ parse_from junk n s (emplace k v m)
parse_from-pack_pair junk n k v s m (he, hs, hv) =
    ap (λ x. parse_from junk (suc n) x m)
      (append_assoc k (ele_del ∷ (encode_url v ++ seg_del ∷ [])) s
        ∙ ap (λ x. k ++ ele_del ∷ x) (append_assoc (encode_url v) (seg_del ∷ []) s))
    ∙ parse_from-pair junk n k (encode_url v) s m he
        (All-append _ k _ hs (refl, encode_url-Free v hv))
    ∙ ap (λ x. parse_from junk n s (emplace k x m)) (decode_url-encode_url junk v hv)

parse_from-nil : (junk : ℕ → ℕ → ℕ) (n : ℕ) (m : Map Bytes Bytes) → parse_from junk (suc n) [] m ≡ m
unfolding parse_from parse_nv find_char
parse_from-nil junk n m = refl

length-pack_pair : (k v s : Bytes) → length s < length (pack_pair k v ++ s)
length-pack_pair k v s = omega (
  arith,
  length-append k (ele_del ∷ (encode_url v ++ seg_del ∷ [])),
  length-append (pack_pair k v) s,
)

abbrev seen_first : Bytes → Map Bytes Bytes → Map Bytes Bytes → Option Bytes
seen_first k m acc =
    if count k acc then find k acc else (if eqb k must_in_first_field then none else find k m)

find-parse_from-pack_rest :
    (junk : ℕ → ℕ → ℕ) (n : ℕ) (k : Bytes) (m acc : Map Bytes Bytes)
    → All IsEntry m
    → length (pack_rest m) < n
    → find k (parse_from junk n (pack_rest m) acc) ≡ seen_first k m acc
unfolding find pack_rest
find-parse_from-pack_rest junk zero k m acc h hn = absurd (omega (arith, hn))
find-parse_from-pack_rest junk (suc n) k [] acc h hn = ground (arith, parse_from-nil junk n acc)
find-parse_from-pack_rest junk (suc n) k ((j, v) ∷ m) acc (hj, h) hn =
    elim (Bool-cases (eqb j must_in_first_field)) [
      | inl e ↦ ground (arith, e, hn, eqb_iff j k, find-parse_from-pack_rest junk (suc n) k m acc h)
      | inr e ↦ ground (
        arith,
        e,
        hn,
        eqb_iff j k,
        parse_from-pack_pair junk n j v (pack_rest m) acc hj,
        length-pack_pair j v (pack_rest m),
        find-emplace j k v acc,
        find-parse_from-pack_rest junk n k m (emplace j v acc) h,
      )
    ]

some_inj : (v w : Bytes) → some v ≡ some w → v ≡ w
some_inj v w e = cc e

find-IsByte : (k v : Bytes) (m : Map Bytes Bytes) → All IsEntry m → find k m ≡ some v → All IsByte v
unfolding find
find-IsByte k v [] h e = cc e
find-IsByte k v ((j, w) ∷ m) ((_, _, hw), h) e = elim (Bool-cases (eqb j k)) [
  | inl b ↦ rw (sym (some_inj w v (simp b at e))) hw
  | inr b ↦ find-IsByte k v m h (simp b at e)
]

first-IsEntry : (v : Bytes) → All IsByte v → IsEntry (must_in_first_field, v)
first-IsEntry v h = (
  (refl, (refl, (refl, (refl, (refl, (refl, tt)))))),
  (refl, (refl, (refl, (refl, (refl, (refl, tt)))))),
  h,
)

-- Parsing the packed form of a map gives, at every name, the value that the map holds there, and
-- nothing at the other names. The names of the map hold no separator and its values are bytes; an
-- uninitialised `val` of `hextochar` may hold anything.
pub find-parse_url-pack_url :
    (junk : ℕ → ℕ → ℕ) (k : Bytes) (m : Map Bytes Bytes)
    → All IsEntry m
    → find k (parse_url junk (pack_url m)) ≡ find k m
unfolding parse_url pack_url find
find-parse_url-pack_url junk k m h = elim (Option-cases (find must_in_first_field m)) [
  | inl e ↦ ground (
    arith,
    e,
    eqb_iff k must_in_first_field,
    find-parse_from-pack_rest junk (suc (length (pack_rest m))) k m [] h,
  )
  | inr (v, e) ↦
      let fuel = length (pack_pair must_in_first_field v ++ pack_rest m) in
      let first = find-IsByte must_in_first_field v m h e in
      ground (
        arith,
        e,
        eqb_iff k must_in_first_field,
        eqb_iff must_in_first_field k,
        parse_from-pack_pair junk fuel must_in_first_field v (pack_rest m) []
            (first-IsEntry v first),
        find-parse_from-pack_rest junk fuel k m (emplace must_in_first_field v []) h
            (length-pack_pair must_in_first_field v (pack_rest m)),
        find-emplace must_in_first_field k v [],
      )
]
