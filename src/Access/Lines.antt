-- ===== src/Access/Lines.antt =====
-- A line of the access file, and what it admits (`src/access_control.cpp`).
use relay_proxy.Base.{ℕ, ◌≤◌}
use relay_proxy.Base.{◌≡◌, refl, ap, ◌∙◌}
use relay_proxy.Base.{true, false, not, none, some}
use relay_proxy.Base.{List, [], ◌∷◌, ◌++◌, map, append-nil, arith}
use relay_proxy.Base.{◌==◌, if◌then◌else◌}
use relay_proxy.Base.{length, All}
use relay_proxy.Base.{length-append, take-append, All-append}
use relay_proxy.Base.{ℤ}
use relay_proxy.Base.{Bytes, eqb}
use relay_proxy.Base.{int_key, bytes_key, insert}
use relay_proxy.Base.{find-insert}
use relay_proxy.Base.{ok}
use relay_proxy.Url.Params.{Free, find_char-append, drop_behind}
use relay_proxy.Text.{
  strstrip, strchug, strchomp, is_space, trim_end, strtok, skip_char, split, atoi,
}
use relay_proxy.Text.Split.{IsPart, join, split-join, starts, find_char-Free}
use relay_proxy.Access.{
  colon, comma, AccessControl, types_of, get_line, contains, denied, check_type,
}

-- A text that `strstrip` leaves as it is.
abbrev pub IsStripped : Bytes → Type 0
IsStripped s = (starts s ≡ true) × (strchomp s ≡ s)

pub strstrip-IsStripped : (s : Bytes) → IsStripped s → strstrip s ≡ s
unfolding strstrip strchug
strstrip-IsStripped [] (b, e) = cc b
strstrip-IsStripped (c ∷ s) (b, e) = ap strchomp (first c s b) ∙ e
  where
    first : (c : ℕ) (s : Bytes) → not (is_space c) ≡ true → strchug (c ∷ s) ≡ c ∷ s
    first c s b = ground (arith, b)

pub IsPart-IsStripped : (d : ℕ) (t : Bytes) → IsPart d t → IsStripped t
unfolding trim_end strchomp
IsPart-IsStripped d [] (_, b, e) = cc b
IsPart-IsStripped d (c ∷ s) (_, b, e) = (b, ground (arith, b, e))

starts-length : (s : Bytes) → starts s ≡ true → 1 ≤ length s
starts-length [] h = cc h
starts-length (c ∷ s) h = omega arith

strchomp-cons : (c : ℕ) (s : Bytes) → strchomp s ≡ s → 1 ≤ length s → strchomp (c ∷ s) ≡ c ∷ s
unfolding strchomp
strchomp-cons c [] e h = absurd (omega (arith, h))
strchomp-cons c (y ∷ s) e h = ground (arith, e)

starts-append : (s t : Bytes) → starts s ≡ true → starts (s ++ t) ≡ true
starts-append [] t h = cc h
starts-append (c ∷ s) t h = h

strchomp-append : (a b : Bytes) → strchomp b ≡ b → starts b ≡ true → strchomp (a ++ b) ≡ a ++ b
strchomp-append [] b e h = e
strchomp-append (c ∷ a) b e h =
    strchomp-cons c (a ++ b) (strchomp-append a b e h)
      (omega (arith, length-append a b, starts-length b h))

pub join-IsStripped :
    (d : ℕ) (t : Bytes) (ts : List Bytes)
    → is_space d ≡ false
    → All (IsPart d) (t ∷ ts)
    → IsStripped (join d (t ∷ ts))
unfolding join
join-IsStripped d t [] sp (p, _) = IsPart-IsStripped d t p
join-IsStripped d t (u ∷ ts) sp ((f, b, e), ps) =
    let (c, k) = join-IsStripped d u ts sp ps in
    (
      starts-append t (d ∷ join d (u ∷ ts)) b,
      strchomp-append t (d ∷ join d (u ∷ ts))
          (strchomp-cons d (join d (u ∷ ts)) k (starts-length (join d (u ∷ ts)) c))
          (ground (arith, sp)),
    )

join-Free :
    (c d : ℕ) (t : Bytes) (ts : List Bytes)
    → (d == c) ≡ false
    → All (Free c) (t ∷ ts)
    → Free c (join d (t ∷ ts))
unfolding join
join-Free c d t [] ne (f, _) = f
join-Free c d t (u ∷ ts) ne (f, fs) =
    All-append _ t (d ∷ join d (u ∷ ts)) f (ne, join-Free c d u ts ne fs)

skip_char-Free : (d : ℕ) (s t : Bytes) → Free d s → starts s ≡ true → skip_char d (s ++ t) ≡ s ++ t
unfolding skip_char
skip_char-Free d [] t f b = cc b
skip_char-Free d (c ∷ s) t (f, _) b = ground (arith, f)

-- `strtok_r` on a first token with the separator behind it, and on a last token.
pub strtok-found :
    (d : ℕ) (s t : Bytes) → Free d s → starts s ≡ true → strtok d (s ++ d ∷ t) ≡ some (s, t)
unfolding strtok
strtok-found d [] t f b = cc b
strtok-found d (c ∷ s) t f b = ground (
  arith,
  skip_char-Free d (c ∷ s) (d ∷ t) f b,
  find_char-append d (c ∷ s) t f,
  take-append (c ∷ s) (d ∷ t),
  drop_behind d (c ∷ s) t,
)

pub strtok-last : (d : ℕ) (s : Bytes) → Free d s → starts s ≡ true → strtok d s ≡ some (s, [])
unfolding strtok
strtok-last d [] f b = cc b
strtok-last d (c ∷ s) f b = ground (
  arith,
  ap (skip_char d) (append-nil (c ∷ s)),
  skip_char-Free d (c ∷ s) [] f b,
  append-nil (c ∷ s),
  find_char-Free d (c ∷ s) f,
)

types_of-strtok :
    (s tok rest : Bytes)
    → strtok colon s ≡ some (tok, rest)
    → types_of s ≡ map atoi (split comma 100 (strstrip tok))
unfolding types_of
types_of-strtok s tok rest e =
    ap (λ o. elim o [ none ↦ [] | some (tok, rest) ↦ map atoi (split comma 100 (strstrip tok)) ]) e

get_line-strtok :
    (s tok rest : Bytes) (access : AccessControl)
    → strtok colon s ≡ some (tok, rest)
    → get_line s access ≡ insert (strstrip tok) (types_of rest) access
unfolding get_line
get_line-strtok s tok rest access e =
    ap
      (λ o. elim o [
        | none ↦ insert s [] access
        | some (tok, rest) ↦ insert (strstrip tok) (types_of rest) access
      ])
      e

types_of-join :
    (t : Bytes) (ts : List Bytes)
    → All (IsPart comma) (t ∷ ts)
    → All (Free colon) (t ∷ ts)
    → length ts ≤ 100
    → types_of (join comma (t ∷ ts)) ≡ map atoi (t ∷ ts)
unfolding is_space
types_of-join t ts ps fs h =
    let whole = join-IsStripped comma t ts refl ps in
    let cut =
      strtok-last colon (join comma (t ∷ ts)) (join-Free colon comma t ts refl fs) whole.0 in
    types_of-strtok (join comma (t ∷ ts)) (join comma (t ∷ ts)) [] cut
    ∙ (ap (λ s. map atoi (split comma 100 s)) (strstrip-IsStripped (join comma (t ∷ ts)) whole)
        ∙ ap (map atoi) (split-join comma 100 t ts (omega arith) h ps))

-- A line `ip:type,...,type` lets the address ask for exactly the request types that it lists,
-- whatever an earlier line said of the address, and changes nothing for other addresses. The address
-- and the types have no white space at their ends and hold no separator, and there are from 1 to 101
-- types.
pub check_type-get_line :
    (ip t : Bytes) (ts : List Bytes) (access : AccessControl) (other : Bytes) (request_type : ℤ)
    → IsPart colon ip
    → All (IsPart comma) (t ∷ ts)
    → All (Free colon) (t ∷ ts)
    → length ts ≤ 100
    → check_type (get_line (ip ++ colon ∷ join comma (t ∷ ts)) access) other request_type ≡ (
        if eqb ip other
        then if contains request_type (map atoi (t ∷ ts)) then ok tt else denied
        else check_type access other request_type)
unfolding check_type
check_type-get_line ip t ts access other request_type (f, b, e) ps fs h =
    let cut = strtok-found colon ip (join comma (t ∷ ts)) f b in
    let name = strstrip-IsStripped ip (IsPart-IsStripped colon ip (f, b, e)) in
    let line =
      get_line-strtok (ip ++ colon ∷ join comma (t ∷ ts)) ip (join comma (t ∷ ts)) access cut
      ∙ ap (λ k. insert k (types_of (join comma (t ∷ ts))) access) name
      ∙ ap (λ us. insert ip us access) (types_of-join t ts ps fs h) in
    ap (λ a. check_type a other request_type) line
    ∙ ground (arith, find-insert ip other (map atoi (t ∷ ts)) access)
