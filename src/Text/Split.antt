-- ===== src/Text/Split.antt =====
-- The round trip of `join` and `split` (`base/trpc_comm_func.cpp`).
use relay_proxy.Base.{ℕ, zero, suc, ◌-◌, ◌≤◌}
use relay_proxy.Base.{◌≡◌, refl, sym, ap, ◌∙◌}
use relay_proxy.Base.{Bool, true, false, not, Option, none, some}
use relay_proxy.Base.{List, [], ◌∷◌, ◌++◌, append-nil, arith}
use relay_proxy.Base.{length, take, drop, All}
use relay_proxy.Base.{take-append}
use relay_proxy.Base.{Bytes}
use relay_proxy.Base.{int_key, bytes_key}
use relay_proxy.Url.{find_char}
use relay_proxy.Url.Params.{Free, find_char-append, drop_behind}
use relay_proxy.Text.{is_space, strchug, trim_end, last_part, split_from, split}

abbrev pub starts : Bytes → Bool
starts [] = false
starts (c ∷ s) = not (is_space c)

-- A part that `split` leaves as it is: not empty, without the delimiter, and without white space at
-- its ends.
abbrev pub IsPart : ℕ → Bytes → Type 0
IsPart d t = Free d t × (starts t ≡ true) × (trim_end t ≡ t)

unfoldable pub join : ℕ → List Bytes → Bytes
join d [] = []
join d (t ∷ []) = t
join d (t ∷ u ∷ ts) = t ++ d ∷ join d (u ∷ ts)

strchug-starts : (s t : Bytes) → starts s ≡ true → strchug (s ++ t) ≡ s ++ t
unfolding strchug
strchug-starts [] t h = cc h
strchug-starts (c ∷ s) t h = ground (arith, h)

pub find_char-Free : (d : ℕ) (s : Bytes) → Free d s → find_char d s ≡ none
unfolding find_char
find_char-Free d [] h = refl
find_char-Free d (c ∷ s) (hc, h) = ground (arith, hc, find_char-Free d s h)

last_part-IsPart : (t : Bytes) → starts t ≡ true → trim_end t ≡ t → last_part t ≡ t ∷ []
last_part-IsPart [] h e = cc h
last_part-IsPart (c ∷ s) h e = ap (λ x. x ∷ []) e

strchug-join :
    (d : ℕ) (t : Bytes) (ts : List Bytes)
    → All (IsPart d) (t ∷ ts)
    → strchug (join d (t ∷ ts)) ≡ join d (t ∷ ts)
unfolding join
strchug-join d t [] ((_, h, _), _) =
    ap strchug (sym (append-nil t)) ∙ strchug-starts t [] h ∙ append-nil t
strchug-join d t (u ∷ ts) ((_, h, _), _) = strchug-starts t (d ∷ join d (u ∷ ts)) h

-- What is left behind the first part.
rest-join :
    (d : ℕ) (t u : Bytes) (ts : List Bytes)
    → All (IsPart d) (u ∷ ts)
    → strchug (drop (suc (length t)) (t ++ d ∷ join d (u ∷ ts))) ≡ join d (u ∷ ts)
rest-join d t u ts ps = ap strchug (drop_behind d t (join d (u ∷ ts))) ∙ strchug-join d u ts ps

first-join : (d : ℕ) (t x : Bytes) → trim_end t ≡ t → trim_end (take (length t) (t ++ x)) ≡ t
first-join d t x e = ap trim_end (take-append t x) ∙ e

-- A round of the loop, with `m` more to follow, on the text `r` that is left.
abbrev round : ℕ → ℕ → Bytes → List Bytes
round d m r = elim (find_char d r) [ none ↦ last_part r | some q ↦ split_from d m q r ]

round-found :
    (d m : ℕ) (r : Bytes) (o : Option ℕ)
    → find_char d r ≡ o
    → round d m r ≡ elim o [ none ↦ last_part r | some q ↦ split_from d m q r ]
round-found d m r o e = ap (λ o. elim o [ none ↦ last_part r | some q ↦ split_from d m q r ]) e

round-join :
    (d m : ℕ) (t : Bytes) (ts : List Bytes)
    → length ts ≤ suc m
    → All (IsPart d) (t ∷ ts)
    → round d m (join d (t ∷ ts)) ≡ t ∷ ts
unfolding join split_from
round-join d m t [] h ((f, b, e), _) =
    round-found d m t none (find_char-Free d t f) ∙ last_part-IsPart t b e
round-join d zero t (u ∷ v ∷ ts) h ps = absurd (omega (arith, h))
round-join d zero t (u ∷ []) h ((f, b, e), ((g, c, k), _)) =
    round-found d zero (t ++ d ∷ u) (some (length t)) (find_char-append d t u f)
    ∙ ap (λ r. trim_end (take (length t) (t ++ d ∷ u)) ∷ last_part r)
        (rest-join d t u [] ((g, c, k), tt))
    ∙ ap (λ x. x ∷ last_part u) (first-join d t (d ∷ u) e)
    ∙ ap (λ x. t ∷ x) (last_part-IsPart u c k)
round-join d (suc m) t (u ∷ ts) h ((f, b, e), ps) =
    let tail = join d (u ∷ ts) in
    round-found d (suc m) (t ++ d ∷ tail) (some (length t)) (find_char-append d t tail f)
    ∙ ap (λ r. trim_end (take (length t) (t ++ d ∷ tail)) ∷ round d m r) (rest-join d t u ts ps)
    ∙ ap (λ x. x ∷ round d m tail) (first-join d t (d ∷ tail) e)
    ∙ ap (λ x. t ∷ x) (round-join d m u ts (omega (arith, h)) ps)

-- Parts joined with a delimiter come apart again, if there are at most one more than `max_tokens`.
-- There is a part at least, and the parts are not empty and hold no delimiter and no white space at
-- their ends.
pub split-join :
    (d n : ℕ) (t : Bytes) (ts : List Bytes)
    → 1 ≤ n
    → length ts ≤ n
    → All (IsPart d) (t ∷ ts)
    → split d n (join d (t ∷ ts)) ≡ t ∷ ts
unfolding split
split-join d n t ts lo h ps =
    ap (round d (n - 1)) (strchug-join d t ts ps)
    ∙ round-join d (n - 1) t ts (omega (arith, h, lo)) ps
