-- ===== src/HaSite/Order.antt =====
-- The walk of `set_current_idc` along the switch order of a server.
use Prim.Native.Nat.{min}
use relay_proxy.Base.{
  ℕ, zero, suc, ◌+◌, ◌-◌, ◌≤◌, ◌<◌, ◌≡◌, ◌≢◌, refl, sym, ap, ◌∙◌, Bytes, eqb_iff, none, some, List,
  [], ◌∷◌, length, get_elem?, All, find-insert, find-insert_self, bytes_key, arith, Option-cases,
  inl, inr,
}
use mathlib.Core.Path.{subst}
use relay_proxy.HaSite.{
  HaSiteInfo, HaSiteConf, lookup_site, element_after, next_of, advance, get_current_idc,
  get_next_idc, set_current_idc,
}

-- No IDC stands in the list twice.
abbrev pub Distinct : List Bytes → Type 0
Distinct [] = Unit
Distinct (x ∷ xs) = All (λ y. x ≢ y) xs × Distinct xs

All-get_elem? :
    (P : Bytes → Type 0) (xs : List Bytes) (i : ℕ) (c : Bytes)
    → All P xs
    → get_elem? xs i ≡ some c
    → P c
All-get_elem? P [] i c h e = absurd (cc e)
All-get_elem? P (x ∷ xs) zero c (h, hs) e = let q : x ≡ c = cc in subst P q h
All-get_elem? P (x ∷ xs) (suc i) c (h, hs) e = All-get_elem? P xs i c hs e

-- The element behind position `i` is the one at `i + 1`.
element_after-get_elem? :
    (xs : List Bytes) (i : ℕ) (c : Bytes)
    → Distinct xs
    → get_elem? xs i ≡ some c
    → element_after c xs ≡ get_elem? xs (suc i)
unfolding element_after
element_after-get_elem? [] i c d e = refl
element_after-get_elem? (x ∷ []) i c d e = refl
element_after-get_elem? (x ∷ y ∷ r) zero c d e = ground (arith, eqb_iff x c)
element_after-get_elem? (x ∷ y ∷ r) (suc i) c (d, ds) e = ground (
  arith,
  eqb_iff x c,
  All-get_elem? (λ z. x ≢ z) (y ∷ r) i c d e,
  element_after-get_elem? (y ∷ r) i c ds e,
)

-- `k` calls of `set_current_idc` on one record.
unfoldable pub advances : ℕ → HaSiteInfo → HaSiteInfo
advances zero info = info
advances (suc k) info = advances k (advance info)

get_elem?-lt : (xs : List Bytes) (i : ℕ) (c : Bytes) → get_elem? xs i ≡ some c → i < length xs
get_elem?-lt [] i c e = absurd (cc e)
get_elem?-lt (x ∷ xs) zero c e = omega arith
get_elem?-lt (x ∷ xs) (suc i) c e = omega (arith, get_elem?-lt xs i c e)

get_elem?-none : (xs : List Bytes) (i : ℕ) → get_elem? xs i ≡ none → length xs ≤ i
get_elem?-none [] i e = omega arith
get_elem?-none (x ∷ xs) zero e = absurd (cc e)
get_elem?-none (x ∷ xs) (suc i) e = omega (arith, get_elem?-none xs i e)

module _ (info : HaSiteInfo) (xs : List Bytes) (i : ℕ) where
  stays :
      info.switch_order_list ≡ xs
      → Distinct xs
      → get_elem? xs i ≡ some info.current_idc
      → get_elem? xs (suc i) ≡ none
      → advance info ≡ info
  unfolding advance
  stays o d e end = ground (arith, o, element_after-get_elem? xs i info.current_idc d e, end)

  moves :
      (c : Bytes)
      → info.switch_order_list ≡ xs
      → Distinct xs
      → get_elem? xs i ≡ some info.current_idc
      → get_elem? xs (suc i) ≡ some c
      → advance info ≡ record info { current_idc = c }
  unfolding advance
  moves c o d e next = ground (arith, o, element_after-get_elem? xs i info.current_idc d e, next)

advances_step : (k : ℕ) (info : HaSiteInfo) → advances (suc k) info ≡ advances k (advance info)
unfolding advances
advances_step k info = refl

advances-from :
    (k i : ℕ) (info : HaSiteInfo) (xs : List Bytes)
    → info.switch_order_list ≡ xs
    → Distinct xs
    → get_elem? xs i ≡ some info.current_idc
    → get_elem? xs (min (i + k) (length xs - 1)) ≡ some (advances k info).current_idc
advances-from zero i info xs o d e =
    let p : min (i + 0) (length xs - 1) ≡ i = omega (arith, get_elem?-lt xs i _ e) in
    rw p (unfold advances in e)
advances-from (suc k) i info xs o d e = elim (Option-cases (get_elem? xs (suc i))) [
  | inl end ↦
      let p : min (i + suc k) (length xs - 1) ≡ min (i + k) (length xs - 1) =
        omega (arith, get_elem?-none xs (suc i) end) in
      rw (p, advances_step k info, stays info xs i o d e end) (advances-from k i info xs o d e)
  | inr (c, next) ↦
      let p : min (i + suc k) (length xs - 1) ≡ min (suc i + k) (length xs - 1) = omega arith in
      rw (p, advances_step k info, moves info xs i c o d e next)
        (advances-from k (suc i) (record info { current_idc = c }) xs o d next)
]

pub advances-get_elem? :
    (info : HaSiteInfo) (i k : ℕ)
    → Distinct info.switch_order_list
    → get_elem? info.switch_order_list i ≡ some info.current_idc
    → get_elem? info.switch_order_list (min (i + k) (length info.switch_order_list - 1))
      ≡ some (advances k info).current_idc
advances-get_elem? info i k d e = advances-from k i info info.switch_order_list refl d e

-- What `set_current_idc` makes the current IDC of a server is what `get_next_idc` announced, or the
-- same as before where that was the empty text; the other servers keep theirs.
pub set_current_idc-get_next_idc :
    (conf : HaSiteConf) (server other : Bytes)
    → ((get_next_idc conf server).1 ≢ []
        → (get_current_idc (set_current_idc conf server) server).1 ≡ (get_next_idc conf server).1)
      × (next_of (lookup_site conf server) ≡ none
          → (get_current_idc (set_current_idc conf server) server).1
            ≡ (get_current_idc conf server).1)
      × (other ≢ server
          → (get_current_idc (set_current_idc conf server) other).1
            ≡ (get_current_idc conf other).1)
unfolding get_next_idc get_current_idc set_current_idc advance
set_current_idc-get_next_idc conf server other =
    let at = find-insert_self server (advance (lookup_site conf server)) conf in
    (
      λ h. ground (arith, at),
      λ h. ground (arith, at),
      λ h. ground (
        arith,
        find-insert server other (advance (lookup_site conf server)) conf,
        eqb_iff server other,
      ),
    )

-- `k` calls of `set_current_idc` for one server.
unfoldable pub set_current_idc_times : ℕ → Bytes → HaSiteConf → HaSiteConf
set_current_idc_times zero server conf = conf
set_current_idc_times (suc k) server conf =
    set_current_idc_times k server (set_current_idc conf server)

lookup_site-set_current_idc :
    (conf : HaSiteConf) (server other : Bytes)
    → (lookup_site (set_current_idc conf server) server ≡ advance (lookup_site conf server))
      × (other ≢ server → lookup_site (set_current_idc conf server) other ≡ lookup_site conf other)
unfolding set_current_idc
lookup_site-set_current_idc conf server other = (
  ground (arith, find-insert_self server (advance (lookup_site conf server)) conf),
  λ h. ground (
    arith,
    find-insert server other (advance (lookup_site conf server)) conf,
    eqb_iff server other,
  ),
)

lookup_site-times :
    (k : ℕ) (conf : HaSiteConf) (server other : Bytes)
    → (lookup_site (set_current_idc_times k server conf) server
        ≡ advances k (lookup_site conf server))
      × (other ≢ server
          → lookup_site (set_current_idc_times k server conf) other ≡ lookup_site conf other)
unfolding set_current_idc_times advances
lookup_site-times zero conf server other = (refl, λ h. refl)
lookup_site-times (suc k) conf server other =
    let rest = lookup_site-times k (set_current_idc conf server) server other in
    let here = lookup_site-set_current_idc conf server other in
    (rest.0 ∙ ap (advances k) here.0, λ h. rest.1 h ∙ here.1 h)

-- Calls of `set_current_idc` for a server walk its switch order from the current IDC on, one place
-- each, and stop at the last one, and they change no other server. No IDC stands in the order twice.
pub set_current_idc_times-get_elem? :
    (conf : HaSiteConf) (server other : Bytes) (i k : ℕ)
    → Distinct (lookup_site conf server).switch_order_list
    → get_elem? (lookup_site conf server).switch_order_list i ≡ some (get_current_idc conf server).1
    → other ≢ server
    → let order = (lookup_site conf server).switch_order_list in
      let after = set_current_idc_times k server conf in
      (get_elem? order (min (i + k) (length order - 1)) ≡ some (get_current_idc after server).1)
      × (lookup_site after other ≡ lookup_site conf other)
unfolding get_current_idc
set_current_idc_times-get_elem? conf server other i k d e h =
    let times = lookup_site-times k conf server other in
    (
      advances-get_elem? (lookup_site conf server) i k d e
          ∙ ap (λ info. some info.current_idc) (sym times.0),
      times.1 h,
    )
