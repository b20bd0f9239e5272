-- ===== src/Pool/Leases.antt =====
-- Which connections are handed out: counted over both pools, by the identity of the connection.
use relay_proxy.Base.{
  ℕ, suc, ◌%◌, ◌^◌, not, ◌+◌, ◌≤◌, ◌≡◌, refl, sym, ◌∙◌, Bool, true, ◌&&◌, ◌==◌, if◌then◌else◌,
  Option, none, some, [], ◌∷◌, ◌++◌, length, arith, Bool-cases, inl, inr,
}
use relay_proxy.Pool.{
  ApiPool, Entries, current, old, with_current, with_old, delete_free, switch_complete, clean, Pick,
  behind, null_entry, no_free, picked, pick, is_ongoing, begin_switch,
}
use relay_proxy.Api.{Api, set_used, fini}

-- 1 for an entry that is the connection `j`.
abbrev is_api : ℕ → Option Api → ℕ
is_api j none = 0
is_api j (some a) = if a.id == j then 1 else 0

-- 1 for an entry that is the connection `j` in use.
abbrev is_lease : ℕ → Option Api → ℕ
is_lease j none = 0
is_lease j (some a) = if a.id == j && a.is_used then 1 else 0

-- How often `j` stands in a vector, and how often it stands there in use.
unfoldable pub count_api : ℕ → Entries → ℕ
count_api j [] = 0
count_api j (e ∷ es) = is_api j e + count_api j es

unfoldable pub count_lease : ℕ → Entries → ℕ
count_lease j [] = 0
count_lease j (e ∷ es) = is_lease j e + count_lease j es

unfoldable pub apis : ℕ → ApiPool → ℕ
apis j p = count_api j (current p) + count_api j (old p)

unfoldable pub leases : ℕ → ApiPool → ℕ
leases j p = count_lease j (current p) + count_lease j (old p)

count_lease-nil : (j : ℕ) → (count_lease j [] ≡ 0) × (count_api j [] ≡ 0)
unfolding count_lease count_api
count_lease-nil j = (refl, refl)

pub count_lease-le : (j : ℕ) (es : Entries) → count_lease j es ≤ count_api j es
unfolding count_lease count_api
count_lease-le j [] = omega arith
count_lease-le j (none ∷ es) = omega (arith, count_lease-le j es)
count_lease-le j (some a ∷ es) = ground (arith, count_lease-le j es)

pub count_append :
    (j : ℕ) (es fs : Entries)
    → (count_api j (es ++ fs) ≡ count_api j es + count_api j fs)
      × (count_lease j (es ++ fs) ≡ count_lease j es + count_lease j fs)
unfolding count_lease count_api
count_append j [] fs = omega arith
count_append j (e ∷ es) fs = omega (arith, count_append j es fs)

-- Deleting the free connections loses none that is in use.
count-delete_free :
    (j : ℕ) (es : Entries)
    → (count_lease j (delete_free es) ≡ count_lease j es)
      × (count_api j (delete_free es) ≤ count_api j es)
unfolding count_lease count_api delete_free
count-delete_free j [] = omega arith
count-delete_free j (none ∷ es) = omega (arith, count-delete_free j es)
count-delete_free j (some a ∷ es) = ground (arith, count-delete_free j es)

count_lease-switch_complete :
    (j : ℕ) (es : Entries) → switch_complete es ≡ true → count_lease j es ≡ 0
unfolding count_lease switch_complete
count_lease-switch_complete j [] h = refl
count_lease-switch_complete j (none ∷ es) h = omega (arith, count_lease-switch_complete j es h)
count_lease-switch_complete j (some a ∷ es) h = ground (arith, count_lease-switch_complete j es)

-- The vectors of a pool after a write to one of them.
pub current-with_current :
    (xs : Entries) (p : ApiPool)
    → (current (with_current xs p) ≡ xs) × (old (with_current xs p) ≡ old p)
unfolding current old with_current
current-with_current xs p = ground arith

current-with_old :
    (xs : Entries) (p : ApiPool)
    → (current (with_old xs p) ≡ current p) × (old (with_old xs p) ≡ xs)
unfolding current old with_old
current-with_old xs p = ground arith

pub current-begin_switch :
    (p : ApiPool) → (current (begin_switch p) ≡ old p) × (old (begin_switch p) ≡ current p)
unfolding current old begin_switch
current-begin_switch p = ground (arith, parity p.switch_factor)
  where
    parity : (n : ℕ) → (suc n % 2 ^ 32 % 2 == 0) ≡ not (n % 2 == 0)
    parity n = ground arith

-- What the clean-up leaves in the old pool.
abbrev cleaned : ApiPool → Entries
cleaned p =
    if is_ongoing p.switch_state
    then if switch_complete (delete_free (old p)) then [] else delete_free (old p)
    else old p

pub current-clean : (p : ApiPool) → (current (clean p) ≡ current p) × (old (clean p) ≡ cleaned p)
unfolding current old with_old clean
current-clean p = ground arith

pub leases-clean :
    (j : ℕ) (p : ApiPool) → (leases j (clean p) ≡ leases j p) × (apis j (clean p) ≤ apis j p)
unfolding leases apis
leases-clean j p =
    rw ((current-clean p).0, (current-clean p).1)
      (ground (
        arith,
        count-delete_free j (old p),
        count_lease-switch_complete j (delete_free (old p)),
        count_lease-nil j,
      ))

pub behind_picked :
    (e : Option Api) (r : Pick) (fs : Entries) (id : ℕ)
    → behind e r ≡ picked fs id
    → (gs : Entries) × (r ≡ picked gs id) × (fs ≡ e ∷ gs)
behind_picked e null_entry fs id h = absurd (cc h)
behind_picked e no_free fs id h = absurd (cc h)
behind_picked e (picked gs i) fs id h = (gs, ground arith, ground arith)

pub pick_used :
    (tcp_ok : ℕ → Bool) (a : Api) (es : Entries)
    → a.is_used ≡ true
    → pick tcp_ok (some a ∷ es) ≡ behind (some a) (pick tcp_ok es)
unfolding pick
pick_used tcp_ok a es used = simp used

pub count-pick :
    (j : ℕ) (tcp_ok : ℕ → Bool) (es fs : Entries) (id : ℕ)
    → pick tcp_ok es ≡ picked fs id
    → (count_lease j fs ≡ count_lease j es + (if id == j then 1 else 0))
      × (count_api j fs ≡ count_api j es)
      × (length fs ≡ length es)
unfolding count_lease count_api pick set_used fini
count-pick j tcp_ok [] fs id e = absurd (cc e)
count-pick j tcp_ok (none ∷ es) fs id e = absurd (cc e)
count-pick j tcp_ok (some a ∷ es) fs id e = elim (Bool-cases a.is_used) [
  | inl used ↦
      let (gs, r, q) =
        behind_picked (some a) (pick tcp_ok es) fs id (sym (pick_used tcp_ok a es used) ∙ e) in
      rw q (ground (arith, count-pick j tcp_ok es gs id r))
  | inr free ↦ ground arith
]
