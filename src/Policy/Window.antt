-- ===== src/Policy/Window.antt =====
-- How many calls of one period a `TimeCountPolicy` admits.
use Prim.Native.Nat.{min}
use relay_proxy.Base.{
  ℕ, suc, ◌+◌, ◌-◌, ◌≤◌, ◌<◌, ◌≡◌, refl, ap, ℤ, pos, negsuc, ◌-ℤ◌, ◌<ℤ◌, ◌≤ℤ◌, ltb_ℤ, eqb_ℤ,
  if◌then◌else◌, List, [], ◌∷◌, arith, All, length, add_int_exact,
}
use relay_proxy.Policy.{TimeCountPolicy, init, increase_count, increase_one}

-- The calls at the given times, one after the other: how many return 0.
unfoldable pub admitted : TimeCountPolicy → List ℤ → ℕ
admitted p [] = 0
admitted p (now ∷ rest) =
    let (p', ret) = increase_one p now in
    let later = admitted p' rest in if eqb_ℤ ret (pos 0) then suc later else later

-- A time that lies inside the period that runs at `p`.
abbrev pub Within : TimeCountPolicy → ℤ → Type 0
Within p now = now -ℤ p.begin_timestamp <ℤ p.time_period

-- One call inside a running period.
increase_one-Within :
    (p : TimeCountPolicy) (c m : ℕ) (now : ℤ)
    → p.current_count ≡ pos c
    → p.max_count ≡ pos m
    → 0 < c
    → Within p now
    → c + 1 ≤ 2147483647
    → increase_one p now ≡ (
      record p { current_count = pos (c + 1) },
      if ltb_ℤ (pos m) (pos (c + 1)) then negsuc 0 else pos 0,
    )
unfolding increase_one
increase_one-Within p c m now hc hm pc w fits = ground (arith, add_int_exact c 1 fits, hc, hm)

pub admitted-Within :
    (p : TimeCountPolicy) (c m : ℕ) (ts : List ℤ)
    → p.current_count ≡ pos c
    → p.max_count ≡ pos m
    → 0 < c
    → All (Within p) ts
    → c + length ts ≤ 2147483647
    → admitted p ts ≡ min (length ts) (m - c)
unfolding admitted
admitted-Within p c m [] hc hm pc w fits = omega arith
admitted-Within p c m (t ∷ ts) hc hm pc w fits = ground (
  arith,
  increase_one-Within p c m t,
  admitted-Within (record p { current_count = pos (c + 1) }) (c + 1) m ts refl hm,
)

-- A fresh policy admits, of the calls that fall in the period of its first call, the first and as
-- many of the rest as `max_count` leaves room for, and refuses all others.
pub admitted-init :
    (period : ℤ) (m : ℕ) (t0 t : ℤ) (ts : List ℤ)
    → All (λ now. now -ℤ t <ℤ period) ts
    → 1 + length ts ≤ 2147483647
    → admitted (init period (pos m) t0) (t ∷ ts) ≡ suc (min (length ts) (m - 1))
unfolding admitted init increase_one
admitted-init period m t0 t ts w fits =
    ap suc (admitted-Within _ 1 m ts refl refl (omega arith) w fits)

-- Whatever the state, a call at least `time_period` after the period began is admitted and begins
-- a period that holds it alone.
pub increase_count-expired :
    (p : TimeCountPolicy) (num now : ℤ)
    → p.time_period ≤ℤ now -ℤ p.begin_timestamp
    → increase_count p num now ≡ (record p { begin_timestamp = now; current_count = num }, pos 0)
unfolding increase_count
increase_count-expired p num now h = ground arith
