-- ===== src/Stats/Decision.antt =====
-- When an error sets the switch: the decision of `increment_errors` in whole numbers.
use relay_proxy.Base.{
  ℕ, ◌+◌, ◌-◌, ◌*◌, ◌≤◌, ◌<◌, ◌≡◌, refl, ℤ, pos, negsuc, incr_pos, ◌-ℤ◌, ◌*ℤ◌, wrap_int, leb, leb_ℤ,
  ◌==◌, true, false, ◌&&◌, if◌then◌else◌, arith, Bool-cases, inl, inr,
}
use relay_proxy.Stats.{
  FloatOps, SwitchKeyStats, succ_ratio, count_error, too_many_errors, judge, increment_errors,
  in_interval,
}
use relay_proxy.Stats.Rounding.{IsRounded}

-- The product under the ratio, where nothing overflows.
hundredfold :
    (r e : ℕ)
    → r < 65536
    → e < 65536
    → wrap_int (wrap_int (pos r -ℤ pos e) *ℤ pos 100)
      ≡ (if leb e r then pos ((r - e) * 100) else negsuc ((e - r) * 100 - 1))
unfolding wrap_int ◌-ℤ◌ ◌*ℤ◌
hundredfold r e hr he = ground arith

-- The comparison of the rounded ratio with the configured percentage, as one of integers.
succ_ratio-le :
    (fl : FloatOps) (law : IsRounded fl) (r e m : ℕ)
    → 0 < r
    → r < 65536
    → e < 65536
    → m ≤ 100
    → fl.fle (succ_ratio fl (pos r) (pos e)) (fl.of_int (pos m)) ≡ leb ((r - e) * 100) (m * r)
unfolding succ_ratio
succ_ratio-le fl law r e m pr hr he hm = elim (Bool-cases (leb e r)) [
  | inl fits ↦
      rw (hundredfold r e hr he, fits, law.flt-pos ((r - e) * 100) r pr hr (omega arith))
        (law.fle-percent ((r - e) * 100) r m pr hr (omega arith) hm)
  | inr over ↦
      rw
        (
          hundredfold r e hr he,
          over,
          law.flt-negsuc ((e - r) * 100 - 1) r pr hr (omega arith),
          law.fle-zero m hm,
        )
        (ground arith)
]

-- The counts after one more error: the first error of an interval without requests counts as one.
abbrev requests_after : ℕ → ℕ
requests_after r = if r == 0 then 1 else r

abbrev errors_after : ℕ → ℕ → ℕ
errors_after r e = if r == 0 then 1 else e + 1

count_error_lem :
    {T : Type 0} (s : SwitchKeyStats T) (r e : ℕ)
    → s.requests ≡ pos r
    → s.errors ≡ pos e
    → e < 65535
    → count_error s
      ≡ record s { requests = pos (requests_after r); errors = pos (errors_after r e) }
unfolding count_error
count_error_lem s r e hr he small = ground (arith, incr_pos e (omega arith), hr, he)

judge-switches :
    {T : Type 0} (fl : FloatOps) (law : IsRounded fl) (s : SwitchKeyStats T) (r e m : ℕ)
    → s.to_be_switched ≡ false
    → s.requests ≡ pos r
    → s.errors ≡ pos e
    → s.minimal_succ_ratio ≡ pos m
    → 0 < r
    → r < 65536
    → e < 65536
    → m ≤ 100
    → (judge fl s).to_be_switched
      ≡ leb_ℤ s.minimal_request_threshold (pos r) && leb ((r - e) * 100) (m * r)
unfolding judge too_many_errors
judge-switches fl law s r e m off hr he hm pr br be bm =
    ground (arith, off, hr, he, hm, succ_ratio-le fl law r e m pr br be bm)

-- An error in a running interval sets the switch exactly when the requests have reached the
-- threshold and the successes, in percent of the requests, are at most the configured ratio. The
-- counters are below 2 ^ 16 and the ratio is a percentage.
pub increment_errors-switches :
    {T : Type 0} (fl : FloatOps) (law : IsRounded fl) (s : SwitchKeyStats T) (now : ℤ) (r e m : ℕ)
    → in_interval s now ≡ true
    → s.to_be_switched ≡ false
    → s.requests ≡ pos r
    → s.errors ≡ pos e
    → s.minimal_succ_ratio ≡ pos m
    → r < 65536
    → e < 65535
    → m ≤ 100
    → let r' = requests_after r in
      let e' = errors_after r e in
      (increment_errors fl s now).to_be_switched
      ≡ leb_ℤ s.minimal_request_threshold (pos r') && leb ((r' - e') * 100) (m * r')
unfolding increment_errors
increment_errors-switches fl law s now r e m inside off hr he hm br be bm = ground (
  arith,
  inside,
  off,
  count_error_lem s r e hr he be,
  judge-switches fl law
      (record s { requests = pos (requests_after r); errors = pos (errors_after r e) })
      (requests_after r) (errors_after r e) m off refl refl hm,
)
