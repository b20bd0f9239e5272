-- ===== src/Stats/Latch.antt =====
-- `SwitchKeyStats` over time: its methods as events, the latch, and what a set switch rests on.
use relay_proxy.Base.{◌≡◌, refl, ℤ, true, false, List, [], ◌∷◌, All, arith}
use relay_proxy.Stats.{
  FloatOps, StatsConf, SwitchKeyStats, new_stats, increment_requests, increment_errors, judge,
  count_error, too_many_errors, reset_stats,
}

-- A call of a method, at a time.
pub data Event : Type 0 where
  request : ℤ → Event
  error : ℤ → Event
  reset : ℤ → Event

-- A request or an error.
abbrev IsCount : Event → Type 0
IsCount (request now) = Unit
IsCount (error now) = Unit
IsCount (reset now) = ⊥

module _ {T : Type 0} (fl : FloatOps) where
  unfoldable pub apply : SwitchKeyStats T → Event → SwitchKeyStats T
  apply s (request now) = increment_requests s now
  apply s (error now) = increment_errors fl s now
  apply s (reset now) = reset_stats now s

  unfoldable pub run : SwitchKeyStats T → List Event → SwitchKeyStats T
  run s [] = s
  run s (e ∷ es) = run (apply s e) es

  apply-latched :
      (s : SwitchKeyStats T) (e : Event) → s.to_be_switched ≡ true → IsCount e → apply s e ≡ s
  unfolding apply increment_requests increment_errors
  apply-latched s (request now) on c = ground arith
  apply-latched s (error now) on c = ground arith
  apply-latched s (reset now) on c = absurd c

  -- A set switch is a latch: no request, no error and no end of an interval changes anything until
  -- a reset.
  pub run-latched :
      (s : SwitchKeyStats T) (es : List Event)
      → s.to_be_switched ≡ true
      → All IsCount es
      → run s es ≡ s
  unfolding run
  run-latched s [] on c = refl
  run-latched s (e ∷ es) on (c, cs) = ground (arith, apply-latched s e on c, run-latched s es on cs)

  -- A switch that is set passes the test now.
  abbrev IsJudged : SwitchKeyStats T → Type 0
  IsJudged s = s.to_be_switched ≡ true → too_many_errors fl s ≡ true

  judge-IsJudged : (s : SwitchKeyStats T) → s.to_be_switched ≡ false → IsJudged (judge fl s)
  unfolding judge too_many_errors
  judge-IsJudged s off = ground arith

  count_error-switch : (s : SwitchKeyStats T) → (count_error s).to_be_switched ≡ s.to_be_switched
  unfolding count_error
  count_error-switch s = ground arith

  apply-IsJudged : (s : SwitchKeyStats T) (e : Event) → IsJudged s → IsJudged (apply s e)
  unfolding apply
  apply-IsJudged s (request now) j = unfold increment_requests in ground arith
  apply-IsJudged s (error now) j =
      unfold increment_errors in
      ground (arith, count_error-switch s, judge-IsJudged (count_error s))
  apply-IsJudged s (reset now) j = unfold reset_stats in ground arith

  run-IsJudged : (s : SwitchKeyStats T) (es : List Event) → IsJudged s → IsJudged (run s es)
  unfolding run
  run-IsJudged s [] j = j
  run-IsJudged s (e ∷ es) j = run-IsJudged (apply s e) es (apply-IsJudged s e j)

  -- After any calls on fresh statistics, a switch that is set stands on counts that reach the
  -- request threshold and whose ratio is at most the configured one.
  pub run-new_stats :
      (k : T) (conf : StatsConf) (now : ℤ) (es : List Event)
      → (run (new_stats k conf now) es).to_be_switched ≡ true
      → too_many_errors fl (run (new_stats k conf now) es) ≡ true
  run-new_stats k conf now es =
      run-IsJudged (new_stats k conf now) es (unfold new_stats in λ h. absurd (cc h))
