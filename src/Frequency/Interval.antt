-- ===== src/Frequency/Interval.antt =====
-- How many calls `CFrequencyControl` admits in an interval, and which data a call touches.
use Prim.Native.Nat.{min}
use relay_proxy.Base.{
  ℕ, suc, ◌+◌, ◌-◌, ◌≤◌, ◌≡◌, ◌≢◌, refl, ℤ, pos, incr_pos, ◌+ℤ◌, ◌≤ℤ◌, ◌<ℤ◌, ltb_ℤ, Bool, true,
  false, if◌then◌else◌, List, [], ◌∷◌, length, All, arith, none, some, find, find-insert, insert,
  Result, ok, throw, find-insert_self, Option-cases, inl, inr, server_exception, exceed_freq_limit,
}
use relay_proxy.Frequency.{
  FrequencyControlKey, FrequencyControlData, FrequencyMap, key_eq_iff, touch, check, add_limit,
  frequency_key,
}

-- A call that ends without an exception.
abbrev pub passes : Result (Unit {0}) → Bool
passes (ok u) = true
passes (throw e) = false

-- The calls of one key at the given times: how many end without an exception.
unfoldable pub admitted : FrequencyMap → FrequencyControlKey → List ℤ → ℕ
admitted m key [] = 0
admitted m key (now ∷ rest) =
    let (m', r) = check m key now in
    let later = admitted m' key rest in if passes r then suc later else later

-- A time that lies inside the interval that runs at `d`.
abbrev pub Within : FrequencyControlData → ℤ → Type 0
Within d now = now ≤ℤ d.begin_time +ℤ d.limit_time

abbrev pub counted : FrequencyControlData → ℕ → FrequencyControlData
counted d c = record d { call_times = pos c }

-- One call inside a running interval.
check-Within :
    (m : FrequencyMap) (key : FrequencyControlKey) (d : FrequencyControlData) (c l : ℕ) (now : ℤ)
    → find key m ≡ some d
    → d.call_times ≡ pos c
    → d.limit_count ≡ pos l
    → Within d now
    → c + 1 ≤ 2147483647
    → check m key now ≡ (
      insert key (counted d (c + 1)) m,
      if ltb_ℤ (pos l) (pos (c + 1)) then throw (server_exception exceed_freq_limit) else ok tt,
    )
unfolding check
check-Within m key d c l now f hc hl w fits = ground (arith, f, incr_pos c fits, hc, hl)

pub admitted-Within :
    (m : FrequencyMap) (key : FrequencyControlKey) (d : FrequencyControlData) (c l : ℕ)
    (ts : List ℤ)
    → find key m ≡ some d
    → d.call_times ≡ pos c
    → d.limit_count ≡ pos l
    → All (Within d) ts
    → c + length ts ≤ 2147483647
    → admitted m key ts ≡ min (length ts) (l - c)
unfolding admitted
admitted-Within m key d c l [] f hc hl w fits = omega arith
admitted-Within m key d c l (t ∷ ts) f hc hl w fits =
    let d' = counted d (c + 1) in
    ground (
      arith,
      check-Within m key d c l t f hc hl,
      admitted-Within (insert key d' m) key d' (c + 1) l ts (find-insert_self key d' m) refl hl,
    )

-- The call that finds the interval over.
check-expired :
    (m : FrequencyMap) (key : FrequencyControlKey) (d : FrequencyControlData) (now : ℤ)
    → find key m ≡ some d
    → d.begin_time +ℤ d.limit_time <ℤ now
    → check m key now ≡ (insert key (record d { begin_time = now; call_times = pos 0 }) m, ok tt)
unfolding check
check-expired m key d now f over = ground (arith, f)

-- From the moment a limit is loaded, the calls of its first interval pass until `limit_count` of
-- them have, and all later calls of that interval throw.
pub admitted-add_limit :
    (m : FrequencyMap) (key : FrequencyControlKey) (limit_time : ℤ) (l : ℕ) (loaded : ℤ)
    (ts : List ℤ)
    → All (λ now. now ≤ℤ loaded +ℤ limit_time) ts
    → length ts ≤ 2147483647
    → admitted (add_limit m key limit_time (pos l) loaded) key ts ≡ min (length ts) l
unfolding add_limit
admitted-add_limit m key limit_time l loaded ts w fits =
    omega (arith, admitted-Within _ key _ 0 l ts (find-insert_self key _ m) refl refl w)

-- The call that finds an interval over passes without being counted: with the calls of the interval
-- that it begins, one more passes than `limit_count` says, whatever the state was.
pub admitted-expired :
    (m : FrequencyMap) (key : FrequencyControlKey) (d : FrequencyControlData) (l : ℕ) (t : ℤ)
    (ts : List ℤ)
    → find key m ≡ some d
    → d.limit_count ≡ pos l
    → d.begin_time +ℤ d.limit_time <ℤ t
    → All (λ now. now ≤ℤ t +ℤ d.limit_time) ts
    → length ts ≤ 2147483647
    → admitted m key (t ∷ ts) ≡ suc (min (length ts) l)
unfolding admitted
admitted-expired m key d l t ts f hl over w fits =
    let d' = record d { begin_time = t; call_times = pos 0 } in
    ground (
      arith,
      check-expired m key d t f over,
      admitted-Within (insert key d' m) key d' 0 l ts (find-insert_self key d' m) refl hl w,
    )

-- A call changes the data of its own key only, and one whose key has no limit changes nothing
-- and passes.
pub check-others :
    (m : FrequencyMap) (key other : FrequencyControlKey) (now : ℤ)
    → (other ≢ key → find other (check m key now).0 ≡ find other m)
      × (find key m ≡ none → check m key now ≡ (m, ok tt))
unfolding check
check-others m key other now = elim (Option-cases (find key m)) [
  | inl e ↦ (λ h. rw (e, check), λ h. rw (e, check))
  | inr (d, e) ↦ (
    λ h.
        rw (e, check)
          (ground (arith, find-insert key other (touch d now).0 m, key_eq_iff key other)),
    λ h. cc,
  )
]
