-- ===== src/Frequency/Examples.antt =====
-- Runs and instances for `CFrequencyControl`.
use Prim.Native.Nat.{min}
use relay_proxy.Base.{suc, ◌≡◌, refl, pos, ◌+ℤ◌, [], ◌∷◌, arith, codes, find, eqb, insert}
use relay_proxy.Frequency.{
  FrequencyControlKey, FrequencyControlData, FrequencyMap, frequency_key, add_limit,
}
use relay_proxy.Frequency.Interval.{admitted, admitted-add_limit, admitted-expired}

abbrev pub caller : FrequencyControlKey
caller = record { request_type = pos 101; ip = codes "10.0.0.1" }

abbrev stranger : FrequencyControlKey
stranger = record { request_type = pos 101; ip = codes "10.0.0.2" }

-- Two calls in five seconds.
abbrev pub limits : FrequencyMap
limits = add_limit [] caller (pos 5) (pos 2) (pos 100)

abbrev loaded_data : FrequencyControlData
loaded_data = record {
  limit_time = pos 5;
  limit_count = pos 2;
  begin_time = pos 100;
  call_times = pos 0;
}

admitted-add_limit_example : admitted limits caller (pos 101 ∷ pos 102 ∷ pos 103 ∷ []) ≡ min 3 2
unfolding ◌+ℤ◌
admitted-add_limit_example =
    admitted-add_limit [] caller (pos 5) 2 (pos 100) (pos 101 ∷ pos 102 ∷ pos 103 ∷ [])
      (omega arith) (omega arith)

admitted-expired_example :
    admitted limits caller (pos 110 ∷ pos 111 ∷ pos 112 ∷ pos 113 ∷ []) ≡ suc (min 3 2)
unfolding ◌+ℤ◌ find add_limit insert eqb
admitted-expired_example =
    admitted-expired limits caller loaded_data 2 (pos 110) (pos 111 ∷ pos 112 ∷ pos 113 ∷ []) refl
      refl (omega arith) (omega arith) (omega arith)
