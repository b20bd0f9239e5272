-- ===== src/Frequency.antt =====
-- src/frequency_control.h and .cpp: a limit on the calls of each (request_type, ip) in an interval.
-- The clock is an argument of each call; a call returns the new map and what it throws.
pub mod Interval
pub mod Examples
use relay_proxy.Base.{
  ℤ, pos, incr, ◌+ℤ◌, ltb_ℤ, eqb_ℤ, eqb_ℤ_iff, Bytes, eqb, bytes_lt, eqb_iff, Bool, true, false,
  ◌&&◌, if◌then◌else◌, Option, none, some, Key, Map, find, insert, Result, ok, throw, ◌>>=◌,
  config_exception, err_conf, Exception, server_exception, exceed_freq_limit, ◌≡◌, ◌↔◌, refl, ap,
  arith,
}
use relay_proxy.Text.{strstrip, strtok, atoi}

pub record FrequencyControlKey : Type 0 where
  pub request_type : ℤ
  pub ip : Bytes

abbrev key_eq : FrequencyControlKey → FrequencyControlKey → Bool
key_eq a b = eqb_ℤ a.request_type b.request_type && eqb a.ip b.ip

-- `CFrequencyControlKey::operator <`
abbrev key_lt : FrequencyControlKey → FrequencyControlKey → Bool
key_lt a b =
    if ltb_ℤ a.request_type b.request_type
    then true
    else if ltb_ℤ b.request_type a.request_type
    then false
    else if bytes_lt a.ip b.ip
    then true
    else false

pub key_eq_iff : (a b : FrequencyControlKey) → (key_eq a b ≡ true) ↔ (a ≡ b)
key_eq_iff a b = ground (arith, eqb_ℤ_iff a.request_type b.request_type, eqb_iff a.ip b.ip)

instance abbrev pub frequency_key : Key FrequencyControlKey
frequency_key = record { beq = key_eq; blt = key_lt; beq_iff = key_eq_iff }

pub record FrequencyControlData : Type 0 where
  pub limit_time : ℤ
  pub limit_count : ℤ
  pub begin_time : ℤ
  pub call_times : ℤ

abbrev pub FrequencyMap : Type 0
FrequencyMap = Map FrequencyControlKey FrequencyControlData

-- What `_get_line` stores for a line that it has taken apart.
unfoldable pub add_limit :
    FrequencyMap → FrequencyControlKey → (limit_time limit_count now : ℤ) → FrequencyMap
add_limit m key limit_time limit_count now =
    insert key
      (record {
        limit_time = limit_time;
        limit_count = limit_count;
        begin_time = now;
        call_times = pos 0;
      })
      m

-- The next field of a line, without white space at its ends.
unfoldable pub limit_field : Bytes → Result (Bytes × Bytes)
limit_field s = elim (strtok 58 s) [
  | none ↦ throw (config_exception err_conf)
  | some (token, rest) ↦ ok (strstrip token, rest)
]

-- `_get_line`. An address fits its field.
unfoldable pub get_line : (now : ℤ) → Bytes → FrequencyMap → Result FrequencyMap
get_line now line m = limit_field line >>= λ (request_type, s). limit_field s >>= λ (ip, s).
    limit_field s >>= λ (limit_time, s). limit_field s >>= λ (limit_count, s). ok (
      add_limit m (record { request_type = atoi request_type; ip = ip }) (atoi limit_time)
        (atoi limit_count) now)

-- The part of `_check` behind the lookup: the data after the call, and whether it is over the limit.
unfoldable pub touch : FrequencyControlData → ℤ → FrequencyControlData × Bool
touch d now =
    if ltb_ℤ (d.begin_time +ℤ d.limit_time) now
    then (record d { begin_time = now; call_times = pos 0 }, false)
    else (record d { call_times = incr d.call_times }, ltb_ℤ d.limit_count (incr d.call_times))

-- `_check(ip, request_type)`
unfoldable pub check : FrequencyMap → FrequencyControlKey → ℤ → FrequencyMap × Result (Unit {0})
unfolding touch
check m key now = elim (find key m) [
  | none ↦ (m, ok tt)
  | some d ↦
      let (d', over) = touch d now in
      (insert key d' m, if over then throw (server_exception exceed_freq_limit) else ok tt)
]
