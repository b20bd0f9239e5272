-- ===== src/Api.antt =====
-- `api/api_base`: the connection to a server, as far as the pools deal with it. `CRelayApi::_fini` and
-- `CMiddleApi::_fini` (`api/relay_api.cpp`, `api/middle_api.cpp`) are the two cases of `fini`.
use relay_proxy.Base.{ℕ, ℤ, Bytes, Bool, true, false, not, ◌&&◌, if◌then◌else◌}
use relay_proxy.HaSite.{ServerType, middle, relay, unset}

-- The part of `CApiBase` that the pool deals with.
pub record Api : Type 0 where
  pub id : ℕ
  pub kind : ServerType
  pub index : ℕ
  pub idc : Bytes
  pub ip : Bytes
  pub port : ℤ
  pub time_out : ℤ
  pub is_init : Bool
  pub is_used : Bool

-- `fini(force_close)`: a connection to a relay is always given up, one to a middle if forced.
abbrev keeps_connection : ServerType → Bool
keeps_connection middle = true
keeps_connection relay = false
keeps_connection unset = false

unfoldable pub fini : Bool → Api → Api
unfolding keeps_connection
fini force_close a = record a { is_init = a.is_init && keeps_connection a.kind && not force_close }

-- `set_used` behind its assertion, with the answer of `check_tcp_ok`.
unfoldable pub set_used : Bool → Api → Api
set_used tcp_ok a = record (if tcp_ok then a else fini true a) { is_used = true }

unfoldable pub set_free : Bool → Api → Api
set_free force_close a = record (fini force_close a) { is_used = false }
