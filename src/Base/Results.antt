-- ===== src/Base/Results.antt =====
-- Exceptions as values: the classes and codes that `THROW` is called with, and a failed `assert`.
use mathlib.Core.Path.{◌≡◌, refl}
use mathlib.Core.Bool.{Bool, true, false}
use mathlib.Core.Logic.{◌⊎◌, inl, inr}

pub data Code : Type 0 where
  err_conf : Code
  err_sys_unknown : Code
  err_socket_recv_close : Code
  err_socket_terminal : Code
  err_ipc_error : Code
  err_packet_length : Code
  err_packet_fmt : Code
  err_packet_error : Code
  err_server_busy : Code
  err_server_error : Code
  err_socket_time_out : Code
  err_socket_again : Code
  err_server_maintain : Code
  exceed_freq_limit : Code
  invalid_access : Code
  trpc_info_pool_invalid : Code
  request_type_invalid : Code

pub data Exception : Type 0 where
  config_exception : Code → Exception
  server_exception : Code → Exception
  ipc_exception : Code → Exception
  socket_exception : Code → Exception
  trpc_exception : Code → Exception
  -- A failed `assert`, and a call through a null pointer: both end the process.
  assertion : Exception
  null_pointer : Exception
  -- An access behind the end of a vector or an array, which C++ leaves undefined.
  out_of_range : Exception

pub data Result {ℓ} (A : Type ℓ) : Type ℓ where
  ok : A → Result A
  throw : Exception → Result A

infixl 5 ◌>>=◌ ◌>>◌
abbrev pub ◌>>=◌ {ℓ κ} : {A : Type ℓ} {B : Type κ} → Result A → (A → Result B) → Result B
ok a >>= f = f a
throw e >>= f = throw e

abbrev pub ◌>>◌ {ℓ} : {B : Type ℓ} → Result (Unit {0}) → Result B → Result B
m >> k = m >>= λ _. k

abbrev pub check {ℓ} : {A : Type ℓ} → Bool → Exception → Result A → Result A
check true e r = r
check false e r = throw e

pub Result-cases {ℓ} :
    {A : Type ℓ} (r : Result A) → ((a : A) × (r ≡ ok a)) ⊎ ((e : Exception) × (r ≡ throw e))
Result-cases (ok a) = inl (a, refl)
Result-cases (throw e) = inr (e, refl)

-- A chain succeeds only when its first call does, and what follows that call.
pub >>=-eq-ok {ℓ κ} :
    {A : Type ℓ} {B : Type κ} (call : Result A) (next : A → Result B) {out : B}
    → (call >>= next) ≡ ok out
    → (x : A) × (call ≡ ok x) × (next x ≡ ok out)
>>=-eq-ok (throw e) next p = absurd (cc p)
>>=-eq-ok (ok x) next p = (x, refl, p)
