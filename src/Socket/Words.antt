-- ===== src/Socket/Words.antt =====
-- The four bytes of a length (`memcpy` of an `int` in `src/client_socket.cpp`, `api/relay_api.cpp`).
use relay_proxy.Base.{ℕ, zero, suc, ◌+◌, ◌*◌, ◌/◌, ◌%◌, ◌≤◌, ◌<◌}
use relay_proxy.Base.{◌≡◌, refl, ap, ◌∙◌}
use relay_proxy.Base.{[], ◌∷◌, ◌++◌, arith}
use relay_proxy.Base.{length, take, drop}
use relay_proxy.Base.{length-take}
use relay_proxy.Base.{pos}
use relay_proxy.Base.{wrap_int, wrap_int-pos}
use relay_proxy.Base.{Bytes}
use relay_proxy.Base.{int_key, bytes_key}
use relay_proxy.Socket.{int_bytes, read_int}

pub read_int-int_bytes : (n : ℕ) (s : Bytes) → n ≤ 2147483647 → read_int (int_bytes n ++ s) ≡ pos n
unfolding read_int int_bytes
read_int-int_bytes n s h =
    ap (λ x. wrap_int (pos x)) (digits n (omega (arith, h))) ∙ wrap_int-pos n h
  where
    digits :
        (n : ℕ)
        → n < 4294967296
        → n % 256
            + 256 * (n / 256 % 256)
            + 65536 * (n / 65536 % 256)
            + 16777216 * (n / 16777216 % 256)
          ≡ n
    digits n h = omega (arith, h)

length-take_le : (n : ℕ) (s : Bytes) → n ≤ length s → length (take n s) ≡ n
length-take_le n s h = ground (arith, length-take n s, h)

pub take-drop : (n : ℕ) (s : Bytes) → take n s ++ drop n s ≡ s
take-drop zero s = refl
take-drop (suc n) [] = refl
take-drop (suc n) (c ∷ s) = ap (◌∷◌ c) (take-drop n s)

pub take-all : (s : Bytes) (n : ℕ) → length s ≤ n → take n s ≡ s
take-all [] zero h = refl
take-all [] (suc n) h = refl
take-all (c ∷ s) zero h = absurd (omega (arith, h))
take-all (c ∷ s) (suc n) h = ap (◌∷◌ c) (take-all s n (omega (arith, h)))

pub drop-all : (s : Bytes) (n : ℕ) → length s ≤ n → drop n s ≡ []
drop-all [] zero h = refl
drop-all [] (suc n) h = refl
drop-all (c ∷ s) zero h = absurd (omega (arith, h))
drop-all (c ∷ s) (suc n) h = drop-all s n (omega (arith, h))
