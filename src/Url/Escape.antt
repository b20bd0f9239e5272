-- ===== src/Url/Escape.antt =====
-- The round trip of `encodeUrl` and `decodeUrl` (`base/trpc_url_param_map.cpp`).
use relay_proxy.Base.{ℕ, ◌+◌, ◌*◌, ◌/◌, ◌%◌, ◌<◌}
use relay_proxy.Base.{◌≡◌, refl, ap, ◌∙◌, inl, inr}
use relay_proxy.Base.{true, false, some}
use relay_proxy.Base.{[], ◌∷◌, ◌++◌, arith}
use relay_proxy.Base.{◌==◌, Bool-cases}
use relay_proxy.Base.{All}
use relay_proxy.Base.{All-append}
use relay_proxy.Base.{Bytes}
use relay_proxy.Base.{int_key, bytes_key}
use relay_proxy.Url.{percent, seg_del, is_literal, hex_digit, encode_byte, encode_url}
use relay_proxy.Url.{hex_value, hextochar, decode_url}

abbrev pub IsByte : ℕ → Type 0
IsByte c = c < 256

hex_value-hex_digit : (d : ℕ) → d < 16 → hex_value (hex_digit d) ≡ some d
unfolding hex_value hex_digit
hex_value-hex_digit d h = ground arith

hextochar-hex_digit :
    (junk : ℕ → ℕ → ℕ) (a b : ℕ)
    → a < 16
    → b < 16
    → hextochar junk (hex_digit a) (hex_digit b) ≡ 16 * a + b
unfolding hextochar
hextochar-hex_digit junk a b ha hb =
    ground (arith, hex_value-hex_digit a ha, hex_value-hex_digit b hb)

decode_url-plain :
    (junk : ℕ → ℕ → ℕ) (c : ℕ) (s : Bytes)
    → (c == percent) ≡ false
    → decode_url junk (c ∷ s) ≡ c ∷ decode_url junk s
unfolding decode_url
decode_url-plain junk c [] h = refl
decode_url-plain junk c (a ∷ []) h = refl
decode_url-plain junk c (a ∷ b ∷ s) h = ground (arith, h)

is_literal-plain : (c : ℕ) → is_literal c ≡ true → (c == percent) ≡ false
unfolding is_literal
is_literal-plain c h = ground arith

hex_digit-Free : (d : ℕ) → d < 16 → (hex_digit d == seg_del) ≡ false
unfolding hex_digit
hex_digit-Free d h = ground arith

is_literal-Free : (c : ℕ) → is_literal c ≡ true → (c == seg_del) ≡ false
unfolding is_literal
is_literal-Free c h = ground arith

encode_byte-Free : (c : ℕ) → IsByte c → All (λ a. (a == seg_del) ≡ false) (encode_byte c)
unfolding encode_byte
encode_byte-Free c h = elim (Bool-cases (is_literal c)) [
  | inl e ↦ simp e (is_literal-Free c e, tt)
  | inr e ↦ simp e (
    refl,
    (hex_digit-Free (c / 16) (omega (arith, h)), (hex_digit-Free (c % 16) (omega arith), tt)),
  )
]

decode_url-encode_byte :
    (junk : ℕ → ℕ → ℕ) (c : ℕ) (s : Bytes)
    → IsByte c
    → decode_url junk (encode_byte c ++ s) ≡ c ∷ decode_url junk s
unfolding encode_byte decode_url
decode_url-encode_byte junk c s h = elim (Bool-cases (is_literal c)) [
  | inl e ↦ simp e (decode_url-plain junk c s (is_literal-plain c e))
  | inr e ↦
      simp (e, hextochar-hex_digit junk (c / 16) (c % 16) (omega (arith, h)) (omega arith))
        (ap (λ x. x ∷ decode_url junk s) (omega arith))
]

-- Decoding an escaped string of bytes gives the string, whatever an uninitialised `val` holds.
pub decode_url-encode_url :
    (junk : ℕ → ℕ → ℕ) (s : Bytes) → All IsByte s → decode_url junk (encode_url s) ≡ s
unfolding encode_url decode_url
decode_url-encode_url junk [] h = refl
decode_url-encode_url junk (c ∷ s) (hc, h) =
    decode_url-encode_byte junk c (encode_url s) hc ∙ ap (◌∷◌ c) (decode_url-encode_url junk s h)

-- An escaped byte holds no separator.
pub encode_url-Free : (s : Bytes) → All IsByte s → All (λ c. (c == seg_del) ≡ false) (encode_url s)
unfolding encode_url
encode_url-Free [] h = tt
encode_url-Free (c ∷ s) (hc, h) =
    All-append _ (encode_byte c) (encode_url s) (encode_byte-Free c hc) (encode_url-Free s h)
