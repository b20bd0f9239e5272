-- ===== src/Base/Int.antt =====
-- C integers: ℤ over the native numbers, and the wrap-around of a 32-bit `++`.
use Prim.Native.Nat.{ℕ, suc, ◌+◌, ◌-◌, ◌*◌, ◌%◌, ◌≤◌, ◌<◌}
use mathlib.Core.Path.{◌≡◌}
use mathlib.Core.Logic.{◌↔◌}
use mathlib.Core.Bool.{Bool, true}
use native.Mathlib.Omega.{arith}
use relay_proxy.Base.Tests.{ltb, leb, ◌==◌, if◌then◌else◌}

-- `negsuc n` is -(n + 1).
pub data ℤ : Type 0 where
  pos : ℕ → ℤ
  negsuc : ℕ → ℤ

abbrev pub pos_part : ℤ → ℕ
pos_part (pos n) = n
pos_part (negsuc n) = 0

abbrev pub neg_part : ℤ → ℕ
neg_part (pos n) = 0
neg_part (negsuc n) = suc n

abbrev sub_ℕ : ℕ → ℕ → ℤ
sub_ℕ a b = if leb b a then pos (a - b) else negsuc (b - a - 1)

infixl 65 ◌+ℤ◌ ◌-ℤ◌
infixl 70 ◌*ℤ◌
infix 50 ◌≤ℤ◌ ◌<ℤ◌
unfoldable pub ◌+ℤ◌ : ℤ → ℤ → ℤ
a +ℤ b = sub_ℕ (pos_part a + pos_part b) (neg_part a + neg_part b)

unfoldable pub ◌-ℤ◌ : ℤ → ℤ → ℤ
a -ℤ b = sub_ℕ (pos_part a + neg_part b) (neg_part a + pos_part b)

unfoldable pub ◌*ℤ◌ : ℤ → ℤ → ℤ
a *ℤ b =
    sub_ℕ (pos_part a * pos_part b + neg_part a * neg_part b)
      (pos_part a * neg_part b + neg_part a * pos_part b)

abbrev pub ◌≤ℤ◌ : ℤ → ℤ → Type 0
a ≤ℤ b = pos_part a + neg_part b ≤ pos_part b + neg_part a

abbrev pub ◌<ℤ◌ : ℤ → ℤ → Type 0
a <ℤ b = pos_part a + neg_part b < pos_part b + neg_part a

abbrev pub ltb_ℤ : ℤ → ℤ → Bool
ltb_ℤ a b = ltb (pos_part a + neg_part b) (pos_part b + neg_part a)

abbrev pub leb_ℤ : ℤ → ℤ → Bool
leb_ℤ a b = leb (pos_part a + neg_part b) (pos_part b + neg_part a)

abbrev pub eqb_ℤ : ℤ → ℤ → Bool
eqb_ℤ a b = pos_part a + neg_part b == pos_part b + neg_part a

pub +ℤ_parts :
    (a b : ℤ)
    → pos_part (a +ℤ b) + neg_part a + neg_part b ≡ neg_part (a +ℤ b) + pos_part a + pos_part b
unfolding ◌+ℤ◌
+ℤ_parts a b = ground arith

pub -ℤ_parts :
    (a b : ℤ)
    → pos_part (a -ℤ b) + neg_part a + pos_part b ≡ neg_part (a -ℤ b) + pos_part a + neg_part b
unfolding ◌-ℤ◌
-ℤ_parts a b = ground arith

pub eq_of_parts : (a b : ℤ) → pos_part a + neg_part b ≡ pos_part b + neg_part a → a ≡ b
eq_of_parts a b h = ground arith

pub eqb_ℤ_iff : (a b : ℤ) → (eqb_ℤ a b ≡ true) ↔ (a ≡ b)
eqb_ℤ_iff a b = (λ h. eq_of_parts a b (ground arith), λ h. ground arith)

pub ruleset int_laws = (arith, +ℤ_parts, -ℤ_parts, eq_of_parts)

-- The largest `int`, and `++` on an `int`, which wraps from it to the smallest one.
abbrev pub int_max : ℤ
int_max = pos 2147483647

abbrev pub int_min : ℤ
int_min = negsuc 2147483647

abbrev is_int_max : ℤ → Bool
is_int_max a = eqb_ℤ a int_max

abbrev succ_ℤ : ℤ → ℤ
succ_ℤ a = sub_ℕ (pos_part a + 1) (neg_part a)

unfoldable pub incr : ℤ → ℤ
incr a = if is_int_max a then int_min else succ_ℤ a

incr_parts :
    (a : ℤ) → a <ℤ int_max → pos_part (incr a) + neg_part a ≡ neg_part (incr a) + pos_part a + 1
unfolding incr
incr_parts a h = ground arith

-- The value of a 32-bit `int` that an exact result wraps to.
abbrev residue : ℤ → ℕ
residue (pos n) = n % 4294967296
residue (negsuc n) = 4294967295 - n % 4294967296

abbrev signed32 : ℕ → ℤ
signed32 r = if ltb r 2147483648 then pos r else negsuc (4294967295 - r)

unfoldable pub wrap_int : ℤ → ℤ
unfolding residue signed32
wrap_int a = signed32 (residue a)

pub wrap_int-pos : (n : ℕ) → n ≤ 2147483647 → wrap_int (pos n) ≡ pos n
unfolding wrap_int
wrap_int-pos n h = ground arith

unfoldable pub add_int : ℤ → ℤ → ℤ
unfolding wrap_int ◌+ℤ◌
add_int a b = wrap_int (a +ℤ b)

-- Where the true sum is an `int`, nothing wraps.
pub add_int_exact : (a b : ℕ) → a + b ≤ 2147483647 → add_int (pos a) (pos b) ≡ pos (a + b)
unfolding add_int
add_int_exact a b h = ground arith

pub incr_pos : (c : ℕ) → c + 1 ≤ 2147483647 → incr (pos c) ≡ pos (c + 1)
unfolding incr
incr_pos c h = ground arith
