-- ===== src/Policy/Examples.antt =====
-- Runs and instances for `TimeCountPolicy`.
use Prim.Native.Nat.{min}
use relay_proxy.Base.{suc, ◌≡◌, refl, pos, [], ◌∷◌, arith, add_int, ◌-ℤ◌, List, ℤ}
use relay_proxy.Policy.{init, increase_one}
use relay_proxy.Policy.Window.{admitted, admitted-init}

abbrev pub times : List ℤ
times = pos 101 ∷ pos 102 ∷ pos 103 ∷ []

admitted-init_example : admitted (init (pos 10) (pos 3) (pos 50)) (pos 100 ∷ times) ≡ suc (min 3 2)
unfolding ◌-ℤ◌
admitted-init_example =
    admitted-init (pos 10) 3 (pos 50) (pos 100) times (omega arith) (omega arith)

fourth_refused : admitted (init (pos 10) (pos 3) (pos 50)) (pos 100 ∷ times) ≡ 3
unfolding admitted init increase_one ◌-ℤ◌ add_int
fourth_refused = refl
