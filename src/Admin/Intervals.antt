-- ===== src/Admin/Intervals.antt =====
-- How often a timed command runs (`CRelayServer::relay_mgr_worker_i`).
use relay_proxy.Base.{
  ℤ, pos, ◌+ℤ◌, -ℤ_parts, +ℤ_parts, arith, ◌-ℤ◌, leb_ℤ, ◌≡◌, inl, inr, refl, ap, sym, ◌∙◌, true,
  false, List, [], ◌∷◌, Bool-cases,
}
use mathlib.Core.Path.{subst}
use relay_proxy.Socket.Framing.{if_true, if_false}
use relay_proxy.Admin.{TimedCommand, is_due, step, runs, worker_runs}

-- Each round comes at most `g` seconds after the one before, the first after `from`.
unfoldable pub Close : (g from : ℤ) → List ℤ → Type 0
Close g from [] = Unit
Close g from (t ∷ ts) = (leb_ℤ (t -ℤ from) g ≡ true) × Close g t ts

unfoldable pub last_of : ℤ → List ℤ → ℤ
last_of from [] = from
last_of from (t ∷ ts) = last_of t ts

-- From each time to the next there are at least `n` seconds and at most `m`, counted from `from` on,
-- and from the last to `end` at most `n`.
unfoldable pub Paced : (n m end from : ℤ) → List ℤ → Type 0
Paced n m end from [] = leb_ℤ (end -ℤ from) n ≡ true
Paced n m end from (t ∷ ts) =
    (leb_ℤ n (t -ℤ from) ≡ true) × (leb_ℤ (t -ℤ from) m ≡ true) × Paced n m end t ts

runs-due :
    (c : TimedCommand) (now : ℤ) (times : List ℤ)
    → is_due now c ≡ true
    → runs c (now ∷ times) ≡ now ∷ runs (record c { time_stamp = now }) times
unfolding runs step
runs-due c now times due =
    if_true (is_due now c) _ _ due
    ∙ ap (λ d. now ∷ runs d times) (if_true (is_due now c) (record c { time_stamp = now }) c due)

runs-early :
    (c : TimedCommand) (now : ℤ) (times : List ℤ)
    → is_due now c ≡ false
    → runs c (now ∷ times) ≡ runs c times
unfolding runs step
runs-early c now times early =
    if_false (is_due now c) _ _ early
    ∙ ap (λ d. runs d times) (if_false (is_due now c) (record c { time_stamp = now }) c early)

runs-nil : (c : TimedCommand) → runs c [] ≡ []
unfolding runs
runs-nil c = refl

due_time :
    (c : TimedCommand) (now : ℤ)
    → is_due now c ≡ true
    → leb_ℤ c.time_out (now -ℤ c.time_stamp) ≡ true
unfolding is_due
due_time c now due = due

early_time :
    (c : TimedCommand) (now : ℤ)
    → is_due now c ≡ false
    → leb_ℤ (now -ℤ c.time_stamp) c.time_out ≡ true
unfolding is_due
early_time c now early = ground (arith, early)

span :
    (a b s g t : ℤ)
    → leb_ℤ (a -ℤ b) g ≡ true
    → leb_ℤ (b -ℤ s) t ≡ true
    → leb_ℤ (a -ℤ s) (t +ℤ g) ≡ true
span a b s g t h k = ground (arith, -ℤ_parts a b, -ℤ_parts b s, -ℤ_parts a s, +ℤ_parts t g, h, k)

no_time_passed : (a t : ℤ) → leb_ℤ (pos 0) t ≡ true → leb_ℤ (a -ℤ a) t ≡ true
no_time_passed a t h = ground (arith, -ℤ_parts a a, h)

runs-Paced :
    (c : TimedCommand) (g r : ℤ) (times : List ℤ)
    → leb_ℤ (pos 0) c.time_out ≡ true
    → leb_ℤ (r -ℤ c.time_stamp) c.time_out ≡ true
    → Close g r times
    → Paced c.time_out (c.time_out +ℤ g) (last_of r times) c.time_stamp (runs c times)
unfolding Paced Close last_of
runs-Paced c g r [] zero late close =
    subst (Paced c.time_out (c.time_out +ℤ g) r c.time_stamp) (sym (runs-nil c)) late
runs-Paced c g r (now ∷ times) zero late (near, close) = elim (Bool-cases (is_due now c)) [
  | inl due ↦
      subst (Paced c.time_out (c.time_out +ℤ g) (last_of now times) c.time_stamp)
        (sym (runs-due c now times due))
        (
          due_time c now due,
          span now r c.time_stamp g c.time_out near late,
          runs-Paced (record c { time_stamp = now }) g now times zero
              (no_time_passed now c.time_out zero) close,
        )
  | inr early ↦
      subst (Paced c.time_out (c.time_out +ℤ g) (last_of now times) c.time_stamp)
        (sym (runs-early c now times early))
        (runs-Paced c g now times zero (early_time c now early) close)
]

-- A command runs when the thread starts, and then as often as it should: when the rounds of the loop
-- come at most `g` seconds apart, the first after the stamp, the first run of the loop comes no earlier
-- than the time-out of the command after its stamp and no later than `g` seconds behind that, each
-- further run so after the one before, and at the last round no run is overdue. The time-out is not
-- negative.
pub worker_runs-Paced :
    (c : TimedCommand) (start g : ℤ) (times : List ℤ)
    → leb_ℤ (pos 0) c.time_out ≡ true
    → Close g c.time_stamp times
    → (later : List ℤ) × (worker_runs start c times ≡ start ∷ later)
      × Paced c.time_out (c.time_out +ℤ g) (last_of c.time_stamp times) c.time_stamp later
unfolding worker_runs
worker_runs-Paced c start g times zero close = (
  runs c times,
  refl,
  runs-Paced c g c.time_stamp times zero (no_time_passed c.time_stamp c.time_out zero) close,
)
