-- ===== src/Events/Links.antt =====
-- Chains of nodes that are linked both ways, and what a write to the links leaves of them
-- (`sys/event_queue.cpp`).
use relay_proxy.Base.{ℕ, ◌≡◌, ◌≢◌, Option, none, some, List, [], ◌∷◌, ◌++◌, All, arith}
use relay_proxy.Events.{upd}

-- Each node points to the one behind it, and that one back to it.
abbrev pub Linked : (next prev : ℕ → Option ℕ) → List ℕ → Type 0
Linked next prev [] = Unit
Linked next prev (x ∷ []) = Unit
Linked next prev (x ∷ y ∷ r) = (next x ≡ some y) × (prev y ≡ some x) × Linked next prev (y ∷ r)

abbrev pub Distinct : List ℕ → Type 0
Distinct [] = Unit
Distinct (x ∷ xs) = All (λ y. x ≢ y) xs × Distinct xs

abbrev pub Fresh : ℕ → List ℕ → Type 0
Fresh v xs = All (λ y. v ≢ y) xs

pub All-left : (P : ℕ → Type 0) (xs ys : List ℕ) → All P (xs ++ ys) → All P xs
All-left P [] ys h = tt
All-left P (x ∷ xs) ys (p, h) = (p, All-left P xs ys h)

pub All-right : (P : ℕ → Type 0) (xs ys : List ℕ) → All P (xs ++ ys) → All P ys
All-right P [] ys h = h
All-right P (x ∷ xs) ys (p, h) = All-right P xs ys h

pub Distinct-right : (xs ys : List ℕ) → Distinct (xs ++ ys) → Distinct ys
Distinct-right [] ys h = h
Distinct-right (x ∷ xs) ys (p, h) = Distinct-right xs ys h

-- The links of a chain are those of its nodes; the first one's `prev` is no part of it.
pub Linked-cong :
    (n p n' p' : ℕ → Option ℕ) (x : ℕ) (r : List ℕ)
    → All (λ y. n' y ≡ n y) (x ∷ r)
    → All (λ y. p' y ≡ p y) r
    → Linked n p (x ∷ r)
    → Linked n' p' (x ∷ r)
Linked-cong n p n' p' x [] hn hp l = tt
Linked-cong n p n' p' x (y ∷ r) (nx, hn) (py, hp) (a, b, l) =
    (cc, cc, Linked-cong n p n' p' y r hn hp l)

pub upd-Fresh :
    (f : ℕ → Option ℕ) (v : ℕ) (w : Option ℕ) (xs : List ℕ)
    → Fresh v xs
    → All (λ y. upd f v w y ≡ f y) xs
upd-Fresh f v w [] h = tt
upd-Fresh f v w (x ∷ xs) (e, h) = (ground (arith, e), upd-Fresh f v w xs h)

pub upd-Fresh₂ :
    (f : ℕ → Option ℕ) (v u : ℕ) (w z : Option ℕ) (xs : List ℕ)
    → Fresh v xs
    → Fresh u xs
    → All (λ y. upd (upd f v w) u z y ≡ f y) xs
upd-Fresh₂ f v u w z [] h k = tt
upd-Fresh₂ f v u w z (x ∷ xs) (e, h) (d, k) = (ground (arith, e, d), upd-Fresh₂ f v u w z xs h k)

module _ (next prev : ℕ → Option ℕ) (v p n : ℕ) where
  -- The writes of `insert`.
  abbrev next_in : ℕ → Option ℕ
  next_in = upd (upd next v (some n)) p (some v)

  abbrev prev_in : ℕ → Option ℕ
  prev_in = upd (upd prev v (some p)) n (some v)

  pub Linked-insert :
      (a b : List ℕ)
      → Distinct (a ++ p ∷ n ∷ b)
      → Fresh v (a ++ p ∷ n ∷ b)
      → Linked next prev (a ++ p ∷ n ∷ b)
      → Linked next_in prev_in (a ++ p ∷ v ∷ n ∷ b)
  Linked-insert [] b (dp, (dn, db)) (vp, (vn, vb)) (x, y, l) = (
    ground arith,
    ground (arith, vn),
    (
      ground (arith, vp),
      ground arith,
      Linked-cong next prev next_in prev_in n b
          (upd-Fresh₂ next v p (some n) (some v) (n ∷ b) (vn, vb) dp)
          (upd-Fresh₂ prev v n (some p) (some v) b vb dn) l,
    ),
  )
  Linked-insert (x ∷ []) b ((dxp, (dxn, dxb)), (dp, d)) (vx, (vp, h)) (nx, px, l) = (
    ground (arith, vx, dxp, nx),
    ground (arith, vp, dp.0, px),
    Linked-insert [] b (dp, d) (vp, h) l,
  )
  Linked-insert (x ∷ z ∷ a) b (dx, d) (vx, (vz, h)) (nx, px, l) =
      let xp = All-right _ a (p ∷ n ∷ b) dx.1 in
      let zn = All-right _ a (p ∷ n ∷ b) d.0 in
      (
        ground (arith, vx, xp.0, nx),
        ground (arith, vz, zn.1.0, px),
        Linked-insert (z ∷ a) b d (vz, h) l,
      )

  -- The writes of `del` behind the head.
  abbrev next_out : ℕ → Option ℕ
  next_out = upd (upd next p (next v)) v none

  abbrev prev_out : ℕ → Option ℕ
  prev_out = upd (upd prev n (prev v)) v none

  pub Linked-remove :
      (a b : List ℕ)
      → Distinct (a ++ p ∷ v ∷ n ∷ b)
      → Linked next prev (a ++ p ∷ v ∷ n ∷ b)
      → Linked next_out prev_out (a ++ p ∷ n ∷ b)
  Linked-remove [] b ((dpv, (dpn, dpb)), ((dvn, dvb), (dnb, db))) (x, y, (z, w, l)) = (
    ground (arith, z, dpv),
    ground (arith, y, dvn),
    Linked-cong next prev next_out prev_out n b
        (upd-Fresh₂ next p v (next v) none (n ∷ b) (dpn, dpb) (dvn, dvb))
        (upd-Fresh₂ prev n v (prev v) none b dnb dvb) l,
  )
  Linked-remove (x ∷ []) b ((dxp, (dxv, dxr)), d) (nx, px, l) =
      (ground (arith, dxp, dxv, nx), ground (arith, d.0.0, d.0.1.0, px), Linked-remove [] b d l)
  Linked-remove (x ∷ z ∷ a) b (dx, d) (nx, px, l) =
      let xp = All-right _ a (p ∷ v ∷ n ∷ b) dx.1 in
      let zp = All-right _ a (p ∷ v ∷ n ∷ b) d.0 in
      (
        ground (arith, xp.0, xp.1.0, nx),
        ground (arith, zp.1.0, zp.1.1.0, px),
        Linked-remove (z ∷ a) b d l,
      )

module _ (next prev : ℕ → Option ℕ) where
  -- A node in front of the chain, and the first one taken off.
  pub Linked-front :
      (v x : ℕ) (r : List ℕ)
      → Fresh v (x ∷ r)
      → Distinct (x ∷ r)
      → Linked next prev (x ∷ r)
      → Linked (upd next v (some x)) (upd prev x (some v)) (v ∷ x ∷ r)
  Linked-front v x r f (dx, d) l = (
    ground arith,
    ground arith,
    Linked-cong next prev (upd next v (some x)) (upd prev x (some v)) x r
        (upd-Fresh next v (some x) (x ∷ r) f) (upd-Fresh prev x (some v) r dx) l,
  )

  pub Linked-behind :
      (v x : ℕ) (r : List ℕ)
      → Distinct (v ∷ x ∷ r)
      → Linked next prev (v ∷ x ∷ r)
      → Linked (upd next v none) (upd (upd prev x none) v none) (x ∷ r)
  Linked-behind v x r (dv, (dx, d)) (a, b, l) =
      Linked-cong next prev (upd next v none) (upd (upd prev x none) v none) x r
        (upd-Fresh next v none (x ∷ r) dv) (upd-Fresh₂ prev x v none none r dx dv.1) l
