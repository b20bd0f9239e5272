-- ===== src/Pool/Invariant.antt =====
-- The invariant of a pool, and what a call of `get` owes to its caller.
use relay_proxy.Base.{
  ℕ, suc, ◌+◌, ◌≤◌, ◌<◌, ◌≡◌, ◌≢◌, sym, ◌∙◌, pos_part, Bool, true, false, ◌&&◌, ◌==◌, if◌then◌else◌,
  Option, none, some, [], ◌∷◌, ◌++◌, length, length-append, Result, ok, throw, trpc_exception,
  assertion, null_pointer, arith, Bool-cases, inl, inr, is_some,
}
use relay_proxy.Pool.Leases.{
  apis, leases, count_api, count_lease, count_append, current-clean, leases-clean, pick_used,
  behind_picked,
}
use relay_proxy.Pool.{
  ApiPool, Entries, finished, null_entry, picked, pick, current, old, with_current, with_old, clean,
  delete_free, switch_complete, is_ongoing, push_entry, Outcome,
}
use relay_proxy.Api.{Api, set_used, fini}

abbrev pub no_null : Entries → Bool
no_null [] = true
no_null (e ∷ es) = is_some e && no_null es

pub record IsSound (p : ApiPool) : Type 0 where
  pub size : p.pool_size ≡ length (current p)
  pub solid : no_null (current p) ≡ true
  pub fresh : (j : ℕ) → p.next_id ≤ j → apis j p ≡ 0
  pub unique : (j : ℕ) → apis j p ≤ 1
  pub idle : is_ongoing p.switch_state ≡ false → old p ≡ []
  pub started : is_ongoing p.switch_state ≡ true → 0 < p.switch_factor
  pub within : p.switch_factor ≤ 2147483648
  pub last : p.switch_factor ≡ 2147483648 → is_ongoing p.switch_state ≡ true
  pub bounded : p.pool_size ≤ pos_part p.max_conn_num

-- 1 if the call returned the connection `j`.
abbrev pub granted : Result ℕ → ℕ → ℕ
granted (ok id) j = if id == j then 1 else 0
granted (throw e) j = 0

-- The exceptions that would end the process or report a broken pool.
abbrev pub is_fatal : Result ℕ → Bool
is_fatal (ok id) = false
is_fatal (throw (trpc_exception c)) = true
is_fatal (throw assertion) = true
is_fatal (throw null_pointer) = true
is_fatal (throw e) = false

-- What a call of `get` leaves to its caller and to the holders of the other connections.
pub record Kept (p : ApiPool) (o : Outcome) : Type 0 where
  pub sound : IsSound o.0
  pub counted : (j : ℕ) → leases j o.0 ≡ leases j p + granted o.2 j

-- The same, and that it ends without a fatal exception.
pub record Served (p : ApiPool) (o : Outcome) : Type 0 where
  pub sound : IsSound o.0
  pub counted : (j : ℕ) → leases j o.0 ≡ leases j p + granted o.2 j
  pub harmless : is_fatal o.2 ≡ false

pub Served-Kept : (p : ApiPool) (o : Outcome) → Served p o → Kept p o
Served-Kept p o s = record { sound = s.sound; counted = s.counted }

no_null-append :
    (es fs : Entries) → no_null es ≡ true → no_null fs ≡ true → no_null (es ++ fs) ≡ true
no_null-append [] fs h k = k
no_null-append (e ∷ es) fs h k = ground (arith, no_null-append es fs)

pub no_null-pick :
    (tcp_ok : ℕ → Bool) (es fs : Entries) (id : ℕ)
    → pick tcp_ok es ≡ picked fs id
    → no_null es ≡ true
    → no_null fs ≡ true
unfolding pick
no_null-pick tcp_ok [] fs id e h = absurd (cc e)
no_null-pick tcp_ok (none ∷ es) fs id e h = absurd (cc e)
no_null-pick tcp_ok (some a ∷ es) fs id e h = elim (Bool-cases a.is_used) [
  | inl used ↦
      let (gs, r, q) =
        behind_picked (some a) (pick tcp_ok es) fs id (sym (pick_used tcp_ok a es used) ∙ e) in
      rw q (no_null-pick tcp_ok es gs id r h)
  | inr free ↦ ground arith
]

pub pick-ne-null_entry :
    (tcp_ok : ℕ → Bool) (es : Entries) → no_null es ≡ true → pick tcp_ok es ≢ null_entry
unfolding pick
pick-ne-null_entry tcp_ok [] h = λ e. cc e
pick-ne-null_entry tcp_ok (none ∷ es) h = absurd (cc h)
pick-ne-null_entry tcp_ok (some a ∷ es) h = ground (arith, pick-ne-null_entry tcp_ok es h)

-- The fields that the clean-up leaves alone, and the state that it leaves.
pub clean_fields :
    (p : ApiPool)
    → ((clean p).pool_size ≡ p.pool_size)
      × ((clean p).next_id ≡ p.next_id)
      × ((clean p).switch_factor ≡ p.switch_factor)
      × ((clean p).max_conn_num ≡ p.max_conn_num)
      × ((clean p).need_switch ≡ p.need_switch)
      × ((clean p).server_name ≡ p.server_name)
      × ((clean p).switch_state ≡ (
          if is_ongoing p.switch_state
          then if switch_complete (delete_free (old p)) then finished else p.switch_state
          else p.switch_state))
unfolding clean with_old
clean_fields p = ground arith

pub clean-IsSound : (p : ApiPool) → IsSound p → p.switch_factor < 2147483648 → IsSound (clean p)
clean-IsSound p s small = record {
  size = ground (arith, clean_fields p, current-clean p, s.size);
  solid = ground (arith, current-clean p, s.solid);
  fresh = λ j h. ground (arith, clean_fields p, leases-clean j p, s.fresh j);
  unique = λ j. ground (arith, leases-clean j p, s.unique j);
  idle = ground (arith, clean_fields p, current-clean p, s.idle);
  started = ground (arith, clean_fields p, s.started);
  within = ground (arith, clean_fields p, s.within);
  last = ground (arith, clean_fields p, small);
  bounded = ground (arith, clean_fields p, s.bounded);
}

pub set_used_lem :
    (b : Bool) (a : Api) → ((set_used b a).id ≡ a.id) × ((set_used b a).is_used ≡ true)
unfolding set_used fini
set_used_lem b a = ground arith

pub push_entry_lem :
    (e : Option Api) (p : ApiPool)
    → (current (push_entry e p) ≡ current p ++ (e ∷ []))
      × (old (push_entry e p) ≡ old p)
      × ((push_entry e p).pool_size ≡ suc p.pool_size)
      × ((push_entry e p).next_id ≡ suc p.next_id)
      × ((push_entry e p).switch_factor ≡ p.switch_factor)
      × ((push_entry e p).max_conn_num ≡ p.max_conn_num)
      × ((push_entry e p).switch_state ≡ p.switch_state)
unfolding push_entry current old with_current
push_entry_lem e p = ground arith

pub push_entry-IsSound :
    (a : Api) (p : ApiPool)
    → a.id ≡ p.next_id
    → p.pool_size < pos_part p.max_conn_num
    → IsSound p
    → IsSound (push_entry (some a) p)
unfolding apis count_api
push_entry-IsSound a p new room s =
    let q = push_entry_lem (some a) p in
    record {
      size = ground (arith, q, s.size, length-append (current p) (some a ∷ []));
      solid = ground (arith, q, s.solid, no_null-append (current p) (some a ∷ []));
      fresh = λ j h. ground (arith, q, s.fresh j, count_append j (current p) (some a ∷ []));
      unique =
          λ j. ground (arith, q, s.fresh j, s.unique j, count_append j (current p) (some a ∷ []));
      idle = ground (arith, q, s.idle);
      started = ground (arith, q, s.started);
      within = ground (arith, q, s.within);
      last = ground (arith, q, s.last);
      bounded = ground (arith, q, s.bounded);
    }

pub push_entry-leases :
    (a : Api) (p : ApiPool) (j : ℕ)
    → a.id ≡ p.next_id
    → a.is_used ≡ true
    → leases j (push_entry (some a) p) ≡ leases j p + granted (ok p.next_id) j
unfolding leases count_lease
push_entry-leases a p j new used =
    ground (arith, push_entry_lem (some a) p, count_append j (current p) (some a ∷ []))
