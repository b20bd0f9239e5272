-- ===== src/System/Keys.antt =====
-- The ranges of request types that the system's configuration gives (`CSystemConf::_get_request_key`).
use relay_proxy.Base.{
  ℕ, zero, suc, ◌+◌, ◌≤◌, ◌<◌, ◌≡◌, inl, inr, sym, ap, ◌∙◌, pos_part, Bytes, codes, false, ltb,
  some, List, [], ◌∷◌, length, get_elem?, ok, >>=-eq-ok, Bool-cases, arith,
}
use mathlib.Core.Path.{subst}
use relay_proxy.Text.{atoi, split}
use relay_proxy.Routing.{RequestKeyConf, split_char}
use relay_proxy.Socket.Receive.{of_ok}
use relay_proxy.System.{
  Data, SystemConf, required, get_value, get_request_key_i, get_request_keys, request_keys_for,
  get_request_key, init_values, max_request_key_num, numbered,
}

get_request_keys-length :
    (values : Data) (i n : ℕ) (keys : List (RequestKeyConf × Bytes))
    → get_request_keys values i n ≡ ok keys
    → length keys ≡ n
unfolding get_request_keys
get_request_keys-length values i zero keys h = ap length (sym (of_ok [] keys h))
get_request_keys-length values i (suc n) keys h =
    let (key, e, g) = >>=-eq-ok (get_request_key_i values i) _ h in
    let (rest, e', g') = >>=-eq-ok (get_request_keys values (suc i) n) _ g in
    ap length (sym (of_ok (key ∷ rest) keys g'))
    ∙ ap suc (get_request_keys-length values (suc i) n rest e')

get_request_keys-get_elem? :
    (values : Data) (i n j : ℕ) (keys : List (RequestKeyConf × Bytes))
    → get_request_keys values i n ≡ ok keys
    → j < n
    → (key : RequestKeyConf × Bytes) × (get_elem? keys j ≡ some key)
      × (get_request_key_i values (i + j) ≡ ok key)
unfolding get_request_keys
get_request_keys-get_elem? values i zero j keys h lt = absurd (omega (arith, lt))
get_request_keys-get_elem? values i (suc n) zero keys h lt =
    let (key, e, g) = >>=-eq-ok (get_request_key_i values i) _ h in
    let (rest, e', g') = >>=-eq-ok (get_request_keys values (suc i) n) _ g in
    (
      key,
      ap (λ x. get_elem? x 0) (sym (of_ok (key ∷ rest) keys g')),
      ap (get_request_key_i values) (plus_zero i) ∙ e,
    )
  where
    plus_zero : (i : ℕ) → i + 0 ≡ i
    plus_zero i = omega arith
get_request_keys-get_elem? values i (suc n) (suc j) keys h lt =
    let (key, e, g) = >>=-eq-ok (get_request_key_i values i) _ h in
    let (rest, e', g') = >>=-eq-ok (get_request_keys values (suc i) n) _ g in
    let (found, at, from) =
      get_request_keys-get_elem? values (suc i) n j rest e' (omega (arith, lt)) in
    (
      found,
      ap (λ x. get_elem? x (suc j)) (sym (of_ok (key ∷ rest) keys g')) ∙ at,
      ap (get_request_key_i values) (plus_suc i j) ∙ from,
    )
  where
    plus_suc : (i j : ℕ) → i + suc j ≡ suc i + j
    plus_suc i j = omega arith

get_request_key_i-bound :
    (values : Data) (i : ℕ) (key : RequestKeyConf × Bytes)
    → get_request_key_i values i ≡ ok key
    → length key.0.request_key ≤ max_request_key_num
unfolding get_request_key_i
get_request_key_i-bound values i key h =
    let (begin, e, h) = >>=-eq-ok (required (numbered (codes "RequestTypeBegin") i) values) _ h in
    let (end, e, h) = >>=-eq-ok (required (numbered (codes "RequestTypeEnd") i) values) _ h in
    let (file, e, h) = >>=-eq-ok (required (numbered (codes "RequestKeyAppConf") i) values) _ h in
    let (text, e, h) = >>=-eq-ok (required (numbered (codes "RequestKey") i) values) _ h in
    elim (Bool-cases (ltb max_request_key_num (length (split split_char 10 text)))) [
      | inl many ↦ absurd (cc (rw many at h))
      | inr few ↦
          subst (λ x. length x.0.request_key ≤ max_request_key_num)
            (of_ok
              (
                record {
                  begin = atoi begin;
                  end = atoi end;
                  request_key = split split_char 10 text;
                },
                file,
              )
              key (rw few at h))
            (at_most (length (split split_char 10 text)) few)
    ]
  where
    at_most : (n : ℕ) → ltb max_request_key_num n ≡ false → n ≤ max_request_key_num
    at_most n few = ground (arith, few)

with_number :
    (values : Data) (n : Bytes)
    → get_value (codes "RequestKeyNum") values ≡ some n
    → get_request_key values ≡ get_request_keys values 0 (pos_part (atoi n))
unfolding get_request_key request_keys_for
with_number values n e = ap (λ o. request_keys_for o values) e

zero_plus : (j : ℕ) → 0 + j ≡ j
zero_plus j = omega arith

-- When the configuration of the system is read and tells the number of ranges, then that many ranges
-- are there, each at the place of its number, as the entries of that number say, and with at most
-- five keys.
pub init_values-request_key :
    (values : Data) (conf : SystemConf) (n : Bytes) (j : ℕ)
    → init_values values ≡ ok conf
    → get_value (codes "RequestKeyNum") values ≡ some n
    → j < pos_part (atoi n)
    → (length conf.request_key ≡ pos_part (atoi n))
      × ((key : RequestKeyConf × Bytes) × (get_elem? conf.request_key j ≡ some key)
          × (get_request_key_i values j ≡ ok key)
          × (length key.0.request_key ≤ max_request_key_num))
unfolding init_values
init_values-request_key values conf n j h e lt =
    let (_, _, h) = >>=-eq-ok (required (codes "ServerIP") values) _ h in
    let (_, _, h) = >>=-eq-ok (required (codes "ServerPort") values) _ h in
    let (_, _, h) = >>=-eq-ok (required (codes "RelayMgrServerIP") values) _ h in
    let (_, _, h) = >>=-eq-ok (required (codes "RelayMgrServerPort") values) _ h in
    let (_, _, h) = >>=-eq-ok (required (codes "RelaySvrNo") values) _ h in
    let (_, _, h) = >>=-eq-ok (required (codes "RemoteLogIp") values) _ h in
    let (_, _, h) = >>=-eq-ok (required (codes "RemoteLogPort") values) _ h in
    let (_, _, h) = >>=-eq-ok (required (codes "ListenThreads") values) _ h in
    let (keys, from, h) = >>=-eq-ok (get_request_key values) _ h in
    let same : conf.request_key ≡ keys = ap (λ x. x.request_key) (sym (of_ok _ conf h)) in
    let read : get_request_keys values 0 (pos_part (atoi n)) ≡ ok keys =
      sym (with_number values n e) ∙ from in
    let (key, at, given) = get_request_keys-get_elem? values 0 (pos_part (atoi n)) j keys read lt in
    let here = ap (get_request_key_i values) (sym (zero_plus j)) ∙ given in
    (
      ap length same ∙ get_request_keys-length values 0 (pos_part (atoi n)) keys read,
      (key, ap (λ x. get_elem? x j) same ∙ at, here, get_request_key_i-bound values j key here),
    )
