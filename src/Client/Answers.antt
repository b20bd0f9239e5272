-- ===== src/Client/Answers.antt =====
-- What a client is answered (`CClientSocket::encode`), and the request that goes on
-- (`CClientSocket::decode`).
use mathlib.Core.Path.{subst}
use relay_proxy.Base.{
  ℕ, zero, suc, ◌+◌, ◌-◌, ◌≤◌, ◌<◌, ◌%◌, ◌/◌, ◌^◌, ◌++◌, ◌≡◌, inl, inr, refl, sym, ap, ◌∙◌, Bytes,
  codes, eqb, Bool, true, not, ◌&&◌, if◌then◌else◌, leb, ltb, ◌==◌, Option, none, some, List, [],
  ◌∷◌, length, drop, Map, insert, find-insert_self, bytes_key, int_key, length-append, ok,
  >>=-eq-ok, Bool-cases, arith,
}
use relay_proxy.Text.{atoi}
use relay_proxy.Routing.{RequestKeyConf, value_of, gen_request_key}
use relay_proxy.Socket as Socket
use relay_proxy.Socket.{max_packet_len}
use relay_proxy.Socket.Head.{frame}
use relay_proxy.Socket.Receive.{of_ok}
use relay_proxy.Socket.Framing.{decode-frame, if_true, if_false}
use relay_proxy.Client.{
  ClientSocket, Escapes, key_result, key_res_info, busy_text, text_for, is_original_code,
  kept_params, escaped_params, digits, drop_zeros, unsigned_text, at_least_three, msg_no, decode,
  contains, c_str,
}

value_of-insert_self : (k v : Bytes) (m : Map Bytes Bytes) → value_of k (insert k v m) ≡ v
unfolding value_of
value_of-insert_self k v m = ap (λ o. elim o [ none ↦ [] | some w ↦ w ]) (find-insert_self k v m)

-- The text that goes back for a code.
abbrev answer_text : Escapes → Map Bytes Bytes → Bytes
answer_text escapes param =
    let text = text_for escapes (atoi (value_of key_result param)) (value_of key_res_info param) in
    if ltb 0 (length text) then text else busy_text (value_of key_result param)

abbrev pub or_busy : (text busy : Bytes) → Bytes
or_busy [] busy = busy
or_busy (c ∷ s) busy = c ∷ s

-- What is told for a code: by the entry of the code, if it has one, by what the server said and by what
-- is said in place of nothing.
abbrev pub told_text : Option Bytes → (said busy : Bytes) → Bytes
told_text none said busy = or_busy said busy
told_text (some text) said busy = if eqb text (codes "NO_ESCAPE") then busy else or_busy text busy

abbrev by_entry : Option Bytes → Bytes → Bytes
by_entry none said = said
by_entry (some text) said = if eqb text (codes "NO_ESCAPE") then [] else text

-- A code that is configured as `NO_ESCAPE` loses the text of the server: the answer of a text
-- protocol says `[code]system busy`, whatever the server said.
pub escaped_params-original :
    (escapes : Escapes) (is_detail : Bool) (param : Map Bytes Bytes)
    → is_original_code escapes (atoi (value_of key_result param)) ≡ true
    → value_of key_res_info (escaped_params escapes is_detail param)
      ≡ busy_text (value_of key_result param)
unfolding escaped_params text_for
escaped_params-original escapes is_detail param e =
    value_of-insert_self key_res_info (answer_text escapes param) (kept_params is_detail param)
    ∙ rw e refl

length-digits : (w n : ℕ) → length (digits w n) ≡ w
unfolding digits
length-digits zero n = refl
length-digits (suc w) n =
    length-append (digits w (n / 10)) ((48 + n % 10) ∷ []) ∙ omega (arith, length-digits w (n / 10))

drop_zeros-length : (s : Bytes) → length (drop_zeros s) ≤ length s
unfolding drop_zeros
drop_zeros-length [] = omega arith
drop_zeros-length (c ∷ []) = omega arith
drop_zeros-length (c ∷ d ∷ s) = elim (Bool-cases (c == 48)) [
  | inl e ↦ rw e (omega (arith, drop_zeros-length (d ∷ s)))
  | inr e ↦ rw e (omega arith)
]

at_least_three-length : (s : Bytes) → length s ≤ 10 → length (at_least_three s) ≤ 10
at_least_three-length [] h = omega arith
at_least_three-length (a ∷ []) h = omega arith
at_least_three-length (a ∷ b ∷ []) h = omega arith
at_least_three-length (a ∷ b ∷ c ∷ s) h = h

unsigned_text-length : (n : ℕ) → length (unsigned_text n) ≤ 10
unfolding unsigned_text
unsigned_text-length n = omega (arith, drop_zeros-length (digits 10 n), length-digits 10 n)

length-parts :
    (a b c d e : Bytes)
    → length (a ++ b ++ c ++ d ++ e) ≡ length a + length b + length c + length d + length e
length-parts a b c d e = omega (
  arith,
  length-append (a ++ b ++ c ++ d) e,
  length-append (a ++ b ++ c) d,
  length-append (a ++ b) c,
  length-append a b,
)

msg_no-length : (relay_no now i : ℕ) → length (msg_no relay_no now i) ≤ 38
unfolding msg_no
msg_no-length relay_no now i =
    bound (at_least_three (unsigned_text relay_no)) (digits 10 now) (digits 10 i)
      (at_least_three-length (unsigned_text relay_no) (unsigned_text-length relay_no))
      (length-digits 10 now) (length-digits 10 i)
  where
    bound :
        (a b c : Bytes)
        → length a ≤ 10
        → length b ≡ 10
        → length c ≡ 10
        → length (codes "MSG_NO=" ++ a ++ b ++ c ++ codes "&") ≤ 38
    bound a b c ha hb hc =
        omega (arith, length-parts (codes "MSG_NO=") a b c (codes "&"), ha, hb, hc)

abbrev number_due : ClientSocket → Bool
number_due c =
    not (contains (codes "MSG_NO") (c_str (drop 4 c.receiver.base.process_buf)))
    && leb c.receiver.base.process_total (max_packet_len - 64)

-- The request that goes on, its number included, fits its buffer with the zero at its end, and is
-- what the client sent, behind the number if there is one. The packet of the client has at most
-- 31996 bytes; the number of the relay, the time and the counter are any.
pub decode-fits :
    (junk : ℕ → ℕ → ℕ) (relay_no now i : ℕ) (confs : List RequestKeyConf) (c d : ClientSocket)
    (j : ℕ) (p : Bytes)
    → c.receiver.base.process_buf ≡ frame p
    → c.receiver.base.process_total ≡ length p + 4
    → length p ≤ 31996
    → decode junk relay_no now i confs c ≡ (j, ok d)
    → (length d.req_packet < 32000) × ((number : Bytes) × (d.req_packet ≡ number ++ p))
unfolding decode
decode-fits junk relay_no now i confs c d j p b t hi h =
    let packet = decode-frame c.receiver.base p hi b in
    let number = msg_no relay_no now ((i + 1) % 2 ^ 32) in
    let request : Bytes =
      if number_due c
      then number ++ Socket.decode c.receiver.base
      else Socket.decode c.receiver.base in
    let (r, e, g) = >>=-eq-ok (gen_request_key junk (c_str request) confs) _ (ap (λ x. x.1) h) in
    let sent : d.req_packet ≡ request = ap (λ x. x.req_packet) (sym (of_ok _ d g)) in
    elim (Bool-cases (number_due c)) [
      | inl due ↦
          let whole = sent ∙ if_true (number_due c) _ _ due ∙ ap (λ x. number ++ x) packet in
          (
            subst (λ s. length s < 32000) (sym whole)
                (omega (
                  arith,
                  length-append number p,
                  msg_no-length relay_no now ((i + 1) % 2 ^ 32),
                  room c p t due,
                )),
            (number, whole),
          )
      | inr known ↦
          let whole = sent ∙ if_false (number_due c) _ _ known ∙ packet in
          (subst (λ s. length s < 32000) (sym whole) (omega (arith, hi)), ([], whole))
    ]
  where
    room :
        (c : ClientSocket) (p : Bytes)
        → c.receiver.base.process_total ≡ length p + 4
        → number_due c ≡ true
        → length p + 4 ≤ 31936
    room c p t due = ground (arith, t, due)
