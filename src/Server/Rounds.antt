-- ===== src/Server/Rounds.antt =====
-- What a round of a client leaves (`CClientSocket::process`).
use mathlib.Core.Path.{subst}
use relay_proxy.Base.{ℕ, ◌≡◌, ◌⊎◌, inl, inr, refl, sym, ap, ◌∙◌, Bytes, List, Result, ok, >>=-eq-ok}
use relay_proxy.Events.{TimeVal}
use relay_proxy.Routing.{RequestKeyConf, gen_request_key}
use relay_proxy.Socket.{
  Io, Ret, Receiver, recv_ok, recv_have_more, send_ok, send_have_more, connecting, init_ok, receive,
  send,
}
use relay_proxy.Socket.Receive.{of_ok}
use relay_proxy.Client as Client
use relay_proxy.Client.{
  ClientSocket, ClientStatus, RequestConf, free, reading, processing, sending, over, read_request,
  send_answer,
}

pub decode-processing :
    (junk : ℕ → ℕ → ℕ) (relay_no now i : ℕ) (confs : List RequestKeyConf) (c d : ClientSocket)
    → (Client.decode junk relay_no now i confs c).1 ≡ ok d
    → d.status ≡ processing
unfolding Client.decode
decode-processing junk relay_no now i confs c d h =
    let (r, e, g) = >>=-eq-ok (gen_request_key junk _ confs) _ h in
    sym (ap (λ x. x.status) (of_ok _ d g))

-- A step of a client that neither ends the request nor the answer leaves its status.
abbrev pub Steps : ClientSocket → Ret × ClientSocket → Type 0
Steps c (ret, d) = (ret ≡ recv_ok) ⊎ ((ret ≡ send_ok) ⊎ (d.status ≡ c.status))

read_request-Steps :
    (head body : Io) (now : TimeVal) (c : ClientSocket) (s : Bytes) (ret : Ret) (d : ClientSocket)
    (rest : Bytes)
    → read_request head body now c s ≡ ok (ret, d, rest)
    → Steps c (ret, d)
unfolding read_request
read_request-Steps head body now c s ret d rest h =
    let ((ret', r, rest'), e, g) = >>=-eq-ok (receive head body c.receiver s) _ h in
    by_ret ret' r rest' g
  where
    by_ret :
        (ret' : Ret) (r : Receiver) (rest' : Bytes)
        → elim ret' as (λ _. Result (Ret × ClientSocket × Bytes)) [
          | recv_ok ↦
              ok (
                recv_ok,
                record c { receiver = r; status = processing; recv_ok_stamp = now },
                rest',
              )
          | other ↦ ok (other, record c { receiver = r }, rest')
        ]
          ≡ ok (ret, d, rest)
        → Steps c (ret, d)
    by_ret recv_ok r rest' g = inl (ap (λ x. x.0) (sym (of_ok _ (ret, d, rest) g)))
    by_ret recv_have_more r rest' g =
        inr (inr (ap (λ x. x.1.status) (sym (of_ok _ (ret, d, rest) g))))
    by_ret send_ok r rest' g = inr (inr (ap (λ x. x.1.status) (sym (of_ok _ (ret, d, rest) g))))
    by_ret send_have_more r rest' g =
        inr (inr (ap (λ x. x.1.status) (sym (of_ok _ (ret, d, rest) g))))
    by_ret connecting r rest' g = inr (inr (ap (λ x. x.1.status) (sym (of_ok _ (ret, d, rest) g))))
    by_ret init_ok r rest' g = inr (inr (ap (λ x. x.1.status) (sym (of_ok _ (ret, d, rest) g))))

send_answer-Steps :
    (io : Io) (now : TimeVal) (c : ClientSocket) (out : Bytes) (ret : Ret) (d : ClientSocket)
    (out' : Bytes)
    → send_answer io now c out ≡ ok (ret, d, out')
    → Steps c (ret, d)
unfolding send_answer
send_answer-Steps io now c out ret d out' h =
    let ((ret', b, out₁), e, g) = >>=-eq-ok (send io c.receiver.base out) _ h in
    by_ret ret' (record c { receiver = record c.receiver { base = b } }) out₁ refl g
  where
    by_ret :
        (ret' : Ret) (c' : ClientSocket) (out₁ : Bytes)
        → c'.status ≡ c.status
        → elim ret' as (λ _. Result (Ret × ClientSocket × Bytes)) [
          | send_ok ↦ ok (send_ok, record c' { status = over; process_stamp = now }, out₁)
          | other ↦ ok (other, c', out₁)
        ]
          ≡ ok (ret, d, out')
        → Steps c (ret, d)
    by_ret send_ok c' out₁ k g = inr (inl (ap (λ x. x.0) (sym (of_ok _ (ret, d, out') g))))
    by_ret recv_ok c' out₁ k g =
        inr (inr (ap (λ x. x.1.status) (sym (of_ok _ (ret, d, out') g)) ∙ k))
    by_ret recv_have_more c' out₁ k g =
        inr (inr (ap (λ x. x.1.status) (sym (of_ok _ (ret, d, out') g)) ∙ k))
    by_ret send_have_more c' out₁ k g =
        inr (inr (ap (λ x. x.1.status) (sym (of_ok _ (ret, d, out') g)) ∙ k))
    by_ret connecting c' out₁ k g =
        inr (inr (ap (λ x. x.1.status) (sym (of_ok _ (ret, d, out') g)) ∙ k))
    by_ret init_ok c' out₁ k g =
        inr (inr (ap (λ x. x.1.status) (sym (of_ok _ (ret, d, out') g)) ∙ k))

pub process-Steps :
    (head body write : Io) (now : TimeVal) (c : ClientSocket) (stream out : Bytes) (ret : Ret)
    (d : ClientSocket) (stream' out' : Bytes)
    → (c.status ≡ reading) ⊎ (c.status ≡ sending)
    → Client.process head body write now c stream out ≡ ok (ret, d, stream', out')
    → Steps c (ret, d)
unfolding Client.process Client.process_at
process-Steps head body write now c stream out ret d stream' out' (inl a) h =
    let ((ret', d', r), e, g) =
      >>=-eq-ok (read_request head body now c stream) _
        (sym (ap (λ x. Client.process_at x head body write now c stream out) a) ∙ h) in
    subst (λ x. Steps c (x.0, x.1)) (of_ok (ret', d', r, out) (ret, d, stream', out') g)
      (read_request-Steps head body now c stream ret' d' r e)
process-Steps head body write now c stream out ret d stream' out' (inr a) h =
    let ((ret', d', r), e, g) =
      >>=-eq-ok (send_answer write now c out) _
        (sym (ap (λ x. Client.process_at x head body write now c stream out) a) ∙ h) in
    subst (λ x. Steps c (x.0, x.1)) (of_ok (ret', d', stream, r) (ret, d, stream', out') g)
      (send_answer-Steps write now c out ret' d' r e)
