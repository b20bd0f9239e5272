-- ===== src/Calls/Cycle.antt =====
-- A whole call over a relay connection (`CApiBase::process` with `CRelayApi`): connect, send, answer.
use mathlib.Core.Path.{subst}
use relay_proxy.Base.{
  ◌≤◌, ◌≡◌, ◌⊎◌, inl, inr, refl, sym, ap, ◌∙◌, ◌++◌, Bytes, false, not, ◌&&◌, is_some, List, [],
  ◌∷◌, length, Result, ok, ◌>>=◌, >>=-eq-ok, check, Bool-cases,
}
use relay_proxy.Base.{Exception}
use relay_proxy.Socket.{Ret, recv_ok, recv_have_more, send_ok, send_have_more, connecting, init_ok}
use relay_proxy.Socket.Head.{frame}
use relay_proxy.Socket.Framing.{decode-frame}
use relay_proxy.Socket.Receive.{of_ok}
use relay_proxy.Calls.{
  Kernel, State, Connection, relay, over, is_idle, process, process_at, encode, decode, decode_by,
  is_read_done,
}
use relay_proxy.Calls.Phases.{
  Waiting, Sending, Reading, Answered, process_init-Begun, process_send-Progressing,
  process_read-Arriving,
}

-- The calls of `process` that the event loop makes until the answer is complete.
unfoldable pub run : List Kernel → State → Result (Ret × State)
run [] s = ok (recv_have_more, s)
run (k ∷ ks) s =
    process k s >>= λ (ret, t). elim ret [ recv_ok ↦ ok (recv_ok, t) | other ↦ run ks t ]

module _ (p ans rest out : Bytes) (lo : 1 ≤ length ans) (hi : length ans ≤ 31996) where
  abbrev Phase : State → Type 0
  Phase s = Waiting p ans rest out s ⊎ (Sending p ans rest out s ⊎ Reading p ans rest out s)

  abbrev After : Ret × State → Type 0
  After (ret, t) =
      ((ret ≡ recv_ok) × Answered p ans rest out t)
      ⊎ (((ret ≡ connecting)
            ⊎ (ret ≡ init_ok)
            ⊎ (ret ≡ send_have_more)
            ⊎ (ret ≡ send_ok)
            ⊎ (ret ≡ recv_have_more))
          × Phase t)

  process-After :
      (k : Kernel) (s : State) (t : Ret × State) → Phase s → process k s ≡ ok t → After t
  unfolding process process_at
  process-After k s t h e = elim h [
    | inl w ↦
        elim (process_init-Begun p ans rest out k s t w (elim w.at [
          | inl a ↦ sym (ap (λ x. process_at x k s) a) ∙ e
          | inr a ↦ sym (ap (λ x. process_at x k s) a) ∙ e
        ])) [ inl (r, w') ↦ inr (inl r, inl w') | inr (r, w') ↦ inr (inr (inl r), inr (inl w')) ]
    | inr (inl w) ↦
        elim (process_send-Progressing p ans rest out k s t w
          (sym (ap (λ x. process_at x k s) w.at) ∙ e)) [
            | inl (r, w') ↦ inr (inr (inr (inl r)), inr (inl w'))
            | inr (r, w') ↦ inr (inr (inr (inr (inl r))), inr (inr w'))
          ]
    | inr (inr w) ↦
        elim (process_read-Arriving p ans rest out lo hi k s t w
          (sym (ap (λ x. process_at x k s) w.at) ∙ e)) [
            | inl (r, w') ↦ inr (inr (inr (inr (inr r))), inr (inr w'))
            | inr (r, w') ↦ inl (r, w')
          ]
  ]

  run-Answered :
      (ks : List Kernel) (s t : State)
      → Phase s
      → run ks s ≡ ok (recv_ok, t)
      → Answered p ans rest out t
  unfolding run
  run-Answered [] s t h e = absurd (cc e)
  run-Answered (k ∷ ks) s t h e =
      let ((ret, u), e₁, g) = >>=-eq-ok (process k s) _ e in
      elim (process-After k s (ret, u) h e₁) [
        | inl (r, a) ↦
            subst (λ x. Answered p ans rest out x.1) (of_ok (recv_ok, u) (recv_ok, t) (rw r at g)) a
        | inr (r, h') ↦ run-Answered ks u t h' (on ks ret u t r g)
      ]
    where
      on :
          (ks : List Kernel) (ret : Ret) (u t : State)
          → ((ret ≡ connecting)
              ⊎ (ret ≡ init_ok)
              ⊎ (ret ≡ send_have_more)
              ⊎ (ret ≡ send_ok)
              ⊎ (ret ≡ recv_have_more))
          → elim ret as (λ _. Result (Ret × State)) [ recv_ok ↦ ok (recv_ok, u) | other ↦ run ks u ]
            ≡ ok (recv_ok, t)
          → run ks u ≡ ok (recv_ok, t)
      on ks ret u t r g = elim r [
        | inl r ↦ rw r at g
        | inr (inl r) ↦ rw r at g
        | inr (inr (inl r)) ↦ rw r at g
        | inr (inr (inr (inl r))) ↦ rw r at g
        | inr (inr (inr (inr r))) ↦ rw r at g
      ]

pub encode-Waiting :
    (p service ans rest out : Bytes) (a b : Connection)
    → a.protocol ≡ relay
    → a.receiver.is_head ≡ false
    → encode p service a ≡ ok b
    → Waiting p ans rest out (record { api = b; stream = frame ans ++ rest; sent = out })
unfolding encode
encode-Waiting p service ans rest out a b r n e =
    elim (Bool-cases
      (is_idle a.status && not (is_some a.req_packet) && not (is_some a.other_info))) [
        | inl idle ↦
            subst
              (λ x.
                Waiting p ans rest out (record { api = x; stream = frame ans ++ rest; sent = out }))
              (of_ok _ _ (rw idle at e))
              (record {
                by_relay = r;
                request = refl;
                no_head = n;
                nothing_sent = refl;
                coming = refl;
                at = inl refl;
              })
        | inr busy ↦ absurd (cc (rw busy at e))
      ]

-- A call over a relay connection is exact: when a packet was given to an idle connection, and the
-- event loop steps the connection in any number of turns until the answer is complete, then the
-- server was sent the packet with its length and nothing else, `decode` gives the packet that the
-- server framed and ends the call, and what follows the answer stays in the stream. The answer has
-- from 1 to 31996 bytes, and no part of an earlier one is in the buffer.
pub run-exact :
    (ks : List Kernel) (p service ans rest out : Bytes) (a b : Connection) (t : State)
    → a.protocol ≡ relay
    → a.receiver.is_head ≡ false
    → 1 ≤ length ans
    → length ans ≤ 31996
    → encode p service a ≡ ok b
    → run ks (record { api = b; stream = frame ans ++ rest; sent = out }) ≡ ok (recv_ok, t)
    → (t.sent ≡ out ++ frame p)
      × (t.stream ≡ rest)
      × (decode t.api ≡ ok (ans, record t.api { status = over }))
unfolding decode decode_by
run-exact ks p service ans rest out a b t r n lo hi e h =
    let w =
      run-Answered p ans rest out lo hi ks _ t
        (inl (encode-Waiting p service ans rest out a b r n e)) h in
    (
      w.all_sent,
      w.left,
      ap
            (λ x. check (is_read_done x) Exception.assertion (
              decode_by t.api.protocol t.api.receiver.base >>= λ packet.
              ok (packet, record t.api { status = over })))
            w.at
          ∙ ap
              (λ x. decode_by x t.api.receiver.base >>= λ packet.
                ok (packet, record t.api { status = over }))
              w.by_relay
          ∙ ap (λ x. ok (x, record t.api { status = over }))
              (decode-frame t.api.receiver.base ans hi w.answer),
    )
