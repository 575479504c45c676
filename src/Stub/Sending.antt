-- ===== src/Stub/Sending.antt =====
-- Theorems on stub_send_ret_submit (stub_tx.c).
use mathlib.Core.List.{append_assoc}
use usbip.Base.{
  ℕ, zero, suc, ◌<◌, ◌≡◌, refl, ap, ◌∙◌, ◌⊎◌, inl, inr, Bool, true, false, List, [], ◌∷◌, ◌++◌,
  some, arith, length, Bool-cases, List-cases, sym, subst,
}
use usbip.Proto.Endian.{ByteOrder}
use usbip.Core.Socket.{Socket}
use usbip.Core.Sending.{Sends, Sends-cons, Round, SentOne, SentAll}
use usbip.Stub.State.{StubPriv, Sdev}
use usbip.Stub.Tx.{send_ret_submit, send_one_submit}
use usbip.Stub.Rounds.{SameQueues, send_one_submit-SameQueues, message_of, send_one_submit-Round}

module _ (o : ByteOrder) (net : Socket) where
  open net use {S}

  -- Either all requests are freed, or each is still there, in its order.
  abbrev pub Ended : Sdev S → Bool × Sdev S → Type 0
  Ended d r =
      ((r.0 ≡ true) × (r.1.priv_tx ≡ []) × (r.1.priv_free ≡ []))
      ⊎ ((r.0 ≡ false) × (r.1.priv_free ++ r.1.priv_tx ≡ d.priv_free ++ d.priv_tx))

  -- How a run of stub_send_ret_submit ends, and what it has sent.
  abbrev pub Sent : Bool → Bool → Sdev S → Bool × Sdev S → Type 0
  Sent iov mem d r =
      Ended d r
      × (r.1.priv_init ≡ d.priv_init)
      × (r.1.unlink_tx ≡ d.unlink_tx)
      × Sends net (message_of o net iov mem d.urb) d.priv_tx r.0 r.1.priv_tx d.ud.tcp_socket
          r.1.ud.tcp_socket

  -- After one round: the oldest completed request is the youngest sent one.
  moved : Sdev S → StubPriv → List StubPriv → Sdev S
  moved d x xs = record d { priv_tx = xs; priv_free = d.priv_free ++ x ∷ [] }

  Ended-moved :
      (d k : Sdev S) (x : StubPriv) (xs : List StubPriv) (r : Bool × Sdev S)
      → d.priv_tx ≡ x ∷ xs
      → SameQueues o net (moved d x xs) k
      → Ended k r
      → Ended d r
  unfolding moved
  Ended-moved d k x xs r e (t, f, i, u, m) (inl done) = inl done
  Ended-moved d k x xs r e (t, f, i, u, m) (inr (stop, q)) =
      inr (stop, q ∙ rw (t, f, e) (append_assoc d.priv_free (x ∷ []) xs))

  Sent-moved :
      (iov mem : Bool) (d k : Sdev S) (x : StubPriv) (xs : List StubPriv) (r : Bool × Sdev S)
      → d.priv_tx ≡ x ∷ xs
      → SameQueues o net (moved d x xs) k
      → SentOne net (message_of o net iov mem d.urb) x d.ud.tcp_socket k.ud.tcp_socket
      → Sent iov mem k r
      → Sent iov mem d r
  unfolding moved
  Sent-moved iov mem d k x xs r e (t, f, i, u, m) one (ended, i', u', sends) =
      let message = message_of o net iov mem d.urb in
      let same : message_of o net iov mem k.urb ≡ message = ap (message_of o net iov mem) m in
      let rest : Sends net message xs r.0 r.1.priv_tx k.ud.tcp_socket r.1.ud.tcp_socket =
        subst (λ l. Sends net message l r.0 r.1.priv_tx k.ud.tcp_socket r.1.ud.tcp_socket) t
          (subst (λ g. Sends net g k.priv_tx r.0 r.1.priv_tx k.ud.tcp_socket r.1.ud.tcp_socket) same
            sends) in
      (
        Ended-moved d k x xs r e (t, f, i, u, m) ended,
        i' ∙ i,
        u' ∙ u,
        subst (λ l. Sends net message l r.0 r.1.priv_tx d.ud.tcp_socket r.1.ud.tcp_socket) (sym e)
            (Sends-cons net message x xs r.1.priv_tx r.0 d.ud.tcp_socket k.ud.tcp_socket
              r.1.ud.tcp_socket one rest),
      )

  -- Stub_send_ret_submit ends within one round more than there are completed requests: where it
  -- does not fail, kernel_sendmsg has sent the whole reply of each of them, one after the
  -- other, and all are freed; where it fails, it has sent those before a request whose reply
  -- could not be made or sent, and each request is still there in its order; it leaves the
  -- requests in work and the answers to unlink requests alone.
  pub send_ret_submit_total :
      (fuel : ℕ) (iov mem : Bool) (d : Sdev S)
      → length d.priv_tx < fuel
      → (r : Bool × Sdev S) × (send_ret_submit o net fuel iov mem d ≡ some r) × Sent iov mem d r
  unfolding send_ret_submit moved
  send_ret_submit_total zero iov mem d k = elim k [ ]
  send_ret_submit_total (suc fuel) iov mem d k = elim (List-cases d.priv_tx) [
    | inl e ↦ (
      (true, record d { priv_free = [] }),
      rw (e, send_ret_submit) (ap (λ t. some (true, record d { priv_tx = t; priv_free = [] })) e),
      (
        inl (refl, e, refl),
        refl,
        refl,
        inl (
          refl,
          e,
          subst
              (λ l. SentAll net (message_of o net iov mem d.urb) l d.ud.tcp_socket d.ud.tcp_socket)
              (sym e) refl,
        ),
      ),
    )
    | inr (x, xs, e) ↦
        let d1 : Sdev S = moved d x xs in
        let d2 : Sdev S = (send_one_submit o net iov mem d1 x).1 in
        let step = send_one_submit-SameQueues o net iov mem d1 x in
        let round = send_one_submit-Round o net iov mem d1 x in
        let at : Bool → Type 0 =
          λ b. Round net (message_of o net iov mem d.urb) x b d.ud.tcp_socket d2.ud.tcp_socket in
        elim (Bool-cases (send_one_submit o net iov mem d1 x).0) [
          | inr stop ↦ (
            (false, d2),
            rw (e, send_ret_submit) (rw stop refl),
            (
              inr (refl, rw (step.0, step.1, e) (append_assoc d.priv_free (x ∷ []) xs)),
              step.2,
              step.3,
              inr (
                refl,
                ([], x, d.ud.tcp_socket, e ∙ ap (◌∷◌ x) (sym step.0), refl, subst at stop round),
              ),
            ),
          )
          | inl more ↦
              let rest =
                send_ret_submit_total fuel iov mem d2
                  (omega (arith, ap length step.0, ap length e)) in
              (
                rest.0,
                rw (e, send_ret_submit) (rw more rest.1),
                Sent-moved iov mem d d2 x xs rest.0 e step (subst at more round) rest.2,
              )
        ]
  ]
