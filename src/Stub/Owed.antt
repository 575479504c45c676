-- ===== src/Stub/Owed.antt =====
-- Theorems that count the replies that the stub owes (stub_rx.c, stub_tx.c).
use usbip.Base.{
  ℕ, ◌+◌, ◌≡◌, inl, inr, Bool, true, false, List, [], ◌∷◌, ◌++◌, none, some, arith, ◌==◌,
  if◌then◌else◌, Option-cases, neg, enoent,
}
use usbip.Proto.Header.{Header, unlink_seqnum}
use usbip.Stub.State.{StubPriv, StubUnlink, Sdev, find_priv, mark_unlinking, find_urb, remove_priv}
use usbip.Stub.Rx.{Memory, recv_cmd_unlink}
use usbip.Stub.Tx.{complete, complete_priv}

abbrev pub same : ℕ → ℕ → ℕ
same a n = if a == n then 1 else 0

abbrev pub owed_by : ℕ → List StubPriv → ℕ
owed_by n [] = 0
owed_by n (p ∷ ps) = same p.seqnum n + owed_by n ps

abbrev pub owed_unlink : ℕ → List StubUnlink → ℕ
owed_unlink n [] = 0
owed_unlink n (x ∷ xs) = same x.seqnum n + owed_unlink n xs

module _ {S : Type 0} where
  -- How many replies with number `n` the stub still has to send: for requests that the device works
  -- on, for completed ones, and for unlink requests.
  abbrev pub owed : Sdev S → ℕ → ℕ
  owed d n = owed_by n d.priv_init + owed_by n d.priv_tx + owed_unlink n d.unlink_tx

owed_by-append :
    (n : ℕ) (xs ys : List StubPriv) → owed_by n (xs ++ ys) ≡ owed_by n xs + owed_by n ys
owed_by-append n [] ys = omega arith
owed_by-append n (x ∷ xs) ys = omega (arith, owed_by-append n xs ys)

owed_unlink-append :
    (n : ℕ) (xs ys : List StubUnlink)
    → owed_unlink n (xs ++ ys) ≡ owed_unlink n xs + owed_unlink n ys
owed_unlink-append n [] ys = omega arith
owed_unlink-append n (x ∷ xs) ys = omega (arith, owed_unlink-append n xs ys)

owed_by-mark :
    (t m n : ℕ) (ps : List StubPriv) (x : StubPriv)
    → find_priv t ps ≡ some x
    → owed_by n (mark_unlinking t m ps) + same t n ≡ owed_by n ps + same m n
unfolding find_priv mark_unlinking
owed_by-mark t m n [] x e = absurd (ground (arith, e))
owed_by-mark t m n (p ∷ ps) x e = ground (arith, owed_by-mark t m n ps x)

owed_by-remove :
    (u n : ℕ) (ps : List StubPriv) (x : StubPriv)
    → find_urb u ps ≡ some x
    → owed_by n ps ≡ same x.seqnum n + owed_by n (remove_priv u ps)
unfolding find_urb remove_priv
owed_by-remove u n [] x e = absurd (ground (arith, e))
owed_by-remove u n (p ∷ ps) x e = ground (arith, owed_by-remove u n ps x)

find_urb-urb : (u : ℕ) (ps : List StubPriv) (x : StubPriv) → find_urb u ps ≡ some x → x.urb ≡ u
unfolding find_urb
find_urb-urb u [] x e = absurd (ground (arith, e))
find_urb-urb u (p ∷ ps) x e = ground (arith, find_urb-urb u ps x)

-- Whether the device works on a request with that number.
abbrev pub is_pending : ℕ → List StubPriv → Bool
is_pending t ps = elim (find_priv t ps) [ none ↦ false | some x ↦ true ]

module _ {S : Type 0} where
  -- An unlink request, with memory for its answer, adds one reply, under its own number. If the
  -- device works on the request that it names, that request is not answered under its old number any
  -- more; all other replies are as before.
  pub recv_cmd_unlink-owed :
      (memory : Memory) (d : Sdev S) (pdu : Header) (n : ℕ)
      → memory.unlink ≡ true
      → owed (recv_cmd_unlink memory d pdu) n
          + (if is_pending (unlink_seqnum pdu) d.priv_init then same (unlink_seqnum pdu) n else 0)
        ≡ owed d n + same pdu.base.seqnum n
  unfolding recv_cmd_unlink
  recv_cmd_unlink-owed memory d pdu n m =
      elim (Option-cases (find_priv (unlink_seqnum pdu) d.priv_init)) [
        | inl e ↦ ground (
          arith,
          e,
          m,
          owed_unlink-append n d.unlink_tx (record { seqnum = pdu.base.seqnum; status = 0 } ∷ []),
        )
        | inr (x, e) ↦
            ground (arith, e, owed_by-mark (unlink_seqnum pdu) pdu.base.seqnum n d.priv_init x e)
      ]

  complete_priv-owed :
      (mem : Bool) (d : Sdev S) (u : ℕ) (x : StubPriv) (n : ℕ)
      → mem ≡ true
      → find_urb u d.priv_init ≡ some x
      → owed (complete_priv mem d x) n ≡ owed d n
  unfolding complete_priv
  complete_priv-owed mem d u x n m e = ground (
    arith,
    m,
    find_urb-urb u d.priv_init x e,
    owed_by-remove u n d.priv_init x e,
    owed_by-append n d.priv_tx (x ∷ []),
    owed_unlink-append n d.unlink_tx
        (record { seqnum = x.seqnum; status = (d.urb x.urb).status } ∷ []),
  )

  -- The replies with number `n` that are ready to be sent.
  abbrev pub ready : Sdev S → ℕ → ℕ
  ready d n = owed_by n d.priv_tx + owed_unlink n d.unlink_tx

  complete_priv-ready :
      (mem : Bool) (d : Sdev S) (x : StubPriv) (n : ℕ)
      → mem ≡ true
      → ready (complete_priv mem d x) n ≡ ready d n + same x.seqnum n
  unfolding complete_priv
  complete_priv-ready mem d x n m = ground (
    arith,
    m,
    owed_by-append n d.priv_tx (x ∷ []),
    owed_unlink-append n d.unlink_tx
        (record { seqnum = x.seqnum; status = (d.urb x.urb).status } ∷ []),
  )

  -- When the device completes the URB of a request, with a status other than -ENOENT, and no filter
  -- takes it over, and there is memory for an answer, then one more reply is ready, under the number
  -- of the request's entry, and the replies that are owed are the same.
  pub complete-owed :
      (mem : Bool) (d : Sdev S) (u : ℕ) (x : StubPriv) (n : ℕ)
      → mem ≡ true
      → ((d.urb u).status == neg enoent) ≡ false
      → find_urb u d.priv_init ≡ some x
      → (owed (complete mem false d u) n ≡ owed d n)
        × (ready (complete mem false d u) n ≡ ready d n + same x.seqnum n)
  unfolding complete
  complete-owed mem d u x n m s e =
      rw (s, e, complete) (complete_priv-owed mem d u x n m e, complete_priv-ready mem d x n m)
