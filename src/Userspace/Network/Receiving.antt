-- ===== src/Userspace/Network/Receiving.antt =====
-- Theorems on the loop of usbip_network.c that receives.
use usbip.Base.{
  ℕ, zero, suc, ◌+◌, ◌-◌, ◌<◌, ◌≤◌, ◌≡◌, refl, sym, ap, ◌∙◌, none, take, drop, length-append,
  take-append_len, drop-append_len, ◌&&◌, ◌||◌, ◌%◌, ◌^◌, ◌⊎◌, inl, inr, List, [], ◌++◌, Option,
  some, arith, length, ltb, ltb→lt, Bool-cases, false, neg, ◌==◌, if◌then◌else◌,
}
use usbip.Core.Socket.{Socket, chunk}
use usbip.Core.Recv.Bounds.{Stored, more-Stored, full, Received-cases}
use usbip.Userspace.Network.{
  xmit_loop, net_recv, ShortOrder, op_unspec, st_ok, send_op_common, recv_op_common,
  net_recv_op_common,
}
use usbip.Userspace.Network.Messages.{op_common_arrives}
use usbip.Proto.Endian.{ByteOrder}

-- A receive of the exchange failed.
abbrev pub Failed : (net : Socket) → net.S → Type 0
Failed net s' =
    (s : net.S) × (size : ℕ) × (got : List ℕ) × (net_recv net s size ≡ some (neg 1, got, s'))

module _ (net : Socket) where
  open net use {S, recvmsg}

  -- The loop got all its bytes, or failed.
  abbrev pub Ends : ℕ → ℕ → List ℕ → S → ℕ × List ℕ × S → Type 0
  Ends size total buf s r = Stored net size total buf s r ⊎ (r.0 ≡ neg 1)

  more-Ends :
      (size total : ℕ) (buf bytes : List ℕ) (s : S) (r : ℕ × List ℕ × S)
      → (recvmsg s size).0 ≡ chunk bytes
      → length bytes < size
      → Ends (size - length bytes) (total + length bytes) (buf ++ bytes) (recvmsg s size).1 r
      → Ends size total buf s r
  more-Ends size total buf bytes s r e h (inr f) = inr f
  more-Ends size total buf bytes s r e h (inl x) = inl (
      more-Stored net size total buf bytes s (recvmsg s size).1 r (net.chunk_pending s size bytes e)
        h x)

  pub loop-Ends :
      (fuel size total : ℕ) (buf : List ℕ) (s : S)
      → 0 < size
      → size ≤ fuel
      → (r : ℕ × List ℕ × S) × (xmit_loop net fuel size total buf s ≡ some r)
        × Ends size total buf s r
  unfolding xmit_loop
  loop-Ends zero size total buf s h k = absurd (omega arith)
  loop-Ends (suc fuel) size total buf s h k = elim (Received-cases (recvmsg s size).0) [
    | inr (c, e) ↦ ((neg 1, buf, (recvmsg s size).1), rw (e, xmit_loop) refl, inr refl)
    | inl (bytes, e) ↦ elim (Bool-cases (ltb 0 (size - length bytes))) [
      | inl m ↦
          let bound = net.chunk_bounds s size bytes e in
          let rest =
            loop-Ends fuel (size - length bytes) (total + length bytes) (buf ++ bytes)
              (recvmsg s size).1 (ltb→lt _ _ m) (omega arith) in
          (
            rest.0,
            rw (e, xmit_loop) (rw m rest.1),
            more-Ends size total buf bytes s rest.0 e (omega (arith, ltb→lt _ _ m)) rest.2,
          )
      | inr d ↦ (
        (total + length bytes, buf ++ bytes, (recvmsg s size).1),
        rw (e, xmit_loop) (rw d refl),
        inl (
          bytes,
          refl,
          full size bytes (net.chunk_bounds s size bytes e).1 d,
          net.chunk_pending s size bytes e,
          ap (◌+◌ total) (full size bytes (net.chunk_bounds s size bytes e).1 d),
        ),
      )
    ]
  ]

  pub net_recv-Ends :
      (s : S) (size : ℕ)
      → 0 < size
      → (r : ℕ × List ℕ × S) × (net_recv net s size ≡ some r) × Ends size 0 [] s r
  unfolding net_recv
  net_recv-Ends s size h =
      let (r, e, ends) = loop-Ends size size 0 [] s h (omega arith) in
      let z : (size == 0) ≡ false = ground arith in (r, rw (net_recv, z) e, ends)

  -- A read of the next bytes of the stream gets them, or fails.
  abbrev pub Reads : S → ℕ → List ℕ → List ℕ → Type 0
  Reads s size wanted later =
      (s' : S) × (((net_recv net s size ≡ some (size, wanted, s')) × (net.pending s' ≡ later))
        ⊎ ((got : List ℕ) × (net_recv net s size ≡ some (neg 1, got, s'))))

  pub net_recv-Reads :
      (s : S) (size : ℕ) (wanted later : List ℕ)
      → 0 < size
      → length wanted ≡ size
      → net.pending s ≡ wanted ++ later
      → Reads s size wanted later
  net_recv-Reads s size wanted later h l p =
      let ((n, got, s'), e, ends) = net_recv-Ends s size h in
      elim ends [
        | inr f ↦ (s', inr (got, e ∙ ap (λ k. some (k, got, s')) f))
        | inl (bytes, g, m, q, t) ↦
            let whole : bytes ++ net.pending s' ≡ wanted ++ later = sym q ∙ p in
            let whole_size : n ≡ size = omega (arith, t) in
            let same : bytes ≡ wanted =
              sym (take-append_len size bytes (net.pending s') m)
              ∙ (ap (take size) whole ∙ take-append_len size wanted later l) in
            let rest : net.pending s' ≡ later =
              sym (drop-append_len size bytes (net.pending s') m)
              ∙ (ap (drop size) whole ∙ drop-append_len size wanted later l) in
            (
              s',
              inl (
                e
                    ∙ (ap (λ b. some (n, b, s')) (g ∙ same)
                        ∙ ap (λ k. some (k, wanted, s')) whole_size),
                rest,
              ),
            )
      ]

pub length-send_op_common :
    (o : ByteOrder) (short : ShortOrder) (code status : ℕ)
    → length (send_op_common o short code status) ≡ 8
unfolding send_op_common
length-send_op_common o short code status =
    let version : List ℕ = short.store16 (short.htons 273) in
    let low : List ℕ = short.store16 (short.htons (code % 2 ^ 16)) in
    let word : List ℕ = o.store32 (o.cpu_to_be32 status) in
    omega (
      arith,
      length-append version (low ++ word),
      length-append low word,
      short.length-store16 (short.htons 273),
      short.length-store16 (short.htons (code % 2 ^ 16)),
      o.length-store32 (o.cpu_to_be32 status),
    )

module _ (net : Socket) (o o' : ByteOrder) (short short' : ShortOrder) where
  open net use {S, pending}

  read-ok :
      (wanted : ℕ) (s : S) (r : ℕ × List ℕ × S)
      → net_recv net s 8 ≡ some r
      → r.0 ≡ 8
      → net_recv_op_common net o' short' wanted s ≡ some (recv_op_common o' short' wanted r.1, r.2)
  unfolding net_recv_op_common
  read-ok wanted s (n, got, s') e t = rw (e, net_recv_op_common) (rw t refl)

  read_failed :
      (wanted : ℕ) (s : S) (r : ℕ × List ℕ × S)
      → net_recv net s 8 ≡ some r
      → r.0 ≡ neg 1
      → net_recv_op_common net o' short' wanted s ≡ some (none, r.2)
  unfolding net_recv_op_common
  read_failed wanted s (n, got, s') e t = rw (e, net_recv_op_common) (rw t refl)

  -- usbip_net_recv_op_common returns where the peer sent a message with a code of 16 bits and a
  -- status of 32 bits before anything else: either its receive failed, or it read exactly that
  -- message, whatever the byte order of each machine, accepted it exactly where its status is
  -- ST_OK and the caller waits for this code or for any, and gave the caller the code.
  pub op_common_received :
      (code status wanted : ℕ) (later : List ℕ) (s : S)
      → code < 2 ^ 16
      → status < 2 ^ 32
      → pending s ≡ send_op_common o short code status ++ later
      → (r : Option ℕ × S) × (net_recv_op_common net o' short' wanted s ≡ some r)
        × (((r.0 ≡ (
                if (wanted == op_unspec || code == wanted) && status == st_ok
                then some code
                else none))
              × (pending r.1 ≡ later))
            ⊎ ((r.0 ≡ none) × ((got : List ℕ) × (net_recv net s 8 ≡ some (neg 1, got, r.1)))))
  unfolding net_recv_op_common net_recv
  op_common_received code status wanted later s c b p =
      let ((n, got, s'), e, ends) = loop-Ends net 8 8 0 [] s (omega arith) (omega arith) in
      let sent : List ℕ = send_op_common o short code status in
      elim ends [
        | inr f ↦ (
          (none, s'),
          read_failed wanted s (n, got, s') e f,
          inr (refl, (got, e ∙ ap (λ k. some (k, got, s')) f)),
        )
        | inl (bytes, g, l, q, t) ↦
            let whole : bytes ++ pending s' ≡ sent ++ later = sym q ∙ p in
            let same : bytes ≡ sent =
              sym (take-append_len 8 bytes (pending s') l)
              ∙ (ap (take 8) whole
                  ∙ take-append_len 8 sent later (length-send_op_common o short code status)) in
            (
              (recv_op_common o' short' wanted got, s'),
              read-ok wanted s (n, got, s') e t,
              inl (
                ap (recv_op_common o' short' wanted) (g ∙ same)
                    ∙ op_common_arrives o o' short short' code status wanted c b,
                sym (drop-append_len 8 bytes (pending s') l)
                    ∙ (ap (drop 8) whole
                        ∙ drop-append_len 8 sent later (length-send_op_common o short code status)),
              ),
            )
      ]
