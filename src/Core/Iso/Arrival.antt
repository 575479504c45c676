-- ===== src/Core/Iso/Arrival.antt =====
-- The theorem on the packet descriptors that one machine sends and another receives.
use usbip.Base.{
  ℕ, zero, suc, ◌*◌, ◌^◌, ◌<◌, ◌≡◌, refl, sym, ap, ◌∙◌, ◌⊎◌, inl, inr, true, false, List, [], ◌∷◌,
  ◌++◌, Option, none, some, arith, length, length-append, take-append_len, drop-append_len, u32,
  neg, epipe, is_negative, take, drop, ◌==◌, if◌then◌else◌, ==-refl, subst,
}
use usbip.Proto.Endian.{ByteOrder}
use usbip.Proto.Urb.{Urb, IsoPacket, is_isochronous}
use usbip.Core.Events.{Events, no_event}
use usbip.Core.Device.{Side}
use usbip.Core.Socket.{Socket}
use usbip.Core.Recv.{usbip_recv, event_error_tcp}
use usbip.Core.Recv.Bounds.{usbip_recv-Outcome, Outcome}
use usbip.Core.Iso.{
  iso_memory, iso_packet_correct_endian, pack_iso, iso_descriptors, iso_packets, iso_size, rounds,
  alloc_iso_desc_pdu, recv_packets, recv_iso, store_packets,
}
use usbip.Core.Iso.RoundTrip.{FitsIso, AllFit, total_from, iso_round_trip_from, length-iso_memory}

module _ (o o' : ByteOrder) where
  word_agree : (x : ℕ) → x < 2 ^ 32 → o.store32 (o.cpu_to_be32 x) ≡ o'.store32 (o'.cpu_to_be32 x)
  word_agree x h = o.store32-be x h ∙ sym (o'.store32-be x h)

  packet_agree :
      (p : IsoPacket)
      → FitsIso p
      → iso_memory o (iso_packet_correct_endian o (pack_iso p) true)
        ≡ iso_memory o' (iso_packet_correct_endian o' (pack_iso p) true)
  unfolding iso_memory iso_packet_correct_endian pack_iso
  packet_agree p f =
      rw
        (
          word_agree p.offset f.offset,
          word_agree p.length f.length,
          word_agree p.actual_length f.actual_length,
          word_agree p.status f.status,
        )
        refl

  -- Both machines write the same descriptors.
  descriptors_agree :
      (n : ℕ) (ps : List IsoPacket) → AllFit ps → iso_descriptors o n ps ≡ iso_descriptors o' n ps
  unfolding iso_descriptors
  descriptors_agree zero ps f = refl
  descriptors_agree (suc n) [] f = refl
  descriptors_agree (suc n) (p ∷ ps) f = rw (packet_agree p f.0) (
      ap (◌++◌ (iso_memory o' (iso_packet_correct_endian o' (pack_iso p) true)))
        (descriptors_agree n ps f.1))

length-iso_descriptors :
    (o : ByteOrder) (n : ℕ) (ps : List IsoPacket)
    → length ps ≡ n
    → length (iso_descriptors o n ps) ≡ n * iso_size
unfolding iso_descriptors
length-iso_descriptors o zero ps h = refl
length-iso_descriptors o (suc n) [] h = absurd (omega arith)
length-iso_descriptors o (suc n) (p ∷ ps) h = omega (
  arith,
  length-append (iso_memory o (iso_packet_correct_endian o (pack_iso p) true))
      (iso_descriptors o n ps),
  length-iso_memory o (iso_packet_correct_endian o (pack_iso p) true),
  length-iso_descriptors o n ps (omega arith),
)

pub alloc_iso_desc_pdu-is :
    (o : ByteOrder) (urb : Urb)
    → urb.number_of_packets * iso_size < 2 ^ 31
    → alloc_iso_desc_pdu o true urb
      ≡ some (
        iso_descriptors o urb.number_of_packets urb.iso_frame_desc,
        urb.number_of_packets * iso_size,
      )
unfolding alloc_iso_desc_pdu
alloc_iso_desc_pdu-is o urb h =
    let k : is_negative urb.number_of_packets ≡ false = ground arith in
    rw (alloc_iso_desc_pdu, k) refl

module _ (o : ByteOrder) (net : Socket) where
  open net use {S, pending}

  -- The URB with the packets of the sender.
  abbrev pub with_packets : Urb → List IsoPacket → Urb
  with_packets urb ps = record urb { iso_frame_desc = store_packets o ps urb.iso_frame_desc }

  recv_iso-read :
      (side : Side) (urb : Urb) (s : S)
      → is_isochronous urb.pipe.pipetype ≡ true
      → 0 < urb.number_of_packets
      → urb.number_of_packets * iso_size < 2 ^ 31
      → recv_iso o net true side urb (some s)
        ≡ recv_packets o net side urb
            (urb.number_of_packets * iso_size)
            (usbip_recv net (some s) true (urb.number_of_packets * iso_size))
  unfolding recv_iso
  recv_iso-read side urb s i h k =
      let z : (urb.number_of_packets == 0) ≡ false = ground arith in
      let same : u32 (urb.number_of_packets * iso_size) ≡ urb.number_of_packets * iso_size =
        omega arith in
      let m : is_negative (urb.number_of_packets * iso_size) ≡ false = ground arith in
      rw (recv_iso, i, z) (rw same (rw m refl))

  recv_packets-short :
      (side : Side) (urb : Urb) (size ret : ℕ) (bytes : List ℕ) (sock : Option S)
      → (ret == size) ≡ false
      → recv_packets o net side urb size (ret, bytes, sock)
        ≡ (neg epipe, event_error_tcp side, urb, sock)
  unfolding recv_packets
  recv_packets-short side urb size ret bytes sock e = rw (recv_packets, e) refl

  recv_packets-all :
      (side : Side) (urb : Urb) (size : ℕ) (bytes : List ℕ) (ps : List IsoPacket) (total : ℕ)
      (sock : Option S)
      → iso_packets o (rounds urb.number_of_packets) bytes 0 ≡ (ps, total)
      → recv_packets o net side urb size (size, bytes, sock) ≡ (
          if total == urb.actual_length
          then (size, no_event, with_packets urb ps, sock)
          else (neg epipe, event_error_tcp side, with_packets urb ps, sock))
  unfolding recv_packets
  recv_packets-all side urb size bytes ps total sock e = rw (recv_packets, ==-refl size) (rw e refl)

-- How usbip_recv_iso ends where descriptors of the packets `ps` arrive first: it has read them all,
-- the URB has the packets, and whether their lengths add up decides; or a receive fell short.
abbrev pub Arrives :
    (o : ByteOrder) (net : Socket)
    → Side
    → Urb
    → List IsoPacket
    → ℕ
    → List ℕ
    → net.S
    → ℕ × Events × Urb × Option net.S
    → Type 0
Arrives o net side urb ps size later s r =
    (s' : net.S) × (((r ≡ (
          if total_from 0 ps == urb.actual_length
          then (size, no_event, with_packets o net urb ps, some s')
          else (neg epipe, event_error_tcp side, with_packets o net urb ps, some s')))
        × (net.pending s' ≡ later))
      ⊎ ((r ≡ (neg epipe, event_error_tcp side, urb, some s'))
          × (((usbip_recv net (some s) true size).0 == size) ≡ false)))

module _ (o o' : ByteOrder) (net : Socket) where
  open net use {S, pending}

  packets_read :
      (n : ℕ) (ps : List IsoPacket) (bytes : List ℕ)
      → length ps ≡ n
      → n * iso_size < 2 ^ 31
      → AllFit ps
      → bytes ≡ iso_descriptors o n ps
      → iso_packets o' (rounds n) bytes 0 ≡ (ps, total_from 0 ps)
  packets_read n ps bytes l k f b =
      let count : rounds n ≡ length ps = ground arith in
      let same : bytes ≡ iso_descriptors o' (length ps) ps =
        b ∙ (descriptors_agree o o' n ps f ∙ ap (λ m. iso_descriptors o' m ps) (sym l)) in
      ap (λ m. iso_packets o' m bytes 0) count
      ∙ (ap (λ b. iso_packets o' (length ps) b 0) same ∙ iso_round_trip_from o' ps 0 f)

  received :
      (side : Side) (urb : Urb) (ps : List IsoPacket) (n : ℕ) (s : S) (later : List ℕ)
      (r : ℕ × List ℕ × S)
      → urb.number_of_packets ≡ n
      → length ps ≡ n
      → 0 < n
      → n * iso_size < 2 ^ 31
      → AllFit ps
      → pending s ≡ iso_descriptors o n ps ++ later
      → usbip_recv net (some s) true (n * iso_size) ≡ (r.0, r.1, some r.2)
      → Outcome net (n * iso_size) 0 [] s r
      → Arrives o' net side urb ps
          (n * iso_size)
          later
          s
          (recv_packets o' net side urb (n * iso_size) (r.0, r.1, some r.2))
  received side urb ps n s later r c l h k f p e (inr bad) =
      let short : (r.0 == n * iso_size) ≡ false = ground (arith, bad) in
      (
        r.2,
        inr (
          recv_packets-short o' net side urb (n * iso_size) r.0 r.1 (some r.2) short,
          rw e short,
        ),
      )
  received side urb ps n s later r c l h k f p e (inl (got, b, m, q, t)) =
      let size : ℕ = n * iso_size in
      let sent : List ℕ = iso_descriptors o n ps in
      let long : length sent ≡ size = length-iso_descriptors o n ps l in
      let whole : got ++ pending r.2 ≡ sent ++ later = sym q ∙ p in
      let same : got ≡ sent =
        sym (take-append_len size got (pending r.2) m)
        ∙ (ap (take size) whole ∙ take-append_len size sent later long) in
      let rest : pending r.2 ≡ later =
        sym (drop-append_len size got (pending r.2) m)
        ∙ (ap (drop size) whole ∙ drop-append_len size sent later long) in
      let all : r.0 ≡ size = omega (arith, t) in
      let packets : iso_packets o' (rounds urb.number_of_packets) r.1 0 ≡ (ps, total_from 0 ps) =
        ap (λ w. iso_packets o' (rounds w) r.1 0) c ∙ packets_read n ps r.1 l k f (b ∙ same) in
      (
        r.2,
        inl (
          ap (λ w. recv_packets o' net side urb size (w, r.1, some r.2)) all
              ∙ recv_packets-all o' net side urb size r.1 ps (total_from 0 ps) (some r.2) packets,
          rest,
        ),
      )

  -- When the packet descriptors that usbip_alloc_iso_desc_pdu of one machine made for at least
  -- one packet, fewer than 2 ^ 31 bytes, arrive first at another with memory, whatever the byte
  -- orders, usbip_recv_iso of an isochronous URB with as many packets has read exactly them and
  -- stored those packets, and succeeds just if their lengths add up, as an int, to the URB's
  -- actual_length, with -EPIPE and the event of the socket if not; or it returns -EPIPE with
  -- that event after usbip_recv has returned something other than their size.
  pub iso_arrives :
      (side : Side) (sender receiver : Urb) (bytes later : List ℕ) (size : ℕ) (s : S)
      → is_isochronous receiver.pipe.pipetype ≡ true
      → receiver.number_of_packets ≡ sender.number_of_packets
      → length sender.iso_frame_desc ≡ sender.number_of_packets
      → 0 < sender.number_of_packets
      → sender.number_of_packets * iso_size < 2 ^ 31
      → AllFit sender.iso_frame_desc
      → alloc_iso_desc_pdu o true sender ≡ some (bytes, size)
      → pending s ≡ bytes ++ later
      → Arrives o' net side receiver sender.iso_frame_desc size later s
          (recv_iso o' net true side receiver (some s))
  iso_arrives side sender receiver bytes later size s i c l h k f a p =
      let n : ℕ = sender.number_of_packets in
      let both = sym a ∙ alloc_iso_desc_pdu-is o sender k in
      let is_bytes : bytes ≡ iso_descriptors o n sender.iso_frame_desc =
        ap (λ r. elim r [ none ↦ [] | some x ↦ x.0 ]) both in
      let is_size : size ≡ n * iso_size = ap (λ r. elim r [ none ↦ 0 | some x ↦ x.1 ]) both in
      let (r, e, ends) = usbip_recv-Outcome net s (n * iso_size) (omega arith) in
      let run =
        received side receiver sender.iso_frame_desc n s later r c l h k f
          (p ∙ ap (λ b. b ++ later) is_bytes) e ends in
      let step : recv_iso o' net true side receiver (some s)
          ≡ recv_packets o' net side receiver (n * iso_size) (r.0, r.1, some r.2) =
        recv_iso-read o' net side receiver s i (omega arith) (omega arith)
        ∙ (ap
              (λ m.
                recv_packets o' net side receiver (m * iso_size)
                  (usbip_recv net (some s) true (m * iso_size)))
              c
            ∙ ap (recv_packets o' net side receiver (n * iso_size)) e) in
      subst
        (λ m.
          Arrives o' net side receiver sender.iso_frame_desc m later s
            (recv_iso o' net true side receiver (some s)))
        (sym is_size)
        (subst (Arrives o' net side receiver sender.iso_frame_desc (n * iso_size) later s)
          (sym step) run)
