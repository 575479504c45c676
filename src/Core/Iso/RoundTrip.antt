-- ===== src/Core/Iso/RoundTrip.antt =====
-- Theorems on the packet descriptors that usbip_common.c writes and reads.
use mathlib.Core.List.{append_assoc}
use usbip.Base.{
  ℕ, ◌+◌, ◌^◌, ◌<◌, ◌≡◌, refl, true, false, List, [], ◌∷◌, ◌++◌, arith, length, length-append,
  drop-append_len, u32,
}
use usbip.Proto.Header.{first_word, after_word, first_word-store, after_word-store}
use usbip.Proto.Endian.{ByteOrder}
use usbip.Proto.Urb.{IsoPacket}
use usbip.Core.Iso.{
  IsoDescriptor, iso_memory, load_iso, iso_packet_correct_endian, pack_iso, unpack_iso,
  iso_descriptors, iso_packets, iso_size,
}

pub record FitsIso (p : IsoPacket) : Type 0 where
  pub offset : p.offset < 2 ^ 32
  pub length : p.length < 2 ^ 32
  pub actual_length : p.actual_length < 2 ^ 32
  pub status : p.status < 2 ^ 32

abbrev pub AllFit : List IsoPacket → Type 0
AllFit [] = Unit {0}
AllFit (p ∷ ps) = FitsIso p × AllFit ps

-- The lengths of the packets, added up in an `int`.
abbrev pub total_from : ℕ → List IsoPacket → ℕ
total_from total [] = total
total_from total (p ∷ ps) = total_from (u32 (total + p.actual_length)) ps

module _ (o : ByteOrder) where
  word : (x : ℕ) (rest : List ℕ) → x < 2 ^ 32 → first_word o.load32 (o.store32 x ++ rest) ≡ x
  word x rest h =
      first_word-store o.load32 (o.store32 x) x rest (o.length-store32 x) (o.load32-store32 x h)

  after : (x : ℕ) (rest : List ℕ) → after_word (o.store32 x ++ rest) ≡ rest
  after x rest = after_word-store (o.store32 x) rest (o.length-store32 x)

  field :
      (x : ℕ) (rest : List ℕ)
      → x < 2 ^ 32
      → o.be32_to_cpu (first_word o.load32 (o.store32 (o.cpu_to_be32 x) ++ rest)) ≡ x
  field x rest h = rw (word (o.cpu_to_be32 x) rest (o.cpu_to_be32-lt x h)) (o.be32-cpu x h)

  -- One descriptor, on its way out and in, whatever follows it.
  packet_round_trip :
      (p : IsoPacket) (rest : List ℕ)
      → FitsIso p
      → unpack_iso (
          iso_packet_correct_endian o
            (load_iso o (iso_memory o (iso_packet_correct_endian o (pack_iso p) true) ++ rest))
            false)
        ≡ p
  unfolding unpack_iso iso_packet_correct_endian load_iso iso_memory pack_iso
  packet_round_trip p rest f =
      let wire = λ (x : ℕ). o.store32 (o.cpu_to_be32 x) in
      let r3 : List ℕ = wire p.status ++ rest in
      let r2 : List ℕ = wire p.actual_length ++ r3 in
      let r1 : List ℕ = wire p.length ++ r2 in
      simp (append_assoc, after)
        (λ i. record {
          offset = field p.offset r1 f.offset i;
          length = field p.length r2 f.length i;
          status = field p.status rest f.status i;
          actual_length = field p.actual_length r3 f.actual_length i;
        })

  pub length-iso_memory : (d : IsoDescriptor) → length (iso_memory o d) ≡ iso_size
  unfolding iso_memory
  length-iso_memory d = omega (
    arith,
    length-append (o.store32 d.offset)
        (o.store32 d.length ++ (o.store32 d.actual_length ++ o.store32 d.status)),
    length-append (o.store32 d.length) (o.store32 d.actual_length ++ o.store32 d.status),
    length-append (o.store32 d.actual_length) (o.store32 d.status),
    o.length-store32 d.offset,
    o.length-store32 d.length,
    o.length-store32 d.actual_length,
    o.length-store32 d.status,
  )

  -- The descriptors of all packets of an URB, read back, are the packets, and the total that is
  -- counted while they are read is the sum of their lengths as an `int`.
  pub iso_round_trip_from :
      (ps : List IsoPacket) (total : ℕ)
      → AllFit ps
      → iso_packets o (length ps) (iso_descriptors o (length ps) ps) total
        ≡ (ps, total_from total ps)
  unfolding iso_packets iso_descriptors
  iso_round_trip_from [] total f = refl
  iso_round_trip_from (p ∷ ps) total f =
      rw (packet_round_trip p (iso_descriptors o (length ps) ps) f.0) (
        rw
          (drop-append_len iso_size (iso_memory o (iso_packet_correct_endian o (pack_iso p) true))
            (iso_descriptors o (length ps) ps) (length-iso_memory _))
          (rw (iso_round_trip_from ps (u32 (total + p.actual_length)) f.1) refl))
