-- ===== src/Userspace/Attach/Import.antt =====
-- Theorems on the exchange by which a device is imported (usbipd.c, usbip_attach.c).
use usbip.Base.{
  ℕ, ◌≤◌, ◌≡◌, refl, ap, ◌∙◌, ◌⊎◌, inl, inr, Bool, true, Bool-cases, List, [], ◌++◌, Option, none,
  some, arith, length, neg,
}
use mathlib.Core.List.{append_assoc}
use usbip.Core.Socket.{Socket}
use usbip.Proto.Endian.{ByteOrder}
use usbip.Userspace.Network.{ShortOrder, st_ok, send_op_common, net_recv, net_recv_op_common}
use usbip.Userspace.Network.Receiving.{net_recv-Reads, op_common_received, Failed}
use usbip.Userspace.Devices.{
  UsbDevice, ExportedDevice, op_rep_import, bus_id_size, usb_device_size, strncmp_equal,
  device_bytes, read_device,
}
use usbip.Userspace.Usbipd.{find_exported, host_export_device, reply_import, recv_pdu, st_na}
use usbip.Userspace.Attach.{import_request, query_import_device}
use usbip.Userspace.Devices.Wire.{UsbDeviceFits, read_device-bytes, length-device_bytes}
use usbip.Userspace.Usbipd.Serving.{AllFit, granted, find_exported-cases, recv_pdu-answers}

module _ (net : Socket) (o : ByteOrder) (short : ShortOrder) (busid : List ℕ) where
  query-refused :
      (s s' : net.S)
      → net_recv_op_common net o short op_rep_import s ≡ some (none, s')
      → query_import_device net o short busid s ≡ some (none, s')
  unfolding query_import_device
  query-refused s s' e = rw (query_import_device, e) refl

  query-failed :
      (s s' s'' : net.S) (code : ℕ) (got : List ℕ)
      → net_recv_op_common net o short op_rep_import s ≡ some (some code, s')
      → net_recv net s' usb_device_size ≡ some (neg 1, got, s'')
      → query_import_device net o short busid s ≡ some (none, s'')
  unfolding query_import_device
  query-failed s s' s'' code got e f = rw (query_import_device, e) (rw f refl)

  query-got :
      (s s' s'' : net.S) (code : ℕ) (bytes : List ℕ) (d : UsbDevice)
      → net_recv_op_common net o short op_rep_import s ≡ some (some code, s')
      → net_recv net s' usb_device_size ≡ some (usb_device_size, bytes, s'')
      → read_device o short bytes ≡ d
      → strncmp_equal bus_id_size d.busid busid ≡ true
      → query_import_device net o short busid s ≡ some (some d, s'')
  unfolding query_import_device
  query-got s s' s'' code bytes d e f r k =
      let same : strncmp_equal bus_id_size (read_device o short bytes).busid busid ≡ true =
        ap (λ g. strncmp_equal bus_id_size g.busid busid) r ∙ k in
      rw (query_import_device, e) (rw f (rw same (ap (λ g. some (some g, s'')) r)))

  -- What query_import_device makes of an answer.
  abbrev pub Learns : net.S → Option UsbDevice → List ℕ → Type 0
  Learns s wanted later =
      (r : Option UsbDevice × net.S) × (query_import_device net o short busid s ≡ some r)
      × (((r.0 ≡ wanted) × (net.pending r.1 ≡ later)) ⊎ ((r.0 ≡ none) × Failed net r.1))

  refusal_arrives :
      (o' : ByteOrder) (short' : ShortOrder) (s : net.S) (later : List ℕ)
      → net.pending s ≡ send_op_common o' short' op_rep_import st_na ++ later
      → Learns s none later
  refusal_arrives o' short' s later p =
      let ((code, s1), e, ends) =
        op_common_received net o' o short' short op_rep_import st_na op_rep_import later s
          (omega arith) (omega arith) p in
      elim ends [
        | inr (n, (got, f)) ↦ (
          (none, s1),
          query-refused s s1 (e ∙ ap (λ c. some (c, s1)) n),
          inr (refl, (s, 8, got, f)),
        )
        | inl (c, q) ↦
            ((none, s1), query-refused s s1 (e ∙ ap (λ k. some (k, s1)) c), inl (refl, q))
      ]

  device_arrives :
      (o' : ByteOrder) (short' : ShortOrder) (s : net.S) (d : UsbDevice) (later : List ℕ)
      → UsbDeviceFits d
      → strncmp_equal bus_id_size d.busid busid ≡ true
      → net.pending s
        ≡ send_op_common o' short' op_rep_import st_ok ++ (device_bytes o' short' d ++ later)
      → Learns s (some d) later
  device_arrives o' short' s d later fits k p =
      let ((code, s1), e, ends) =
        op_common_received net o' o short' short op_rep_import st_ok op_rep_import
          (device_bytes o' short' d ++ later) s (omega arith) (omega arith) p in
      elim ends [
        | inr (n, (got, f)) ↦ (
          (none, s1),
          query-refused s s1 (e ∙ ap (λ c. some (c, s1)) n),
          inr (refl, (s, 8, got, f)),
        )
        | inl (c, q) ↦
            let accepted : net_recv_op_common net o short op_rep_import s
                ≡ some (some op_rep_import, s1) =
              e ∙ ap (λ r. some (r, s1)) c in
            let (s2, read) =
              net_recv-Reads net s1 usb_device_size (device_bytes o' short' d) later (omega arith)
                (length-device_bytes o' short' d fits) q in
            elim read [
              | inr (got, f) ↦ (
                (none, s2),
                query-failed s s1 s2 op_rep_import got accepted f,
                inr (refl, (s1, usb_device_size, got, f)),
              )
              | inl (f, rest) ↦ (
                (some d, s2),
                query-got s s1 s2 op_rep_import (device_bytes o' short' d) d accepted f
                    (read_device-bytes o' o short' short d fits) k,
                inl (refl, rest),
              )
            ]
      ]

reply_import-none :
    (o : ByteOrder) (short : ShortOrder) (write : ExportedDevice → Bool)
    → (reply_import o short write none).1 ≡ send_op_common o short op_rep_import st_na
unfolding reply_import
reply_import-none o short write = refl

reply_import-granted :
    (o : ByteOrder) (short : ShortOrder) (write : ExportedDevice → Bool) (e : ExportedDevice)
    → ((granted write (some e) ≡ some e.udev)
        × ((reply_import o short write (some e)).1
            ≡ send_op_common o short op_rep_import st_ok ++ device_bytes o short e.udev))
      ⊎ ((granted write (some e) ≡ none)
          × ((reply_import o short write (some e)).1 ≡ send_op_common o short op_rep_import st_na))
unfolding reply_import
reply_import-granted o short write e = elim (Bool-cases (host_export_device write e)) [
  | inl k ↦ inl (rw k refl, rw k refl)
  | inr k ↦ inr (rw k refl, rw k refl)
]

-- With a bus id of at most 31 characters and devices that fit their structure, usbipd, where
-- the request of usbip attach is the first that arrives, sends nothing because a receive
-- failed, or it sends the answer for the first device whose bus id is the requested one; and
-- usbip attach, where that answer is the first that arrives, has that device, just if it is
-- available and could be exported, or else nothing, whatever the byte orders, and has read no
-- more, or a receive failed.
pub import_granted :
    (server client : Socket) (o o' : ByteOrder) (short short' : ShortOrder)
    (write : ExportedDevice → Bool) (es : List ExportedDevice) (busid more later : List ℕ)
    (t : server.S) (s : client.S)
    → AllFit es
    → length busid ≤ 31
    → server.pending t ≡ import_request o' short' busid ++ more
    → client.pending s ≡ (reply_import o short write (find_exported busid es)).1 ++ later
    → ((r : Bool × List ℕ × server.S) × (recv_pdu server o short write (some es) t ≡ some r)
        × (((r.0, r.1) ≡ reply_import o short write (find_exported busid es))
            ⊎ ((r.1 ≡ []) × Failed server r.2)))
      × ((r : Option UsbDevice × client.S) × (query_import_device client o' short' busid s ≡ some r)
          × (((r.0 ≡ granted write (find_exported busid es)) × (client.pending r.1 ≡ later))
              ⊎ ((r.0 ≡ none) × Failed client r.1)))
import_granted server client o o' short short' write es busid more later t s fits h p q = (
  recv_pdu-answers server o short write es o' short' busid more t h p,
  elim (find_exported-cases busid es fits) [
    | inl n ↦ rw n (
        refusal_arrives client o' short' busid o short s later (
          q
          ∙ ap (λ b. b ++ later)
              (ap (λ c. (reply_import o short write c).1) n ∙ reply_import-none o short write)))
    | inr (e, n, k, f) ↦
        let sent = q ∙ ap (λ c. (reply_import o short write c).1 ++ later) n in
        elim (reply_import-granted o short write e) [
          | inl (g, b) ↦
              rw (n, g)
                (device_arrives client o' short' busid o short s e.udev later f k (
                  sent
                  ∙ (ap (λ c. c ++ later) b
                      ∙ append_assoc (send_op_common o short op_rep_import st_ok)
                          (device_bytes o short e.udev) later)))
          | inr (g, b) ↦
              rw (n, g)
                (refusal_arrives client o' short' busid o short s later
                  (sent ∙ ap (λ c. c ++ later) b))
        ]
  ],
)
