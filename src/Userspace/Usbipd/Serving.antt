-- ===== src/Userspace/Usbipd/Serving.antt =====
-- Theorems on how usbipd answers a request to import a device (usbipd.c).
use usbip.Base.{
  ℕ, zero, suc, ◌-◌, ◌≤◌, ◌≡◌, refl, ap, ◌∙◌, ◌⊎◌, inl, inr, Bool, true, false, Bool-cases, List,
  [], ◌∷◌, ◌++◌, Option, none, some, arith, length, ◌==◌, if◌then◌else◌, neg,
}
use mathlib.Core.List.{append_assoc}
use usbip.Core.Socket.{Socket}
use usbip.Proto.Endian.{ByteOrder}
use usbip.Userspace.Network.{ShortOrder, send_op_common, net_recv, net_recv_op_common, op_unspec}
use usbip.Userspace.Network.Receiving.{net_recv-Reads, op_common_received, Failed}
use usbip.Userspace.Devices.{
  UsbDevice, ExportedDevice, op_req_import, bus_id_size, first, others, strncmp_equal, strncpy,
}
use usbip.Userspace.Usbipd.{
  find_exported, host_export_device, reply_import, recv_request_import, recv_pdu,
}
use usbip.Userspace.Attach.{import_request}
use usbip.Userspace.Devices.Wire.{UsbDeviceFits}

-- Every device in the list fits its structure.
abbrev pub AllFit : List ExportedDevice → Type 0
AllFit [] = Unit
AllFit (e ∷ es) = UsbDeviceFits e.udev × AllFit es

-- The device that a request is granted, with the found one.
abbrev pub granted : (ExportedDevice → Bool) → Option ExportedDevice → Option UsbDevice
granted write none = none
granted write (some e) = if host_export_device write e then some e.udev else none

-- The busid field of a request.
abbrev pub field : List ℕ → List ℕ
field busid = strncpy (bus_id_size - 1) busid ++ 0 ∷ []

eq_comm : (m n : ℕ) → (m == n) ≡ (n == m)
eq_comm m n = elim (Bool-cases (m == n)) [ inr e ↦ ground (arith, e) | inl e ↦ ground (arith, e) ]

eq_zero :
    (m n : ℕ) (r : Bool)
    → (m == n) ≡ true
    → (if m == 0 then true else r) ≡ (if n == 0 then true else r)
eq_zero m n r e = ap (λ k. if k == 0 then true else r) (ground (arith, e))

strncmp_equal_comm : (n : ℕ) (a b : List ℕ) → strncmp_equal n a b ≡ strncmp_equal n b a
unfolding strncmp_equal
strncmp_equal_comm zero a b = refl
strncmp_equal_comm (suc n) a b = elim (Bool-cases (first a == first b)) [
  | inl e ↦
      rw (strncmp_equal, eq_comm (first b) (first a), e)
        (eq_zero (first a) (first b) (strncmp_equal n (others a) (others b)) e
          ∙ ap (λ r. if first b == 0 then true else r) (strncmp_equal_comm n (others a) (others b)))
  | inr e ↦ rw (strncmp_equal, eq_comm (first b) (first a), e) refl
]

-- A string that fits the field is compared as the field is.
strncmp_equal-strncpy :
    (n : ℕ) (b x : List ℕ)
    → length b ≤ n
    → strncmp_equal (suc n) (strncpy n b ++ 0 ∷ []) x ≡ strncmp_equal (suc n) b x
unfolding strncmp_equal strncpy
strncmp_equal-strncpy zero [] x h = refl
strncmp_equal-strncpy zero (y ∷ ys) x h = absurd (omega arith)
strncmp_equal-strncpy (suc n) [] x h = refl
strncmp_equal-strncpy (suc n) (y ∷ ys) x h =
    ap (λ rest. if y == first x then (if y == 0 then true else rest) else false)
      (strncmp_equal-strncpy n ys (others x) (omega arith))

find_exported-field :
    (busid : List ℕ) (es : List ExportedDevice)
    → length busid ≤ 31
    → find_exported (field busid) es ≡ find_exported busid es
unfolding find_exported
find_exported-field busid [] h = refl
find_exported-field busid (e ∷ es) h =
    rw (find_exported, strncmp_equal-strncpy 31 busid e.udev.busid h)
      (ap (λ r. if strncmp_equal bus_id_size busid e.udev.busid then some e else r)
        (find_exported-field busid es h))

pub find_exported-cases :
    (busid : List ℕ) (es : List ExportedDevice)
    → AllFit es
    → (find_exported busid es ≡ none)
      ⊎ ((e : ExportedDevice) × (find_exported busid es ≡ some e)
          × (strncmp_equal bus_id_size e.udev.busid busid ≡ true)
          × UsbDeviceFits e.udev)
unfolding find_exported
find_exported-cases busid [] f = inl refl
find_exported-cases busid (e ∷ es) (p, f) =
    elim (Bool-cases (strncmp_equal bus_id_size busid e.udev.busid)) [
      | inl k ↦ inr (
          (e, rw (find_exported, k) refl, strncmp_equal_comm bus_id_size e.udev.busid busid ∙ k, p))
      | inr k ↦ elim (find_exported-cases busid es f) [
        | inl n ↦ inl (rw (find_exported, k) n)
        | inr (e', q, r, g) ↦ inr (e', rw (find_exported, k) q, r, g)
      ]
    ]

length-field : (busid : List ℕ) → length (field busid) ≡ 32
unfolding strncpy
length-field busid = refl

import_request-field :
    (o : ByteOrder) (short : ShortOrder) (busid : List ℕ)
    → import_request o short busid ≡ send_op_common o short op_req_import 0 ++ field busid
unfolding import_request
import_request-field o short busid = refl

module _ (net : Socket) (o : ByteOrder) (short : ShortOrder) (write : ExportedDevice → Bool)
    (es : List ExportedDevice) where
  recv_request_import-read :
      (s s' : net.S) (busid : List ℕ)
      → net_recv net s bus_id_size ≡ some (bus_id_size, busid, s')
      → (sent : Bool × List ℕ) → reply_import o short write (find_exported busid es) ≡ sent
      → recv_request_import net o short write es s ≡ some (sent.0, sent.1, s')
  unfolding recv_request_import
  recv_request_import-read s s' busid e sent k = rw (recv_request_import, e, k) refl

  recv_request_import-fails :
      (s s' : net.S) (got : List ℕ)
      → net_recv net s bus_id_size ≡ some (neg 1, got, s')
      → recv_request_import net o short write es s ≡ some (false, [], s')
  unfolding recv_request_import
  recv_request_import-fails s s' got e = rw (recv_request_import, e) refl

  recv_pdu-import :
      (s s' : net.S)
      → net_recv_op_common net o short op_unspec s ≡ some (some op_req_import, s')
      → recv_pdu net o short write (some es) s ≡ recv_request_import net o short write es s'
  unfolding recv_pdu
  recv_pdu-import s s' e = rw (recv_pdu, e) refl

  recv_pdu-fails :
      (s s' : net.S)
      → net_recv_op_common net o short op_unspec s ≡ some (none, s')
      → recv_pdu net o short write (some es) s ≡ some (false, [], s')
  unfolding recv_pdu
  recv_pdu-fails s s' e = rw (recv_pdu, e) refl

  pub recv_pdu-answers :
      (o' : ByteOrder) (short' : ShortOrder) (busid later : List ℕ) (s : net.S)
      → length busid ≤ 31
      → net.pending s ≡ import_request o' short' busid ++ later
      → (r : Bool × List ℕ × net.S) × (recv_pdu net o short write (some es) s ≡ some r)
        × (((r.0, r.1) ≡ reply_import o short write (find_exported busid es))
            ⊎ ((r.1 ≡ []) × Failed net r.2))
  recv_pdu-answers o' short' busid later s h p =
      let ((code, s1), e, ends) =
        op_common_received net o' o short' short op_req_import 0 op_unspec (field busid ++ later) s
          (omega arith) (omega arith)
          (p
            ∙ (ap (λ b. b ++ later) (import_request-field o' short' busid)
                ∙ append_assoc (send_op_common o' short' op_req_import 0) (field busid) later)) in
      elim ends [
        | inr (n, (got, f)) ↦ (
          (false, [], s1),
          recv_pdu-fails s s1 (e ∙ ap (λ c. some (c, s1)) n),
          inr (refl, (s, 8, got, f)),
        )
        | inl (c, q) ↦
            let step = recv_pdu-import s s1 (e ∙ ap (λ k. some (k, s1)) c) in
            let (s2, read) =
              net_recv-Reads net s1 bus_id_size (field busid) later (omega arith)
                (length-field busid) q in
            elim read [
              | inr (got, f) ↦ (
                (false, [], s2),
                step ∙ recv_request_import-fails s1 s2 got f,
                inr (refl, (s1, bus_id_size, got, f)),
              )
              | inl (f, rest) ↦ (
                (
                  (reply_import o short write (find_exported busid es)).0,
                  (reply_import o short write (find_exported busid es)).1,
                  s2,
                ),
                step
                    ∙ recv_request_import-read s1 s2 (field busid) f
                        (reply_import o short write (find_exported busid es))
                        (ap (reply_import o short write) (find_exported-field busid es h)),
                inl refl,
              )
            ]
      ]
