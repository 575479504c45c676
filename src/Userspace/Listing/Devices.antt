-- ===== src/Userspace/Listing/Devices.antt =====
-- Theorems on the exchange by which the devices of usbipd are listed (usbipd.c, usbip_list.c).
use usbip.Base.{
  ℕ, zero, suc, ◌^◌, ◌<◌, ◌≡◌, refl, sym, ap, ◌∙◌, inl, inr, true, false, u32, List, [], ◌∷◌, ◌++◌,
  none, some, arith, length, ◌==◌, neg,
}
use mathlib.Core.List.{append_assoc}
use usbip.Core.Socket.{Socket}
use usbip.Proto.Endian.{ByteOrder}
use usbip.Userspace.Network.{ShortOrder, st_ok, send_op_common, net_recv, net_recv_op_common}
use usbip.Userspace.Devices.{
  UsbDevice, ExportedDevice, usb_device_size, op_rep_devlist, device_bytes, read_device,
  interfaces_bytes,
}
use usbip.Userspace.Usbipd.{devlist_bytes, send_reply_devlist}
use usbip.Userspace.Devices.Wire.{read_device-bytes, length-device_bytes}
use usbip.Userspace.Network.Receiving.{net_recv-Reads, op_common_received}
use usbip.Userspace.Listing.{
  Line, device_line, print, read_interfaces, read_devices, get_exported_devices,
}
use usbip.Userspace.Listing.Printing.{
  AllComplete, interface_lines, device_lines, Lists, print-Lists, interfaces-Lists,
}

word_arrives :
    (o o' : ByteOrder) (n : ℕ)
    → n < 2 ^ 32
    → o'.be32_to_cpu (o'.load32 (o.store32 (o.cpu_to_be32 (u32 n)))) ≡ n
word_arrives o o' n w =
    let cut : u32 n ≡ n = omega arith in
    ap (λ m. o'.be32_to_cpu (o'.load32 (o.store32 (o.cpu_to_be32 m)))) cut
    ∙ (ap (λ b. o'.be32_to_cpu (o'.load32 b)) (o.store32-be n w ∙ sym (o'.store32-be n w))
        ∙ (ap o'.be32_to_cpu (o'.load32-store32 (o'.cpu_to_be32 n) (o'.cpu_to_be32-lt n w))
            ∙ o'.be32-cpu n w))

module _ (net : Socket) (o o' : ByteOrder) (short short' : ShortOrder) where
  devices-cons :
      (n : ℕ) (d : UsbDevice) (s s1 s2 : net.S) (bytes : List ℕ) (lines : List Line)
      → net_recv net s usb_device_size ≡ some (usb_device_size, bytes, s1)
      → read_device o' short' bytes ≡ d
      → read_interfaces net d.b_num_interfaces s1 ≡ some (true, lines, s2)
      → read_devices net o' short' (suc n) s
        ≡ print (device_line d ∷ []) (print lines (read_devices net o' short' n s2))
  unfolding read_devices
  devices-cons n d s s1 s2 bytes lines e r k =
      let k' : read_interfaces net (read_device o' short' bytes).b_num_interfaces s1
          ≡ some (true, lines, s2) =
        ap (λ g. read_interfaces net g.b_num_interfaces s1) r ∙ k in
      rw (read_devices, e)
        (rw k'
          (ap (λ g. print (device_line g ∷ []) (print lines (read_devices net o' short' n s2))) r))

  devices-stop :
      (n : ℕ) (d : UsbDevice) (s s1 s2 : net.S) (bytes : List ℕ) (lines : List Line)
      → net_recv net s usb_device_size ≡ some (usb_device_size, bytes, s1)
      → read_device o' short' bytes ≡ d
      → read_interfaces net d.b_num_interfaces s1 ≡ some (false, lines, s2)
      → read_devices net o' short' (suc n) s ≡ some (false, device_line d ∷ lines, s2)
  unfolding read_devices
  devices-stop n d s s1 s2 bytes lines e r k =
      let k' : read_interfaces net (read_device o' short' bytes).b_num_interfaces s1
          ≡ some (false, lines, s2) =
        ap (λ g. read_interfaces net g.b_num_interfaces s1) r ∙ k in
      rw (read_devices, e) (rw k' (ap (λ g. some (false, device_line g ∷ lines, s2)) r))

  devices-fails :
      (n : ℕ) (s s1 : net.S) (got : List ℕ)
      → net_recv net s usb_device_size ≡ some (neg 1, got, s1)
      → read_devices net o' short' (suc n) s ≡ some (false, [], s1)
  unfolding read_devices
  devices-fails n s s1 got e = rw (read_devices, e) refl

  device-Lists :
      (n : ℕ) (e : ExportedDevice) (s s1 : net.S) (lines : List Line) (later last : List ℕ)
      → net_recv net s usb_device_size ≡ some (usb_device_size, device_bytes o short e.udev, s1)
      → read_device o' short' (device_bytes o short e.udev) ≡ e.udev
      → Lists net (read_interfaces net e.udev.b_num_interfaces s1) (interface_lines e.uinf) later
      → ((s2 : net.S)
          → net.pending s2 ≡ later
          → Lists net (read_devices net o' short' n s2) lines last)
      → Lists net
          (read_devices net o' short' (suc n) s)
          (device_line e.udev ∷ (interface_lines e.uinf ++ lines))
          last
  device-Lists n e s s1 lines later last f r ((ok, shown, s2), k, ends) rest = elim ends [
    | inr (b, failed) ↦ (
      (false, device_line e.udev ∷ shown, s2),
      devices-stop n e.udev s s1 s2 (device_bytes o short e.udev) shown f r
          (k ∙ ap (λ c. some (c, shown, s2)) b),
      inr (refl, failed),
    )
    | inl (b, l, q) ↦
        let step : read_devices net o' short' (suc n) s
            ≡ print (device_line e.udev ∷ [])
                (print (interface_lines e.uinf) (read_devices net o' short' n s2)) =
          devices-cons n e.udev s s1 s2 (device_bytes o short e.udev) (interface_lines e.uinf) f r
            (k ∙ (ap (λ c. some (c, shown, s2)) b ∙ ap (λ c. some (true, c, s2)) l)) in
        let (t, g, done) =
          print-Lists net (print (interface_lines e.uinf) (read_devices net o' short' n s2))
            (device_line e.udev ∷ []) (interface_lines e.uinf ++ lines) last
            (print-Lists net (read_devices net o' short' n s2) (interface_lines e.uinf) lines last
              (rest s2 q)) in
        (t, step ∙ g, done)
  ]

  devices-Lists :
      (es : List ExportedDevice) (s : net.S) (later : List ℕ)
      → AllComplete es
      → net.pending s ≡ devlist_bytes o short es ++ later
      → Lists net (read_devices net o' short' (length es) s) (device_lines es) later
  unfolding read_devices devlist_bytes
  devices-Lists [] s later c p = ((true, [], s), refl, inl (refl, refl, p))
  devices-Lists (e ∷ es) s later ((fits, count), c) p =
      let inner : List ℕ = interfaces_bytes e.udev.b_num_interfaces e.uinf in
      let after : List ℕ = devlist_bytes o short es ++ later in
      let (s1, read) =
        net_recv-Reads net s usb_device_size (device_bytes o short e.udev) (inner ++ after)
          (omega arith) (length-device_bytes o short e.udev fits)
          (p
            ∙ (append_assoc (device_bytes o short e.udev) (inner ++ devlist_bytes o short es) later
                ∙ ap (λ b. device_bytes o short e.udev ++ b)
                    (append_assoc inner (devlist_bytes o short es) later))) in
      elim read [
        | inr (got, f) ↦ (
          (false, [], s1),
          devices-fails (length es) s s1 got f,
          inr (refl, (s, usb_device_size, got, f)),
        )
        | inl (f, q) ↦
            device-Lists (length es) e s s1 (device_lines es) after later f
              (read_device-bytes o o' short short' e.udev fits)
              (interfaces-Lists net e.udev.b_num_interfaces e.uinf s1 after count q)
              (λ s2 m. devices-Lists es s2 later c m)
      ]

  list-refused :
      (s s1 : net.S)
      → net_recv_op_common net o' short' op_rep_devlist s ≡ some (none, s1)
      → get_exported_devices net o' short' s ≡ some (false, [], s1)
  unfolding get_exported_devices
  list-refused s s1 e = rw (get_exported_devices, e) refl

  list-failed :
      (s s1 s2 : net.S) (code : ℕ) (got : List ℕ)
      → net_recv_op_common net o' short' op_rep_devlist s ≡ some (some code, s1)
      → net_recv net s1 4 ≡ some (neg 1, got, s2)
      → get_exported_devices net o' short' s ≡ some (false, [], s2)
  unfolding get_exported_devices
  list-failed s s1 s2 code got e f = rw (get_exported_devices, e) (rw f refl)

  list-counted :
      (s s1 s2 : net.S) (code n : ℕ) (bytes : List ℕ)
      → net_recv_op_common net o' short' op_rep_devlist s ≡ some (some code, s1)
      → net_recv net s1 4 ≡ some (4, bytes, s2)
      → o'.be32_to_cpu (o'.load32 bytes) ≡ n
      → get_exported_devices net o' short' s ≡ read_devices net o' short' n s2
  unfolding get_exported_devices read_devices
  list-counted s s1 s2 code zero bytes e f r = rw (get_exported_devices, e) (rw f (rw r refl))
  list-counted s s1 s2 code (suc n) bytes e f r =
      let z : (suc n == 0) ≡ false = ground arith in
      rw (get_exported_devices, e) (rw f (rw r (rw z refl)))

  -- Where the answer of send_reply_devlist is the first that arrives, for fewer than 2 ^ 32
  -- devices that fit their structure and have as many interfaces as they say,
  -- get_exported_devices returns: it has read exactly that answer and printed each device with
  -- its interfaces, in the order of usbipd, whatever the byte orders, or a receive failed.
  pub devices_listed :
      (es : List ExportedDevice) (s : net.S) (later : List ℕ)
      → AllComplete es
      → length es < 2 ^ 32
      → net.pending s ≡ send_reply_devlist o short es ++ later
      → Lists net (get_exported_devices net o' short' s) (device_lines es) later
  unfolding send_reply_devlist
  devices_listed es s later c w p =
      let count : List ℕ = o.store32 (o.cpu_to_be32 (u32 (length es))) in
      let after : List ℕ = devlist_bytes o short es ++ later in
      let start : List ℕ = send_op_common o short op_rep_devlist st_ok in
      let ((code, s1), e, ends) =
        op_common_received net o o' short short' op_rep_devlist st_ok op_rep_devlist
          (count ++ after) s (omega arith) (omega arith)
          (p
            ∙ (append_assoc start (count ++ devlist_bytes o short es) later
                ∙ ap (λ b. start ++ b) (append_assoc count (devlist_bytes o short es) later))) in
      elim ends [
        | inr (n, (got, f)) ↦ (
          (false, [], s1),
          list-refused s s1 (e ∙ ap (λ k. some (k, s1)) n),
          inr (refl, (s, 8, got, f)),
        )
        | inl (k, q) ↦
            let accepted : net_recv_op_common net o' short' op_rep_devlist s
                ≡ some (some op_rep_devlist, s1) =
              e ∙ ap (λ r. some (r, s1)) k in
            let (s2, read) =
              net_recv-Reads net s1 4 count after (omega arith)
                (o.length-store32 (o.cpu_to_be32 (u32 (length es)))) q in
            elim read [
              | inr (got, f) ↦ (
                (false, [], s2),
                list-failed s s1 s2 op_rep_devlist got accepted f,
                inr (refl, (s1, 4, got, f)),
              )
              | inl (f, m) ↦
                  let (r, g, done) = devices-Lists es s2 later c m in
                  (
                    r,
                    list-counted s s1 s2 op_rep_devlist (length es) count accepted f
                          (word_arrives o o' (length es) w)
                        ∙ g,
                    done,
                  )
            ]
      ]
