-- ===== src/Userspace/Listing/Printing.antt =====
-- Theorems on what get_exported_devices prints of one device (usbip_list.c).
use usbip.Base.{
  ℕ, zero, suc, ◌≡◌, refl, ap, ◌⊎◌, inl, inr, Bool, true, false, List, [], ◌∷◌, ◌++◌, Option, some,
  arith, length,
}
use usbip.Core.Socket.{Socket}
use usbip.Userspace.Devices.{UsbInterface, ExportedDevice, interfaces_bytes}
use usbip.Userspace.Devices.Wire.{UsbDeviceFits}
use usbip.Userspace.Network.Receiving.{net_recv-Reads, Failed}
use usbip.Userspace.Listing.{
  Line, device_line, interface_line, usb_interface_size, print, read_interfaces,
}

-- Every device fits its structure and has as many interfaces as it says.
abbrev pub AllComplete : List ExportedDevice → Type 0
AllComplete [] = Unit
AllComplete (e ∷ es) =
    (UsbDeviceFits e.udev × (length e.uinf ≡ e.udev.b_num_interfaces)) × AllComplete es

abbrev pub interface_lines : List UsbInterface → List Line
interface_lines [] = []
interface_lines (u ∷ us) = interface_line u ∷ interface_lines us

-- What is to be printed of the devices.
abbrev pub device_lines : List ExportedDevice → List Line
device_lines [] = []
device_lines (e ∷ es) = device_line e.udev ∷ (interface_lines e.uinf ++ device_lines es)

-- A run that prints all of these lines and has read what is before `later`, or fails in a receive.
abbrev pub Lists : (net : Socket) → Option (Bool × List Line × net.S) → List Line → List ℕ → Type 0
Lists net run lines later =
    (r : Bool × List Line × net.S) × (run ≡ some r)
    × (((r.0 ≡ true) × (r.1 ≡ lines) × (net.pending r.2 ≡ later))
        ⊎ ((r.0 ≡ false) × Failed net r.2))

pub print-Lists :
    (net : Socket) (run : Option (Bool × List Line × net.S)) (before lines : List Line)
    (later : List ℕ)
    → Lists net run lines later
    → Lists net (print before run) (before ++ lines) later
print-Lists net run before lines later ((ok, more, s), e, ends) = (
  (ok, before ++ more, s),
  ap (print before) e,
  elim ends [ inl (k, l, p) ↦ inl (k, ap (λ m. before ++ m) l, p) | inr f ↦ inr f ],
)

module _ (net : Socket) where
  pub interfaces-Lists :
      (n : ℕ) (us : List UsbInterface) (s : net.S) (later : List ℕ)
      → length us ≡ n
      → net.pending s ≡ interfaces_bytes n us ++ later
      → Lists net (read_interfaces net n s) (interface_lines us) later
  unfolding read_interfaces interfaces_bytes
  interfaces-Lists zero [] s later h p = ((true, [], s), refl, inl (refl, refl, p))
  interfaces-Lists zero (u ∷ us) s later h p = absurd (omega arith)
  interfaces-Lists (suc n) [] s later h p = absurd (omega arith)
  interfaces-Lists (suc n) (u ∷ us) s later h p =
      let bytes : List ℕ =
        u.b_interface_class ∷ u.b_interface_sub_class ∷ u.b_interface_protocol ∷ u.padding ∷ [] in
      let (s1, read) =
        net_recv-Reads net s usb_interface_size bytes (interfaces_bytes n us ++ later) (omega arith)
          refl p in
      elim read [
        | inr (got, f) ↦ (
          (false, [], s1),
          rw (read_interfaces, f) refl,
          inr (refl, (s, usb_interface_size, got, f)),
        )
        | inl (f, q) ↦
            let (r, e, ends) =
              print-Lists net (read_interfaces net n s1) (interface_line u ∷ [])
                (interface_lines us) later (interfaces-Lists n us s1 later (omega arith) q) in
            (r, rw (read_interfaces, f) e, ends)
      ]
