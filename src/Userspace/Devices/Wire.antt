-- ===== src/Userspace/Devices/Wire.antt =====
-- Theorems on the device in the messages of usbipd and the usbip command.
use usbip.Base.{
  ℕ, ◌^◌, ◌<◌, ◌≡◌, refl, sym, ap, ◌∙◌, true, false, List, [], ◌∷◌, ◌++◌, length, length-append,
  take-append_len, drop-append_len,
}
use usbip.Proto.Endian.{ByteOrder}
use usbip.Userspace.Network.{ShortOrder}
use usbip.Userspace.Network.Messages.{store16_agree}
use usbip.Userspace.Devices.{
  UsbDevice, usb_device_size, pack_usb_device, device_memory, load_device, device_bytes,
  read_device,
}

-- The arrays and the words of a device have their sizes.
pub record UsbDeviceFits (d : UsbDevice) : Type 0 where
  pub path : length d.path ≡ 256
  pub busid : length d.busid ≡ 32
  pub busnum : d.busnum < 2 ^ 32
  pub devnum : d.devnum < 2 ^ 32
  pub speed : d.speed < 2 ^ 32
  pub id_vendor : d.id_vendor < 2 ^ 16
  pub id_product : d.id_product < 2 ^ 16
  pub bcd_device : d.bcd_device < 2 ^ 16

module _ (o o' : ByteOrder) (short short' : ShortOrder) where
  store32_agree : (x : ℕ) → x < 2 ^ 32 → o.store32 (o.cpu_to_be32 x) ≡ o'.store32 (o'.cpu_to_be32 x)
  store32_agree x h = o.store32-be x h ∙ sym (o'.store32-be x h)

  -- Both machines put a device on the wire in the same way.
  pub device_bytes_agree :
      (d : UsbDevice) → UsbDeviceFits d → device_bytes o short d ≡ device_bytes o' short' d
  unfolding device_bytes
  device_bytes_agree d f =
      rw
        (
          store32_agree d.busnum f.busnum,
          store32_agree d.devnum f.devnum,
          store32_agree d.speed f.speed,
          store16_agree o o' short short' d.id_vendor f.id_vendor,
          store16_agree o o' short short' d.id_product f.id_product,
          store16_agree o o' short short' d.bcd_device f.bcd_device,
        )
        refl

module _ (o : ByteOrder) (short : ShortOrder) where
  packed-Fits : (d : UsbDevice) → UsbDeviceFits d → UsbDeviceFits (pack_usb_device o short true d)
  packed-Fits d f = record {
    path = f.path;
    busid = f.busid;
    busnum = o.cpu_to_be32-lt d.busnum f.busnum;
    devnum = o.cpu_to_be32-lt d.devnum f.devnum;
    speed = o.cpu_to_be32-lt d.speed f.speed;
    id_vendor = short.htons-lt d.id_vendor f.id_vendor;
    id_product = short.htons-lt d.id_product f.id_product;
    bcd_device = short.htons-lt d.bcd_device f.bcd_device;
  }

  load_device-memory :
      (d : UsbDevice) → UsbDeviceFits d → load_device o short (device_memory o short d) ≡ d
  load_device-memory d f =
      let last : List ℕ =
        d.b_device_class ∷ d.b_device_sub_class ∷ d.b_device_protocol ∷ d.b_configuration_value
        ∷ d.b_num_configurations ∷ d.b_num_interfaces ∷ [] in
      let at_bcd : List ℕ = short.store16 d.bcd_device ++ last in
      let at_product : List ℕ = short.store16 d.id_product ++ at_bcd in
      let at_vendor : List ℕ = short.store16 d.id_vendor ++ at_product in
      let at_speed : List ℕ = o.store32 d.speed ++ at_vendor in
      let at_devnum : List ℕ = o.store32 d.devnum ++ at_speed in
      let at_busnum : List ℕ = o.store32 d.busnum ++ at_devnum in
      let at_busid : List ℕ = d.busid ++ at_busnum in
      rw
        (
          take-append_len 256 d.path at_busid f.path,
          drop-append_len 256 d.path at_busid f.path,
          take-append_len 32 d.busid at_busnum f.busid,
          drop-append_len 32 d.busid at_busnum f.busid,
          take-append_len 4 (o.store32 d.busnum) at_devnum (o.length-store32 d.busnum),
          drop-append_len 4 (o.store32 d.busnum) at_devnum (o.length-store32 d.busnum),
          take-append_len 4 (o.store32 d.devnum) at_speed (o.length-store32 d.devnum),
          drop-append_len 4 (o.store32 d.devnum) at_speed (o.length-store32 d.devnum),
          take-append_len 4 (o.store32 d.speed) at_vendor (o.length-store32 d.speed),
          drop-append_len 4 (o.store32 d.speed) at_vendor (o.length-store32 d.speed),
          take-append_len 2 (short.store16 d.id_vendor) at_product
              (short.length-store16 d.id_vendor),
          drop-append_len 2 (short.store16 d.id_vendor) at_product
              (short.length-store16 d.id_vendor),
          take-append_len 2 (short.store16 d.id_product) at_bcd (short.length-store16 d.id_product),
          drop-append_len 2 (short.store16 d.id_product) at_bcd (short.length-store16 d.id_product),
          take-append_len 2 (short.store16 d.bcd_device) last (short.length-store16 d.bcd_device),
          drop-append_len 2 (short.store16 d.bcd_device) last (short.length-store16 d.bcd_device),
          o.load32-store32 d.busnum f.busnum,
          o.load32-store32 d.devnum f.devnum,
          o.load32-store32 d.speed f.speed,
          short.load16-store16 d.id_vendor f.id_vendor,
          short.load16-store16 d.id_product f.id_product,
          short.load16-store16 d.bcd_device f.bcd_device,
        )
        refl

  unpack_pack_device :
      (d : UsbDevice)
      → UsbDeviceFits d
      → pack_usb_device o short false (pack_usb_device o short true d) ≡ d
  unpack_pack_device d f =
      rw
        (
          o.be32-cpu d.busnum f.busnum,
          o.be32-cpu d.devnum f.devnum,
          o.be32-cpu d.speed f.speed,
          short.ntohs-htons d.id_vendor f.id_vendor,
          short.ntohs-htons d.id_product f.id_product,
          short.ntohs-htons d.bcd_device f.bcd_device,
        )
        refl

  pub length-device_bytes :
      (d : UsbDevice) → UsbDeviceFits d → length (device_bytes o short d) ≡ usb_device_size
  unfolding device_bytes
  length-device_bytes d f =
      let p : UsbDevice = pack_usb_device o short true d in
      rw
        (
          length-append d.path,
          length-append d.busid,
          length-append (o.store32 p.busnum),
          length-append (o.store32 p.devnum),
          length-append (o.store32 p.speed),
          length-append (short.store16 p.id_vendor),
          length-append (short.store16 p.id_product),
          length-append (short.store16 p.bcd_device),
          f.path,
          f.busid,
          o.length-store32 p.busnum,
          o.length-store32 p.devnum,
          o.length-store32 p.speed,
          short.length-store16 p.id_vendor,
          short.length-store16 p.id_product,
          short.length-store16 p.bcd_device,
        )
        refl

-- A device that one machine sends is read as the same device by any other.
pub read_device-bytes :
    (o o' : ByteOrder) (short short' : ShortOrder) (d : UsbDevice)
    → UsbDeviceFits d
    → read_device o' short' (device_bytes o short d) ≡ d
unfolding read_device device_bytes
read_device-bytes o o' short short' d f =
    ap (read_device o' short') (device_bytes_agree o o' short short' d f)
    ∙ (ap (pack_usb_device o' short' false) (
          load_device-memory o' short' (pack_usb_device o' short' true d)
            (packed-Fits o' short' d f))
        ∙ unpack_pack_device o' short' d f)
