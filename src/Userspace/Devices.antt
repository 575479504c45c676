-- ===== src/Userspace/Devices.antt =====
-- userspace/libsrc/usbip_struct.h: the devices in the messages of usbipd and the usbip command;
-- usbip_network.c: how they are packed. strncmp and strncpy are those of the C library.
pub mod Wire
use usbip.Base.{
  ℕ, zero, suc, ◌+◌, ◌*◌, ◌^◌, Bool, true, false, List, [], ◌∷◌, ◌++◌, take, drop, ◌==◌,
  if◌then◌else◌,
}
use usbip.Proto.Endian.{ByteOrder}
use usbip.Userspace.Network.{ShortOrder, pack_uint16, pack_uint32}

-- `struct usbip_usb_device`: `path` are 256 bytes and `busid` 32.
pub record UsbDevice : Type 0 where
  pub path : List ℕ
  pub busid : List ℕ
  pub busnum : ℕ
  pub devnum : ℕ
  pub speed : ℕ
  pub id_vendor : ℕ
  pub id_product : ℕ
  pub bcd_device : ℕ
  pub b_device_class : ℕ
  pub b_device_sub_class : ℕ
  pub b_device_protocol : ℕ
  pub b_configuration_value : ℕ
  pub b_num_configurations : ℕ
  pub b_num_interfaces : ℕ

-- `struct usbip_usb_interface`
pub record UsbInterface : Type 0 where
  pub b_interface_class : ℕ
  pub b_interface_sub_class : ℕ
  pub b_interface_protocol : ℕ
  pub padding : ℕ

-- `struct usbip_exported_device`
pub record ExportedDevice : Type 0 where
  pub status : ℕ
  pub udev : UsbDevice
  pub uinf : List UsbInterface

abbrev pub op_req_import : ℕ
op_req_import = 0x80 * 2 ^ 8 + 3

abbrev pub op_rep_import : ℕ
op_rep_import = 3

abbrev pub op_req_devlist : ℕ
op_req_devlist = 0x80 * 2 ^ 8 + 5

abbrev pub op_rep_devlist : ℕ
op_rep_devlist = 5

-- SYSFS_BUS_ID_SIZE
abbrev pub bus_id_size : ℕ
bus_id_size = 32

-- The size of `struct usbip_usb_device`.
abbrev pub usb_device_size : ℕ
usb_device_size = 312

-- A character of an array; behind its end there is the NUL.
abbrev pub first : List ℕ → ℕ
first [] = 0
first (x ∷ xs) = x

abbrev pub others : List ℕ → List ℕ
others [] = []
others (x ∷ xs) = xs

-- Whether strncmp returns 0.
unfoldable pub strncmp_equal : ℕ → List ℕ → List ℕ → Bool
strncmp_equal zero s1 s2 = true
strncmp_equal (suc n) s1 s2 =
    let rest : Bool = strncmp_equal n (others s1) (others s2) in
    if first s1 == first s2 then (if first s1 == 0 then true else rest) else false

-- What strncpy writes, for a string without its NUL.
unfoldable pub strncpy : ℕ → List ℕ → List ℕ
strncpy zero src = []
strncpy (suc n) src = first src ∷ strncpy n (others src)

-- The number in an array of bytes, for a structure in memory.
abbrev pub byte_of : ℕ → List ℕ → ℕ
byte_of i bytes = first (drop i bytes)

-- The interfaces in memory, as far as bNumInterfaces goes.
unfoldable pub interfaces_bytes : ℕ → List UsbInterface → List ℕ
interfaces_bytes zero us = []
interfaces_bytes (suc n) [] = []
interfaces_bytes (suc n) (u ∷ us) =
    u.b_interface_class
    ∷ u.b_interface_sub_class
    ∷ u.b_interface_protocol
    ∷ u.padding
    ∷ interfaces_bytes n us

module _ (o : ByteOrder) (short : ShortOrder) where
  -- usbip_net_pack_usb_device
  abbrev pub pack_usb_device : Bool → UsbDevice → UsbDevice
  pack_usb_device pack d = record d {
    busnum = pack_uint32 o short pack d.busnum;
    devnum = pack_uint32 o short pack d.devnum;
    speed = pack_uint32 o short pack d.speed;
    id_vendor = pack_uint16 o short pack d.id_vendor;
    id_product = pack_uint16 o short pack d.id_product;
    bcd_device = pack_uint16 o short pack d.bcd_device;
  }

  -- The structure in memory, and read from there.
  abbrev pub device_memory : UsbDevice → List ℕ
  device_memory d =
      d.path
      ++ (d.busid
          ++ (o.store32 d.busnum
              ++ (o.store32 d.devnum
                  ++ (o.store32 d.speed
                      ++ (short.store16 d.id_vendor
                          ++ (short.store16 d.id_product
                              ++ (short.store16 d.bcd_device
                                  ++ (d.b_device_class ∷ d.b_device_sub_class ∷ d.b_device_protocol
                                      ∷ d.b_configuration_value ∷ d.b_num_configurations
                                      ∷ d.b_num_interfaces ∷ []))))))))

  abbrev pub load_device : List ℕ → UsbDevice
  load_device bytes =
      let at_busid : List ℕ = drop 256 bytes in
      let at_busnum : List ℕ = drop 32 at_busid in
      let at_devnum : List ℕ = drop 4 at_busnum in
      let at_speed : List ℕ = drop 4 at_devnum in
      let at_vendor : List ℕ = drop 4 at_speed in
      let at_product : List ℕ = drop 2 at_vendor in
      let at_bcd : List ℕ = drop 2 at_product in
      let at_class : List ℕ = drop 2 at_bcd in
      record {
        path = take 256 bytes;
        busid = take 32 at_busid;
        busnum = o.load32 (take 4 at_busnum);
        devnum = o.load32 (take 4 at_devnum);
        speed = o.load32 (take 4 at_speed);
        id_vendor = short.load16 (take 2 at_vendor);
        id_product = short.load16 (take 2 at_product);
        bcd_device = short.load16 (take 2 at_bcd);
        b_device_class = byte_of 0 at_class;
        b_device_sub_class = byte_of 1 at_class;
        b_device_protocol = byte_of 2 at_class;
        b_configuration_value = byte_of 3 at_class;
        b_num_configurations = byte_of 4 at_class;
        b_num_interfaces = byte_of 5 at_class;
      }

  -- The bytes of a device that usbipd hands to usbip_net_send.
  unfoldable pub device_bytes : UsbDevice → List ℕ
  device_bytes d = device_memory (pack_usb_device true d)

  -- What the usbip command makes of them.
  unfoldable pub read_device : List ℕ → UsbDevice
  read_device bytes = pack_usb_device false (load_device bytes)
