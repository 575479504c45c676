-- ===== src/Examples/Network.antt =====
-- The theorem on the messages of the userspace programs, at a concrete message.
use usbip.Base.{
  ℕ, ◌+◌, ◌*◌, ◌/◌, ◌%◌, ◌^◌, ◌<◌, ◌≡◌, refl, ◌⊎◌, List, [], ◌∷◌, ◌++◌, Option, none, some, arith,
  neg,
}
use usbip.Userspace.Network.{ShortOrder, send_op_common, net_recv, net_recv_op_common}
use usbip.Userspace.Network.Receiving.{op_common_received}
use usbip.Examples.{little_endian, big_endian, script}

-- 16 bits on a machine that puts the low byte first.
abbrev pub le_short : List ℕ → ℕ
le_short (a ∷ b ∷ []) = a + b * 2 ^ 8
le_short _ = 0

abbrev pub swab16 : ℕ → ℕ
swab16 x = x % 2 ^ 8 * 2 ^ 8 + x / 2 ^ 8 % 2 ^ 8

pub swab16_twice : (x : ℕ) → x < 2 ^ 16 → swab16 (swab16 x) ≡ x
swab16_twice x h = omega arith

pub swab16-lt : (x : ℕ) → x < 2 ^ 16 → swab16 x < 2 ^ 16
swab16-lt x h = omega arith

pub le_short-bytes : (x : ℕ) → x < 2 ^ 16 → x % 2 ^ 8 + x / 2 ^ 8 * 2 ^ 8 ≡ x
le_short-bytes x h = omega arith

pub swab16_low : (x : ℕ) → x < 2 ^ 16 → swab16 x % 2 ^ 8 ≡ x / 2 ^ 8
swab16_low x h = omega arith

pub swab16_high : (x : ℕ) → x < 2 ^ 16 → swab16 x / 2 ^ 8 ≡ x % 2 ^ 8
swab16_high x h = omega arith

abbrev pub little_short : ShortOrder
little_short = record {
  htons = swab16;
  ntohs = swab16;
  store16 = λ x. x % 2 ^ 8 ∷ x / 2 ^ 8 ∷ [];
  load16 = le_short;
  ntohs-htons = swab16_twice;
  htons-lt = swab16-lt;
  length-store16 = λ x. refl;
  load16-store16 = le_short-bytes;
  store16-be = λ x h i. swab16_low x h i ∷ swab16_high x h i ∷ [];
}

-- 16 bits on a machine that puts the high byte first.
abbrev pub be_short : List ℕ → ℕ
be_short (a ∷ b ∷ []) = a * 2 ^ 8 + b
be_short _ = 0

pub be_short-bytes : (x : ℕ) → x < 2 ^ 16 → x / 2 ^ 8 * 2 ^ 8 + x % 2 ^ 8 ≡ x
be_short-bytes x h = omega arith

abbrev pub big_short : ShortOrder
big_short = record {
  htons = λ x. x;
  ntohs = λ x. x;
  store16 = λ x. x / 2 ^ 8 ∷ x % 2 ^ 8 ∷ [];
  load16 = be_short;
  ntohs-htons = λ x h. refl;
  htons-lt = λ x h. h;
  length-store16 = λ x. refl;
  load16-store16 = be_short-bytes;
  store16-be = λ x h. refl;
}

-- A request for the list of devices, and one byte more.
abbrev request : List ℕ
request = send_op_common little_endian little_short 32773 0 ++ 9 ∷ []

op_common_received_example :
    (r : Option ℕ × List ℕ) × (net_recv_op_common script big_endian big_short 0 request ≡ some r)
    × (((r.0 ≡ some 32773) × (r.1 ≡ 9 ∷ []))
        ⊎ ((r.0 ≡ none) × ((got : List ℕ) × (net_recv script request 8 ≡ some (neg 1, got, r.1)))))
op_common_received_example =
    op_common_received script little_endian big_endian little_short big_short 32773 0 0 (9 ∷ [])
      request (omega arith) (omega arith) refl
