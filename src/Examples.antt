-- ===== src/Examples.antt =====
-- A machine, a socket and states on which the theorems are tried.
pub mod States
mod Wire
mod Client
mod Hub
mod Runs
pub mod Filters
mod Frames
mod Network
mod Libusbip
mod Exchange
mod Server
mod Export
mod Isochronous
use usbip.Base.{
  be_bytes, ℕ, zero, suc, ◌+◌, ◌*◌, ◌/◌, ◌%◌, ◌^◌, ◌<◌, ◌≤◌, ◌≡◌, refl, sym, ap, ◌∙◌, ◌⊎◌, inl, inr,
  Bool, true, false, List, [], ◌∷◌, ◌++◌, Option, none, some, arith, length, take, drop,
  length-take,
}
use usbip.Proto.Endian.{ByteOrder}
use usbip.Core.Socket.{Socket, Received, chunk, stop}

-- A machine that puts the low byte of a word first.
abbrev le_bytes : ℕ → List ℕ
le_bytes x = x % 256 ∷ x / 2 ^ 8 % 256 ∷ x / 2 ^ 16 % 256 ∷ x / 2 ^ 24 % 256 ∷ []

abbrev le_word : List ℕ → ℕ
le_word (a ∷ b ∷ c ∷ d ∷ []) = a + b * 2 ^ 8 + c * 2 ^ 16 + d * 2 ^ 24
le_word _ = 0

abbrev swab32 : ℕ → ℕ
swab32 x = x % 256 * 2 ^ 24 + x / 2 ^ 8 % 256 * 2 ^ 16 + x / 2 ^ 16 % 256 * 2 ^ 8 + x / 2 ^ 24 % 256

pub swab32_twice : (x : ℕ) → x < 2 ^ 32 → swab32 (swab32 x) ≡ x
swab32_twice x h = omega arith

pub swab32-lt : (x : ℕ) → x < 2 ^ 32 → swab32 x < 2 ^ 32
swab32-lt x h = omega arith

pub le_word-le_bytes : (x : ℕ) → x < 2 ^ 32 → le_word (le_bytes x) ≡ x
le_word-le_bytes x h = omega arith

pub byte0 : (x : ℕ) → x < 2 ^ 32 → swab32 x % 256 ≡ x / 2 ^ 24 % 256
byte0 x h = omega arith

pub byte1 : (x : ℕ) → x < 2 ^ 32 → swab32 x / 2 ^ 8 % 256 ≡ x / 2 ^ 16 % 256
byte1 x h = omega arith

pub byte2 : (x : ℕ) → x < 2 ^ 32 → swab32 x / 2 ^ 16 % 256 ≡ x / 2 ^ 8 % 256
byte2 x h = omega arith

pub byte3 : (x : ℕ) → x < 2 ^ 32 → swab32 x / 2 ^ 24 % 256 ≡ x % 256
byte3 x h = omega arith

abbrev pub little_endian : ByteOrder
little_endian = record {
  cpu_to_be32 = swab32;
  be32_to_cpu = swab32;
  store32 = le_bytes;
  load32 = le_word;
  be32-cpu = swab32_twice;
  cpu_to_be32-lt = swab32-lt;
  length-store32 = λ x. refl;
  load32-store32 = le_word-le_bytes;
  store32-be = λ x h i. byte0 x h i ∷ byte1 x h i ∷ byte2 x h i ∷ byte3 x h i ∷ [];
}

-- A machine that puts the high byte of a word first.
abbrev be_word : List ℕ → ℕ
be_word (a ∷ b ∷ c ∷ d ∷ []) = a * 2 ^ 24 + b * 2 ^ 16 + c * 2 ^ 8 + d
be_word _ = 0

pub be_word-be_bytes : (x : ℕ) → x < 2 ^ 32 → be_word (be_bytes x) ≡ x
be_word-be_bytes x h = omega arith

abbrev pub big_endian : ByteOrder
big_endian = record {
  cpu_to_be32 = λ x. x;
  be32_to_cpu = λ x. x;
  store32 = be_bytes;
  load32 = be_word;
  be32-cpu = λ x h. refl;
  cpu_to_be32-lt = λ x h. h;
  length-store32 = λ x. refl;
  load32-store32 = be_word-be_bytes;
  store32-be = λ x h. refl;
}

-- A socket that has some bytes left, and is then closed.
abbrev recv_bytes : List ℕ → ℕ → Received × List ℕ
recv_bytes [] size = (stop 0, [])
recv_bytes (x ∷ s) zero = (stop 0, x ∷ s)
recv_bytes (x ∷ s) (suc n) = (chunk (x ∷ take n s), drop n s)

abbrev content : Received → List ℕ
content (chunk bytes) = bytes
content (stop code) = []

abbrev is_chunk : Received → ℕ
is_chunk (chunk bytes) = 1
is_chunk (stop code) = 0

abbrev code_of : Received → ℕ
code_of (chunk bytes) = 0
code_of (stop code) = code

take-drop_append : (n : ℕ) (xs : List ℕ) → take n xs ++ drop n xs ≡ xs
take-drop_append zero xs = refl
take-drop_append (suc n) [] = refl
take-drop_append (suc n) (x ∷ xs) = ap (◌∷◌ x) (take-drop_append n xs)

pub recv_bytes-bounds :
    (s : List ℕ) (size : ℕ) (bytes : List ℕ)
    → (recv_bytes s size).0 ≡ chunk bytes
    → (0 < length bytes) × (length bytes ≤ size)
recv_bytes-bounds [] size bytes e = absurd (ground (arith, ap is_chunk e))
recv_bytes-bounds (x ∷ s) zero bytes e = absurd (ground (arith, ap is_chunk e))
recv_bytes-bounds (x ∷ s) (suc n) bytes e =
    let same : x ∷ take n s ≡ bytes = ap content e in
    rw (← same) (omega arith, omega (arith, length-take n s))

pub recv_bytes-pending :
    (s : List ℕ) (size : ℕ) (bytes : List ℕ)
    → (recv_bytes s size).0 ≡ chunk bytes
    → s ≡ bytes ++ (recv_bytes s size).1
recv_bytes-pending [] size bytes e = absurd (ground (arith, ap is_chunk e))
recv_bytes-pending (x ∷ s) zero bytes e = absurd (ground (arith, ap is_chunk e))
recv_bytes-pending (x ∷ s) (suc n) bytes e =
    let same : x ∷ take n s ≡ bytes = ap content e in
    rw (← same) (ap (◌∷◌ x) (sym (take-drop_append n s)))

pub recv_bytes-stop : (s : List ℕ) (size code : ℕ) → (recv_bytes s size).0 ≡ stop code → code ≡ 0
recv_bytes-stop [] size code e = sym (ap code_of e)
recv_bytes-stop (x ∷ s) zero code e = sym (ap code_of e)
recv_bytes-stop (x ∷ s) (suc n) code e = absurd (ground (arith, ap is_chunk e))

abbrev pub script : Socket
script = record {
  S = List ℕ;
  recvmsg = recv_bytes;
  sendmsg = λ s bytes. (length bytes, s);
  pending = λ s. s;
  chunk_bounds = recv_bytes-bounds;
  chunk_pending = recv_bytes-pending;
  stop_code = λ s size code e. inl (recv_bytes-stop s size code e);
}
