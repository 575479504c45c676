-- ===== src/Core/Socket.antt =====
-- What the code relies on of a TCP socket: kernel_recvmsg and kernel_sendmsg in the drivers, recv in
-- the userspace programs.
use usbip.Base.{ℕ, ◌≤◌, ◌<◌, ◌≡◌, ◌⊎◌, ◌++◌, true, List, length, is_negative}

-- Some bytes, at least one, or a result that is 0 (the connection is closed) or an error.
pub data Received : Type 0 where
  chunk : List ℕ → Received
  stop : ℕ → Received

-- `pending` is what the peer has sent and will send, in order.
pub record Socket : Type 1 where
  pub S : Type 0
  pub recvmsg : S → ℕ → Received × S
  pub sendmsg : S → List ℕ → ℕ × S
  pub pending : S → List ℕ
  pub chunk_bounds :
      (s : S) (size : ℕ) (bytes : List ℕ)
      → (recvmsg s size).0 ≡ chunk bytes
      → (0 < length bytes) × (length bytes ≤ size)
  pub chunk_pending :
      (s : S) (size : ℕ) (bytes : List ℕ)
      → (recvmsg s size).0 ≡ chunk bytes
      → pending s ≡ bytes ++ pending (recvmsg s size).1
  pub stop_code :
      (s : S) (size code : ℕ)
      → (recvmsg s size).0 ≡ stop code
      → (code ≡ 0) ⊎ (is_negative code ≡ true)
