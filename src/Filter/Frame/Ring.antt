-- ===== src/Filter/Frame/Ring.antt =====
-- The unread bytes of the frame buffer of filter_ptp.c, and lemmas on its segments.
use usbip.Base.{
  ℕ, zero, suc, ◌+◌, ◌-◌, ◌≤◌, ◌<◌, ◌≡◌, refl, sym, ap, ◌∙◌, List, [], ◌∷◌, ◌++◌, arith, leb,
  length, if◌then◌else◌,
}
use usbip.Filter.Frame.{Frames, full_size, segment}

-- Both ends lie in the buffer, which is no larger than the memory for it.
pub record IsRing (f : Frames) : Type 0 where
  pub head : f.frame_head ≤ f.frame_buffer_size
  pub tail : f.frame_tail ≤ f.frame_buffer_size
  pub size : f.frame_buffer_size ≤ full_size

-- The bytes that were received and not served, in order.
abbrev pub unread_of : (ℕ → ℕ) → ℕ → ℕ → ℕ → List ℕ
unread_of buffer size head tail =
    if leb tail head
    then segment buffer tail (head - tail)
    else segment buffer tail (size - tail) ++ segment buffer 0 head

abbrev pub unread : Frames → List ℕ
unread f = unread_of f.frame_buffer f.frame_buffer_size f.frame_head f.frame_tail

pub length-segment : (b : ℕ → ℕ) (s n : ℕ) → length (segment b s n) ≡ n
unfolding segment
length-segment b s zero = refl
length-segment b s (suc n) = omega (arith, length-segment b (s + 1) n)

pub segment-zero : (b : ℕ → ℕ) (s : ℕ) → segment b s 0 ≡ []
unfolding segment
segment-zero b s = refl

pub segment-add :
    (b : ℕ → ℕ) (s n m : ℕ) → segment b s (n + m) ≡ segment b s n ++ segment b (s + n) m
unfolding segment
segment-add b s zero m =
    let e : ◌≡◌ {A = ℕ} (0 + m) m = omega arith in
    let e' : ◌≡◌ {A = ℕ} (s + 0) s = omega arith in rw (e, e') refl
segment-add b s (suc n) m =
    let e : ◌≡◌ {A = ℕ} (suc n + m) (suc (n + m)) = omega arith in
    let e' : ◌≡◌ {A = ℕ} (s + suc n) (s + 1 + n) = omega arith in
    rw (e, e') (ap (◌∷◌ (b s)) (segment-add b (s + 1) n m))

-- Two buffers that agree on a segment.
pub segment-agree :
    (b b' : ℕ → ℕ) (s n : ℕ)
    → ((i : ℕ) → s ≤ i → i < s + n → b i ≡ b' i)
    → segment b s n ≡ segment b' s n
unfolding segment
segment-agree b b' s zero h = refl
segment-agree b b' s (suc n) h =
    let here : b s ≡ b' s = h s (omega arith) (omega arith) in
    λ i. here i ∷ segment-agree b b' (s + 1) n (λ k p q. h k (omega arith) (omega arith)) i

-- A segment in two parts, the first of which is taken away.
pub segment-parts :
    (b : ℕ → ℕ) (s n m : ℕ) → n ≤ m → segment b s m ≡ segment b s n ++ segment b (s + n) (m - n)
segment-parts b s n m h =
    let e : n + (m - n) ≡ m = omega arith in ap (segment b s) (sym e) ∙ segment-add b s n (m - n)
