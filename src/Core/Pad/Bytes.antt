-- ===== src/Core/Pad/Bytes.antt =====
-- Lemmas on the bytes of a buffer after a memmove, for usbip_pad_iso (usbip_common.c).
use usbip.Base.{
  ℕ, zero, suc, ◌+◌, ◌-◌, ◌≤◌, ◌<◌, ◌≡◌, refl, ◌∙◌, List, [], ◌∷◌, ◌++◌, arith, length, take, drop,
  get_elem?, length-take, length-append, length-drop, sym, ap,
}
use usbip.Core.Pad.{memmove}

suc_add : (m k : ℕ) → suc m + k ≡ suc (m + k)
suc_add m k = omega arith

pub get_elem?-append_left :
    (xs ys : List ℕ) (k : ℕ) → k < length xs → get_elem? (xs ++ ys) k ≡ get_elem? xs k
get_elem?-append_left [] ys k h = absurd (omega arith)
get_elem?-append_left (x ∷ xs) ys zero h = refl
get_elem?-append_left (x ∷ xs) ys (suc k) h = get_elem?-append_left xs ys k (omega arith)

pub get_elem?-append_right :
    (xs ys : List ℕ) (k : ℕ) → get_elem? (xs ++ ys) (length xs + k) ≡ get_elem? ys k
get_elem?-append_right [] ys k = ap (get_elem? ys) (omega arith)
get_elem?-append_right (x ∷ xs) ys k =
    ap (get_elem? (x ∷ xs ++ ys)) (suc_add (length xs) k) ∙ get_elem?-append_right xs ys k

pub get_elem?-take :
    (n : ℕ) (xs : List ℕ) (k : ℕ) → k < n → get_elem? (take n xs) k ≡ get_elem? xs k
get_elem?-take zero xs k h = absurd (omega arith)
get_elem?-take (suc n) [] k h = refl
get_elem?-take (suc n) (x ∷ xs) zero h = refl
get_elem?-take (suc n) (x ∷ xs) (suc k) h = get_elem?-take n xs k (omega arith)

pub get_elem?-drop : (n : ℕ) (xs : List ℕ) (k : ℕ) → get_elem? (drop n xs) k ≡ get_elem? xs (n + k)
get_elem?-drop zero xs k = ap (get_elem? xs) (omega arith)
get_elem?-drop (suc n) [] k = refl
get_elem?-drop (suc n) (x ∷ xs) k =
    get_elem?-drop n xs k ∙ ap (get_elem? (x ∷ xs)) (sym (suc_add n k))

length_front : (buf : List ℕ) (n : ℕ) → n ≤ length buf → length (take n buf) ≡ n
length_front buf n h = omega (arith, length-take n buf)

pub length_moved :
    (buf : List ℕ) (source n : ℕ) → source + n ≤ length buf → length (take n (drop source buf)) ≡ n
length_moved buf source n h = omega (arith, length-take n (drop source buf), length-drop source buf)

pub length-memmove :
    (buf : List ℕ) (target source n : ℕ)
    → target + n ≤ length buf
    → source + n ≤ length buf
    → length (memmove buf target source n) ≡ length buf
unfolding memmove
length-memmove buf target source n t s = omega (
  arith,
  length-append (take target buf) (take n (drop source buf) ++ drop (target + n) buf),
  length-append (take n (drop source buf)) (drop (target + n) buf),
  length_front buf target (omega arith),
  length_moved buf source n s,
  length-drop (target + n) buf,
)

pub memmove_before :
    (buf : List ℕ) (target source n k : ℕ)
    → target + n ≤ length buf
    → k < target
    → get_elem? (memmove buf target source n) k ≡ get_elem? buf k
unfolding memmove
memmove_before buf target source n k t h =
    get_elem?-append_left (take target buf) (take n (drop source buf) ++ drop (target + n) buf) k
      (omega (arith, length_front buf target (omega arith)))
    ∙ get_elem?-take target buf k h

after_front :
    (buf : List ℕ) (target source n k : ℕ)
    → target ≤ length buf
    → get_elem? (memmove buf target source n) (target + k)
      ≡ get_elem? (take n (drop source buf) ++ drop (target + n) buf) k
unfolding memmove
after_front buf target source n k t =
    let rest : List ℕ = take n (drop source buf) ++ drop (target + n) buf in
    let front = length_front buf target t in
    ap (λ m. get_elem? (take target buf ++ rest) (m + k)) (sym front)
    ∙ get_elem?-append_right (take target buf) rest k

pub memmove_inside :
    (buf : List ℕ) (target source n k : ℕ)
    → target + n ≤ length buf
    → source + n ≤ length buf
    → k < n
    → get_elem? (memmove buf target source n) (target + k) ≡ get_elem? buf (source + k)
memmove_inside buf target source n k t s h =
    after_front buf target source n k (omega arith)
    ∙ get_elem?-append_left (take n (drop source buf)) (drop (target + n) buf) k
        (omega (arith, length_moved buf source n s))
    ∙ get_elem?-take n (drop source buf) k h
    ∙ get_elem?-drop source buf k

behind :
    (buf : List ℕ) (target source n k : ℕ)
    → target + n ≤ length buf
    → source + n ≤ length buf
    → get_elem? (memmove buf target source n) (target + (n + k)) ≡ get_elem? buf (target + n + k)
behind buf target source n k t s =
    let moved = length_moved buf source n s in
    after_front buf target source n (n + k) (omega arith)
    ∙ ap (λ m. get_elem? (take n (drop source buf) ++ drop (target + n) buf) (m + k)) (sym moved)
    ∙ get_elem?-append_right (take n (drop source buf)) (drop (target + n) buf) k
    ∙ get_elem?-drop (target + n) buf k

pub memmove_after :
    (buf : List ℕ) (target source n k : ℕ)
    → target + n ≤ length buf
    → source + n ≤ length buf
    → target + n ≤ k
    → get_elem? (memmove buf target source n) k ≡ get_elem? buf k
memmove_after buf target source n k t s h =
    let here : target + (n + (k - (target + n))) ≡ k = omega arith in
    let there : target + n + (k - (target + n)) ≡ k = omega arith in
    ap (get_elem? (memmove buf target source n)) (sym here)
    ∙ behind buf target source n (k - (target + n)) t s
    ∙ ap (get_elem? buf) there
