-- ===== src/Buffer/Ring.antt =====
-- The reusable buffer seen as a queue of bytes.
use doormat.Base.{
  ℕ, zero, suc, ◌+◌, ◌-◌, ◌^◌, ◌≤◌, ◌<◌, ◌≡◌, refl, ap, ap₂, ◌∙◌, ◌↔◌, ◌⊎◌, true, false, some, [],
  ◌∷◌, ◌++◌, arith, Bytes, if◌then◌else◌, length, drop, append_assoc, append-nil, length-append,
  length-eq-zero,
}
use doormat.Buffer.{ReusableBuffer, avail_mem, reserve, produce, consume, store, receive}

-- `n` bytes from offset `a` on.
abbrev pub window : (ℕ → ℕ) → ℕ → ℕ → Bytes
window f a zero = []
window f a (suc n) = f a ∷ window f (suc a) n

-- The bytes stored and not yet consumed, oldest first.
abbrev pub contents : ℕ → ReusableBuffer → Bytes
contents size b =
    if b.bound
    then window b.mem b.rd (size - b.rd) ++ window b.mem 0 b.wr
    else window b.mem b.rd (b.wr - b.rd)

pub record IsValid (size : ℕ) (b : ReusableBuffer) : Type 0 where
  pub small : size < 2 ^ 31
  pub wr_in : b.wr < size
  pub rd_in : b.rd < size
  pub wrapped : b.bound ≡ true → b.wr ≤ b.rd
  pub straight : b.bound ≡ false → b.rd ≤ b.wr

length-window : (f : ℕ → ℕ) (a n : ℕ) → length (window f a n) ≡ n
length-window f a zero = refl
length-window f a (suc n) = omega (arith, length-window f (suc a) n)

window-append : (f : ℕ → ℕ) (a m n : ℕ) → window f a (m + n) ≡ window f a m ++ window f (a + m) n
window-append f a zero n = ap₂ (λ s t. window f s t) (omega arith) (omega arith)
window-append f a (suc m) n =
    sum ∙ ap (λ l. f a ∷ l) (window-append f (suc a) m n ∙ ap (λ l. window f (suc a) m ++ l) shift)
  where
    sum : window f a (suc m + n) ≡ window f a (suc (m + n))
    sum = ap (window f a) {y = suc (m + n)} (omega arith)

    shift : window f (suc a + m) n ≡ window f (a + suc m) n
    shift = ap₂ (λ s t. window f s t) (omega arith) refl

store_outside :
    (f : ℕ → ℕ) (a : ℕ) (xs : Bytes) (i : ℕ) → (i < a) ⊎ (a + length xs ≤ i) → store f a xs i ≡ f i
store_outside f a [] i h = refl
store_outside f a (x ∷ xs) i h = ground (arith, store_outside f (suc a) xs i (omega arith))

-- A write past or before a window leaves it as it was.
window-store_outside :
    (f : ℕ → ℕ) (a : ℕ) (xs : Bytes) (b n : ℕ)
    → (b + n ≤ a) ⊎ (a + length xs ≤ b)
    → window (store f a xs) b n ≡ window f b n
window-store_outside f a xs b zero h = refl
window-store_outside f a xs b (suc n) h =
    ap₂ ◌∷◌ (store_outside f a xs b (omega arith))
      (window-store_outside f a xs (suc b) n (omega arith))

window_cong : (f g : ℕ → ℕ) (b n : ℕ) → ((i : ℕ) → b ≤ i → f i ≡ g i) → window f b n ≡ window g b n
window_cong f g b zero h = refl
window_cong f g b (suc n) h =
    ap₂ ◌∷◌ (h b (omega arith)) (window_cong f g (suc b) n (λ i l. h i (omega arith)))

store_tail :
    (f : ℕ → ℕ) (a x : ℕ) (xs : Bytes) (i : ℕ)
    → suc a ≤ i
    → store f a (x ∷ xs) i ≡ store f (suc a) xs i
store_tail f a x xs i h = ground arith

store_head : (f : ℕ → ℕ) (a x : ℕ) (xs : Bytes) → store f a (x ∷ xs) a ≡ x
store_head f a x xs = ground arith

-- What is written is what is read back.
pub window-store_self : (f : ℕ → ℕ) (a : ℕ) (xs : Bytes) → window (store f a xs) a (length xs) ≡ xs
window-store_self f a [] = refl
window-store_self f a (x ∷ xs) =
    ap₂ ◌∷◌ (store_head f a x xs)
      (window_cong _ _ (suc a) (length xs) (store_tail f a x xs) ∙ window-store_self f (suc a) xs)

drop-window :
    (f : ℕ → ℕ) (a k n : ℕ) (ys : Bytes)
    → k ≤ n
    → drop k (window f a n ++ ys) ≡ window f (a + k) (n - k) ++ ys
drop-window f a zero n ys h = ap₂ (λ s t. window f s t ++ ys) (omega arith) (omega arith)
drop-window f a (suc k) zero ys h = absurd (omega arith)
drop-window f a (suc k) (suc n) ys h =
    drop-window f (suc a) k n ys (omega arith)
    ∙ ap₂ (λ s t. window f s t ++ ys) (omega arith) (omega arith)

window-zero : (f : ℕ → ℕ) (a n : ℕ) → n ≡ 0 → window f a n ≡ []
window-zero f a n e = ap (window f a) e

module _ {size : ℕ} {b : ReusableBuffer} (v : IsValid size b) where
  -- Realignment loses nothing, and what is announced as free lies inside `mem`.
  avail_mem-contents : contents size (avail_mem size b).0 ≡ contents size b
  unfolding avail_mem
  avail_mem-contents = ground (arith, window-zero b.mem b.rd (b.wr - b.rd))

  avail_mem-IsValid : IsValid size (avail_mem size b).0
  unfolding avail_mem
  avail_mem-IsValid = ground arith

  length-contents :
      length (contents size b) ≡ (if b.bound then (size - b.rd) + b.wr else b.wr - b.rd)
  length-contents = ground (
    arith,
    length-append (window b.mem b.rd (size - b.rd)) (window b.mem 0 b.wr),
    length-window b.mem b.rd (size - b.rd),
    length-window b.mem 0 b.wr,
    length-window b.mem b.rd (b.wr - b.rd),
  )

  -- The region that `reserve` announces lies inside `mem` and holds no unread byte, and the buffer
  -- still holds what it held.
  pub reserve_region :
      let (b', start, n) = reserve size b in
      (start + n ≤ size)
      × (contents size b' ≡ contents size b)
      × (length (contents size b) + n ≤ size)
      × IsValid size b'
  unfolding reserve avail_mem
  reserve_region = ground (arith, length-contents, avail_mem-contents, avail_mem-IsValid)

  -- It is empty exactly when the buffer is full.
  pub reserve_full : ((reserve size b).2 ≡ 0) ↔ (length (contents size b) ≡ size)
  unfolding reserve avail_mem
  reserve_full = ground (arith, length-contents)

-- The window that ends where a write begins, extended by that write.
window-store :
    (f : ℕ → ℕ) (a n c k : ℕ) (xs : Bytes)
    → c ≡ a + n
    → k ≡ n + length xs
    → window (store f c xs) a k ≡ window f a n ++ xs
window-store f a n c k xs e e' =
    rw (e', window-append (store f c xs) a n (length xs), ← e, window-store_self f c xs)
      (ap (λ l. l ++ xs) (window-store_outside f c xs a n (omega arith)))

module _ {size : ℕ} {b : ReusableBuffer} (v : IsValid size b) (xs : Bytes) where
  -- A read of at most as many bytes as `reserve` announced is stored behind what the buffer holds,
  -- at the place `reserve` named, which `produce` returns.
  pub receive-contents :
      length xs ≤ (reserve size b).2
      → let (b', ptr) = receive size b xs in
        (contents size b' ≡ contents size b ++ xs)
        × (ptr ≡ some (reserve size b).1)
        × IsValid size b'
  unfolding receive reserve avail_mem produce
  receive-contents h = ground (
    arith,
    window-store b.mem 0 b.wr b.wr (b.wr + length xs) xs,
    window-store_outside b.mem b.wr xs b.rd (size - b.rd),
    append_assoc (window b.mem b.rd (size - b.rd)) (window b.mem 0 b.wr) xs,
    window-store b.mem b.rd (b.wr - b.rd) b.wr (b.wr + length xs - b.rd) xs,
    window-store b.mem b.rd (b.wr - b.rd) b.wr (size - b.rd) xs,
    append-nil (window (store b.mem b.wr xs) b.rd (size - b.rd)),
    window-store_self b.mem 0 xs,
    append-nil (window (store b.mem 0 xs) 0 size),
    length-contents v,
    length-eq-zero xs,
    append-nil (contents size b),
  )

  -- A pointer at or behind the oldest byte consumes all the bytes before it, and no other.
  pub consume-contents :
      (ptr : ℕ)
      → b.rd ≤ ptr
      → 0 < ptr
      → ptr ≤ (if b.bound then size else b.wr)
      → let (b', bytes) = consume size b ptr in
        (bytes ≡ ptr - b.rd)
        × (contents size b' ≡ drop (ptr - b.rd) (contents size b))
        × IsValid size b'
  unfolding consume
  consume-contents ptr from pos to = ground (
    arith,
    drop-window b.mem b.rd (ptr - b.rd) (size - b.rd) (window b.mem 0 b.wr),
    drop-window b.mem b.rd (ptr - b.rd) (b.wr - b.rd) [],
    append-nil (window b.mem b.rd (b.wr - b.rd)),
    append-nil (window b.mem (b.rd + (ptr - b.rd)) (b.wr - b.rd - (ptr - b.rd))),
  )
