-- ===== src/Buffer.antt =====
-- src/utils/reusable_buffer.h: the ring of bytes into which a connector reads.
-- A pointer into `mem` is its offset from `mem`; the template parameter `N` is `size`. `mem` is a
-- function from offsets to bytes, which the buffer itself never reads: the socket writes at the
-- region that `reserve` hands out, and the decoder reads at the pointer that `produce` returns.
pub mod Ring
mod Tests
use doormat.Base.{
  ℕ, zero, suc, ◌+◌, ◌-◌, ◌%◌, ◌^◌, ◌&&◌, Bool, true, false, Option, none, some, List, [], ◌∷◌,
  Bytes, ltb, leb, ◌==◌, if◌then◌else◌, length,
}

pub record ReusableBuffer : Type 0 where
  pub bound : Bool
  pub mem : ℕ → ℕ
  pub wr : ℕ
  pub rd : ℕ

abbrev pub init : ReusableBuffer
init = record { bound = false; mem = λ _. 0; wr = 0; rd = 0 }

module _ (size : ℕ) where
  -- The result is the bytes free from `wr` on in one piece; an empty buffer is realigned.
  unfoldable pub avail_mem : ReusableBuffer → ReusableBuffer × ℕ
  avail_mem b =
      if ltb b.wr b.rd
      then (b, b.rd - b.wr)
      else if ltb b.rd b.wr
      then (b, size - b.wr)
      else if b.bound
      then (b, 0)
      else (record b { rd = 0; wr = 0 }, size)

  -- The start and the length of the region that can be written. The order in which the C++
  -- compiler evaluates the arguments `wr` and `avail_mem()` is left open by the language; the
  -- realignment is taken to come first.
  unfoldable pub reserve : ReusableBuffer → ReusableBuffer × ℕ × ℕ
  unfolding avail_mem
  reserve b = let (b', n) = avail_mem b in (b', b'.wr, n)

  -- `wr += len`, and round the end of `mem`.
  unfoldable pub advance : ReusableBuffer → ℕ → ReusableBuffer
  advance b len =
      if b.wr + len == size then record b { bound = true; wr = 0 } else record b { wr = b.wr + len }

  -- `none` is the null pointer.
  unfoldable pub produce : ReusableBuffer → ℕ → ReusableBuffer × Option ℕ
  unfolding avail_mem advance
  produce b len =
      let (b', most) = avail_mem b in
      if leb len most then (advance b' len, some b'.wr) else (b', none)

  -- `ptr - rd` is a `size_t`.
  unfoldable pub consume : ReusableBuffer → ℕ → ReusableBuffer × ℕ
  consume b ptr =
      let upper_bound = if b.bound then size else b.wr in
      if ltb 0 ptr && leb ptr upper_bound
      then (
        if ptr == size then record b { bound = false; rd = 0 } else record b { rd = ptr },
        (2 ^ 64 + ptr - b.rd) % 2 ^ 64,
      )
      else (b, 0)

-- What the socket does with the region it was given: it stores bytes from an offset on.
abbrev pub store : (ℕ → ℕ) → ℕ → Bytes → ℕ → ℕ
store f a [] i = f i
store f a (x ∷ xs) i = if i == a then x else store f (suc a) xs i

-- One completed read, as `connector::do_read` makes it: reserve, the socket's write, produce.
pub receive : ℕ → ReusableBuffer → Bytes → ReusableBuffer × Option ℕ
unfolding reserve produce
receive size b bytes =
    let (b', start, n) = reserve size b in
    produce size (record b' { mem = store b'.mem start bytes }) (length bytes)
