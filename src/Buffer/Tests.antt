-- ===== src/Buffer/Tests.antt =====
-- The theorems on the reusable buffer at a ring of eight bytes that has gone round its end.
use doormat.Base.{◌≡◌, true, false, some, [], ◌∷◌, ◌++◌, arith, drop}
use doormat.Buffer.{ReusableBuffer, reserve, avail_mem, consume, receive}
use doormat.Buffer.Ring.{contents, IsValid, receive-contents, consume-contents}

abbrev ring : ReusableBuffer
ring = record { bound = true; mem = λ i. i; wr = 2; rd = 5 }

ring-IsValid : IsValid 8 ring
ring-IsValid = record {
  small = omega arith;
  wr_in = omega arith;
  rd_in = omega arith;
  wrapped = λ _. omega arith;
  straight = λ h. absurd (clash h);
}
  where
    clash : true ≡ false → ⊥
    clash h = cc

receive-contents_example :
    let (b', ptr) = receive 8 ring (70 ∷ 71 ∷ []) in
    (contents 8 b' ≡ contents 8 ring ++ (70 ∷ 71 ∷ []))
    × (ptr ≡ some (reserve 8 ring).1)
    × IsValid 8 b'
unfolding reserve avail_mem
receive-contents_example = receive-contents ring-IsValid (70 ∷ 71 ∷ []) (omega arith)

consume-contents_example :
    let (b', bytes) = consume 8 ring 7 in
    (bytes ≡ 2) × (contents 8 b' ≡ drop 2 (contents 8 ring)) × IsValid 8 b'
consume-contents_example =
    consume-contents ring-IsValid [] 7 (omega arith) (omega arith) (omega arith)
