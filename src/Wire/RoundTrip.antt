-- ===== src/Wire/RoundTrip.antt =====
-- What one end writes as a header the other end reads.
use udm.Base.{ℕ, ◌^◌, ◌<◌, ◌≡◌, refl, some, List, ◌++◌, arith, length, All}
use udm.Wire.{CapsuleHdr, IsHdr, encode, decode, header_space}

pub length-encode : (h : CapsuleHdr) → length (encode h) ≡ header_space
unfolding encode
length-encode h = refl

pub encode-bytes : (h : CapsuleHdr) → All (λ b. b < 2 ^ 8) (encode h)
unfolding encode
encode-bytes h = omega arith

-- A header whose fields fit their widths is read back from the bytes that it was written as, whatever
-- payload follows it.
pub decode-encode : (h : CapsuleHdr) (rest : List ℕ) → IsHdr h → decode (encode h ++ rest) ≡ some h
unfolding decode encode
decode-encode h rest v = ground arith
