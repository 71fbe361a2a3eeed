-- ===== src/Wire/Tests.antt =====
-- A header and the bytes that stand for it.
use udm.Base.{◌≡◌, refl, [], ◌∷◌, ◌++◌, some, arith}
use udm.Wire.{CapsuleHdr, encode, decode}
use udm.Wire.RoundTrip.{decode-encode}

abbrev header : CapsuleHdr
header = record {
  srcid = 7;
  destid = 8;
  connid = 513;
  capid = 65535;
  cap_size = 49138;
  cap_type = 3;
  cap_priority = 1;
  cap_win_siz = 5;
  cap_flags = 17;
  capopts = 4294967295;
}

header_bytes :
    encode header ≡ 7 ∷ 8 ∷ 1 ∷ 2 ∷ 255 ∷ 255 ∷ 242 ∷ 191 ∷ 87 ∷ 17 ∷ 255 ∷ 255 ∷ 255 ∷ 255 ∷ []
unfolding encode
header_bytes = refl

decode-encode_example : decode (encode header ++ 1 ∷ 2 ∷ []) ≡ some header
decode-encode_example = decode-encode header (1 ∷ 2 ∷ []) (omega arith)
