-- ===== src/Wire.antt =====
-- datafactory.h: the codes of the protocol, the capsule header and its place in memory. The header
-- is packed, so what `memcpy(body, &header, HEADER_SPACE)` writes and `*(capsuleHdr *)body` reads
-- are its fourteen bytes in the order of the fields, low byte first; the four bit-fields share two
-- bytes, the first of them in the low bits.
pub mod RoundTrip
mod Tests
use udm.Base.{ℕ, ◌+◌, ◌*◌, ◌/◌, ◌%◌, ◌<◌, ◌^◌, ◌≡◌, Option, none, some, List, [], ◌∷◌, ◌++◌}

-- `enum class stateCodes`.
pub data StateCode : Type 0 where
  open_state setup connected closed done inq send recv : StateCode

-- `enum class stateDirection`.
pub data StateDirection : Type 0 where
  tx rx : StateDirection

-- `enum class sourceMode`.
pub data SourceMode : Type 0 where
  in_mode out_mode : SourceMode

-- `enum class capsuleType`.
abbrev pub ctrl : ℕ
ctrl = 0b00

abbrev pub payld : ℕ
payld = 0b11

-- `flags::FIN`.
abbrev pub fin_flag : ℕ
fin_flag = 0b1

-- `sizeof(capsuleHdr)` and `sizeof(struct capsule)`, with pointers of eight bytes.
abbrev pub header_space : ℕ
header_space = 14

abbrev pub sizeof_capsule : ℕ
sizeof_capsule = 22

pub record CapsuleHdr : Type 0 where
  pub srcid : ℕ
  pub destid : ℕ
  pub connid : ℕ
  pub capid : ℕ
  pub cap_size : ℕ
  pub cap_type : ℕ
  pub cap_priority : ℕ
  pub cap_win_siz : ℕ
  pub cap_flags : ℕ
  pub capopts : ℕ

-- The header that `capsule()` initialises.
abbrev pub zero_hdr : CapsuleHdr
zero_hdr = record {
  srcid = 0;
  destid = 0;
  connid = 0;
  capid = 0;
  cap_size = 0;
  cap_type = 0;
  cap_priority = 0;
  cap_win_siz = 0;
  cap_flags = 0;
  capopts = 0;
}

-- Every field fits its width.
pub record IsHdr (h : CapsuleHdr) : Type 0 where
  pub srcid_lt : h.srcid < 2 ^ 8
  pub destid_lt : h.destid < 2 ^ 8
  pub connid_lt : h.connid < 2 ^ 16
  pub capid_lt : h.capid < 2 ^ 16
  pub cap_size_lt : h.cap_size < 2 ^ 16
  pub cap_type_lt : h.cap_type < 2 ^ 2
  pub cap_priority_lt : h.cap_priority < 2 ^ 2
  pub cap_win_siz_lt : h.cap_win_siz < 2 ^ 4
  pub cap_flags_lt : h.cap_flags < 2 ^ 8
  pub capopts_lt : h.capopts < 2 ^ 32

-- The `k`-th byte of a number.
abbrev pub byte : ℕ → ℕ → ℕ
byte k n = n / 2 ^ (8 * k) % 2 ^ 8

-- The bytes of a header, as `memcpy` copies them.
unfoldable pub encode : CapsuleHdr → List ℕ
encode h =
    byte 0 h.srcid
    ∷ byte 0 h.destid
    ∷ byte 0 h.connid
    ∷ byte 1 h.connid
    ∷ byte 0 h.capid
    ∷ byte 1 h.capid
    ∷ byte 0 h.cap_size
    ∷ byte 1 h.cap_size
    ∷ (h.cap_type % 2 ^ 2 + 2 ^ 2 * (h.cap_priority % 2 ^ 2) + 2 ^ 4 * (h.cap_win_siz % 2 ^ 4))
    ∷ byte 0 h.cap_flags
    ∷ byte 0 h.capopts
    ∷ byte 1 h.capopts
    ∷ byte 2 h.capopts
    ∷ byte 3 h.capopts
    ∷ []

abbrev of_bytes : (b0 b1 b2 b3 b4 b5 b6 b7 b8 b9 b10 b11 b12 b13 : ℕ) → CapsuleHdr
of_bytes b0 b1 b2 b3 b4 b5 b6 b7 b8 b9 b10 b11 b12 b13 = record {
  srcid = b0;
  destid = b1;
  connid = b2 + 2 ^ 8 * b3;
  capid = b4 + 2 ^ 8 * b5;
  cap_size = b6 + 2 ^ 8 * b7;
  cap_type = b8 % 2 ^ 2;
  cap_priority = b8 / 2 ^ 2 % 2 ^ 2;
  cap_win_siz = b8 / 2 ^ 4 % 2 ^ 4;
  cap_flags = b9;
  capopts = b10 + 2 ^ 8 * b11 + 2 ^ 16 * b12 + 2 ^ 24 * b13;
}

-- The header that stands in the first bytes of a body; `none` where there are fewer than fourteen.
unfoldable pub decode : List ℕ → Option CapsuleHdr
decode (b0 ∷ b1 ∷ b2 ∷ b3 ∷ b4 ∷ b5 ∷ b6 ∷ b7 ∷ b8 ∷ b9 ∷ b10 ∷ b11 ∷ b12 ∷ b13 ∷ rest) =
    some (of_bytes b0 b1 b2 b3 b4 b5 b6 b7 b8 b9 b10 b11 b12 b13)
decode _ = none
