-- ===== src/Presentation/Tests.antt =====
-- A test of the written file: two capsules that arrived out of order.
use udm.Base.{◌+◌, refl, Option, none, [], ◌∷◌, ◌++◌, arith, ◌==◌, has_bits, if◌then◌else◌}
use udm.Wire.{CapsuleHdr, zero_hdr, payld, rx, encode, header_space}
use udm.World.{World, MemBuff, Ref}
use udm.World.Laws.{buffer_of}
use udm.Samples.{told, output}
use udm.Presentation.{write_window}
use udm.Presentation.Written.{IsWritten, with_file, appended, write_window_lem}

abbrev header : CapsuleHdr
header = record zero_hdr { cap_type = payld; cap_size = 2 }

abbrev objects : Ref → Option MemBuff
objects r =
    if r == 4
    then buffer_of (header_space + 2) header (encode header ++ ((b'a' ∷ b'b' ∷ []) ++ []))
        header_space
    else if r == 5
    then buffer_of (header_space + 1) header (encode header ++ ((b'c' ∷ []) ++ (b'x' ∷ [])))
        header_space
    else none

abbrev holding : World
holding = record told { mem = objects }

write_window_lem_example :
    IsWritten holding
      (write_window rx ((7, 5) ∷ (9, 4) ∷ []) (with_file holding output))
      (appended output (b'c' ∷ b'a' ∷ b'b' ∷ []))
unfolding encode has_bits
write_window_lem_example =
    write_window_lem holding output ((7, 5) ∷ (9, 4) ∷ []) ((b'c' ∷ []) ∷ (b'a' ∷ b'b' ∷ []) ∷ [])
      (record { for_output = refl; good = refl; takes = omega arith })
      (
        record {
          header = header;
          pre = encode header;
          post = b'x' ∷ [];
          holds = refl;
          typed = refl;
        },
        (
          record { header = header; pre = encode header; post = []; holds = refl; typed = refl },
          tt,
        ),
      )
