-- ===== src/Session/ReceiverTests.antt =====
-- Tests of the receiver: the last capsule of a file comes in, and the last window.
use udm.Base.{◌≡◌, refl, some, none, List, [], ◌∷◌, ◌++◌, true, has_bits, arith}
use udm.Wire.{CapsuleHdr, StateCode, rx, zero_hdr, payld, fin_flag, encode}
use udm.World.{World, ok, datagram}
use udm.World.Memory.{put}
use udm.Samples.{told, other}
use udm.Session.States.{await_payload, closed_state}
use udm.Session.Received.{Sent, arrivals_of, payloads_of, IsSeries, IsReceiving}
use udm.Session.ReceivedWindow.{IsWindowReceived, closed_state-received}
use udm.Session.Receiver.{arrived, await_payload_lem}

abbrev header : CapsuleHdr
header = record zero_hdr { capid = 6; cap_type = payld; cap_flags = fin_flag; cap_size = 2 }

-- Capsule 5, object 1, is in the window, and object 0 is the buffer of the caller.
abbrev waiting : World
waiting = record told {
  mem = put told.mem 0 (some (record { size = 0; cap = none }));
  fresh = 2;
  window = (5, 1) ∷ [];
  incoming = datagram (encode header ++ (b'a' ∷ b'b' ∷ [])) other true ∷ [];
}

await_payload_lem_example :
    await_payload StateCode.closed 0 waiting
    ≡ ok tt (arrived waiting header (b'a' ∷ b'b' ∷ []) other [])
unfolding put has_bits
await_payload_lem_example =
    await_payload_lem waiting 0 0 header (b'a' ∷ b'b' ∷ []) other true [] refl (omega arith)
      (omega arith) refl (omega arith, tt) refl refl (omega arith)

abbrev last_window : List Sent
last_window =
    record {
      header = record zero_hdr { capid = 5; cap_type = payld; cap_size = 1 };
      payload = b'z' ∷ [];
      from = other;
      named = true;
    }
    ∷ record { header = header; payload = b'a' ∷ b'b' ∷ []; from = other; named = true }
    ∷ []

-- The window is open and empty.
abbrev expecting : World
expecting = record told {
  mem = put told.mem 0 (some (record { size = 0; cap = none }));
  fresh = 2;
  window = [];
  incoming = arrivals_of last_window [];
  session = record told.session { win_size = 10 };
}

expecting-IsReceiving : IsReceiving expecting 0 3 []
unfolding put
expecting-IsReceiving = record {
  below = tt;
  older = tt;
  held = tt;
  more = refl;
  size = 0;
  no_capsule = refl;
  old = omega arith;
}

last_window-IsSeries : IsSeries expecting.rx_factory.chunk_size true 3 last_window
unfolding has_bits
last_window-IsSeries = (
  record { valid = omega arith; fits = omega arith; typed = refl },
  (
    omega arith,
    (refl, (record { valid = omega arith; fits = omega arith; typed = refl }, (omega arith, refl))),
  ),
)

closed_state-received_example :
    IsWindowReceived expecting
      (closed_state StateCode.closed rx 0 expecting)
      (payloads_of last_window)
      []
      true
      StateCode.done
closed_state-received_example =
    closed_state-received last_window expecting 0 3 [] [] true expecting-IsReceiving
      last_window-IsSeries refl (omega arith) (λ e. ground arith) refl

-- The capsule 6 comes in before the capsule 5.
abbrev swapped : World
swapped = record expecting {
  incoming =
      arrivals_of
        (record {
          header = record header { cap_flags = 0 };
          payload = b'a' ∷ b'b' ∷ [];
          from = other;
          named = true;
        }
          ∷ record {
            header = record zero_hdr { capid = 5; cap_type = payld; cap_size = 1 };
            payload = b'z' ∷ [];
            from = other;
            named = true;
          }
          ∷ [])
        [];
  session = record told.session { win_size = 2 };
}
