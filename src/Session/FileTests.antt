-- ===== src/Session/FileTests.antt =====
-- Tests of the loop of `start` over a whole file, at both ends.
use udm.Base.{
  ℕ, refl, ◌∷◌, [], ◌++◌, List, Option, some, none, true, false, arith, drop, has_bits, ◌==◌,
  if◌then◌else◌, Bool, ◌<◌, ◌^◌,
}
use udm.Wire.{CapsuleHdr, StateCode, tx, rx, zero_hdr, payld, fin_flag, encode}
use udm.World.{World, MemBuff, Ref}
use udm.World.Memory.{put}
use udm.World.Laws.{buffer_of}
use udm.Factory.Load.{at_chunk, IsReading}
use udm.Presentation.Written.{appended}
use udm.Samples.{told, input, output, other, okay, eth_address}
use udm.Session.States.{state_loop, done_state}
use udm.Session.Received.{Sent, arrivals_of, IsSent}
use udm.Session.SentFile.{IsSending, AllAcks}
use udm.Session.WholeFile.{IsFileSent, state_loop-file}
use udm.Session.Listening.{IsListening}
use udm.Session.Finished.{IsWindowStored, done_state-stored}
use udm.Session.Series.{IsFileSeries, all_arrivals}
use udm.Session.ReceivedFile.{IsFileReceived, state_loop-received}

abbrev okay_sent : Sent
okay_sent = record { header = okay; payload = []; from = other; named = true }

-- A sender of 200 bytes, five chunks and a short one, at the start of its first window.
abbrev pub sending : World
sending = record told {
  session = record told.session { next = StateCode.closed; win_size = 5 };
  incoming = arrivals_of (okay_sent ∷ okay_sent ∷ []) [];
}

pub two_hundred-IsReading : IsReading (input 200) 50
two_hundred-IsReading = record {
  for_input = refl;
  good = refl;
  whole = refl;
  small = omega arith;
  read_part = omega arith;
  count_fits = omega arith;
  chunk_gt = omega arith;
  chunk_fits = omega arith;
}

pub sending-IsSending : IsSending sending
sending-IsSending = record { at_closed = refl; window = refl; idle = refl; read = refl }

acks-AllAcks : AllAcks 50 (okay_sent ∷ okay_sent ∷ [])
unfolding has_bits
acks-AllAcks = (
  record { valid = omega arith; fits = omega arith; kind = refl },
  (record { valid = omega arith; fits = omega arith; kind = refl }, tt),
)

state_loop-file_example :
    IsFileSent sending
      (state_loop 4 tx 0 (at_chunk sending (input 200) 50))
      (drop 0 (input 200).content)
      []
state_loop-file_example =
    state_loop-file okay_sent (okay_sent ∷ []) 4 0 sending (input 200) 50 (eth_address ∷ []) 0 20 []
      two_hundred-IsReading refl (omega arith) (omega arith) (omega arith)
      (record {
        told = refl;
        some_left = omega arith;
        within = omega arith;
        no_wrap = omega arith;
        sent = λ i. refl;
      })
      sending-IsSending refl acks-AllAcks (omega arith)

-- A capsule of one byte.
abbrev byte_sent : ℕ → ℕ → Sent
byte_sent id flags = record {
  header = record zero_hdr { capid = id; cap_type = payld; cap_size = 1; cap_flags = flags };
  payload = id ∷ [];
  from = other;
  named = true;
}

-- A full window, and one that ends with FIN.
abbrev two_windows : List (List Sent)
two_windows =
    (byte_sent 3 0 ∷ byte_sent 4 0 ∷ byte_sent 5 0 ∷ byte_sent 6 0 ∷ byte_sent 7 0 ∷ [])
    ∷ (byte_sent 8 fin_flag ∷ [])
    ∷ []

abbrev pub listening : World
listening = record told {
  mem = put told.mem 0 (some (record { size = 0; cap = none }));
  incoming = all_arrivals two_windows [];
  rx_factory = record told.rx_factory { source_data = some output };
  session = record told.session { next = StateCode.closed; win_size = 5 };
}

pub listening-IsListening : IsListening listening 0
unfolding put
listening-IsListening = record {
  at_closed = refl;
  window_size = refl;
  idle = refl;
  no_entries = refl;
  more = refl;
  apart = record { older = omega arith; queue = tt };
  size = 0;
  no_capsule = refl;
  room = omega arith;
}

byte_sent-IsSent :
    (id : ℕ) → id < 2 ^ 16 → (last : Bool) → IsSent 50 (byte_sent id (if last then 1 else 0))
unfolding has_bits
byte_sent-IsSent id h last = record { valid = ground arith; fits = omega arith; typed = refl }

two_windows-IsFileSeries : IsFileSeries 50 two_windows
unfolding has_bits
two_windows-IsFileSeries = (
  (
    byte_sent-IsSent 3 (omega arith) false,
    (
      omega arith,
      (
        refl,
        (
          byte_sent-IsSent 4 (omega arith) false,
          (
            omega arith,
            (
              refl,
              (
                byte_sent-IsSent 5 (omega arith) false,
                (
                  omega arith,
                  (
                    refl,
                    (
                      byte_sent-IsSent 6 (omega arith) false,
                      (
                        omega arith,
                        (refl, (byte_sent-IsSent 7 (omega arith) false, (omega arith, refl))),
                      ),
                    ),
                  ),
                ),
              ),
            ),
          ),
        ),
      ),
    ),
  ),
  (refl, ((byte_sent-IsSent 8 (omega arith) true, (omega arith, refl)), omega arith)),
)

state_loop-received_example :
    IsFileReceived listening (state_loop 4 rx 0 listening) output (3 ∷ 4 ∷ 5 ∷ 6 ∷ 7 ∷ 8 ∷ []) 2 []
state_loop-received_example =
    state_loop-received two_windows 4 0 listening output (eth_address ∷ []) [] listening-IsListening
      two_windows-IsFileSeries refl refl
      (record { for_output = refl; good = refl; takes = omega arith })
      (record {
        told = refl;
        some_left = omega arith;
        within = omega arith;
        no_wrap = omega arith;
        sent = λ i. refl;
      })
      (omega arith)

-- Two capsules that came in stand in the window.
abbrev header : CapsuleHdr
header = record zero_hdr { cap_type = payld; cap_size = 2 }

abbrev objects : Ref → Option MemBuff
objects r =
    if r == 4
    then buffer_of 16 header (encode header ++ ((b'a' ∷ b'b' ∷ []) ++ [])) 14
    else if r == 5
    then buffer_of 15 header (encode header ++ ((b'c' ∷ []) ++ b'x' ∷ [])) 14
    else none

abbrev holding : World
holding = record told {
  mem = objects;
  fresh = 6;
  window = (7, 5) ∷ (9, 4) ∷ [];
  rx_factory = record told.rx_factory { source_data = some output; buffer = 4 ∷ 5 ∷ [] };
}

done_state-stored_example :
    IsWindowStored holding
      (done_state StateCode.done rx 0 holding)
      (appended output (b'c' ∷ b'a' ∷ b'b' ∷ []))
      (eth_address ∷ [])
unfolding encode has_bits
done_state-stored_example =
    done_state-stored 0 holding output ((b'c' ∷ []) ∷ (b'a' ∷ b'b' ∷ []) ∷ []) (eth_address ∷ []) 1
      refl (record { for_output = refl; good = refl; takes = omega arith })
      (
        record {
          header = header;
          pre = encode header;
          post = b'x' ∷ [];
          holds = refl;
          typed = refl;
        },
        (
          record { header = header; pre = encode header; post = []; holds = refl; typed = refl },
          tt,
        ),
      )
      (omega arith, omega arith, (omega arith, omega arith, tt)) (omega arith)
      (record { told = refl; some_left = omega arith; within = omega arith; no_wrap = omega arith })
      refl
