-- ===== src/Session/WindowTests.antt =====
-- Tests of the windows of the sender.
use udm.Base.{ℕ, ◌≡◌, refl, ◌∷◌, [], true, false, arith, drop, take}
use udm.Wire.{StateCode, tx}
use udm.World.{World, halt, exited}
use udm.Factory.Load.{at_chunk, IsReading}
use udm.Samples.{told, input, eth_address}
use udm.Session.States.{closed_state}
use udm.Session.Rounds.{IsOpen, IsOpen-le}
use udm.Session.Windows.{after_chunks, rounds_done}
use udm.Session.Closed.{IsWindowSent, closed_state-last}
use udm.Session.FullWindow.{closed_state-full, closed_state-stops}

-- A session whose window has room for `k` capsules.
abbrev window_of : ℕ → World
window_of k = record told { session = record told.session { win_size = k } }

hundred-IsReading : IsReading (input 100) 50
hundred-IsReading = record {
  for_input = refl;
  good = refl;
  whole = refl;
  small = omega arith;
  read_part = omega arith;
  count_fits = omega arith;
  chunk_gt = omega arith;
  chunk_fits = omega arith;
}

seventy_two-IsReading : IsReading (input 72) 50
seventy_two-IsReading = record {
  for_input = refl;
  good = refl;
  whole = refl;
  small = omega arith;
  read_part = omega arith;
  count_fits = omega arith;
  chunk_gt = omega arith;
  chunk_fits = omega arith;
}

window_of-IsOpen : (k : ℕ) → IsOpen (window_of k) (eth_address ∷ []) 3
window_of-IsOpen k = record {
  told = refl;
  some_left = omega arith;
  within = omega arith;
  no_wrap = omega arith;
  sent = λ i. refl;
}

-- Two full chunks and one of 28 bytes.
closed_state-last_example :
    IsWindowSent
      (window_of 10)
      (closed_state StateCode.closed tx 0 (at_chunk (window_of 10) (input 100) 50))
      (drop 0 (input 100).content)
      3
      true
closed_state-last_example =
    closed_state-last 0 (window_of 10) (input 100) 50 (eth_address ∷ []) 2 28 7 hundred-IsReading
      refl (omega arith) (omega arith) (window_of-IsOpen 10) refl refl

closed_state-full_example :
    IsWindowSent
      (window_of 2)
      (closed_state StateCode.closed tx 0 (at_chunk (window_of 2) (input 100) 50))
      (take 72 (drop 0 (input 100).content))
      2
      false
closed_state-full_example =
    closed_state-full 0 (window_of 2) (input 100) 50 (eth_address ∷ []) hundred-IsReading
      (omega arith)
      (IsOpen-le (window_of 2) (eth_address ∷ []) 2 3 (omega arith) (window_of-IsOpen 2)) refl

closed_state-stops_example :
    closed_state StateCode.closed tx 0 (at_chunk (window_of 10) (input 72) 50)
    ≡ halt
        (exited 1)
        (record (at_chunk
          (rounds_done 2 (window_of 10) (input 72) 50 (eth_address ∷ []))
          (after_chunks 2 (input 72) 50)
          50) {
            tx_factory =
                record (at_chunk
                  (rounds_done 2 (window_of 10) (input 72) 50 (eth_address ∷ []))
                  (after_chunks 2 (input 72) 50)
                  50).tx_factory { fin = true };
          })
closed_state-stops_example =
    closed_state-stops 0 (window_of 10) (input 72) 50 (eth_address ∷ []) 2 7 seventy_two-IsReading
      refl (IsOpen-le (window_of 10) (eth_address ∷ []) 2 3 (omega arith) (window_of-IsOpen 10))
      refl
