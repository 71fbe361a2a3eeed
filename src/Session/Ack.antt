-- ===== src/Session/Ack.antt =====
-- `doneState` of a sender: the acknowledgement of a window comes in.
use udm.Base.{
  ℕ, suc, ◌+◌, ◌≤◌, ◌≡◌, refl, none, true, false, Bool, List, [], ◌∷◌, ◌++◌, ◌==◌, length, has_bits,
  bit_and, bit_and-zero, if◌then◌else◌,
}
use udm.Wire.{CapsuleHdr, IsHdr, StateCode, tx, encode, header_space, payld, ctrl}
use udm.World.{World, ok, skip, ◌>>◌, Ref, Arrival, datagram, SockAddr}
use udm.World.Memory.{put}
use udm.World.Laws.{put_self, put-put}
use udm.Factory.{add32}
use udm.Gateway.Receive.{pulled, pull_lem}
use udm.Session.Processor.{win_siz, process}
use udm.Session.States.{
  receive_state, receive_pulled, take_received, after_window, set_complete, done_state,
}

-- The world after the acknowledgement of a window, the last if `fin`.
abbrev pub acked : World → Bool → SockAddr → List Arrival → World
acked w fin from rest = record w {
  mem = put w.mem w.fresh none;
  fresh = suc w.fresh;
  rx_factory = record w.rx_factory { buffer = [] };
  session = record w.session {
    next = if fin then StateCode.connected else StateCode.closed;
    win_size = if fin then w.session.win_size else win_siz;
    done = true;
    complete = true;
  };
  gateway = record w.gateway { peer_addr = from };
  incoming = rest;
  hdrid = add32 w.hdrid 1;
}

pub receive_pulled-ctrl :
    (w : World) (h : CapsuleHdr) (payload : List ℕ) (from : SockAddr) (named : Bool)
    (rest : List Arrival)
    → w.incoming ≡ datagram (encode h ++ payload) from named ∷ rest
    → IsHdr h
    → header_space + length payload ≤ w.rx_factory.chunk_size
    → has_bits h.cap_type payld ≡ false
    → receive_pulled w ≡ ok tt (pulled w h payload from rest)
unfolding receive_pulled
receive_pulled-ctrl w h payload from named rest e v l kind =
    rw (pull_lem w h payload from named rest e v l, receive_pulled)
      (rw (put_self w.mem w.fresh _, receive_pulled) (rw kind refl))

-- The capsule that just came in leaves the queue, and `process` does nothing with it.
take_received-done :
    (w : World) (h : CapsuleHdr) (payload : List ℕ) (from : SockAddr) (rest : List Arrival)
    → w.rx_factory.buffer ≡ []
    → take_received StateCode.done (λ c. skip) (pulled w h payload from rest)
      ≡ ok tt (record (pulled w h payload from rest) {
        mem = put w.mem w.fresh none;
        rx_factory = record w.rx_factory { buffer = [] };
      })
unfolding take_received process
take_received-done w h payload from rest e =
    let no_ctrl : (bit_and h.cap_type ctrl == 0) ≡ true = rw (bit_and-zero h.cap_type) refl in
    rw (e, take_received)
      (rw (put_self w.mem w.fresh _, take_received)
        (rw (no_ctrl, take_received)
          (rw (put_self w.mem w.fresh _, take_received) (rw put-put refl))))

pub after_window_lem :
    (w : World) (fin : Bool)
    → (do after_window fin; set_complete) w
      ≡ ok tt (record w {
        session = record w.session {
          next = if fin then StateCode.connected else StateCode.closed;
          win_size = if fin then w.session.win_size else win_siz;
          done = true;
          complete = true;
        };
      })
after_window_lem w true = refl
after_window_lem w false = refl

-- A control capsule that comes in ends the state. What it says is not looked at.
pub done_state-acked :
    (current_buffer : Ref) (w : World) (h : CapsuleHdr) (payload : List ℕ) (from : SockAddr)
    (named : Bool) (rest : List Arrival)
    → w.incoming ≡ datagram (encode h ++ payload) from named ∷ rest
    → IsHdr h
    → header_space + length payload ≤ w.rx_factory.chunk_size
    → has_bits h.cap_type payld ≡ false
    → w.rx_factory.buffer ≡ []
    → done_state StateCode.done tx current_buffer w ≡ ok tt (acked w w.tx_factory.fin from rest)
unfolding done_state receive_state
done_state-acked current_buffer w h payload from named rest e v l kind empty =
    rw (receive_pulled-ctrl w h payload from named rest e v l kind, done_state)
      (rw (take_received-done w h payload from rest empty, done_state)
        (after_window_lem _ w.tx_factory.fin))
