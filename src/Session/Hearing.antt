-- ===== src/Session/Hearing.antt =====
-- The states that take what the other end tells: `setupState` of the receiver, `openState` and
-- `connectedState` of the sender.
use udm.Base.{
  ℕ, suc, ◌+◌, ◌*◌, ◌/◌, ◌≤◌, ◌%◌, ◌^◌, ◌≡◌, refl, none, some, true, false, List, [], ◌∷◌, ◌++◌,
  arith, length, Bool, ◌==◌, if◌then◌else◌, has_bits, bit_and, bit_and-zero, replicate, ◌-◌,
}
use udm.Wire.{
  CapsuleHdr, IsHdr, StateCode, tx, rx, encode, header_space, payld, ctrl, zero_hdr, sizeof_capsule,
}
use udm.Wire.RoundTrip.{length-encode}
use udm.World.{World, Capsule, ok, Ref, Address, Arrival, datagram, SockAddr}
use udm.World.Memory.{put}
use udm.World.Laws.{buffer_of, put_self, put-put}
use udm.Factory.{add32, make_chunk_for_rx}
use udm.Gateway.Receive.{pulled, receive_lem}
use udm.Presentation.{new_buffer}
use udm.Session.Hello.{connected_once}
use udm.Session.Peers.{addr_len, Strip, strip_localhost, take_peers}
use udm.Session.Peers.Localhost.{strip_state}
use udm.Session.Peers.Told.{AllWhole, bytes_of, read_addresses_lem}
use udm.Session.Processor.{process}
use udm.Session.States.{
  setup_state, connected_state, open_state, take_received, receive_state, current,
}
use udm.Session.Ack.{receive_pulled-ctrl}

-- What is kept of the addresses that came in.
abbrev pub stripped : World → List Address → Strip
stripped w addresses =
    strip_localhost w.env.past_end (length addresses) 0
      (strip_state addresses (length addresses) false)

abbrev pub with_peers : World → List Address → World
with_peers w addresses = record w {
  gateway = record w.gateway {
    peer_address_list = some (stripped w addresses).addresses;
    peer_address_count = (stripped w addresses).address_count;
  };
}

pub take_peers_lem :
    (w : World) (c : Capsule) (addresses : List Address) (pre post : List ℕ)
    → AllWhole addresses
    → c.header.cap_size ≡ addr_len * length addresses
    → length pre ≡ c.off
    → c.block ≡ pre ++ (bytes_of addresses ++ post)
    → take_peers c w ≡ ok tt (with_peers w addresses)
unfolding take_peers
take_peers_lem w c addresses pre post v size l e =
    let count : c.header.cap_size / addr_len ≡ length addresses = omega (arith, size) in
    let got = read_addresses_lem addresses 0 w c pre post v (omega arith) e in
    rw (count, take_peers) (rw (got, take_peers) refl)

-- The world in which the receiver has the sender's addresses.
abbrev pub hi_heard : World → CapsuleHdr → List Address → SockAddr → List Arrival → World
hi_heard w h addresses from rest =
    let p = with_peers (pulled w h (bytes_of addresses) from rest) addresses in
    record p {
      mem = put w.mem w.fresh none;
      rx_factory = record w.rx_factory { buffer = [] };
      session = record w.session {
        connections = λ k.
            if k == w.session.connection_count
            then record (current w) { dst = h.srcid }
            else w.session.connections k;
        next = StateCode.connected;
      };
    }

-- When nothing received waits to be read and the next datagram is a control capsule of a size that the
-- addresses behind it have, and fits a chunk, `setupState` of the receiver returns with `hi_heard`.
pub setup_state-rx :
    (current_buffer : Ref) (w : World) (h : CapsuleHdr) (addresses : List Address) (from : SockAddr)
    (named : Bool) (rest : List Arrival)
    → w.incoming ≡ datagram (encode h ++ bytes_of addresses) from named ∷ rest
    → IsHdr h
    → header_space + length (bytes_of addresses) ≤ w.rx_factory.chunk_size
    → has_bits h.cap_type payld ≡ false
    → w.rx_factory.buffer ≡ []
    → AllWhole addresses
    → h.cap_size ≡ addr_len * length addresses
    → setup_state StateCode.setup rx current_buffer w ≡ ok tt (hi_heard w h addresses from rest)
unfolding setup_state take_received receive_state process
setup_state-rx current_buffer w h addresses from named rest came v fits kind empty whole size =
    let payload = bytes_of addresses in
    let no_ctrl : (bit_and h.cap_type ctrl == 0) ≡ true = rw (bit_and-zero h.cap_type) refl in
    let w1 = pulled w h payload from rest in
    let w2 = record w1 { rx_factory = record w.rx_factory { buffer = [] } } in
    let c : Capsule = record {
      header = h;
      block =
          encode h
          ++ (payload
              ++ replicate (w.rx_factory.chunk_size - (header_space + length payload)) w.env.junk);
      off = header_space;
    } in
    let peers = take_peers_lem w2 c addresses (encode h) _ whole size (length-encode h) refl in
    rw (receive_pulled-ctrl w h payload from named rest came v fits kind, setup_state)
      (rw (empty, setup_state)
        (rw (put_self w.mem w.fresh _, setup_state)
          (rw (no_ctrl, setup_state)
            (rw (peers, setup_state)
              (rw (put_self w.mem w.fresh _, setup_state) (rw put-put refl))))))

-- The world in which the sender has the receiver's addresses, the size of the windows and the identifier
-- of the connection.
abbrev pub ack_heard : World → CapsuleHdr → List Address → SockAddr → List Arrival → World
ack_heard w h addresses from rest =
    let p = with_peers (pulled w h (bytes_of addresses) from rest) addresses in
    record p {
      mem = put w.mem w.fresh none;
      rx_factory = record w.rx_factory { buffer = [] };
      session = record w.session {
        connections = λ k.
            if k == w.session.connection_count
            then record (current w) { id = h.connid }
            else w.session.connections k;
        win_size = h.cap_win_siz;
        next = StateCode.closed;
      };
    }

-- In the same case `connectedState` of the sender returns with `ack_heard`.
pub connected_state-tx :
    (current_buffer : Ref) (w : World) (h : CapsuleHdr) (addresses : List Address) (from : SockAddr)
    (named : Bool) (rest : List Arrival)
    → w.incoming ≡ datagram (encode h ++ bytes_of addresses) from named ∷ rest
    → IsHdr h
    → header_space + length (bytes_of addresses) ≤ w.rx_factory.chunk_size
    → has_bits h.cap_type payld ≡ false
    → w.rx_factory.buffer ≡ []
    → AllWhole addresses
    → h.cap_size ≡ addr_len * length addresses
    → connected_state StateCode.connected tx current_buffer w
      ≡ ok tt (ack_heard w h addresses from rest)
unfolding connected_state take_received receive_state process
connected_state-tx current_buffer w h addresses from named rest came v fits kind empty whole size =
    let payload = bytes_of addresses in
    let no_ctrl : (bit_and h.cap_type ctrl == 0) ≡ true = rw (bit_and-zero h.cap_type) refl in
    let w1 = pulled w h payload from rest in
    let w2 = record w1 {
      rx_factory = record w.rx_factory { buffer = [] };
      session = record w.session { win_size = h.cap_win_siz };
    } in
    let c : Capsule = record {
      header = h;
      block =
          encode h
          ++ (payload
              ++ replicate (w.rx_factory.chunk_size - (header_space + length payload)) w.env.junk);
      off = header_space;
    } in
    let peers = take_peers_lem w2 c addresses (encode h) _ whole size (length-encode h) refl in
    rw (receive_pulled-ctrl w h payload from named rest came v fits kind, connected_state)
      (rw (empty, connected_state)
        (rw (put_self w.mem w.fresh _, connected_state)
          (rw (no_ctrl, connected_state)
            (rw (peers, connected_state)
              (rw (put_self w.mem w.fresh _, connected_state) (rw put-put refl))))))

-- The world with a new buffer for a capsule to receive.
abbrev with_received : World → World
with_received w = record w {
  mem = put w.mem w.fresh (
      buffer_of sizeof_capsule (record zero_hdr { capid = w.hdrid % 2 ^ 16 })
        (replicate w.rx_factory.chunk_size w.env.junk) 0);
  fresh = suc w.fresh;
  rx_factory = record w.rx_factory { buffer = w.rx_factory.buffer ++ w.fresh ∷ [] };
  hdrid = add32 w.hdrid 1;
}

new_received_lem : (w : World) → new_buffer rx w ≡ ok w.fresh (with_received w)
unfolding new_buffer make_chunk_for_rx
new_received_lem w =
    rw (put_self w.mem w.fresh _, new_buffer)
      (rw (put_self w.mem w.fresh _, new_buffer) (rw put-put refl))

-- The world in which the sender has heard the first message.
abbrev pub hello_heard : World → CapsuleHdr → SockAddr → List Arrival → World
hello_heard w h from rest =
    let c = connected_once w in
    record c {
      mem = put w.mem w.fresh none;
      fresh = suc w.fresh;
      rx_factory = record w.rx_factory { buffer = [] };
      hdrid = add32 w.hdrid 1;
      gateway = record w.gateway { peer_addr = from };
      incoming = rest;
      session = record c.session {
        connections = λ k.
            if k == c.session.connection_count
            then record (current c) { dst = h.srcid }
            else c.session.connections k;
        next = StateCode.setup;
      };
    }

-- When nothing received waits to be read, a chunk has room for a header and the next datagram is a header
-- from a sender with a name, `openState` of the sender returns with `hello_heard`.
pub open_state-tx :
    (current_buffer : Ref) (w : World) (h : CapsuleHdr) (from : SockAddr) (rest : List Arrival)
    → w.incoming ≡ datagram (encode h) from true ∷ rest
    → IsHdr h
    → header_space ≤ w.rx_factory.chunk_size
    → w.rx_factory.buffer ≡ []
    → open_state StateCode.open_state tx current_buffer w ≡ ok tt (hello_heard w h from rest)
unfolding open_state take_received receive_state process
open_state-tx current_buffer w h from rest came v room empty =
    let no_ctrl : (bit_and h.cap_type ctrl == 0) ≡ true = rw (bit_and-zero h.cap_type) refl in
    let w0 = connected_once w in
    let w1 = with_received w0 in
    let got =
      receive_lem w.fresh w1 sizeof_capsule w.rx_factory.chunk_size w.env.junk _ h from rest came v
        (omega arith) room (put_self w.mem w.fresh _) in
    rw (new_received_lem w0, open_state)
      (rw (got, open_state)
        (rw (empty, open_state)
          (rw (put_self _ w.fresh _, open_state)
            (rw (no_ctrl, open_state)
              (rw (put_self _ w.fresh _, open_state) (rw (put-put, put-put) refl))))))
