-- ===== src/Gateway.antt =====
-- gateway.h: `GatewayProcessor`, `Gateway` and the loop of `PhyInterfaces::_noOfInterfaces`. Capsules
-- go out as one datagram each, their header in front, to the address that `selectAddrFromList` picks.
-- The system calls answer from the `Env` and the `incoming` list of the world.
pub mod Receive
pub mod Send
pub mod Count
pub mod Interfaces
mod Tests
use udm.Base.{
  ℕ, zero, suc, ◌+◌, ◌-◌, ◌*◌, ◌/◌, ◌%◌, ◌^◌, ◌≡◌, refl, Option, none, some, Bool, true, false,
  List, [], ◌∷◌, ◌++◌, ◌==◌, leb, ltb, if◌then◌else◌, length, take, drop, min, get_elem?,
}
use udm.Wire.{CapsuleHdr, header_space, StateDirection, tx, rx, encode, decode}
use udm.World.{
  World, M, Run, ok, halt, MemBuff, Capsule, Ref, DataFactory, Gateway, SockAddr, Address, Arrival,
  datagram, failed, Packet, Env, Halt, exited, blocked, fault, out_of_fuel, stop, pure, the, gets,
  modify, skip, ◌>>=◌, ◌>>◌,
}
use udm.World.Memory.{load, store, load_cap, store_cap, copy_in, copy_out}
use udm.Factory.{make_chunk_for_rx, add32}

-- `sizeof(struct ifreq)`
abbrev pub sizeof_ifreq : ℕ
sizeof_ifreq = 40

-- `_noOfInterfaces`: the room for answers doubles until the answer leaves some of it unused; `ioctl` fills
-- no more than the room. The result is the number of entries in the last answer and the entries; when
-- `ioctl` fails, it is the number that there is room for, and none, since part of the buffer is fresh
-- memory then. Room whose bytes an `int` does not count is a fault.
unfoldable pub no_of_interfaces : ℕ → ℕ → M (ℕ × Option (List (List ℕ)))
no_of_interfaces zero numreqs w = halt out_of_fuel w
no_of_interfaces (suc fuel) numreqs w =
    let again = no_of_interfaces fuel (numreqs * 2) w in
    let listed = min (length w.env.interfaces) numreqs in
    if leb (2 ^ 31) (sizeof_ifreq * numreqs)
    then halt fault w
    else if w.env.ioctl_fails numreqs
    then ok (numreqs, none) w
    else if listed == numreqs
    then again
    else ok (listed, some (take listed w.env.interfaces)) w

-- `memcpy(chunk->body, &chunk->header, HEADER_SPACE)`.
unfoldable pub copy_header : Ref → M (Unit {0})
unfolding load_cap copy_in store_cap
copy_header r = do c ← load_cap r; c' ← copy_in 0 (encode c.header) c; store_cap r c'

-- `stripHeader`: the header is read from the body, which then begins behind it.
unfoldable pub strip_header : Ref → M (Unit {0})
unfolding load_cap copy_out store_cap
strip_header r = do
  c ← load_cap r
  bs ← copy_out 0 header_space c
  h ← the (decode bs)
  store_cap r (record { header = h; block = c.block; off = c.off + header_space })

-- `selectAddrFromList`: the addresses of the peer in turn. A count of zero divides by zero, and an
-- `int` that has wrapped gives a negative index.
unfoldable pub select_addr_from_list : M SockAddr
select_addr_from_list = do
  w ← gets (λ w. w)
  let g = w.gateway
  elim g.peer_address_list [
    | none ↦ pure g.peer_addr
    | some addresses ↦ do
      let i = add32 w.addr_index 1
      modify (λ w. record w { addr_index = i })
      if g.peer_address_count == 0 then stop fault else if leb (2 ^ 31) i then stop fault else do
        a ← the (get_elem? addresses (i % g.peer_address_count))
        pure (record { s_addr = w.env.inet_addr a; port = g.peer_addr.port })
  ]

-- `sendto`: whether the datagram went out.
unfoldable pub sendto : SockAddr → List ℕ → M Bool
sendto to bytes w =
    let n = w.sends in
    if w.env.send_fails n
    then pure false (record w { sends = suc n })
    else pure true (record w {
      sends = suc n;
      outgoing = w.outgoing ++ record { to = to; bytes = bytes } ∷ [];
    })

-- The bytes that are handed to `sendto`: the header and `capSize` bytes more.
abbrev amount : Capsule → ℕ
amount c = c.header.cap_size + header_space

-- `chunkWrite`: a failed send is only reported.
unfoldable pub chunk_write : Ref → M (Unit {0})
unfolding copy_header select_addr_from_list sendto copy_out
chunk_write r = do
  copy_header r
  s ← select_addr_from_list
  c ← load_cap r
  bytes ← copy_out 0 (amount c) c
  _ ← sendto s bytes
  skip

-- `send`: a failed send ends the program.
unfoldable pub send : Ref → M (Unit {0})
unfolding copy_header select_addr_from_list sendto copy_out
send r = do
  s ← select_addr_from_list
  copy_header r
  c ← load_cap r
  bytes ← copy_out 0 (amount c) c
  sent ← sendto s bytes
  if sent then skip else stop (exited 1)

-- `recvfrom` into a body of which `n` bytes may be written: the datagram, cut to that length, and
-- whether its sender has a name. The sender becomes the peer.
unfoldable pub recvfrom : ℕ → M (List ℕ × Bool)
recvfrom n w = elim w.incoming [
  | [] ↦ stop blocked w
  | failed ∷ rest ↦ stop (exited 1) (record w { incoming = rest })
  | datagram bytes from named ∷ rest ↦
      pure (take n bytes, named)
        (record w { incoming = rest; gateway = record w.gateway { peer_addr = from } })
]

-- The received bytes go to the front of the body, and their number is the size.
unfoldable pub receive_into : Ref → List ℕ → M (Unit {0})
unfolding load copy_in store
receive_into r bytes = do
  b ← load r
  c ← the b.cap
  c' ← copy_in 0 bytes c
  store r (record { size = length bytes; cap = some c' })

-- `pull`: a new object in the receiving factory, filled by the next datagram.
unfoldable pub pull : M Ref
unfolding make_chunk_for_rx recvfrom receive_into strip_header
pull = do
  r ← make_chunk_for_rx rx
  w ← gets (λ w. w)
  (bytes, named) ← recvfrom w.rx_factory.chunk_size
  receive_into r bytes
  strip_header r
  pure r

-- `receive`: the next datagram into an object of the caller, as long as its size says. A sender with
-- no name ends the program.
unfoldable pub receive : Ref → M (Unit {0})
unfolding recvfrom receive_into strip_header
receive r = do
  b ← load r
  (bytes, named) ← recvfrom b.size
  receive_into r bytes
  if named then strip_header r else stop (exited 1)
