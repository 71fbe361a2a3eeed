-- ===== src/Gateway/Send.antt =====
-- Where a capsule goes, and what goes out of it.
use udm.Base.{
  ℕ, zero, suc, ◌+◌, ◌≤◌, ◌<◌, ◌%◌, ◌^◌, ◌≡◌, refl, sym, ◌∙◌, some, false, List, [], ◌∷◌, ◌++◌,
  arith, ◌==◌, leb, length, get_elem?, length-append, append_assoc, lt→leb,
}
use udm.Wire.{CapsuleHdr, encode, header_space}
use udm.Wire.RoundTrip.{length-encode}
use udm.World.{World, ok, Ref, SockAddr, Address}
use udm.World.Memory.{put, overwrite, slice, load_cap}
use udm.World.Laws.{
  put_self, overwrite-append, slice-append, load_cap-some, store_cap-some, buffer_of,
}
use udm.Factory.{add32}
use udm.Gateway.{chunk_write, copy_header, select_addr_from_list, send, chunk_write}

-- The peer has told its addresses, and the counter of sends has not wrapped.
pub record IsRouted (w : World) (addresses : List Address) : Type 0 where
  pub told : w.gateway.peer_address_list ≡ some addresses
  pub some_left : 0 < w.gateway.peer_address_count
  pub within : w.gateway.peer_address_count ≤ length addresses
  pub no_wrap : w.addr_index + 1 < 2 ^ 31

abbrev pub address_at : List Address → ℕ → Address
address_at [] i = []
address_at (a ∷ rest) zero = a
address_at (a ∷ rest) (suc i) = address_at rest i

get_elem?-address_at :
    (addresses : List Address) (i : ℕ)
    → i < length addresses
    → get_elem? addresses i ≡ some (address_at addresses i)
get_elem?-address_at [] i h = absurd (omega arith)
get_elem?-address_at (a ∷ rest) zero h = refl
get_elem?-address_at (a ∷ rest) (suc i) h = get_elem?-address_at rest i (omega arith)

-- Where the next capsule goes.
abbrev pub destination : World → List Address → SockAddr
destination w addresses = record {
  s_addr =
      w.env.inet_addr (address_at addresses ((w.addr_index + 1) % w.gateway.peer_address_count));
  port = w.gateway.peer_addr.port;
}

-- The capsules go to the addresses of the peer in turn.
pub select_addr_from_list_lem :
    (w : World) (addresses : List Address)
    → IsRouted w addresses
    → select_addr_from_list w
      ≡ ok (destination w addresses) (record w { addr_index = w.addr_index + 1 })
unfolding select_addr_from_list
select_addr_from_list_lem w addresses v =
    let count = w.gateway.peer_address_count in
    let wrapped : add32 w.addr_index 1 ≡ w.addr_index + 1 = omega arith in
    let some_address : (count == 0) ≡ false = ground arith in
    let positive : leb (2 ^ 31) (w.addr_index + 1) ≡ false = lt→leb _ _ v.no_wrap in
    let found = get_elem?-address_at addresses ((w.addr_index + 1) % count) (ground arith) in
    rw (v.told, select_addr_from_list) (rw (wrapped, some_address, positive) (rw found))

pub copy_header_lem :
    (r : Ref) (w : World) (n : ℕ) (h : CapsuleHdr) (pre rest : List ℕ)
    → w.mem r ≡ buffer_of n h (pre ++ rest) 0
    → length pre ≡ header_space
    → copy_header r w ≡ ok tt (record w { mem = put w.mem r (buffer_of n h (encode h ++ rest) 0) })
unfolding copy_header
copy_header_lem r w n h pre rest e l =
    let over = overwrite-append [] pre (encode h) rest 0 refl (l ∙ sym (length-encode h)) in
    rw (e, copy_header) (rw (over, overwrite) (store_cap-some r w n _ _ e))

-- A capsule of which `payload` stands behind the room for the header goes out as one datagram: its
-- header, as it stands in the capsule, and the payload.
pub send_lem :
    (r : Ref) (w : World) (n : ℕ) (h : CapsuleHdr) (pre payload post : List ℕ)
    (addresses : List Address)
    → w.mem r ≡ buffer_of n h (pre ++ (payload ++ post)) 0
    → length pre ≡ header_space
    → h.cap_size ≡ length payload
    → IsRouted w addresses
    → w.env.send_fails w.sends ≡ false
    → send r w
      ≡ ok tt (record w {
        mem = put w.mem r (buffer_of n h (encode h ++ (payload ++ post)) 0);
        addr_index = w.addr_index + 1;
        sends = suc w.sends;
        outgoing =
            w.outgoing ++ record { to = destination w addresses; bytes = encode h ++ payload } ∷ [];
      })
unfolding send
send_lem r w n h pre payload post addresses e l size v sent =
    let w1 = record w { addr_index = w.addr_index + 1 } in
    let block = encode h ++ (payload ++ post) in
    let w2 = record w1 { mem = put w.mem r (buffer_of n h block 0) } in
    let header = copy_header_lem r w1 n h pre (payload ++ post) e l in
    let loaded = load_cap-some r w2 n _ (put_self w.mem r _) in
    let amount : h.cap_size + header_space ≡ length (encode h ++ payload) =
      omega (arith, length-append (encode h) payload, length-encode h) in
    let bytes =
      rw (append_assoc (encode h) payload post) at
        (slice-append [] (encode h ++ payload) post 0 (h.cap_size + header_space) refl amount) in
    rw (select_addr_from_list_lem w addresses v, send)
      (rw (header, copy_header) (rw (loaded, load_cap) (rw (bytes, slice) (rw sent))))

-- A capsule without a payload goes out as its header, if the network takes it.
pub chunk_write_lem :
    (r : Ref) (w : World) (n : ℕ) (h : CapsuleHdr) (pre post : List ℕ) (addresses : List Address)
    → w.mem r ≡ buffer_of n h (pre ++ post) 0
    → length pre ≡ header_space
    → h.cap_size ≡ 0
    → IsRouted w addresses
    → w.env.send_fails w.sends ≡ false
    → chunk_write r w
      ≡ ok tt (record w {
        mem = put w.mem r (buffer_of n h (encode h ++ post) 0);
        addr_index = w.addr_index + 1;
        sends = suc w.sends;
        outgoing = w.outgoing ++ record { to = destination w addresses; bytes = encode h } ∷ [];
      })
unfolding chunk_write
chunk_write_lem r w n h pre post addresses e l size v sent =
    let w1 = record w { mem = put w.mem r (buffer_of n h (encode h ++ post) 0) } in
    let routed : IsRouted w1 addresses = record {
      told = v.told;
      some_left = v.some_left;
      within = v.within;
      no_wrap = v.no_wrap;
    } in
    let loaded =
      load_cap-some r (record w1 { addr_index = w.addr_index + 1 }) n _ (put_self w.mem r _) in
    let bytes : slice (encode h ++ post) 0 (h.cap_size + header_space) ≡ some (encode h) =
      slice-append [] (encode h) post 0 (h.cap_size + header_space) refl
        (omega (arith, length-encode h)) in
    rw (copy_header_lem r w n h pre post e l, chunk_write)
      (rw (select_addr_from_list_lem w1 addresses routed, select_addr_from_list)
        (rw (loaded, load_cap) (rw (bytes, slice) (rw sent))))
