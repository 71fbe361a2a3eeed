-- ===== src/Gateway/Receive.antt =====
-- What `pull` makes of a datagram.
use udm.Base.{
  ℕ, suc, ◌+◌, ◌-◌, ◌≤◌, ◌%◌, ◌^◌, ◌≡◌, refl, sym, append-nil, append_assoc, some, Bool, true, List,
  [], ◌∷◌, ◌++◌, arith, length, take, replicate, replicate-append, length-append, length-replicate,
  take-all,
}
use udm.Wire.{CapsuleHdr, IsHdr, zero_hdr, encode, decode, header_space}
use udm.Wire.RoundTrip.{length-encode, decode-encode}
use udm.World.{World, ok, Ref, Arrival, datagram, SockAddr}
use udm.World.Memory.{put, slice, overwrite}
use udm.World.Laws.{buffer_of, put_self, put-put, overwrite-append, slice-append, store_cap-some}
use udm.Factory.{add32}
use udm.Gateway.{recvfrom, receive_into, strip_header, pull, receive}

recvfrom-datagram :
    (n : ℕ) (w : World) (bytes : List ℕ) (from : SockAddr) (named : Bool) (rest : List Arrival)
    → w.incoming ≡ datagram bytes from named ∷ rest
    → recvfrom n w
      ≡ ok
          (take n bytes, named)
          (record w { incoming = rest; gateway = record w.gateway { peer_addr = from } })
unfolding recvfrom
recvfrom-datagram n w bytes from named rest e = rw e

receive_into_lem :
    (r : Ref) (w : World) (bytes : List ℕ) (m n j : ℕ) (h : CapsuleHdr)
    → w.mem r ≡ buffer_of m h (replicate n j) 0
    → length bytes ≤ n
    → receive_into r bytes w
      ≡ ok tt (record w {
        mem = put w.mem r (buffer_of (length bytes) h (bytes ++ replicate (n - length bytes) j) 0);
      })
unfolding receive_into
receive_into_lem r w bytes m n j h e l =
    let split : replicate n j ≡ replicate (length bytes) j ++ replicate (n - length bytes) j =
      replicate-append (length bytes) n j l in
    let over =
      overwrite-append [] (replicate (length bytes) j) bytes (replicate (n - length bytes) j) 0 refl
        (length-replicate (length bytes) j) in
    rw (e, receive_into) (rw (split, over, overwrite) (rw e))

strip_header_lem :
    (r : Ref) (w : World) (n : ℕ) (g h : CapsuleHdr) (rest : List ℕ)
    → w.mem r ≡ buffer_of n g (encode h ++ rest) 0
    → IsHdr h
    → strip_header r w
      ≡ ok tt (record w { mem = put w.mem r (buffer_of n h (encode h ++ rest) header_space) })
unfolding strip_header
strip_header_lem r w n g h rest e v =
    let head = slice-append [] (encode h) rest 0 header_space refl (sym (length-encode h)) in
    let read : decode (encode h) ≡ some h = rw append-nil at (decode-encode h [] v) in
    rw (e, strip_header) (rw (head, slice) (rw read (store_cap-some r w n _ _ e)))

-- The world after `pull` got a datagram that holds the header `h` and a payload.
abbrev pub pulled : World → CapsuleHdr → List ℕ → SockAddr → List Arrival → World
pulled w h payload from rest = record w {
  mem = put w.mem w.fresh (
      buffer_of (header_space + length payload) h
        (encode h
          ++ (payload
              ++ replicate (w.rx_factory.chunk_size - (header_space + length payload)) w.env.junk))
        header_space);
  fresh = suc w.fresh;
  rx_factory = record w.rx_factory { buffer = w.rx_factory.buffer ++ w.fresh ∷ [] };
  gateway = record w.gateway { peer_addr = from };
  incoming = rest;
  hdrid = add32 w.hdrid 1;
}

-- The world between: the new object is in the queue, and the datagram is taken.
abbrev made : World → SockAddr → List Arrival → World
made w from rest = record w {
  mem = put w.mem w.fresh (
      buffer_of 0 (record zero_hdr { capid = w.hdrid % 2 ^ 16 })
        (replicate w.rx_factory.chunk_size w.env.junk) 0);
  fresh = suc w.fresh;
  rx_factory = record w.rx_factory { buffer = w.rx_factory.buffer ++ w.fresh ∷ [] };
  gateway = record w.gateway { peer_addr = from };
  incoming = rest;
  hdrid = add32 w.hdrid 1;
}

-- A datagram that holds a header and a payload, and fits a chunk, is received into a new object at
-- the end of the receiving queue, whose header is the one that was sent and whose body begins with the
-- payload. Nothing else changes but the peer's address and the counter of headers.
pub pull_lem :
    (w : World) (h : CapsuleHdr) (payload : List ℕ) (from : SockAddr) (named : Bool)
    (rest : List Arrival)
    → w.incoming ≡ datagram (encode h ++ payload) from named ∷ rest
    → IsHdr h
    → header_space + length payload ≤ w.rx_factory.chunk_size
    → pull w ≡ ok w.fresh (pulled w h payload from rest)
unfolding pull
pull_lem w h payload from named rest e v l =
    let size : length (encode h ++ payload) ≡ header_space + length payload =
      omega (arith, length-append (encode h) payload, length-encode h) in
    let whole = take-all w.rx_factory.chunk_size (encode h ++ payload) (omega arith) in
    let w1 = made w from rest in
    let got =
      receive_into_lem w.fresh w1 (encode h ++ payload) 0 w.rx_factory.chunk_size w.env.junk _
        (put_self w.mem w.fresh _) (omega arith) in
    let w2 = record w1 {
      mem = put w.mem w.fresh (
          buffer_of (header_space + length payload) (record zero_hdr { capid = w.hdrid % 2 ^ 16 })
            (encode h
              ++ (payload
                  ++ replicate (w.rx_factory.chunk_size - (header_space + length payload))
                      w.env.junk))
            0);
    } in
    let stripped = strip_header_lem w.fresh w2 _ _ h _ (put_self w.mem w.fresh _) v in
    rw (e, pull)
      (rw (whole, got, receive_into)
        (rw (put-put, size, append_assoc) (rw (stripped, strip_header) (rw put-put))))

-- A datagram that is a header and nothing more, from a sender with a name, is received into an object of
-- the caller that has room for it.
pub receive_lem :
    (r : Ref) (w : World) (m n j : ℕ) (g h : CapsuleHdr) (from : SockAddr) (rest : List Arrival)
    → w.incoming ≡ datagram (encode h) from true ∷ rest
    → IsHdr h
    → header_space ≤ m
    → header_space ≤ n
    → w.mem r ≡ buffer_of m g (replicate n j) 0
    → receive r w
      ≡ ok tt (record w {
        mem =
            put w.mem r
              (buffer_of header_space h (encode h ++ replicate (n - header_space) j) header_space);
        gateway = record w.gateway { peer_addr = from };
        incoming = rest;
      })
unfolding receive
receive_lem r w m n j g h from rest came v wide room e =
    let size : length (encode h) ≡ header_space = length-encode h in
    let whole : take m (encode h) ≡ encode h = take-all m (encode h) (omega (arith, size)) in
    let w1 = record w { gateway = record w.gateway { peer_addr = from }; incoming = rest } in
    let got = receive_into_lem r w1 (encode h) m n j g e (omega (arith, size)) in
    let w2 = record w1 {
      mem = put w.mem r (buffer_of header_space g (encode h ++ replicate (n - header_space) j) 0);
    } in
    let stripped = strip_header_lem r w2 header_space g h _ (put_self w.mem r _) v in
    rw (e, receive)
      (rw (recvfrom-datagram m w (encode h) from true rest came, receive)
        (rw (whole, got, receive) (rw (size, stripped, receive) (rw put-put refl))))
