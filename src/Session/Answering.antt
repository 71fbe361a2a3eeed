-- ===== src/Session/Answering.antt =====
-- The state that tells the addresses of the receiver: `connectedState`.
use udm.Base.{
  ℕ, suc, ◌+◌, ◌%◌, ◌^◌, ◌≡◌, refl, ap, none, false, List, [], ◌∷◌, ◌++◌, length, length-replicate,
  ◌==◌, if◌then◌else◌, replicate,
}
use udm.Wire.{CapsuleHdr, StateCode, rx, encode, header_space, sizeof_capsule, ctrl}
use udm.World.{World, ok, Ref, Address}
use udm.World.Memory.{put, slice}
use udm.World.Laws.{buffer_of, put_self, put-put, load_cap-some}
use udm.Factory.{add32}
use udm.Gateway.{chunk_write}
use udm.Gateway.Send.{IsRouted, destination, copy_header_lem, select_addr_from_list_lem}
use udm.Session.Peers.Told.{bytes_of}
use udm.Session.Processor.{win_siz}
use udm.Session.States.{connected_state, params_for, send_state, current}
use udm.Session.Finish.{with_capsule, new_buffer_lem}
use udm.Session.Hello.{drop_front-one}
use udm.Session.Telling.{IsTelling, told_block, behind, connected_header, set_cap_params-connected}
use udm.Session.Greeting.{out_of-block, told_size-bytes_of}

-- `chunkWrite` of a capsule with a payload, once the peer has told its addresses.
chunk_write-payload :
    (r : Ref) (w : World) (n : ℕ) (h : CapsuleHdr) (pre payload post : List ℕ)
    (addresses : List Address)
    → w.mem r ≡ buffer_of n h (pre ++ (payload ++ post)) 0
    → length pre ≡ header_space
    → h.cap_size ≡ length payload
    → IsRouted w addresses
    → w.env.send_fails w.sends ≡ false
    → chunk_write r w
      ≡ ok tt (record w {
        mem = put w.mem r (buffer_of n h (encode h ++ (payload ++ post)) 0);
        addr_index = w.addr_index + 1;
        sends = suc w.sends;
        outgoing =
            w.outgoing ++ record { to = destination w addresses; bytes = encode h ++ payload } ∷ [];
      })
unfolding chunk_write
chunk_write-payload r w n h pre payload post addresses e l size v sent =
    let w1 = record w { mem = put w.mem r (buffer_of n h (encode h ++ (payload ++ post)) 0) } in
    let routed : IsRouted w1 addresses = record {
      told = v.told;
      some_left = v.some_left;
      within = v.within;
      no_wrap = v.no_wrap;
    } in
    let loaded =
      load_cap-some r (record w1 { addr_index = w.addr_index + 1 }) n _ (put_self w.mem r _) in
    rw (copy_header_lem r w n h pre (payload ++ post) e l, chunk_write)
      (rw (select_addr_from_list_lem w1 addresses routed, chunk_write)
        (rw (loaded, chunk_write) (rw (out_of-block h payload post size, slice) (rw sent))))

-- The world with a new identifier in the current connection.
abbrev pub identified : World → World
identified w =
    let id = (w.prev_connid + 1) % 2 ^ 16 in
    record w {
      prev_connid = id;
      session = record w.session {
        connections = λ k.
            if k == w.session.connection_count
            then record (current w) { id = id }
            else w.session.connections k;
      };
    }

-- The header of the third message.
abbrev pub ack_header : World → CapsuleHdr
ack_header w = connected_header w (params_for ctrl (identified w))

-- The world in which the receiver has told its addresses, to one of `addresses`.
abbrev pub ack_said : World → List Address → World
ack_said w addresses =
    let w' = identified w in
    record w' {
      mem = put w.mem w.fresh none;
      fresh = suc w.fresh;
      tx_factory = record w.tx_factory { buffer = [] };
      hdrid = add32 w.hdrid 1;
      session = record w'.session {
        win_size = win_siz;
        capsule_id = add32 w.session.capsule_id 1;
        next = StateCode.closed;
      };
      addr_index = w.addr_index + 1;
      sends = suc w.sends;
      outgoing =
          w.outgoing
          ++ record {
            to = destination w addresses;
            bytes = encode (ack_header w) ++ bytes_of w.gateway.address_list;
          }
            ∷ [];
    }

-- When the sending queue is empty, the interfaces fit a chunk, the peer has told its addresses and the
-- network takes a capsule, `connectedState` of the receiver returns with `ack_said`.
pub connected_state-rx :
    (current_buffer : Ref) (w : World) (addresses : List Address)
    → w.tx_factory.buffer ≡ []
    → IsTelling w
    → IsRouted w addresses
    → w.env.send_fails w.sends ≡ false
    → connected_state StateCode.connected rx current_buffer w ≡ ok tt (ack_said w addresses)
unfolding connected_state send_state
connected_state-rx current_buffer w addresses idle v routes sent =
    let w0 = identified w in
    let h = ack_header w in
    let payload = bytes_of w.gateway.address_list in
    let w1 = with_capsule w0 in
    let telling : IsTelling w1 = record {
      whole = v.whole;
      counted = v.counted;
      succeeds = v.succeeds;
      fits = v.fits;
      small = v.small;
    } in
    let filled =
      set_cap_params-connected w.fresh (params_for ctrl w0) w1 sizeof_capsule (w.hdrid % 2 ^ 16)
        (put_self w.mem w.fresh _) telling in
    let w2 : World = record w1 {
      mem = put w1.mem w.fresh (buffer_of sizeof_capsule h (told_block w) 0);
      session = record w0.session { win_size = win_siz; capsule_id = add32 w.session.capsule_id 1 };
    } in
    let out =
      chunk_write-payload w.fresh w2 sizeof_capsule h (replicate header_space w.env.junk) payload
        (behind w) addresses (put_self w1.mem w.fresh _) (length-replicate header_space w.env.junk)
        (told_size-bytes_of w.gateway.address_list v.whole)
        (record {
          told = routes.told;
          some_left = routes.some_left;
          within = routes.within;
          no_wrap = routes.no_wrap;
        })
        sent in
    let w3 : World = record w2 {
      mem = put w2.mem w.fresh (buffer_of sizeof_capsule h (encode h ++ (payload ++ behind w)) 0);
      addr_index = w.addr_index + 1;
      sends = suc w.sends;
      outgoing =
          w.outgoing ++ record { to = destination w addresses; bytes = encode h ++ payload } ∷ [];
    } in
    let queue : w.tx_factory.buffer ++ w.fresh ∷ [] ≡ w.fresh ∷ [] =
      ap (λ b. b ++ w.fresh ∷ []) idle in
    rw (new_buffer_lem w0, connected_state)
      (rw (filled, connected_state)
        (rw (out, connected_state)
          (rw (drop_front-one w.fresh w3 queue, connected_state)
            (rw (put-put, put-put, put-put) refl))))
