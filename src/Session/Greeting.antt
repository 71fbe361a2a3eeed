-- ===== src/Session/Greeting.antt =====
-- The state that tells the addresses of the sender: `setupState`.
use udm.Base.{
  ℕ, suc, ◌+◌, ◌%◌, ◌^◌, ◌≡◌, refl, ap, none, false, List, [], ◌∷◌, ◌++◌, arith, ◌*◌, length,
  length-append, length-replicate, append_assoc, replicate, some,
}
use udm.Wire.{CapsuleHdr, StateCode, tx, encode, header_space, sizeof_capsule, ctrl}
use udm.Wire.RoundTrip.{length-encode}
use udm.World.{World, ok, Ref, Address}
use udm.World.Memory.{put, slice}
use udm.World.Laws.{buffer_of, put_self, put-put, load_cap-some, slice-append}
use udm.Factory.{add32}
use udm.Gateway.{send}
use udm.Gateway.Send.{copy_header_lem}
use udm.Session.Peers.{addr_len}
use udm.Session.Peers.Told.{AllWhole, bytes_of}
use udm.Session.States.{setup_state, params_for, send_state}
use udm.Session.Finish.{with_capsule, new_buffer_lem}
use udm.Session.Hello.{select_addr-untold, drop_front-one}
use udm.Session.Telling.{IsTelling, told_block, behind, setup_header, set_cap_params-setup}

-- What goes out of a capsule.
pub out_of-block :
    (h : CapsuleHdr) (payload post : List ℕ)
    → h.cap_size ≡ length payload
    → slice (encode h ++ (payload ++ post)) 0 (h.cap_size + header_space)
      ≡ some (encode h ++ payload)
out_of-block h payload post size =
    let amount : h.cap_size + header_space ≡ length (encode h ++ payload) =
      omega (arith, length-append (encode h) payload, length-encode h) in
    rw (append_assoc (encode h) payload post) at
      (slice-append [] (encode h ++ payload) post 0 (h.cap_size + header_space) refl amount)

-- `send` as long as the peer has not told any addresses.
send-first :
    (r : Ref) (w : World) (n : ℕ) (h : CapsuleHdr) (pre payload post : List ℕ)
    → w.mem r ≡ buffer_of n h (pre ++ (payload ++ post)) 0
    → length pre ≡ header_space
    → h.cap_size ≡ length payload
    → w.gateway.peer_address_list ≡ none
    → w.env.send_fails w.sends ≡ false
    → send r w
      ≡ ok tt (record w {
        mem = put w.mem r (buffer_of n h (encode h ++ (payload ++ post)) 0);
        sends = suc w.sends;
        outgoing =
            w.outgoing ++ record { to = w.gateway.peer_addr; bytes = encode h ++ payload } ∷ [];
      })
unfolding send
send-first r w n h pre payload post e l size untold sent =
    let w1 = record w { mem = put w.mem r (buffer_of n h (encode h ++ (payload ++ post)) 0) } in
    let loaded = load_cap-some r w1 n _ (put_self w.mem r _) in
    rw (select_addr-untold w untold, send)
      (rw (copy_header_lem r w n h pre (payload ++ post) e l, send)
        (rw (loaded, send) (rw (out_of-block h payload post size, slice) (rw sent))))

-- The addresses take as many bytes as the header says.
pub told_size-bytes_of :
    (addresses : List Address)
    → AllWhole addresses
    → addr_len * length addresses ≡ length (bytes_of addresses)
told_size-bytes_of [] v = refl
told_size-bytes_of (a ∷ rest) v =
    let l = v.0 in omega (arith, length-append a (bytes_of rest), told_size-bytes_of rest v.1)

-- The header of the second message of a session.
abbrev pub hi_header : World → CapsuleHdr
hi_header w = setup_header w (params_for ctrl w)

-- The world in which the sender has told its addresses.
abbrev pub hi_said : World → World
hi_said w = record w {
  mem = put w.mem w.fresh none;
  fresh = suc w.fresh;
  tx_factory = record w.tx_factory { buffer = [] };
  hdrid = add32 w.hdrid 1;
  session = record w.session {
    capsule_id = add32 w.session.capsule_id 1;
    next = StateCode.connected;
  };
  sends = suc w.sends;
  outgoing =
      w.outgoing
      ++ record {
        to = w.gateway.peer_addr;
        bytes = encode (hi_header w) ++ bytes_of w.gateway.address_list;
      }
        ∷ [];
}

with_capsule-IsTelling : (w : World) → IsTelling w → IsTelling (with_capsule w)
with_capsule-IsTelling w v = record {
  whole = v.whole;
  counted = v.counted;
  succeeds = v.succeeds;
  fits = v.fits;
  small = v.small;
}

-- When the sending queue is empty, the interfaces fit a chunk, the peer has told no addresses and the
-- network takes a capsule, `setupState` of the sender returns with `hi_said`.
pub setup_state-tx :
    (current_buffer : Ref) (w : World)
    → w.tx_factory.buffer ≡ []
    → IsTelling w
    → w.gateway.peer_address_list ≡ none
    → w.env.send_fails w.sends ≡ false
    → setup_state StateCode.setup tx current_buffer w ≡ ok tt (hi_said w)
unfolding setup_state send_state
setup_state-tx current_buffer w idle v untold sent =
    let h = hi_header w in
    let payload = bytes_of w.gateway.address_list in
    let w1 = with_capsule w in
    let filled =
      set_cap_params-setup w.fresh (params_for ctrl w) w1 sizeof_capsule (w.hdrid % 2 ^ 16)
        (put_self w.mem w.fresh _) (with_capsule-IsTelling w v) in
    let w2 : World = record w1 {
      mem = put w1.mem w.fresh (buffer_of sizeof_capsule h (told_block w) 0);
      session = record w.session { capsule_id = add32 w.session.capsule_id 1 };
    } in
    let out =
      send-first w.fresh w2 sizeof_capsule h (replicate header_space w.env.junk) payload (behind w)
        (put_self w1.mem w.fresh _) (length-replicate header_space w.env.junk)
        (told_size-bytes_of w.gateway.address_list v.whole) untold sent in
    let w3 : World = record w2 {
      mem = put w2.mem w.fresh (buffer_of sizeof_capsule h (encode h ++ (payload ++ behind w)) 0);
      sends = suc w.sends;
      outgoing =
          w.outgoing ++ record { to = w.gateway.peer_addr; bytes = encode h ++ payload } ∷ [];
    } in
    let queue : w.tx_factory.buffer ++ w.fresh ∷ [] ≡ w.fresh ∷ [] =
      ap (λ b. b ++ w.fresh ∷ []) idle in
    rw (new_buffer_lem w, setup_state)
      (rw (filled, setup_state)
        (rw (out, setup_state)
          (rw (drop_front-one w.fresh w3 queue, setup_state)
            (rw (put-put, put-put, put-put) refl))))
