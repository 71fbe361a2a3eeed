-- ===== src/Session/Hello.antt =====
-- The first message of a session: `openState` of the receiving end.
use udm.Base.{
  ℕ, suc, ◌+◌, ◌-◌, ◌≤◌, ◌<◌, ◌≡◌, refl, sym, ap, ◌∙◌, some, none, true, false, List, [], ◌∷◌, ◌++◌,
  ◌%◌, ◌^◌, arith, replicate, replicate-append, length-replicate, if◌then◌else◌, ◌==◌, length,
}
use udm.Wire.{CapsuleHdr, zero_hdr, StateCode, tx, rx, encode, header_space, sizeof_capsule, payld}
use udm.Wire.RoundTrip.{length-encode}
use udm.World.{World, Run, ok, Ref}
use udm.World.Memory.{put, slice}
use udm.World.Laws.{buffer_of, put_self, put-put, load_cap-some, slice-append}
use udm.Factory.{add32}
use udm.Gateway.{chunk_write, select_addr_from_list}
use udm.Gateway.Send.{copy_header_lem}
use udm.Session.Processor.{Params, with_params, set_cap_params}
use udm.Session.States.{open_state, params_for, send_state, drop_front}
use udm.Session.Finish.{with_capsule, new_buffer_lem}

-- Until the peer has told its addresses, capsules go to the one that the context has.
pub select_addr-untold :
    (w : World)
    → w.gateway.peer_address_list ≡ none
    → select_addr_from_list w ≡ ok w.gateway.peer_addr w
unfolding select_addr_from_list
select_addr-untold w untold =
    ap
      (λ l.
        select_addr_from_list (record w { gateway = record w.gateway { peer_address_list = l } }))
      untold
    ∙ ap
        (λ l.
          ok w.gateway.peer_addr
            (record w { gateway = record w.gateway { peer_address_list = l } }))
        (sym untold)

-- A capsule without a payload goes out as its header to the address that the context has, as long as the
-- peer has not told any.
chunk_write-first :
    (r : Ref) (w : World) (n : ℕ) (h : CapsuleHdr) (pre post : List ℕ)
    → w.mem r ≡ buffer_of n h (pre ++ post) 0
    → length pre ≡ header_space
    → h.cap_size ≡ 0
    → w.gateway.peer_address_list ≡ none
    → w.env.send_fails w.sends ≡ false
    → chunk_write r w
      ≡ ok tt (record w {
        mem = put w.mem r (buffer_of n h (encode h ++ post) 0);
        sends = suc w.sends;
        outgoing = w.outgoing ++ record { to = w.gateway.peer_addr; bytes = encode h } ∷ [];
      })
unfolding chunk_write
chunk_write-first r w n h pre post e l size untold sent =
    let w1 = record w { mem = put w.mem r (buffer_of n h (encode h ++ post) 0) } in
    let loaded = load_cap-some r w1 n _ (put_self w.mem r _) in
    let bytes : slice (encode h ++ post) 0 (h.cap_size + header_space) ≡ some (encode h) =
      slice-append [] (encode h) post 0 (h.cap_size + header_space) refl
        (omega (arith, length-encode h)) in
    rw (copy_header_lem r w n h pre post e l, chunk_write)
      (rw (select_addr-untold w1 untold, chunk_write)
        (rw (loaded, chunk_write) (rw (bytes, slice) (rw sent))))

pub drop_front-one :
    (r : Ref) (w : World)
    → w.tx_factory.buffer ≡ r ∷ []
    → drop_front tx w
      ≡ ok tt
          (record w { mem = put w.mem r none; tx_factory = record w.tx_factory { buffer = [] } })
unfolding drop_front
drop_front-one r w one =
    ap (λ b. drop_front tx (record w { tx_factory = record w.tx_factory { buffer = b } })) one

-- What `setCapParams` makes of a new capsule in the state `open`.
set_cap_params-open :
    (r : Ref) (p : Params) (w : World) (n : ℕ) (h : CapsuleHdr) (block : List ℕ)
    → w.mem r ≡ buffer_of n h block 0
    → set_cap_params r p StateCode.open_state w
      ≡ ok tt (record w {
        mem = put w.mem r (buffer_of n (with_params h p w.session.capsule_id) block 0);
        session = record w.session { capsule_id = add32 w.session.capsule_id 1 };
      })
unfolding set_cap_params
set_cap_params-open r p w n h block e = rw (e, set_cap_params) (rw e)

-- The world with a new connection, and the next free place as the current one.
abbrev pub connected_once : World → World
connected_once w =
    let id = (w.prev_srcid + 1) % 2 ^ 8 in
    record w {
      prev_srcid = id;
      session = record w.session {
        connections = λ k.
            if k == w.session.connection_count
            then record { id = 0; src = id; dst = 0; status = 0 }
            else w.session.connections k;
        connection_count = add32 w.session.connection_count 1;
      };
    }

-- The header of the first message.
abbrev pub hello_header : World → CapsuleHdr
hello_header w = with_params zero_hdr (params_for payld (connected_once w)) w.session.capsule_id

-- The world in which the first message is sent.
abbrev pub hello_said : World → World
hello_said w =
    let c = connected_once w in
    record c {
      mem = put w.mem w.fresh none;
      fresh = suc w.fresh;
      tx_factory = record w.tx_factory { buffer = [] };
      hdrid = add32 w.hdrid 1;
      session = record c.session {
        capsule_id = add32 w.session.capsule_id 1;
        next = StateCode.setup;
      };
      sends = suc w.sends;
      outgoing =
          w.outgoing ++ record { to = w.gateway.peer_addr; bytes = encode (hello_header w) } ∷ [];
    }

-- When the sending queue is empty, a new chunk has room for a header, the peer has told no addresses, and
-- the network takes a capsule, `openState` of the receiver returns with `hello_said`: a connection is
-- stored, one datagram went out to the peer's address, which is `hello_header` and nothing more, its
-- capsule is gone from the queue and the store, and the session goes on to `setup`.
pub open_state-rx :
    (current_buffer : Ref) (w : World)
    → w.tx_factory.buffer ≡ []
    → header_space ≤ w.tx_factory.chunk_size
    → w.gateway.peer_address_list ≡ none
    → w.env.send_fails w.sends ≡ false
    → open_state StateCode.open_state rx current_buffer w ≡ ok tt (hello_said w)
unfolding open_state send_state
open_state-rx current_buffer w idle room untold sent =
    let j = w.env.junk in
    let n = w.tx_factory.chunk_size in
    let post = replicate (n - header_space) j in
    let w1 = with_capsule w in
    let w2 = connected_once w1 in
    let header = hello_header w in
    let w3 : World = record w2 {
      mem =
          put w2.mem w.fresh (buffer_of sizeof_capsule header (replicate header_space j ++ post) 0);
      session = record w2.session { capsule_id = add32 w.session.capsule_id 1 };
    } in
    let filled : set_cap_params w.fresh (params_for payld w2) StateCode.open_state w2 ≡ ok tt w3 =
      set_cap_params-open w.fresh (params_for payld w2) w2 sizeof_capsule
        (record zero_hdr { capid = w.hdrid % 2 ^ 16 }) (replicate n j) (put_self w.mem w.fresh _)
      ∙ ap
          (λ b.
            ok tt (record w3 { mem = put w2.mem w.fresh (buffer_of sizeof_capsule header b 0) }))
          (replicate-append header_space n j room) in
    let written =
      chunk_write-first w.fresh w3 sizeof_capsule header (replicate header_space j) post
        (put_self w2.mem w.fresh _) (length-replicate header_space j) refl untold sent in
    let queue : w.tx_factory.buffer ++ w.fresh ∷ [] ≡ w.fresh ∷ [] =
      ap (λ b. b ++ w.fresh ∷ []) idle in
    let w4 : World = record w3 {
      mem = put w3.mem w.fresh (buffer_of sizeof_capsule header (encode header ++ post) 0);
      sends = suc w.sends;
      outgoing = w.outgoing ++ record { to = w.gateway.peer_addr; bytes = encode header } ∷ [];
    } in
    rw (new_buffer_lem w, open_state)
      (rw (filled, open_state)
        (rw (written, open_state)
          (rw (drop_front-one w.fresh w4 queue, open_state) (rw (put-put, put-put, put-put) refl))))

-- What `openState` of the receiver leaves and sends.
pub record IsGreeting (w : World) (run : Run (Unit {0})) : Type 0 where
  pub end : World
  pub returns : run ≡ ok tt end
  -- the identifier that was generated is stored in the entry that was current
  pub stored : (end.session.connections w.session.connection_count).src ≡ (w.prev_srcid + 1) % 2 ^ 8
  -- the next entry is as it was, and it is the current one now
  pub current : end.session.connection_count ≡ w.session.connection_count + 1
  pub kept :
      end.session.connections (w.session.connection_count + 1)
      ≡ w.session.connections (w.session.connection_count + 1)
  -- one datagram goes out, and its source identifier is that of the next entry
  pub header : CapsuleHdr
  pub sent :
      end.outgoing ≡ w.outgoing ++ record { to = w.gateway.peer_addr; bytes = encode header } ∷ []
  pub srcid : header.srcid ≡ (w.session.connections (w.session.connection_count + 1)).src

-- When the sending queue is empty, a new chunk has room for a header, the peer has told no addresses, the
-- network takes a capsule, and the number of connections does not wrap, `openState` of the receiver returns,
-- stores the source identifier that it generated in the entry that was current, makes the next entry, which
-- it leaves as it was, the current one, and sends one datagram: a header whose source identifier is that of
-- the next entry, and not the one that it generated.
pub open_state-srcid :
    (current_buffer : Ref) (w : World)
    → w.tx_factory.buffer ≡ []
    → header_space ≤ w.tx_factory.chunk_size
    → w.gateway.peer_address_list ≡ none
    → w.env.send_fails w.sends ≡ false
    → w.session.connection_count + 1 < 2 ^ 32
    → IsGreeting w (open_state StateCode.open_state rx current_buffer w)
open_state-srcid current_buffer w idle room untold sent small =
    let next : add32 w.session.connection_count 1 ≡ w.session.connection_count + 1 = omega arith in
    let same : (w.session.connection_count == w.session.connection_count) ≡ true = ground arith in
    let other : (w.session.connection_count + 1 == w.session.connection_count) ≡ false =
      ground arith in
    record {
      end = hello_said w;
      returns = open_state-rx current_buffer w idle room untold sent;
      stored = rw same refl;
      current = next;
      kept = rw other refl;
      header = hello_header w;
      sent = refl;
      srcid = rw next (rw other refl);
    }
