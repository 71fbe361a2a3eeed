-- ===== src/Session/Sender.antt =====
-- What the sender does with one chunk of its file.
use udm.Base.{
  ℕ, suc, ◌+◌, ◌-◌, ◌<◌, ◌≡◌, refl, none, some, Bool, true, false, List, [], ◌∷◌, ◌++◌,
  if◌then◌else◌, length, replicate, inl, inr, Bool-cases,
}
use udm.Wire.{CapsuleHdr, StateCode, zero_hdr, header_space, encode, fin_flag, payld}
use udm.Wire.RoundTrip.{length-encode}
use udm.World.{World, ok, halt, exited, Ref, DataSource, Address, Packet}
use udm.World.Memory.{put}
use udm.World.Laws.{put_self, put-put, buffer_of}
use udm.Factory.{add32}
use udm.Factory.Load.{
  at_chunk, IsReading, next_bytes, is_short, after_chunk, input_from_source-more,
  input_from_source-end,
}
use udm.Gateway.Send.{IsRouted, destination, copy_header_lem, send_lem}
use udm.Presentation
use udm.Session.Processor.{set_cap_params, with_params, Params}
use udm.Session.States.{params_for, deliver, submit_chunk, mark_last, send_state}

-- The header fields of a capsule of the window; nothing else of the capsule changes.
set_cap_params-closed :
    (r : Ref) (p : Params) (w : World) (n : ℕ) (h : CapsuleHdr) (block : List ℕ)
    → w.mem r ≡ buffer_of n h block 0
    → set_cap_params r p StateCode.closed w
      ≡ ok tt (record w {
        mem = put w.mem r (buffer_of n (with_params h p w.session.capsule_id) block 0);
        session = record w.session { capsule_id = add32 w.session.capsule_id 1 };
      })
unfolding set_cap_params
set_cap_params-closed r p w n h block e = rw (e, set_cap_params) (rw e)

-- The header under which a chunk goes out.
abbrev pub sent_header : World → CapsuleHdr → CapsuleHdr
sent_header w h = with_params h (params_for payld w) w.session.capsule_id

-- A capsule with `payload` behind the room for its header goes out as one datagram, and is given up.
pub deliver_lem :
    (r : Ref) (w : World) (n : ℕ) (h : CapsuleHdr) (pre payload post : List ℕ)
    (addresses : List Address)
    → w.mem r ≡ buffer_of n h (pre ++ (payload ++ post)) 0
    → length pre ≡ header_space
    → h.cap_size ≡ length payload
    → IsRouted w addresses
    → w.env.send_fails w.sends ≡ false
    → deliver StateCode.closed r w
      ≡ ok tt (record w {
        mem = put w.mem r none;
        session = record w.session { capsule_id = add32 w.session.capsule_id 1 };
        addr_index = w.addr_index + 1;
        sends = suc w.sends;
        outgoing =
            w.outgoing
            ++ record { to = destination w addresses; bytes = encode (sent_header w h) ++ payload }
              ∷ [];
      })
unfolding deliver Presentation.set_cap_params send_state
deliver_lem r w n h pre payload post addresses e l size v sent =
    let rest = payload ++ post in
    let w1 = record w { mem = put w.mem r (buffer_of n h (encode h ++ rest) 0) } in
    let first = copy_header_lem r w n h pre rest e l in
    let params =
      set_cap_params-closed r (params_for payld w) w1 n h (encode h ++ rest) (put_self w.mem r _) in
    let w2 = record w {
      mem = put w.mem r (buffer_of n (sent_header w h) (encode h ++ rest) 0);
      session = record w.session { capsule_id = add32 w.session.capsule_id 1 };
    } in
    let routed : IsRouted w2 addresses = record {
      told = v.told;
      some_left = v.some_left;
      within = v.within;
      no_wrap = v.no_wrap;
    } in
    let out =
      send_lem r w2 n (sent_header w h) (encode h) payload post addresses (put_self w.mem r _)
        (length-encode h) size routed sent in
    rw first (rw params (rw put-put (rw out (simp put-put))))

-- The header in which a chunk is loaded, with FIN on the last.
abbrev pub chunk_header : DataSource → ℕ → CapsuleHdr
chunk_header s n = record zero_hdr {
  cap_size = length (next_bytes s n);
  cap_flags = if is_short s n then fin_flag else 0;
}

-- The datagram that carries a chunk.
abbrev pub chunk_packet : World → DataSource → ℕ → List Address → Packet
chunk_packet w s n addresses = record {
  to = destination w addresses;
  bytes = encode (sent_header w (chunk_header s n)) ++ next_bytes s n;
}

-- The world after a chunk was sent.
abbrev pub chunk_sent : World → DataSource → ℕ → List Address → World
chunk_sent w s n addresses = record w {
  mem = put w.mem w.fresh none;
  fresh = suc w.fresh;
  tx_factory = record w.tx_factory {
    buffer = [];
    fin = if is_short s n then true else false;
    cur_size = s.pos + length (next_bytes s n);
    chunk_size = if is_short s n then length (next_bytes s n) + header_space else n;
    source_data = some (after_chunk s n);
  };
  session = record w.session {
    capsule_id = add32 w.session.capsule_id 1;
    win_size = if is_short s n then 0 else w.session.win_size;
  };
  addr_index = w.addr_index + 1;
  sends = suc w.sends;
  outgoing = w.outgoing ++ chunk_packet w s n addresses ∷ [];
}

mark_last_lem :
    (r : Ref) (w : World) (n : ℕ) (h : CapsuleHdr) (block : List ℕ)
    → w.mem r ≡ buffer_of n h block 0
    → mark_last r w
      ≡ ok tt (record w {
        mem = put w.mem r (buffer_of n (record h { cap_flags = fin_flag }) block 0);
        session = record w.session { win_size = 0 };
      })
unfolding mark_last
mark_last_lem r w n h block e = rw (e, mark_last) (rw (e, mark_last) (rw (e, mark_last)))

-- The chunk is out of the queue: `last` says whether it is the last, `flags` and `win` what its header
-- and the session hold by now.
abbrev chunk_taken : World → DataSource → ℕ → Bool → ℕ → ℕ → World
chunk_taken w s n last flags win = record w {
  mem = put w.mem w.fresh (
      buffer_of (length (next_bytes s n) + header_space)
        (record zero_hdr { cap_size = length (next_bytes s n); cap_flags = flags })
        (replicate header_space w.env.junk
          ++ (next_bytes s n ++ replicate (n - header_space - length (next_bytes s n)) w.env.junk))
        0);
  fresh = suc w.fresh;
  tx_factory = record w.tx_factory {
    buffer = [];
    fin = last;
    cur_size = s.pos + length (next_bytes s n);
    chunk_size = if last then length (next_bytes s n) + header_space else n;
    source_data = some (after_chunk s n);
  };
  session = record w.session { win_size = win };
}

deliver-chunk :
    (w : World) (s : DataSource) (n : ℕ) (addresses : List Address) (last : Bool) (flags win : ℕ)
    → IsRouted w addresses
    → w.env.send_fails w.sends ≡ false
    → deliver StateCode.closed w.fresh (chunk_taken w s n last flags win)
      ≡ ok tt (record (chunk_taken w s n last flags win) {
        mem = put w.mem w.fresh none;
        session = record w.session { win_size = win; capsule_id = add32 w.session.capsule_id 1 };
        addr_index = w.addr_index + 1;
        sends = suc w.sends;
        outgoing =
            w.outgoing
            ++ record {
              to = destination w addresses;
              bytes =
                  encode (
                    sent_header w
                      (record zero_hdr { cap_size = length (next_bytes s n); cap_flags = flags }))
                  ++ next_bytes s n;
            }
              ∷ [];
      })
deliver-chunk w s n addresses last flags win routed sent = rw put-put at (
    deliver_lem w.fresh (chunk_taken w s n last flags win) _ _ (replicate header_space w.env.junk)
      (next_bytes s n) _ addresses (put_self w.mem w.fresh _) refl refl
      (record {
        told = routed.told;
        some_left = routed.some_left;
        within = routed.within;
        no_wrap = routed.no_wrap;
      })
      sent)

-- While the file holds more, a round of the sender sends its next chunk as one datagram. A chunk with
-- room left over is the last: it carries FIN, it sets `fin` and it ends the window.
pub submit_chunk-more :
    (w : World) (s : DataSource) (n : ℕ) (addresses : List Address)
    → IsReading s n
    → s.pos < s.file_size
    → IsRouted w addresses
    → w.env.send_fails w.sends ≡ false
    → submit_chunk StateCode.closed (at_chunk w s n) ≡ ok tt (chunk_sent w s n addresses)
unfolding submit_chunk
submit_chunk-more w s n addresses v more routed sent =
    rw (input_from_source-more w s n v more, submit_chunk)
      (elim (Bool-cases (is_short s n)) [
        | inl short ↦
            rw (short, submit_chunk)
              (rw
                (
                  mark_last_lem w.fresh (chunk_taken w s n true 0 w.session.win_size) _ _ _
                      (put_self w.mem w.fresh _),
                  submit_chunk,
                )
                (rw put-put (deliver-chunk w s n addresses true fin_flag 0 routed sent)))
        | inr full ↦
            rw (full, submit_chunk)
              (deliver-chunk w s n addresses false 0 w.session.win_size routed sent)
      ])

-- When the file was used up without a short chunk, the next round finds nothing to send and ends the
-- program with an error.
pub submit_chunk-end :
    (w : World) (s : DataSource) (n : ℕ)
    → IsReading s n
    → s.pos ≡ s.file_size
    → submit_chunk StateCode.closed (at_chunk w s n)
      ≡ halt (exited 1) (record (at_chunk w s n) {
        tx_factory = record (at_chunk w s n).tx_factory { fin = true };
      })
unfolding submit_chunk
submit_chunk-end w s n v over = rw (input_from_source-end w s n v over, submit_chunk)
