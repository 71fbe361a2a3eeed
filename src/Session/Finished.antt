-- ===== src/Session/Finished.antt =====
-- A receiver at the end of a window: `doneState` as a whole.
use udm.Base.{
  ℕ, zero, suc, ◌+◌, ◌-◌, ◌≤◌, ◌<◌, ◌≡◌, refl, sym, ap, subst, ◌∙◌, some, Option, none, true, false,
  List, [], ◌∷◌, ◌++◌, ◌%◌, ◌^◌, arith, length, take, drop, replicate, replicate-append,
  length-replicate, if◌then◌else◌, ◌⊎◌, inr,
}
use udm.Wire.{zero_hdr, StateCode, rx, encode, header_space, sizeof_capsule}
use udm.World.{World, Run, ok, Ref, Address, Packet, MemBuff, DataSource, DataFactory}
use udm.World.Memory.{put}
use udm.World.Laws.{buffer_of, put_self, put_ne, put-put}
use udm.Factory.{add32}
use udm.Gateway.Send.{IsRouted, destination, chunk_write_lem}
use udm.Presentation
use udm.Presentation.{write_window}
use udm.Presentation.Written.{
  AllPayload, window_bytes, appended, IsWriting, with_file, write_window_lem,
}
use udm.Session.Processor.{win_siz, set_cap_params}
use udm.Session.States.{done_state, send_state}
use udm.Session.Ack.{after_window_lem}
use udm.Session.Finish.{
  with_capsule, new_buffer_lem, freed, drop_window_lem, ack_header, ack_params, with_params-ack,
  set_cap_params-done,
}

-- Addresses of objects from `low` to `high`, the latter left out.
abbrev pub IsBetween : ℕ → ℕ → List Ref → Type 0
IsBetween low high [] = Unit
IsBetween low high (r ∷ rs) = (low ≤ r) × (r < high) × IsBetween low high rs

pub freed-ne :
    (low high : ℕ) (rs : List Ref) (m : Ref → Option MemBuff) (q : Ref)
    → IsBetween low high rs
    → (q < low) ⊎ (high ≤ q)
    → freed rs m q ≡ m q
freed-ne low high [] m q v h = refl
freed-ne low high (r ∷ rs) m q v h =
    freed-ne low high rs (put m r none) q v.2 h ∙ put_ne m r q none (λ e. ground (arith, e))

pub take-IsBetween :
    (k low high : ℕ) (rs : List Ref) → IsBetween low high rs → IsBetween low high (take k rs)
take-IsBetween zero low high rs v = tt
take-IsBetween (suc k) low high [] v = tt
take-IsBetween (suc k) low high (r ∷ rs) v = (v.0, v.1, take-IsBetween k low high rs v.2)

-- The acknowledgement of a window.
abbrev pub ack_packet : World → List Address → Packet
ack_packet w addresses = record { to = destination w addresses; bytes = encode (ack_header w) }

-- The world after `doneState`, if the window left the receiving factory as `f`.
abbrev pub finished : World → DataFactory → List Address → World
finished w f addresses = record w {
  mem = put (freed (take (length w.window) f.buffer) (with_capsule w).mem) w.fresh (
      buffer_of sizeof_capsule (ack_header w)
        (encode (ack_header w) ++ replicate (w.tx_factory.chunk_size - header_space) w.env.junk) 0);
  fresh = suc w.fresh;
  tx_factory = (with_capsule w).tx_factory;
  rx_factory = record f { buffer = drop (length w.window) f.buffer };
  window = [];
  session = record w.session {
    capsule_id = add32 w.session.capsule_id 1;
    next = if f.fin then StateCode.connected else StateCode.closed;
    win_size = if f.fin then w.session.win_size else win_siz;
    done = true;
    complete = true;
  };
  hdrid = (with_capsule w).hdrid;
  addr_index = w.addr_index + 1;
  sends = suc w.sends;
  outgoing = w.outgoing ++ ack_packet w addresses ∷ [];
}

done_state-written :
    (current_buffer : Ref) (w : World) (f : DataFactory) (addresses : List Address) (low : ℕ)
    → write_window rx w.window w ≡ ok tt (record w { rx_factory = f })
    → IsBetween low w.fresh f.buffer
    → header_space ≤ w.tx_factory.chunk_size
    → IsRouted w addresses
    → w.env.send_fails w.sends ≡ false
    → done_state StateCode.done rx current_buffer w ≡ ok tt (finished w f addresses)
unfolding done_state Presentation.process send_state
done_state-written current_buffer w f addresses low e old room v sent =
    let w1 = record (with_capsule w) { rx_factory = f } in
    let w3 = record w1 {
      mem = freed (take (length w.window) f.buffer) w1.mem;
      rx_factory = record f { buffer = drop (length w.window) f.buffer };
      window = [];
    } in
    let n = w.tx_factory.chunk_size in
    let j = w.env.junk in
    let post = replicate (n - header_space) j in
    let h = record zero_hdr { capid = w.hdrid % 2 ^ 16 } in
    let dropped = take (length w.window) f.buffer in
    let there : w3.mem w.fresh ≡ buffer_of sizeof_capsule h (replicate n j) 0 =
      freed-ne low w.fresh dropped w1.mem w.fresh
        (take-IsBetween (length w.window) low w.fresh f.buffer old) (inr (omega arith))
      ∙ put_self w.mem w.fresh _ in
    let block : replicate n j ≡ replicate header_space j ++ post =
      replicate-append header_space n j room in
    let w4 = record w3 {
      mem =
          put w3.mem w.fresh
            (buffer_of sizeof_capsule (ack_header w) (replicate header_space j ++ post) 0);
      session = record w.session { capsule_id = add32 w.session.capsule_id 1 };
    } in
    let filled : set_cap_params w.fresh (ack_params w.rx_factory.fin w3) StateCode.done w3
        ≡ ok tt w4 =
      set_cap_params-done w.fresh (ack_params w.rx_factory.fin w3) w3 sizeof_capsule h
        (replicate n j) there
      ∙ ap
          (λ g. ok tt (record w3 {
            mem = put w3.mem w.fresh (buffer_of sizeof_capsule g (replicate n j) 0);
            session = record w.session { capsule_id = add32 w.session.capsule_id 1 };
          }))
          (with_params-ack w.rx_factory.fin w3 (record h { cap_win_siz = win_siz })
            w.session.capsule_id)
      ∙ ap
          (λ b. ok tt (record w3 {
            mem = put w3.mem w.fresh (buffer_of sizeof_capsule (ack_header w) b 0);
            session = record w.session { capsule_id = add32 w.session.capsule_id 1 };
          }))
          block in
    let written =
      chunk_write_lem w.fresh w4 sizeof_capsule (ack_header w) (replicate header_space j) post
        addresses (put_self w3.mem w.fresh _) (length-replicate header_space j) refl
        (record { told = v.told; some_left = v.some_left; within = v.within; no_wrap = v.no_wrap })
        sent in
    rw (e, done_state)
      (rw (new_buffer_lem (record w { rx_factory = f }), done_state)
        (rw (drop_window_lem (length w.window) w1, done_state)
          (rw (filled, done_state)
            (rw (written, done_state) (rw put-put (after_window_lem _ f.fin))))))

-- A run that returns with the world `finished w factory addresses`, in which `s` is the file; the
-- receiving factory is else as it was, but for its counters.
pub record IsWindowStored (w : World) (result : Run (Unit {0})) (s : DataSource)
    (addresses : List Address) : Type 0 where
  pub factory : DataFactory
  pub returns : result ≡ ok tt (finished w factory addresses)
  pub file : factory.source_data ≡ some s
  pub queue : factory.buffer ≡ w.rx_factory.buffer
  pub same_fin : factory.fin ≡ w.rx_factory.fin
  pub same_chunk_size : factory.chunk_size ≡ w.rx_factory.chunk_size

-- When the entries of the window hold the payloads `ps` by ascending key, the file `s` of the receiving
-- factory is open for output and the device takes them, the objects of the receiving queue are older
-- than a new one, a new chunk has room for a header, and the network takes a capsule, `doneState`
-- returns with `finished`: the file has the payloads more at its end, the window is empty, the queue has
-- dropped as many objects as the window had entries, the acknowledgement went out as one datagram, and
-- the session goes on to `connected` if `fin` is set, and else to `closed` with a new window.
pub done_state-stored :
    (current_buffer : Ref) (w : World) (s : DataSource) (ps : List (List ℕ))
    (addresses : List Address) (low : ℕ)
    → w.rx_factory.source_data ≡ some s
    → IsWriting s (length (window_bytes ps))
    → AllPayload w.mem w.window ps
    → IsBetween low w.fresh w.rx_factory.buffer
    → header_space ≤ w.tx_factory.chunk_size
    → IsRouted w addresses
    → w.env.send_fails w.sends ≡ false
    → IsWindowStored w
        (done_state StateCode.done rx current_buffer w)
        (appended s (window_bytes ps))
        addresses
done_state-stored current_buffer w s ps addresses low opened v held old room routed sent =
    let stored = write_window_lem w s w.window ps v held in
    let f = (with_file stored.end (appended s (window_bytes ps))).rx_factory in
    let e : write_window rx w.window w ≡ ok tt (record w { rx_factory = f }) =
      ap
        (λ d.
          write_window rx w.window
            (record w { rx_factory = record w.rx_factory { source_data = d } }))
        opened
      ∙ stored.returns
      ∙ ap (ok tt) stored.elsewhere in
    record {
      factory = f;
      returns =
          done_state-written current_buffer w f addresses low e
            (subst (IsBetween low w.fresh) (sym stored.queue) old) room routed sent;
      file = refl;
      queue = stored.queue;
      same_fin = stored.same_fin;
      same_chunk_size = stored.same_chunk_size;
    }
