-- ===== src/Session/Turn.antt =====
-- One turn of a receiver in the loop of `start`: a window comes in, goes to the file and is acknowledged.
use udm.Base.{
  ℕ, zero, suc, ◌≤◌, ◌≡◌, refl, sym, ap, subst, ◌∙◌, some, Bool, true, false, List, [], ◌∷◌, ◌++◌,
  arith, length, drop, take, if◌then◌else◌, inl,
}
use udm.Wire.{StateCode, rx, header_space, encode, ctrl}
use udm.World.{World, ok, Ref, Arrival, Address, Packet, DataSource}
use udm.World.Laws.{put_ne}
use udm.Presentation.Written.{AllPayload, window_bytes, appended, IsWriting}
use udm.Session.Processor.{win_siz}
use udm.Factory.{add32}
use udm.Session.States.{params_for, step, state_loop, closed_state, done_state}
use udm.Session.Rounds.{IsOpen}
use udm.Session.Received.{Sent, arrivals_of, payloads_of, IsSeries}
use udm.Session.ReceivedWindow.{received, IsWindowReceived, closed_state-arrived}
use udm.Session.Closed.{to_done}
use udm.Session.Finished.{
  IsBetween, freed-ne, take-IsBetween, ack_packet, finished, IsWindowStored, done_state-stored,
}
use udm.Session.Listening.{
  received-rest, received-IsApart, received-mem, IsListening, IsListening-IsReceiving,
}
use udm.Session.Loop.{state_loop-step}
use udm.Session.Finish.{with_capsule, ack_header}

-- What a turn leaves: the file has the bytes of the window more, one datagram went out, and the session
-- is at its end or at the start of the next window.
pub record IsTurn (w : World) (current_buffer : Ref) (s : DataSource) (bytes : List ℕ)
    (rest : List Arrival) (last : Bool) (addresses : List Address) : Type 0 where
  pub after : World
  pub turns :
      (fuel : ℕ)
      → state_loop (suc (suc fuel)) rx current_buffer w ≡ state_loop fuel rx current_buffer after
  pub between : World
  pub comes_in : step rx current_buffer StateCode.closed w ≡ ok tt between
  pub then_done : between.session.next ≡ StateCode.done
  pub silent : between.outgoing ≡ w.outgoing
  pub is_stored : step rx current_buffer StateCode.done between ≡ ok tt after
  pub packet : Packet
  pub out : after.outgoing ≡ w.outgoing ++ packet ∷ []
  pub says : packet.bytes ≡ encode (ack_header w)
  pub counter : after.session.capsule_id ≡ add32 w.session.capsule_id 1
  pub same_params : params_for ctrl after ≡ params_for ctrl w
  pub file : after.rx_factory.source_data ≡ some (appended s bytes)
  pub left : after.incoming ≡ rest
  pub code : after.session.next ≡ (if last then StateCode.connected else StateCode.closed)
  pub complete : after.session.complete ≡ true
  pub same_chunk_size : after.rx_factory.chunk_size ≡ w.rx_factory.chunk_size
  pub listens : last ≡ false → IsListening after current_buffer
  pub net : (k : ℕ) → IsOpen w addresses (suc k) → IsOpen after addresses k

drop-IsBetween :
    (k low high : ℕ) (rs : List Ref) → IsBetween low high rs → IsBetween low high (drop k rs)
drop-IsBetween zero low high rs v = v
drop-IsBetween (suc k) low high [] v = tt
drop-IsBetween (suc k) low high (r ∷ rs) v = drop-IsBetween k low high rs v.2

IsBetween-le :
    (low high high' : ℕ) (rs : List Ref)
    → high ≤ high'
    → IsBetween low high rs
    → IsBetween low high' rs
IsBetween-le low high high' [] le v = tt
IsBetween-le low high high' (r ∷ rs) le v =
    (v.0, omega (arith, v.1), IsBetween-le low high high' rs le v.2)

received-IsOpen :
    (cs : List Sent) (rest : List Arrival) (w : World) (addresses : List Address) (k : ℕ)
    → IsOpen w addresses k
    → IsOpen (received cs rest w) addresses k
received-IsOpen cs rest w addresses k v =
    subst (λ x. IsOpen x addresses k) (sym (received-rest cs rest w))
      (record {
        told = v.told;
        some_left = v.some_left;
        within = v.within;
        no_wrap = v.no_wrap;
        sent = v.sent;
      })

module _ (w : World) (current_buffer : Ref) (cs : List Sent) (rest : List Arrival) (s : DataSource)
    (last : Bool) (addresses : List Address) (v : IsListening w current_buffer)
    (series : IsSeries w.rx_factory.chunk_size last 0 cs) (came : w.incoming ≡ arrivals_of cs rest)
    (fits : length cs ≤ win_siz) (full : last ≡ false → win_siz ≤ length cs)
    (opened : w.rx_factory.source_data ≡ some s)
    (writes : IsWriting s (length (window_bytes (payloads_of cs))))
    (net : IsOpen w addresses 1) where
  abbrev window_in : World
  window_in = to_done (received cs rest w)

  arrived_window :
      (g : IsWindowReceived w
        (closed_state StateCode.closed rx current_buffer w)
        (payloads_of cs)
        rest
        last
        StateCode.done)
      × (g.end ≡ window_in)
  arrived_window =
      closed_state-arrived cs w current_buffer 0 [] rest last
        (IsListening-IsReceiving w current_buffer v) series came
        (subst (λ k. length cs ≤ k) (sym v.window_size) fits)
        (λ e. subst (λ k. k ≤ length cs) (sym v.window_size) (full e)) v.idle

  stored_window :
      IsWindowStored window_in
        (done_state StateCode.done rx current_buffer window_in)
        (appended s (window_bytes (payloads_of cs)))
        addresses
  stored_window =
      let same = received-rest cs rest w in
      let (g, at_end) = arrived_window in
      let net' = received-IsOpen cs rest w addresses 1 net in
      done_state-stored current_buffer window_in s (payloads_of cs) addresses (suc current_buffer)
        (ap (λ x. x.rx_factory.source_data) same ∙ opened) writes
        (subst (λ x. AllPayload x.mem x.window (payloads_of cs)) at_end g.held)
        (received-IsApart cs rest w current_buffer v.apart).queue
        (subst (λ x. header_space ≤ x.tx_factory.chunk_size) (sym same) v.room)
        (record {
          told = net'.told;
          some_left = net'.some_left;
          within = net'.within;
          no_wrap = net'.no_wrap;
        })
        (net'.sent _)

  abbrev window_out : World
  window_out = finished window_in stored_window.factory addresses

  -- `fin` is set if the window was the last.
  fin_is : stored_window.factory.fin ≡ last
  fin_is =
      let (g, at_end) = arrived_window in
      stored_window.same_fin ∙ sym (ap (λ x. x.rx_factory.fin) at_end) ∙ g.ends_file

  -- The buffer of the caller is none of the objects that come and go.
  buffer_kept : window_out.mem current_buffer ≡ w.mem current_buffer
  buffer_kept =
      let a = received-IsApart cs rest w current_buffer v.apart in
      let older = a.older in
      let queue : IsBetween (suc current_buffer) window_in.fresh stored_window.factory.buffer =
        subst (IsBetween (suc current_buffer) window_in.fresh) (sym stored_window.queue) a.queue in
      put_ne _ window_in.fresh current_buffer _ (λ e. omega (arith, e))
      ∙ freed-ne (suc current_buffer) window_in.fresh
          (take (length window_in.window) stored_window.factory.buffer) (with_capsule window_in).mem
          current_buffer
          (take-IsBetween (length window_in.window) (suc current_buffer) window_in.fresh
            stored_window.factory.buffer queue)
          (inl (omega arith))
      ∙ put_ne _ window_in.fresh current_buffer _ (λ e. omega (arith, e))
      ∙ received-mem cs rest w current_buffer v.apart

  listens_again : last ≡ false → IsListening window_out current_buffer
  listens_again e =
      let a = received-IsApart cs rest w current_buffer v.apart in
      let older = a.older in
      let same = received-rest cs rest w in
      let queue : IsBetween (suc current_buffer) window_in.fresh stored_window.factory.buffer =
        subst (IsBetween (suc current_buffer) window_in.fresh) (sym stored_window.queue) a.queue in
      let goes_on = fin_is ∙ e in
      record {
        at_closed = rw goes_on refl;
        window_size = rw goes_on refl;
        idle = ap (λ x. x.session.tasks) same ∙ v.idle;
        no_entries = refl;
        more = goes_on;
        apart = record {
          older = omega arith;
          queue =
              IsBetween-le (suc current_buffer) window_in.fresh (suc window_in.fresh) _
                (omega arith)
                (drop-IsBetween (length window_in.window) (suc current_buffer) window_in.fresh _
                  queue);
        };
        size = v.size;
        no_capsule = buffer_kept ∙ v.no_capsule;
        room = subst (λ x. header_space ≤ x.tx_factory.chunk_size) (sym same) v.room;
      }

  window_comes_in : step rx current_buffer StateCode.closed w ≡ ok tt window_in
  unfolding step
  window_comes_in = let (g, at_end) = arrived_window in g.returns ∙ ap (ok tt) at_end

  window_is_stored : step rx current_buffer StateCode.done window_in ≡ ok tt window_out
  unfolding step
  window_is_stored = stored_window.returns

  turns_over :
      (fuel : ℕ)
      → state_loop (suc (suc fuel)) rx current_buffer w
        ≡ state_loop fuel rx current_buffer window_out
  turns_over fuel =
      state_loop-step (suc fuel) rx current_buffer w window_in StateCode.closed v.at_closed refl
        window_comes_in
      ∙ state_loop-step fuel rx current_buffer window_in window_out StateCode.done refl refl
          window_is_stored

  pub turn : IsTurn w current_buffer s (window_bytes (payloads_of cs)) rest last addresses
  turn =
      let same = received-rest cs rest w in
      let (g, at_end) = arrived_window in
      record {
        after = window_out;
        turns = turns_over;
        between = window_in;
        comes_in = window_comes_in;
        then_done = refl;
        silent = ap (λ x. x.outgoing) same;
        is_stored = window_is_stored;
        packet = ack_packet window_in addresses;
        out = ap (λ x. x.outgoing ++ ack_packet window_in addresses ∷ []) same;
        says = ap (λ x. encode (ack_header x)) same;
        counter = ap (λ x. add32 x.session.capsule_id 1) same;
        same_params = ap (λ x. params_for ctrl x) same;
        file = stored_window.file;
        left = sym (ap (λ x. x.incoming) at_end) ∙ g.left;
        code = ap (λ f. if f then StateCode.connected else StateCode.closed) fin_is;
        complete = refl;
        same_chunk_size = stored_window.same_chunk_size ∙ ap (λ x. x.rx_factory.chunk_size) same;
        listens = listens_again;
        net = λ k o.
            (let o' = received-IsOpen cs rest w addresses (suc k) o in
              record {
                told = o'.told;
                some_left = o'.some_left;
                within = o'.within;
                no_wrap = (let b = o'.no_wrap in omega arith);
                sent = o'.sent;
              });
      }
