-- ===== src/Session/Exchange.antt =====
-- A file from one end to the other, step by step: what each state sends comes in at the other end before
-- that goes on.
use udm.Base.{
  ℕ, zero, suc, ◌+◌, ◌-◌, ◌*◌, ◌≤◌, ◌≡◌, refl, ap, sym, subst, ◌∙◌, true, false, some, List, [],
  ◌++◌, arith, length, drop,
}
use udm.Wire.{header_space, StateCode, payld, ctrl}
use udm.World.{World, DataSource, Address, Packet, Ref, SockAddr}
use udm.Factory.Load.{at_chunk}
use udm.Presentation.Written.{window_bytes, appended, appended-appended}
use udm.Session.Processor.{win_siz}
use udm.Session.States.{params_for}
use udm.Session.Rounds.{IsOpen, IsOpen-le}
use udm.Session.Windows.{
  after_chunks, window_packets, after_chunks-IsReading, after_chunks-pos, after_chunks-content,
  after_chunks-file_size, rounds_done-outgoing,
}
use udm.Session.FullWindow.{window_done}
use udm.Session.Received.{Sent, payloads_of}
use udm.Session.Ack.{acked}
use udm.Session.SentFile.{rounds_done-rest, window_sent}
use udm.Session.Capsules.{
  delivered, capsules, IsPayloadParams, length-capsules, capsules-rest, delivered-window,
}
use udm.Session.Acks.{IsControlParams, ack_of}
use udm.Session.Series.{full-IsSeries}
use udm.Session.Arriving.{rounds_done-params, rounds_done-capsule_id}
use udm.Session.WholeFile.{window_acked-IsOpen, window_acked-IsSending}
use udm.Session.Turn.{IsTurn, turn}
use udm.Session.Loop.{is_over-at}
use udm.Session.Ends.{IsSender, IsReceiver, IsOpen-came, IsListening-came}
use udm.Session.Steps.{came, Steps, sends-at}
use udm.Session.Answered.{answer-Steps, length-window_bytes}
use udm.Session.Steps.{IsExchanged}
use udm.Session.LastWindow.{exchange-last}

module _ (n : ℕ) (here there : SockAddr) (r q : Ref) (addresses told : List Address) (k e : ℕ) where
  -- A full window goes out, and comes in.
  module _ (j : ℕ) (w v : World) (s t : DataSource) (a : IsSender w s n addresses (suc j) k e)
      (b : IsReceiver v q t n told (suc j) (s.file_size - s.pos)) (read : w.incoming ≡ [])
      (read' : v.incoming ≡ []) where
    abbrev window_of : List Sent
    window_of = capsules win_siz (params_for payld w) w.session.capsule_id s n here

    abbrev packets_of : List Packet
    packets_of = window_packets win_siz w s n addresses

    abbrev bytes_in : List ℕ
    bytes_in = window_bytes (payloads_of window_of)

    abbrev file_after : DataSource
    file_after = after_chunks win_siz s n

    window_fits : s.pos + win_siz * (n - header_space) ≤ s.file_size
    window_fits = let size = a.size in omega arith

    window_amount : length bytes_in ≡ win_siz * (n - header_space)
    window_amount =
        length-window_bytes win_siz w w.session.capsule_id s n here a.reading window_fits

    window_net : IsOpen w addresses (win_siz + (j * win_siz + suc k))
    window_net = IsOpen-le w addresses _ _ (omega arith) a.net

    answer_net : IsOpen (came (delivered here packets_of []) v) told (suc (suc j))
    answer_net = IsOpen-came v told (suc (suc j)) (v.incoming ++ delivered here packets_of []) b.net

    full_turn : IsTurn (came (delivered here packets_of []) v) q t bytes_in [] false told
    full_turn =
        let no_wrap = a.no_wrap in
        let size = a.size in
        let amount = window_amount in
        let writes = b.writes in
        let takes = writes.takes in
        let l = length-capsules win_siz (params_for payld w) w.session.capsule_id s n here in
        turn (came (delivered here packets_of []) v) q window_of [] t false told
          (IsListening-came v q (v.incoming ++ delivered here packets_of []) b.listening)
          (full-IsSeries (params_for payld w) a.params n v.rx_factory.chunk_size here b.wide k e
            a.some_left a.less a.narrow w.session.capsule_id s a.reading window_fits (omega arith))
          (ap (λ ys. ys ++ delivered here packets_of []) read'
            ∙ delivered-window win_siz w s n addresses here [] (omega arith))
          (omega arith) (λ z. omega arith) b.opened
          (record { for_output = writes.for_output; good = writes.good; takes = omega arith })
          (IsOpen-le _ told 1 (suc (suc j)) (omega arith) answer_net)

    abbrev full_acked : World
    full_acked = acked (window_done win_siz w s n addresses) false there []

    next-IsSender : IsSender full_acked file_after n addresses j k e
    next-IsSender =
        let same = rounds_done-rest win_siz w s n addresses in
        let no_wrap = a.no_wrap in
        let size = a.size in
        let pos = after_chunks-pos win_siz s n a.reading window_fits in
        let same_size = after_chunks-file_size win_siz s n in
        let c : Sent = record {
          header = ack_of (params_for ctrl v) v.session.capsule_id;
          payload = [];
          from = there;
          named = true;
        } in
        record {
          reading = after_chunks-IsReading win_siz s n a.reading;
          size = omega arith;
          some_left = a.some_left;
          less = a.less;
          narrow = a.narrow;
          net = window_acked-IsOpen w s n addresses c [] _ window_net;
          sending = window_acked-IsSending w s n addresses c [] a.sending;
          params =
              subst IsPayloadParams (sym (rounds_done-params win_siz w s n addresses)) a.params;
          no_wrap =
              (let id = rounds_done-capsule_id win_siz w s n addresses (omega arith) in
                omega arith);
          room =
              subst (λ z. header_space ≤ z) (sym (ap (λ x. x.rx_factory.chunk_size) same)) a.room;
        }

    next-IsReceiver :
        IsReceiver full_turn.after q
          (appended t bytes_in)
          n
          told
          j
          (file_after.file_size - file_after.pos)
    next-IsReceiver =
        let g = full_turn in
        let size = a.size in
        let amount = window_amount in
        let pos = after_chunks-pos win_siz s n a.reading window_fits in
        let same_size = after_chunks-file_size win_siz s n in
        let writes = b.writes in
        let takes = writes.takes in
        record {
          listening = g.listens refl;
          opened = g.file;
          writes = record {
            for_output = writes.for_output;
            good = writes.good;
            takes = omega arith;
          };
          net = g.net (suc j) answer_net;
          params = subst IsControlParams (sym g.same_params) b.params;
          wide = subst (λ z. n ≤ z) (sym g.same_chunk_size) b.wide;
        }

    full-Steps :
        {x y : World}
        → Steps here there r q full_acked full_turn.after x y
        → Steps here there r q (at_chunk w s n) v x y
    full-Steps rest =
        let same = rounds_done-rest win_siz w s n addresses in
        sends-at StateCode.closed packets_of a.sending.at_closed
          (is_over-at (at_chunk w s n) StateCode.closed a.sending.at_closed refl)
          (window_sent r w s n addresses a.reading window_fits
            (IsOpen-le w addresses win_siz _ (omega arith) window_net) a.sending)
          (rounds_done-outgoing win_siz w s n addresses)
          (answer-Steps full_turn b.listening.at_closed refl (ap (λ x. x.incoming) same ∙ read)
            (ap (λ x. x.rx_factory.buffer) same ∙ a.sending.read)
            (subst (λ z. header_space ≤ z) (sym (ap (λ x. x.rx_factory.chunk_size) same)) a.room)
            b.params rest)

    whole_file :
        some (appended (appended t bytes_in) (drop file_after.pos file_after.content))
        ≡ some (appended t (drop s.pos s.content))
    whole_file =
        ap some (appended-appended t bytes_in (drop file_after.pos file_after.content))
        ∙ ap (λ z. some (appended t (bytes_in ++ drop file_after.pos z)))
            (after_chunks-content win_siz s n)
        ∙ ap (λ z. some (appended t z))
            (capsules-rest win_siz (params_for payld w) w.session.capsule_id s n here)

  -- `j` full windows, and the last.
  pub exchange :
      (j : ℕ) (w v : World) (s t : DataSource)
      → IsSender w s n addresses j k e
      → IsReceiver v q t n told j (s.file_size - s.pos)
      → w.incoming ≡ []
      → v.incoming ≡ []
      → IsExchanged here there r q (at_chunk w s n) v t (drop s.pos s.content)
  exchange zero w v s t a b read read' =
      exchange-last n here there r q addresses told k e w v s t a b read read'
  exchange (suc j) w v s t a b read read' =
      let g = full_turn j w v s t a b read read' in
      let ih =
        exchange j (full_acked j w v s t a b read read') g.after
          (file_after j w v s t a b read read') (appended t (bytes_in j w v s t a b read read'))
          (next-IsSender j w v s t a b read read') (next-IsReceiver j w v s t a b read read') refl
          g.left in
      record {
        sent = ih.sent;
        got = ih.got;
        steps = full-Steps j w v s t a b read read' ih.steps;
        sender_over = ih.sender_over;
        receiver_over = ih.receiver_over;
        file = ih.file ∙ whole_file j w v s t a b read read';
        sender_read = ih.sender_read;
        receiver_read = ih.receiver_read;
      }
