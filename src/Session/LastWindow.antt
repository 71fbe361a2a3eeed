-- ===== src/Session/LastWindow.antt =====
-- The last window of a file, from one end to the other step by step.
use udm.Base.{
  ℕ, suc, ◌+◌, ◌-◌, ◌*◌, ◌≤◌, ◌≡◌, refl, ap, sym, subst, ◌∙◌, true, some, List, [], ◌++◌, arith,
  length, drop, length-drop, append-nil,
}
use udm.Wire.{header_space, StateCode, payld}
use udm.World.{World, DataSource, Address, Packet, Ref, SockAddr}
use udm.Factory.Load.{at_chunk}
use udm.Presentation.Written.{window_bytes, appended, IsWriting}
use udm.Session.States.{params_for, is_over}
use udm.Session.Rounds.{IsOpen-le}
use udm.Session.Closed.{last_packets, last_done, last_done-outgoing, last_done-fin}
use udm.Session.Received.{Sent, payloads_of}
use udm.Session.Ack.{acked}
use udm.Session.SentFile.{rounds_done-rest, rest_sent}
use udm.Session.Capsules.{delivered, capsules, length-capsules}
use udm.Session.Series.{last-IsSeries, file_capsules-bytes}
use udm.Session.Arriving.{delivered-last}
use udm.Session.ReceivedFile.{is_over-complete}
use udm.Session.Turn.{IsTurn, turn}
use udm.Session.Loop.{is_over-at}
use udm.Session.Ends.{IsSender, IsReceiver, IsOpen-came, IsListening-came}
use udm.Session.Steps.{came, Steps, rests, sends-at}
use udm.Session.Answered.{answer-Steps}
use udm.Session.Steps.{IsExchanged}

module _ (n : ℕ) (here there : SockAddr) (r q : Ref) (addresses told : List Address) (k e : ℕ) where
  -- The last window goes out, and comes in.
  module _ (w v : World) (s t : DataSource) (a : IsSender w s n addresses 0 k e)
      (b : IsReceiver v q t n told 0 (s.file_size - s.pos)) (read : w.incoming ≡ [])
      (read' : v.incoming ≡ []) where
    abbrev rest_of : List Sent
    rest_of = capsules (suc k) (params_for payld w) w.session.capsule_id s n here

    abbrev rest_packets : List Packet
    rest_packets = last_packets k w s n addresses

    rest_size : s.file_size ≡ s.pos + (k * (n - header_space) + e)
    rest_size = let size = a.size in omega arith

    rest_bytes : window_bytes (payloads_of rest_of) ≡ drop s.pos s.content
    rest_bytes =
        sym (append-nil (window_bytes (payloads_of rest_of)))
        ∙ file_capsules-bytes (params_for payld w) a.params n v.rx_factory.chunk_size here b.wide k
            e a.some_left a.less a.narrow 0 w.session.capsule_id s a.reading a.size

    rest_turn :
        IsTurn
          (came (delivered here rest_packets []) v)
          q
          t
          (window_bytes (payloads_of rest_of))
          []
          true
          told
    rest_turn =
        let no_wrap = a.no_wrap in
        let narrow = a.narrow in
        let l = length-capsules (suc k) (params_for payld w) w.session.capsule_id s n here in
        let amount : length (window_bytes (payloads_of rest_of)) ≡ s.file_size - s.pos =
          ap length rest_bytes
          ∙ length-drop s.pos s.content
          ∙ (let whole = a.reading.whole in omega arith) in
        let xs = v.incoming ++ delivered here rest_packets [] in
        turn (came (delivered here rest_packets []) v) q rest_of [] t true told
          (IsListening-came v q xs b.listening)
          (last-IsSeries (params_for payld w) a.params n v.rx_factory.chunk_size here b.wide k e
            a.some_left a.less a.narrow w.session.capsule_id s a.reading rest_size (omega arith))
          (ap (λ ys. ys ++ delivered here rest_packets []) read'
            ∙ delivered-last k w s n addresses here [] (omega arith))
          (omega arith) (λ z. cc) b.opened (subst (IsWriting t) (sym amount) b.writes)
          (IsOpen-came v told 1 xs b.net)

    abbrev rest_acked : World
    rest_acked = let w' = last_done k w s n addresses in acked w' w'.tx_factory.fin there []

    rest-Steps : Steps here there r q (at_chunk w s n) v rest_acked rest_turn.after
    rest-Steps =
        let same = rounds_done-rest k w s n addresses in
        sends-at StateCode.closed rest_packets a.sending.at_closed
          (is_over-at (at_chunk w s n) StateCode.closed a.sending.at_closed refl)
          (rest_sent r w s n addresses k e a.reading rest_size a.some_left a.less a.narrow
            (IsOpen-le w addresses (suc k) _ (omega arith) a.net) a.sending)
          (last_done-outgoing k w s n addresses)
          (answer-Steps rest_turn b.listening.at_closed refl (ap (λ x. x.incoming) same ∙ read)
            (ap (λ x. x.rx_factory.buffer) same ∙ a.sending.read)
            (subst (λ c. header_space ≤ c) (sym (ap (λ x. x.rx_factory.chunk_size) same)) a.room)
            b.params rests)

    pub exchange-last : IsExchanged here there r q (at_chunk w s n) v t (drop s.pos s.content)
    exchange-last =
        let g = rest_turn in
        let fin = last_done-fin k e w s n addresses a.reading rest_size a.less in
        record {
          sent = rest_acked;
          got = g.after;
          steps = rest-Steps;
          sender_over = ap (λ f. is_over (acked (last_done k w s n addresses) f there [])) fin;
          receiver_over = is_over-complete g.after g.code g.complete;
          file = g.file ∙ ap (λ bs. some (appended t bs)) rest_bytes;
          sender_read = refl;
          receiver_read = g.left;
        }
