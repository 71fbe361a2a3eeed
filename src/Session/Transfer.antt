-- ===== src/Session/Transfer.antt =====
-- A file from one end to the other: the loops of `start` of a sender and of a receiver, each of which
-- gets what the other sends.
use udm.Base.{
  ℕ, suc, ◌+◌, ◌-◌, ◌*◌, ◌≤◌, ◌^◌, ◌≡◌, refl, ap, sym, subst, ◌∙◌, true, some, List, [], ◌∷◌, arith,
  length, drop, length-drop,
}
use udm.Wire.{header_space, tx, rx, payld, ctrl}
use udm.World.{World, DataSource, Address, Ref, Arrival, SockAddr}
use udm.Factory.{add32}
use udm.Factory.Load.{at_chunk}
use udm.Presentation.Written.{appended, IsWriting}
use udm.Session.Processor.{Params, win_siz}
use udm.Session.States.{params_for, state_loop}
use udm.Session.Rounds.{IsOpen}
use udm.Session.Received.{Sent, arrivals_of}
use udm.Session.WholeFile.{IsFileSent, file_packets, state_loop-packets}
use udm.Session.Capsules.{delivered}
use udm.Session.Series.{
  all_arrivals, all_bytes, file_capsules, length-file_capsules, file_capsules-IsFileSeries,
  file_capsules-bytes,
}
use udm.Session.Arriving.{delivered-file}
use udm.Session.Acks.{
  ack_of, ack_capsules, length-ack_capsules, delivered-acks, ack_capsules-AllAcks,
}
use udm.Session.ReceivedFile.{IsFileReceived, state_loop-received}
use udm.Session.Ends.{
  IsSender, IsReceiver, IsTransferred, IsOpen-came, IsSending-came, IsListening-came,
}

module _ (w v : World) (s t : DataSource) (n fuel : ℕ) (r current_buffer : Ref)
    (here there : SockAddr) (addresses told : List Address) (j k e : ℕ) (later rest : List Arrival)
    (a : IsSender w s n addresses j k e)
    (b : IsReceiver v current_buffer t n told j (s.file_size - s.pos))
    (enough : 2 * suc j ≤ fuel) where
  abbrev ack_params : Params
  ack_params = params_for ctrl v

  abbrev first_ack : Sent
  first_ack = record {
    header = ack_of ack_params v.session.capsule_id;
    payload = [];
    from = there;
    named = true;
  }

  abbrev more_acks : List Sent
  more_acks = ack_capsules j ack_params (add32 v.session.capsule_id 1) there

  abbrev windows : List (List Sent)
  windows = file_capsules j k (params_for payld w) w.session.capsule_id s n here

  abbrev sender : World
  sender = record w { incoming = arrivals_of (first_ack ∷ more_acks) later }

  abbrev receiver : World
  receiver = record v { incoming = all_arrivals windows rest }

  sender_runs :
      (g : IsFileSent sender
        (state_loop fuel tx r (at_chunk sender s n))
        (drop s.pos s.content)
        later)
      × (g.packets ≡ file_packets first_ack more_acks k sender s n addresses later)
  sender_runs =
      let l = length-ack_capsules j ack_params (add32 v.session.capsule_id 1) there in
      let xs = arrivals_of (first_ack ∷ more_acks) later in
      state_loop-packets first_ack more_acks fuel r sender s n addresses k e later a.reading
        (subst
          (λ i.
            s.file_size
            ≡ s.pos + (i * (win_siz * (n - header_space)) + (k * (n - header_space) + e)))
          (sym l) a.size)
        a.some_left a.less a.narrow
        (subst (λ i. IsOpen sender addresses (i * win_siz + suc k)) (sym l)
          (IsOpen-came w addresses _ xs a.net))
        (IsSending-came w xs a.sending) refl
        (ack_capsules-AllAcks w.rx_factory.chunk_size (suc j) ack_params v.session.capsule_id there
          b.params a.room)
        (omega arith)

  -- The windows hold what was left of the file.
  whole_file : all_bytes windows ≡ drop s.pos s.content
  whole_file =
      file_capsules-bytes (params_for payld w) a.params n v.rx_factory.chunk_size here b.wide k e
        a.some_left a.less a.narrow j w.session.capsule_id s a.reading a.size

  receiver_runs :
      IsFileReceived receiver
        (state_loop fuel rx current_buffer receiver)
        t
        (all_bytes windows)
        (suc j)
        rest
  receiver_runs =
      let l = length-file_capsules j k (params_for payld w) w.session.capsule_id s n here in
      let xs = all_arrivals windows rest in
      let whole = a.reading.whole in
      let size : length (all_bytes windows) ≡ s.file_size - s.pos =
        ap length whole_file ∙ length-drop s.pos s.content ∙ omega arith in
      subst
        (λ i.
          IsFileReceived receiver (state_loop fuel rx current_buffer receiver) t (all_bytes windows)
            i rest)
        l
        (state_loop-received windows fuel current_buffer receiver t told rest
          (IsListening-came v current_buffer xs b.listening)
          (file_capsules-IsFileSeries (params_for payld w) a.params n v.rx_factory.chunk_size here
            b.wide k e a.some_left a.less a.narrow j w.session.capsule_id s a.reading a.size
            a.no_wrap)
          refl b.opened (subst (IsWriting t) (sym size) b.writes)
          (subst (IsOpen receiver told) (sym l) (IsOpen-came v told (suc j) xs b.net))
          (omega arith))

  -- What the one sends is what the other gets.
  sender_arrives : delivered here sender_runs.0.packets rest ≡ all_arrivals windows rest
  sender_arrives =
      let l = length-ack_capsules j ack_params (add32 v.session.capsule_id 1) there in
      ap (λ ps. delivered here ps rest) sender_runs.1
      ∙ delivered-file first_ack more_acks k sender s n addresses later here rest
          (subst (λ i. w.session.capsule_id + (i * win_siz + suc k) ≤ 2 ^ 16) (sym l) a.no_wrap)
      ∙ ap
          (λ i.
            all_arrivals (file_capsules i k (params_for payld w) w.session.capsule_id s n here)
              rest)
          l

  acks_arrive : delivered there receiver_runs.acks later ≡ arrivals_of (first_ack ∷ more_acks) later
  acks_arrive =
      delivered-acks (suc j) ack_params v.session.capsule_id there receiver_runs.acks later
        receiver_runs.says

  -- Take a sender and a receiver, each at the start of a window: the sender's file ends with a chunk that
  -- is not full, its identifiers do not wrap, and the receiver's device has room for what is left of the
  -- file and takes chunks of the sender's size. With fuel for two states a window there are datagrams such
  -- that the loop of `start` of the sender, to which the receiver's come in, in order, ends by its own test
  -- and sends `packets`, and that of the receiver, to which these come in, ends by its own test and sends
  -- `acks`. The receiver has put all that was left of the sender's file at the end of its own, and both
  -- leave later datagrams to come.
  pub transfer :
      IsTransferred tt w v
        (λ xs. state_loop fuel tx r (at_chunk (record w { incoming = xs }) s n))
        (λ xs. state_loop fuel rx current_buffer (record v { incoming = xs }))
        t
        here
        there
        (drop s.pos s.content)
        later
        rest
  transfer = record {
    packets = sender_runs.0.packets;
    acks = receiver_runs.acks;
    sent = sender_runs.0.end;
    got = receiver_runs.end;
    sender_ends =
        ap (λ xs. state_loop fuel tx r (at_chunk (record w { incoming = xs }) s n)) acks_arrive
        ∙ sender_runs.0.returns;
    receiver_ends =
        ap (λ xs. state_loop fuel rx current_buffer (record v { incoming = xs })) sender_arrives
        ∙ receiver_runs.returns;
    sender_out = sender_runs.0.out;
    receiver_out = receiver_runs.out;
    sender_over = sender_runs.0.over;
    receiver_over = receiver_runs.over;
    file = receiver_runs.file ∙ ap (λ bs. some (appended t bs)) whole_file;
    sender_left = sender_runs.0.left;
    receiver_left = receiver_runs.left;
  }
