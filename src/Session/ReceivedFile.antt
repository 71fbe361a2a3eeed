-- ===== src/Session/ReceivedFile.antt =====
-- A receiver from the start of a window to the end of the file.
use udm.Base.{
  ℕ, zero, suc, ◌*◌, ◌≤◌, ◌≡◌, refl, ap, sym, subst, ap₂, ◌∙◌, true, false, some, List, [], ◌∷◌,
  ◌++◌, arith, length, length-append, append_assoc, append-nil, ◌&&◌,
}
use udm.Wire.{StateCode, rx, ctrl}
use udm.World.{World, Run, ok, Ref, Arrival, Address, Packet, DataSource}
use udm.Presentation.Written.{window_bytes, appended, IsWriting, appended-appended}
use udm.Session.States.{params_for, state_loop, is_over, is_connected}
use udm.Session.Rounds.{IsOpen, IsOpen-le}
use udm.Session.Received.{Sent, payloads_of}
use udm.Session.Series.{IsFileSeries, all_arrivals, all_bytes}
use udm.Session.Listening.{IsListening}
use udm.Session.Turn.{turn}
use udm.Session.Capsules.{texts}
use udm.Session.Acks.{ack_texts}
use udm.Session.Loop.{state_loop-over}

-- A run that ends the loop of `start`, has put `bytes` at the end of the file `s`, has sent `count`
-- datagrams, each the header of an acknowledgement, and leaves `rest` to come.
pub record IsFileReceived (w : World) (result : Run (Unit {0})) (s : DataSource) (bytes : List ℕ)
    (count : ℕ) (rest : List Arrival) : Type 0 where
  pub end : World
  pub acks : List Packet
  pub returns : result ≡ ok tt end
  pub file : end.rx_factory.source_data ≡ some (appended s bytes)
  pub out : end.outgoing ≡ w.outgoing ++ acks
  pub says : texts acks ≡ ack_texts count (params_for ctrl w) w.session.capsule_id
  pub left : end.incoming ≡ rest
  pub over : is_over end ≡ true

pub is_over-complete :
    (w : World)
    → w.session.next ≡ StateCode.connected
    → w.session.complete ≡ true
    → is_over w ≡ true
is_over-complete w e f = ap (λ c. is_connected c && w.session.complete) e ∙ f

-- Let a receiver be at the start of a window, and let windows of payload come in: full ones without FIN,
-- and a last one that ends with FIN, with rising identifiers in each. If the file is open for output,
-- the device takes all the payloads and the network takes a capsule for each window, then with fuel for
-- two states a window the loop of `start` returns by its own test, has put all the payloads at the end of
-- the file, in order, has sent one datagram for each window, the header of an acknowledgement with the
-- next identifier, and leaves what comes later to come.
pub state_loop-received :
    (windows : List (List Sent)) (fuel : ℕ) (current_buffer : Ref) (w : World) (s : DataSource)
    (addresses : List Address) (rest : List Arrival)
    → IsListening w current_buffer
    → IsFileSeries w.rx_factory.chunk_size windows
    → w.incoming ≡ all_arrivals windows rest
    → w.rx_factory.source_data ≡ some s
    → IsWriting s (length (all_bytes windows))
    → IsOpen w addresses (length windows)
    → 2 * length windows ≤ fuel
    → IsFileReceived w
        (state_loop fuel rx current_buffer w)
        s
        (all_bytes windows)
        (length windows)
        rest
state_loop-received [] fuel current_buffer w s addresses rest v series came opened writes net
      enough =
    absurd series
state_loop-received (cs ∷ windows) zero current_buffer w s addresses rest v series came opened
      writes net enough =
    absurd (omega arith)
state_loop-received (cs ∷ windows) (suc zero) current_buffer w s addresses rest v series came opened
      writes net enough =
    absurd (omega arith)
state_loop-received (cs ∷ []) (suc (suc fuel)) current_buffer w s addresses rest v series came
      opened writes net enough =
    let bytes = window_bytes (payloads_of cs) in
    let l = length-append bytes [] in
    let takes = writes.takes in
    let t =
      turn w current_buffer cs rest s true addresses v series.0 came series.1 (λ e. cc) opened
        (record { for_output = writes.for_output; good = writes.good; takes = omega arith }) net in
    let over = is_over-complete t.after t.code t.complete in
    record {
      end = t.after;
      acks = t.packet ∷ [];
      returns = t.turns fuel ∙ state_loop-over fuel rx current_buffer t.after over;
      file = t.file ∙ ap (λ b. some (appended s b)) (sym (append-nil bytes));
      out = t.out;
      says = ap (λ bs. bs ∷ []) t.says;
      left = t.left;
      over = over;
    }
state_loop-received (cs ∷ ds ∷ windows) (suc (suc fuel)) current_buffer w s addresses rest v series
      came opened writes net enough =
    let bytes = window_bytes (payloads_of cs) in
    let l = length-append bytes (all_bytes (ds ∷ windows)) in
    let takes = writes.takes in
    let full = series.1.0 in
    let t =
      turn w current_buffer cs (all_arrivals (ds ∷ windows) rest) s false addresses v series.0 came
        (omega arith) (λ e. omega arith) opened
        (record { for_output = writes.for_output; good = writes.good; takes = omega arith })
        (IsOpen-le w addresses 1 _ (omega arith) net) in
    let ih =
      state_loop-received (ds ∷ windows) fuel current_buffer t.after (appended s bytes) addresses
        rest (t.listens refl)
        (subst (λ n. IsFileSeries n (ds ∷ windows)) (sym t.same_chunk_size) series.1.1) t.left
        t.file (record { for_output = writes.for_output; good = writes.good; takes = omega arith })
        (t.net (length (ds ∷ windows)) net) (omega arith) in
    record {
      end = ih.end;
      acks = t.packet ∷ ih.acks;
      returns = t.turns fuel ∙ ih.returns;
      file = ih.file ∙ ap some (appended-appended s bytes (all_bytes (ds ∷ windows)));
      out =
          ih.out ∙ ap (λ ps. ps ++ ih.acks) t.out ∙ append_assoc w.outgoing (t.packet ∷ []) ih.acks;
      says =
          ap₂ ◌∷◌ t.says
            (ih.says ∙ ap₂ (ack_texts (length (ds ∷ windows))) t.same_params t.counter);
      left = ih.left;
      over = ih.over;
    }
