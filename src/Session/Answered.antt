-- ===== src/Session/Answered.antt =====
-- A window that has come in at the receiver is answered, and the answer comes in at the sender.
use udm.Base.{
  ℕ, ◌+◌, ◌-◌, ◌*◌, ◌≤◌, ◌≡◌, Bool, refl, ap, sym, ◌∙◌, true, List, [], ◌∷◌, ◌++◌, arith, length,
  drop, length-drop, length-append, append-nil,
}
use udm.Wire.{header_space, StateCode, tx, payld, ctrl, encode}
use udm.World.{World, ok, DataSource, Address, Packet, Ref, SockAddr, datagram}
use udm.Factory.Load.{IsReading}
use udm.Presentation.Written.{window_bytes}
use udm.Session.States.{params_for, step}
use udm.Session.Windows.{after_chunks, after_chunks-pos}
use udm.Session.Received.{payloads_of}
use udm.Session.Ack.{acked, done_state-acked}
use udm.Session.Capsules.{delivered, capsules, capsules-rest}
use udm.Session.Acks.{IsControlParams, ack_of, ack_capsules-AllAcks}
use udm.Session.Turn.{IsTurn}
use udm.Session.Loop.{is_over-at}
use udm.Session.Steps.{came, Steps, receives-at, receives-silent, sends-silent}

-- The acknowledgement that has come in ends the state of the sender.
ack_heard :
    (r : Ref) (w v : World) (p : Packet) (there : SockAddr)
    → w.incoming ≡ []
    → w.rx_factory.buffer ≡ []
    → header_space ≤ w.rx_factory.chunk_size
    → IsControlParams (params_for ctrl v)
    → p.bytes ≡ encode (ack_of (params_for ctrl v) v.session.capsule_id)
    → step tx r StateCode.done (came (delivered there (p ∷ []) []) w)
      ≡ ok tt (acked w w.tx_factory.fin there [])
unfolding step
ack_heard r w v p there read empty room params says =
    let i = v.session.capsule_id in
    let h = ack_of (params_for ctrl v) i in
    let a =
      (ack_capsules-AllAcks w.rx_factory.chunk_size 1 (params_for ctrl v) i there params room).0 in
    done_state-acked r (came (delivered there (p ∷ []) []) w) h [] there true []
      (ap (λ xs. xs ++ datagram p.bytes there true ∷ []) read
        ∙ ap (λ bs. datagram bs there true ∷ []) (says ∙ sym (append-nil (encode h))))
      a.valid a.fits a.kind empty

-- The receiver takes a window that has come in, and the sender its acknowledgement.
pub answer-Steps :
    {here there : SockAddr} {r q : Ref} {w v x y : World} {t : DataSource} {bytes : List ℕ}
    {last : Bool} {told : List Address} (g : IsTurn v q t bytes [] last told)
    → v.session.next ≡ StateCode.closed
    → w.session.next ≡ StateCode.done
    → w.incoming ≡ []
    → w.rx_factory.buffer ≡ []
    → header_space ≤ w.rx_factory.chunk_size
    → IsControlParams (params_for ctrl v)
    → Steps here there r q (acked w w.tx_factory.fin there []) g.after x y
    → Steps here there r q w v x y
answer-Steps {there = there} {r = r} {w = w} {v = v} g at_closed at_done read empty room params
      rest =
    receives-silent StateCode.closed at_closed (is_over-at v StateCode.closed at_closed refl)
      g.comes_in g.silent
      (receives-at StateCode.done (g.packet ∷ []) g.then_done
        (is_over-at g.between StateCode.done g.then_done refl) g.is_stored
        (g.out ∙ ap (λ o. o ++ g.packet ∷ []) (sym g.silent))
        (sends-silent StateCode.done at_done
          (is_over-at (came (delivered there (g.packet ∷ []) []) w) StateCode.done at_done refl)
          (ack_heard r w v g.packet there read empty room params g.says) refl rest))

-- Full chunks carry as many bytes as they have room for.
pub length-window_bytes :
    (k : ℕ) (w : World) (i : ℕ) (s : DataSource) (n : ℕ) (here : SockAddr)
    → IsReading s n
    → s.pos + k * (n - header_space) ≤ s.file_size
    → length (window_bytes (payloads_of (capsules k (params_for payld w) i s n here)))
      ≡ k * (n - header_space)
length-window_bytes k w i s n here v whole =
    let b = window_bytes (payloads_of (capsules k (params_for payld w) i s n here)) in
    let all = ap length (capsules-rest k (params_for payld w) i s n here) in
    let both = length-append b (drop (after_chunks k s n).pos s.content) in
    let l = length-drop (after_chunks k s n).pos s.content in
    let l' = length-drop s.pos s.content in
    let pos = after_chunks-pos k s n v whole in let size = v.whole in omega arith
