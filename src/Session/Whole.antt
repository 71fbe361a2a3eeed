-- ===== src/Session/Whole.antt =====
-- A whole session: `Session::start` at both ends, from the first message to the end of the file.
use udm.Base.{
  ℕ, suc, ◌*◌, ◌≤◌, refl, ◌∙◌, none, List, [], ◌∷◌, ◌++◌, arith, ◌-◌, drop, append_assoc,
}
use udm.Wire.{CapsuleHdr, IsHdr, tx, rx, encode}
use udm.World.{World, Arrival, SockAddr, DataSource, Packet}
use udm.World.Memory.{put}
use udm.Factory.Load.{at_chunk}
use udm.Gateway.Send.{destination}
use udm.Session.Peers.Told.{bytes_of}
use udm.Session.States.{start, state_loop}
use udm.Session.Hello.{hello_header, hello_said}
use udm.Session.Greeting.{hi_header}
use udm.Session.Answering.{ack_header}
use udm.Session.Hearing.{stripped, hello_heard, hi_heard}
use udm.Session.Shaken.{IsTold, sender_shaken, receiver_shaken, sender_greets, receiver_greets}
use udm.Session.Begun.{begun, start-loop, begun-IsNew, hello-IsHdr, hi-IsTold, ack-IsTold}
use udm.Session.Capsules.{delivered}
use udm.Session.Ends.{IsTransferred}
use udm.Session.First.{IsFirst, IsSecond, shaken-IsSender, shaken-IsReceiver}
use udm.Session.Transfer.{transfer}

module _ (w v : World) (s t : DataSource) (n fuel : ℕ) (here there : SockAddr) (j k e : ℕ)
    (later rest : List Arrival) (a : IsFirst w s n v.gateway.address_list j k e)
    (b : IsSecond v t n w.gateway.address_list j (s.file_size - s.pos))
    (enough : 2 * suc j ≤ fuel) where
  abbrev sender : World
  sender = begun (at_chunk w s n) []

  abbrev receiver : World
  receiver = begun v []

  -- The headers of the first three messages.
  abbrev hello : CapsuleHdr
  hello = hello_header v

  abbrev hi : CapsuleHdr
  hi = hi_header (hello_heard sender hello there [])

  abbrev answer : CapsuleHdr
  answer = ack_header (hi_heard (hello_said receiver) hi w.gateway.address_list here [])

  hello_valid : IsHdr hello
  hello_valid = hello-IsHdr v b.new.conns

  hi_fits : IsTold v.rx_factory.chunk_size hi w.gateway.address_list
  hi_fits =
      hi-IsTold sender hello there v.rx_factory.chunk_size (begun-IsNew (at_chunk w s n) [] a.new)
        hello_valid b.wide

  answer_fits : IsTold w.rx_factory.chunk_size answer v.gateway.address_list
  answer_fits =
      ack-IsTold receiver hi w.gateway.address_list here [] w.rx_factory.chunk_size
        (begun-IsNew v [] b.new) hi_fits.valid a.room

  abbrev sender_greeted : World
  sender_greeted = sender_shaken sender hello answer v.gateway.address_list there []

  abbrev receiver_greeted : World
  receiver_greeted = receiver_shaken receiver hi w.gateway.address_list here []

  file_goes :
      IsTransferred tt sender_greeted receiver_greeted
        (λ xs. state_loop fuel tx w.fresh (at_chunk (record sender_greeted { incoming = xs }) s n))
        (λ xs. state_loop fuel rx v.fresh (record receiver_greeted { incoming = xs }))
        t
        here
        there
        (drop s.pos s.content)
        later
        rest
  file_goes =
      transfer sender_greeted receiver_greeted s t n fuel w.fresh v.fresh here there
        (stripped w v.gateway.address_list).addresses (stripped v w.gateway.address_list).addresses
        j k e later rest
        (shaken-IsSender w s n v.gateway.address_list j k e hello answer there [] a hello_valid
          answer_fits.valid refl)
        (shaken-IsReceiver v t n w.gateway.address_list j (s.file_size - s.pos) hi here [] b
          hi_fits.valid)
        enough

  abbrev hello_packet : Packet
  hello_packet = record { to = v.gateway.peer_addr; bytes = encode hello }

  abbrev hi_packet : Packet
  hi_packet = record { to = there; bytes = encode hi ++ bytes_of w.gateway.address_list }

  abbrev answer_packet : Packet
  answer_packet = record {
    to =
        destination (hi_heard (hello_said receiver) hi w.gateway.address_list here [])
          (stripped v w.gateway.address_list).addresses;
    bytes = encode answer ++ bytes_of v.gateway.address_list;
  }

  -- Take a sender and a receiver that have not begun, on networks that take all capsules and machines
  -- whose `ioctl` does not fail: each lists its interfaces, of which one at most has the loopback address and some have another, and the lists fit
  -- the chunks of both; the sender's file ends with a chunk that is not full, its identifiers do not wrap,
  -- nor do the counters of addresses; the receiver takes chunks of the sender's size, has an empty window
  -- and no `fin` set, and its device has room for what is left of the file. With fuel for three states and two
  -- more a window there are datagrams such that `start` of the sender, to which the receiver's come in, in
  -- order, returns and sends `packets`, and `start` of the receiver, to which these come in, returns and
  -- sends `acks`, each with its loop at its own end. The receiver has put all that was left of the sender's
  -- file at the end of its own, and both leave later datagrams to come.
  pub session :
      IsTransferred tt w v
        (λ xs. start (suc (suc (suc fuel))) tx (record (at_chunk w s n) { incoming = xs }))
        (λ xs. start (suc (suc (suc fuel))) rx (record v { incoming = xs }))
        t
        here
        there
        (drop s.pos s.content)
        later
        rest
  session =
      let g = file_goes in
      let packets = hi_packet ∷ g.packets in
      let acks = hello_packet ∷ answer_packet ∷ g.acks in
      let no_wrap = b.turns in
      record {
        packets = packets;
        acks = acks;
        sent = record g.sent { mem = put g.sent.mem w.fresh none };
        got = record g.got { mem = put g.got.mem v.fresh none };
        sender_ends =
            start-loop (suc (suc (suc fuel))) tx (at_chunk w s n) g.sent
              (delivered there acks later) a.new.at_open
              (sender_greets fuel w.fresh (begun (at_chunk w s n) (delivered there acks later))
                  hello answer v.gateway.address_list there (delivered there g.acks later)
                  (begun-IsNew (at_chunk w s n) _ a.new) refl hello_valid answer_fits a.peers.whole
                ∙ g.sender_ends);
        receiver_ends =
            start-loop (suc (suc (suc fuel))) rx v g.got (delivered here packets rest) b.new.at_open
              (receiver_greets fuel v.fresh (begun v (delivered here packets rest)) hi
                  w.gateway.address_list here (delivered here g.packets rest)
                  (begun-IsNew v _ b.new) refl hi_fits b.peers (omega arith)
                ∙ g.receiver_ends);
        sender_out = g.sender_out ∙ append_assoc w.outgoing (hi_packet ∷ []) g.packets;
        receiver_out =
            g.receiver_out
            ∙ append_assoc (v.outgoing ++ hello_packet ∷ []) (answer_packet ∷ []) g.acks
            ∙ append_assoc v.outgoing (hello_packet ∷ []) (answer_packet ∷ g.acks);
        sender_over = g.sender_over;
        receiver_over = g.receiver_over;
        file = g.file;
        sender_left = g.sender_left;
        receiver_left = g.receiver_left;
      }
