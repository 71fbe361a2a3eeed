-- ===== src/Session/Together.antt =====
-- A whole session step by step: the two ends from the first message on.
use udm.Base.{ℕ, ◌≡◌, refl, true, [], ◌∷◌, ◌++◌, arith, ◌-◌, drop}
use udm.Wire.{CapsuleHdr, IsHdr, StateCode, tx, rx, encode}
use udm.World.{World, ok, SockAddr, DataSource, Packet}
use udm.Factory.Load.{at_chunk}
use udm.Gateway.Send.{destination}
use udm.Session.Peers.Told.{bytes_of}
use udm.Session.States.{step}
use udm.Session.Hello.{hello_header, hello_said, open_state-rx}
use udm.Session.Greeting.{hi_header, hi_said, setup_state-tx}
use udm.Session.Answering.{ack_header, connected_state-rx}
use udm.Session.Hearing.{
  stripped, hello_heard, hi_heard, open_state-tx, setup_state-rx, connected_state-tx,
}
use udm.Session.Shaken.{IsNew, IsTold, stripped-bounds, sender_shaken, receiver_shaken}
use udm.Session.Begun.{begun, begun-IsNew, hello-IsHdr, hi-IsTold, ack-IsTold}
use udm.Session.First.{IsFirst, IsSecond, shaken-IsSender, shaken-IsReceiver}
use udm.Session.Capsules.{delivered}
use udm.Session.Loop.{is_over-at}
use udm.Session.Steps.{came, sends-at, sends-silent, receives-at, receives-silent}
use udm.Session.Steps.{IsExchanged}
use udm.Session.Exchange.{exchange}

module _ (w v : World) (s t : DataSource) (n : ℕ) (here there : SockAddr) (j k e : ℕ)
    (a : IsFirst w s n v.gateway.address_list j k e)
    (b : IsSecond v t n w.gateway.address_list j (s.file_size - s.pos)) where
  abbrev sender : World
  sender = begun (at_chunk w s n) []

  abbrev receiver : World
  receiver = begun v []

  -- The first three messages.
  abbrev hello : CapsuleHdr
  hello = hello_header v

  abbrev hello_packet : Packet
  hello_packet = record { to = v.gateway.peer_addr; bytes = encode hello }

  abbrev hi : CapsuleHdr
  hi = hi_header (hello_heard sender hello there [])

  abbrev hi_packet : Packet
  hi_packet = record { to = there; bytes = encode hi ++ bytes_of w.gateway.address_list }

  abbrev answer : CapsuleHdr
  answer = ack_header (hi_heard (hello_said receiver) hi w.gateway.address_list here [])

  abbrev answer_packet : Packet
  answer_packet = record {
    to =
        destination (hi_heard (hello_said receiver) hi w.gateway.address_list here [])
          (stripped v w.gateway.address_list).addresses;
    bytes = encode answer ++ bytes_of v.gateway.address_list;
  }

  sender-IsNew : IsNew sender
  sender-IsNew = begun-IsNew (at_chunk w s n) [] a.new

  receiver-IsNew : IsNew receiver
  receiver-IsNew = begun-IsNew v [] b.new

  hello_valid : IsHdr hello
  hello_valid = hello-IsHdr v b.new.conns

  hi_fits : IsTold v.rx_factory.chunk_size hi w.gateway.address_list
  hi_fits = hi-IsTold sender hello there v.rx_factory.chunk_size sender-IsNew hello_valid b.wide

  answer_fits : IsTold w.rx_factory.chunk_size answer v.gateway.address_list
  answer_fits =
      ack-IsTold receiver hi w.gateway.address_list here [] w.rx_factory.chunk_size receiver-IsNew
        hi_fits.valid a.room

  -- The worlds on the way.
  abbrev sender_knows : World
  sender_knows = hello_heard sender hello there []

  abbrev receiver_knows : World
  receiver_knows = hi_heard (hello_said receiver) hi w.gateway.address_list here []

  abbrev sender_greeted : World
  sender_greeted = sender_shaken sender hello answer v.gateway.address_list there []

  abbrev receiver_greeted : World
  receiver_greeted = receiver_shaken receiver hi w.gateway.address_list here []

  hello_says : step rx v.fresh StateCode.open_state receiver ≡ ok tt (hello_said receiver)
  unfolding step
  hello_says =
      let fits = b.new.telling.fits in
      open_state-rx v.fresh receiver b.new.idle_tx (omega arith) b.new.untold (b.new.sent _)

  hello_comes :
      step tx w.fresh StateCode.open_state (came (delivered there (hello_packet ∷ []) []) sender)
      ≡ ok tt sender_knows
  unfolding step
  hello_comes =
      let fits = answer_fits.fits in
      open_state-tx w.fresh (came (delivered there (hello_packet ∷ []) []) sender) hello there []
        refl hello_valid (omega arith) a.new.empty

  hi_says : step tx w.fresh StateCode.setup sender_knows ≡ ok tt (hi_said sender_knows)
  unfolding step
  hi_says =
      let x = a.new.telling in
      setup_state-tx w.fresh sender_knows a.new.idle_tx
        (record {
          whole = x.whole;
          counted = x.counted;
          succeeds = x.succeeds;
          fits = x.fits;
          small = x.small;
        })
        a.new.untold (a.new.sent _)

  hi_comes :
      step rx v.fresh StateCode.setup
        (came (delivered here (hi_packet ∷ []) []) (hello_said receiver))
      ≡ ok tt receiver_knows
  unfolding step
  hi_comes =
      setup_state-rx v.fresh (came (delivered here (hi_packet ∷ []) []) (hello_said receiver)) hi
        w.gateway.address_list here true [] refl hi_fits.valid hi_fits.fits hi_fits.kind b.new.empty
        b.peers.whole hi_fits.counted

  answer_says : step rx v.fresh StateCode.connected receiver_knows ≡ ok tt receiver_greeted
  unfolding step
  answer_says =
      let x = b.new.telling in
      let turns = b.turns in
      let bounds = stripped-bounds v w.gateway.address_list b.peers in
      connected_state-rx v.fresh receiver_knows (stripped v w.gateway.address_list).addresses refl
        (record {
          whole = x.whole;
          counted = x.counted;
          succeeds = x.succeeds;
          fits = x.fits;
          small = x.small;
        })
        (record { told = refl; some_left = bounds.0; within = bounds.1; no_wrap = omega arith })
        (b.new.sent _)

  answer_comes :
      step tx w.fresh StateCode.connected
        (came (delivered there (answer_packet ∷ []) []) (hi_said sender_knows))
      ≡ ok tt sender_greeted
  unfolding step
  answer_comes =
      connected_state-tx w.fresh
        (came (delivered there (answer_packet ∷ []) []) (hi_said sender_knows)) answer
        v.gateway.address_list there true [] refl answer_fits.valid answer_fits.fits
        answer_fits.kind refl a.peers.whole answer_fits.counted

  file_goes :
      IsExchanged here there w.fresh v.fresh sender_greeted receiver_greeted t
        (drop s.pos s.content)
  file_goes =
      exchange n here there w.fresh v.fresh (stripped w v.gateway.address_list).addresses
        (stripped v w.gateway.address_list).addresses k e j sender_greeted receiver_greeted s t
        (shaken-IsSender w s n v.gateway.address_list j k e hello answer there [] a hello_valid
          answer_fits.valid refl)
        (shaken-IsReceiver v t n w.gateway.address_list j (s.file_size - s.pos) hi here [] b
          hi_fits.valid)
        refl refl

  -- Take a sender and a receiver that have not begun, on networks that take all capsules and machines
  -- whose `ioctl` does not fail: each lists its interfaces, of which one at most has the loopback address and some have another, and the lists fit
  -- the chunks of both; the sender's file ends with a chunk that is not full, its identifiers do not wrap,
  -- nor do the counters of addresses; the receiver takes chunks of the sender's size, has an empty window
  -- and no `fin` set, and its device has room for what is left of the file. Let the two ends run by turns, where a
  -- state of one end runs to its end and what it has sent then comes in at the other, in order. From the first message on, with nothing
  -- to come at first, there are steps that end the loops of both, in which no state waits for what is yet
  -- to be sent: the receiver has put all that was left of the sender's file at the end of its own, and all
  -- that was sent has been taken.
  pub together :
      IsExchanged here there w.fresh v.fresh
        (begun (at_chunk w s n) [])
        (begun v [])
        t
        (drop s.pos s.content)
  together =
      let g = file_goes in
      record {
        sent = g.sent;
        got = g.got;
        steps =
            receives-at StateCode.open_state (hello_packet ∷ []) b.new.at_open
              (is_over-at receiver StateCode.open_state b.new.at_open refl) hello_says refl
              (sends-silent StateCode.open_state a.new.at_open
                (is_over-at (came (delivered there (hello_packet ∷ []) []) sender)
                  StateCode.open_state a.new.at_open refl)
                hello_comes refl
                (sends-at StateCode.setup (hi_packet ∷ []) refl refl hi_says refl (
                  receives-silent StateCode.setup refl refl hi_comes refl (
                    receives-at StateCode.connected (answer_packet ∷ []) refl b.new.unfinished
                      answer_says refl
                      (sends-silent StateCode.connected refl a.new.unfinished answer_comes refl
                        g.steps)))));
        sender_over = g.sender_over;
        receiver_over = g.receiver_over;
        file = g.file;
        sender_read = g.sender_read;
        receiver_read = g.receiver_read;
      }
