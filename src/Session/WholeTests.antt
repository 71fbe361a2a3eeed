-- ===== src/Session/WholeTests.antt =====
-- A test of a whole session.
use udm.Base.{refl, [], arith, drop, some}
use udm.Wire.{tx, rx}
use udm.World.{World}
use udm.Factory.Load.{at_chunk}
use udm.Samples.{world, small, input, output, other, nobody}
use udm.Session.Peers.{is_localhost}
use udm.Session.States.{start}
use udm.Session.FileTests.{two_hundred-IsReading}
use udm.Session.Shaken.{IsPeers, IsNew}
use udm.Session.Ends.{IsTransferred}
use udm.Session.First.{IsFirst, IsSecond}
use udm.Session.Whole.{session}
use udm.Session.Begun.{begun}
use udm.Session.Steps.{IsExchanged}
use udm.Session.Together.{together}

-- A receiver with a file to write, and a sender, both before the first message.
abbrev receiver : World
receiver = world small (record small { source_data = some output }) []

abbrev sender : World
sender = world small small []

two-IsPeers : IsPeers sender.gateway.address_list
unfolding is_localhost
two-IsPeers = record {
  whole = (refl, (refl, tt));
  few = omega arith;
  some_other = omega arith;
  small = omega arith;
}

receiver-IsNew : IsNew receiver
receiver-IsNew = record {
  at_open = refl;
  unfinished = refl;
  idle = refl;
  empty = refl;
  idle_tx = refl;
  telling = record {
    whole = (refl, (refl, tt));
    counted = refl;
    succeeds = λ room. refl;
    fits = omega arith;
    small = omega arith;
  };
  untold = refl;
  sent = λ i. refl;
  conns = λ k. record { id_lt = omega arith; src_lt = omega arith; dst_lt = omega arith };
}

sender-IsNew : IsNew (at_chunk sender (input 200) 50)
sender-IsNew = record {
  at_open = refl;
  unfinished = refl;
  idle = refl;
  empty = refl;
  idle_tx = refl;
  telling = record {
    whole = (refl, (refl, tt));
    counted = refl;
    succeeds = λ room. refl;
    fits = omega arith;
    small = omega arith;
  };
  untold = refl;
  sent = λ i. refl;
  conns = λ k. record { id_lt = omega arith; src_lt = omega arith; dst_lt = omega arith };
}

sender-IsFirst : IsFirst sender (input 200) 50 receiver.gateway.address_list 1 0 20
sender-IsFirst = record {
  new = sender-IsNew;
  reading = two_hundred-IsReading;
  size = refl;
  some_left = omega arith;
  less = omega arith;
  narrow = omega arith;
  no_wrap = omega arith;
  turns = omega arith;
  room = omega arith;
  peers = two-IsPeers;
}

receiver-IsSecond : IsSecond receiver output 50 sender.gateway.address_list 1 200
receiver-IsSecond = record {
  new = receiver-IsNew;
  no_entries = refl;
  more = refl;
  opened = refl;
  writes = record { for_output = refl; good = refl; takes = omega arith };
  wide = omega arith;
  turns = omega arith;
  peers = two-IsPeers;
}

session_example :
    IsTransferred tt sender receiver
      (λ xs. start 7 tx (record (at_chunk sender (input 200) 50) { incoming = xs }))
      (λ xs. start 7 rx (record receiver { incoming = xs }))
      output
      nobody
      other
      (drop 0 (input 200).content)
      []
      []
session_example =
    session sender receiver (input 200) output 50 4 nobody other 1 0 20 [] [] sender-IsFirst
      receiver-IsSecond (omega arith)

together_example :
    IsExchanged nobody other 1 1
      (begun (at_chunk sender (input 200) 50) [])
      (begun receiver [])
      output
      (drop 0 (input 200).content)
together_example =
    together sender receiver (input 200) output 50 nobody other 1 0 20 sender-IsFirst
      receiver-IsSecond
