-- ===== src/Session/First.antt =====
-- The two ends of a session that has not begun, and after its first three states.
use udm.Base.{
  ℕ, suc, ◌+◌, ◌*◌, ◌≤◌, ◌<◌, ◌^◌, ◌≡◌, refl, ◌∙◌, none, some, false, List, [], arith, length, ◌-◌,
}
use udm.Wire.{CapsuleHdr, IsHdr, header_space}
use udm.World.{World, Address, Arrival, SockAddr, DataSource}
use udm.World.Laws.{put_self, put_ne}
use udm.Factory.Load.{at_chunk, IsReading}
use udm.Presentation.Written.{IsWriting}
use udm.Session.Peers.Told.{bytes_of}
use udm.Session.Processor.{win_siz}
use udm.Session.Hearing.{stripped}
use udm.Session.Connections.{params_for-IsPayloadParams, params_for-IsControlParams}
use udm.Session.Shaken.{IsNew, IsPeers, stripped-bounds, sender_shaken, receiver_shaken}
use udm.Session.Begun.{begun, sender_shaken-IsConns, receiver_shaken-IsConns}
use udm.Session.Ends.{IsSender, IsReceiver}

-- A sender that has not begun, with the file `s` to read in chunks of `n` bytes: `j` windows of full
-- chunks, `k` full chunks more, and a last one of `e` bytes. `theirs` are the receiver's addresses.
pub record IsFirst (w : World) (s : DataSource) (n : ℕ) (theirs : List Address) (j k e : ℕ)
    : Type 0 where
  pub new : IsNew (at_chunk w s n)
  pub reading : IsReading s n
  pub size :
      s.file_size ≡ s.pos + (j * (win_siz * (n - header_space)) + (k * (n - header_space) + e))
  pub some_left : 0 < e
  pub less : e < n - header_space
  pub narrow : k < win_siz
  pub no_wrap : w.session.capsule_id + suc (j * win_siz + suc k) ≤ 2 ^ 16
  pub turns : w.addr_index + (j * win_siz + suc k) < 2 ^ 31
  pub room : header_space + length (bytes_of theirs) ≤ w.rx_factory.chunk_size
  pub peers : IsPeers theirs

-- A receiver that has not begun, with the file `t` to write, on whose device there is room for `size`
-- bytes more, and which takes chunks of `n` bytes. `theirs` are the sender's addresses.
pub record IsSecond (v : World) (t : DataSource) (n : ℕ) (theirs : List Address) (j size : ℕ)
    : Type 0 where
  pub new : IsNew v
  pub no_entries : v.window ≡ []
  pub more : v.rx_factory.fin ≡ false
  pub opened : v.rx_factory.source_data ≡ some t
  pub writes : IsWriting t size
  pub wide : n ≤ v.rx_factory.chunk_size
  pub turns : v.addr_index + suc (suc j) < 2 ^ 31
  pub peers : IsPeers theirs

-- What the first three states leave is what `transfer` starts from.
pub shaken-IsSender :
    (w : World) (s : DataSource) (n : ℕ) (theirs : List Address) (j k e : ℕ) (h g : CapsuleHdr)
    (from : SockAddr) (rest : List Arrival)
    → IsFirst w s n theirs j k e
    → IsHdr h
    → IsHdr g
    → g.cap_win_siz ≡ win_siz
    → let w' = sender_shaken (begun (at_chunk w s n) rest) h g theirs from [] in
      IsSender w' s n (stripped w theirs).addresses j k e
shaken-IsSender w s n theirs j k e h g from rest v u u' size =
    let b = begun (at_chunk w s n) rest in
    let w' = sender_shaken b h g theirs from [] in
    let bounds = stripped-bounds w theirs v.peers in
    let no_wrap = v.no_wrap in
    let room = v.room in
    record {
      reading = v.reading;
      size = v.size;
      some_left = v.some_left;
      less = v.less;
      narrow = v.narrow;
      net = record {
        told = refl;
        some_left = bounds.0;
        within = bounds.1;
        no_wrap = v.turns;
        sent = v.new.sent;
      };
      sending = record { at_closed = refl; window = size; idle = v.new.idle; read = refl };
      params =
          params_for-IsPayloadParams w'
            (sender_shaken-IsConns b h g theirs from [] u u' v.new.conns);
      no_wrap = omega arith;
      room = omega arith;
    }

pub shaken-IsReceiver :
    (v : World) (t : DataSource) (n : ℕ) (theirs : List Address) (j size : ℕ) (h : CapsuleHdr)
    (from : SockAddr) (rest : List Arrival)
    → IsSecond v t n theirs j size
    → IsHdr h
    → let v' = receiver_shaken (begun v rest) h theirs from [] in
      IsReceiver v' v.fresh t n (stripped v theirs).addresses j size
shaken-IsReceiver v t n theirs j size h from rest a u =
    let b = begun v rest in
    let v' = receiver_shaken b h theirs from [] in
    let bounds = stripped-bounds v theirs a.peers in
    let turns = a.turns in
    let telling = a.new.telling in
    let fits = telling.fits in
    record {
      listening = record {
        at_closed = refl;
        window_size = refl;
        idle = a.new.idle;
        no_entries = a.no_entries;
        more = a.more;
        apart = record { older = omega arith; queue = tt };
        size = 0;
        no_capsule =
            put_ne _ (suc (suc (suc v.fresh))) v.fresh none (λ q. omega (arith, q))
            ∙ put_ne _ (suc (suc v.fresh)) v.fresh none (λ q. omega (arith, q))
            ∙ put_ne _ (suc v.fresh) v.fresh none (λ q. omega (arith, q))
            ∙ put_self v.mem v.fresh _;
        room = omega arith;
      };
      opened = a.opened;
      writes = a.writes;
      net = record {
        told = refl;
        some_left = bounds.0;
        within = bounds.1;
        no_wrap = omega arith;
        sent = a.new.sent;
      };
      params =
          params_for-IsControlParams v' (receiver_shaken-IsConns b h theirs from [] u a.new.conns);
      wide = a.wide;
    }
