-- ===== src/Session/Begun.antt =====
-- `Session::start` of a session that has not begun, and what the first three states leave.
use udm.Base.{
  ℕ, suc, ◌+◌, ◌*◌, ◌≤◌, ◌<◌, ◌^◌, ◌≡◌, refl, none, some, List, [], arith, length, has_bits,
}
use udm.Wire.{CapsuleHdr, IsHdr, StateCode, StateDirection, header_space, ctrl, payld, zero_hdr}
use udm.World.{World, ok, Address, Arrival, SockAddr}
use udm.World.Memory.{put}
use udm.Session.Peers.{addr_len}
use udm.Session.Peers.Told.{bytes_of}
use udm.Session.Processor.{win_siz}
use udm.Session.States.{start, state_loop}
use udm.Session.Hello.{hello_header, hello_said, connected_once}
use udm.Session.Greeting.{hi_header, told_size-bytes_of}
use udm.Session.Answering.{ack_header, identified}
use udm.Session.Hearing.{hello_heard, hi_heard}
use udm.Session.Connections.{IsConns, set-IsConns, params_for-IsHdr}
use udm.Session.Shaken.{IsNew, IsTold, sender_shaken, receiver_shaken}

-- The world in which the loop of `start` begins: the buffer of `start` has no capsule.
abbrev pub begun : World → List Arrival → World
begun w xs = record w {
  mem = put w.mem w.fresh (some (record { size = 0; cap = none }));
  fresh = suc w.fresh;
  incoming = xs;
}

pub start-loop :
    (fuel : ℕ) (d : StateDirection) (w end : World) (xs : List Arrival)
    → w.session.next ≡ StateCode.open_state
    → state_loop fuel d w.fresh (begun w xs) ≡ ok tt end
    → start fuel d (record w { incoming = xs })
      ≡ ok tt (record end { mem = put end.mem w.fresh none })
unfolding start
start-loop fuel d w end xs at_open e = simp (at_open, start) (rw e)

pub begun-IsNew : (w : World) (xs : List Arrival) → IsNew w → IsNew (begun w xs)
begun-IsNew w xs v =
    let t = v.telling in
    record {
      at_open = v.at_open;
      unfinished = v.unfinished;
      idle = v.idle;
      empty = v.empty;
      idle_tx = v.idle_tx;
      telling = record {
        whole = t.whole;
        counted = t.counted;
        succeeds = t.succeeds;
        fits = t.fits;
        small = t.small;
      };
      untold = v.untold;
      sent = v.sent;
      conns = v.conns;
    }

-- The tables of connections on the way.
connected_once-IsConns :
    (w : World) → IsConns w.session.connections → IsConns (connected_once w).session.connections
connected_once-IsConns w v =
    set-IsConns w.session.connections w.session.connection_count _ v
      (record { id_lt = omega arith; src_lt = omega arith; dst_lt = omega arith })

sized-IsHdr :
    (size win : ℕ)
    → size < 2 ^ 16
    → win < 2 ^ 4
    → IsHdr (record zero_hdr { cap_size = size; cap_win_siz = win })
sized-IsHdr size win a b = record {
  srcid_lt = omega arith;
  destid_lt = omega arith;
  connid_lt = omega arith;
  capid_lt = omega arith;
  cap_size_lt = a;
  cap_type_lt = omega arith;
  cap_priority_lt = omega arith;
  cap_win_siz_lt = b;
  cap_flags_lt = omega arith;
  capopts_lt = omega arith;
}

pub hello-IsHdr : (w : World) → IsConns w.session.connections → IsHdr (hello_header w)
hello-IsHdr w v =
    params_for-IsHdr zero_hdr payld (connected_once w) w.session.capsule_id
      (sized-IsHdr 0 0 (omega arith) (omega arith)) (connected_once-IsConns w v) (omega arith)

hello_heard-IsConns :
    (w : World) (h : CapsuleHdr) (from : SockAddr) (rest : List Arrival)
    → IsHdr h
    → IsConns w.session.connections
    → IsConns (hello_heard w h from rest).session.connections
hello_heard-IsConns w h from rest u v =
    let w' = connected_once w in
    let v' = connected_once-IsConns w v in
    let c = v' w'.session.connection_count in
    set-IsConns w'.session.connections w'.session.connection_count _ v'
      (record { id_lt = c.id_lt; src_lt = c.src_lt; dst_lt = u.srcid_lt })

pub sender_shaken-IsConns :
    (w : World) (h g : CapsuleHdr) (addresses : List Address) (from : SockAddr)
    (rest : List Arrival)
    → IsHdr h
    → IsHdr g
    → IsConns w.session.connections
    → IsConns (sender_shaken w h g addresses from rest).session.connections
sender_shaken-IsConns w h g addresses from rest u u' v =
    let w' = hello_heard w h from [] in
    let v' = hello_heard-IsConns w h from [] u v in
    let c = v' w'.session.connection_count in
    set-IsConns w'.session.connections w'.session.connection_count _ v'
      (record { id_lt = u'.connid_lt; src_lt = c.src_lt; dst_lt = c.dst_lt })

hi_heard-IsConns :
    (w : World) (h : CapsuleHdr) (addresses : List Address) (from : SockAddr) (rest : List Arrival)
    → IsHdr h
    → IsConns w.session.connections
    → IsConns (hi_heard (hello_said w) h addresses from rest).session.connections
hi_heard-IsConns w h addresses from rest u v =
    let w' = connected_once w in
    let v' = connected_once-IsConns w v in
    let c = v' w'.session.connection_count in
    set-IsConns w'.session.connections w'.session.connection_count _ v'
      (record { id_lt = c.id_lt; src_lt = c.src_lt; dst_lt = u.srcid_lt })

pub receiver_shaken-IsConns :
    (w : World) (h : CapsuleHdr) (addresses : List Address) (from : SockAddr) (rest : List Arrival)
    → IsHdr h
    → IsConns w.session.connections
    → IsConns (receiver_shaken w h addresses from rest).session.connections
receiver_shaken-IsConns w h addresses from rest u v =
    let w' = hi_heard (hello_said w) h addresses from rest in
    let v' = hi_heard-IsConns w h addresses from rest u v in
    let c = v' w'.session.connection_count in
    set-IsConns w'.session.connections w'.session.connection_count _ v'
      (record { id_lt = omega arith; src_lt = c.src_lt; dst_lt = c.dst_lt })

-- The second and the third message tell addresses.
pub hi-IsTold :
    (w : World) (h : CapsuleHdr) (from : SockAddr) (size : ℕ)
    → IsNew w
    → IsHdr h
    → w.tx_factory.chunk_size ≤ size
    → IsTold size (hi_header (hello_heard w h from [])) w.gateway.address_list
unfolding has_bits
hi-IsTold w h from size v u le =
    let t = v.telling in
    let fits = t.fits in
    let bytes = told_size-bytes_of w.gateway.address_list t.whole in
    let w' = hello_heard w h from [] in
    record {
      valid =
          params_for-IsHdr (record zero_hdr { cap_size = addr_len * length w.gateway.address_list })
            ctrl w' w.session.capsule_id (sized-IsHdr _ 0 t.small (omega arith))
            (hello_heard-IsConns w h from [] u v.conns) (omega arith);
      fits = omega arith;
      kind = refl;
      counted = refl;
    }

pub ack-IsTold :
    (w : World) (h : CapsuleHdr) (addresses : List Address) (from : SockAddr) (rest : List Arrival)
    (size : ℕ)
    → IsNew w
    → IsHdr h
    → header_space + length (bytes_of w.gateway.address_list) ≤ size
    → IsTold size
        (ack_header (hi_heard (hello_said w) h addresses from rest))
        w.gateway.address_list
unfolding has_bits
ack-IsTold w h addresses from rest size v u le =
    let t = v.telling in
    let w' = identified (hi_heard (hello_said w) h addresses from rest) in
    record {
      valid =
          params_for-IsHdr
            (record zero_hdr {
              cap_size = addr_len * length w.gateway.address_list;
              cap_win_siz = win_siz;
            })
            ctrl w' w'.session.capsule_id (sized-IsHdr _ win_siz t.small (omega arith))
            (receiver_shaken-IsConns w h addresses from rest u v.conns) (omega arith);
      fits = le;
      kind = refl;
      counted = refl;
    }
