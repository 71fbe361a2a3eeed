-- ===== src/Samples.antt =====
-- Small worlds on which the tests run the code.
use udm.Base.{
  ℕ, zero, suc, ◌%◌, ◌/◌, ◌*◌, refl, none, some, true, false, List, [], ◌∷◌, ◌++◌, length,
  replicate, arith, ◌+◌, ◌==◌, if◌then◌else◌,
}
use udm.Wire.{StateCode, in_mode, out_mode, encode, CapsuleHdr, zero_hdr, payld}
use udm.World.{World, DataSource, DataFactory, Session, Env, Arrival, datagram, AddrInfo, SockAddr}
use udm.Session.Peers.{localhost}
use udm.Setup.Opening.{mem}
use udm.Gateway.Send.{IsRouted}
use udm.Factory.Load.{IsReading}

abbrev pub nobody : SockAddr
nobody = record { s_addr = 0; port = 0 }

abbrev pub other : SockAddr
other = record { s_addr = 9; port = 77 }

abbrev pub bytes_from : ℕ → ℕ → List ℕ
bytes_from zero i = []
bytes_from (suc n) i = (i % 256) ∷ bytes_from n (suc i)

abbrev pub lo_address : List ℕ
lo_address = localhost ++ replicate 5 0

abbrev pub eth_address : List ℕ
eth_address = replicate 14 b'7' ++ 0 ∷ []

abbrev pub inet : AddrInfo
inet = record { family = 2; socktype = 2; protocol = 0; addr = other }

-- A family that the machine has no sockets for.
abbrev pub inet6 : AddrInfo
inet6 = record { family = 10; socktype = 2; protocol = 0; addr = other }

abbrev pub machine : Env
machine = record {
  send_fails = λ n. false;
  inet_addr = λ a. length a;
  junk = 238;
  past_end = [];
  socket = λ n a. if a.family == 2 then some (n + 3) else none;
  bind = λ open_fds fd a. mem fd open_fds;
  get_addr_info = λ host service. some (inet6, inet ∷ []);
  interfaces = (b'1' ∷ b'0' ∷ []) ∷ (b'2' ∷ []) ∷ [];
  ioctl_fails = λ room. false;
  null_ifc_buf = true;
  heap_room = λ n. (n + 7) / 16 * 16 + 8;
  files = λ name. some (1 ∷ 2 ∷ 3 ∷ []);
  can_open = λ name. true;
  can_create = λ name. true;
  device_room = 1000;
}

abbrev pub input : ℕ → DataSource
input n = record {
  fmode = in_mode;
  file_size = n;
  content = bytes_from n 1;
  pos = 0;
  gcount = 0;
  room = 0;
  bad = false;
}

abbrev pub output : DataSource
output = record {
  fmode = out_mode;
  file_size = 0;
  content = [];
  pos = 0;
  gcount = 0;
  room = 1000;
  bad = false;
}

abbrev pub fresh_session : Session
fresh_session = record {
  connections = λ k. record { id = 0; src = 0; dst = 0; status = 0 };
  connection_count = 0;
  next = StateCode.open_state;
  complete = false;
  done = false;
  win_size = 0;
  capsule_id = 0;
  tasks = [];
}

abbrev pub world : DataFactory → DataFactory → List Arrival → World
world t r arrivals = record {
  env = machine;
  mem = λ r. none;
  fresh = 1;
  tx_factory = t;
  rx_factory = r;
  window = [];
  session = fresh_session;
  gateway = record {
    infc = 2;
    indx = 0;
    address_list = lo_address ∷ eth_address ∷ [];
    peer_address_list = none;
    peer_address_count = 0;
    peer_addr = nobody;
  };
  incoming = arrivals;
  outgoing = [];
  sends = 0;
  prev_srcid = 0;
  prev_dstid = 0;
  prev_connid = 0;
  hdrid = 0;
  addr_index = 0;
  sockets = record { opened = []; calls = 0; bound = []; sfd = none };
  overrun = 0;
}

abbrev pub small : DataFactory
small = record {
  buffer = [];
  fin = false;
  alloc_size = 0;
  cur_size = 0;
  cur_pos = 0;
  cur_write_pos = 0;
  chunk_size = 50;
  source_data = none;
}

abbrev pub hello : CapsuleHdr
hello = record zero_hdr { cap_type = payld }

abbrev pub ack : CapsuleHdr
ack = record zero_hdr { cap_win_siz = 5; cap_size = 30 }

abbrev pub okay : CapsuleHdr
okay = record zero_hdr { cap_win_siz = 5 }

abbrev pub hears : List Arrival
hears =
    datagram (encode hello) other true
    ∷ datagram (encode ack ++ lo_address ++ eth_address) other true
    ∷ datagram (encode okay) other true
    ∷ []

-- A world whose peer has told one address, and which is to send a file of `n` bytes.
abbrev pub told : World
told = record (world small small []) {
  gateway = record (world small small []).gateway {
    peer_address_list = some (eth_address ∷ []);
    peer_address_count = 1;
  };
}

-- A world that awaits the second message of the sender.
abbrev pub hearing : World
hearing = world small small (datagram (encode ack ++ 1 ∷ 2 ∷ 3 ∷ []) other true ∷ [])

pub input-IsReading : IsReading (input 50) 50
input-IsReading = record {
  for_input = refl;
  good = refl;
  whole = refl;
  small = omega arith;
  read_part = omega arith;
  count_fits = omega arith;
  chunk_gt = omega arith;
  chunk_fits = omega arith;
}

pub told-IsRouted : IsRouted told (eth_address ∷ [])
told-IsRouted = record {
  told = refl;
  some_left = omega arith;
  within = omega arith;
  no_wrap = omega arith;
}
