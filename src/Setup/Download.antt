-- ===== src/Setup/Download.antt =====
-- The two programs together: a client that gets the file of a server.
use udm.Base.{
  ℕ, suc, ◌*◌, ◌-◌, ◌/◌, ◌%◌, ◌≤◌, ◌<◌, ◌^◌, ◌≡◌, refl, true, some, List, [], ◌∷◌, length, arith,
}
use udm.Wire.{header_space}
use udm.World.{World, AddrInfo, Arrival, SockAddr}
use udm.Factory
use udm.Session.Processor.{win_siz}
use udm.Session.Ends.{IsTransferred}
use udm.Session.First.{IsFirst, IsSecond}
use udm.Session.Whole.{session}
use udm.Setup.Context.{alloc_chunk, new_session}
use udm.Setup.Programs.{server, client}
use udm.Setup.Server.{IsServing}
use udm.Setup.Running.{
  running, IsHost, addresses_of, addresses_of-IsPeers, addresses_of-fit, running-IsNew,
}
use udm.Setup.Ready.{
  interfaces_of, input_file, output_file, server_ready, client_ready, IsClient, server-starts,
  client-starts,
}

-- What a chunk of the programs takes of a file.
abbrev pub payload_size : ℕ
payload_size = alloc_chunk - header_space

server-IsFirst :
    (w : World) (a : AddrInfo) (fd : ℕ) (bytes : List ℕ) (theirs : World)
    → IsHost w
    → IsHost theirs
    → length bytes < 2 ^ 31
    → 0 < length bytes % payload_size
    → IsFirst
        (running (server_ready a fd bytes w))
        (input_file bytes)
        alloc_chunk
        (addresses_of theirs)
        (length bytes / (win_siz * payload_size))
        (length bytes / payload_size % win_siz)
        (length bytes % payload_size)
unfolding Factory.init new_session
server-IsFirst w a fd bytes theirs host other small uneven =
    let turns = host.turns in
    record {
      new =
          running-IsNew (server_ready a fd bytes w)
            (record {
              interfaces = interfaces_of w _ host.interfaces refl;
              fit = host.fit;
              few = host.few;
              some_other = host.some_other;
              sent = host.sent;
              turns = host.turns;
            })
            refl refl refl;
      reading = record {
        for_input = refl;
        good = refl;
        whole = refl;
        small = small;
        read_part = omega arith;
        count_fits = omega arith;
        chunk_gt = omega arith;
        chunk_fits = omega arith;
      };
      size = omega arith;
      some_left = uneven;
      less = omega arith;
      narrow = omega arith;
      no_wrap = omega arith;
      turns = omega arith;
      room = addresses_of-fit theirs other;
      peers = addresses_of-IsPeers theirs other;
    }

client-IsSecond :
    (w : World) (a : AddrInfo) (fd : ℕ) (theirs : World) (j size : ℕ)
    → IsHost w
    → IsHost theirs
    → w.window ≡ []
    → size ≤ w.env.device_room
    → j < 2 ^ 16
    → IsSecond
        (running (client_ready a fd w))
        (output_file w)
        alloc_chunk
        (addresses_of theirs)
        j
        size
unfolding Factory.init new_session
client-IsSecond w a fd theirs j size host other empty takes small =
    let turns = host.turns in
    record {
      new =
          running-IsNew (client_ready a fd w)
            (record {
              interfaces = interfaces_of w _ host.interfaces refl;
              fit = host.fit;
              few = host.few;
              some_other = host.some_other;
              sent = host.sent;
              turns = host.turns;
            })
            refl refl refl;
      no_entries = empty;
      more = refl;
      opened = refl;
      writes = record { for_output = refl; good = refl; takes = takes };
      wide = omega arith;
      turns = omega arith;
      peers = addresses_of-IsPeers theirs other;
    }

-- Take a server and a client on machines where the unset pointer `ifc_buf` happens to be null, `ioctl` does
-- not fail, the network takes all capsules, and the addresses that `ioctl` lists are IPv4 addresses which fit a chunk, one loopback address at most among them and some other. Both get a socket, the server can
-- bind its, and its file can be opened and holds `bytes`, fewer than 2 ^ 31 and not a multiple of what a chunk takes; the
-- client can make its file, its device has room and its window is empty; the texts of its host and service hold
-- no NUL and lie in heap blocks with padding for one, and the counters of addresses are below 2 ^ 30. With fuel for three states and two more a window
-- there are datagrams such that the server's `main`, to which the client's come in, in order, ends with
-- status 0 and sends `packets`, and the client's `main`, to which these come in, ends with status 0 and
-- sends `acks`. The client's file then holds `bytes`, and both leave later datagrams to come.
pub download :
    (w v : World) (fuel : ℕ) (program service name program' host service' name' bytes : List ℕ)
    (a a' : AddrInfo) (rest rest' : List AddrInfo) (fd fd' : ℕ) (here there : SockAddr)
    (later later' : List Arrival)
    → IsHost w
    → IsHost v
    → IsServing w service a rest fd
    → IsClient v host service' name' a' rest' fd'
    → w.env.files name ≡ some bytes
    → w.env.can_open name ≡ true
    → length bytes < 2 ^ 31
    → 0 < length bytes % payload_size
    → v.window ≡ []
    → length bytes ≤ v.env.device_room
    → 2 * suc (length bytes / (win_siz * payload_size)) ≤ fuel
    → IsTransferred 0 w v
        (λ xs.
          server
            (suc (suc (suc fuel)))
            (program ∷ service ∷ name ∷ [])
            (record w { incoming = xs }))
        (λ xs.
          client
            (suc (suc (suc fuel)))
            (program' ∷ host ∷ service' ∷ name' ∷ [])
            (record v { incoming = xs }))
        (output_file v)
        here
        there
        bytes
        later
        later'
unfolding Factory.init
download w v fuel program service name program' host service' name' bytes a a' rest rest' fd fd'
      here there later later' server_host client_host serving served file opens small uneven empty
      takes enough =
    let g =
      session (running (server_ready a fd bytes w)) (running (client_ready a' fd' v))
        (input_file bytes) (output_file v) alloc_chunk fuel here there
        (length bytes / (win_siz * payload_size)) (length bytes / payload_size % win_siz)
        (length bytes % payload_size) later later'
        (server-IsFirst w a fd bytes v server_host client_host small uneven)
        (client-IsSecond v a' fd' w (length bytes / (win_siz * payload_size)) (length bytes - 0)
          client_host server_host empty (omega arith) (omega arith))
        enough in
    record {
      packets = g.packets;
      acks = g.acks;
      sent = g.sent;
      got = g.got;
      sender_ends =
          server-starts (suc (suc (suc fuel))) program service name bytes a rest fd
            (record w { incoming = _ }) g.sent
            (record {
              found = serving.found;
              made = serving.made;
              is_real = serving.is_real;
              free = serving.free;
            })
            file opens (omega arith) (interfaces_of w _ server_host.interfaces refl) g.sender_ends;
      receiver_ends =
          client-starts (suc (suc (suc fuel))) program' host service' name' a' rest' fd'
            (record v { incoming = _ }) g.got
            (record {
              host_text = served.host_text;
              service_text = served.service_text;
              host_room = served.host_room;
              service_room = served.service_room;
              found = served.found;
              made = served.made;
              is_real = served.is_real;
              can_create = served.can_create;
            })
            (interfaces_of v _ client_host.interfaces refl) g.receiver_ends;
      sender_out = g.sender_out;
      receiver_out = g.receiver_out;
      sender_over = g.sender_over;
      receiver_over = g.receiver_over;
      file = g.file;
      sender_left = g.sender_left;
      receiver_left = g.receiver_left;
    }
