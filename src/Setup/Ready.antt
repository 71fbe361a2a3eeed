-- ===== src/Setup/Ready.antt =====
-- The two programs up to their sessions.
use udm.Base.{
  ℕ, ◌+◌, ◌<◌, ◌^◌, ◌≡◌, refl, subst, some, true, false, List, [], ◌∷◌, length, All, arith, lt→ltb,
  ◌==◌,
}
use udm.Wire.{tx, rx, in_mode, out_mode}
use udm.World.{World, ok, AddrInfo, DataSource}
use udm.Factory
use udm.Session.States.{start}
use udm.Setup.Text.{c_text, port_of}
use udm.Setup.Sockets.{bind, bind_address}
use udm.Setup.Opening.{udm_socket-found}
use udm.Setup.Texts.{Dotted, HasInterfaces}
use udm.Setup.Lookup.{HasRoom, fetch_addresses_lem, resolve_lem}
use udm.Setup.Context.{
  io_context, alloc_chunk, udm_bind, open_source, set_source, set_sink, udm_start,
}
use udm.Setup.Programs.{server, server_body, serve, catch_exception, client, client_body}
use udm.Setup.Server.{IsServing, bound_to}
use udm.Setup.Running.{running, run_lem}

-- The file that the server opens, and the one that the client does.
abbrev pub input_file : List ℕ → DataSource
input_file bytes = record {
  fmode = in_mode;
  file_size = length bytes;
  content = bytes;
  pos = 0;
  gcount = 0;
  room = 0;
  bad = false;
}

abbrev pub output_file : World → DataSource
output_file w = record {
  fmode = out_mode;
  file_size = 0;
  content = [];
  pos = 0;
  gcount = 0;
  room = w.env.device_room;
  bad = false;
}

-- The interfaces belong to the machine.
pub interfaces_of : (w v : World) → HasInterfaces w → w.env ≡ v.env → HasInterfaces v
interfaces_of w v cards same = record {
  null_buf = subst (λ e. e.null_ifc_buf ≡ true) same cards.null_buf;
  listing = record {
    succeeds = λ room. subst (λ e. e.ioctl_fails room ≡ false) same (cards.listing.succeeds room);
    few = subst (λ e. length e.interfaces < 2 ^ 24) same cards.listing.few;
  };
  dotted = subst (λ e. All Dotted e.interfaces) same cards.dotted;
}

-- The server before its session.
abbrev pub server_ready : AddrInfo → ℕ → List ℕ → World → World
server_ready a fd bytes w = record (bound_to a fd w) {
  tx_factory = record (Factory.init alloc_chunk) { source_data = some (input_file bytes) };
}

pub server-starts :
    (fuel : ℕ) (program service name bytes : List ℕ) (a : AddrInfo) (rest : List AddrInfo) (fd : ℕ)
    (w end : World)
    → IsServing w service a rest fd
    → w.env.files name ≡ some bytes
    → w.env.can_open name ≡ true
    → 0 < length bytes
    → HasInterfaces w
    → start fuel tx (running (server_ready a fd bytes w)) ≡ ok tt end
    → server fuel (program ∷ service ∷ name ∷ []) w ≡ ok 0 end
unfolding server server_body catch_exception io_context udm_bind bind_address bind open_source serve
    set_source udm_start
server-starts fuel program service name bytes a rest fd w end ready file opens full cards runs =
    let w1 : World = record w {
      tx_factory = Factory.init alloc_chunk;
      rx_factory = Factory.init alloc_chunk;
      overrun = w.overrun + 1;
    } in
    let made : w1.env.socket (w1.sockets.calls + 0) a ≡ some fd =
      subst (λ n. w.env.socket n a ≡ some fd) (omega arith) ready.made in
    rw (fetch_addresses_lem (port_of service) _, server)
      (rw (ready.found, server)
        (rw (udm_socket-found [] a rest fd w1 (a, rest) refl tt made, server)
          (rw (lt→ltb 0 fd ready.is_real, ready.free, server)
            (rw (file, opens, server)
              (rw (lt→ltb 0 (length bytes) full, server)
                (rw (run_lem (server_ready a fd bytes w) (interfaces_of w _ cards refl), server)
                  (rw (runs, server) refl)))))))

-- The texts of the arguments have heap blocks with padding, the machine knows the server and has a socket for it, and the file can be made.
pub record IsClient (w : World) (host service name : List ℕ) (a : AddrInfo) (rest : List AddrInfo)
    (fd : ℕ) : Type 0 where
  pub host_text : c_text host ≡ host
  pub service_text : c_text service ≡ service
  pub host_room : HasRoom w host
  pub service_room : HasRoom w service
  pub found : w.env.get_addr_info (some host) service ≡ some (a, rest)
  pub made : w.env.socket w.sockets.calls a ≡ some fd
  pub is_real : 0 < fd
  pub can_create : w.env.can_create name ≡ true

-- The client before its session.
abbrev pub client_ready : AddrInfo → ℕ → World → World
client_ready a fd w = record w {
  tx_factory = Factory.init alloc_chunk;
  rx_factory = record (Factory.init alloc_chunk) { source_data = some (output_file w) };
  overrun = w.overrun + 1 + 1;
  gateway = record w.gateway { peer_addr = a.addr };
  sockets = record {
    opened = fd ∷ w.sockets.opened;
    calls = w.sockets.calls + 1;
    bound = w.sockets.bound;
    sfd = some fd;
  };
}

pub client-starts :
    (fuel : ℕ) (program host service name : List ℕ) (a : AddrInfo) (rest : List AddrInfo) (fd : ℕ)
    (w end : World)
    → IsClient w host service name a rest fd
    → HasInterfaces w
    → start fuel rx (running (client_ready a fd w)) ≡ ok tt end
    → client fuel (program ∷ host ∷ service ∷ name ∷ []) w ≡ ok 0 end
unfolding client client_body catch_exception io_context open_source set_sink udm_start
client-starts fuel program host service name a rest fd w end ready cards runs =
    let w0 : World = record w {
      tx_factory = Factory.init alloc_chunk;
      rx_factory = Factory.init alloc_chunk;
    } in
    let w1 : World = record w0 {
      overrun = w.overrun + 1 + 1;
      gateway = record w.gateway { peer_addr = a.addr };
    } in
    let made : w1.env.socket (w1.sockets.calls + 0) a ≡ some fd =
      subst (λ n. w.env.socket n a ≡ some fd) (omega arith) ready.made in
    let is_real = ready.is_real in
    let other : (fd == 0) ≡ false = ground arith in
    rw
      (
        resolve_lem host service w0 ready.host_text ready.service_text ready.host_room
            ready.service_room,
        client,
      )
      (rw (ready.found, client)
        (rw (udm_socket-found [] a rest fd w1 (a, rest) refl tt made, client)
          (rw (other, client)
            (rw (ready.can_create, client)
              (rw (run_lem (client_ready a fd w) (interfaces_of w _ cards refl), client)
                (rw (runs, client) refl))))))
