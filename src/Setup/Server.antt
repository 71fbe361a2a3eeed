-- ===== src/Setup/Server.antt =====
-- What the server does before it runs the session.
use udm.Base.{
  ℕ, ◌+◌, ◌<◌, ◌≡◌, refl, subst, none, some, true, List, [], ◌∷◌, ◌++◌, ◌⊎◌, inl, inr, arith,
  lt→ltb,
}
use udm.World.{World, ok, AddrInfo}
use udm.Factory
use udm.Setup.Text.{to_string, port_of}
use udm.Setup.Sockets.{bind, bind_address}
use udm.Setup.Opening.{udm_socket-found}
use udm.Setup.Lookup.{fetch_addresses_lem}
use udm.Setup.Context.{io_context, alloc_chunk, udm_bind, open_source}
use udm.Setup.Programs.{server, server_body, serve, catch_exception}

-- The machine has an address for the service, which a socket can be made for and bound to.
pub record IsServing (w : World) (service : List ℕ) (a : AddrInfo) (rest : List AddrInfo) (fd : ℕ)
    : Type 0 where
  pub found : w.env.get_addr_info none (to_string (port_of service)) ≡ some (a, rest)
  pub made : w.env.socket w.sockets.calls a ≡ some fd
  pub is_real : 0 < fd
  pub free : w.env.bind (fd ∷ w.sockets.opened) fd a ≡ true

-- The world in which the socket of the server is bound.
abbrev pub bound_to : AddrInfo → ℕ → World → World
bound_to a fd w = record w {
  tx_factory = Factory.init alloc_chunk;
  rx_factory = Factory.init alloc_chunk;
  overrun = w.overrun + 1;
  sockets = record {
    opened = fd ∷ w.sockets.opened;
    calls = w.sockets.calls + 1;
    bound = w.sockets.bound ++ (fd, a) ∷ [];
    sfd = some fd;
  };
}

-- When there is an address for the service, a socket for the first address that `getaddrinfo` gives, and
-- `bind` takes it, a server whose file is empty or cannot be had binds the socket, sends nothing, and
-- ends with status 0.
pub server-no_file :
    (fuel : ℕ) (program service name : List ℕ) (a : AddrInfo) (rest : List AddrInfo) (fd : ℕ)
    (w : World)
    → IsServing w service a rest fd
    → (w.env.files name ≡ none) ⊎ (w.env.files name ≡ some [])
    → server fuel (program ∷ service ∷ name ∷ []) w ≡ ok 0 (bound_to a fd w)
unfolding server server_body catch_exception io_context udm_bind bind_address bind open_source serve
server-no_file fuel program service name a rest fd w ready file =
    let w1 : World = record w {
      tx_factory = Factory.init alloc_chunk;
      rx_factory = Factory.init alloc_chunk;
      overrun = w.overrun + 1;
    } in
    let made : w1.env.socket (w1.sockets.calls + 0) a ≡ some fd =
      subst (λ n. w.env.socket n a ≡ some fd) (omega arith) ready.made in
    rw (fetch_addresses_lem (port_of service) _, server)
      (rw (ready.found, server)
        (rw (udm_socket-found [] a rest fd w1 (a, rest) refl tt made, server)
          (rw (lt→ltb 0 fd ready.is_real, ready.free, server)
            (elim file [
              | inl absent ↦ rw (absent, server) refl
              | inr empty ↦ rw (empty, server) refl
            ]))))
