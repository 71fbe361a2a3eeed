-- ===== src/Setup/Context.antt =====
-- userclass.h: the context that a program keeps, the files it opens, and the calls that set up a
-- connection and run it; with the constructor of `DataSource` in datafactory.h. The objects of the
-- pipeline are variables of the namespace, to which the context holds references.
use udm.Base.{
  Bool, leb, ℕ, ltb, ◌+◌, ◌-◌, Option, none, some, false, not, List, [], ◌∷◌, if◌then◌else◌, length,
}
use udm.Wire.{StateDirection, StateCode, SourceMode, in_mode, out_mode}
use udm.World.{
  World, fault, M, AddrInfo, DataSource, Session, Connection, thrown, pure, stop, gets, modify,
  skip, ◌>>=◌, ◌>>◌,
}
use udm.World.Memory.{malloc}
use udm.Factory
use udm.Session.States.{start}
use udm.Setup.Text.{c_text, strcpy, to_string}
use udm.Setup.Sockets.{set_sockets, or_exit, obtain_addresses, first_socket, bind_address}
use udm.Gateway.Interfaces.{phy_interfaces}

-- ALLOC_SIZE
abbrev pub alloc_chunk : ℕ
alloc_chunk = 49152

-- `io_context`: two new factories.
unfoldable pub io_context : M (Unit {0})
io_context =
    modify (λ w. record w {
      tx_factory = Factory.init alloc_chunk;
      rx_factory = Factory.init alloc_chunk;
    })

-- `setfd`
abbrev pub setfd : Option ℕ → M (Unit {0})
setfd fd = modify (set_sockets (λ s. record s { sfd = fd }))

abbrev no_connection : Connection
no_connection = record { id = 0; src = 0; dst = 0; status = 0 }

-- A new `Session` with a new `SessionProcessor`.
unfoldable pub new_session : Session
new_session = record {
  connections = λ k. no_connection;
  connection_count = 0;
  next = StateCode.open_state;
  complete = false;
  done = false;
  win_size = 0;
  capsule_id = 0;
  tasks = [];
}

-- `io_context::run`: a new gateway, session and compositor; the last keeps nothing.
unfoldable pub run : M (Unit {0})
run = do
  phy_interfaces
  modify (λ w. record w {
    gateway = record w.gateway { peer_address_list = none; peer_address_count = 0 };
    session = new_session;
  })

-- An input file that holds the bytes, if it can be opened; the stream has failed otherwise. The size of a
-- file that is not there cannot be had, which throws.
abbrev pub input_source : Bool → Option (List ℕ) → M DataSource
input_source opens none = stop thrown
input_source opens (some bytes) = pure (record {
  fmode = in_mode;
  file_size = length bytes;
  content = bytes;
  pos = 0;
  gcount = 0;
  room = 0;
  bad = not opens;
})

-- `DataSource(fname, mode)`: a file that cannot be opened or made leaves a stream that has failed.
unfoldable pub open_source : List ℕ → SourceMode → M DataSource
open_source fname in_mode w = input_source (w.env.can_open fname) (w.env.files fname) w
open_source fname out_mode w =
    pure
      (record {
        fmode = out_mode;
        file_size = 0;
        content = [];
        pos = 0;
        gcount = 0;
        room = w.env.device_room;
        bad = not (w.env.can_create fname);
      })
      w

-- `io_context::set_source` and `set_sink`
unfoldable pub set_source : DataSource → M (Unit {0})
set_source s w =
    modify (λ w. record w { tx_factory = record w.tx_factory { source_data = some s } }) w

unfoldable pub set_sink : DataSource → M (Unit {0})
set_sink s w =
    modify (λ w. record w { rx_factory = record w.rx_factory { source_data = some s } }) w

-- How many bytes the heap block of an array of `n` bytes holds: what the allocator gives, and 24 at
-- least, the smallest block of the C library on machines with pointers of eight bytes.
abbrev pub block_size : World → ℕ → ℕ
block_size w n = if ltb (w.env.heap_room n) 24 then 24 else w.env.heap_room n

-- A text is copied into a heap array that has no room for its NUL, and what stands there is read as a C
-- string. The NUL goes into the padding of the block and is counted; where there is none, it destroys what
-- the allocator keeps behind the block, which is a fault.
unfoldable pub copy_tight : List ℕ → M (List ℕ)
copy_tight text = do
  w ← gets (λ w. w)
  let size = block_size w (length text)
  if leb size (length (c_text text)) then stop fault else do
    block ← strcpy (malloc size w) text
    modify (λ w. record w { overrun = w.overrun + (length (c_text text) + 1 - length text) })
    pure (c_text block)

-- `resolver::resolve`: the first address becomes that of the peer.
unfoldable pub resolve : List ℕ → List ℕ → M (AddrInfo × List AddrInfo)
resolve ipaddr service = do
  ip ← copy_tight ipaddr
  srv ← copy_tight service
  result ← obtain_addresses (some ip) srv
  modify (λ w. record w { gateway = record w.gateway { peer_addr = result.0.addr } })
  pure result

-- `fetch_addresses`
unfoldable pub fetch_addresses : ℕ → M (AddrInfo × List AddrInfo)
fetch_addresses port = do p ← copy_tight (to_string port); obtain_addresses none p

-- `udm_socket`: the descriptor of the first address for which there is one.
unfoldable pub udm_socket : AddrInfo × List AddrInfo → M ℕ
udm_socket ep = do sfd ← first_socket (ep.0 ∷ ep.1); setfd sfd; or_exit sfd

-- `udm_bind`
unfoldable pub udm_bind : AddrInfo × List AddrInfo → M (Unit {0})
udm_bind addr = do
  w ← gets (λ w. w)
  elim w.sockets.sfd [
    | none ↦ skip
    | some sfd ↦ if ltb 0 sfd then bind_address (addr.0 ∷ addr.1) sfd else skip
  ]

-- `udm_txstart` and `udm_rxstart`; `destroy` of a factory is empty. The code that the latter leaves in
-- `ec` is always `eof`.
unfoldable pub udm_start : ℕ → StateDirection → M (Unit {0})
udm_start fuel d = do run; start fuel d
