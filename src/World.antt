-- ===== src/World.antt =====
-- The state that the program keeps in objects, in variables of the namespace and in `static` locals,
-- what it exchanges with the operating system, and the actions on that state. `memBuff` objects are
-- shared by pointer, so they stand at addresses of a store. A capsule and its body belong to one
-- `memBuff`, and stand in it.
pub mod Memory
pub mod Laws
use udm.Base.{ℕ, suc, ◌+◌, ◌%◌, ◌^◌, ◌≡◌, refl, Bool, Option, none, some, List, [], ◌∷◌, ◌++◌}
use udm.Wire.{CapsuleHdr, StateCode, StateDirection, tx, rx, SourceMode}

-- `struct capsule`: `body` points `off` bytes into the block that was allocated for it. The null
-- pointer is the empty block.
pub record Capsule : Type 0 where
  pub header : CapsuleHdr
  pub block : List ℕ
  pub off : ℕ

-- `struct memBuff`; `cap` is its field `data`.
pub record MemBuff : Type 0 where
  pub size : ℕ
  pub cap : Option Capsule

abbrev pub Ref : Type 0
Ref = ℕ

-- `class DataSource`: an open file. `content` is what the file holds, `pos` the position of the
-- stream in it, `gcount` what the last unformatted read got, `room` how many bytes the device still
-- takes, and `bad` says that the stream has failed.
pub record DataSource : Type 0 where
  pub fmode : SourceMode
  pub file_size : ℕ
  pub content : List ℕ
  pub pos : ℕ
  pub gcount : ℕ
  pub room : ℕ
  pub bad : Bool

-- `class DataFactory`. The queue is what `threadsafe_queue` is proved to implement, the list of the
-- pointers that it holds. An `int` is its bit pattern; `alloc_size` and `chunk_size` are never
-- negative.
pub record DataFactory : Type 0 where
  pub buffer : List Ref
  pub fin : Bool
  pub alloc_size : ℕ
  pub cur_size : ℕ
  pub cur_pos : ℕ
  pub cur_write_pos : ℕ
  pub chunk_size : ℕ
  pub source_data : Option DataSource

pub record Connection : Type 0 where
  pub id : ℕ
  pub src : ℕ
  pub dst : ℕ
  pub status : ℕ

-- What the objects of `Session` and `SessionProcessor` keep. A missing key of `connections` reads as
-- the value that `operator[]` inserts for it. `tasks` is the work queue of the pool.
pub record Session : Type 0 where
  pub connections : ℕ → Connection
  pub connection_count : ℕ
  pub next : StateCode
  pub complete : Bool
  pub done : Bool
  pub win_size : ℕ
  pub capsule_id : ℕ
  pub tasks : List (Unit {0})

-- The `data` of a `struct ipaddr_dummy`: fifteen bytes of text.
abbrev pub Address : Type 0
Address = List ℕ

pub record SockAddr : Type 0 where
  pub s_addr : ℕ
  pub port : ℕ

-- What `Gateway` and its `PhyInterfaces` keep. `peer_address_list` is null until a list came in.
pub record Gateway : Type 0 where
  pub infc : ℕ
  pub indx : ℕ
  pub address_list : List Address
  pub peer_address_list : Option (List Address)
  pub peer_address_count : ℕ
  pub peer_addr : SockAddr

-- `struct addrinfo`; a chain of `ai_next` is a list.
pub record AddrInfo : Type 0 where
  pub family : ℕ
  pub socktype : ℕ
  pub protocol : ℕ
  pub addr : SockAddr

-- The sockets of the process: the open descriptors, how often `socket` was called, what was bound, and
-- the `sfd` of the `io_context`, where `none` is -1.
pub record Sockets : Type 0 where
  pub opened : List ℕ
  pub calls : ℕ
  pub bound : List (ℕ × AddrInfo)
  pub sfd : Option ℕ

-- What a call of `recvfrom` finds: a datagram, its sender and whether `getnameinfo` knows the
-- sender; or an error.
pub data Arrival : Type 0 where
  datagram : List ℕ → SockAddr → Bool → Arrival
  failed : Arrival

pub record Packet : Type 0 where
  pub to : SockAddr
  pub bytes : List ℕ

-- The rest of the machine: whether the `n`-th `sendto` fails (on a datagram socket it otherwise
-- sends the whole), what `inet_addr` makes of a text, the byte that fresh memory holds, what a read
-- past the end of the peer's addresses finds, what the allocator gives, and what the calls that set up
-- a connection give. The list of interfaces stays the same while the program runs.
pub record Env : Type 0 where
  pub send_fails : ℕ → Bool
  pub inet_addr : Address → ℕ
  pub junk : ℕ
  pub past_end : Address
  -- the `n`-th call of `socket`, and `bind` with the open descriptors
  pub socket : ℕ → AddrInfo → Option ℕ
  pub bind : List ℕ → ℕ → AddrInfo → Bool
  -- for a host, or none, and a service: an error, or the first address and those behind it
  pub get_addr_info : Option (List ℕ) → List ℕ → Option (AddrInfo × List AddrInfo)
  -- the addresses that `ioctl` lists, as `inet_ntop` writes them, and whether it fails when it gets room
  -- for that many
  pub interfaces : List (List ℕ)
  pub ioctl_fails : ℕ → Bool
  -- whether the pointer `ifc_buf` in a fresh `struct ifconf`, which nothing sets, is null
  pub null_ifc_buf : Bool
  -- how many bytes the heap block for an array of so many bytes holds, its padding included
  pub heap_room : ℕ → ℕ
  -- what the files hold, by name, which can be opened and made, and how many bytes the device takes
  pub files : List ℕ → Option (List ℕ)
  pub can_open : List ℕ → Bool
  pub can_create : List ℕ → Bool
  pub device_room : ℕ

pub record World : Type 0 where
  pub env : Env
  pub mem : Ref → Option MemBuff
  pub fresh : Ref
  pub tx_factory : DataFactory
  pub rx_factory : DataFactory
  -- `rxcurrentWindow`, by ascending key
  pub window : List (ℕ × Ref)
  pub session : Session
  pub gateway : Gateway
  pub incoming : List Arrival
  pub outgoing : List Packet
  -- how often `sendto` was called
  pub sends : ℕ
  -- `prevSrcid`, `prevDstid`, `prevConnid`, `hdrid` and the `i` of `selectAddrFromList`
  pub prev_srcid : ℕ
  pub prev_dstid : ℕ
  pub prev_connid : ℕ
  pub hdrid : ℕ
  pub addr_index : ℕ
  pub sockets : Sockets
  -- bytes that were written behind the end of a buffer for a text
  pub overrun : ℕ

-- Why a run ends early: `exit`, an exception, a receive with nothing to come, an access that the language leaves
-- undefined, a wait without end, or a loop that the given fuel cuts off.
pub data Halt : Type 0 where
  exited : ℕ → Halt
  thrown : Halt
  blocked : Halt
  fault : Halt
  stuck : Halt
  out_of_fuel : Halt

pub data Run {ℓ} (A : Type ℓ) : Type ℓ where
  ok : A → World → Run A
  halt : Halt → World → Run A

abbrev pub M {ℓ} : Type ℓ → Type ℓ
M A = World → Run A

module _ {ℓ} {A : Type ℓ} where
  abbrev pub pure : A → M A
  pure a w = ok a w

  abbrev pub stop : Halt → M A
  stop h w = halt h w

  abbrev pub gets : (World → A) → M A
  gets f w = ok (f w) w

  -- A null pointer is not followed.
  abbrev pub the : Option A → M A
  the none w = halt fault w
  the (some a) w = ok a w

module _ {ℓ κ} {A : Type ℓ} {B : Type κ} where
  abbrev pub and_then : Run A → (A → M B) → Run B
  and_then (ok a w) f = f a w
  and_then (halt h w) f = halt h w

  infixl 5 ◌>>=◌
  abbrev pub ◌>>=◌ : M A → (A → M B) → M B
  ◌>>=◌ m f w = and_then (m w) f

infixl 5 ◌>>◌
abbrev pub ◌>>◌ {κ} : {B : Type κ} → M (Unit {0}) → M B → M B
m >> n = m >>= λ _. n

abbrev pub modify : (World → World) → M (Unit {0})
modify f w = ok tt (f w)

abbrev pub skip : M (Unit {0})
skip w = ok tt w

-- The factory of a direction.
abbrev pub factory : StateDirection → World → DataFactory
factory tx w = w.tx_factory
factory rx w = w.rx_factory

abbrev pub set_factory : StateDirection → DataFactory → World → World
set_factory tx f w = record w { tx_factory = f }
set_factory rx f w = record w { rx_factory = f }

abbrev pub set_session : (Session → Session) → World → World
set_session f w = record w { session = f w.session }
