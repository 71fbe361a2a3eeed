-- ===== src/Setup/Sockets.antt =====
-- connection.h: names become addresses, and addresses sockets. `socket`, `bind` and `getaddrinfo` answer
-- from the `Env`.
use udm.Base.{
  ℕ, suc, ◌==◌, Option, none, some, Bool, true, false, not, List, [], ◌∷◌, ◌++◌, if◌then◌else◌,
  keep,
}
use udm.World.{World, M, AddrInfo, Sockets, exited, pure, stop, modify, skip, ◌>>=◌, ◌>>◌}

abbrev pub set_sockets : (Sockets → Sockets) → World → World
set_sockets f w = record w { sockets = f w.sockets }

abbrev pub opening : Option ℕ → List ℕ → List ℕ
opening none fds = fds
opening (some fd) fds = fd ∷ fds

-- `socket`: a new descriptor, or `none` for -1.
unfoldable pub socket : AddrInfo → M (Option ℕ)
socket a w =
    let fd = w.env.socket w.sockets.calls a in
    pure fd (set_sockets (λ s. record s { calls = suc s.calls; opened = opening fd s.opened }) w)

-- `close`
unfoldable pub close : ℕ → M (Unit {0})
close fd w = modify (set_sockets (λ s. record s { opened = keep (λ x. not (x == fd)) s.opened })) w

-- `bind`: whether it gave something other than -1.
unfoldable pub bind : ℕ → AddrInfo → M Bool
bind fd a w =
    let done = w.env.bind w.sockets.opened fd a in
    pure done
      (set_sockets (λ s. record s { bound = if done then s.bound ++ (fd, a) ∷ [] else s.bound }) w)

-- A result, or the end of the program with status 1.
abbrev pub or_exit {ℓ} : {A : Type ℓ} → Option A → M A
or_exit none = stop (exited 1)
or_exit (some a) = pure a

-- `obtainAddresses`: the first address and those behind it. An error ends the program.
unfoldable pub obtain_addresses : Option (List ℕ) → List ℕ → M (AddrInfo × List AddrInfo)
obtain_addresses host service w = or_exit (w.env.get_addr_info host service) w

-- The loop that tries `socket` on one address after the other: what `sfd` holds when it ends.
unfoldable pub first_socket : List AddrInfo → M (Option ℕ)
first_socket [] = pure none
first_socket (rp ∷ rest) = do
  sfd ← socket rp
  elim sfd [ none ↦ first_socket rest | some fd ↦ pure (some fd) ]

-- `connect2Addr`
unfoldable pub connect2_addr : List AddrInfo → M ℕ
connect2_addr result = do sfd ← first_socket result; or_exit sfd

-- `bindAddress`: the descriptor is closed after an address that does not bind, and the same one is
-- tried with the next.
unfoldable pub bind_address : List AddrInfo → ℕ → M (Unit {0})
bind_address [] sfd = stop (exited 1)
bind_address (rp ∷ rest) sfd = do
  success ← bind sfd rp
  elim success [ true ↦ skip | false ↦ do close sfd; bind_address rest sfd ]
