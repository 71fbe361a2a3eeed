-- ===== src/Gateway/Interfaces.antt =====
-- gateway.h, `PhyInterfaces`: the addresses of the machine's interfaces, as texts.
-- `malloc` is taken to succeed. Only `data` of an entry is used later.
use udm.Base.{if◌then◌else◌, ℕ, ◌+◌, ◌%◌, ◌^◌, get_elem?, Option, List, [], ◌∷◌}
use udm.World.{the, M, Address, ok, halt, fault, pure, gets, modify, ◌>>=◌, ◌>>◌}
use udm.World.Memory.{malloc}
use udm.Gateway.{no_of_interfaces}
use udm.Session.Peers.{addr_len}
use udm.Setup.Text.{strcpy}

-- The loop of `interfacesToIpV4addr` over the answers of `ioctl`, each as `inet_ntop` writes it.
unfoldable pub copy_texts : List (List ℕ) → M (List Address)
copy_texts [] = pure []
copy_texts (buffer ∷ rest) = do
  w ← gets (λ w. w)
  a ← strcpy (malloc addr_len w) buffer
  list ← copy_texts rest
  pure (a ∷ list)

-- `_noOfInterfaces` from room for one answer on: the number and the entries. In the 27th round the room is
-- more than an `int` counts.
unfoldable pub list_interfaces : M (ℕ × Option (List (List ℕ)))
list_interfaces = no_of_interfaces 27 1

-- `getInfCount`
unfoldable pub count_interfaces : M ℕ
unfolding list_interfaces
count_interfaces = do found ← list_interfaces; pure found.0

-- `realloc` of the pointer `ifc_buf` as it is in a fresh `struct ifconf`: it allocates when that happens to
-- be null. Any other pointer is none that an allocation has returned.
unfoldable pub first_realloc : M (Unit {0})
first_realloc w = if w.env.null_ifc_buf then ok tt w else halt fault w

-- `interfacesToIpV4addr`. When `ioctl` has failed, the loop reads the fresh memory all the same.
unfoldable pub interfaces_to_ip_v4addr : M (ℕ × List Address)
interfaces_to_ip_v4addr = do
  found ← list_interfaces
  buffers ← the found.1
  list ← copy_texts buffers
  pure (found.0, list)

-- `PhyInterfaces`: the interfaces are counted twice.
unfoldable pub phy_interfaces : M (Unit {0})
phy_interfaces = do
  first_realloc
  infc ← count_interfaces
  found ← interfaces_to_ip_v4addr
  modify (λ w. record w { gateway = record w.gateway { infc = found.0; address_list = found.1 } })

-- `getInterface`, which nothing calls: `&addressList[indx++]`. An index past the end is a fault.
unfoldable pub get_interface : M Address
get_interface = do
  w ← gets (λ w. w)
  modify (λ w. record w { gateway = record w.gateway { indx = (w.gateway.indx + 1) % 2 ^ 16 } })
  the (get_elem? w.gateway.address_list w.gateway.indx)

-- `setInfCount`
unfoldable pub set_inf_count : ℕ → M (Unit {0})
set_inf_count count w = modify (λ w. record w { gateway = record w.gateway { infc = count } }) w
