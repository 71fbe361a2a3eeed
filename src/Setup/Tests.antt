-- ===== src/Setup/Tests.antt =====
-- The set-up of a connection on a small machine.
use udm.Base.{ℕ, ◌≡◌, refl, none, some, false, List, [], ◌∷◌, arith, inl}
use udm.World.{World, Run, ok, halt, exited, fault}
use udm.Samples.{inet, inet6, machine, world, small}
use udm.Setup.Text.{port_of, to_string, c_text, strcpy, digits, number, signed}
use udm.Setup.Texts.{
  Dotted, entry, overrun_by, HasInterfaces, phy_interfaces_lem, phy_interfaces-stale,
}
use udm.Gateway.Interfaces.{phy_interfaces}
use udm.Setup.Sockets.{or_exit, bind_address, bind, socket, first_socket, obtain_addresses}
use udm.Setup.Opening.{udm_socket-found, udm_socket-none, socket_answer, bind_address-first, closed}
use udm.Setup.Lookup.{with_peer, resolve_lem, fetch_addresses_lem}
use udm.Setup.Context.{
  udm_socket, udm_bind, resolve, fetch_addresses, copy_tight, io_context, open_source,
}
use udm.Setup.Server.{IsServing, bound_to, server-no_file}
use udm.Setup.Programs.{server, server_body, client, serve, catch_exception}

abbrev idle : World
idle = world small small []

udm_socket-found_example : udm_socket (inet6, inet ∷ []) idle ≡ socket_answer (some 4) 2 idle
udm_socket-found_example =
    udm_socket-found (inet6 ∷ []) inet [] 4 idle (inet6, inet ∷ []) refl (refl, tt) refl

udm_socket-none_example : udm_socket (inet6, []) idle ≡ socket_answer none 1 idle
udm_socket-none_example = udm_socket-none idle (inet6, []) (refl, tt)

bind_address-first_example :
    bind_address (inet ∷ inet6 ∷ []) 4 idle ≡ halt (exited 1) (closed 4 idle)
bind_address-first_example = bind_address-first inet (inet6 ∷ []) 4 idle (λ fds fd a absent. absent)

-- 10.0.0.7 and 192.168.100.200
abbrev ten : List ℕ
ten = b'1' ∷ b'0' ∷ b'.' ∷ b'0' ∷ b'.' ∷ b'0' ∷ b'.' ∷ b'7' ∷ []

abbrev wide : List ℕ
wide =
    b'1' ∷ b'9' ∷ b'2' ∷ b'.' ∷ b'1' ∷ b'6' ∷ b'8' ∷ b'.' ∷ b'1' ∷ b'0' ∷ b'0' ∷ b'.' ∷ b'2' ∷ b'0'
    ∷ b'0' ∷ []

abbrev two_cards : World
two_cards = record idle { env = record machine { interfaces = ten ∷ wide ∷ [] } }

ten-Dotted : Dotted ten
unfolding c_text
ten-Dotted = (omega arith, refl)

wide-Dotted : Dotted wide
unfolding c_text
wide-Dotted = (omega arith, refl)

two_cards-HasInterfaces : HasInterfaces two_cards
two_cards-HasInterfaces = record {
  null_buf = refl;
  listing = record { succeeds = λ room. refl; few = omega arith };
  dotted = (ten-Dotted, (wide-Dotted, tt));
}

phy_interfaces_lem_example :
    phy_interfaces two_cards
    ≡ ok tt (record (overrun_by 1 two_cards) {
      gateway = record two_cards.gateway { infc = 2; address_list = entry 238 ten ∷ wide ∷ [] };
    })
phy_interfaces_lem_example = phy_interfaces_lem two_cards two_cards-HasInterfaces

-- A `short` of that value is negative.
to_string-negative : to_string 40000 ≡ b'-' ∷ b'2' ∷ b'5' ∷ b'5' ∷ b'3' ∷ b'6' ∷ []
unfolding to_string digits
to_string-negative = refl

fetch_addresses_lem_example :
    fetch_addresses 7777 idle ≡ or_exit (some (inet6, inet ∷ [])) (overrun_by 1 idle)
fetch_addresses_lem_example = fetch_addresses_lem 7777 idle

ten-whole : c_text ten ≡ ten
unfolding c_text
ten-whole = refl

resolve_lem_example :
    resolve ten ten idle
    ≡ or_exit (some (inet6, inet ∷ [])) (with_peer (some (inet6, inet ∷ [])) (overrun_by 2 idle))
resolve_lem_example = resolve_lem ten ten idle ten-whole ten-whole (omega arith) (omega arith)

-- 0:0:0:0:0:ffff:127.0.0.1
abbrev mapped : List ℕ
mapped =
    b'0' ∷ b':' ∷ b'0' ∷ b':' ∷ b'0' ∷ b':' ∷ b'0' ∷ b':' ∷ b'0' ∷ b':' ∷ b'f' ∷ b'f' ∷ b'f' ∷ b'f'
    ∷ b':' ∷ b'1' ∷ b'2' ∷ b'7' ∷ b'.' ∷ b'0' ∷ b'.' ∷ b'0' ∷ b'.' ∷ b'1' ∷ []

-- Where `ifc_buf` is not null.
abbrev stale : World
stale = record idle { env = record machine { null_ifc_buf = false } }

phy_interfaces-stale_example : phy_interfaces stale ≡ halt fault stale
phy_interfaces-stale_example = phy_interfaces-stale stale refl

abbrev no_files : World
no_files = record idle {
  env = record machine { files = λ name. none; get_addr_info = λ host service. some (inet, []) };
}

no_files-IsServing : IsServing no_files ten inet [] 3
no_files-IsServing = record { found = refl; made = refl; is_real = omega arith; free = refl }

server-no_file_example : server 5 (ten ∷ ten ∷ wide ∷ []) no_files ≡ ok 0 (bound_to inet 3 no_files)
server-no_file_example =
    server-no_file 5 ten ten wide inet [] 3 no_files no_files-IsServing (inl refl)

-- Without a name for the file, the server copies a text to nowhere.
abbrev status : Run ℕ → List ℕ
status (ok n w) = n ∷ []
status (halt (exited n) w) = n ∷ 1 ∷ []
status (halt h w) = []

server-nameless : status (server 5 (ten ∷ ten ∷ []) no_files) ≡ []
unfolding server server_body catch_exception io_context udm_bind bind_address bind open_source serve
    fetch_addresses copy_tight strcpy c_text to_string digits number signed port_of obtain_addresses
    udm_socket first_socket socket
server-nameless = refl

client-usage : status (client 5 (ten ∷ []) idle) ≡ 1 ∷ []
unfolding client io_context
client-usage = refl
