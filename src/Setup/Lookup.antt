-- ===== src/Setup/Lookup.antt =====
-- Names and ports that become addresses: `resolve` and `fetch_addresses`.
use udm.Base.{
  ℕ, zero, suc, ◌+◌, ◌-◌, ◌≤◌, ◌<◌, ◌≡◌, refl, sym, ap, ◌∙◌, ◌/◌, ◌%◌, ◌^◌, Option, none, some,
  List, [], ◌∷◌, ◌++◌, length, arith, replicate, true, false, leb,
}
use udm.World.{World, and_then, modify, pure, ◌>>◌, ok, halt, fault, AddrInfo}
use udm.Setup.Text.{c_text, to_string, digits}
use udm.Setup.Texts.{strcpy-short, overrun_by}
use udm.Setup.Ports.{c_text-to_string}
use udm.Setup.Sockets.{or_exit, obtain_addresses}
use udm.Setup.Context.{block_size, copy_tight, resolve, fetch_addresses}

-- A C string ends at its NUL, whatever stands behind it.
c_text-ended : (text rest : List ℕ) → c_text (c_text text ++ 0 ∷ rest) ≡ c_text text
unfolding c_text
c_text-ended [] rest = refl
c_text-ended (c ∷ cs) rest = ground (arith, c_text-ended cs rest)

-- The heap block of an array for the text has padding, which the NUL of the text goes into.
abbrev pub HasRoom : World → List ℕ → Type 0
HasRoom w text = length text < block_size w (length text)

copy_tight_lem :
    (text : List ℕ) (w : World)
    → c_text text ≡ text
    → HasRoom w text
    → copy_tight text w ≡ ok text (overrun_by (w.overrun + 1) w)
unfolding copy_tight
copy_tight_lem text w whole room =
    let size = block_size w (length text) in
    let rest = replicate (size - suc (length text)) w.env.junk in
    let fits : leb size (length text) ≡ false = ground (arith, room) in
    let read : c_text (text ++ 0 ∷ rest) ≡ text =
      ap (λ t. c_text (t ++ 0 ∷ rest)) (sym whole) ∙ c_text-ended text rest ∙ whole in
    let one : w.overrun + (length text + 1 - length text) ≡ w.overrun + 1 = omega arith in
    rw (whole, copy_tight)
      (rw (fits, copy_tight)
        (rw (strcpy-short size w.env.junk text w whole room, copy_tight)
          (rw (read, copy_tight) (ap (λ n. ok text (overrun_by n w)) one))))

-- A text that fills its heap block leaves no place for its NUL, and the copy is a fault.
pub copy_tight-full :
    (text : List ℕ) (w : World)
    → c_text text ≡ text
    → block_size w (length text) ≡ length text
    → copy_tight text w ≡ halt fault w
unfolding copy_tight
copy_tight-full text w whole full =
    let over : leb (block_size w (length text)) (length text) ≡ true = ground (arith, full) in
    rw (whole, copy_tight) (rw over refl)

length-digits : (fuel n : ℕ) (tail : List ℕ) → length (digits fuel n tail) ≤ fuel + length tail
unfolding digits
length-digits zero n tail = omega arith
length-digits (suc fuel) n tail =
    ground (arith, length-digits fuel (n / 10) ((b'0' + n % 10) ∷ tail))

-- The text of a port has six characters at most, and the smallest block holds more.
port-HasRoom : (port : ℕ) (w : World) → HasRoom w (to_string port)
unfolding to_string
port-HasRoom port w =
    let positive = length-digits 5 port [] in
    let negative = length-digits 5 (2 ^ 16 - port) [] in
    let short : length (to_string port) ≤ 6 = ground (arith, positive, negative) in
    ground (arith, short)

-- The world in which the first address that was found is that of the peer.
abbrev pub with_peer : Option (AddrInfo × List AddrInfo) → World → World
with_peer none w = w
with_peer (some found) w = record w { gateway = record w.gateway { peer_addr = found.0.addr } }

-- `fetch_addresses` answers as `getaddrinfo` does for no host and the decimal text of the port, whatever the port,
-- and writes exactly one byte behind the array of the text.
pub fetch_addresses_lem :
    (port : ℕ) (w : World)
    → fetch_addresses port w
      ≡ or_exit (w.env.get_addr_info none (to_string port)) (overrun_by (w.overrun + 1) w)
unfolding fetch_addresses obtain_addresses
fetch_addresses_lem port w =
    rw
      (
        copy_tight_lem (to_string port) w (c_text-to_string port) (port-HasRoom port w),
        fetch_addresses,
      )
      refl

set_peer-answer :
    (found : Option (AddrInfo × List AddrInfo)) (w : World)
    → and_then (or_exit found w) (λ result.
      modify (λ w. record w { gateway = record w.gateway { peer_addr = result.0.addr } })
      >> pure result)
      ≡ or_exit found (with_peer found w)
set_peer-answer none w = refl
set_peer-answer (some found) w = refl

-- For texts without NUL whose heap blocks have padding for one, `resolve` answers as `getaddrinfo` does for
-- the two, makes the first address that of the peer, and writes exactly one byte behind each of its two
-- arrays.
pub resolve_lem :
    (ipaddr service : List ℕ) (w : World)
    → c_text ipaddr ≡ ipaddr
    → c_text service ≡ service
    → HasRoom w ipaddr
    → HasRoom w service
    → resolve ipaddr service w
      ≡ or_exit
          (w.env.get_addr_info (some ipaddr) service)
          (with_peer (w.env.get_addr_info (some ipaddr) service) (overrun_by (w.overrun + 1 + 1) w))
unfolding resolve obtain_addresses
resolve_lem ipaddr service w ip srv ip_room srv_room =
    rw (copy_tight_lem ipaddr w ip ip_room, resolve)
      (rw (copy_tight_lem service (overrun_by (w.overrun + 1) w) srv srv_room, resolve)
        (set_peer-answer (w.env.get_addr_info (some ipaddr) service)
          (overrun_by (w.overrun + 1 + 1) w)))
