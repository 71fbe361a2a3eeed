-- ===== src/Session/Peers/Tests.antt =====
-- Lists with and without the loopback address.
use udm.Base.{
  ◌≡◌, refl, List, [], ◌∷◌, arith, length, take, drop, replicate, ◌++◌, keep, not, false,
}
use udm.Wire.{header_space, zero_hdr}
use udm.World.{Address, Capsule, ok}
use udm.Session.Peers.{is_localhost, strip_localhost, write_addresses, read_addresses}
use udm.Session.Peers.Told.{read-write_addresses}
use udm.Session.Peers.Localhost.{strip_localhost_lem, strip_state}
use udm.Samples.{lo_address, eth_address, told}

abbrev told_addresses : List Address
told_addresses = lo_address ∷ eth_address ∷ []

strip_localhost_lem_example :
    let s = strip_localhost [] 2 0 (strip_state told_addresses 2 false) in
    let others = keep (λ a. not (is_localhost a)) told_addresses in
    (s.address_count ≡ length others) × (take s.address_count s.addresses ≡ others)
unfolding is_localhost
strip_localhost_lem_example = strip_localhost_lem [] told_addresses (omega arith) (omega arith)

-- A body of two addresses that nobody wrote yet.
abbrev blank : Capsule
blank = record {
  header = zero_hdr;
  block = replicate header_space 0 ++ ((replicate 15 1 ++ (replicate 15 2 ++ [])) ++ 3 ∷ []);
  off = 0;
}

read-write_addresses_example :
    (c' : Capsule) × ((write_addresses 2 0 blank told ≡ ok c' told)
      × (read_addresses 2 0
            (record c' {
              block = replicate header_space 7 ++ drop header_space c'.block;
              off = header_space;
            })
            told
          ≡ ok told_addresses told))
read-write_addresses_example =
    read-write_addresses told told blank (replicate header_space 7) (replicate header_space 0)
      (3 ∷ []) (replicate 15 1 ∷ replicate 15 2 ∷ []) (refl, (refl, tt)) (refl, (refl, tt)) refl
      refl refl refl refl
