-- ===== src/Session/Peers.antt =====
-- session.h, the addresses that the two ends tell each other: how `setCapParams` lays them out in a
-- body, how `process` reads them back, and how it takes the loopback address out of the list.
pub mod Localhost
pub mod Told
mod Tests
use udm.Base.{
  ℕ, zero, suc, ◌+◌, ◌-◌, ◌*◌, ◌/◌, ◌%◌, ◌^◌, ◌≡◌, refl, Option, none, some, Bool, true, false,
  List, [], ◌∷◌, ◌++◌, ◌==◌, ltb, if◌then◌else◌, ◌&&◌, ◌||◌, length, take, get_elem?, get_or, set,
}
use udm.Wire.{header_space}
use udm.World.{World, M, Capsule, Address, Gateway, pure, the, gets, modify, skip, ◌>>=◌, ◌>>◌}
use udm.World.Memory.{copy_in, copy_out}
use udm.Factory.{sub32}

-- ADDR_LEN
abbrev pub addr_len : ℕ
addr_len = 15

-- "127.0.0.1" and its NUL
abbrev pub localhost : List ℕ
localhost = b'1' ∷ b'2' ∷ b'7' ∷ b'.' ∷ b'0' ∷ b'.' ∷ b'0' ∷ b'.' ∷ b'1' ∷ 0 ∷ []

abbrev pub same_bytes : List ℕ → List ℕ → Bool
same_bytes [] [] = true
same_bytes [] (_ ∷ _) = false
same_bytes (_ ∷ _) [] = false
same_bytes (x ∷ xs) (y ∷ ys) = x == y && same_bytes xs ys

-- `strcmp(data, "127.0.0.1") == 0`: the comparison ends at a NUL or a difference, within ten bytes.
unfoldable pub is_localhost : Address → Bool
is_localhost a = same_bytes (take 10 a) localhost

-- `for (i …) memcpy(cap->body + HEADER_SPACE + i * ADDR_LEN, interfaces[i].data, ADDR_LEN)`, with `n`
-- rounds left.
unfoldable pub write_addresses : ℕ → ℕ → Capsule → M Capsule
unfolding copy_in
write_addresses zero i c = pure c
write_addresses (suc n) i c = do
  w ← gets (λ w. w)
  a ← the (get_elem? w.gateway.address_list i)
  c' ← copy_in (header_space + i * addr_len) (take addr_len a) c
  write_addresses n (suc i) c'

-- `for (i …) memcpy(peer_addressList[i].data, buf->data->body + i * ADDR_LEN, ADDR_LEN)`.
unfoldable pub read_addresses : ℕ → ℕ → Capsule → M (List Address)
unfolding copy_out
read_addresses zero i c = pure []
read_addresses (suc n) i c = do
  a ← copy_out (i * addr_len) addr_len c
  rest ← read_addresses n (suc i) c
  pure (a ∷ rest)

-- What the loop over the list keeps in variables.
pub record Strip : Type 0 where
  pub addresses : List Address
  pub address_count : ℕ
  pub localhost_found : Bool

-- One round. `past_end` is what the last round reads behind the list.
unfoldable pub strip_step : Address → ℕ → Strip → Strip
unfolding is_localhost
strip_step past_end i s =
    let found = is_localhost (get_or s.addresses i past_end) in
    let after = s.localhost_found || found in
    record {
      addresses =
          if after then set s.addresses i (get_or s.addresses (suc i) past_end) else s.addresses;
      address_count = if found then sub32 s.address_count 1 else s.address_count;
      localhost_found = after;
    }

-- `n` rounds, from index `i` on.
unfoldable pub strip_localhost : Address → ℕ → ℕ → Strip → Strip
strip_localhost past_end zero i s = s
strip_localhost past_end (suc n) i s = strip_localhost past_end n (suc i) (strip_step past_end i s)

-- What the cases `setup` and `connected` of `process` have in common.
unfoldable pub take_peers : Capsule → M (Unit {0})
unfolding read_addresses strip_localhost
take_peers c = do
  w ← gets (λ w. w)
  let n = c.header.cap_size / addr_len
  rest ← read_addresses n 0 c
  let s =
      strip_localhost w.env.past_end n 0
        (record { addresses = rest; address_count = n; localhost_found = false })
  modify (λ w. record w {
    gateway = record w.gateway {
      peer_address_list = some s.addresses;
      peer_address_count = s.address_count;
    };
  })
