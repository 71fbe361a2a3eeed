-- ===== src/Gateway/Tests.antt =====
-- Datagrams in and out.
use udm.Base.{◌≡◌, refl, [], ◌∷◌, ◌++◌, arith, true, replicate}
use udm.Wire.{IsHdr, encode}
use udm.World.{World, ok}
use udm.World.Memory.{put}
use udm.World.Laws.{buffer_of}
use udm.Gateway.Count.{count_interfaces_lem}
use udm.Gateway.Interfaces.{count_interfaces}
use udm.Gateway.{pull, send}
use udm.Gateway.Receive.{pulled, pull_lem}
use udm.Gateway.Send.{IsRouted, destination, send_lem}
use udm.Samples.{ack, other, told, hearing, eth_address}

ack-IsHdr : IsHdr ack
ack-IsHdr = omega arith

pull_lem_example : pull hearing ≡ ok 1 (pulled hearing ack (1 ∷ 2 ∷ 3 ∷ []) other [])
pull_lem_example = pull_lem hearing ack (1 ∷ 2 ∷ 3 ∷ []) other true [] refl ack-IsHdr (omega arith)

-- A capsule with three bytes of payload behind the room for its header.
abbrev filled : World
filled = record told {
  mem = λ r.
      buffer_of 17 (record ack { cap_size = 3 }) (replicate 14 0 ++ ((1 ∷ 2 ∷ 3 ∷ []) ++ 9 ∷ [])) 0;
}

filled-IsRouted : IsRouted filled (eth_address ∷ [])
filled-IsRouted = record {
  told = refl;
  some_left = omega arith;
  within = omega arith;
  no_wrap = omega arith;
}

send_lem_example :
    send 4 filled
    ≡ ok tt (record filled {
      mem = put filled.mem 4 (
          buffer_of 17
            (record ack { cap_size = 3 })
            (encode (record ack { cap_size = 3 }) ++ ((1 ∷ 2 ∷ 3 ∷ []) ++ 9 ∷ []))
            0);
      addr_index = 1;
      sends = 1;
      outgoing =
          record {
            to = destination filled (eth_address ∷ []);
            bytes = encode (record ack { cap_size = 3 }) ++ 1 ∷ 2 ∷ 3 ∷ [];
          }
          ∷ [];
    })
send_lem_example =
    send_lem 4 filled 17 _ (replicate 14 0) (1 ∷ 2 ∷ 3 ∷ []) (9 ∷ []) (eth_address ∷ []) refl refl
      refl filled-IsRouted refl

count_interfaces_lem_example : count_interfaces told ≡ ok 2 told
count_interfaces_lem_example =
    count_interfaces_lem told (record { succeeds = λ room. refl; few = omega arith })

-- Where `ioctl` always fails.
abbrev failing : World
failing = record told { env = record told.env { ioctl_fails = λ room. true } }
