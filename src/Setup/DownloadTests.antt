-- ===== src/Setup/DownloadTests.antt =====
-- The two programs on small machines.
use udm.Base.{refl, some, List, [], ◌∷◌, ℕ, arith}
use udm.World.{World}
use udm.Samples.{inet, machine, world, small, nobody, other}
use udm.Session.Peers.{is_localhost}
use udm.Session.Ends.{IsTransferred}
use udm.Setup.Text.{c_text}
use udm.Setup.Server.{IsServing}
use udm.Setup.Running.{IsHost}
use udm.Setup.Ready.{IsClient, output_file}
use udm.Setup.Download.{download}
use udm.Setup.Programs.{server, client}

-- 10.0.0.7 and 127.0.0.1
abbrev ten : List ℕ
ten = b'1' ∷ b'0' ∷ b'.' ∷ b'0' ∷ b'.' ∷ b'0' ∷ b'.' ∷ b'7' ∷ []

abbrev loopback : List ℕ
loopback = b'1' ∷ b'2' ∷ b'7' ∷ b'.' ∷ b'0' ∷ b'.' ∷ b'0' ∷ b'.' ∷ b'1' ∷ []

-- A machine with one card and a file of three bytes.
abbrev host : World
host = record (world small small []) {
  env = record machine {
    interfaces = loopback ∷ ten ∷ [];
    get_addr_info = λ host service. some (inet, []);
  };
}

host-IsHost : IsHost host
unfolding c_text is_localhost
host-IsHost = record {
  interfaces = record {
    null_buf = refl;
    listing = record { succeeds = λ room. refl; few = omega arith };
    dotted = ((omega arith, refl), ((omega arith, refl), tt));
  };
  fit = omega arith;
  few = omega arith;
  some_other = omega arith;
  sent = λ i. refl;
  turns = omega arith;
}

host-IsServing : IsServing host ten inet [] 3
host-IsServing = record { found = refl; made = refl; is_real = omega arith; free = refl }

host-IsClient : IsClient host ten ten ten inet [] 3
unfolding c_text
host-IsClient = record {
  host_text = refl;
  service_text = refl;
  host_room = omega arith;
  service_room = omega arith;
  found = refl;
  made = refl;
  is_real = omega arith;
  can_create = refl;
}

download_example :
    IsTransferred 0 host host
      (λ xs. server 5 (ten ∷ ten ∷ ten ∷ []) (record host { incoming = xs }))
      (λ xs. client 5 (ten ∷ ten ∷ ten ∷ ten ∷ []) (record host { incoming = xs }))
      (output_file host)
      nobody
      other
      (1 ∷ 2 ∷ 3 ∷ [])
      []
      []
download_example =
    download host host 2 ten ten ten ten ten ten ten (1 ∷ 2 ∷ 3 ∷ []) inet inet [] [] 3 3 nobody
      other [] [] host-IsHost host-IsHost host-IsServing host-IsClient refl refl (omega arith)
      (omega arith) refl (omega arith) (omega arith)
