-- ===== src/Session/Telling.antt =====
-- The capsules that tell the other end the addresses of this one: `setCapParams` in the states `setup`
-- and `connected`, and how they go out.
use udm.Base.{
  ℕ, zero, suc, ◌+◌, ◌-◌, ◌*◌, ◌≤◌, ◌<◌, ◌%◌, ◌^◌, ◌≡◌, refl, sym, ap, ◌∙◌, false, List, [], ◌++◌,
  arith, length, replicate, replicate-append, length-replicate,
}
use udm.Wire.{CapsuleHdr, zero_hdr, StateCode, header_space}
use udm.World.{World, ok, Ref, Capsule}
use udm.World.Memory.{put}
use udm.World.Laws.{buffer_of}
use udm.Factory.{add32}
use udm.Gateway.Count.{IsListing, count_interfaces_lem}
use udm.Session.Peers.{addr_len, write_addresses}
use udm.Session.Peers.Told.{AllWhole, bytes_of, write_addresses_lem}
use udm.Session.Processor.{Params, win_siz, with_params, set_cap_params}

-- `ioctl` lists the interfaces, each is kept with its fifteen bytes, and they fit a chunk.
pub record IsTelling (w : World) : Type 0 where
  pub whole : AllWhole w.gateway.address_list
  pub counted : length w.gateway.address_list ≡ length w.env.interfaces
  pub succeeds : (room : ℕ) → w.env.ioctl_fails room ≡ false
  pub fits : header_space + length w.gateway.address_list * addr_len ≤ w.tx_factory.chunk_size
  pub small : addr_len * length w.gateway.address_list < 2 ^ 16

IsTelling-sized :
    (w : World) (k : ℕ)
    → IsTelling w
    → IsTelling (record w { session = record w.session { win_size = k } })
IsTelling-sized w k v = record {
  whole = v.whole;
  counted = v.counted;
  succeeds = v.succeeds;
  fits = v.fits;
  small = v.small;
}

telling-IsListing : (w : World) → IsTelling w → IsListing w
telling-IsListing w v = record {
  succeeds = v.succeeds;
  few = let counted = v.counted in let small = v.small in omega arith;
}

AllWhole-blank : (k j : ℕ) → AllWhole (replicate k (replicate addr_len j))
AllWhole-blank zero j = tt
AllWhole-blank (suc k) j = (length-replicate addr_len j, AllWhole-blank k j)

bytes_of-blank :
    (k j : ℕ) → bytes_of (replicate k (replicate addr_len j)) ≡ replicate (k * addr_len) j
bytes_of-blank zero j = refl
bytes_of-blank (suc k) j =
    let most : suc k * addr_len - addr_len ≡ k * addr_len = omega arith in
    ap (◌++◌ (replicate addr_len j)) (bytes_of-blank k j ∙ ap (λ m. replicate m j) (sym most))
    ∙ sym (replicate-append addr_len (suc k * addr_len) j (omega arith))

-- The block of a new capsule once the addresses are in it.
abbrev pub behind : World → List ℕ
behind w =
    replicate (w.tx_factory.chunk_size - (header_space + length w.gateway.address_list * addr_len))
      w.env.junk

abbrev pub told_block : World → List ℕ
told_block w = replicate header_space w.env.junk ++ (bytes_of w.gateway.address_list ++ behind w)

blank_block :
    (w : World)
    → IsTelling w
    → replicate w.tx_factory.chunk_size w.env.junk
      ≡ replicate header_space w.env.junk
        ++ (bytes_of (replicate (length w.gateway.address_list) (replicate addr_len w.env.junk))
            ++ behind w)
blank_block w v =
    let j = w.env.junk in
    let n = w.tx_factory.chunk_size in
    let k = length w.gateway.address_list * addr_len in
    let rest : n - header_space - k ≡ n - (header_space + k) = omega arith in
    let fits = v.fits in
    replicate-append header_space n j (omega arith)
    ∙ ap (◌++◌ (replicate header_space j)) (
        replicate-append k (n - header_space) j (omega arith)
        ∙ ap (λ m. replicate k j ++ replicate m j) rest
        ∙ ap (λ b. b ++ behind w) (sym (bytes_of-blank (length w.gateway.address_list) j)))

written :
    (w : World) (h : CapsuleHdr)
    → IsTelling w
    → write_addresses
        (length w.env.interfaces)
        0
        (record { header = h; block = replicate w.tx_factory.chunk_size w.env.junk; off = 0 })
        w
      ≡ ok (record { header = h; block = told_block w; off = 0 }) w
written w h v =
    let a = w.gateway.address_list in
    let j = w.env.junk in
    let c : Capsule = record {
      header = h;
      block = replicate w.tx_factory.chunk_size w.env.junk;
      off = 0;
    } in
    ap (λ k. write_addresses k 0 c w) (sym v.counted)
    ∙ write_addresses_lem [] a (replicate (length a) (replicate addr_len j)) 0 w c
        (replicate header_space j) (behind w) refl refl v.whole (AllWhole-blank (length a) j)
        (length-replicate (length a) (replicate addr_len j))
        (omega (arith, length-replicate header_space j)) (blank_block w v)

-- The size that the header gives.
abbrev pub told_size : World → ℕ
told_size w = addr_len * length w.gateway.address_list

size_of : (w : World) → IsTelling w → addr_len * length w.env.interfaces % 2 ^ 16 ≡ told_size w
size_of w v = ap (λ k. addr_len * k % 2 ^ 16) (sym v.counted) ∙ (let s = v.small in omega arith)

-- The header of a capsule of the state `setup`, and of one of the state `connected`.
abbrev pub setup_header : World → Params → CapsuleHdr
setup_header w p = with_params (record zero_hdr { cap_size = told_size w }) p w.session.capsule_id

abbrev pub connected_header : World → Params → CapsuleHdr
connected_header w p =
    with_params (record zero_hdr { cap_size = told_size w; cap_win_siz = win_siz }) p
      w.session.capsule_id

pub set_cap_params-setup :
    (r : Ref) (p : Params) (w : World) (n i : ℕ)
    → w.mem r
      ≡ buffer_of n (record zero_hdr { capid = i }) (replicate w.tx_factory.chunk_size w.env.junk) 0
    → IsTelling w
    → set_cap_params r p StateCode.setup w
      ≡ ok tt (record w {
        mem = put w.mem r (buffer_of n (setup_header w p) (told_block w) 0);
        session = record w.session { capsule_id = add32 w.session.capsule_id 1 };
      })
unfolding set_cap_params
set_cap_params-setup r p w n i e v =
    rw (e, set_cap_params)
      (rw (count_interfaces_lem w (telling-IsListing w v), set_cap_params)
        (rw (written w _ v, set_cap_params) (rw (size_of w v) (rw e))))

pub set_cap_params-connected :
    (r : Ref) (p : Params) (w : World) (n i : ℕ)
    → w.mem r
      ≡ buffer_of n (record zero_hdr { capid = i }) (replicate w.tx_factory.chunk_size w.env.junk) 0
    → IsTelling w
    → set_cap_params r p StateCode.connected w
      ≡ ok tt (record w {
        mem = put w.mem r (buffer_of n (connected_header w p) (told_block w) 0);
        session = record w.session {
          win_size = win_siz;
          capsule_id = add32 w.session.capsule_id 1;
        };
      })
unfolding set_cap_params
set_cap_params-connected r p w n i e v =
    let w' = record w { session = record w.session { win_size = win_siz } } in
    rw (e, set_cap_params)
      (rw
        (
          count_interfaces_lem w' (telling-IsListing w' (IsTelling-sized w win_siz v)),
          set_cap_params,
        )
        (rw (written w' _ (IsTelling-sized w win_siz v), set_cap_params) (rw (size_of w v) (rw e))))
