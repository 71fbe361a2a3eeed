-- ===== src/Setup/Texts.antt =====
-- The addresses of the interfaces as `PhyInterfaces` keeps them.
use udm.Base.{
  ℕ, zero, suc, ◌+◌, ◌-◌, ◌<◌, ◌≤◌, ◌==◌, ◌≡◌, refl, ◌∙◌, ap, ap₂, Bool, true, false, List, [], ◌∷◌,
  ◌++◌, if◌then◌else◌, length, replicate, take, drop, map, count, All, arith, inl, inr, Bool-cases,
  length-append, length-replicate, take-all,
}
use udm.World.{World, ok, halt, fault, Address}
use udm.World.Memory.{malloc}
use udm.Gateway.Count.{IsListing, list_interfaces_lem, count_interfaces_lem}
use udm.Session.Peers.{addr_len}
use udm.Setup.Text.{c_text, strcpy}
use udm.Gateway.Interfaces.{copy_texts, phy_interfaces, first_realloc, interfaces_to_ip_v4addr}

-- An IPv4 address as `inet_ntop` writes it: at most fifteen characters, none of them NUL.
abbrev pub Dotted : List ℕ → Type 0
Dotted text = (length text ≤ addr_len) × (c_text text ≡ text)

abbrev pub is_full : List ℕ → Bool
is_full text = length text == addr_len

-- The fifteen bytes that hold the text: a NUL follows it, unless it fills them.
abbrev pub entry : ℕ → List ℕ → Address
entry junk text = if is_full text then text else text ++ 0 ∷ replicate (14 - length text) junk

abbrev pub overrun_by : ℕ → World → World
overrun_by n w = record w { overrun = n }

-- A text that leaves room for its NUL.
copy-short :
    (n junk : ℕ) (text : List ℕ)
    → length text < n
    → take n (text ++ 0 ∷ []) ++ drop (length (text ++ 0 ∷ [])) (replicate n junk)
      ≡ text ++ 0 ∷ replicate (n - suc (length text)) junk
copy-short zero junk text short = absurd (omega arith)
copy-short (suc n) junk [] short =
    ap (◌∷◌ 0) (rw (take-all {A = ℕ} n [] (omega arith)) (ap (λ m. replicate m junk) (omega arith)))
copy-short (suc n) junk (x ∷ xs) short =
    ap (◌∷◌ x)
      (copy-short n junk xs (omega arith) ∙ ap (λ m. xs ++ 0 ∷ replicate m junk) (omega arith))

pub strcpy-short :
    (n junk : ℕ) (text : List ℕ) (w : World)
    → c_text text ≡ text
    → length text < n
    → strcpy (replicate n junk) text w ≡ ok (text ++ 0 ∷ replicate (n - suc (length text)) junk) w
unfolding strcpy
strcpy-short n junk text w whole short =
    let fits : w.overrun + (length (text ++ 0 ∷ []) - length (replicate n junk)) ≡ w.overrun =
      omega (arith, length-append text (0 ∷ []), length-replicate n junk) in
    rw (whole, strcpy)
      (ap
          (ok (
            take (length (replicate n junk)) (text ++ 0 ∷ [])
            ++ drop (length (text ++ 0 ∷ [])) (replicate n junk)))
          (ap (λ m. overrun_by m w) fits)
        ∙ ap (λ bytes. ok bytes w) (rw (length-replicate n junk) (copy-short n junk text short)))

-- A text that fills the buffer without its NUL.
copy-full :
    (n junk : ℕ) (text : List ℕ)
    → length text ≡ n
    → take n (text ++ 0 ∷ []) ++ drop (length (text ++ 0 ∷ [])) (replicate n junk) ≡ text
copy-full zero junk [] full = refl
copy-full zero junk (x ∷ xs) full = absurd (omega arith)
copy-full (suc n) junk [] full = absurd (omega arith)
copy-full (suc n) junk (x ∷ xs) full = ap (◌∷◌ x) (copy-full n junk xs (omega arith))

pub strcpy-full :
    (n junk : ℕ) (text : List ℕ) (w : World)
    → c_text text ≡ text
    → length text ≡ n
    → strcpy (replicate n junk) text w ≡ ok text (overrun_by (w.overrun + 1) w)
unfolding strcpy
strcpy-full n junk text w whole full =
    let over : w.overrun + (length (text ++ 0 ∷ []) - length (replicate n junk)) ≡ w.overrun + 1 =
      omega (arith, length-append text (0 ∷ []), length-replicate n junk) in
    rw (whole, strcpy)
      (ap
          (ok (
            take (length (replicate n junk)) (text ++ 0 ∷ [])
            ++ drop (length (text ++ 0 ∷ [])) (replicate n junk)))
          (ap (λ m. overrun_by m w) over)
        ∙ ap (λ bytes. ok bytes (overrun_by (w.overrun + 1) w))
            (rw (length-replicate n junk) (copy-full n junk text full)))

-- One text.
strcpy_lem :
    (text : List ℕ) (w : World)
    → Dotted text
    → strcpy (malloc addr_len w) text w
      ≡ ok (entry w.env.junk text) (overrun_by (w.overrun + count is_full (text ∷ [])) w)
strcpy_lem text w dotted = elim (Bool-cases (is_full text)) [
  | inl full ↦ rw full (strcpy-full addr_len w.env.junk text w dotted.1 (ground (arith, full)))
  | inr short ↦ rw short (
      strcpy-short addr_len w.env.junk text w dotted.1 (ground (arith, short, dotted.0))
      ∙ ap₂ (λ k n. ok (text ++ 0 ∷ replicate k w.env.junk) (overrun_by n w)) (omega arith)
          (omega arith))
]

copy_texts_lem :
    (texts : List (List ℕ)) (w : World)
    → All Dotted texts
    → copy_texts texts w
      ≡ ok (map (entry w.env.junk) texts) (overrun_by (w.overrun + count is_full texts) w)
unfolding copy_texts
copy_texts_lem [] w dotted = ap (λ m. ok [] (overrun_by m w)) (omega arith)
copy_texts_lem (t ∷ texts) w dotted =
    let w1 = overrun_by (w.overrun + count is_full (t ∷ [])) w in
    rw (strcpy_lem t w dotted.0, copy_texts)
      (rw (copy_texts_lem texts w1 dotted.1, copy_texts)
        (ap (λ n. ok (map (entry w.env.junk) (t ∷ texts)) (overrun_by n w)) (ground arith)))

-- The interfaces of the machine can be had: `ifc_buf` happens to be null, and `ioctl` lists IPv4 addresses.
pub record HasInterfaces (w : World) : Type 0 where
  pub null_buf : w.env.null_ifc_buf ≡ true
  pub listing : IsListing w
  pub dotted : All Dotted w.env.interfaces

first_realloc-null : (w : World) → w.env.null_ifc_buf ≡ true → first_realloc w ≡ ok tt w
unfolding first_realloc
first_realloc-null w null = ap (λ b. if b then ok tt w else halt fault w) null

-- When the unset pointer `ifc_buf` happens to be null, and `ioctl` does not fail and lists fewer than 2 ^ 24
-- IPv4 addresses of at most fifteen characters, the constructor of `PhyInterfaces` returns, counts them, and keeps each of them in fifteen bytes; an address of fifteen characters has
-- no NUL there, and one byte is written behind its entry for it.
pub phy_interfaces_lem :
    (w : World)
    → HasInterfaces w
    → phy_interfaces w
      ≡ ok tt (record (overrun_by (w.overrun + count is_full w.env.interfaces) w) {
        gateway = record w.gateway {
          infc = length w.env.interfaces;
          address_list = map (entry w.env.junk) w.env.interfaces;
        };
      })
unfolding phy_interfaces interfaces_to_ip_v4addr
phy_interfaces_lem w v =
    rw (first_realloc-null w v.null_buf, phy_interfaces)
      (rw (count_interfaces_lem w v.listing, phy_interfaces)
        (rw (list_interfaces_lem w v.listing, phy_interfaces)
          (rw (copy_texts_lem w.env.interfaces w v.dotted, phy_interfaces) refl)))

-- A pointer `ifc_buf` that is not null makes the constructor undefined: nothing has set it.
pub phy_interfaces-stale :
    (w : World) → w.env.null_ifc_buf ≡ false → phy_interfaces w ≡ halt fault w
unfolding phy_interfaces first_realloc
phy_interfaces-stale w stale =
    let stops : first_realloc w ≡ halt fault w =
      ap (λ b. if b then ok tt w else halt fault w) stale in
    rw (stops, phy_interfaces) refl
