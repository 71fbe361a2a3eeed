-- ===== src/Session/Peers/Told.antt =====
-- The addresses that one end writes into a body, and the other end reads from it.
use udm.Base.{
  ℕ, suc, ◌+◌, ◌*◌, ◌≡◌, refl, sym, ap, subst, ◌∙◌, some, List, [], ◌∷◌, ◌++◌, arith, length, take,
  drop, drop-length-append, take-all, get_elem?, append_assoc, length-append,
}
use udm.Wire.{header_space}
use udm.World.{World, ok, Capsule, Address}
use udm.World.Memory.{overwrite, slice, copy_in}
use udm.World.Laws.{overwrite-append, slice-append}
use udm.Session.Peers.{addr_len, write_addresses, read_addresses}

-- Every address has its fifteen bytes.
abbrev pub AllWhole : List Address → Type 0
AllWhole [] = Unit
AllWhole (a ∷ rest) = (length a ≡ addr_len) × AllWhole rest

abbrev pub bytes_of : List Address → List ℕ
bytes_of [] = []
bytes_of (a ∷ rest) = a ++ bytes_of rest

get_elem?-append :
    (front : List Address) (a : Address) (rest : List Address)
    → get_elem? (front ++ a ∷ rest) (length front) ≡ some a
get_elem?-append [] a rest = refl
get_elem?-append (b ∷ front) a rest = get_elem?-append front a rest

pub read_addresses_lem :
    (addresses : List Address) (i : ℕ) (w : World) (c : Capsule) (pre post : List ℕ)
    → AllWhole addresses
    → length pre ≡ c.off + i * addr_len
    → c.block ≡ pre ++ (bytes_of addresses ++ post)
    → read_addresses (length addresses) i c w ≡ ok addresses w
unfolding read_addresses
read_addresses_lem [] i w c pre post v l e = refl
read_addresses_lem (a ∷ rest) i w c pre post v l e =
    let block : c.block ≡ pre ++ (a ++ (bytes_of rest ++ post)) =
      e ∙ ap (◌++◌ pre) (append_assoc a (bytes_of rest) post) in
    let here : slice c.block (c.off + i * addr_len) addr_len ≡ some a =
      subst (λ b. slice b (c.off + i * addr_len) addr_len ≡ some a) (sym block)
        (slice-append pre a (bytes_of rest ++ post) _ _ (sym l) (sym v.0)) in
    let ih =
      read_addresses_lem rest (suc i) w c (pre ++ a) post v.1
        (let n = length-append pre a in let k = v.0 in omega arith)
        (block ∙ sym (append_assoc pre a _)) in
    rw (here, read_addresses) (rw (ih, read_addresses) refl)

pub write_addresses_lem :
    (front addresses olds : List Address) (i : ℕ) (w : World) (c : Capsule) (pre post : List ℕ)
    → w.gateway.address_list ≡ front ++ addresses
    → i ≡ length front
    → AllWhole addresses
    → AllWhole olds
    → length olds ≡ length addresses
    → length pre ≡ c.off + (header_space + i * addr_len)
    → c.block ≡ pre ++ (bytes_of olds ++ post)
    → write_addresses (length addresses) i c w
      ≡ ok (record c { block = pre ++ (bytes_of addresses ++ post) }) w
unfolding write_addresses
write_addresses_lem front [] [] i w c pre post list at_i v u n l e =
    ap (λ b. ok (record c { block = b }) w) e
write_addresses_lem front [] (o ∷ os) i w c pre post list at_i v u n l e = absurd (omega arith)
write_addresses_lem front (a ∷ rest) [] i w c pre post list at_i v u n l e = absurd (omega arith)
write_addresses_lem front (a ∷ rest) (o ∷ os) i w c pre post list at_i v u n l e =
    let block : c.block ≡ pre ++ (o ++ (bytes_of os ++ post)) =
      e ∙ ap (◌++◌ pre) (append_assoc o (bytes_of os) post) in
    let c' = record c { block = (pre ++ a) ++ (bytes_of os ++ post) } in
    let found : get_elem? w.gateway.address_list i ≡ some a =
      subst (λ k. get_elem? w.gateway.address_list k ≡ some a) (sym at_i)
        (subst (λ xs. get_elem? xs (length front) ≡ some a) (sym list)
          (get_elem?-append front a rest)) in
    let whole : take addr_len a ≡ a = take-all addr_len a (let k = v.0 in omega arith) in
    let over : overwrite c.block (c.off + (header_space + i * addr_len)) a
        ≡ some ((pre ++ a) ++ (bytes_of os ++ post)) =
      subst
        (λ b.
          overwrite b (c.off + (header_space + i * addr_len)) a
          ≡ some ((pre ++ a) ++ (bytes_of os ++ post)))
        (sym block)
        (overwrite-append pre o a (bytes_of os ++ post) _ (sym l) (u.0 ∙ sym v.0)
          ∙ ap some (sym (append_assoc pre a _))) in
    let ih =
      write_addresses_lem (front ++ a ∷ []) rest os (suc i) w c' (pre ++ a) post
        (list ∙ sym (append_assoc front (a ∷ []) rest))
        (let k = length-append front (a ∷ []) in omega arith) v.1 u.1 (omega arith)
        (let k = length-append pre a in let j = v.0 in omega arith) refl in
    let last : ok (record c { block = (pre ++ a) ++ (bytes_of rest ++ post) }) w
        ≡ ok (record c { block = pre ++ (bytes_of (a ∷ rest) ++ post) }) w =
      ap (λ b. ok (record c { block = b }) w)
        (append_assoc pre a _ ∙ ap (◌++◌ pre) (sym (append_assoc a _ _))) in
    rw (found, write_addresses) (rw (whole, over, copy_in) (rw (ih, write_addresses) last))

-- When a body begins with room for a header and for all addresses of this end, each of fifteen bytes,
-- writing them succeeds, and the other end, whose body has any other header in front, reads the same
-- list behind it.
pub read-write_addresses :
    (w w' : World) (c : Capsule) (head pre post : List ℕ) (olds : List Address)
    → AllWhole w.gateway.address_list
    → AllWhole olds
    → length olds ≡ length w.gateway.address_list
    → c.off ≡ 0
    → length pre ≡ header_space
    → length head ≡ header_space
    → c.block ≡ pre ++ (bytes_of olds ++ post)
    → (c' : Capsule) × ((write_addresses (length w.gateway.address_list) 0 c w ≡ ok c' w)
        × (read_addresses
              (length w.gateway.address_list)
              0
              (record c' { block = head ++ drop header_space c'.block; off = header_space })
              w'
            ≡ ok w.gateway.address_list w'))
read-write_addresses w w' c head pre post olds v u n at_front l m e =
    let addresses = w.gateway.address_list in
    (
      record c { block = pre ++ (bytes_of addresses ++ post) },
      (
        write_addresses_lem [] addresses olds 0 w c pre post refl refl v u n (omega arith) e,
        read_addresses_lem addresses 0 w' _ head post v (omega arith)
            (ap (◌++◌ head) (drop-length-append pre _ header_space (sym l))),
      ),
    )
