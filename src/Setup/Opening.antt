-- ===== src/Setup/Opening.antt =====
-- What `udm_socket` and `bindAddress` do on every list of addresses.
use udm.Base.{
  ℕ, suc, ◌+◌, ◌==◌, ◌≡◌, refl, ◌∙◌, ap, subst, sym, Option, none, some, Bool, false, not, List, [],
  ◌∷◌, ◌++◌, if◌then◌else◌, keep, length, arith, ◌||◌, inl, inr, Bool-cases,
}
use udm.World.{World, Run, ok, halt, Env, AddrInfo, exited}
use udm.Setup.Sockets.{set_sockets, socket, first_socket, close, bind, bind_address}
use udm.Setup.Context.{udm_socket}

-- `socket` gives -1 for all of the addresses, beginning with call `n`.
abbrev pub Fail : Env → ℕ → List AddrInfo → Type 0
Fail e n [] = Unit
Fail e n (a ∷ rest) = (e.socket n a ≡ none) × Fail e (suc n) rest

-- The world after calls of `socket` that gave -1; the next is the `n`-th.
abbrev pub tried : ℕ → World → World
tried n w = set_sockets (λ s. record s { calls = n }) w

-- The world in which `fd` came of the call before the `n`-th.
abbrev pub found : ℕ → ℕ → World → World
found n fd w = set_sockets (λ s. record s { calls = n; opened = fd ∷ s.opened }) w

first_socket-found :
    (before : List AddrInfo) (a : AddrInfo) (rest : List AddrInfo) (fd : ℕ) (w : World)
    → Fail w.env w.sockets.calls before
    → w.env.socket (w.sockets.calls + length before) a ≡ some fd
    → first_socket (before ++ a ∷ rest) w
      ≡ ok (some fd) (found (w.sockets.calls + suc (length before)) fd w)
unfolding first_socket socket
first_socket-found [] a rest fd w fails e =
    let now : w.env.socket w.sockets.calls a ≡ some fd =
      subst (λ n. w.env.socket n a ≡ some fd) (omega arith) e in
    rw (now, first_socket) (ap (λ n. ok (some fd) (found n fd w)) (omega arith))
first_socket-found (b ∷ before) a rest fd w fails e =
    let later : w.env.socket (suc w.sockets.calls + length before) a ≡ some fd =
      subst (λ n. w.env.socket n a ≡ some fd) (omega arith) e in
    rw (fails.0, first_socket)
      (first_socket-found before a rest fd (tried (suc w.sockets.calls) w) fails.1 later
        ∙ ap (λ n. ok (some fd) (found n fd w)) (omega arith))

first_socket-none :
    (addresses : List AddrInfo) (w : World)
    → Fail w.env w.sockets.calls addresses
    → first_socket addresses w ≡ ok none (tried (w.sockets.calls + length addresses) w)
unfolding first_socket socket
first_socket-none [] w fails = ap (λ n. ok none (tried n w)) (omega arith)
first_socket-none (a ∷ rest) w fails =
    rw (fails.0, first_socket)
      (first_socket-none rest (tried (suc w.sockets.calls) w) fails.1
        ∙ ap (λ n. ok none (tried n w)) (omega arith))

-- What `udm_socket` answers: the descriptor of the first address for which there is one, which the
-- context keeps, or the end of the program.
abbrev pub socket_answer : Option ℕ → ℕ → World → Run ℕ
socket_answer (some fd) n w =
    ok fd (set_sockets (λ s. record s { calls = n; opened = fd ∷ s.opened; sfd = some fd }) w)
socket_answer none n w = halt (exited 1) (set_sockets (λ s. record s { calls = n; sfd = none }) w)

-- When `socket` gives -1 for the addresses of `before`, `udm_socket` returns the descriptor that it
-- gives for the next address, which is open then and set in the context, and tries none behind it.
pub udm_socket-found :
    (before : List AddrInfo) (a : AddrInfo) (rest : List AddrInfo) (fd : ℕ) (w : World)
    (ep : AddrInfo × List AddrInfo)
    → ep.0 ∷ ep.1 ≡ before ++ a ∷ rest
    → Fail w.env w.sockets.calls before
    → w.env.socket (w.sockets.calls + length before) a ≡ some fd
    → udm_socket ep w ≡ socket_answer (some fd) (w.sockets.calls + suc (length before)) w
unfolding udm_socket
udm_socket-found before a rest fd w ep split fails e =
    let tries : first_socket (ep.0 ∷ ep.1) w
        ≡ ok (some fd) (found (w.sockets.calls + suc (length before)) fd w) =
      subst
        (λ addresses.
          first_socket addresses w
          ≡ ok (some fd) (found (w.sockets.calls + suc (length before)) fd w))
        (sym split) (first_socket-found before a rest fd w fails e) in
    rw (tries, udm_socket) refl

-- When `socket` gives -1 for every address, `udm_socket` sets -1 in the context and ends the program
-- with status 1.
pub udm_socket-none :
    (w : World) (ep : AddrInfo × List AddrInfo)
    → Fail w.env w.sockets.calls (ep.0 ∷ ep.1)
    → udm_socket ep w ≡ socket_answer none (w.sockets.calls + length (ep.0 ∷ ep.1)) w
unfolding udm_socket
udm_socket-none w ep fails = rw (first_socket-none (ep.0 ∷ ep.1) w fails, udm_socket) refl

abbrev pub mem : ℕ → List ℕ → Bool
mem fd [] = false
mem fd (x ∷ xs) = x == fd || mem fd xs

mem-keep : (fd : ℕ) (fds : List ℕ) → mem fd (keep (λ x. not (x == fd)) fds) ≡ false
mem-keep fd [] = refl
mem-keep fd (x ∷ xs) = ground (arith, mem-keep fd xs)

keep-absent : (fd : ℕ) (fds : List ℕ) → mem fd fds ≡ false → keep (λ x. not (x == fd)) fds ≡ fds
keep-absent fd [] e = refl
keep-absent fd (x ∷ xs) e = elim (Bool-cases (x == fd)) [
  | inl same ↦ absurd (ground (arith, e, same))
  | inr other ↦ ground (arith, other, e, keep-absent fd xs)
]

-- `bind` fails on a descriptor that is not open (EBADF).
abbrev pub KnowsOpen : Env → Type 0
KnowsOpen e = (fds : List ℕ) (fd : ℕ) (a : AddrInfo) → mem fd fds ≡ false → e.bind fds fd a ≡ false

-- The world without the descriptor `fd`.
abbrev pub closed : ℕ → World → World
closed fd w = set_sockets (λ s. record s { opened = keep (λ x. not (x == fd)) s.opened }) w

closed-absent : (fd : ℕ) (w : World) → mem fd w.sockets.opened ≡ false → closed fd w ≡ w
closed-absent fd w absent =
    ap (λ fds. set_sockets (λ s. record s { opened = fds }) w)
      (keep-absent fd w.sockets.opened absent)

-- On a closed descriptor the loop tries all addresses in vain.
bind_address-closed :
    (addresses : List AddrInfo) (fd : ℕ) (w : World)
    → KnowsOpen w.env
    → mem fd w.sockets.opened ≡ false
    → bind_address addresses fd w ≡ halt (exited 1) w
unfolding bind_address bind close
bind_address-closed [] fd w knows absent = refl
bind_address-closed (a ∷ rest) fd w knows absent =
    rw (knows w.sockets.opened fd a absent, bind_address)
      (ap (bind_address rest fd) (closed-absent fd w absent)
        ∙ bind_address-closed rest fd w knows absent)

-- When `bind` fails on a descriptor that is not open, `bindAddress` binds the first address or ends the
-- program with status 1 and the descriptor closed: the other addresses are never bound.
pub bind_address-first :
    (a : AddrInfo) (rest : List AddrInfo) (fd : ℕ) (w : World)
    → KnowsOpen w.env
    → bind_address (a ∷ rest) fd w ≡ (
        if w.env.bind w.sockets.opened fd a
        then ok tt (set_sockets (λ s. record s { bound = s.bound ++ (fd, a) ∷ [] }) w)
        else halt (exited 1) (closed fd w))
unfolding bind_address bind close
bind_address-first a rest fd w knows = elim (Bool-cases (w.env.bind w.sockets.opened fd a)) [
  | inl bound ↦ rw (bound, bind_address) refl
  | inr not_bound ↦
      rw (not_bound, bind_address)
        (bind_address-closed rest fd (closed fd w) knows (mem-keep fd w.sockets.opened))
]
