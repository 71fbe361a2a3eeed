-- ===== src/Session/Peers/Localhost.antt =====
-- What the removal of the loopback address leaves of the peer's list.
use udm.Base.{
  ℕ, suc, ◌+◌, ◌-◌, ◌≤◌, ◌<◌, ◌^◌, ◌≡◌, refl, ap, Bool, true, false, not, List, [], ◌∷◌, ◌++◌,
  arith, if◌then◌else◌, length, take, get_or, set, keep, count, ltb, length-append,
  take-length-append, append_assoc, Bool-cases, inl, inr,
}
use udm.Factory.{sub32}
use udm.World.{Address}
use udm.Session.Peers.{Strip, is_localhost, strip_step, strip_localhost}

module _ {ℓ} {A : Type ℓ} where
  get_or-append : (pre : List A) (x d : A) (xs : List A) → get_or (pre ++ x ∷ xs) (length pre) d ≡ x
  get_or-append [] x d xs = refl
  get_or-append (p ∷ pre) x d xs = get_or-append pre x d xs

  get_or-append_next :
      (pre : List A) (x d : A) (xs : List A)
      → get_or (pre ++ x ∷ xs) (suc (length pre)) d ≡ get_or xs 0 d
  get_or-append_next [] x d [] = refl
  get_or-append_next [] x d (y ∷ xs) = refl
  get_or-append_next (p ∷ pre) x d xs = get_or-append_next pre x d xs

  set-append :
      (pre : List A) (x v : A) (xs : List A) → set (pre ++ x ∷ xs) (length pre) v ≡ pre ++ v ∷ xs
  set-append [] x v xs = refl
  set-append (p ∷ pre) x v xs = ap (◌∷◌ p) (set-append pre x v xs)

  pub snoc : (pre : List A) (x : A) (xs : List A) → (pre ++ x ∷ []) ++ xs ≡ pre ++ x ∷ xs
  snoc pre x xs = append_assoc pre (x ∷ []) xs

  -- The list moved up by one place, over its first element.
  abbrev pub moved_up : A → List A → List A
  moved_up d [] = []
  moved_up d (x ∷ xs) = xs ++ d ∷ []

abbrev pub strip_state : List Address → ℕ → Bool → Strip
strip_state xs c b = record { addresses = xs; address_count = c; localhost_found = b }

module _ (past : Address) where
  step-found :
      (pre : List Address) (x : Address) (xs : List Address) (c : ℕ)
      → is_localhost x ≡ false
      → strip_step past (length pre) (strip_state (pre ++ x ∷ xs) c true)
        ≡ strip_state (pre ++ get_or xs 0 past ∷ xs) c true
  unfolding strip_step
  step-found pre x xs c e =
      rw (get_or-append pre x past xs, e, get_or-append_next pre x past xs, set-append pre x _ xs)

  step-skip :
      (pre : List Address) (x : Address) (xs : List Address) (c : ℕ)
      → is_localhost x ≡ false
      → strip_step past (length pre) (strip_state (pre ++ x ∷ xs) c false)
        ≡ strip_state (pre ++ x ∷ xs) c false
  unfolding strip_step
  step-skip pre x xs c e = rw (get_or-append pre x past xs, e)

  step-localhost :
      (pre : List Address) (x : Address) (xs : List Address) (c : ℕ)
      → is_localhost x ≡ true
      → strip_step past (length pre) (strip_state (pre ++ x ∷ xs) c false)
        ≡ strip_state (pre ++ get_or xs 0 past ∷ xs) (sub32 c 1) true
  unfolding strip_step
  step-localhost pre x xs c e =
      rw (get_or-append pre x past xs, e, get_or-append_next pre x past xs, set-append pre x _ xs)

  -- Behind the loopback address the rest of the list moves up.
  loop-found :
      (xs pre : List Address) (c i : ℕ)
      → count is_localhost xs ≡ 0
      → i ≡ length pre
      → strip_localhost past (length xs) i (strip_state (pre ++ xs) c true)
        ≡ strip_state (pre ++ moved_up past xs) c true
  unfolding strip_localhost
  loop-found [] pre c i h e = refl
  loop-found (x ∷ []) pre c i h e = elim (Bool-cases (is_localhost x)) [
    | inl lo ↦ absurd (ground arith)
    | inr other ↦ rw (e, step-found pre x [] c other, strip_localhost)
  ]
  loop-found (x ∷ y ∷ ys) pre c i h e =
      let ih : strip_localhost past (length (y ∷ ys)) (suc (length pre))
            (strip_state ((pre ++ y ∷ []) ++ y ∷ ys) c true)
          ≡ strip_state ((pre ++ y ∷ []) ++ moved_up past (y ∷ ys)) c true =
        loop-found (y ∷ ys) (pre ++ y ∷ []) c (suc (length pre)) (ground arith)
          (omega (arith, length-append pre (y ∷ []))) in
      elim (Bool-cases (is_localhost x)) [
        | inl lo ↦ absurd (ground arith)
        | inr other ↦
            rw (e, step-found pre x (y ∷ ys) c other, strip_localhost) (simp (append_assoc) at ih)
      ]

  -- The list that the loop leaves.
  abbrev pub without : List Address → List Address
  without [] = []
  without (x ∷ xs) = if is_localhost x then xs ++ past ∷ [] else x ∷ without xs

  -- What the first address of the rest is once the loopback address is overwritten.
  loop-after :
      (xs pre : List Address) (c : ℕ)
      → count is_localhost xs ≡ 0
      → strip_localhost past
          (length xs)
          (suc (length pre))
          (strip_state (pre ++ get_or xs 0 past ∷ xs) c true)
        ≡ strip_state (pre ++ (xs ++ past ∷ [])) c true
  unfolding strip_localhost
  loop-after [] pre c h = refl
  loop-after (y ∷ ys) pre c h = simp append_assoc at (
      loop-found (y ∷ ys) (pre ++ y ∷ []) c (suc (length pre)) h
        (omega (arith, length-append pre (y ∷ []))))

  loop_lem :
      (xs pre : List Address) (c i : ℕ)
      → count is_localhost xs ≤ 1
      → count is_localhost xs ≤ c
      → c < 2 ^ 32
      → i ≡ length pre
      → strip_localhost past (length xs) i (strip_state (pre ++ xs) c false)
        ≡ strip_state
            (pre ++ without xs)
            (c - count is_localhost xs)
            (ltb 0 (count is_localhost xs))
  unfolding strip_localhost
  loop_lem [] pre c i h k l e = ap (λ k. strip_state (pre ++ []) k false) (omega arith)
  loop_lem (x ∷ xs) pre c i h k l e = elim (Bool-cases (is_localhost x)) [
    | inl lo ↦
        let none_left : count is_localhost xs ≡ 0 = ground arith in
        rw (e, step-localhost pre x xs c lo, strip_localhost, lo)
          (ground (arith, loop-after xs pre (sub32 c 1) none_left))
    | inr other ↦
        let le1 : count is_localhost xs ≤ 1 = ground arith in
        let lec : count is_localhost xs ≤ c = ground arith in
        rw (e, step-skip pre x xs c other, strip_localhost, other)
          (simp append_assoc at (
            loop_lem xs (pre ++ x ∷ []) c (suc (length pre)) le1 lec l
              (omega (arith, length-append pre (x ∷ [])))))
  ]

  abbrev other_host : Address → Bool
  other_host a = not (is_localhost a)

  keep-all : (xs : List Address) → count is_localhost xs ≡ 0 → keep other_host xs ≡ xs
  keep-all [] h = refl
  keep-all (x ∷ xs) h = ground (arith, keep-all xs)

  length-keep :
      (xs : List Address) → length (keep other_host xs) + count is_localhost xs ≡ length xs
  length-keep [] = omega arith
  length-keep (x ∷ xs) = ground (arith, length-keep xs)

  take-without :
      (xs : List Address)
      → count is_localhost xs ≤ 1
      → take (length (keep other_host xs)) (without xs) ≡ keep other_host xs
  take-without [] h = refl
  take-without (x ∷ xs) h = elim (Bool-cases (is_localhost x)) [
    | inl lo ↦
        let none_left : count is_localhost xs ≡ 0 = ground arith in
        rw (lo, keep-all xs none_left) (take-length-append xs (past ∷ []) (length xs) refl)
    | inr other ↦ rw other (ap (◌∷◌ x) (take-without xs (ground arith)))
  ]

-- With at most one loopback address among the peer's addresses, the loop leaves as many addresses as
-- there are others, and up to that number the list holds the others in their order, whatever the last
-- round reads behind the list.
pub strip_localhost_lem :
    (past : Address) (xs : List Address)
    → count is_localhost xs ≤ 1
    → length xs < 2 ^ 32
    → let s = strip_localhost past (length xs) 0 (strip_state xs (length xs) false) in
      let others = keep (λ a. not (is_localhost a)) xs in
      (s.address_count ≡ length others) × (take s.address_count s.addresses ≡ others)
strip_localhost_lem past xs h l =
    let few : count is_localhost xs ≤ length xs = omega (arith, length-keep past xs) in
    rw (loop_lem past xs [] (length xs) 0 h few l refl)
      (ground (arith, length-keep past xs, take-without past xs h))
