-- ===== src/Gateway/Count.antt =====
-- The doubling loop of `_noOfInterfaces`.
use udm.Base.{
  ℕ, zero, suc, ◌+◌, ◌*◌, ◌^◌, ◌<◌, ◌≤◌, ◌≡◌, sym, subst, ap, ◌∙◌, some, arith, refl, length, false,
  ◌⊎◌, Bool-cases, inl, inr, ◌==◌, leb, min, take-all,
}
use native.Mathlib.Omega.{pow_step}
use native.Mathlib.Nat.{mul_assoc}
use udm.World.{World, Run, ok, halt, fault}
use udm.Gateway.{no_of_interfaces, sizeof_ifreq}
use udm.Gateway.Interfaces.{list_interfaces, count_interfaces}

-- `ioctl` lists fewer than 2 ^ 24 interfaces, whatever room it gets.
pub record IsListing (w : World) : Type 0 where
  pub succeeds : (room : ℕ) → w.env.ioctl_fails room ≡ false
  pub few : length w.env.interfaces < 2 ^ 24

-- A run that returns with nothing changed, or stops at a fault.
abbrev pub IsCounted {ℓ} : {A : Type ℓ} → Run A → World → Type ℓ
IsCounted {A} r w = ((a : A) × (r ≡ ok a w)) ⊎ (r ≡ halt fault w)

-- As long as the room is at most twice what there is to list, its bytes fit an `int`, and it takes no more
-- doublings than make the room larger than what there is.
no_of_interfaces-listed :
    (fuel numreqs : ℕ) (w : World)
    → IsListing w
    → 0 < numreqs
    → numreqs ≤ 2 * length w.env.interfaces + 1
    → length w.env.interfaces < numreqs * 2 ^ fuel
    → no_of_interfaces (suc fuel) numreqs w ≡ ok (length w.env.interfaces, some w.env.interfaces) w
unfolding no_of_interfaces
no_of_interfaces-listed zero numreqs w v room most enough =
    let few = v.few in
    let fits : leb (2 ^ 31) (sizeof_ifreq * numreqs) ≡ false = ground arith in
    let less : min (length w.env.interfaces) numreqs ≡ length w.env.interfaces = ground arith in
    let stops : (length w.env.interfaces == numreqs) ≡ false = ground arith in
    rw
      (
        fits,
        v.succeeds numreqs,
        less,
        stops,
        take-all (length w.env.interfaces) w.env.interfaces (omega arith),
      )
      refl
no_of_interfaces-listed (suc fuel) numreqs w v room most enough =
    let few = v.few in
    let k = length w.env.interfaces in
    let fits : leb (2 ^ 31) (sizeof_ifreq * numreqs) ≡ false = ground arith in
    let enough' : k < numreqs * 2 * 2 ^ fuel =
      subst (◌<◌ k) (ap (◌*◌ numreqs) (pow_step 2 fuel) ∙ sym (mul_assoc numreqs 2 (2 ^ fuel)))
        enough in
    elim (Bool-cases (min k numreqs == numreqs)) [
      | inl full ↦
          rw (fits, v.succeeds numreqs, full)
            (no_of_interfaces-listed fuel (numreqs * 2) w v (omega arith) (ground (arith, full))
              enough')
      | inr stops ↦
          let less : min k numreqs ≡ k = ground (arith, stops) in
          rw (fits, v.succeeds numreqs, stops, less, take-all k w.env.interfaces (omega arith)) refl
    ]

pub list_interfaces_lem :
    (w : World)
    → IsListing w
    → list_interfaces w ≡ ok (length w.env.interfaces, some w.env.interfaces) w
unfolding list_interfaces
list_interfaces_lem w v =
    let few = v.few in no_of_interfaces-listed 26 1 w v (omega arith) (omega arith) (omega arith)

-- When `ioctl` does not fail and lists fewer than 2 ^ 24 interfaces, `getInfCount` returns their number: the
-- room doubles until it is larger, and its bytes fit an `int` all the time.
pub count_interfaces_lem :
    (w : World) → IsListing w → count_interfaces w ≡ ok (length w.env.interfaces) w
unfolding count_interfaces
count_interfaces_lem w v = rw (list_interfaces_lem w v, count_interfaces) refl
