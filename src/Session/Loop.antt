-- ===== src/Session/Loop.antt =====
-- The loop of `Session::start`, a state at a time.
use udm.Base.{ℕ, zero, suc, ◌≡◌, refl, sym, subst, ◌&&◌, true, false}
use udm.Wire.{StateCode, StateDirection}
use udm.World.{World, ok, Ref}
use udm.Session.States.{step, state_loop, is_over, is_connected}

pub is_over-at :
    (w : World) (code : StateCode)
    → w.session.next ≡ code
    → is_connected code ≡ false
    → is_over w ≡ false
is_over-at w code at_code goes_on =
    subst (λ c. (is_connected c && w.session.complete) ≡ false) (sym at_code) (rw goes_on refl)

-- A state runs as long as the test of the loop does not end it.
pub state_loop-on :
    (fuel : ℕ) (d : StateDirection) (r : Ref) (w w' : World) (code : StateCode)
    → w.session.next ≡ code
    → is_over w ≡ false
    → step d r code w ≡ ok tt w'
    → state_loop (suc fuel) d r w ≡ state_loop fuel d r w'
unfolding state_loop
state_loop-on fuel d r w w' code at_code more e =
    let here : step d r w.session.next w ≡ ok tt w' =
      subst (λ c. step d r c w ≡ ok tt w') (sym at_code) e in
    rw (more, here, state_loop) refl

pub state_loop-step :
    (fuel : ℕ) (d : StateDirection) (r : Ref) (w w' : World) (code : StateCode)
    → w.session.next ≡ code
    → is_connected code ≡ false
    → step d r code w ≡ ok tt w'
    → state_loop (suc fuel) d r w ≡ state_loop fuel d r w'
state_loop-step fuel d r w w' code at_code goes_on e =
    state_loop-on fuel d r w w' code at_code
      (subst (λ c. (is_connected c && w.session.complete) ≡ false) (sym at_code) (rw goes_on refl))
      e

pub state_loop-over :
    (fuel : ℕ) (d : StateDirection) (r : Ref) (w : World)
    → is_over w ≡ true
    → state_loop fuel d r w ≡ ok tt w
unfolding state_loop
state_loop-over zero d r w e = rw e
state_loop-over (suc fuel) d r w e = rw e
