-- ===== src/Session/Graph.antt =====
-- The graph of the states: where each state function leads, in whatever world it is called.
use udm.Base.{◌≡◌, refl, ap, sym, subst, ◌∙◌, Bool, true, false, if◌then◌else◌}
use udm.Wire.{StateCode, StateDirection, tx, rx}
use udm.World.{World, Run, ok, halt, M, Ref, factory, and_then, gets, ◌>>=◌, ◌>>◌}
use udm.Session.States.{
  set_next, open_state, setup_state, connected_state, closed_state, done_state, after_window,
  set_complete, step, is_over,
}

-- Every return of `m` is to a world with `Q`.
abbrev pub Ends : M (Unit {0}) → (World → Type 0) → Type 0
Ends m Q = (w w' : World) → m w ≡ ok tt w' → Q w'

abbrev world_or : World → Run (Unit {0}) → World
world_or d (ok _ w) = w
world_or d (halt h w) = d

returned : (w w' : World) → ◌≡◌ {A = Run (Unit {0})} (ok tt w) (ok tt w') → w ≡ w'
returned w w' e = ap (world_or w) e

module _ {ℓ} {A : Type ℓ} where
  and_then-ok :
      (r : Run A) (f : A → M (Unit {0})) (Q : World → Type 0) (w' : World)
      → ((a : A) → Ends (f a) Q)
      → and_then r f ≡ ok tt w'
      → Q w'
  and_then-ok (ok a v) f Q w' h e = h a v w' e
  and_then-ok (halt k v) f Q w' h e = absurd cc

  -- What every return of the rest ensures, every return of the whole ensures.
  pub Ends-then :
      (m : M A) (f : A → M (Unit {0})) (Q : World → Type 0)
      → ((a : A) → Ends (f a) Q)
      → Ends (m >>= f) Q
  Ends-then m f Q h w w' e = and_then-ok (m w) f Q w' h e

-- Where a state leads.
abbrev pub After : StateDirection → StateCode → World → Type 0
After d StateCode.open_state w = w.session.next ≡ StateCode.setup
After d StateCode.setup w = w.session.next ≡ StateCode.connected
After d StateCode.connected w = w.session.next ≡ StateCode.closed
After d StateCode.closed w = w.session.next ≡ StateCode.done
After d StateCode.done w =
    (w.session.next ≡ (if (factory d w).fin then StateCode.connected else StateCode.closed))
    × (w.session.complete ≡ true)
After d _ w = Unit

set_next-ends : (c : StateCode) → Ends (set_next c) (λ w. w.session.next ≡ c)
set_next-ends c w w' e = ap (λ v. v.session.next) (sym (returned _ w' e))

ruleset ends = (Ends-then, set_next-ends)

open_state-After :
    (d : StateDirection) (r : Ref)
    → Ends (open_state StateCode.open_state d r) (After d StateCode.open_state)
unfolding open_state
open_state-After tx r = search (ends) depth 12
open_state-After rx r = search (ends) depth 12

setup_state-After :
    (d : StateDirection) (r : Ref)
    → Ends (setup_state StateCode.setup d r) (After d StateCode.setup)
unfolding setup_state
setup_state-After tx r = search (ends) depth 12
setup_state-After rx r = search (ends) depth 12

connected_state-After :
    (d : StateDirection) (r : Ref)
    → Ends (connected_state StateCode.connected d r) (After d StateCode.connected)
unfolding connected_state
connected_state-After tx r = search (ends) depth 12
connected_state-After rx r = search (ends) depth 12

closed_state-After :
    (d : StateDirection) (r : Ref)
    → Ends (closed_state StateCode.closed d r) (After d StateCode.closed)
unfolding closed_state
closed_state-After d r = search (ends) depth 12

abbrev target : Bool → StateCode
target fin = if fin then StateCode.connected else StateCode.closed

-- The last lines of `doneState`, when `fin` was read before.
finish_lem :
    (fin : Bool) (w w' : World)
    → (after_window fin >> set_complete) w ≡ ok tt w'
    → (w'.session.next ≡ target fin)
      × (w'.session.complete ≡ true)
      × ((d : StateDirection) → factory d w' ≡ factory d w)
finish_lem true w w' e =
    let v = sym (returned _ w' e) in
    (ap (λ u. u.session.next) v, ap (λ u. u.session.complete) v, λ d. ap (factory d) v ∙ same d)
  where
    same :
        (d : StateDirection)
        → factory d (record w {
          session = record w.session { next = StateCode.connected; done = true; complete = true };
        })
          ≡ factory d w
    same tx = refl
    same rx = refl
finish_lem false w w' e =
    let v = sym (returned _ w' e) in
    (ap (λ u. u.session.next) v, ap (λ u. u.session.complete) v, λ d. ap (factory d) v ∙ same d)
  where
    same :
        (d : StateDirection)
        → factory d (record w {
          session = record w.session {
            next = StateCode.closed;
            win_size = 5;
            done = true;
            complete = true;
          };
        })
          ≡ factory d w
    same tx = refl
    same rx = refl

finish-After :
    (d : StateDirection)
    → Ends
        (do w ← gets (λ w. w); after_window (factory d w).fin; set_complete)
        (After d StateCode.done)
finish-After d w w' e =
    let (next, complete, same) = finish_lem (factory d w).fin w w' e in
    (next ∙ ap (λ f. target f.fin) (sym (same d)), complete)

done_state-After :
    (d : StateDirection) (r : Ref) → Ends (done_state StateCode.done d r) (After d StateCode.done)
unfolding done_state
done_state-After tx r = search (finish-After tx, Ends-then) depth 20
done_state-After rx r = search (finish-After rx, Ends-then) depth 20

-- In whatever world it is called, a state function that returns has set the next state: `open` leads to
-- `setup`, `setup` to `connected`, `connected` to `closed`, `closed` to `done`, and `done` to `connected`
-- if `fin` is set in the factory of the direction and to `closed` otherwise, with `complete` set.
pub step-After :
    (d : StateDirection) (r : Ref) (code : StateCode) (w w' : World)
    → step d r code w ≡ ok tt w'
    → After d code w'
unfolding step
step-After d r StateCode.open_state w w' e = open_state-After d r w w' e
step-After d r StateCode.setup w w' e = setup_state-After d r w w' e
step-After d r StateCode.connected w w' e = connected_state-After d r w w' e
step-After d r StateCode.closed w w' e = closed_state-After d r w w' e
step-After d r StateCode.done w w' e = done_state-After d r w w' e
step-After d r _ w w' e = tt

-- The rounds of the loop of `start`, from one world to another.
pub data Rounds (d : StateDirection) (r : Ref) (w : World) : World → Type 0 where
  here : Rounds d r w w
  round :
      {v v' : World}
      → Rounds d r w v
      → is_over v ≡ false
      → step d r v.session.next v ≡ ok tt v'
      → Rounds d r w v'

-- The states of a session; the codes of the others index functions that it calls.
abbrev pub IsState : StateCode → Type 0
IsState StateCode.inq = ⊥
IsState StateCode.send = ⊥
IsState StateCode.recv = ⊥
IsState _ = Unit

After-IsState :
    (d : StateDirection) (code : StateCode) (w : World)
    → IsState code
    → After d code w
    → IsState w.session.next
After-IsState d StateCode.open_state w i e = subst IsState (sym e) tt
After-IsState d StateCode.setup w i e = subst IsState (sym e) tt
After-IsState d StateCode.connected w i e = subst IsState (sym e) tt
After-IsState d StateCode.closed w i e = subst IsState (sym e) tt
After-IsState d StateCode.done w i e = subst IsState (sym e.0) (target-IsState (factory d w).fin)
  where
    target-IsState : (b : Bool) → IsState (target b)
    target-IsState true = tt
    target-IsState false = tt
After-IsState d StateCode.inq w i e = absurd i
After-IsState d StateCode.send w i e = absurd i
After-IsState d StateCode.recv w i e = absurd i

-- A session that the loop of `start` runs from a state never comes to `inq`, `send` or `recv`.
pub Rounds-IsState :
    (d : StateDirection) (r : Ref) (w w' : World)
    → IsState w.session.next
    → Rounds d r w w'
    → IsState w'.session.next
Rounds-IsState d r w w' i here = i
Rounds-IsState d r w w' i (round {v} rs going e) =
    After-IsState d v.session.next w' (Rounds-IsState d r w v i rs)
      (step-After d r v.session.next v w' e)
