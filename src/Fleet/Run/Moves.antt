-- ===== src/Fleet/Run/Moves.antt =====
-- Given sequences of steps of a provisioning (AwsFleetProv/AwsFleetProv.cpp).
use shapeware.Base.{◌≡◌, refl, Bool, List, [], ◌∷◌, Option, none, some, subst, ap}
use shapeware.StdMap.Laws.{or_value}
use shapeware.Mqtt.Run.{Callback}
use shapeware.Fleet.State.{Fleet}
use shapeware.Fleet.Messages.{FileSystem}
use shapeware.Fleet.Requests.{Bindings, Answers}
use shapeware.Fleet.Worker.{worker_step}
use shapeware.Fleet.Run.{Reach, Step, works, hears, next, callback_step}

pub data Move : Type 0 where
  work : Bool → Answers → Move
  hear : FileSystem → Callback → Move

unfoldable pub move : Bindings → Move → Fleet → Option Fleet
unfolding worker_step callback_step
move b (work timed_out a) f = worker_step b timed_out a f
move b (hear fs c) f = callback_step b fs c f

-- The state after the steps, where each can be taken.
unfoldable pub moves : Bindings → List Move → Fleet → Option Fleet
unfolding move
moves b [] f = some f
moves b (m ∷ ms) f = let rest = move b m f in elim rest [ none ↦ none | some g ↦ moves b ms g ]

move-Step : (b : Bindings) (m : Move) {f g : Fleet} → move b m f ≡ some g → Step b f g
unfolding move
move-Step b (work timed_out a) e = works timed_out a e
move-Step b (hear fs c) e = hears fs c e

no_state : {A : Type 0} {x : A} {P : Type 0} → none ≡ some x → P
no_state h = cc

pub moves-Reach :
    (b : Bindings) (ms : List Move) {e f g : Fleet}
    → Reach b e f
    → moves b ms f ≡ some g
    → Reach b e g
unfolding moves
moves-Reach b [] {e = e} {f = f} r h = subst (Reach b e) (ap (λ o. or_value o f) h) r
moves-Reach b (m ∷ ms) {e = e} {f = f} {g = g} r h =
    elim (move b m f)
        as (λ o.
          move b m f ≡ o
          → elim o as (λ x. Option Fleet) [ none ↦ none | some k ↦ moves b ms k ] ≡ some g
          → Reach b e g) [
            | none ↦ λ q t. no_state t
            | some k ↦ λ q t. moves-Reach b ms (next r (move-Step b m q)) t
          ]
      refl h
