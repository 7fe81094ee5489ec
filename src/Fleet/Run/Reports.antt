-- ===== src/Fleet/Run/Reports.antt =====
-- What a launched provisioning reports (AwsFleetProv/AwsFleetProv.cpp).
use shapeware.Base.{◌≡◌, none}
use shapeware.Text.{Text}
use shapeware.StdMap.{StdMap}
use shapeware.Properties.{Properties}
use shapeware.Fleet.State.{Handler, Fleet, Action}
use shapeware.Fleet.Run.Quiet.{Quiet}
use shapeware.Fleet.Run.Once.{Active, Told, Once}

module _ (p e : Handler) where
  -- A start of the worker: nothing is reported, and it waits for the connection unless it threw.
  record Begins (m : Action) : Type 0 where
    begins :
        (f : Fleet) → Told p e 0 f → Told p e 0 (m f).1 × ((m f).0 ≡ none → Active (m f).1.phase)
