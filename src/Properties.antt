-- ===== src/Properties.antt =====
-- `shape::Properties`, the configuration of a component, which belongs to the shape framework.
use shapeware.Base.{Bool, Option}
use shapeware.Base.Int.{ℤ}
use shapeware.Text.{Text}

-- The members of a configuration by name, each where it is there with the type asked for. The
-- functions of the framework leave their variable as it is where there is none.
pub record Properties : Type 0 where
  pub member_as_string : Text → Option Text
  pub member_as_int : Text → Option ℤ
  pub member_as_bool : Text → Option Bool
