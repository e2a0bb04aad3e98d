-- ===== src/Message/Maybe.antt =====
-- protocol/maybe/generic/maybe.go: a value that may be set. The types of the package are this
-- one at the types that genny puts in.
pub mod Generated
use adcl.Prelude.{Bool, true, false, if◌then◌else◌}

pub record Maybe (A : Type 0) : Type 0 where
  pub value : A
  pub is_set : Bool

module _ {A : Type 0} where
  unfoldable pub get : Maybe A → A × Bool
  get m = (m.value, m.is_set)

  unfoldable pub get_default : Maybe A → A → A
  get_default m default = if m.is_set then m.value else default

  unfoldable pub set : Maybe A → A → Maybe A
  set m val = record { value = val; is_set = true }

  unfoldable pub unset : Maybe A → Maybe A
  unset m = record m { is_set = false }
