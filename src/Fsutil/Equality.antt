-- ===== src/Fsutil/Equality.antt =====
-- Paths as keys of maps: they are compared by their components.
use codelldb.Prelude.{◌≡◌, ◌↔◌, Bool, true, false, arith}
use codelldb.Prelude.Equality.{Eq, ℕ_eq, list_eq, list_eqb_iff, ◌≐◌}
use codelldb.Fsutil.{Component, prefix, root_dir, cur_dir, parent_dir, normal}

abbrev pub component_eqb : Component → Component → Bool
component_eqb (prefix s) (prefix t) = s ≐ t
component_eqb root_dir root_dir = true
component_eqb cur_dir cur_dir = true
component_eqb parent_dir parent_dir = true
component_eqb (normal s) (normal t) = s ≐ t
component_eqb _ _ = false

pub component_eqb_iff : (a b : Component) → (component_eqb a b ≡ true) ↔ (a ≡ b)
component_eqb_iff (prefix s) (prefix t) = ground (arith, list_eqb_iff s t)
component_eqb_iff (normal s) (normal t) = ground (arith, list_eqb_iff s t)
component_eqb_iff a b = ground arith

instance abbrev pub component_eq : Eq Component
component_eq = record { eqb = component_eqb; eqb_iff = component_eqb_iff }
