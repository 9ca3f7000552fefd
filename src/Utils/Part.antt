-- ===== src/Utils/Part.antt =====
-- Code over a part of the machine, such as the disks, as code over the whole machine.
use targetd.Utils.Exec.{Exec}

pub record Part (V W : Type 0) : Type 0 where
  pub get : W → V
  pub put : V → W → W

module _ {V W : Type 0} (x : Part V W) where
  abbrev pub on_part : {A : Type 0} → Exec V A → Exec W A
  on_part m w = ((m (x.get w)).0, x.put (m (x.get w)).1 w)
