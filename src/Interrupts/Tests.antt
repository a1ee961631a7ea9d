-- ===== src/Interrupts/Tests.antt =====
-- A registration behind two handlers.
use prpl_hypervisor.Base.{ℕ, List, ◌∷◌, Option, none, some, replicate}

abbrev vector : List (Option ℕ)
vector = some 7 ∷ some 8 ∷ replicate 8 none
