-- ===== src/LinkedList/Tests.antt =====
-- Nodes at 100 and 200, and a new one at 300.
use prpl_hypervisor.Base.{ℕ, refl, arith, List, [], ◌∷◌, ◌==◌, if◌then◌else◌}
use prpl_hypervisor.LinkedList.{Node}
use prpl_hypervisor.LinkedList.Chain.{Chain}

abbrev two_nodes : ℕ → Node
two_nodes a = if a == 100 then record { elem = 7; next = 200 } else record { elem = 8; next = 0 }

abbrev addresses : List ℕ
addresses = 100 ∷ 200 ∷ []

two_nodes-Chain : Chain two_nodes 100 addresses
two_nodes-Chain = (refl, (λ e. omega arith), (refl, (λ e. omega arith), refl))

abbrev fresh : ℕ
fresh = 300
