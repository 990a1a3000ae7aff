-- ===== src/Acceptor/Table.antt =====
-- Laws of accept_history, as a map from instance numbers to entries.
use cse.Prelude.{◌≡◌, refl, some, [], ◌∷◌, arith, if◌then◌else◌}
use cse.Num.{Num, eq_num, eq_num_iff}
use cse.Acceptor.{Entry, History, lookup, insert}

pub lookup-insert :
    (j k : Num) (e : Entry) (h : History)
    → lookup j (insert k e h) ≡ (if eq_num k j then some e else lookup j h)
unfolding lookup insert
lookup-insert j k e [] = refl
lookup-insert j k e ((i, f) ∷ h) =
    ground (arith, lookup-insert j k e h, eq_num_iff i k, eq_num_iff i j, eq_num_iff k j)
