-- ===== src/Broadcast.antt =====
-- send_to_acceptors of initialize_proposer in problemset2/src/server.py: a loop over a list of
-- connections that removes from the list the connections on which the send fails.
use cse.Prelude.{ℕ, Bool, List, [], ◌∷◌, if◌then◌else◌}

-- The connections that are kept, and those to which the message was sent. `alive` says on which
-- connections a send succeeds. The removal moves the rest of the list under the loop's index, so the
-- element behind a removed one is passed over.
unfoldable pub send_to_acceptors : (ℕ → Bool) → List ℕ → List ℕ × List ℕ
send_to_acceptors alive [] = ([], [])
send_to_acceptors alive (c ∷ []) = if alive c then (c ∷ [], c ∷ []) else ([], [])
send_to_acceptors alive (c ∷ d ∷ cs) =
    let (kept, sent) = send_to_acceptors alive (d ∷ cs) in
    let (kept', sent') = send_to_acceptors alive cs in
    if alive c then (c ∷ kept, c ∷ sent) else (d ∷ kept', sent')
