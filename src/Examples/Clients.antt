-- ===== src/Examples/Clients.antt =====
-- A client with three commands whose second response cannot be read, and the ancestors of a pair.
use cse.Prelude.{false, true, refl, ◌≤◌, ◌≡◌, ◌↔◌, List, [], ◌∷◌, ◌++◌, map, Memᴰ, inl, inr}
use mathlib.Core.List.Memᴰ.{append_left, append_right, append_cases}
use cse.Num.{absent, minus_one, nat}
use cse.LockFile.{lock_line, unlock_line}
use cse.Message.{client_ack, number, Message}
use cse.Client.{Sending, Response, unreadable, response, finished, client_message, send_commands}
use cse.Prefix.{take}
use cse.Client.Sent.{succeeded, send_commands-sent}
use cse.Lca.{Ancestor, one, combined, reduce}
use cse.Lca.Lowest.{IsLowest, reduce-IsLowest, reduce_unique}

abbrev commands : List Sending
commands =
    record { c = lock_line 3; sends = true }
    ∷ record { c = unlock_line 3; sends = true }
    ∷ record { c = lock_line 4; sends = true }
    ∷ []

-- The socket takes the first message only.
abbrev failing : List Sending
failing =
    record { c = lock_line 3; sends = true } ∷ record { c = unlock_line 3; sends = false } ∷ []

abbrev acknowledgement : Message
acknowledgement = record {
  msg_type = client_ack;
  proposal = absent;
  instance_num = nat 0;
  value = number absent;
  origin_id = nat 0;
  client_id = nat 9;
  r_proposal = minus_one;
}

abbrev responses : List Response
responses = response acknowledgement ∷ unreadable ∷ []

send_commands-sent_example :
    ((send_commands 9 commands responses).0 ≡ map (client_message 9) (succeeded (take 2 commands)))
    × (((send_commands 9 commands responses).1 ≡ finished) ↔ (3 ≤ 1))
send_commands-sent_example = send_commands-sent 9 commands responses

one_sent : (send_commands 9 failing responses).0 ≡ client_message 9 (lock_line 3) ∷ []
unfolding send_commands
one_sent = refl

abbrev near : Ancestor
near = record { vertex = 7; distance = 1; year = 1998 }

abbrev old : Ancestor
old = record { vertex = 4; distance = 2; year = 1970 }

reduce-IsLowest_example : IsLowest (reduce (combined (one old) (one near))) (old ∷ near ∷ [])
reduce-IsLowest_example = reduce-IsLowest (combined (one old) (one near))

swap : (a : Ancestor) (xs ys : List Ancestor) → Memᴰ a (xs ++ ys) → Memᴰ a (ys ++ xs)
swap a xs ys h = elim (append_cases xs h) [ inl m ↦ append_right ys m | inr m ↦ append_left xs m ]

reduce_unique_example :
    reduce (combined (one old) (one near)) ≡ reduce (combined (one near) (one old))
reduce_unique_example =
    reduce_unique (combined (one old) (one near)) (combined (one near) (one old))
      (λ a. (swap a (old ∷ []) (near ∷ []), swap a (near ∷ []) (old ∷ [])))
