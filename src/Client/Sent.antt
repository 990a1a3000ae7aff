-- ===== src/Client/Sent.antt =====
-- What the client of problemset2/src/client.py has sent: the commands of its file, one for each
-- acknowledgement and one more, less those whose send failed.
use cse.Prefix.{take}
use cse.Prelude.{
  append-nil, sym, ◌∙◌, ◌++◌, ◌≤◌, ◌↔◌, ℕ, suc, ◌≡◌, refl, ap, List, [], ◌∷◌, map, length, arith,
  Bool-cases, inl, inr, ◌==◌, if◌then◌else◌,
}
use cse.Command.{Command}
use cse.Message.{client_ack, type_code}
use cse.Client.{
  send_command, Sending, Response, unreadable, response, finished, client_message, send_commands,
}

-- How many responses are acknowledgements, before the first that is not.
abbrev pub acks : List Response → ℕ
acks [] = 0
acks (unreadable ∷ rs) = 0
acks (response m ∷ rs) = if type_code m.msg_type == type_code client_ack then suc (acks rs) else 0

-- The commands whose send succeeded.
abbrev pub succeeded : List Sending → List Command
succeeded [] = []
succeeded (s ∷ ss) = if s.sends then s.c ∷ succeeded ss else succeeded ss

send_command-succeeded :
    (client_id : ℕ) (s : Sending) (ss : List Sending)
    → send_command client_id s ++ map (client_message client_id) (succeeded ss)
      ≡ map (client_message client_id) (succeeded (s ∷ ss))
unfolding send_command
send_command-succeeded client_id s ss = elim (Bool-cases s.sends) [
  | inl took ↦ rw took refl
  | inr lost ↦ rw lost refl
]

last-succeeded :
    (client_id : ℕ) (s : Sending) (ss : List Sending)
    → send_command client_id s ≡ map (client_message client_id) (succeeded (take 1 (s ∷ ss)))
last-succeeded client_id s ss =
    sym (append-nil (send_command client_id s)) ∙ send_command-succeeded client_id s []

-- The client tries to send the first commands of its file, in order and each once: as many as it has got
-- acknowledgements, and one more if there is one. What is sent are the messages of those of them whose
-- send succeeds. It ends normally exactly if there are at least as many acknowledgements as commands.
pub send_commands-sent :
    (client_id : ℕ) (ss : List Sending) (rs : List Response)
    → ((send_commands client_id ss rs).0
        ≡ map (client_message client_id) (succeeded (take (suc (acks rs)) ss)))
      × (((send_commands client_id ss rs).1 ≡ finished) ↔ (length ss ≤ acks rs))
unfolding send_commands
send_commands-sent client_id [] rs = (refl, (λ h. omega arith, λ h. refl))
send_commands-sent client_id (s ∷ ss) [] =
    (last-succeeded client_id s ss, (λ h. ground arith, λ h. absurd (omega arith)))
send_commands-sent client_id (s ∷ ss) (unreadable ∷ rs) =
    (last-succeeded client_id s ss, (λ h. ground arith, λ h. absurd (omega arith)))
send_commands-sent client_id (s ∷ ss) (response m ∷ rs) =
    let ih = send_commands-sent client_id ss rs in
    elim (Bool-cases (type_code m.msg_type == type_code client_ack)) [
      | inl ack ↦ rw ack (
        ap (λ ms. send_command client_id s ++ ms) ih.0
            ∙ send_command-succeeded client_id s (take (suc (acks rs)) ss),
        (λ h. omega (arith, ih.1.0 h), λ h. ih.1.1 (omega arith)),
      )
      | inr other ↦
          rw other (last-succeeded client_id s ss, (λ h. ground arith, λ h. absurd (omega arith)))
    ]
