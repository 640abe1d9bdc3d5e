-- ===== src/MailSending/Tests.antt =====
-- Runs of MailSending.cpp on small inputs.
use processing_common.Common.{ℕ, ◌≤◌, ◌≡◌, ◌↔◌, refl, arith, true, List, [], ◌∷◌, take, drop, sub32}
use processing_common.MailSending.{
  positive, mail_se_done_wait, MailSending, new_mail, body_set, CurlMsg, process,
}
use processing_common.MailSending.Message.{sum_of, read_all, read_all_lem}
use processing_common.MailSending.Runs.{IsAccepted, process_iff}

abbrev addr : List ℕ
addr = b'a' ∷ b'@' ∷ b'b' ∷ []

abbrev mail : MailSending
mail = body_set addr (new_mail 1)

abbrev reqs : List (ℕ × ℕ)
reqs = (1, 2) ∷ (2, 4) ∷ []

read_all_example : read_all reqs mail ≡ take (sum_of reqs) (drop mail.num_sent mail.body)
read_all_example = read_all_lem reqs mail (omega arith) (omega arith)

abbrev waiting : MailSending
waiting = record mail { state = mail_se_done_wait; start_ms = 10 }

abbrev msgs : List CurlMsg
msgs = record { is_done = true; request = 1; result = 0; response_code = 250 } ∷ []

process_iff_example :
    ((process 500 true true msgs waiting).1 ≡ positive)
    ↔ ((sub32 500 10 ≤ 1000) × IsAccepted waiting msgs)
process_iff_example = process_iff 500 true true msgs waiting refl
