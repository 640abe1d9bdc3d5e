-- ===== src/MailSending.antt =====
-- MailSending.cpp: a mail that is sent with libcurl, whose answers are arguments. The `Options` are
-- what curl_easy_setopt() is called with.
pub mod Message
pub mod Runs
pub mod Tests
use processing_common.Common.{
  find_last_of, ℕ, zero, suc, ◌+◌, ◌*◌, ◌/◌, ◌%◌, Bool, true, false, not, ltb, ◌==◌, if◌then◌else◌,
  min, sub32, sub64, u64, List, [], ◌∷◌, ◌++◌, Option, none, some, length, take, drop,
}

pub data Success : Type 0 where
  pending positive negative : Success

pub data MailSeState : Type 0 where
  mail_se_start mail_se_done_wait : MailSeState

pub record Options : Type 0 where
  pub url : List ℕ
  pub mail_rcpt : List ℕ
  pub userpwd : List ℕ
  pub mail_from : List ℕ
  pub infile_size : ℕ

-- `id` is the address of the object, `handle` whether mpCurl is set.
pub record MailSending : Type 0 where
  pub id : ℕ
  pub state : MailSeState
  pub start_ms : ℕ
  pub server : List ℕ
  pub port : ℕ
  pub password : List ℕ
  pub recipient_addr : List ℕ
  pub recipient_name : List ℕ
  pub sender_addr : List ℕ
  pub sender_name : List ℕ
  pub subject : List ℕ
  pub body : List ℕ
  pub handle : Option Options
  pub num_sent : ℕ
  pub done : Bool
  pub curl_res : ℕ
  pub resp_code : ℕ

abbrev pub new_mail : ℕ → MailSending
new_mail id = record {
  id = id;
  state = mail_se_start;
  start_ms = 0;
  server = [];
  port = 465;
  password = [];
  recipient_addr = [];
  recipient_name = [];
  sender_addr = [];
  sender_name = [];
  subject = [];
  body = [];
  handle = none;
  num_sent = 0;
  done = false;
  curl_res = 0;
  resp_code = 0;
}

abbrev pub server_set : List ℕ → MailSending → MailSending
server_set server m = record m { server = server }

abbrev pub password_set : List ℕ → MailSending → MailSending
password_set password m = record m { password = password }

abbrev pub subject_set : List ℕ → MailSending → MailSending
subject_set subject m = record m { subject = subject }

abbrev pub body_set : List ℕ → MailSending → MailSending
body_set body m = record m { body = body }

abbrev pub split_at : List ℕ → Option ℕ → List ℕ × List ℕ
split_at str none = ([], str)
split_at str (some pos) = (take pos str, drop (pos + 1) str)

-- The name and the address.
unfoldable pub name_addr_split : List ℕ → List ℕ × List ℕ
unfolding find_last_of
name_addr_split str = split_at str (find_last_of b' ' str)

unfoldable pub recipient_set : List ℕ → MailSending → MailSending
unfolding name_addr_split
recipient_set recipient m =
    let r = name_addr_split recipient in record m { recipient_name = r.0; recipient_addr = r.1 }

unfoldable pub sender_set : List ℕ → MailSending → MailSending
unfolding name_addr_split
sender_set sender m =
    let r = name_addr_split sender in record m { sender_name = r.0; sender_addr = r.1 }

-- to_string of a port: the digits, the last first, are turned around while they are found.
unfoldable pub digits : ℕ → ℕ → List ℕ → List ℕ
digits zero n found = found
digits (suc fuel) n found =
    let found' = (48 + n % 10) ∷ found in
    let rest = digits fuel (n / 10) found' in if n / 10 == 0 then found' else rest

abbrev crlf : List ℕ
crlf = 13 ∷ 10 ∷ []

-- The header lines that stand before the body.
unfoldable pub body_prefix : MailSending → List ℕ
body_prefix m =
    (b'T' ∷ b'o' ∷ b':' ∷ b' ' ∷ [])
    ++ (m.recipient_name
        ++ ((b' ' ∷ b'<' ∷ [])
            ++ (m.recipient_addr
                ++ ((b'>' ∷ [])
                    ++ (crlf
                        ++ ((b'F' ∷ b'r' ∷ b'o' ∷ b'm' ∷ b':' ∷ b' ' ∷ [])
                            ++ (m.sender_name
                                ++ ((b' ' ∷ b'<' ∷ [])
                                    ++ (m.sender_addr
                                        ++ ((b'>' ∷ [])
                                            ++ (crlf
                                                ++ ((b'S' ∷ b'u' ∷ b'b' ∷ b'j' ∷ b'e' ∷ b'c' ∷ b't'
                                                      ∷ b':' ∷ b' ' ∷ [])
                                                    ++ (m.subject ++ (crlf ++ crlf))))))))))))))

unfoldable pub easy_handle_create : Bool → MailSending → MailSending × Success
unfolding body_prefix digits
easy_handle_create false m = (m, negative)
easy_handle_create true m =
    let options : Options = record {
      url =
          (b's' ∷ b'm' ∷ b't' ∷ b'p' ∷ b's' ∷ b':' ∷ b'/' ∷ b'/' ∷ [])
          ++ (m.server
              ++ ((b':' ∷ [])
                  ++ (digits 5 m.port []
                      ++ (b'/' ∷ b't' ∷ b'a' ∷ b'r' ∷ b'g' ∷ b'e' ∷ b't' ∷ []))));
      mail_rcpt = m.recipient_addr;
      userpwd = m.sender_addr ++ ((b':' ∷ []) ++ m.password);
      mail_from = m.sender_addr;
      infile_size = u64 (length m.body + 20);
    } in
    (record m { handle = some options; body = body_prefix m ++ m.body }, positive)

-- stringToCurlDataRead: the bytes that are copied. The sizes are size_t and wrap around at 64 bits.
unfoldable pub string_to_curl_data_read : ℕ → ℕ → MailSending → MailSending × List ℕ
string_to_curl_data_read size nmemb m =
    let num_req = u64 (size * nmemb) in
    let num_left = sub64 (length m.body) m.num_sent in
    let num_read = min num_req num_left in
    if num_read == 0 then (m, []) else (
      record m { num_sent = u64 (m.num_sent + num_read) },
      take num_read (drop m.num_sent m.body),
    )

-- A message of curl_multi_info_read(), with the object that CURLINFO_PRIVATE gives.
pub record CurlMsg : Type 0 where
  pub is_done : Bool
  pub request : ℕ
  pub result : ℕ
  pub response_code : ℕ

abbrev pub finished : CurlMsg → MailSending → MailSending
finished msg m = record m {
  curl_res = msg.result;
  resp_code = msg.response_code;
  handle = none;
  done = true;
}

-- multiProcess, as one of the objects sees it
unfoldable pub multi_process : List CurlMsg → MailSending → MailSending
multi_process [] m = m
multi_process (msg ∷ msgs) m =
    if not msg.is_done
    then multi_process msgs m
    else if msg.request == m.id
    then multi_process msgs (finished msg m)
    else multi_process msgs m

abbrev mail_send_timeout_ms : ℕ
mail_send_timeout_ms = 1000

abbrev smtp_code_ok : ℕ
smtp_code_ok = 250

-- Behind easyHandleCreate; `bound` is whether curlEasyHandleBind succeeds.
unfoldable pub created : ℕ → Bool → List CurlMsg → MailSending × Success → MailSending × Success
unfolding multi_process
created now bound msgs (m, negative) = (m, negative)
created now bound msgs (m, pending) = (m, negative)
created now bound msgs (m, positive) =
    if not bound
    then (m, negative)
    else (record (multi_process msgs m) { start_ms = now; state = mail_se_done_wait }, pending)

-- Behind multiProcess
unfoldable pub waited : ℕ → MailSending → MailSending × Success
waited diff_ms m =
    if ltb mail_send_timeout_ms diff_ms
    then (m, negative)
    else if not m.done
    then (m, pending)
    else if not (m.curl_res == 0)
    then (m, negative)
    else if not (m.resp_code == smtp_code_ok)
    then (m, negative)
    else (m, positive)

unfoldable pub process_in :
    MailSeState → ℕ → Bool → Bool → List CurlMsg → MailSending → MailSending × Success
unfolding easy_handle_create created waited multi_process
process_in mail_se_start now made bound msgs m = created now bound msgs (easy_handle_create made m)
process_in mail_se_done_wait now made bound msgs m =
    waited (sub32 now m.start_ms) (multi_process msgs m)

unfoldable pub process : ℕ → Bool → Bool → List CurlMsg → MailSending → MailSending × Success
unfolding process_in
process now made bound msgs m = process_in m.state now made bound msgs m
