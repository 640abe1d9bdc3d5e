-- ===== src/MailSending/Message.antt =====
-- The message of a mail: its addresses, its size and how libcurl reads it.
use processing_common.Common.{
  find_last_of, find_last_of-append, ℕ, zero, suc, ◌+◌, ◌-◌, ◌*◌, ◌<◌, ◌≤◌, ◌^◌, ◌≡◌, ◌∙◌, refl,
  sym, ap, arith, true, false, ◌==◌, min, sub64, u64, List, [], ◌∷◌, ◌++◌, Option, none, some,
  length, take, drop, length-append, length-drop, take-append, drop-drop, take-take-drop,
  take_of_length-le,
}
use native.Mathlib.Decide.{dec_lt}
use processing_common.LibDspc.Strings.Split.{Lacks}
use processing_common.MailSending.{
  Options, MailSending, find_last_of, split_at, name_addr_split, easy_handle_create, body_prefix,
  string_to_curl_data_read,
}

find_last_of-none : (ch : ℕ) (str : List ℕ) → Lacks ch str → find_last_of ch str ≡ none
unfolding find_last_of
find_last_of-none ch [] l = refl
find_last_of-none ch (c ∷ str) (now, l) = rw (find_last_of-none ch str l, now) refl

find_last_of_here : (ch : ℕ) (addr : List ℕ) → Lacks ch addr → find_last_of ch (ch ∷ addr) ≡ some 0
unfolding find_last_of
find_last_of_here ch addr l =
    let eq : (ch == ch) ≡ true = ground arith in rw (find_last_of-none ch addr l, eq) refl

drop-suc : (name addr : List ℕ) (ch : ℕ) → drop (suc (length name)) (name ++ (ch ∷ addr)) ≡ addr
drop-suc [] addr ch = refl
drop-suc (c ∷ name) addr ch = drop-suc name addr ch

drop_one : (name addr : List ℕ) (ch : ℕ) → drop (length name + 1) (name ++ (ch ∷ addr)) ≡ addr
drop_one name addr ch =
    let eq : length name + 1 ≡ suc (length name) = omega arith in
    ap (λ n. drop n (name ++ (ch ∷ addr))) eq ∙ drop-suc name addr ch

-- For an address without a space, `nameAddrSplit` gives back name and address of a text of both
-- with a space between, and the address alone with an empty name.
pub name_addr_split_lem :
    (name addr : List ℕ)
    → Lacks b' ' addr
    → (name_addr_split (name ++ (b' ' ∷ addr)) ≡ (name, addr)) × (name_addr_split addr ≡ ([], addr))
unfolding name_addr_split
name_addr_split_lem name addr l =
    let at_end : length name + 0 ≡ length name = omega arith in
    (
      ap (split_at (name ++ (b' ' ∷ addr))) (
            find_last_of-append b' ' name (b' ' ∷ addr) 0 (find_last_of_here b' ' addr l)
            ∙ ap some at_end)
          ∙ rw (take-append name (b' ' ∷ addr), drop_one name addr b' ') refl,
      ap (split_at addr) (find_last_of-none b' ' addr l),
    )

length-body_prefix :
    (m : MailSending)
    → length (body_prefix m)
      ≡ 33
        + length m.recipient_name
        + length m.recipient_addr
        + length m.sender_name
        + length m.sender_addr
        + length m.subject
unfolding body_prefix
length-body_prefix m = simp length-append (omega arith)

-- The announced size of a message, and the message.
pub announced : Option Options → ℕ
announced none = 0
announced (some o) = o.infile_size

created_size :
    (m : MailSending) → announced (easy_handle_create true m).0.handle ≡ u64 (length m.body + 20)
unfolding easy_handle_create announced
created_size m = refl

created_body : (m : MailSending) → (easy_handle_create true m).0.body ≡ body_prefix m ++ m.body
unfolding easy_handle_create
created_body m = refl

length-created :
    (m : MailSending)
    → length (easy_handle_create true m).0.body ≡ length (body_prefix m) + length m.body
length-created m = ap length (created_body m) ∙ length-append (body_prefix m) m.body

-- Where the size of the body plus 20 fits in 64 bits, the size that `easyHandleCreate` announces to
-- libcurl is at least 13 bytes short of the message.
pub easy_handle_create_short :
    (m : MailSending)
    → length m.body + 20 < 2 ^ 64
    → let m' = (easy_handle_create true m).0 in announced m'.handle + 13 ≤ length m'.body
easy_handle_create_short m fits =
    omega (arith, created_size m, length-created m, length-body_prefix m)

-- The bytes that are asked for, where each product of a size and a number wraps around at 64 bits.
pub sum_of : List (ℕ × ℕ) → ℕ
sum_of [] = 0
sum_of ((size, nmemb) ∷ reqs) = u64 (size * nmemb) + sum_of reqs

-- The reads of a transfer: the bytes that they give.
pub read_all : List (ℕ × ℕ) → MailSending → List ℕ
read_all [] m = []
read_all ((size, nmemb) ∷ reqs) m =
    let r = string_to_curl_data_read size nmemb m in r.1 ++ read_all reqs r.0

sub64_fits : (a b : ℕ) → b ≤ a → a < 2 ^ 64 → sub64 a b ≡ a - b
sub64_fits a b h fits = omega arith

chunk_lem :
    (size nmemb k : ℕ) (m : MailSending)
    → length m.body < 2 ^ 64
    → m.num_sent ≤ length m.body
    → k ≡ min (u64 (size * nmemb)) (length m.body - m.num_sent)
    → string_to_curl_data_read size nmemb m
      ≡ (record m { num_sent = m.num_sent + k }, take k (drop m.num_sent m.body))
unfolding string_to_curl_data_read
chunk_lem size nmemb zero m fits some_left h =
    let left = sub64_fits (length m.body) m.num_sent some_left fits in
    let eq : (min (u64 (size * nmemb)) (length m.body - m.num_sent) == 0) ≡ true =
      ground (arith, h) in
    let same : m.num_sent ≡ m.num_sent + 0 = omega arith in
    simp (left, eq) (ap (λ n. (record m { num_sent = n }, [])) same)
chunk_lem size nmemb (suc k) m fits some_left h =
    let left = sub64_fits (length m.body) m.num_sent some_left fits in
    let eq : (min (u64 (size * nmemb)) (length m.body - m.num_sent) == 0) ≡ false =
      ground (arith, h) in
    let same : u64 (m.num_sent + suc k) ≡ m.num_sent + suc k = ground (arith, h) in
    simp (left, eq)
      (ap (λ n. (record m { num_sent = u64 (m.num_sent + n) }, take n (drop m.num_sent m.body)))
          (sym h)
        ∙ ap (λ n. (record m { num_sent = n }, take (suc k) (drop m.num_sent m.body))) same)

take_enough :
    (n k : ℕ) (str : List ℕ) (rest : ℕ)
    → k ≡ min n (length str)
    → take (k + rest) str ≡ take (n + rest) str
take_enough n k str rest h = elim (dec_lt (length str) n) [
  | yes over ↦
      take_of_length-le (k + rest) str (omega arith)
      ∙ sym (take_of_length-le (n + rest) str (omega arith))
  | no fits ↦ let eq : k ≡ n = omega arith in ap (λ i. take (i + rest) str) eq
]

-- For a message of fewer than 2 ^ 64 bytes of which no more are sent than there are, and over any
-- sequence of reads, `stringToCurlDataRead` gives the next bytes of the message, as many as were
-- asked for in sum or are left; what a read asks for is the product of its sizes modulo 2 ^ 64.
pub read_all_lem :
    (reqs : List (ℕ × ℕ)) (m : MailSending)
    → length m.body < 2 ^ 64
    → m.num_sent ≤ length m.body
    → read_all reqs m ≡ take (sum_of reqs) (drop m.num_sent m.body)
unfolding read_all sum_of
read_all_lem [] m fits some_left = refl
read_all_lem ((size, nmemb) ∷ reqs) m fits some_left =
    let left = drop m.num_sent m.body in
    let k = min (u64 (size * nmemb)) (length m.body - m.num_sent) in
    let m' : MailSending = record m { num_sent = m.num_sent + k } in
    let small : k ≡ min (u64 (size * nmemb)) (length left) =
      omega (arith, length-drop m.num_sent m.body) in
    ap (λ r. r.1 ++ read_all reqs r.0) (chunk_lem size nmemb k m fits some_left refl)
    ∙ ap (λ l. take k left ++ l)
        (read_all_lem reqs m' fits (ground arith)
          ∙ ap (take (sum_of reqs)) (sym (drop-drop m.num_sent k (m.num_sent + k) m.body refl)))
    ∙ take-take-drop k (sum_of reqs) left
    ∙ take_enough (u64 (size * nmemb)) k left (sum_of reqs) small
