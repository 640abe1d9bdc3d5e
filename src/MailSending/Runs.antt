-- ===== src/MailSending/Runs.antt =====
-- How a sending ends.
use processing_common.Common.{
  ℕ, ◌≤◌, ◌≡◌, ◌≢◌, ◌∙◌, ◌↔◌, ◌⊎◌, inl, inr, refl, sym, ap, subst, arith, Bool, true, false, not,
  ◌&&◌, ltb, ◌==◌, if◌then◌else◌, sub32, List, [], ◌∷◌, ◌++◌, Bool-cases,
}
use processing_common.MailSending.{
  Success, pending, positive, negative, mail_se_done_wait, MailSending, CurlMsg, finished,
  multi_process, waited, process_in, process,
}

-- The mail is known to be accepted, within its time.
pub record IsSent (diff_ms : ℕ) (m : MailSending) : Type 0 where
  pub in_time : diff_ms ≤ 1000
  pub finished : m.done ≡ true
  pub no_error : m.curl_res ≡ 0
  pub accepted : m.resp_code ≡ 250

guard_lem :
    (b : Bool) (m : MailSending) (r : Success) (x : MailSending × Success)
    → r ≢ positive
    → (let y = if b then (m, r) else x in y.1 ≡ positive)
    → (b ≡ false) × (x.1 ≡ positive)
guard_lem true m r x none_yet h = absurd (none_yet h)
guard_lem false m r x none_yet h = (refl, h)

not-false : (b : Bool) → not b ≡ false → b ≡ true
not-false true h = refl
not-false false h = absurd cc

waited_from : (diff_ms : ℕ) (m : MailSending) → (waited diff_ms m).1 ≡ positive → IsSent diff_ms m
unfolding waited
waited_from diff_ms m h =
    let last : MailSending × Success =
      if not (m.resp_code == 250) then (m, negative) else (m, positive) in
    let third : MailSending × Success = if not (m.curl_res == 0) then (m, negative) else last in
    let second : MailSending × Success = if not m.done then (m, pending) else third in
    let (early, h₁) = guard_lem (ltb 1000 diff_ms) m negative second (λ p. absurd cc) h in
    let (done, h₂) = guard_lem (not m.done) m pending third (λ p. absurd cc) h₁ in
    let (ok, h₃) = guard_lem (not (m.curl_res == 0)) m negative last (λ p. absurd cc) h₂ in
    let (accepted, h₄) =
      guard_lem (not (m.resp_code == 250)) m negative (m, positive) (λ p. absurd cc) h₃ in
    let same = not-false (m.resp_code == 250) accepted in
    let no_error = not-false (m.curl_res == 0) ok in
    record {
      in_time = ground arith;
      finished = not-false m.done done;
      no_error = ground arith;
      accepted = ground arith;
    }

waited_to : (diff_ms : ℕ) (m : MailSending) → IsSent diff_ms m → (waited diff_ms m).1 ≡ positive
unfolding waited
waited_to diff_ms m s =
    let early : ltb 1000 diff_ms ≡ false = let h = s.in_time in ground arith in
    simp (early, s.finished, s.no_error, s.accepted) refl

abbrev pub concerns : ℕ → CurlMsg → Bool
concerns id msg = msg.is_done && (msg.request == id)

-- No transfer of the request has ended.
abbrev pub NoneFor : ℕ → List CurlMsg → Type 0
NoneFor id [] = Unit {0}
NoneFor id (msg ∷ msgs) = (concerns id msg ≡ false) × NoneFor id msgs

-- The last message which says that the transfer of the request has ended.
pub record LastFor (id : ℕ) (msgs : List CurlMsg) : Type 0 where
  pub front : List CurlMsg
  pub msg : CurlMsg
  pub behind : List CurlMsg
  pub split : msgs ≡ front ++ (msg ∷ behind)
  pub done : msg.is_done ≡ true
  pub request : msg.request ≡ id
  pub last : NoneFor id behind

LastFor-cons :
    (id : ℕ) (msg : CurlMsg) (msgs : List CurlMsg) → LastFor id msgs → LastFor id (msg ∷ msgs)
LastFor-cons id msg msgs l = record {
  front = msg ∷ l.front;
  msg = l.msg;
  behind = l.behind;
  split = ap (λ ms. msg ∷ ms) l.split;
  done = l.done;
  request = l.request;
  last = l.last;
}

LastFor-cases : (id : ℕ) (msgs : List CurlMsg) → NoneFor id msgs ⊎ LastFor id msgs
LastFor-cases id [] = inl tt
LastFor-cases id (msg ∷ msgs) = elim (LastFor-cases id msgs) [
  | inr l ↦ inr (LastFor-cons id msg msgs l)
  | inl none_yet ↦ elim (Bool-cases (concerns id msg)) [
    | inr other ↦ inl (other, none_yet)
    | inl own ↦
        let h : (msg.is_done && (msg.request == id)) ≡ true = own in
        inr (record {
          front = [];
          msg = msg;
          behind = msgs;
          split = refl;
          done = ground arith;
          request = ground arith;
          last = none_yet;
        })
  ]
]

-- Messages of other requests change nothing.
multi_process-none :
    (msgs : List CurlMsg) (m : MailSending) → NoneFor m.id msgs → multi_process msgs m ≡ m
unfolding multi_process
multi_process-none [] m h = refl
multi_process-none (msg ∷ msgs) m (other, h) = elim (Bool-cases msg.is_done) [
  | inr going ↦ rw going (multi_process-none msgs m h)
  | inl done ↦
      let foreign : (msg.request == m.id) ≡ false =
        sym (ap (λ b. b && (msg.request == m.id)) done) ∙ other in
      rw (done, foreign) (multi_process-none msgs m h)
]

-- The last message of the request counts.
multi_process-last :
    (front : List CurlMsg) (msg : CurlMsg) (behind : List CurlMsg) (m : MailSending)
    → msg.is_done ≡ true
    → msg.request ≡ m.id
    → NoneFor m.id behind
    → multi_process (front ++ (msg ∷ behind)) m ≡ finished msg m
unfolding multi_process
multi_process-last [] msg behind m done own h =
    let eq : (msg.request == m.id) ≡ true = ground arith in
    simp (done, eq) (multi_process-none behind (finished msg m) h)
multi_process-last (x ∷ front) msg behind m done own h = elim (Bool-cases x.is_done) [
  | inr going ↦ simp going (multi_process-last front msg behind m done own h)
  | inl ended ↦ elim (Bool-cases (x.request == m.id)) [
    | inr other ↦ simp (ended, other) (multi_process-last front msg behind m done own h)
    | inl same ↦ simp (ended, same) (multi_process-last front msg behind (finished x m) done own h)
  ]
]

-- The server has accepted the mail: the last message for it in `msgs` says so, or there is none and
-- an earlier one has.
pub record NowAccepted (id : ℕ) (msgs : List CurlMsg) : Type 0 where
  pub last : LastFor id msgs
  pub no_error : last.msg.result ≡ 0
  pub accepted : last.msg.response_code ≡ 250

pub record WasAccepted (m : MailSending) (msgs : List CurlMsg) : Type 0 where
  pub none_now : NoneFor m.id msgs
  pub finished : m.done ≡ true
  pub no_error : m.curl_res ≡ 0
  pub accepted : m.resp_code ≡ 250

abbrev pub IsAccepted : MailSending → List CurlMsg → Type 0
IsAccepted m msgs = NowAccepted m.id msgs ⊎ WasAccepted m msgs

multi_process-LastFor :
    (msgs : List CurlMsg) (m : MailSending) (l : LastFor m.id msgs)
    → multi_process msgs m ≡ finished l.msg m
multi_process-LastFor msgs m l =
    ap (λ ms. multi_process ms m) l.split
    ∙ multi_process-last l.front l.msg l.behind m l.done l.request l.last

IsSent-IsAccepted :
    (diff_ms : ℕ) (msgs : List CurlMsg) (m : MailSending)
    → IsSent diff_ms (multi_process msgs m)
    → (diff_ms ≤ 1000) × IsAccepted m msgs
IsSent-IsAccepted diff_ms msgs m s = elim (LastFor-cases m.id msgs) [
  | inl none_now ↦
      let s' = subst (IsSent diff_ms) (multi_process-none msgs m none_now) s in
      (
        s.in_time,
        inr (record {
          none_now = none_now;
          finished = s'.finished;
          no_error = s'.no_error;
          accepted = s'.accepted;
        }),
      )
  | inr l ↦
      let s' = subst (IsSent diff_ms) (multi_process-LastFor msgs m l) s in
      (s.in_time, inl (record { last = l; no_error = s'.no_error; accepted = s'.accepted }))
]

IsAccepted-IsSent :
    (diff_ms : ℕ) (msgs : List CurlMsg) (m : MailSending)
    → (diff_ms ≤ 1000) × IsAccepted m msgs
    → IsSent diff_ms (multi_process msgs m)
IsAccepted-IsSent diff_ms msgs m (in_time, inl a) =
    subst (IsSent diff_ms) (sym (multi_process-LastFor msgs m a.last))
      (record { in_time = in_time; finished = refl; no_error = a.no_error; accepted = a.accepted })
IsAccepted-IsSent diff_ms msgs m (in_time, inr a) =
    subst (IsSent diff_ms) (sym (multi_process-none msgs m a.none_now)) (record {
      in_time = in_time;
      finished = a.finished;
      no_error = a.no_error;
      accepted = a.accepted;
    })

-- While a mail is waited for, `process` succeeds exactly if at most 1000 ms have passed, modulo 2 ^
-- 32, and the last message of libcurl that the transfer of this very request has ended has no error
-- and the code 250; where no message says that it has ended, an earlier one has to have said so.
pub process_iff :
    (now : ℕ) (made bound : Bool) (msgs : List CurlMsg) (m : MailSending)
    → m.state ≡ mail_se_done_wait
    → ((process now made bound msgs m).1 ≡ positive)
      ↔ ((sub32 now m.start_ms ≤ 1000) × IsAccepted m msgs)
unfolding process process_in
process_iff now made bound msgs m state =
    let diff_ms = sub32 now m.start_ms in
    let m' = multi_process msgs m in
    simp state (
      (λ h. IsSent-IsAccepted diff_ms msgs m (waited_from diff_ms m' h)),
      λ h. waited_to diff_ms m' (IsAccepted-IsSent diff_ms msgs m h),
    )
