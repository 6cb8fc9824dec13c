-- ===== src/Binding/Verification.antt =====
-- The verification of a session: `verify_connectivity` of api/modules/device/service.py.
use pigugu_server.Common.{
  ℕ, ◌≤◌, ◌≡◌, ◌≢◌, refl, ap, Bool, true, false, Option, none, some, List, Bool-cases, inl, inr,
  ltb, String, str_eq, find, if_intro, ltb-ge, ◌⊎◌,
}
use mathlib.Core.Bool.{false≢true}
use pigugu_server.Ota.Jobs.{truthy}
use pigugu_server.Binding.Service.{Session, verified}
use pigugu_server.Binding.Provisioning.{
  CredentialStore, Certificate, refused, issue_for, issue_mqtt_credentials, invalid_state, is_over,
  is_session,
}
use pigugu_server.Binding.Connectivity.{
  Pong, Verification, is_reached, is_not_reached, VerifyError, try_twice, verify_session,
  verify_for, verify_connectivity, answers, given_or,
}
use pigugu_server.Binding.Credentials.{find-update, own-session, not_before}

abbrev is_success : Verification → Bool
is_success (is_reached rtt) = true
is_success (is_not_reached e) = false

not-reached : (e : VerifyError) (rtt : Option ℕ) → is_not_reached e ≢ is_reached rtt
not-reached e rtt h = false≢true (ap is_success h)

try_twice-answer :
    (request : ℕ) (first second : Option Pong) (s : Session) (rtt : Option ℕ)
    → (try_twice request first second s).1 ≡ is_reached rtt
    → (answers s.challenge_nonce first ≡ true) ⊎ (answers s.challenge_nonce second ≡ true)
unfolding try_twice
try_twice-answer request first second s rtt h =
    elim (Bool-cases (answers s.challenge_nonce first)) [
      | inl e ↦ inl e
      | inr e ↦ elim (Bool-cases (answers s.challenge_nonce second)) [
        | inl f ↦ inr f
        | inr f ↦ absurd (not-reached _ rtt (rw (e, f) at h))
      ]
    ]

session-answer :
    (now request : ℕ) (first second : Option Pong) (hw : Option String) (s : Session)
    (rtt : Option ℕ)
    → (verify_session now request first second hw s).1 ≡ is_reached rtt
    → (now ≤ s.expires_at)
      × ((answers s.challenge_nonce first ≡ true) ⊎ (answers s.challenge_nonce second ≡ true))
unfolding verify_session
session-answer now request first second hw s rtt h = elim (Bool-cases (ltb s.expires_at now)) [
  | inl e ↦ absurd (not-reached _ rtt (rw e at h))
  | inr e ↦ elim (Bool-cases (truthy (given_or hw s.hardware_id))) [
    | inr f ↦ absurd (not-reached _ rtt (rw (e, f) at h))
    | inl f ↦ (
      ltb-ge s.expires_at now e,
      try_twice-answer request first second (record s { hardware_id = given_or hw s.hardware_id })
          rtt (rw (e, f) at h),
    )
  ]
]

for-answer :
    (now request : ℕ) (first second : Option Pong) (i : ℕ) (hw : Option String) (o : Option Session)
    → (ss : List Session) (rtt : Option ℕ)
    → (verify_for now request first second i hw o ss).1 ≡ is_reached rtt
    → (s : Session) × (o ≡ some s)
      × (now ≤ s.expires_at)
      × ((answers s.challenge_nonce first ≡ true) ⊎ (answers s.challenge_nonce second ≡ true))
unfolding verify_for
for-answer now request first second i hw none ss rtt h = absurd (not-reached _ rtt h)
for-answer now request first second i hw (some s) ss rtt h =
    let (valid, answered) = session-answer now request first second hw s rtt h in
    (s, refl, valid, answered)

-- A verified answer is backed by a session of the user that has not expired and by an answer with the nonce of
-- the session to one of the two pings.
pub verified_answers :
    (now request : ℕ) (first second : Option Pong) (i user : ℕ) (hw : Option String)
    → (ss : List Session) (rtt : Option ℕ)
    → (verify_connectivity now request first second i user hw ss).1 ≡ is_reached rtt
    → (s : Session) × (find (is_session i user) ss ≡ some s)
      × (now ≤ s.expires_at)
      × ((answers s.challenge_nonce first ≡ true) ⊎ (answers s.challenge_nonce second ≡ true))
unfolding verify_connectivity
verified_answers now request first second i user hw ss rtt h =
    for-answer now request first second i hw (find (is_session i user) ss) ss rtt h

-- a verification changes neither the id nor the user of a session
verify-session-row :
    (now request : ℕ) (first second : Option Pong) (hw : Option String) (i user : ℕ) (t : Session)
    → is_session i user (verify_session now request first second hw t).0 ≡ is_session i user t
unfolding verify_session try_twice
verify-session-row now request first second hw i user t =
    let IsRow = λ (r : Session × Verification). is_session i user r.0 ≡ is_session i user t in
    if_intro IsRow (ltb t.expires_at now) _ _ (λ e. refl)
      (λ e.
        if_intro IsRow (truthy (given_or hw t.hardware_id)) _ _
          (λ f.
            if_intro IsRow (answers t.challenge_nonce first) _ _ (λ g. refl)
              (λ g. if_intro IsRow (answers t.challenge_nonce second) _ _ (λ k. refl) (λ k. refl)))
          (λ f. refl))

-- an answer to the first ping verifies a session of any status
first_answer :
    (now request : ℕ) (p : Pong) (second : Option Pong) (hw : String) (s : Session)
    → now ≤ s.expires_at
    → str_eq hw "" ≡ false
    → answers s.challenge_nonce (some p) ≡ true
    → let r = verify_session now request (some p) second (some hw) s in
      (r.1 ≡ is_reached p.rtt_ms) × (r.0.status ≡ verified)
unfolding verify_session try_twice
first_answer now request p second hw s valid named ok =
    rw (not_before s.expires_at now valid, named, named, ok) (refl, refl)

closed_refused :
    (normal : String → String) (iot : String → Option Certificate)
    → (now i user : ℕ) (hw : String) (st : CredentialStore) (s : Session)
    → find (is_session i user) st.sessions ≡ some s
    → now ≤ s.expires_at
    → is_over s.status ≡ true
    → str_eq (normal hw) "" ≡ false
    → (issue_mqtt_credentials normal iot now i user hw st).1 ≡ refused (invalid_state s.status)
unfolding issue_mqtt_credentials issue_for
closed_refused normal iot now i user hw st s found valid closed named =
    rw (named, found, not_before s.expires_at now valid, closed) refl

-- A session that issue_mqtt_credentials refuses, since it is bound, cancelled or marked as expired, is verified
-- by verify_connectivity like any other, and has the status verified after it.
pub closed_session_verifies :
    (normal : String → String) (iot : String → Option Certificate)
    → (now request i user : ℕ) (p : Pong) (second : Option Pong) (hw : String)
      (st : CredentialStore) (s : Session)
    → find (is_session i user) st.sessions ≡ some s
    → now ≤ s.expires_at
    → is_over s.status ≡ true
    → str_eq hw "" ≡ false
    → str_eq (normal hw) "" ≡ false
    → answers s.challenge_nonce (some p) ≡ true
    → let r = verify_connectivity now request (some p) second i user (some hw) st.sessions in
      ((issue_mqtt_credentials normal iot now i user hw st).1 ≡ refused (invalid_state s.status))
      × (r.1 ≡ is_reached p.rtt_ms)
      × ((t : Session) × (find (is_session i user) r.0 ≡ some t) × (t.status ≡ verified))
unfolding verify_connectivity verify_for
closed_session_verifies normal iot now request i user p second hw st s found valid closed named
      named' ok =
    let (reached, status) = first_answer now request p second hw s valid named ok in
    let kept =
      find-update (is_session i user) i
        (λ t. (verify_session now request (some p) second (some hw) t).0) st.sessions s
        (own-session i user) (verify-session-row now request (some p) second (some hw) i user)
        found in
    let after = (verify_session now request (some p) second (some hw) s).0 in
    (
      closed_refused normal iot now i user hw st s found valid closed named',
      rw found reached,
      (after, rw found kept, status),
    )
