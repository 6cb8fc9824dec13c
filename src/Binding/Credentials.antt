-- ===== src/Binding/Credentials.antt =====
-- The credentials that are issued for a session: `issue_mqtt_credentials` of api/modules/device/service.py.
use pigugu_server.Common.{
  ℕ, ◌+◌, ◌≤◌, ◌<◌, ◌≡◌, ◌≢◌, refl, sym, ap, Bool, true, false, Option, none, some, List, [], ◌∷◌,
  arith, Bool-cases, inl, inr, ltb, ◌==◌, String, str_eq, find, lt-ltb, Option-cases,
}
use mathlib.Core.Bool.{false≢true}
use mathlib.Core.Option.{none-ne-some}
use mathlib.Core.Option as Option
use pigugu_server.Binding.Service.{Session}
use pigugu_server.Binding.Provisioning.{
  CredentialStore, Certificate, Credentials, Issue, refused, issued, CredentialError, issue_new,
  issue_open, issue_for, issue_mqtt_credentials, cached_for, credentials, is_over, is_session,
  update_session,
}

abbrev is_issued : Issue → Bool
is_issued (refused e) = false
is_issued (issued c) = true

refused-issued : (e : CredentialError) (c : Credentials) → refused e ≢ issued c
refused-issued e c h = false≢true (ap is_issued h)

abbrev creds_or : Credentials → Issue → Credentials
creds_or d (refused e) = d
creds_or d (issued c) = c

pub not_before : (a b : ℕ) → b ≤ a → ltb a b ≡ false
not_before a b h = ground arith

itself : (i : ℕ) → (i == i) ≡ true
itself i = ground arith

-- an update of a session is found where the session was
pub find-update :
    (p : Session → Bool) (i : ℕ) (f : Session → Session) (ss : List Session) (s : Session)
    → ((t : Session) → p t ≡ true → (t.id == i) ≡ true)
    → ((t : Session) → p (f t) ≡ p t)
    → find p ss ≡ some s
    → find p (update_session i f ss) ≡ some (f s)
unfolding update_session
find-update p i f [] s own keeps h = absurd (none-ne-some s h)
find-update p i f (t ∷ ss) s own keeps h = elim (Bool-cases (p t)) [
  | inl e ↦ rw (own t e, keeps t, e) (ap (λ o. Option.map f o) (rw e at h))
  | inr e ↦ elim (Bool-cases (t.id == i)) [
    | inl k ↦ rw (k, keeps t, e) (find-update p i f ss s own keeps (rw e at h))
    | inr k ↦ rw (k, e) (find-update p i f ss s own keeps (rw e at h))
  ]
]

pub own-session : (i user : ℕ) (t : Session) → is_session i user t ≡ true → (t.id == i) ≡ true
own-session i user t h = ground (arith, h)

-- the first issue is the cloud's
first_issue :
    (normal : String → String) (iot : String → Option Certificate)
    → (now i user : ℕ) (hw : String) (st : CredentialStore) (s : Session) (c : Credentials)
    → find (is_session i user) st.sessions ≡ some s
    → cached_for now i st.cache ≡ none
    → (issue_mqtt_credentials normal iot now i user hw st).1 ≡ issued c
    → (cert : Certificate) × (issue_mqtt_credentials normal iot now i user hw st
        ≡ issue_new now i (normal hw) (some cert) st)
      × (c ≡ credentials cert)
      × (is_over s.status ≡ false)
unfolding issue_mqtt_credentials issue_for issue_open
first_issue normal iot now i user hw st s c found fresh h =
    elim (Bool-cases (str_eq (normal hw) "")) [
      | inl e ↦ absurd (refused-issued _ c (rw e at h))
      | inr e ↦ elim (Bool-cases (ltb s.expires_at now)) [
        | inl f ↦ absurd (refused-issued _ c (rw (e, found, f) at h))
        | inr f ↦ elim (Bool-cases (is_over s.status)) [
          | inl g ↦ absurd (refused-issued _ c (rw (e, found, f, g) at h))
          | inr g ↦ elim (Option-cases (iot (normal hw))) [
            | inl k ↦ absurd (refused-issued _ c (rw (e, found, f, g, fresh, k) at h))
            | inr (cert, k) ↦ (
              cert,
              rw (e, found, f, g, fresh, k) refl,
              sym (ap (creds_or c) (rw (e, found, f, g, fresh, k) at h)),
              g,
            )
          ]
        ]
      ]
    ]

-- an issue that comes after one of the cloud
issue_after :
    (normal : String → String) (iot : String → Option Certificate)
    → (now later i user : ℕ) (hw hw' : String) (cert : Certificate) (st : CredentialStore)
      (s : Session)
    → find (is_session i user) st.sessions ≡ some s
    → later < now + 1800
    → later ≤ s.expires_at
    → str_eq (normal hw') "" ≡ false
    → is_over s.status ≡ false
    → let st' = (issue_new now i hw (some cert) st).0 in
      ((issue_mqtt_credentials normal iot later i user hw' st').1 ≡ issued (credentials cert))
      × ((issue_mqtt_credentials normal iot later i user hw' st').0.cache ≡ st'.cache)
unfolding issue_mqtt_credentials issue_for issue_open issue_new
issue_after normal iot now later i user hw hw' cert st s found soon valid named usable =
    let again =
      find-update (is_session i user) i
        (λ t. record t { hardware_id = some hw; certificate_arn = some cert.arn }) st.sessions s
        (own-session i user) (λ t. refl) found in
    rw
      (
        named,
        again,
        not_before s.expires_at later valid,
        usable,
        itself i,
        lt-ltb later (now + 1800) soon,
      )
      (refl, refl)

-- Credentials that were issued for a session are issued again, without a new certificate, for as long as the
-- session is good and thirty minutes have not passed: also where the cloud fails, and also for a hardware id
-- that is another one.
pub issued_again :
    (normal : String → String) (iot iot' : String → Option Certificate)
    → (now later i user : ℕ) (hw hw' : String) (st : CredentialStore) (s : Session)
      (c : Credentials)
    → find (is_session i user) st.sessions ≡ some s
    → cached_for now i st.cache ≡ none
    → (issue_mqtt_credentials normal iot now i user hw st).1 ≡ issued c
    → later < now + 1800
    → later ≤ s.expires_at
    → str_eq (normal hw') "" ≡ false
    → let st' = (issue_mqtt_credentials normal iot now i user hw st).0 in
      ((issue_mqtt_credentials normal iot' later i user hw' st').1 ≡ issued c)
      × ((issue_mqtt_credentials normal iot' later i user hw' st').0.cache ≡ st'.cache)
issued_again normal iot iot' now later i user hw hw' st s c found fresh h soon valid named =
    let (cert, cloud, same, usable) = first_issue normal iot now i user hw st s c found fresh h in
    rw (cloud, same)
      (issue_after normal iot' now later i user (normal hw) hw' cert st s found soon valid named
        usable)
