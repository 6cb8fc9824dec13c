-- ===== src/Binding/FiveOpen.antt =====
-- The number of open provisioning sessions: `create_provisioning_session` of api/modules/device/service.py.
use pigugu_server.Common.{
  ℕ, zero, suc, ◌-◌, ◌≤◌, ◌≡◌, refl, Bool, true, false, not, ◌&&◌, List, [], ◌∷◌, arith, Bool-cases,
  inl, inr, leb, leb→le, count, length, select, map, take, ◌==◌, String, leb-lt, All,
}
use pigugu_server.Binding.Service.{Session}
use pigugu_server.Binding.Provisioning.{
  is_open, insert_by_expiry, by_expiry, to_cancel, is_listed, cancel_all, new_session,
  create_provisioning_session,
}

-- sorting moves no session away
count-insert :
    (p : Session → Bool) (s : Session) (ts : List Session)
    → count p (insert_by_expiry s ts) ≡ count p (s ∷ ts)
unfolding insert_by_expiry
count-insert p s [] = refl
count-insert p s (t ∷ ts) = elim (Bool-cases (leb s.expires_at t.expires_at)) [
  | inl e ↦ rw e refl
  | inr e ↦ rw e (omega (arith, count-insert p s ts))
]

count-by_expiry : (p : Session → Bool) (ss : List Session) → count p (by_expiry ss) ≡ count p ss
unfolding by_expiry
count-by_expiry p [] = refl
count-by_expiry p (s ∷ ss) = omega (arith, count-insert p s (by_expiry ss), count-by_expiry p ss)

abbrev ids : List Session → List ℕ
ids ss = map (λ (s : Session). s.id) ss

count-length : (p : Session → Bool) (ss : List Session) → count p ss ≤ length ss
count-length p [] = omega arith
count-length p (s ∷ ss) = ground (arith, count-length p ss)

-- where the first n sessions are listed, at most the others are not
count-unlisted :
    (js : List ℕ) (n : ℕ) (ss : List Session)
    → All (λ (s : Session). is_listed s.id js ≡ true) (take n ss)
    → count (λ s. not (is_listed s.id js)) ss ≤ length ss - n
count-unlisted js zero ss h =
    omega (arith, count-length (λ (s : Session). not (is_listed s.id js)) ss)
count-unlisted js (suc n) [] h = omega arith
count-unlisted js (suc n) (s ∷ ss) (e, h) = rw e (omega (arith, count-unlisted js n ss h))

-- sessions are listed where their ids are
own-ids :
    (js : List ℕ) (ss : List Session)
    → ((i : ℕ) → is_listed i (ids ss) ≡ true → is_listed i js ≡ true)
    → All (λ (s : Session). is_listed s.id js ≡ true) ss
own-ids js [] h = tt
own-ids js (s ∷ ss) h = (h s.id (ground arith), own-ids js ss (λ i k. h i (ground (arith, k))))

and_false : (b : Bool) → (b && false) ≡ false
and_false true = refl
and_false false = refl

-- what is open after the cancellation was open before, and is not among the cancelled
count-cancel :
    (user : ℕ) (js : List ℕ) (ss : List Session)
    → count (is_open user) (cancel_all js ss)
      ≡ count (λ s. not (is_listed s.id js)) (select (is_open user) ss)
unfolding cancel_all
count-cancel user js [] = refl
count-cancel user js (s ∷ ss) = elim (Bool-cases (is_listed s.id js)) [
  | inl e ↦ elim (Bool-cases (is_open user s)) [
    | inl f ↦ rw (e, f, and_false (s.user_id == user), e) (omega (arith, count-cancel user js ss))
    | inr f ↦ rw (e, f, and_false (s.user_id == user)) (omega (arith, count-cancel user js ss))
  ]
  | inr e ↦ elim (Bool-cases (is_open user s)) [
    | inl f ↦ rw (e, f, e) (omega (arith, count-cancel user js ss))
    | inr f ↦ rw (e, f) (omega (arith, count-cancel user js ss))
  ]
]

-- four of the open sessions are left
four_left : (ss : List Session) → count (λ s. not (is_listed s.id (ids (to_cancel ss)))) ss ≤ 4
unfolding to_cancel
four_left ss = elim (Bool-cases (leb 5 (length ss))) [
  | inl e ↦
      let js = ids (take (length ss - 4) ss) in
      rw e (
        omega (
          arith,
          leb→le 5 (length ss) e,
          count-unlisted js (length ss - 4) ss (own-ids js (take (length ss - 4) ss) (λ i h. h)),
        ))
  | inr e ↦ rw e (
      omega
        (arith, leb-lt 5 (length ss) e, count-length (λ (s : Session). not (is_listed s.id [])) ss))
]

-- After a session was created, its user has at most five open ones, however many there were.
pub create_keeps_five :
    (id user now : ℕ) (nonce : String) (ss : List Session)
    → count (is_open user) (create_provisioning_session id user nonce now ss) ≤ 5
unfolding create_provisioning_session
create_keeps_five id user now nonce ss =
    let opened = select (is_open user) ss in
    let js = ids (to_cancel (by_expiry opened)) in
    omega (
      arith,
      count-cancel user js ss,
      count-by_expiry (λ (s : Session). not (is_listed s.id js)) opened,
      four_left (by_expiry opened),
      count-length (is_open user) (new_session id user nonce now ∷ []),
    )
