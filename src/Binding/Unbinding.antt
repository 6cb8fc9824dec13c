-- ===== src/Binding/Unbinding.antt =====
-- What a device's unbinding leaves: its jobs, and the active device of its user.
use mathlib.Core.Option.{some-injective}
use pigugu_server.Common.{
  ℕ, ◌+◌, ◌≤◌, ◌≡◌, refl, ap, sym, subst, ◌∙◌, String, Bool, true, false, ◌&&◌, Option, none, some,
  List, [], ◌∷◌, ◌==◌, find, select, count, Bool-cases, inl, inr, arith,
}
use pigugu_server.Models.{Job, Device, Db, is_current}
use pigugu_server.Ota.Tables as Tables
use pigugu_server.Ota.Tables.{amend_devices, first_by}
use pigugu_server.Binding.Service.{
  done, is_owned, is_active_of, activate, close_jobs, unbind_found, unbind_device, promote, release,
  is_candidate, later_created,
}

count-close_jobs :
    (now id : ℕ) (js : List Job) → count (Tables.is_active_of id) (close_jobs now id js) ≡ 0
unfolding close_jobs
count-close_jobs now id [] = refl
count-close_jobs now id (j ∷ js) = ground (arith, count-close_jobs now id js)

-- the row of the device, if it is the user's active one
abbrev pub is_current_of : ℕ → ℕ → Device → Bool
is_current_of user id d = d.id == id && is_active_of user d

count-release :
    (user id : ℕ) (ds : List Device)
    → count (is_active_of user) (amend_devices id release ds) + count (is_current_of user id) ds
      ≡ count (is_active_of user) ds
unfolding amend_devices
count-release user id [] = refl
count-release user id (d ∷ ds) = ground (arith, count-release user id ds)

count-activate :
    (user id : ℕ) (ds : List Device)
    → count (is_active_of user) (amend_devices id activate ds)
      ≤ count (is_active_of user) ds + count (λ d. d.id == id) ds
unfolding amend_devices
count-activate user id [] = omega arith
count-activate user id (d ∷ ds) = ground (arith, count-activate user id ds)

count-ids :
    (id i : ℕ) (ds : List Device)
    → count (λ d. d.id == i) (amend_devices id release ds) ≡ count (λ d. d.id == i) ds
unfolding amend_devices
count-ids id i [] = refl
count-ids id i (d ∷ ds) = ground (arith, count-ids id i ds)

owned_current :
    (user id : ℕ) (d : Device)
    → is_owned user id d ≡ true
    → is_current d.active_state ≡ true
    → is_current_of user id d ≡ true
owned_current user id d e c = ground arith

find_head {ℓ} :
    {A : Type ℓ} (p : A → Bool) (x : A) (xs : List A) → p x ≡ true → find p (x ∷ xs) ≡ some x
find_head p x xs e = rw e refl

find_tail {ℓ} :
    {A : Type ℓ} (p : A → Bool) (x : A) (xs : List A) → p x ≡ false → find p (x ∷ xs) ≡ find p xs
find_tail p x xs e = rw e refl

count-found :
    (user id : ℕ) (ds : List Device) (d : Device)
    → find (is_owned user id) ds ≡ some d
    → is_current d.active_state ≡ true
    → 1 ≤ count (is_current_of user id) ds
count-found user id [] d f c = ground arith
count-found user id (x ∷ ds) d f c = elim (Bool-cases (is_owned user id x)) [
  | inl e ↦
      let same : x ≡ d = some-injective _ _ (sym (find_head (is_owned user id) x ds e) ∙ f) in
      let here =
        owned_current user id x e (ap (λ (y : Device). is_current y.active_state) same ∙ c) in
      rw here (omega arith)
  | inr e ↦
      let later = count-found user id ds d (sym (find_tail (is_owned user id) x ds e) ∙ f) c in
      omega arith
]

-- row ids are primary keys
abbrev pub IsKeyed : List Device → Type 0
IsKeyed ds = (i : ℕ) → count (λ d. d.id == i) ds ≤ 1

count-promote :
    (user : ℕ) (o : Option Device) (ds : List Device)
    → IsKeyed ds
    → count (is_active_of user) ds ≡ 0
    → count (is_active_of user) (promote o ds) ≤ 1
unfolding promote
count-promote user none ds keyed h = omega arith
count-promote user (some d) ds keyed h =
    let l = count-activate user d.id ds in let k = keyed d.id in omega arith

unbind_found_keeps :
    (online : String → Bool) (now user id : ℕ) (o : Option Device) (db : Db)
    → find (is_owned user id) db.devices ≡ o
    → IsKeyed db.devices
    → count (is_active_of user) db.devices ≤ 1
    → (unbind_found online now user id o db).1 ≡ done
    → (count (is_active_of user) (unbind_found online now user id o db).0.devices ≤ 1)
      × (count (Tables.is_active_of id) (unbind_found online now user id o db).0.jobs ≡ 0)
unfolding unbind_found
unbind_found_keeps online now user id none db f keyed one ok = cc
unbind_found_keeps online now user id (some d) db f keyed one ok =
    let released = amend_devices id release db.devices in
    let total = count-release user id db.devices in
    let best = first_by later_created (select (is_candidate online user id) released) in
    (
      elim (Bool-cases (is_current d.active_state)) [
        | inr e ↦ rw e (omega arith)
        | inl e ↦
            let mine = count-found user id db.devices d f e in
            rw e (
              count-promote user best released
                (λ i. subst (λ n. n ≤ 1) (sym (count-ids id i db.devices)) (keyed i)) (omega arith))
      ],
      count-close_jobs now id db.jobs,
    )

-- Where the ids are distinct and the user has at most one active device: after a device is unbound he has at
-- most one still, also where another device was made active in its place, and the device has no active
-- upgrade job.
pub unbind_device_keeps_one :
    (online : String → Bool) (now user id : ℕ) (db : Db)
    → IsKeyed db.devices
    → count (is_active_of user) db.devices ≤ 1
    → (unbind_device online now user id db).1 ≡ done
    → (count (is_active_of user) (unbind_device online now user id db).0.devices ≤ 1)
      × (count (Tables.is_active_of id) (unbind_device online now user id db).0.jobs ≡ 0)
unfolding unbind_device
unbind_device_keeps_one online now user id db keyed one ok =
    unbind_found_keeps online now user id (find (is_owned user id) db.devices) db refl keyed one ok
