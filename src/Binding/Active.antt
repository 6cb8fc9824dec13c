-- ===== src/Binding/Active.antt =====
-- How many devices of a user are active, and what a device's unbinding leaves.
use pigugu_server.Common.{
  ℕ, ◌≤◌, ◌≡◌, refl, ap, sym, ◌∙◌, String, Bool, true, false, ◌&&◌, Option, none, some, List, [],
  ◌∷◌, ◌==◌, find, any, count, All, Bool-cases, inl, inr, arith, is_some,
}
use pigugu_server.Models.{Device, Db, is_bound}
use pigugu_server.Ota.Tables.{amend_devices}
use pigugu_server.Binding.Service.{
  done, raised, one_active_violated, is_owned, is_active_of, set_standby, activate, set_found,
  set_active_device, insert_device, has_active, bind_to, bind_by, bind_device, Session, is_verified,
}

module _ (user id : ℕ) where
  -- the rows after the device was made active
  abbrev pub switched : List Device → List Device
  switched ds = amend_devices id activate (set_standby user id ds)

  count-switched :
      (ds : List Device) → count (is_active_of user) (switched ds) ≡ count (is_owned user id) ds
  unfolding set_standby amend_devices
  count-switched [] = refl
  count-switched (d ∷ ds) = ground (arith, count-switched ds)

  any-switched :
      (ds : List Device) → any (is_active_of user) (switched ds) ≡ any (is_owned user id) ds
  unfolding set_standby amend_devices
  any-switched [] = refl
  any-switched (d ∷ ds) = ground (arith, any-switched ds)

  has_active-switched :
      (ds : List Device)
      → has_active user (switched ds)
        ≡ any (λ d. is_owned user id d && is_bound d.binding_status) ds
  unfolding set_standby amend_devices
  has_active-switched [] = refl
  has_active-switched (d ∷ ds) = ground (arith, has_active-switched ds)

  found-set_standby :
      (ds : List Device)
      → is_some (find (is_owned user id) (set_standby user id ds)) ≡ any (is_owned user id) ds
  unfolding set_standby
  found-set_standby [] = refl
  found-set_standby (d ∷ ds) = ground (arith, found-set_standby ds)

  set_active_device-done :
      (db : Db)
      → (set_active_device user id db).1 ≡ done
      → ((set_active_device user id db).0.devices ≡ switched db.devices)
        × (any (is_owned user id) db.devices ≡ true)
  unfolding set_active_device
  set_active_device-done db ok =
      go (find (is_owned user id) (set_standby user id db.devices)) refl ok
    where
      go :
          (o : Option Device)
          → find (is_owned user id) (set_standby user id db.devices) ≡ o
          → (set_found id db (record db { devices = set_standby user id db.devices }) o).1 ≡ done
          → ((set_found id db (record db { devices = set_standby user id db.devices }) o).0.devices
              ≡ switched db.devices)
            × (any (is_owned user id) db.devices ≡ true)
      go none e ok = cc
      go (some d) e ok = (refl, sym (found-set_standby db.devices) ∙ ap is_some e)

any-count {ℓ} : {A : Type ℓ} (p : A → Bool) (xs : List A) → any p xs ≡ true → 1 ≤ count p xs
any-count p [] h = ground arith
any-count p (x ∷ xs) h = ground (arith, any-count p xs)

owned-le :
    (user id : ℕ) (ds : List Device) → count (is_owned user id) ds ≤ count (λ d. d.id == id) ds
owned-le user id [] = omega arith
owned-le user id (d ∷ ds) = ground (arith, owned-le user id ds)

-- Where the ids are distinct: when a device is made active, exactly one device of the user is active, however
-- many were before.
pub set_active_one :
    (user id : ℕ) (db : Db)
    → count (λ d. d.id == id) db.devices ≤ 1
    → (set_active_device user id db).1 ≡ done
    → count (is_active_of user) (set_active_device user id db).0.devices ≡ 1
set_active_one user id db distinct ok =
    let (after, owned) = set_active_device-done user id db ok in
    let low = any-count (is_owned user id) db.devices owned in
    let high = owned-le user id db.devices in
    ap (count (is_active_of user)) after ∙ (count-switched user id db.devices ∙ omega arith)

any-none {ℓ} :
    {A : Type ℓ} (p q : A → Bool) (xs : List A)
    → All (λ x. p x ≡ true → q x ≡ false) xs
    → any (λ x. p x && q x) xs ≡ false
any-none p q [] h = refl
any-none p q (x ∷ xs) (a, h) = elim (Bool-cases (p x)) [
  | inr e ↦ rw e (any-none p q xs h)
  | inl e ↦ rw (e, a e) (any-none p q xs h)
]

bind_to_new :
    (id now user : ℕ) (name hardware thing : String) (s : Session) (db : Db)
    → has_active user db.devices ≡ false
    → any (is_active_of user) db.devices ≡ true
    → (bind_to id now user name hardware thing s none db).1 ≡ raised one_active_violated
unfolding bind_to insert_device
bind_to_new id now user name hardware thing s db h k = rw (h, k) refl

bind_by_new :
    (normal trimmed : String → String) (ilike : String → String → Bool) (id now user : ℕ)
    (name hardware : String) (o : Option Session) (s : Session) (db : Db)
    → o ≡ some s
    → is_verified s.status ≡ true
    → find (λ d. ilike d.hardware_id (normal hardware)) db.devices ≡ none
    → has_active user db.devices ≡ false
    → any (is_active_of user) db.devices ≡ true
    → (bind_by normal trimmed ilike id now user name hardware o db).1 ≡ raised one_active_violated
unfolding bind_by
bind_by_new normal trimmed ilike id now user name hardware o s db found ok new h k =
    rw (found, ok, new) (bind_to_new id now user name (trimmed hardware) (normal hardware) s db h k)

-- the device is a released one
abbrev pub IsReleased : ℕ → ℕ → List Device → Type 0
IsReleased user id ds = All (λ d. is_owned user id d ≡ true → is_bound d.binding_status ≡ false) ds

-- A user can make a device active that he has unbound. From then on he cannot bind a new device, though his
-- session is verified: the new device is to be active, because no bound one is, and the index on the active
-- devices refuses it.
pub released_device_blocks_bind :
    (user id : ℕ) (db : Db) (normal trimmed : String → String) (ilike : String → String → Bool)
    (new now session : ℕ) (name hardware : String) (sessions : List Session) (s : Session)
    → IsReleased user id db.devices
    → (set_active_device user id db).1 ≡ done
    → find (λ s. s.id == session && s.user_id == user) sessions ≡ some s
    → is_verified s.status ≡ true
    → find (λ d. ilike d.hardware_id (normal hardware)) (set_active_device user id db).0.devices
      ≡ none
    → (bind_device normal trimmed ilike new now user session name hardware sessions
        (set_active_device user id db).0).2
      ≡ raised one_active_violated
unfolding bind_device
released_device_blocks_bind user id db normal trimmed ilike new now session name hardware sessions s
      free ok found good unknown =
    let (after, owned) = set_active_device-done user id db ok in
    bind_by_new normal trimmed ilike new now user name hardware
      (find (λ s. s.id == session && s.user_id == user) sessions) s (set_active_device user id db).0
      found good unknown
      (ap (has_active user) after
        ∙ (has_active-switched user id db.devices
            ∙ any-none (is_owned user id) (λ d. is_bound d.binding_status) db.devices free))
      (ap (any (is_active_of user)) after ∙ (any-switched user id db.devices ∙ owned))
