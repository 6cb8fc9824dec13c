-- ===== src/Binding/Registered.antt =====
-- The registration of a device happens once: `_handle_register` of api/modules/device/iot.py.
use pigugu_server.Common.{
  ℕ, ◌≡◌, refl, sym, ap, ◌∙◌, Bool, true, false, Option, none, some, List, [], ◌∷◌, String,
  Bool-cases, inl, inr, ◌==◌, ==_iff, find,
}
use mathlib.Core.Bool.{false≢true}
use mathlib.Core.Option.{none-ne-some}
use pigugu_server.Models.{Device, Db}
use pigugu_server.Binding.Service.{Session, close_session, Result, done, raised}
use pigugu_server.Binding.Provisioning.{update_session}
use pigugu_server.Binding.Registration.{
  Push, pushed_bound, is_verifying, register_device, registered, register_for, handle_register,
}
use pigugu_server.Binding.Credentials.{find-update}

abbrev is_bound_push : List Push → Bool
is_bound_push (pushed_bound ∷ []) = true
is_bound_push ps = false

registered-bound :
    (s : Session) (o : Option (Db × Result)) (db : Db) (ss : List Session)
    → (registered s o db ss).2 ≡ pushed_bound ∷ []
    → (registered s o db ss).1 ≡ update_session s.id close_session ss
unfolding registered
registered-bound s none db ss h = absurd (false≢true (ap is_bound_push h))
registered-bound s (some (db', done)) db ss h = refl
registered-bound s (some (db', raised e)) db ss h = absurd (false≢true (ap is_bound_push h))

abbrev found_id : Option Session → ℕ
found_id none = 0
found_id (some s) = s.id

-- what is found has the id that was asked for
find-id : (i : ℕ) (ss : List Session) (s : Session) → find (λ s. s.id == i) ss ≡ some s → s.id ≡ i
find-id i [] s h = absurd (none-ne-some s h)
find-id i (t ∷ ss) s h = elim (Bool-cases (t.id == i)) [
  | inl e ↦ sym (ap found_id (rw e at h)) ∙ (==_iff t.id i).0 e
  | inr e ↦ find-id i ss s (rw e at h)
]

-- a message for a session that is bound
silent :
    (normal : String → String) (ilike : String → String → Bool)
    → (id later : ℕ) (name : String) (i : ℕ) (hw : String) (db : Db) (ss ss' : List Session)
      (s : Session)
    → find (λ s. s.id == i) ss ≡ some s
    → ss' ≡ update_session s.id close_session ss
    → handle_register normal ilike id later name i hw db ss' ≡ (db, ss', [])
unfolding handle_register register_for
silent normal ilike id later name i hw db ss ss' s found e =
    let closed : find (λ (s : Session). s.id == i) ss' ≡ some (close_session s) = rw e (
      find-update (λ s. s.id == i) s.id close_session ss s (λ t h. rw (find-id i ss s found) h)
        (λ t. refl) found) in
    rw closed refl

-- A device that was bound by its registration is not registered again: the second message of the session changes
-- nothing and pushes nothing.
pub registered_once :
    (normal : String → String) (ilike : String → String → Bool)
    → (id id' now later : ℕ) (name name' : String) (i : ℕ) (hw hw' : String)
    → (db : Db) (ss : List Session) (s : Session) → find (λ s. s.id == i) ss ≡ some s
    → (handle_register normal ilike id now name i hw db ss).2 ≡ pushed_bound ∷ []
    → let (db', ss', pushes) = handle_register normal ilike id now name i hw db ss in
      handle_register normal ilike id' later name' i hw' db' ss' ≡ (db', ss', [])
unfolding handle_register register_for
registered_once normal ilike id id' now later name name' i hw hw' db ss s found h =
    elim (Bool-cases (is_verifying s.status)) [
      | inr e ↦ absurd (false≢true (ap is_bound_push (rw (found, e) at h)))
      | inl e ↦
          let device = find (λ (d : Device). ilike d.hardware_id (normal hw)) db.devices in
          let r = registered s (register_device id now name (normal hw) s device db) db ss in
          rw (found, e)
            (silent normal ilike id' later name' i hw' r.0 ss r.1 s found (
              registered-bound s (register_device id now name (normal hw) s device db) db ss
                (rw (found, e) at h)))
    ]
