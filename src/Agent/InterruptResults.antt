-- ===== src/Agent/InterruptResults.antt =====
-- What interrupts reach.
use text.Mathlib.TextPositions.{eq_refl}
use pigugu_server.Common.{
  ℕ, ◌≡◌, ◌<◌, refl, ap, sym, subst, ◌∙◌, String, true, false, Option, none, some, if◌then◌else◌,
  ◌==◌, arith,
}
use pigugu_server.Common.Dict.{get-put, get-pop}
use pigugu_server.Agent.Interrupts.{
  Manager, set, unset, event_of, set_event, forget, store_new, replace_old, create, trigger_found,
  trigger, is_set, cleanup_found, cleanup, enter_found, enter, leave,
}

event_of-create :
    (key : String) (now : ℕ) (m : Manager)
    → event_of key (create key now m).1 ≡ some (create key now m).0
unfolding create store_new
event_of-create key now m =
    let m' = replace_old key (event_of key m) m in
    get-put m'.events key key m'.next ∙ rw (eq_refl key) refl

flags-create :
    (key : String) (now : ℕ) (m : Manager) → (create key now m).1.flags (create key now m).0 ≡ false
unfolding create store_new unset
flags-create key now m = ground arith

flags-set_event : (e : ℕ) (m : Manager) → (set_event e m).flags e ≡ true
unfolding set_event set
flags-set_event e m = ground arith

flags-set_event_ne :
    (e x : ℕ) (m : Manager) → (x == e) ≡ false → (set_event e m).flags x ≡ m.flags x
unfolding set_event set
flags-set_event_ne e x m h = rw h refl

-- A trigger for a key with an event sets this event, for which tasks may wait already, and no other; the
-- key is then reported as interrupted.
pub trigger-is_set :
    (key : String) (now : ℕ) (m : Manager) (e : ℕ)
    → event_of key m ≡ some e
    → (is_set key (trigger key now m) ≡ true)
      × ((x : ℕ) → (trigger key now m).flags x ≡ (if x == e then true else m.flags x))
unfolding trigger is_set trigger_found set_event set
trigger-is_set key now m e h = rw h (rw h (ground arith), λ x. refl)

lt-ne : (x y : ℕ) → x < y → (x == y) ≡ false
lt-ne x y h = ground arith

flags-replace_old :
    (key : String) (m : Manager) (old : ℕ) → (replace_old key (some old) m).flags old ≡ true
unfolding replace_old forget set_event set
flags-replace_old key m old = ground arith

next-replace_old : (key : String) (o : Option ℕ) (m : Manager) → (replace_old key o m).next ≡ m.next
unfolding replace_old forget set_event
next-replace_old key none m = refl
next-replace_old key (some old) m = ground arith

flags-create_old :
    (key : String) (now : ℕ) (m : Manager) (old : ℕ)
    → event_of key m ≡ some old
    → old < m.next
    → (create key now m).1.flags old ≡ true
unfolding create store_new unset
flags-create_old key now m old h fresh =
    rw (h, next-replace_old key (some old) m, lt-ne old m.next fresh) (flags-replace_old key m old)

-- A new event for a key that has one replaces it: the manager has the new event, which is not set, and the
-- old one is set, so that the tasks that wait for it are interrupted.
pub create_replaces :
    (key : String) (now : ℕ) (m : Manager) (old : ℕ)
    → event_of key m ≡ some old
    → old < m.next
    → let (e, m') = create key now m in
      (event_of key m' ≡ some e) × (m'.flags e ≡ false) × (m'.flags old ≡ true)
create_replaces key now m old h fresh =
    (event_of-create key now m, flags-create key now m, flags-create_old key now m old h fresh)

enter_new :
    (key : String) (now : ℕ) (m : Manager)
    → event_of key m ≡ none
    → enter key now m ≡ create key now m
unfolding enter enter_found
enter_new key now m h = rw h refl

enter_old :
    (key : String) (now : ℕ) (m : Manager) (e : ℕ)
    → event_of key m ≡ some e
    → enter key now m ≡ (e, m)
unfolding enter enter_found
enter_old key now m e h = rw h refl

next-create :
    (key : String) (now : ℕ) (m : Manager) → (create key now m).0 < (create key now m).1.next
unfolding create store_new
next-create key now m = omega arith

-- what a run leaves behind
leave_forgets :
    (key : String) (m : Manager) (e : ℕ)
    → event_of key m ≡ some e
    → (event_of key (leave key m) ≡ none)
      × ((leave key m).flags ≡ m.flags)
      × ((leave key m).next ≡ m.next)
unfolding leave cleanup cleanup_found forget
leave_forgets key m e h = rw h (get-pop m.events key key ∙ rw (eq_refl key) refl, refl, refl)

create_new :
    (key : String) (now : ℕ) (m : Manager)
    → event_of key m ≡ none
    → create key now m ≡ (m.next, store_new key now m)
unfolding create replace_old
create_new key now m h = rw h refl

trigger_unknown :
    (key : String) (now : ℕ) (m : Manager)
    → event_of key m ≡ none
    → trigger key now m ≡ set_event m.next (store_new key now m)
unfolding trigger trigger_found
trigger_unknown key now m h = rw h (ap (λ c. set_event c.0 c.1) (create_new key now m h))

set_new :
    (key : String) (now : ℕ) (m : Manager) (x : ℕ)
    → x < m.next
    → (set_event m.next (store_new key now m)).flags x ≡ m.flags x
unfolding set_event store_new set unset
set_new key now m x fresh = rw (lt-ne x m.next fresh) refl

trigger_new :
    (key : String) (now : ℕ) (m : Manager) (x : ℕ)
    → event_of key m ≡ none
    → x < m.next
    → (trigger key now m).flags x ≡ m.flags x
trigger_new key now m x h fresh =
    ap (λ m'. m'.flags x) (trigger_unknown key now m h) ∙ set_new key now m x fresh

-- While two guarded runs under one key are under way, the first of them that ends takes the event from the
-- manager: a later trigger for the key sets a new event and not the one that the other run waits for.
pub shared_key_loses_interrupt :
    (key : String) (t₁ t₂ t₃ : ℕ) (m : Manager)
    → event_of key m ≡ none
    → let (e₁, m₁) = enter key t₁ m in
      let (e₂, m₂) = enter key t₂ m₁ in
      (e₂ ≡ e₁) × ((trigger key t₃ (leave key m₂)).flags e₂ ≡ false)
shared_key_loses_interrupt key t₁ t₂ t₃ m new =
    let (e, m₁) = create key t₁ m in
    let there = event_of-create key t₁ m in
    let (gone, same, next) = leave_forgets key m₁ e there in
    rw (enter_new key t₁ m new) (
      rw (enter_old key t₂ m₁ e there) (
        refl,
        trigger_new key t₃ (leave key m₁) e gone
              (subst (λ n. e < n) (sym next) (next-create key t₁ m))
            ∙ (ap (λ f. f e) same ∙ flags-create key t₁ m),
      ))
