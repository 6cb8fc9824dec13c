-- ===== src/Roast/Settled.antt =====
-- What a settlement leaves: mark_roast_complete of pigagent/tools/roast.py.
use pigugu_server.Common.{
  ◌≡◌, refl, ap, subst, ◌∙◌, String, true, false, some, ◌∷◌, if◌then◌else◌, str_eq, Bool-cases, inl,
  inr, if_intro,
}
use pigugu_server.Roast.State.{RoastState}
use pigugu_server.Roast.Storage.{Store, up, is_up, load_active, save, save_active, save_history}
use pigugu_server.Roast.Sessions.{load_active-save_active}
use pigugu_server.Roast.Settle.{
  Ledger, settlement, already_over, completed_as, is_playing, settle_state, write_row, push_card,
  settle_roast, complete, mark_roast_complete,
}

-- the row and the card leave the sessions as they are
write_row-store :
    (user reason : String) (s : RoastState) (l : Ledger)
    → (write_row user reason s l).store ≡ l.store
unfolding write_row
write_row-store user reason s l =
    if_intro (λ (x : Ledger). x.store ≡ l.store) (is_up l.store.pg) _ l (λ e. refl) (λ e. refl)

push_card-store :
    (user reason : String) (s : RoastState) (l : Ledger)
    → (push_card user reason s l).store ≡ l.store
unfolding push_card
push_card-store user reason s l =
    if_intro (λ (x : Ledger). x.store ≡ l.store) (str_eq reason "completed") _ l
      (λ e.
        if_intro (λ (x : Ledger). x.store ≡ l.store) (is_up l.store.redis) _ l (λ f. refl)
          (λ f. refl))
      (λ e. refl)

pub save_history-active :
    (s : RoastState) (user : String) (st : Store)
    → load_active user (save_history s st) ≡ load_active user st
unfolding load_active save_history
save_history-active s user st =
    if_intro (λ (x : Store). load_active user x ≡ load_active user st) (is_up st.pg) _ st
      (λ e. refl) (λ e. refl)

-- after a settlement the user's session is the settled one
pub settle_roast-active :
    (user reason : String) (s : RoastState) (l : Ledger)
    → l.store.redis ≡ up
    → s.user_id ≡ user
    → load_active user (settle_roast user reason s l).store ≡ some (settle_state s)
unfolding settle_roast save
settle_roast-active user reason s l live own =
    let s' = settle_state s in
    let saved = record l { store = save s' l.store } in
    let back : load_active user (save s' l.store) ≡ some s' =
      save_history-active s' user (save_active s' l.store)
      ∙ subst (λ u. load_active u (save_active s' l.store) ≡ some s') own
          (load_active-save_active s' l.store live) in
    ap (load_active user) (
      push_card-store user reason s' (write_row user reason s' saved)
      ∙ write_row-store user reason s' saved)
    ∙ back

-- a running game of the user is settled
pub played :
    (user reason : String) (s : RoastState) (l : Ledger)
    → str_eq user "" ≡ false
    → load_active user l.store ≡ some s
    → is_playing s.phase ≡ true
    → mark_roast_complete user reason l ≡ (settle_roast user reason s l, completed_as reason)
unfolding mark_roast_complete complete
played user reason s l named found running = rw (named, found, running) refl

-- a game that is over is left
pub over :
    (user reason : String) (s : RoastState) (l : Ledger)
    → str_eq user "" ≡ false
    → load_active user l.store ≡ some s
    → is_playing s.phase ≡ false
    → mark_roast_complete user reason l ≡ (l, already_over s.phase)
unfolding mark_roast_complete complete
over user reason s l named found ended = rw (named, found, ended) refl

save-redis : (s : RoastState) (st : Store) → (save s st).redis ≡ st.redis
unfolding save save_history save_active
save-redis s st =
    if_intro (λ (x : Store). x.redis ≡ st.redis) (is_up (save_active s st).pg) _ (save_active s st)
      (λ e.
        if_intro (λ (x : Store). x.redis ≡ st.redis) (is_up st.redis) _ st (λ f. refl) (λ f. refl))
      (λ e.
        if_intro (λ (x : Store). x.redis ≡ st.redis) (is_up st.redis) _ st (λ f. refl) (λ f. refl))

write_row-pushed :
    (user reason : String) (s : RoastState) (l : Ledger)
    → (write_row user reason s l).pushed ≡ l.pushed
unfolding write_row
write_row-pushed user reason s l =
    if_intro (λ (x : Ledger). x.pushed ≡ l.pushed) (is_up l.store.pg) _ l (λ e. refl) (λ e. refl)

pushed_by :
    (user reason : String) (s : RoastState) (l : Ledger)
    → l.store.redis ≡ up
    → (push_card user reason s l).pushed ≡ (
        if str_eq reason "completed"
        then (user, settlement s.mode reason s) ∷ l.pushed
        else l.pushed)
unfolding push_card
pushed_by user reason s l live = elim (Bool-cases (str_eq reason "completed")) [
  | inl e ↦ rw (e, live) refl
  | inr e ↦ rw e refl
]

-- a settlement leaves Redis as it is
pub settle_roast-redis :
    (user reason : String) (s : RoastState) (l : Ledger)
    → l.store.redis ≡ up
    → (settle_roast user reason s l).store.redis ≡ up
unfolding settle_roast
settle_roast-redis user reason s l live =
    let s' = settle_state s in
    let saved = record l { store = save s' l.store } in
    ap (λ (st : Store). st.redis)
      (push_card-store user reason s' (write_row user reason s' saved)
        ∙ write_row-store user reason s' saved)
    ∙ save-redis s' l.store
    ∙ live

-- While Redis works, the call that settles a game pushes the card of the game to its user where its reason is completed, and none where the user quits.
pub card_if_completed :
    (user reason : String) (s : RoastState) (l : Ledger)
    → l.store.redis ≡ up
    → str_eq user "" ≡ false
    → load_active user l.store ≡ some s
    → is_playing s.phase ≡ true
    → (mark_roast_complete user reason l).0.pushed ≡ (
        if str_eq reason "completed"
        then (user, settlement s.mode reason (settle_state s)) ∷ l.pushed
        else l.pushed)
unfolding settle_roast
card_if_completed user reason s l live named found running =
    let s' = settle_state s in
    let saved = record l { store = save s' l.store } in
    let working : (write_row user reason s' saved).store.redis ≡ up =
      ap (λ (st : Store). st.redis) (write_row-store user reason s' saved)
      ∙ save-redis s' l.store
      ∙ live in
    rw (played user reason s l named found running) (
      pushed_by user reason s' (write_row user reason s' saved) working
      ∙ ap
          (λ ps.
            if str_eq reason "completed" then (user, settlement s'.mode reason s') ∷ ps else ps)
          (write_row-pushed user reason s' saved))
