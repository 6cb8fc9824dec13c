-- ===== src/Context/HotTurns.antt =====
-- The window of turns that the memory gives, get_hot_turns of pigagent/context/storage/memory.py, as a list.
use mathlib.Core.List.{append_assoc}
use pigugu_server.Common.{
  ℕ, zero, suc, ◌-◌, ◌≤◌, ◌≡◌, refl, ap, ◌∙◌, Bool, true, false, List, [], ◌∷◌, ◌++◌, arith,
  Bool-cases, inl, inr, length, select, drop, take_last, length-take_last, All, All-imp,
}
use pigugu_server.Context.Record.{ConversationRecord}
use pigugu_server.Context.Memory.{hot_turns, is_real, is_virtual}

abbrev pub AllReal : List ConversationRecord → Type 0
AllReal rs = All (λ r. is_real r ≡ true) rs

abbrev pub AllVirtual : List ConversationRecord → Type 0
AllVirtual rs = All (λ r. is_real r ≡ false) rs

module _ {ℓ} {A : Type ℓ} (P : A → Type 0) where
  pub All-select : (p : A → Bool) (xs : List A) → All P xs → All P (select p xs)
  All-select p [] h = tt
  All-select p (x ∷ xs) h = elim (Bool-cases (p x)) [
    | inl e ↦ rw e (h.0, All-select p xs h.1)
    | inr e ↦ rw e (All-select p xs h.1)
  ]

  pub All-drop : (n : ℕ) (xs : List A) → All P xs → All P (drop n xs)
  All-drop zero xs h = h
  All-drop (suc n) [] h = tt
  All-drop (suc n) (x ∷ xs) h = All-drop n xs h.1

-- what a selection leaves passes its test
pub select-All {ℓ} : {A : Type ℓ} (p : A → Bool) (xs : List A) → All (λ x. p x ≡ true) (select p xs)
select-All p [] = tt
select-All p (x ∷ xs) = elim (Bool-cases (p x)) [
  | inl e ↦ rw e (e, select-All p xs)
  | inr e ↦ rw e (select-All p xs)
]

select_virtual-real :
    (vs rs : List ConversationRecord)
    → AllVirtual vs
    → AllReal rs
    → select is_virtual (vs ++ rs) ≡ vs
select_virtual-real [] [] h k = refl
select_virtual-real [] (r ∷ rs) h k = rw k.0 (select_virtual-real [] rs h k.1)
select_virtual-real (v ∷ vs) rs h k = rw h.0 (ap (λ xs. v ∷ xs) (select_virtual-real vs rs h.1 k))

select_real-virtual :
    (vs rs : List ConversationRecord)
    → AllVirtual vs
    → select is_real (vs ++ rs) ≡ select is_real rs
select_real-virtual [] rs h = refl
select_real-virtual (v ∷ vs) rs h = rw h.0 (select_real-virtual vs rs h.1)

select_real-all : (rs : List ConversationRecord) → AllReal rs → select is_real rs ≡ rs
select_real-all [] h = refl
select_real-all (r ∷ rs) h = rw h.0 (ap (λ xs. r ∷ xs) (select_real-all rs h.1))

select_virtual-append :
    (vs rs : List ConversationRecord)
    → AllVirtual vs
    → select is_virtual (vs ++ rs) ≡ vs ++ select is_virtual rs
select_virtual-append [] rs h = refl
select_virtual-append (v ∷ vs) rs h = rw h.0 (ap (λ xs. v ∷ xs) (select_virtual-append vs rs h.1))

take_last-all {ℓ} : {A : Type ℓ} (n : ℕ) (xs : List A) → length xs ≤ n → take_last n xs ≡ xs
take_last-all n xs h = let e : length xs - n ≡ 0 = omega arith in rw e

pub hot_turns-parts :
    (w : ℕ) (vs rs : List ConversationRecord)
    → AllVirtual vs
    → AllReal rs
    → length rs ≤ w
    → hot_turns w 0 (vs ++ rs) ≡ vs ++ rs
unfolding hot_turns
hot_turns-parts w vs rs h k le = rw (
  select_virtual-real vs rs h k,
  select_real-virtual vs rs h,
  select_real-all rs k,
  take_last-all w rs le,
)

virtual_false : (r : ConversationRecord) → is_virtual r ≡ true → is_real r ≡ false
virtual_false r h = ground arith

pub hot_turns-hot_turns :
    (w : ℕ) (rs : List ConversationRecord) → hot_turns w 0 (hot_turns w 0 rs) ≡ hot_turns w 0 rs
hot_turns-hot_turns w rs =
    unfold hot_turns in
    hot_turns-parts w (select is_virtual rs) (take_last w (select is_real rs))
      (All-imp (λ r. is_virtual r ≡ true) (λ r. is_real r ≡ false) virtual_false
        (select is_virtual rs) (select-All is_virtual rs))
      (All-drop (λ r. is_real r ≡ true) _ (select is_real rs) (select-All is_real rs))
      (omega (arith, length-take_last w (select is_real rs)))

pub hot_turns-layers :
    (w : ℕ) (vs rs : List ConversationRecord)
    → AllVirtual vs
    → hot_turns w 0 rs ≡ rs
    → hot_turns w 0 (vs ++ rs) ≡ vs ++ rs
hot_turns-layers w vs rs h k = parts ∙ ap (λ xs. vs ++ xs) k
  where
    parts : hot_turns w 0 (vs ++ rs) ≡ vs ++ hot_turns w 0 rs
    parts =
        unfold hot_turns in
        rw (select_virtual-append vs rs h, select_real-virtual vs rs h)
          (append_assoc vs (select is_virtual rs) (take_last w (select is_real rs)))
