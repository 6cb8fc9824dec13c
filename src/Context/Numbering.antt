-- ===== src/Context/Numbering.antt =====
-- The numbers of the turns: what add_turn of pigagent/context/manager.py makes of them.
use mathlib.Core.List.{reverse-append}
use pigugu_server.Common.{
  ℕ, ◌+◌, ◌≤◌, ◌<◌, ◌≡◌, refl, ap, ◌∙◌, true, Option, none, some, List, [], ◌∷◌, ◌++◌, reverse,
  find, arith, Bool-cases, inl, inr, if◌then◌else◌, ltb, ltb→lt, ltb-ge, lt-ltb, sym, subst,
}
use pigugu_server.Common.Int.{pos, pos_part}
use pigugu_server.Context.Record.{ConversationRecord}
use pigugu_server.Context.Memory.{Memory, is_real, push_turn, get_last_turn_number, number_of}
use pigugu_server.Context.Assignment.{assign_roast_instance_id}
use pigugu_server.Context.Recording.{Session, NewTurn, add_turn, new_record, resolve_turn_number}

-- the numbers of the turns, which begin above a number and rise, with the number of the last one
abbrev pub Rise : ℕ → List ConversationRecord → ℕ → Type 0
Rise from [] to = from ≡ to
Rise from (r ∷ rs) to =
    if is_real r
    then (from < pos_part r.turn_number) × Rise (pos_part r.turn_number) rs to
    else Rise from rs to

Rise-append_real :
    (from : ℕ) (rs : List ConversationRecord) (to : ℕ) (r : ConversationRecord)
    → Rise from rs to
    → to < pos_part r.turn_number
    → is_real r ≡ true
    → Rise from (rs ++ r ∷ []) (pos_part r.turn_number)
Rise-append_real from [] to r h lt e = rw e (omega arith, refl)
Rise-append_real from (q ∷ rs) to r h lt e = elim (Bool-cases (is_real q)) [
  | inl k ↦
      let p = rw k at h in rw k (p.0, Rise-append_real (pos_part q.turn_number) rs to r p.1 lt e)
  | inr k ↦ let p = rw k at h in rw k (Rise-append_real from rs to r p lt e)
]

abbrev number_or : ℕ → Option ConversationRecord → ℕ
number_or from none = from
number_or from (some r) = pos_part r.turn_number

find-append :
    (rs : List ConversationRecord) (q : ConversationRecord)
    → find is_real (rs ++ q ∷ [])
      ≡ elim (find is_real rs) [ none ↦ (if is_real q then some q else none) | some r ↦ some r ]
find-append [] q = refl
find-append (r ∷ rs) q = elim (Bool-cases (is_real r)) [
  | inl e ↦ rw e refl
  | inr e ↦ rw e (find-append rs q)
]

number_or-found :
    (from : ℕ) (o : Option ConversationRecord) (q : ConversationRecord)
    → number_or from (elim o [ none ↦ (if is_real q then some q else none) | some r ↦ some r ])
      ≡ number_or (if is_real q then pos_part q.turn_number else from) o
number_or-found from none q = elim (Bool-cases (is_real q)) [
  | inl e ↦ rw e refl
  | inr e ↦ rw e refl
]
number_or-found from (some r) q = refl

Rise-last :
    (from : ℕ) (rs : List ConversationRecord) (to : ℕ)
    → Rise from rs to
    → number_or from (find is_real (reverse rs)) ≡ to
Rise-last from [] to h = h
Rise-last from (q ∷ rs) to h =
    ap (number_or from)
      (ap (find is_real) (reverse-append (q ∷ []) rs) ∙ find-append (reverse rs) q)
    ∙ number_or-found from (find is_real (reverse rs)) q
    ∙ elim (Bool-cases (is_real q)) [
      | inl e ↦ let p = rw e at h in rw e (Rise-last (pos_part q.turn_number) rs to p.1)
      | inr e ↦ let p = rw e at h in rw e (Rise-last from rs to p)
    ]

number_or-zero : (o : Option ConversationRecord) → number_or 0 o ≡ number_of o
number_or-zero none = refl
number_or-zero (some r) = refl

pub Rise-get_last_turn_number :
    (m : Memory) (to : ℕ) → Rise 0 m.turns to → get_last_turn_number m ≡ to
unfolding get_last_turn_number
Rise-get_last_turn_number m to h =
    sym (number_or-zero (find is_real (reverse m.turns))) ∙ Rise-last 0 m.turns to h

pub Rise-le : (from : ℕ) (rs : List ConversationRecord) (to : ℕ) → Rise from rs to → from ≤ to
Rise-le from [] to h = omega arith
Rise-le from (r ∷ rs) to h = elim (Bool-cases (is_real r)) [
  | inl e ↦ let p = rw e at h in omega (arith, Rise-le (pos_part r.turn_number) rs to p.1)
  | inr e ↦ let p = rw e at h in Rise-le from rs to p
]

-- the record of a turn has the number that was resolved
pub new_record-turn_number :
    (now : ℕ) (t : NewTurn) (s : Session)
    → (new_record now t s).turn_number ≡ pos (resolve_turn_number s + 1)
unfolding new_record assign_roast_instance_id
new_record-turn_number now t s = refl

resolve-ge :
    (s : Session) (to : ℕ) → get_last_turn_number s.mem ≡ to → (0 < to) → resolve_turn_number s ≡ to
unfolding resolve_turn_number
resolve-ge s to h lt = ground arith

-- Where the numbers of the turns in memory rise up to a last one, a new turn is recorded at the end with a
-- number above all of them: the numbers still rise, up to the number that is returned, which is the last one
-- and one more where there was a turn in memory. In the next turn it counts as the last number.
pub add_turn-Rise :
    (now : ℕ) (t : NewTurn) (s : Session) (to : ℕ)
    → Rise 0 s.mem.turns to
    → let (n, s') = add_turn now t s in
      Rise 0 s'.mem.turns n × (get_last_turn_number s'.mem ≡ n) × (0 < to → n ≡ to + 1)
unfolding add_turn push_turn
add_turn-Rise now t s to h = (rises, Rise-get_last_turn_number _ _ rises, λ lt. counted lt)
  where
    n : ℕ
    n = resolve_turn_number s + 1

    counted : 0 < to → n ≡ to + 1
    counted lt = omega (arith, resolve-ge s to (Rise-get_last_turn_number s.mem to h) lt)

    above : to < n
    above = elim (Bool-cases (ltb 0 to)) [
      | inl e ↦ omega (arith, counted (ltb→lt 0 to e))
      | inr e ↦ omega (arith, ltb-ge 0 to e)
    ]

    numbered : pos_part (new_record now t s).turn_number ≡ n
    numbered = ap pos_part (new_record-turn_number now t s)

    real : is_real (new_record now t s) ≡ true
    real = rw (new_record-turn_number now t s) (lt-ltb 0 n (omega arith))

    rises : Rise 0 (s.mem.turns ++ new_record now t s ∷ []) n
    rises =
        subst (λ k. Rise 0 (s.mem.turns ++ new_record now t s ∷ []) k) numbered
          (Rise-append_real 0 s.mem.turns to (new_record now t s) h (rw numbered above) real)
