-- ===== src/Volume/Honesty.antt =====
-- What a volume command reports, and the levels that it sends: pigagent/tools/volume.py.
use pigugu_server.Common.{
  ℕ, ◌+◌, ◌≤◌, ◌≡◌, ◌⊎◌, refl, inl, inr, Bool, true, Option, none, some, List, [], ◌∷◌, arith, All,
  Bool-cases, leb, ltb, ◌==◌, any, ◌++◌, All-append, ==_iff,
}
use pigugu_server.Common.Int.{ℤ, pos, negsuc, pos_part, clamp_percent-le}
use pigugu_server.Volume.Device.{
  Answer, level, bare, unreadable, refused, silent, Device, Outcome, got, not_readable, tool_error,
  timed_out, read_level, applied, apply, or_target,
}
use pigugu_server.Volume.Bridge.{Bridge, Deferred, note_write, defer}
use pigugu_server.Volume.Tool.{
  Action, set, increase, decrease, mute, unmute, other, Value, absent, whole, numeral, empty_text,
  not_a_number, Result, failed, success, Note, Plan, ends, audible, aims, raises, step_of, plan,
  plan_set, plan_increase, plan_decrease, plan_unmute, carry_out, volume_handler, is_zero, aim_up,
  aim_down, raised, lowered, reported,
}

-- a deferred write of a generation
abbrev pub is_deferred_at : ℕ → Deferred → Bool
is_deferred_at seq e = e.seq == seq

-- a level between 0 and 100
abbrev pub InRange : ℤ → Type 0
InRange (pos n) = n ≤ 100
InRange (negsuc n) = ⊥

-- where the status gives a level, it is in range
abbrev pub StatusInRange : Outcome → Type 0
StatusInRange (got n) = InRange n
StatusInRange _ = Unit

abbrev PlanInRange : Plan → Type 0
PlanInRange (ends r) = Unit
PlanInRange (audible n) = InRange n
PlanInRange (aims n note) = InRange n

plan_set-InRange : (v : Value) → PlanInRange (plan_set v)
unfolding plan_set
plan_set-InRange absent = tt
plan_set-InRange not_a_number = tt
plan_set-InRange empty_text = tt
plan_set-InRange (whole raw) = ground (arith, clamp_percent-le raw)
plan_set-InRange (numeral raw) = ground (arith, clamp_percent-le raw)

raised-InRange : (current : ℤ) (step : ℕ) → InRange current → InRange (raised current step)
unfolding raised
raised-InRange (pos n) step h = ground arith
raised-InRange (negsuc n) step h = elim h [ ]

lowered-InRange : (current : ℤ) (step : ℕ) → InRange current → InRange (lowered current step)
unfolding lowered
lowered-InRange (pos n) step h = ground arith
lowered-InRange (negsuc n) step h = elim h [ ]

aim_up-InRange : (current : ℤ) (o : Option ℕ) → InRange current → PlanInRange (aim_up current o)
aim_up-InRange current none h = tt
aim_up-InRange current (some step) h = ground (arith, raised-InRange current step h)

aim_down-InRange : (current : ℤ) (o : Option ℕ) → InRange current → PlanInRange (aim_down current o)
aim_down-InRange current none h = tt
aim_down-InRange current (some step) h = ground (arith, lowered-InRange current step h)

plan_increase-InRange :
    (v : Value) (o : Outcome) → StatusInRange o → PlanInRange (plan_increase v o)
unfolding plan_increase
plan_increase-InRange v (got n) h = elim (Bool-cases (leb 100 (pos_part n))) [
  | inl e ↦ rw (e, plan_increase) tt
  | inr e ↦ rw (e, plan_increase) (aim_up-InRange n (step_of v) h)
]
plan_increase-InRange v not_readable h = tt
plan_increase-InRange v (tool_error m) h = tt
plan_increase-InRange v timed_out h = tt

plan_decrease-InRange :
    (v : Value) (o : Outcome) → StatusInRange o → PlanInRange (plan_decrease v o)
unfolding plan_decrease
plan_decrease-InRange v (got n) h = elim (Bool-cases (pos_part n == 0)) [
  | inl e ↦ rw (e, plan_decrease) tt
  | inr e ↦ rw (e, plan_decrease) (aim_down-InRange n (step_of v) h)
]
plan_decrease-InRange v not_readable h = tt
plan_decrease-InRange v (tool_error m) h = tt
plan_decrease-InRange v timed_out h = tt

plan_unmute-InRange : (o : Outcome) → StatusInRange o → PlanInRange (plan_unmute o)
unfolding plan_unmute
plan_unmute-InRange (got n) h = elim (Bool-cases (ltb 0 (pos_part n))) [
  | inl e ↦ rw (e, plan_unmute) h
  | inr e ↦ rw (e, plan_unmute) (omega arith)
]
plan_unmute-InRange not_readable h = tt
plan_unmute-InRange (tool_error m) h = tt
plan_unmute-InRange timed_out h = tt

plan-InRange :
    (d : Device) (a : Action) (v : Value)
    → StatusInRange (read_level d.status)
    → PlanInRange (plan d a v)
unfolding plan
plan-InRange d set v h = plan_set-InRange v
plan-InRange d increase v h = plan_increase-InRange v (read_level d.status) h
plan-InRange d decrease v h = plan_decrease-InRange v (read_level d.status) h
plan-InRange d mute v h = omega arith
plan-InRange d unmute v h = plan_unmute-InRange (read_level d.status) h
plan-InRange d (other a) v h = tt

-- every level of a list is in range
abbrev pub AllInRange : List ℤ → Type 0
AllInRange ns = All InRange ns

carry_out-InRange :
    (d : Device) (p : Plan) (b : Bridge)
    → PlanInRange p
    → All (λ (e : Deferred). InRange e.target) b.deferred
    → AllInRange (carry_out d p b).2
      × All (λ (e : Deferred). InRange e.target) (carry_out d p b).0.deferred
unfolding carry_out note_write defer
carry_out-InRange d (ends r) b h k = (tt, k)
carry_out-InRange d (audible n) b h k = (tt, k)
carry_out-InRange d (aims n note) b h k = elim (Bool-cases (is_zero n)) [
  | inl e ↦ rw e (tt, All-append (λ (e : Deferred). InRange e.target) b.deferred _ k (h, tt))
  | inr e ↦ rw e ((h, tt), k)
]

-- Where the status of the device is a level between 0 and 100, or none, every level that a command sends to
-- the device or defers is between 0 and 100, whatever value the model has given.
pub volume_handler-InRange :
    (d : Device) (a : Action) (v : Value) (b : Bridge)
    → StatusInRange (read_level d.status)
    → All (λ (e : Deferred). InRange e.target) b.deferred
    → AllInRange (volume_handler (some d) a v b).2
      × All (λ (e : Deferred). InRange e.target) (volume_handler (some d) a v b).0.deferred
unfolding volume_handler
volume_handler-InRange d a v b h k = carry_out-InRange d (plan d a v) b (plan-InRange d a v h) k

-- the device has answered the write, and with the level, if its answer holds one
abbrev pub Acknowledged : ℤ → Answer → Type 0
Acknowledged n (level m) = n ≡ m
Acknowledged n bare = Unit
Acknowledged n unreadable = Unit
Acknowledged n (refused t) = ⊥
Acknowledged n silent = ⊥

-- what a success with a level says: nothing was sent, and the status had the level or the level is zero and
-- waits to be written; or one level was sent, and the device has answered the write
abbrev pub Confirmed : Device → List ℤ → ℤ → Bridge → Type 0
Confirmed d [] n b =
    (read_level d.status ≡ got n)
    ⊎ ((is_zero n ≡ true) × (any (is_deferred_at b.write_seq) b.deferred ≡ true))
Confirmed d (t ∷ ts) n b = (ts ≡ []) × Acknowledged n (d.set_volume t)

abbrev pub Honest : Device → Result → List ℤ → Bridge → Type 0
Honest d (failed f o) sent b = Unit
Honest d (success n note) sent b = Confirmed d sent n b

any-last {ℓ} :
    {A : Type ℓ} (p : A → Bool) (xs : List A) (x : A) → p x ≡ true → any p (xs ++ x ∷ []) ≡ true
any-last p [] x h = rw h
any-last p (y ∷ xs) x h = ground (arith, any-last p xs x)

back-Honest :
    (d : Device) (t : ℤ) (note : Note) (o : Outcome) (b : Bridge)
    → ((n : ℤ) → Acknowledged n (d.set_volume t))
    → Honest d (reported note (or_target t o)) (t ∷ []) b
back-Honest d t note (got n) b h = (refl, h n)
back-Honest d t note not_readable b h = (refl, h t)
back-Honest d t note (tool_error m) b h = (refl, h t)
back-Honest d t note timed_out b h = (refl, h t)

reported-Honest :
    (d : Device) (t : ℤ) (note : Note) (a : Answer) (b : Bridge)
    → d.set_volume t ≡ a
    → Honest d (reported note (applied d t a)) (t ∷ []) b
unfolding applied
reported-Honest d t note (level n) b e = (refl, rw e refl)
reported-Honest d t note bare b e = back-Honest d t note (read_level d.read_back) b (λ n. rw e tt)
reported-Honest d t note unreadable b e =
    back-Honest d t note (read_level d.read_back) b (λ n. rw e tt)
reported-Honest d t note (refused m) b e = tt
reported-Honest d t note silent b e = tt

-- a plan that leaves the level alone has read it
abbrev PlanHonest : Device → Plan → Type 0
PlanHonest d (ends (failed f o)) = Unit
PlanHonest d (ends (success n note)) = ⊥
PlanHonest d (audible n) = read_level d.status ≡ got n
PlanHonest d (aims n note) = Unit

raises-PlanHonest : (d : Device) (o : Outcome) → PlanHonest d (raises o)
raises-PlanHonest d (got n) = tt
raises-PlanHonest d not_readable = tt
raises-PlanHonest d (tool_error m) = tt
raises-PlanHonest d timed_out = tt

plan-PlanHonest : (d : Device) (a : Action) (v : Value) → PlanHonest d (plan d a v)
unfolding plan plan_set plan_increase plan_decrease plan_unmute
plan-PlanHonest d set absent = tt
plan-PlanHonest d set not_a_number = tt
plan-PlanHonest d set empty_text = tt
plan-PlanHonest d set (whole raw) = ground arith
plan-PlanHonest d set (numeral raw) = ground arith
plan-PlanHonest d increase v = at (read_level d.status)
  where
    up : (n : ℤ) (o : Option ℕ) → PlanHonest d (aim_up n o)
    up n none = tt
    up n (some k) = ground arith

    at : (o : Outcome) → PlanHonest d (plan_increase v o)
    at (got n) = ground (arith, up n (step_of v))
    at not_readable = tt
    at (tool_error m) = tt
    at timed_out = tt
plan-PlanHonest d decrease v = at (read_level d.status)
  where
    down : (n : ℤ) (o : Option ℕ) → PlanHonest d (aim_down n o)
    down n none = tt
    down n (some k) = ground arith

    at : (o : Outcome) → PlanHonest d (plan_decrease v o)
    at (got n) = ground (arith, down n (step_of v))
    at not_readable = tt
    at (tool_error m) = tt
    at timed_out = tt
plan-PlanHonest d mute v = tt
plan-PlanHonest d unmute v = at (read_level d.status) refl
  where
    at : (o : Outcome) → read_level d.status ≡ o → PlanHonest d (plan_unmute o)
    at (got n) e = ground arith
    at not_readable e = tt
    at (tool_error m) e = tt
    at timed_out e = tt
plan-PlanHonest d (other a) v = tt

carry_out-Honest :
    (d : Device) (p : Plan) (b : Bridge)
    → PlanHonest d p
    → let (b', r, sent) = carry_out d p b in Honest d r sent b'
unfolding carry_out note_write defer apply
carry_out-Honest d (ends (failed f o)) b h = tt
carry_out-Honest d (ends (success n note)) b h = elim h [ ]
carry_out-Honest d (audible n) b h = inl h
carry_out-Honest d (aims n note) b h = elim (Bool-cases (is_zero n)) [
  | inl e ↦
      rw e (inr (e, any-last (is_deferred_at (b.write_seq + 1)) b.deferred _ ((==_iff _ _).1 refl)))
  | inr e ↦ rw e (reported-Honest d n note (d.set_volume n) _ refl)
]

-- A command that reports a success with a level is backed by the device: either nothing was sent, and then the
-- status held this level, or the level is zero and waits to be written when the reply has been heard; or one
-- write was sent, which the device has answered, with this level if its answer holds one. A device that is
-- silent or refuses is never reported as a success of a write that was sent.
pub volume_handler-Honest :
    (d : Device) (a : Action) (v : Value) (b : Bridge)
    → let (b', r, sent) = volume_handler (some d) a v b in Honest d r sent b'
unfolding volume_handler
volume_handler-Honest d a v b = carry_out-Honest d (plan d a v) b (plan-PlanHonest d a v)
