-- ===== src/RateLimit/Refusal.antt =====
-- When a limiter refuses: only if the window is full.
use pigugu_server.Common.{
  ℕ, ◌+◌, ◌≤◌, ◌≡◌, refl, String, List, [], ◌∷◌, ◌++◌, ltb, leb, length, All, arith, str_eq,
  All-append, All-imp, Bool-cases, inl, inr, ap, sym, subst, eq_iff, count-append, ◌&&◌, ltb-ge,
  le→leb,
}
use pigugu_server.Common.Dict
use pigugu_server.Common.Dict.{get-put}
use pigugu_server.RateLimit.Limiter.{RateLimiter, too_many, evict, bucket_of, admit, check, new}
use pigugu_server.RateLimit.Window.{
  Run, created, asked, in_window, evict-Split, Split-trans, run-IsKept,
}

abbrev pub Sorted : List ℕ → Type 0
Sorted [] = Unit
Sorted (t ∷ ts) = All (λ u. t ≤ u) ts × Sorted ts

-- a bucket in order, with no time after `last`
abbrev pub IsOrdered : ℕ → List ℕ → Type 0
IsOrdered last b = Sorted b × All (λ u. u ≤ last) b

Sorted-snoc : (b : List ℕ) (x : ℕ) → Sorted b → All (λ u. u ≤ x) b → Sorted (b ++ x ∷ [])
Sorted-snoc [] x s h = (tt, tt)
Sorted-snoc (t ∷ b) x (low, s) (le, h) =
    (All-append (λ u. t ≤ u) b (x ∷ []) low (le, tt), Sorted-snoc b x s h)

IsOrdered-wait : (last now : ℕ) (b : List ℕ) → last ≤ now → IsOrdered last b → IsOrdered now b
IsOrdered-wait last now b le (s, h) =
    (s, All-imp (λ u. u ≤ last) (λ u. u ≤ now) (λ u l. omega arith) b h)

evict-IsOrdered :
    (window now last : ℕ) (b : List ℕ) → IsOrdered last b → IsOrdered last (evict window now b)
unfolding evict
evict-IsOrdered window now last [] h = h
evict-IsOrdered window now last (t ∷ b) ((low, s), (le, h)) =
    elim (Bool-cases (ltb (t + window) now)) [
      | inl e ↦ rw e (evict-IsOrdered window now last b (s, h))
      | inr e ↦ rw e ((low, s), (le, h))
    ]

admit-IsOrdered :
    (max window last now : ℕ) (b : List ℕ)
    → last ≤ now
    → IsOrdered last b
    → IsOrdered now (admit max window now b).1
unfolding admit
admit-IsOrdered max window last now b le h =
    let (s, past) = evict-IsOrdered window now now b (IsOrdered-wait last now b le h) in
    elim (Bool-cases (leb max (length (evict window now b)))) [
      | inl e ↦ rw e (s, past)
      | inr e ↦ rw e (
        Sorted-snoc (evict window now b) now s past,
        All-append (λ u. u ≤ now) (evict window now b) (now ∷ []) past (omega arith, tt),
      )
    ]

run-IsOrdered :
    (max window : ℕ) (key : String) (last : ℕ) (h : List ℕ) (lim : RateLimiter)
    → Run max window key last h lim
    → IsOrdered last (bucket_of (Dict.get lim.buckets key))
unfolding new check Dict.get
run-IsOrdered max window key _ _ _ created = (tt, tt)
run-IsOrdered max window key _ _ _ (asked last h lim k now run le) =
    let before = run-IsOrdered max window key last h lim run in
    let after =
      admit lim.max_requests lim.window_seconds now (bucket_of (Dict.get lim.buckets k)) in
    elim (Bool-cases (str_eq k key)) [
      | inl e ↦
          let same = ap (λ j. bucket_of (Dict.get lim.buckets j)) (sym ((eq_iff k key).0 e)) in
          rw (get-put lim.buckets k key after.1, e)
            (admit-IsOrdered lim.max_requests lim.window_seconds last now
              (bucket_of (Dict.get lim.buckets k)) le (subst (IsOrdered last) same before))
      | inr e ↦
          rw (get-put lim.buckets k key after.1, e)
            (IsOrdered-wait last now (bucket_of (Dict.get lim.buckets key)) le before)
    ]

-- from a time that is in the window on, everything is
count-Sorted :
    (window now t : ℕ) (b : List ℕ)
    → now ≤ t + window
    → All (λ u. t ≤ u) b
    → All (λ u. u ≤ now) b
    → in_window window now b ≡ length b
count-Sorted window now t [] le low past = refl
count-Sorted window now t (u ∷ b) le (l, low) (p, past) =
    rw
      (
        le→leb u now p,
        le→leb now (u + window) (omega arith),
        count-Sorted window now t b le low past,
      )
      (omega arith)

in_window-evict :
    (window now : ℕ) (b : List ℕ)
    → IsOrdered now b
    → in_window window now (evict window now b) ≡ length (evict window now b)
unfolding evict
in_window-evict window now [] h = refl
in_window-evict window now (t ∷ b) ((low, s), (le, h)) = elim (Bool-cases (ltb (t + window) now)) [
  | inl e ↦ rw e (in_window-evict window now b (s, h))
  | inr e ↦
      rw e
        (count-Sorted window now t (t ∷ b) (ltb-ge (t + window) now e) (omega arith, low) (le, h))
]

refused_long :
    (max window now : ℕ) (b : List ℕ)
    → (admit max window now b).0 ≡ too_many
    → max ≤ length (evict window now b)
unfolding admit
refused_long max window now b h = ground arith

-- After any checks of any keys: a check is refused only if the window that ends at its time holds at
-- least the maximum of passes of its key.
pub refused_full :
    (max window : ℕ) (key : String) (last : ℕ) (h : List ℕ) (lim : RateLimiter) (now : ℕ)
    → Run max window key last h lim
    → last ≤ now
    → (check lim key now).0 ≡ too_many
    → max ≤ in_window window now h
unfolding check
refused_full max window key last h lim now run le full =
    let (m, w, (split, _, _, _)) = run-IsKept max window key last h lim run in
    let b = bucket_of (Dict.get lim.buckets key) in
    let (old, eq, low) =
      Split-trans window last now h b (evict window now b) le split (evict-Split window now b) in
    let long = refused_long max window now b (
      subst (λ n. (admit n window now b).0 ≡ too_many) m
        (subst (λ n. (admit lim.max_requests n now b).0 ≡ too_many) w full)) in
    let all =
      in_window-evict window now b
        (IsOrdered-wait last now b le (run-IsOrdered max window key last h lim run)) in
    let c = count-append (λ u. leb u now && leb now (u + window)) old (evict window now b) in
    rw eq (omega arith)
