-- ===== src/RateLimit/Window.antt =====
-- What a limiter lets through: never more than its maximum within a window, and every key by itself.
use pigugu_server.Common.{
  ℕ, ◌+◌, ◌≤◌, ◌<◌, ◌≡◌, refl, String, Bool, true, List, [], ◌∷◌, ◌++◌, ltb, leb, length, All,
  count, arith, str_eq, All-append, All-imp, Bool-cases, inl, inr, ltb→lt, ltb-ge, leb-lt, ap, sym,
  subst, eq_iff, ◌∙◌, count-append, length-append, ◌&&◌,
}
use mathlib.Core.List.{append_assoc}
use pigugu_server.Common.Dict
use pigugu_server.Common.Dict.{get-put}
use pigugu_server.RateLimit.Limiter.{
  RateLimiter, Answer, passed, evict, bucket_of, admit, check, new,
}

-- the log of the times at which a key passed
abbrev pub logged : Bool → Answer → ℕ → List ℕ → List ℕ
logged true passed now h = h ++ now ∷ []
logged _ _ now h = h

-- Checks of any keys, one after another, from a new limiter on: the time of the last one, the log of
-- `key`, and the limiter.
pub data Run (max window : ℕ) (key : String) : ℕ → List ℕ → RateLimiter → Type 0 where
  created : Run max window key 0 [] (new max window)
  asked :
      (last : ℕ) (h : List ℕ) (lim : RateLimiter) (k : String) (now : ℕ)
      → Run max window key last h lim
      → last ≤ now
      → Run max window key now (logged (str_eq k key) (check lim k now).0 now h) (check lim k now).1

-- the number of times of a list in the window of `window` seconds that ends at `t`, its ends included
abbrev pub in_window : ℕ → ℕ → List ℕ → ℕ
in_window window t times = count (λ u. leb u t && leb t (u + window)) times

-- The bucket is the end of the log; what was evicted is older than the window at `last`.
abbrev pub Split : ℕ → ℕ → List ℕ → List ℕ → Type 0
Split window last h b = (old : List ℕ) × (h ≡ old ++ b) × All (λ u. u + window < last) old

pub evict-Split : (window now : ℕ) (b : List ℕ) → Split window now b (evict window now b)
unfolding evict
evict-Split window now [] = ([], refl, tt)
evict-Split window now (t ∷ ts) = elim (Bool-cases (ltb (t + window) now)) [
  | inr e ↦ rw e ([], refl, tt)
  | inl e ↦
      let (old, eq, h) = evict-Split window now ts in
      rw e (t ∷ old, ap (λ l. t ∷ l) eq, (ltb→lt (t + window) now e, h))
]

pub Split-trans :
    (window last now : ℕ) (h b c : List ℕ)
    → last ≤ now
    → Split window last h b
    → Split window now b c
    → Split window now h c
Split-trans window last now h b c le (old, eq, low) (gone, eq', low') = (
  old ++ gone,
  eq ∙ (ap (λ l. old ++ l) eq' ∙ sym (append_assoc old gone c)),
  All-append (λ u. u + window < now) old gone
      (All-imp (λ u. u + window < last) (λ u. u + window < now) (λ u l. omega arith) old low) low',
)

count-le : (p : ℕ → Bool) (xs : List ℕ) → count p xs ≤ length xs
count-le p [] = omega arith
count-le p (x ∷ xs) = ground (arith, count-le p xs)

old_uncounted :
    (window now t : ℕ) (old : List ℕ)
    → now ≤ t
    → All (λ u. u + window < now) old
    → in_window window t old ≡ 0
old_uncounted window now t [] le h = refl
old_uncounted window now t (u ∷ old) le (a, h) = ground (arith, old_uncounted window now t old le h)

-- at a time from `now` on, at most the bucket is in the window
in_window-Split :
    (window now t : ℕ) (h b : List ℕ)
    → now ≤ t
    → Split window now h b
    → in_window window t h ≤ length b
in_window-Split window now t h b le (old, eq, low) =
    let c = count-append (λ u. leb u t && leb t (u + window)) old b in
    let o = old_uncounted window now t old le low in
    let l = count-le (λ u. leb u t && leb t (u + window)) b in rw eq (omega arith)

length-snoc : (xs : List ℕ) (x : ℕ) → length (xs ++ x ∷ []) ≡ length xs + 1
length-snoc xs x = omega (arith, length-append xs (x ∷ []))

Split-snoc :
    (window last x : ℕ) (h b : List ℕ)
    → Split window last h b
    → Split window last (h ++ x ∷ []) (b ++ x ∷ [])
Split-snoc window last x h b (old, eq, low) =
    (old, ap (λ l. l ++ x ∷ []) eq ∙ append_assoc old b (x ∷ []), low)

length-evict : (window now : ℕ) (b : List ℕ) → length (evict window now b) ≤ length b
unfolding evict
length-evict window now [] = omega arith
length-evict window now (t ∷ ts) = ground (arith, length-evict window now ts)

-- what holds between two checks of a key: its bucket is the end of its log, and is no longer than the
-- maximum; no window holds more than the maximum
abbrev pub IsKept : ℕ → ℕ → ℕ → List ℕ → List ℕ → Type 0
IsKept max window last h b =
    Split window last h b
    × (length b ≤ max)
    × All (λ u. u ≤ last) h
    × ((t : ℕ) → in_window window t h ≤ max)

later_uncounted :
    (window now t : ℕ) (h : List ℕ)
    → t < now
    → in_window window t (h ++ now ∷ []) ≡ in_window window t h
later_uncounted window now t h lt =
    count-append (λ u. leb u t && leb t (u + window)) h (now ∷ []) ∙ ground arith

few_after :
    (max window now t : ℕ) (h b : List ℕ)
    → Split window now (h ++ now ∷ []) b
    → length b ≤ max
    → ((t : ℕ) → in_window window t h ≤ max)
    → in_window window t (h ++ now ∷ []) ≤ max
few_after max window now t h b split short few = elim (Bool-cases (ltb t now)) [
  | inl e ↦
      (let l = later_uncounted window now t h (ltb→lt t now e) in let k = few t in omega arith)
  | inr e ↦
      let k = in_window-Split window now t (h ++ now ∷ []) b (ltb-ge t now e) split in omega arith
]

admit-IsKept :
    (max window last now : ℕ) (h b : List ℕ)
    → last ≤ now
    → IsKept max window last h b
    → IsKept max window now
        (logged true (admit max window now b).0 now h)
        (admit max window now b).1
unfolding admit
admit-IsKept max window last now h b le (split, short, past, few) =
    let kept = evict window now b in
    let split' = Split-trans window last now h b kept le split (evict-Split window now b) in
    let past' = All-imp (λ u. u ≤ last) (λ u. u ≤ now) (λ u l. omega arith) h past in
    elim (Bool-cases (leb max (length kept))) [
      | inl e ↦ rw e (split', (let l = length-evict window now b in omega arith), past', few)
      | inr e ↦
          let grown = Split-snoc window now now h kept split' in
          let small : length (kept ++ now ∷ []) ≤ max =
            (let l = length-snoc kept now in let m = leb-lt max (length kept) e in omega arith) in
          rw e (
            grown,
            small,
            All-append (λ u. u ≤ now) h (now ∷ []) past' (omega arith, tt),
            λ t. few_after max window now t h (kept ++ now ∷ []) grown small few,
          )
    ]

wait-IsKept :
    (max window last now : ℕ) (h b : List ℕ)
    → last ≤ now
    → IsKept max window last h b
    → IsKept max window now h b
wait-IsKept max window last now h b le ((old, eq, low), short, past, few) = (
  (old, eq, All-imp (λ u. u + window < last) (λ u. u + window < now) (λ u l. omega arith) old low),
  short,
  All-imp (λ u. u ≤ last) (λ u. u ≤ now) (λ u l. omega arith) h past,
  few,
)

-- The limiter of a run: its numbers do not change, and its bucket for `key` is the one of the log.
pub run-IsKept :
    (max window : ℕ) (key : String) (last : ℕ) (h : List ℕ) (lim : RateLimiter)
    → Run max window key last h lim
    → (lim.max_requests ≡ max)
      × (lim.window_seconds ≡ window)
      × IsKept max window last h (bucket_of (Dict.get lim.buckets key))
unfolding new check Dict.get
run-IsKept max window key _ _ _ created =
    (refl, refl, (([], refl, tt), omega arith, tt, λ t. omega arith))
run-IsKept max window key _ _ _ (asked last h lim k now run le) =
    let (m, w, kept) = run-IsKept max window key last h lim run in
    (
      m,
      w,
      elim (Bool-cases (str_eq k key)) [
        | inl e ↦
            let same = ap (λ j. bucket_of (Dict.get lim.buckets j)) (sym ((eq_iff k key).0 e)) in
            rw
              (
                get-put lim.buckets k key
                    (admit lim.max_requests lim.window_seconds now
                      (bucket_of (Dict.get lim.buckets k))).1,
                e,
                m,
                w,
              )
              (admit-IsKept max window last now h (bucket_of (Dict.get lim.buckets k)) le
                (subst (IsKept max window last h) same kept))
        | inr e ↦
            rw
              (
                get-put lim.buckets k key
                    (admit lim.max_requests lim.window_seconds now
                      (bucket_of (Dict.get lim.buckets k))).1,
                e,
              )
              (wait-IsKept max window last now h (bucket_of (Dict.get lim.buckets key)) le kept)
      ],
    )

-- Whatever keys are checked in whatever order, from a new limiter on, at times that do not go back: no
-- window of the limiter's length, its ends included, holds more passes of a key than the maximum.
pub window_bound :
    (max window : ℕ) (key : String) (last : ℕ) (h : List ℕ) (lim : RateLimiter)
    → Run max window key last h lim
    → (t : ℕ) → in_window window t h ≤ max
window_bound max window key last h lim run t =
    let (_, _, kept) = run-IsKept max window key last h lim run in
    let (_, _, _, few) = kept in few t
