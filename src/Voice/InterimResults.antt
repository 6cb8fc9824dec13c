-- ===== src/Voice/InterimResults.antt =====
-- What the buffer of interim transcripts keeps.
use mathlib.Core.List.{append_assoc, append-nil}
use pigugu_server.Common.{
  ℕ, zero, suc, ◌+◌, ◌-◌, ◌≤◌, ◌≡◌, refl, ap, sym, ◌∙◌, not, String, Bool, true, false, List, [],
  ◌∷◌, ◌++◌, str_eq, take_last, drop, select, length, length-append, length-drop, Bool-cases, inl,
  inr, arith,
}
use pigugu_server.Voice.Interims.{
  InterimBuffer, empty_buffer, append, record_text, record_many, drain,
}

drop-append : (n : ℕ) (xs ys : List String) → n ≤ length xs → drop n (xs ++ ys) ≡ drop n xs ++ ys
drop-append zero xs ys h = refl
drop-append (suc n) [] ys h = ground arith
drop-append (suc n) (x ∷ xs) ys h = drop-append n xs ys (omega arith)

drop_nil : (n : ℕ) → drop {A = String} n [] ≡ []
drop_nil zero = refl
drop_nil (suc n) = refl

drop-drop : (m n : ℕ) (xs : List String) → drop m (drop n xs) ≡ drop (n + m) xs
drop-drop m zero xs = ap (λ k. drop k xs) (omega arith)
drop-drop m (suc n) [] = drop_nil m ∙ sym (drop_nil (suc n + m))
drop-drop m (suc n) (x ∷ xs) =
    drop-drop m n xs ∙ ap {B = List String} (λ k. drop k (x ∷ xs)) (shift n m)
  where
    shift : (n m : ℕ) → suc (n + m) ≡ suc n + m
    shift n m = omega arith

-- what is dropped from the front stays dropped
take_last-append :
    (n : ℕ) (xs ys : List String) → take_last n (take_last n xs ++ ys) ≡ take_last n (xs ++ ys)
take_last-append n xs ys =
    let k = length xs - n in
    let l = length-append (drop k xs) ys in
    let m = length-append xs ys in
    let d = length-drop k xs in
    ap (drop (length (drop k xs ++ ys) - n)) (sym (drop-append k xs ys (omega arith)))
    ∙ (drop-drop (length (drop k xs ++ ys) - n) k (xs ++ ys)
        ∙ ap (λ i. drop i (xs ++ ys)) (omega arith))

abbrev pub is_text : String → Bool
is_text t = not (str_eq t "")

record_text_empty : (t : String) (b : InterimBuffer) → str_eq t "" ≡ true → record_text t b ≡ b
unfolding record_text
record_text_empty t b e = rw e refl

record_text_full :
    (t : String) (b : InterimBuffer)
    → str_eq t "" ≡ false
    → record_text t b ≡ record b { deque = take_last b.maxlen (b.deque ++ t ∷ []) }
unfolding record_text append
record_text_full t b e = rw e refl

record_many-append :
    (ts : List String) (b : InterimBuffer) (xs : List String)
    → b.deque ≡ take_last b.maxlen xs
    → (record_many ts b).deque ≡ take_last b.maxlen (xs ++ select is_text ts)
unfolding record_many
record_many-append [] b xs h = h ∙ ap (take_last b.maxlen) (sym (append-nil xs))
record_many-append (t ∷ ts) b xs h = elim (Bool-cases (str_eq t "")) [
  | inl e ↦
      ap (λ c. (record_many ts c).deque) (record_text_empty t b e)
      ∙ rw e (record_many-append ts b xs h)
  | inr e ↦
      ap (λ c. (record_many ts c).deque) (record_text_full t b e)
      ∙ (record_many-append ts (record b { deque = take_last b.maxlen (b.deque ++ t ∷ []) })
            (xs ++ t ∷ [])
            (ap (λ d. take_last b.maxlen (d ++ t ∷ [])) h ∙ take_last-append b.maxlen xs (t ∷ []))
          ∙ rw e (ap (take_last b.maxlen) (append_assoc xs (t ∷ []) (select is_text ts))))
]

-- Texts that are recorded one after another in a new buffer are drained in their order: the last of them,
-- as many as the buffer holds, without the empty ones; a second drain gives nothing.
pub drain-record_many :
    (maxlen : ℕ) (ts : List String)
    → let b = record_many ts (empty_buffer maxlen) in
      ((drain b).0 ≡ take_last maxlen (select is_text ts)) × ((drain (drain b).1).0 ≡ [])
unfolding drain empty_buffer
drain-record_many maxlen ts = (
  record_many-append ts (record { deque = []; maxlen = maxlen }) [] (sym (drop_nil (0 - maxlen))),
  refl,
)
