-- ===== src/Context/Lost.antt =====
-- What a compression of a game leaves behind: ContextCompressor of
-- pigagent/context/compression/compressor.py.
use mathlib.Core.List.{reverse-append}
use pigugu_server.Common.{
  ℕ, max, ◌≤◌, ◌≡◌, refl, ap, ◌∙◌, String, true, false, some, List, [], ◌∷◌, ◌++◌, arith,
  Bool-cases, inl, inr, select, reverse, All,
}
use pigugu_server.Common.Int.{ℤ, pos, negsuc, pos_part}
use pigugu_server.Context.Record.{ConversationRecord, is_after}
use pigugu_server.Context.Memory.{Summary, summary_of, is_real}
use pigugu_server.Context.Storage.{
  Redis, redis_read_summaries, redis_write_summaries, redis_set_compressing,
}
use pigugu_server.Context.Assignment.{is_active_game}
use pigugu_server.Context.Compression.{
  Model, Config, should_compress, get_virtual, stripped_or, last_of, Stores, mark_compressing,
  write_l2, persist_summaries, rebuild_memory, rebuild_profile,
}
use pigugu_server.Context.Scenarios.{
  finish_compression, anchor_of, Anchor, in_game_after, before, before_game, wants_l4, game_history,
  game_summary, game_run, latest_rid, run_roast, run_compressor,
}
use pigugu_server.Context.Numbering.{Rise, Rise-le}

-- the number of the first record, or another
abbrev head_or : ℕ → List ConversationRecord → ℕ
head_or n [] = n
head_or n (r ∷ rs) = pos_part r.turn_number

head_or-append :
    (n : ℕ) (xs : List ConversationRecord) (q : ConversationRecord)
    → head_or n (xs ++ q ∷ []) ≡ head_or (pos_part q.turn_number) xs
head_or-append n [] q = refl
head_or-append n (x ∷ xs) q = refl

Rise-head :
    (from : ℕ) (rs : List ConversationRecord) (to : ℕ)
    → Rise from rs to
    → head_or from (reverse (select is_real rs)) ≡ to
Rise-head from [] to h = h
Rise-head from (q ∷ rs) to h = elim (Bool-cases (is_real q)) [
  | inl e ↦
      let p = rw e at h in
      rw e (
        ap (head_or from) (reverse-append (q ∷ []) (select is_real rs))
        ∙ head_or-append from (reverse (select is_real rs)) q
        ∙ Rise-head (pos_part q.turn_number) rs to p.1)
  | inr e ↦ let p = rw e at h in rw e (Rise-head from rs to p)
]

Rise-last_of :
    (rs : List ConversationRecord) (to : ℕ) → Rise 0 rs to → last_of (select is_real rs) ≡ to
Rise-last_of rs to h = same (reverse (select is_real rs)) ∙ Rise-head 0 rs to h
  where
    same :
        (xs : List ConversationRecord)
        → elim xs as (λ _. ℕ) [ [] ↦ 0 | r ∷ rest ↦ pos_part r.turn_number ] ≡ head_or 0 xs
    same [] = refl
    same (x ∷ xs) = refl

not_after : (n : ℕ) (t : ℤ) → pos_part t ≤ n → is_after n t ≡ false
not_after n (pos m) le = ground arith
not_after n (negsuc m) le = refl

Rise-reached :
    (from : ℕ) (rs : List ConversationRecord) (to n : ℕ)
    → Rise from rs to
    → to ≤ n
    → All (λ r. is_after n r.turn_number ≡ false) (select is_real rs)
Rise-reached from [] to n h le = tt
Rise-reached from (r ∷ rs) to n h le = elim (Bool-cases (is_real r)) [
  | inl e ↦
      let p = rw e at h in
      rw e (
        not_after n r.turn_number (omega (arith, Rise-le (pos_part r.turn_number) rs to p.1)),
        Rise-reached (pos_part r.turn_number) rs to n p.1 le,
      )
  | inr e ↦ let p = rw e at h in rw e (Rise-reached from rs to n p le)
]

write_l2-redis :
    (llm : Model) (fs : List (String × String)) (s : Stores) → (write_l2 llm fs s).1.redis ≡ s.redis
unfolding write_l2
write_l2-redis llm [] s = refl
write_l2-redis llm (f ∷ fs) s = kept _
  where
    kept : (t : Stores) → (rebuild_profile llm t).1.redis ≡ t.redis
    kept t = unfold rebuild_profile in ground arith

finish_compression-read :
    (d : Summary) (s : Stores)
    → s.redis.is_up ≡ true
    → redis_read_summaries (finish_compression d s).redis ≡ some d
unfolding finish_compression persist_summaries rebuild_memory mark_compressing redis_read_summaries
    redis_set_compressing redis_write_summaries
finish_compression-read d s up = ground arith

-- the history that the compressor had of the game
abbrev pub old_history : List ConversationRecord → String
old_history rs = stripped_or "" (get_virtual (negsuc 0) rs)

-- where the game's prompt stands, by the turns and the last summary
abbrev pub anchor_in : String → List ConversationRecord → Redis → Anchor
anchor_in rid rs r = anchor_of rid (select is_real rs) (summary_of (redis_read_summaries r))

module _ (llm : Model) (cfg : Config) (rs : List ConversationRecord) (text : String) (s : Stores)
    (rid : String) (to : ℕ) (up : s.redis.is_up ≡ true)
    (starts : should_compress llm cfg text (select is_real rs) ≡ true)
    (in_game : is_active_game rs ≡ true) (game : latest_rid (select is_real rs) ≡ some rid)
    (rises : Rise 0 rs to)
    (waits : wants_l4 llm cfg
        (old_history rs)
        (select (in_game_after (anchor_in rid rs s.redis).turn rid) (select is_real rs))
        rs
      ≡ false) where
  marked : Stores
  marked = mark_compressing true s

  marked-read :
      (marked.redis.is_up ≡ true)
      × (redis_read_summaries marked.redis ≡ redis_read_summaries s.redis)
  unfolding marked mark_compressing redis_set_compressing redis_read_summaries
  marked-read = ground arith

  run-game : run_compressor llm cfg rs text s ≡ game_run llm cfg text rs rid marked
  unfolding run_compressor run_roast marked
  run-game = rw (starts, in_game) (rw (game, run_roast))

  anchor : Anchor
  anchor = anchor_in rid rs marked.redis

  no_history :
      game_history llm cfg (select (in_game_after anchor.turn rid) (select is_real rs)) rs ≡ ""
  unfolding game_history anchor
  no_history = rw marked-read.1 (rw waits)

  -- A compression of a game whose turns are not yet enough for a history of their own, or not enough for a new
  -- one, leaves in Redis a summary that reaches to the last turn and has no history of the game, also where
  -- there was one before: no turn that it was given counts as later than the summary.
  pub uncompressed_history_lost :
      (d : Summary) × (redis_read_summaries (run_compressor llm cfg rs text s).redis ≡ some d)
      × (d.l4_roast ≡ "")
      × (d.roast_id ≡ rid)
      × All (λ r. is_after d.end_turn r.turn_number ≡ false) (select is_real rs)
  uncompressed_history_lost =
      (d, read, no_history, refl, Rise-reached 0 rs to d.end_turn rises reached)
    where
      before_it : List (String × String) × String
      before_it =
          before_game llm (stripped_or text (get_virtual (negsuc 1) rs))
            (select (before anchor.turn) (select is_real rs)) rs

      written : String × Stores
      written = write_l2 llm before_it.0 marked

      l4 : String
      l4 = game_history llm cfg (select (in_game_after anchor.turn rid) (select is_real rs)) rs

      d : Summary
      d =
          game_summary (max (last_of (select is_real rs)) anchor.turn) written.0 before_it.1 l4 rid
            anchor

      on : written.1.redis.is_up ≡ true
      on = ap (λ (r : Redis). r.is_up) (write_l2-redis llm before_it.0 marked) ∙ marked-read.0

      runs : game_run llm cfg text rs rid marked ≡ finish_compression d written.1
      runs = unfold game_run anchor in refl

      read : redis_read_summaries (run_compressor llm cfg rs text s).redis ≡ some d
      read =
          ap (λ (t : Stores). redis_read_summaries t.redis) (run-game ∙ runs)
          ∙ finish_compression-read d written.1 on

      reached : to ≤ d.end_turn
      reached = omega (arith, Rise-last_of rs to rises)
