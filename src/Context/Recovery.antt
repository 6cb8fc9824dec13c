-- ===== src/Context/Recovery.antt =====
-- A session that starts from PostgreSQL alone: assemble and add_turn of pigagent/context/manager.py over
-- recover_turns and flush_one of pigagent/context/storage/pg.py.
use pigugu_server.Common.{
  take, ℕ, zero, suc, ◌+◌, ◌≤◌, ◌<◌, ◌≡◌, refl, ap, ◌∙◌, sym, subst, true, false, Option, none,
  List, [], ◌∷◌, arith, Bool-cases, inl, inr, ltb, lt-ltb, length, map, select, str_eq, drop, ◌==◌,
}
use pigugu_server.Common.Int.{pos}
use pigugu_server.Context.Record.{ConversationRecord}
use pigugu_server.Context.Memory.{
  Summary, summary_of, empty_memory, hot_turns, load_all, write_game_state,
}
use pigugu_server.Context.Storage.{
  Redis, Pg, Row, insert_row, flush_one, recover_turns, redis_hot_turns, redis_read_summaries,
  read_latest_summary, read_profile, latest,
}
use pigugu_server.Context.Recording.{Session, NewTurn, add_turn, new_record, Task, rewarm}
use pigugu_server.Context.Assembly.{
  fill, from_memory, from_redis, from_pg, pg_summary, profile_summary, load_layers, consume_summary,
  use_up, load_game_state,
}
use pigugu_server.Context.View.{assemble}
use pigugu_server.Context.Numbering.{Rise, add_turn-Rise}

-- rows that are numbered one after another, above a number
abbrev pub Consecutive : ℕ → List Row → Type 0
Consecutive from [] = Unit
Consecutive from (x ∷ xs) = (x.0 ≡ from + 1) × Consecutive x.0 xs

Consecutive-all :
    (from : ℕ) (rows : List Row)
    → Consecutive from rows
    → select (λ (w : Row). ltb 0 w.0) rows ≡ rows
Consecutive-all from [] h = refl
Consecutive-all from (x ∷ xs) h =
    rw (lt-ltb 0 x.0 (omega arith)) (ap (λ ys. x ∷ ys) (Consecutive-all x.0 xs h.1))

abbrev recovered : List Row → List ConversationRecord
recovered rows = map (λ (w : Row). record (w.1) { turn_number = pos (w.0) }) rows

Consecutive-Rise :
    (from n : ℕ) (rows : List Row)
    → Consecutive from rows
    → n ≤ length rows
    → Rise from (recovered (take n rows)) (from + n)
Consecutive-Rise from zero rows h le = omega arith
Consecutive-Rise from (suc n) [] h le = absurd (omega arith)
Consecutive-Rise from (suc n) (x ∷ xs) h le = rw (lt-ltb 0 x.0 (omega arith)) (
  omega arith,
  subst (λ k. Rise x.0 (recovered (take n xs)) k) (omega arith)
      (Consecutive-Rise x.0 n xs h.1 (omega arith)),
)

insert_row-present :
    (from n : ℕ) (r : ConversationRecord) (rows : List Row)
    → Consecutive from rows
    → from < n
    → n ≤ from + length rows
    → insert_row (n, r) rows ≡ rows
unfolding insert_row
insert_row-present from n r [] h lt le = absurd (omega arith)
insert_row-present from n r (x ∷ xs) h lt le = elim (Bool-cases (n == x.0)) [
  | inl e ↦ ground arith
  | inr e ↦ ground (arith, insert_row-present x.0 n r xs h.1)
]

flush_one-kept :
    (n : ℕ) (r : ConversationRecord) (p : Pg)
    → p.is_up ≡ true
    → insert_row (n, r) p.conversations ≡ p.conversations
    → flush_one n r p ≡ p
unfolding flush_one
flush_one-kept n r p on e = ground arith

-- a session that begins: nothing in memory, Redis has no client or does not answer
abbrev pub cold : Redis → Pg → Session
cold r p = record { mem = empty_memory; redis = r; pg = p; tasks = [] }

drop-nil : (n : ℕ) → drop {A = ConversationRecord} n [] ≡ []
drop-nil zero = refl
drop-nil (suc n) = refl

hot_turns-nil : (n k : ℕ) → hot_turns n k [] ≡ []
unfolding hot_turns
hot_turns-nil n k = drop-nil _

module _ (window now : ℕ) (r : Redis) (p : Pg) (down : r.is_up ≡ false) (on : p.is_up ≡ true)
    (unsummed : latest p.summary_rows ≡ none) (rows : Consecutive 0 p.conversations)
    (some_room : 0 < window) (many : window < length p.conversations) where
  abbrev kept : Option Summary
  kept = profile_summary (read_profile p) none

  abbrev rs : List ConversationRecord
  rs = recovered (take window p.conversations)

  kept_plain : ((summary_of kept).end_turn ≡ 0) × ((summary_of kept).l3_session ≡ "")
  kept_plain = elim (Bool-cases (str_eq (read_profile p) "")) [
    | inl e ↦ rw e (refl, refl)
    | inr e ↦ rw e (refl, refl)
  ]

  recovers : recover_turns 0 window p ≡ rs
  unfolding recover_turns
  recovers = rw on (ap (λ xs. recovered (take window xs)) (Consecutive-all 0 p.conversations rows))

  from_memory-cold :
      from_memory window (cold r p) ≡ record { summary = none; records = []; session = cold r p }
  unfolding from_memory
  from_memory-cold = rw (hot_turns-nil window 0)

  from_redis-cold :
      from_redis window (record { summary = none; records = []; session = cold r p })
      ≡ record { summary = none; records = []; session = cold r p }
  unfolding from_redis redis_hot_turns redis_read_summaries
  from_redis-cold = rw down

  no_rows : read_latest_summary p ≡ none
  unfolding read_latest_summary
  no_rows = simp (on, unsummed)

  pg_summary-cold : pg_summary p none ≡ kept
  unfolding pg_summary
  pg_summary-cold = rw (no_rows, pg_summary) refl

  from_pg-cold :
      from_pg window (record { summary = none; records = []; session = cold r p })
      ≡ fill kept rs (rewarm (summary_of kept) rs ∷ []) (cold r p)
  unfolding from_pg
  from_pg-cold = simp (on, pg_summary-cold, kept_plain.0, recovers)

  load_layers-cold :
      load_layers window (cold r p) ≡ fill kept rs (rewarm (summary_of kept) rs ∷ []) (cold r p)
  unfolding load_layers
  load_layers-cold = rw (from_memory-cold, from_redis-cold, from_pg-cold)

  rises : Rise 0 rs window
  rises =
      subst (λ k. Rise 0 rs k) (omega arith)
        (Consecutive-Rise 0 window p.conversations rows (omega arith))

  -- the list is not empty
  filled :
      (ys : List ConversationRecord) (ts : List Task)
      → Rise 0 ys window
      → let s = (consume_summary now (fill kept ys ts (cold r p))).session in
        (s.mem.turns ≡ ys) × (s.pg ≡ p) × (s.redis ≡ r)
  unfolding consume_summary use_up load_all
  filled [] ts h = absurd (omega arith)
  filled (y ∷ ys) ts h = simp (kept_plain.1) (refl, refl, refl)

  starts : Session
  starts = (consume_summary now (load_layers window (cold r p))).session

  started : (starts.mem.turns ≡ rs) × (starts.pg ≡ p) × (starts.redis ≡ r)
  unfolding starts
  started = rw (starts, load_layers-cold) (filled rs (rewarm (summary_of kept) rs ∷ []) rises)

  -- the reading of the game state changes neither the turns nor the stores
  game_state-keeps :
      (s : Session)
      → let s' = (load_game_state s).1 in (s'.mem.turns ≡ s.mem.turns) × (s'.pg ≡ s.pg)
  unfolding load_game_state write_game_state
  game_state-keeps s = ground arith

  assemble-started : let s = (assemble window now (cold r p)).1 in (s.mem.turns ≡ rs) × (s.pg ≡ p)
  unfolding assemble starts
  assemble-started = let k = game_state-keeps starts in let h = started in (k.0 ∙ h.0, k.1 ∙ h.1)

  -- A session that starts with Redis away, from a database whose turns were never summarised and are numbered
  -- one after another, and are more than the window holds: the next turn is given the number after the window's,
  -- which the database already has, and the write of its row changes nothing.
  pub recovered_counter_collides :
      (later : ℕ) (t : NewTurn)
      → let s = (assemble window now (cold r p)).1 in
        let (n, s') = add_turn later t s in
        (n ≡ window + 1) × (flush_one n (new_record later t s) s.pg ≡ p)
  recovered_counter_collides later t = (
    counts,
    ap (flush_one n row) h.1
        ∙ ap (λ k. flush_one k row p) counts
        ∙ flush_one-kept (window + 1) row p on kept_rows,
  )
    where
      s : Session
      s = (assemble window now (cold r p)).1

      h : (s.mem.turns ≡ rs) × (s.pg ≡ p)
      h = assemble-started

      counts : (add_turn later t s).0 ≡ window + 1
      counts =
          (add_turn-Rise later t s window (subst (λ xs. Rise 0 xs window) (sym h.0) rises)).2
            some_room

      n : ℕ
      n = (add_turn later t s).0

      row : ConversationRecord
      row = new_record later t s

      kept_rows : insert_row (window + 1, row) p.conversations ≡ p.conversations
      kept_rows =
          insert_row-present 0 (window + 1) row p.conversations rows (omega arith) (omega arith)
