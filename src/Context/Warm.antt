-- ===== src/Context/Warm.antt =====
-- The second assembly of a context: assemble of pigagent/context/manager.py, cold and then from memory.
use pigugu_server.Common.{ℕ, ◌≡◌, ◌≢◌, refl, ap, ◌∙◌, List, [], ◌∷◌, arith, inl, inr, eq_iff}
use pigugu_server.Context.Record.{ConversationRecord}
use pigugu_server.Context.Memory.{summary_of, write_game_state}
use pigugu_server.Context.Recording.{Session}
use pigugu_server.Context.Assembly.{
  Loaded, from_memory, from_redis, from_pg, load_layers, consume_summary, load_game_state,
}
use pigugu_server.Context.Kept.{Kept}

-- what an assembly from memory reads of a session whose records are kept
pub loads_again :
    (w : ℕ) (l : Loaded) (s : Session)
    → l.records ≢ []
    → Kept w l
    → s.mem.turns ≡ l.session.mem.turns
    → s.mem.summaries ≡ l.session.mem.summaries
    → load_layers w s ≡ record { summary = l.summary; records = l.records; session = s }
loads_again w l s some_records (settled, inl e) turns summaries = absurd (some_records e)
loads_again w l s some_records (settled, inr (in_memory, same)) turns summaries = go l.records refl
  where
    again : Loaded
    again = record { summary = l.summary; records = l.records; session = s }

    remembered : from_memory w s ≡ again
    remembered = unfold from_memory in rw (turns, in_memory, summaries, same)

    go : (rs : List ConversationRecord) → l.records ≡ rs → load_layers w s ≡ again
    go [] e = absurd (some_records e)
    go (r ∷ rs) e = unfold load_layers from_redis from_pg in rw (remembered, e)

-- a summary without a session text is left as it is
pub consume_summary-used :
    (now : ℕ) (l : Loaded) → (summary_of l.summary).l3_session ≡ "" → consume_summary now l ≡ l
unfolding consume_summary
consume_summary-used now l used = ground (arith, eq_iff (summary_of l.summary).l3_session "")

pub reads_again :
    (w now : ℕ) (l : Loaded) (s : Session)
    → l.records ≢ []
    → Kept w l
    → (summary_of l.summary).l3_session ≡ ""
    → s.mem.turns ≡ l.session.mem.turns
    → s.mem.summaries ≡ l.session.mem.summaries
    → consume_summary now (load_layers w s)
      ≡ record { summary = l.summary; records = l.records; session = s }
reads_again w now l s some_records kept used turns summaries =
    ap (consume_summary now) (loads_again w l s some_records kept turns summaries)
    ∙ consume_summary-used now _ used

pub game_state-keeps :
    (s : Session)
    → let s' = (load_game_state s).1 in
      (s'.mem.turns ≡ s.mem.turns) × (s'.mem.summaries ≡ s.mem.summaries) × (s'.redis ≡ s.redis)
unfolding load_game_state write_game_state
game_state-keeps s = ground arith
