-- ===== src/Context/Again.antt =====
-- A compression and the assembly after it: the manager of pigagent/context/manager.py with its compressor,
-- pigagent/context/compression/compressor.py.
use pigugu_server.Common.{
  ℕ, ◌≡◌, ◌≢◌, refl, ap, ◌∙◌, sym, String, Bool, false, Option, none, some, List, [], ◌∷◌, ◌++◌,
  arith, Bool-cases, inl, inr,
}
use pigugu_server.Context.Record.{ConversationRecord}
use pigugu_server.Context.Memory.{
  Memory, Summary, summary_of, load_all, write_summaries, write_game_state,
}
use pigugu_server.Context.Storage.{redis_read_summaries}
use pigugu_server.Context.Recording.{Session, Task, compress}
use pigugu_server.Context.Assembly.{
  Loaded, load_layers, from_memory, from_redis, from_pg, fill, keep_summary, consume_summary,
  use_up, WorkingContext, load_game_state, working_context,
}
use pigugu_server.Context.View.{assemble, compress_task, to_records}
use pigugu_server.Context.Compression.{Model, Config}
use pigugu_server.Context.Scenarios.{run_task}
use pigugu_server.Context.Kept.{Kept, load_layers-Kept, consume_summary-Kept}
use pigugu_server.Context.Warm.{loads_again, consume_summary-used, game_state-keeps}
use pigugu_server.Context.HotTurns.{AllReal}

fill-unmarked :
    (d : Option Summary) (rs : List ConversationRecord) (ts : List Task) (s : Session)
    → (fill d rs ts s).session.mem.compressing_flag ≡ s.mem.compressing_flag
unfolding load_all
fill-unmarked d [] ts s = refl
fill-unmarked d (r ∷ rs) ts s = refl

keep_summary-unmarked :
    (d : Option Summary) (s : Session)
    → (keep_summary d s).mem.compressing_flag ≡ s.mem.compressing_flag
unfolding write_summaries
keep_summary-unmarked none s = refl
keep_summary-unmarked (some d) s = refl

from_redis-unmarked :
    (w : ℕ) (l : Loaded)
    → (from_redis w l).session.mem.compressing_flag ≡ l.session.mem.compressing_flag
from_redis-unmarked w l = go l.records refl l.summary refl
  where
    go :
        (rs : List ConversationRecord)
        → l.records ≡ rs
        → (d : Option Summary) → l.summary ≡ d
        → (from_redis w l).session.mem.compressing_flag ≡ l.session.mem.compressing_flag
    go (r ∷ rs) e d k = unfold from_redis in rw (e, from_redis)
    go [] e (some d) k =
        unfold from_redis in rw (e, from_redis) (rw k (fill-unmarked _ _ _ l.session))
    go [] e none k =
        unfold from_redis in
        rw (e, from_redis)
          (rw k (
            fill-unmarked (redis_read_summaries l.session.redis) _ []
              (keep_summary (redis_read_summaries l.session.redis) l.session)
            ∙ keep_summary-unmarked (redis_read_summaries l.session.redis) l.session))

from_pg-unmarked :
    (w : ℕ) (l : Loaded)
    → (from_pg w l).session.mem.compressing_flag ≡ l.session.mem.compressing_flag
from_pg-unmarked w l = go l.records refl
  where
    go :
        (rs : List ConversationRecord)
        → l.records ≡ rs
        → (from_pg w l).session.mem.compressing_flag ≡ l.session.mem.compressing_flag
    go (r ∷ rs) e = unfold from_pg in rw (e, from_pg)
    go [] e = elim (Bool-cases l.session.pg.is_up) [
      | inl up ↦ unfold from_pg in rw (e, from_pg) (simp up (fill-unmarked _ _ _ l.session))
      | inr down ↦ unfold from_pg in rw (e, from_pg) (simp down refl)
    ]

-- an assembly leaves the mark as it is
assemble-unmarked :
    (w now : ℕ) (s : Session) → (assemble w now s).1.mem.compressing_flag ≡ s.mem.compressing_flag
unfolding assemble
assemble-unmarked w now s =
    read (consume_summary now (load_layers w s)).session
    ∙ used (load_layers w s)
    ∙ unfold load_layers from_memory in
      (from_pg-unmarked w (from_redis w (from_memory w s))
        ∙ from_redis-unmarked w (from_memory w s))
  where
    read : (t : Session) → (load_game_state t).1.mem.compressing_flag ≡ t.mem.compressing_flag
    read t = unfold load_game_state write_game_state in ground arith

    used :
        (l : Loaded)
        → (consume_summary now l).session.mem.compressing_flag ≡ l.session.mem.compressing_flag
    used l = unfold consume_summary use_up load_all in ground arith

-- the task of an assembly with records, where nothing is marked
compress_task-starts :
    (mark : Bool) (rs unified : List ConversationRecord) (text : String)
    → mark ≡ false
    → rs ≢ []
    → text ≡ ""
    → compress_task mark rs unified text ≡ compress unified "" ∷ []
compress_task-starts mark [] unified text e some_records t = absurd (some_records refl)
compress_task-starts mark (r ∷ rs) unified text e some_records t = rw (e, t)

-- A compression that an assembly starts runs over the compressor's own memory: whatever the model answers, the
-- next assembly of the session has the records that it had before, and starts a compression of all of them
-- again. This holds where the manager's memory is not marked as being compressed, which nothing ever does,
-- the turns in Redis have numbers of turns, and the context has records.
pub compression_without_effect :
    (llm : Model) (cfg : Config) (w now later : ℕ) (s : Session) (own : Memory)
    (rs : List ConversationRecord) (text : String)
    → AllReal s.redis.turns
    → (assemble w now s).0.raw_records ≢ []
    → s.mem.compressing_flag ≡ false
    → let (wc, s₁) = assemble w now s in
      let s₂ = (run_task llm cfg (compress rs text) (s₁, own)).0 in
      let (again, s₃) = assemble w later s₂ in
      (again.raw_records ≡ wc.raw_records)
      × ((ts : List Task) × (s₃.tasks ≡ ts ++ compress (to_records again) "" ∷ []))
unfolding assemble working_context run_task
compression_without_effect llm cfg w now later s own rs text real some_records unmarked =
    (ap (λ l. l.records) read, (old.tasks, ap (λ xs. old.tasks ++ xs) started))
  where
    used : Loaded
    used = consume_summary now (load_layers w s)

    s₁ : Session
    s₁ = (assemble w now s).1

    s₂ : Session
    s₂ = (run_task llm cfg (compress rs text) (s₁, own)).0

    kept : Kept w used × ((summary_of used.summary).l3_session ≡ "")
    kept = consume_summary-Kept w now (load_layers w s) (load_layers-Kept w s real)

    loaded :
        load_layers w s₂ ≡ record { summary = used.summary; records = used.records; session = s₂ }
    loaded =
        loads_again w used s₂ some_records kept.0 (game_state-keeps used.session).0
          (game_state-keeps used.session).1

    read :
        consume_summary later (load_layers w s₂)
        ≡ record { summary = used.summary; records = used.records; session = s₂ }
    read = ap (consume_summary later) loaded ∙ consume_summary-used later _ kept.1

    again : WorkingContext
    again = (assemble w later s₂).0

    old : Session
    old = (load_game_state (consume_summary later (load_layers w s₂)).session).1

    flag : old.mem.compressing_flag ≡ false
    flag = assemble-unmarked w later s₂ ∙ assemble-unmarked w now s ∙ unmarked

    started :
        compress_task old.mem.compressing_flag again.raw_records
          (to_records again)
          (summary_of (load_layers w s₂).summary).l3_session
        ≡ compress (to_records again) "" ∷ []
    started =
        compress_task-starts old.mem.compressing_flag again.raw_records (to_records again) _ flag
          (λ e. some_records (sym (ap (λ l. l.records) read) ∙ e))
          (ap (λ l. (summary_of l.summary).l3_session) loaded ∙ kept.1)
