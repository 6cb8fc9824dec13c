-- ===== src/Context/Kept.antt =====
-- Records that the memory gives back as they are: the three sources of an assembly, and the summary that is used up
-- (assemble of pigagent/context/manager.py).
use pigugu_server.Common.{
  take, ℕ, zero, suc, max, ◌*◌, ◌≤◌, ◌≡◌, ◌⊎◌, refl, String, true, false, Option, none, some, List,
  [], ◌∷◌, arith, Bool-cases, inl, inr, ltb, lt-ltb, ltb→lt, length, map, select, str_eq, ◌==◌,
  take_last, length-take_last, All, All-append, eq_iff,
}
use pigugu_server.Common.Int.{pos, negsuc}
use pigugu_server.Context.Record.{ConversationRecord, is_after}
use pigugu_server.Context.Memory.{Summary, summary_of, get_hot_turns, hot_turns, load_all, is_real}
use pigugu_server.Context.Storage.{
  Redis, Pg, Row, recover_turns, redis_hot_turns, redis_read_summaries,
}
use pigugu_server.Context.Recording.{Session, Task}
use pigugu_server.Context.Assembly.{
  Loaded, fill, from_memory, from_redis, from_pg, load_layers, consume_summary, layers, layer,
  rebuild_records, use_up, keep_summary,
}
use pigugu_server.Context.HotTurns.{
  AllReal, AllVirtual, All-select, All-drop, select-All, hot_turns-parts, hot_turns-hot_turns,
  hot_turns-layers,
}

-- the records are as the memory gives them, and the memory has them with the summary
abbrev pub Kept : ℕ → Loaded → Type 0
Kept w l =
    (hot_turns w 0 l.records ≡ l.records)
    × ((l.records ≡ [])
        ⊎ ((get_hot_turns w l.session.mem ≡ l.records) × (l.session.mem.summaries ≡ l.summary)))

from_memory-Kept : (w : ℕ) (s : Session) → Kept w (from_memory w s)
unfolding from_memory
from_memory-Kept w s = (hot_turns-hot_turns w s.mem.turns, inr (refl, refl))

fill-Kept :
    (w : ℕ) (d : Option Summary) (rs : List ConversationRecord) (ts : List Task) (s : Session)
    → hot_turns w 0 rs ≡ rs
    → Kept w (fill d rs ts s)
unfolding load_all
fill-Kept w d [] ts s h = (h, inl refl)
fill-Kept w d (r ∷ rs) ts s h = (h, inr (h, refl))

-- turns only, and no more than the window
Fits : ℕ → List ConversationRecord → Type 0
Fits w rs = AllReal rs × (length rs ≤ w)

Fits-hot_turns : (w : ℕ) (rs : List ConversationRecord) → Fits w rs → hot_turns w 0 rs ≡ rs
unfolding Fits
Fits-hot_turns w rs h = hot_turns-parts w [] rs tt h.0 h.1

redis_hot_turns-Fits :
    (w anchor : ℕ) (r : Redis) → AllReal r.turns → Fits w (redis_hot_turns w anchor r)
unfolding redis_hot_turns Fits
redis_hot_turns-Fits w anchor r h = elim (Bool-cases r.is_up) [
  | inr e ↦ rw e (tt, omega arith)
  | inl e ↦ elim (Bool-cases (anchor == 0)) [
    | inl z ↦ simp (e, z) (last _ raw)
    | inr z ↦ simp (e, z) (last _ (All-select IsReal (λ t. is_after anchor t.turn_number) _ raw))
  ]
]
  where
    IsReal : ConversationRecord → Type 0
    IsReal t = is_real t ≡ true

    raw : AllReal (take_last (max (w * 3) 30) r.turns)
    raw = All-drop IsReal _ r.turns h

    last : (xs : List ConversationRecord) → AllReal xs → Fits w (take_last w xs)
    last xs k = (All-drop IsReal _ xs k, omega (arith, length-take_last w xs))

recovered-Fits :
    (w after : ℕ) (rows : List Row)
    → let rs =
        map
          (λ (x : Row). record (x.1) { turn_number = pos (x.0) })
          (take w (select (λ (x : Row). ltb after x.0) rows)) in
      Fits w rs
unfolding Fits
recovered-Fits w after rows =
    go w (select (λ (x : Row). ltb after x.0) rows) (select-All (λ (x : Row). ltb after x.0) rows)
  where
    go :
        (n : ℕ) (xs : List Row)
        → All (λ (x : Row). ltb after x.0 ≡ true) xs
        → Fits n (map (λ (x : Row). record (x.1) { turn_number = pos (x.0) }) (take n xs))
    go zero xs h = (tt, omega arith)
    go (suc n) [] h = (tt, omega arith)
    go (suc n) (x ∷ xs) h =
        let (k, le) = go n xs h.1 in
        ((lt-ltb 0 x.0 (omega (arith, ltb→lt after x.0 h.0)), k), omega arith)

recover_turns-Fits : (w after : ℕ) (p : Pg) → Fits w (recover_turns after w p)
unfolding recover_turns
recover_turns-Fits w after p = elim (Bool-cases p.is_up) [
  | inl e ↦ simp e (recovered-Fits w after p.conversations)
  | inr e ↦ simp e (unfold Fits in (tt, omega arith))
]

from_redis-Kept :
    (w : ℕ) (l : Loaded) → AllReal l.session.redis.turns → Kept w l → Kept w (from_redis w l)
from_redis-Kept w l real h = go l.records refl l.summary refl
  where
    go :
        (rs : List ConversationRecord)
        → l.records ≡ rs
        → (d : Option Summary) → l.summary ≡ d
        → Kept w (from_redis w l)
    go (r ∷ rs) e d k = unfold from_redis in rw (e, from_redis) h
    go [] e (some d) k =
        unfold from_redis in
        rw (e, from_redis)
          (rw k (
            fill-Kept w (some d) (redis_hot_turns w d.end_turn l.session.redis) [] l.session
              (Fits-hot_turns w _ (redis_hot_turns-Fits w d.end_turn l.session.redis real))))
    go [] e none k =
        unfold from_redis in
        rw (e, from_redis)
          (rw k (
            fill-Kept w (redis_read_summaries l.session.redis) _ []
              (keep_summary (redis_read_summaries l.session.redis) l.session)
              (Fits-hot_turns w _ (redis_hot_turns-Fits w _ l.session.redis real))))

from_pg-Kept : (w : ℕ) (l : Loaded) → Kept w l → Kept w (from_pg w l)
from_pg-Kept w l h = go l.records refl
  where
    go : (rs : List ConversationRecord) → l.records ≡ rs → Kept w (from_pg w l)
    go (r ∷ rs) e = unfold from_pg in rw (e, from_pg) h
    go [] e = elim (Bool-cases l.session.pg.is_up) [
      | inl up ↦
          unfold from_pg in
          rw (e, from_pg)
            (simp up (
              fill-Kept w _ _ _ l.session
                (Fits-hot_turns w _ (recover_turns-Fits w _ l.session.pg))))
      | inr down ↦ unfold from_pg in rw (e, from_pg) (simp down h)
    ]

pub load_layers-Kept : (w : ℕ) (s : Session) → AllReal s.redis.turns → Kept w (load_layers w s)
unfolding load_layers
load_layers-Kept w s real =
    from_pg-Kept w _ (from_redis-Kept w _ (unfold from_memory in real) (from_memory-Kept w s))

layer-AllVirtual :
    (k : ℕ) (title : String) (now : ℕ) (text : String) (rid : Option String)
    → AllVirtual (layer (negsuc k) title now text rid)
layer-AllVirtual k title now text rid = elim (Bool-cases (str_eq text "")) [
  | inl e ↦ rw e tt
  | inr e ↦ rw e (refl, tt)
]

layers-AllVirtual : (now : ℕ) (d : Summary) → AllVirtual (layers now d)
unfolding layers
layers-AllVirtual now d =
    All-append IsVirtual _ _
      (All-append IsVirtual _ _ (layer-AllVirtual 2 "[L2 Profile]\n" now d.l2_profile none)
        (layer-AllVirtual 1 "[L3 Session]\n" now d.l3_session none))
      (layer-AllVirtual 0 "[Game history]\n" now d.l4_roast (some d.roast_id))
  where
    IsVirtual : ConversationRecord → Type 0
    IsVirtual r = is_real r ≡ false

use_up-Kept : (w now : ℕ) (l : Loaded) → hot_turns w 0 l.records ≡ l.records → Kept w (use_up now l)
use_up-Kept w now l h = unfold use_up in (rebuilt, inr (rebuilt, refl))
  where
    rebuilt :
        hot_turns w 0 (rebuild_records now (summary_of l.summary) l.records)
        ≡ rebuild_records now (summary_of l.summary) l.records
    rebuilt =
        unfold rebuild_records in
        hot_turns-layers w (layers now (summary_of l.summary)) l.records
          (layers-AllVirtual now (summary_of l.summary)) h

-- after the summary is used up, no session summary is left
pub consume_summary-Kept :
    (w now : ℕ) (l : Loaded)
    → Kept w l
    → Kept w (consume_summary now l)
      × ((summary_of (consume_summary now l).summary).l3_session ≡ "")
unfolding consume_summary
consume_summary-Kept w now l h = elim (Bool-cases (str_eq (summary_of l.summary).l3_session "")) [
  | inl e ↦ simp e (h, (eq_iff (summary_of l.summary).l3_session "").0 e)
  | inr e ↦ simp e (use_up-Kept w now l h.0, unfold use_up in refl)
]
