-- ===== src/Context/Compression.antt =====
-- The compression of a context: ContextCompressor of pigagent/context/compression/compressor.py, and the
-- functions of l2_facts.py, l3_session.py and l4_roast.py that call the model. The model is a parameter: its
-- answers are texts without spaces at their ends, and `none` is a call that fails or cannot be read.
use pigugu_server.Common.{
  ℕ, ◌+◌, ltb, String, Bool, true, false, ◌||◌, Option, none, some, List, [], ◌∷◌, if◌then◌else◌,
  ◌==◌, str_eq, find, map, select, length,
}
use mathlib.Core.List.{reverse}
use pigugu_server.Common.Text.{codes, is_prefix}
use pigugu_server.Common.Int.{ℤ, pos, negsuc, pos_part}
use pigugu_server.Context.Record.{ConversationRecord, is_after}
use pigugu_server.Context.Memory.{Memory, Summary, get_hot_turns, load_all, set_compressing}
use pigugu_server.Context.Storage.{
  Redis, Pg, redis_write_summaries, redis_set_compressing, persist_facts, read_new_facts,
  read_profile, upsert_profile, write_summary_row,
}
use pigugu_server.Context.Assignment.{given_id}
use pigugu_server.Context.Assembly.{strip_label}
use pigugu_server.Context.View.{to_message}
use pigugu_server.Agent.Messages.{Message}

pub record Model : Type 0 where
  pub facts : List Message → Option (List (String × String))
  pub compress : List Message → Option String
  pub merge : String → List Message → Option String
  pub roast : String → List Message → Option String
  pub profile : List (String × String) → String → Option String
  pub tokens : List Message → ℕ
  pub text_tokens : String → ℕ

-- the settings: CONTEXT_TOKEN_BUDGET_CAP, CONTEXT_MAX_TURNS, and the threshold of the game's segment
pub record Config : Type 0 where
  pub token_cap : ℕ
  pub max_turns : ℕ
  pub roast_threshold : ℕ

abbrev pub or_default {ℓ} : {A : Type ℓ} → A → Option A → A
or_default a none = a
or_default a (some b) = b

-- extract_facts
unfoldable pub extract_facts : Model → List Message → List (String × String)
extract_facts llm [] = []
extract_facts llm (t ∷ ts) = or_default [] (llm.facts (t ∷ ts))

-- summarize_profile
unfoldable pub summarize_profile : Model → List (String × String) → String → String
summarize_profile llm [] existing =
    if str_eq existing "" then "" else or_default existing (llm.profile [] existing)
summarize_profile llm (f ∷ fs) existing = or_default existing (llm.profile (f ∷ fs) existing)

-- compress_turns
unfoldable pub compress_turns : Model → List Message → String
compress_turns llm [] = ""
compress_turns llm (t ∷ ts) = or_default "" (llm.compress (t ∷ ts))

-- merge_summary, where there is a summary
unfoldable pub merge_summary : Model → String → List Message → String
merge_summary llm existing ts = or_default existing (llm.merge existing ts)

-- _compress_l3
unfoldable pub compress_l3 : Model → String → List Message → String
unfolding compress_turns merge_summary
compress_l3 llm existing ts =
    if str_eq existing "" then compress_turns llm ts else merge_summary llm existing ts

abbrev pub drop_chars : ℕ → String → String
drop_chars ℕ.zero s = s
drop_chars (ℕ.suc n) String.[] = String.[]
drop_chars (ℕ.suc n) (String.◌∷◌ c s) = drop_chars n s

-- what follows the first line `---`
unfoldable pub after_rule : String → Option String
after_rule String.[] = none
after_rule (String.◌∷◌ c s) =
    let rest = after_rule s in
    if is_prefix (codes "\n---\n") (codes (String.◌∷◌ c s)) then some (drop_chars 4 s) else rest

unfoldable pub body_of : String → String
unfolding after_rule
body_of s = elim (after_rule s) [ none ↦ s | some rest ↦ rest ]

-- compress_roast
unfoldable pub compress_roast : Model → String → List Message → String
unfolding body_of
compress_roast llm existing [] = existing
compress_roast llm existing (t ∷ ts) =
    let old = body_of existing in
    let body = or_default old (llm.roast old (t ∷ ts)) in if str_eq body "" then existing else body

-- ContextSnapshot.token_count_with_summary
unfoldable pub token_count_with_summary : Model → String → List ConversationRecord → ℕ
token_count_with_summary llm text [] = if str_eq text "" then 0 else llm.text_tokens text
token_count_with_summary llm text (r ∷ rs) =
    llm.tokens (map to_message (r ∷ rs)) + (if str_eq text "" then 0 else llm.text_tokens text)

-- ContextSnapshot.should_compress
unfoldable pub should_compress : Model → Config → String → List ConversationRecord → Bool
unfolding token_count_with_summary
should_compress llm cfg text rs =
    ltb cfg.token_cap (token_count_with_summary llm text rs) || ltb cfg.max_turns (length rs)

abbrev pub is_given : Option String → Bool
is_given o = elim (given_id o) [ none ↦ false | some s ↦ true ]

-- ContextSnapshot.roast: the records from the first of a game on
unfoldable pub roast_segment : List ConversationRecord → List ConversationRecord
roast_segment [] = []
roast_segment (r ∷ rs) =
    let rest = roast_segment rs in if is_given r.roast_instance_id then r ∷ rs else rest

abbrev pub segment_tokens : Model → List ConversationRecord → ℕ
segment_tokens llm [] = 0
segment_tokens llm (r ∷ rs) = llm.tokens (map to_message (r ∷ rs))

-- ContextSnapshot.should_compress_l4
unfoldable pub should_compress_l4 : Model → Config → List ConversationRecord → Bool
unfolding roast_segment
should_compress_l4 llm cfg rs = ltb cfg.roast_threshold (segment_tokens llm (roast_segment rs))

abbrev pub has_number : ℤ → ConversationRecord → Bool
has_number (negsuc k) r = elim r.turn_number [ pos n ↦ false | negsuc n ↦ n == k ]
has_number (pos k) r = elim r.turn_number [ pos n ↦ n == k | negsuc n ↦ false ]

-- virtual.get(n): the last record with the number, as a later one replaces an earlier one in the dict
unfoldable pub get_virtual : ℤ → List ConversationRecord → Option ConversationRecord
get_virtual n rs = find (has_number n) (reverse rs)

abbrev pub stripped_or : String → Option ConversationRecord → String
stripped_or text none = text
stripped_or text (some r) = strip_label r.content

abbrev pub is_profile : ConversationRecord → Bool
is_profile r = has_number (negsuc 2) r

-- the number of the last record, or 0
abbrev pub last_of : List ConversationRecord → ℕ
last_of rs = elim (reverse rs) [ [] ↦ 0 | r ∷ rest ↦ pos_part r.turn_number ]

-- the stores of a compression. The memory is the compressor's own (`self._mem = MemoryStore()`)
pub record Stores : Type 0 where
  pub mem : Memory
  pub redis : Redis
  pub pg : Pg

unfoldable pub mark_compressing : Bool → Stores → Stores
mark_compressing b s = record s {
  mem = set_compressing b s.mem;
  redis = redis_set_compressing b s.redis;
}

-- _rebuild_profile
unfoldable pub rebuild_profile : Model → Stores → String × Stores
rebuild_profile llm s =
    let existing = read_profile s.pg in
    elim (read_new_facts s.pg) [
      | [] ↦ (existing, s)
      | f ∷ fs ↦
          let profile = summarize_profile llm (f ∷ fs) existing in
          if str_eq profile ""
          then (existing, s)
          else (profile, record s { pg = upsert_profile profile s.pg })
    ]

-- _write_l2
unfoldable pub write_l2 : Model → List (String × String) → Stores → String × Stores
unfolding rebuild_profile
write_l2 llm [] s = ("", s)
write_l2 llm (f ∷ fs) s = rebuild_profile llm (record s { pg = persist_facts (f ∷ fs) s.pg })

-- _persist_summaries
unfoldable pub persist_summaries : Summary → Stores → Stores
persist_summaries d s = record s {
  redis = redis_write_summaries d s.redis;
  pg = write_summary_row d s.pg;
}

-- _rebuild_memory
unfoldable pub rebuild_memory : Summary → Stores → Stores
rebuild_memory d s =
    let post_anchor = select (λ r. is_after d.end_turn r.turn_number) (get_hot_turns 9999 s.mem) in
    record s { mem = load_all post_anchor (some d) s.mem }
