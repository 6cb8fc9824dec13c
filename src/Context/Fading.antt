-- ===== src/Context/Fading.antt =====
-- What an assembly shows of a game, with a summary and without: `_load_roast_context` of
-- pigagent/context/manager.py.
use pigugu_server.Common.{
  ℕ, ◌≡◌, ◌⊎◌, refl, String, Option, none, some, Bool-cases, inl, inr, str_eq, ◌==◌, if◌then◌else◌,
  find, sym, subst,
}
use pigugu_server.Context.Memory.{Summary, no_summary, Memory, hot_turns}
use pigugu_server.Context.Assignment.{given_id, current_roast_instance_id}
use pigugu_server.Context.Assembly.{
  Loaded, RoastContext, load_roast, load_roast_context, or_text, summary_text, is_game_summary,
  prompt_text, is_game_turn, prompt_number,
}

-- what is shown of the game is as before, or no longer there
abbrev pub Fades : Option RoastContext → Option RoastContext → Type 0
Fades none none = Unit
Fades (some a) (some b) =
    (b.roast_instance_id ≡ a.roast_instance_id)
    × ((b.summary ≡ a.summary) ⊎ (b.summary ≡ ""))
    × ((b.prompt ≡ a.prompt) ⊎ (b.prompt ≡ ""))
    × ((b.prompt_turn ≡ a.prompt_turn) ⊎ (b.prompt_turn ≡ 0))
Fades _ _ = ⊥

-- a text that is in the records is kept, and one that was a fallback is gone
or_text_fades :
    (a b c : String) → (c ≡ b) ⊎ (c ≡ "") → (or_text a c ≡ or_text a b) ⊎ (or_text a c ≡ "")
or_text_fades a b c h = elim (Bool-cases (str_eq a "")) [ inl e ↦ rw e h | inr e ↦ rw e (inl refl) ]

number_fades :
    (n b c : ℕ)
    → (c ≡ b) ⊎ (c ≡ 0)
    → ((if n == 0 then c else n) ≡ (if n == 0 then b else n)) ⊎ ((if n == 0 then c else n) ≡ 0)
number_fades n b c h = elim (Bool-cases (n == 0)) [ inl e ↦ rw e h | inr e ↦ rw e (inl refl) ]

-- a later summary that is the same or empty
load_roast_context-Fades :
    (rid : String) (d d' : Summary) (m m' : Memory)
    → m'.turns ≡ m.turns
    → (d' ≡ d) ⊎ (d' ≡ no_summary)
    → Fades (some (load_roast_context rid d m)) (some (load_roast_context rid d' m'))
unfolding load_roast_context
load_roast_context-Fades rid d d' m m' turns (inl e) =
    rw (turns, e) (refl, inl refl, inl refl, inl refl)
load_roast_context-Fades rid d d' m m' turns (inr e) =
    rw (turns, e)
      (
        refl,
        or_text_fades (summary_text (find (is_game_summary rid) (hot_turns 9999 0 m.turns)))
            d.l4_roast "" (inr refl),
        or_text_fades (prompt_text (find (is_game_turn rid) (hot_turns 9999 0 m.turns)))
            d.roast_prompt "" (inr refl),
        number_fades (prompt_number (find (is_game_turn rid) (hot_turns 9999 0 m.turns)))
            d.roast_prompt_turn 0 (inr refl),
      )

-- the same records and turns, read with a summary that is the same or empty
pub load_roast-Fades :
    (d d' : Summary) (l l' : Loaded)
    → l'.records ≡ l.records
    → l'.session.mem.turns ≡ l.session.mem.turns
    → (d' ≡ d) ⊎ (d' ≡ no_summary)
    → Fades (load_roast d l) (load_roast d' l')
unfolding load_roast
load_roast-Fades d d' l l' records turns h =
    subst
      (λ rs.
        Fades (load_roast d l)
          (shown_with (given_id (current_roast_instance_id rs)) d' l'.session.mem))
      (sym records) (each (given_id (current_roast_instance_id l.records)))
  where
    shown_with : Option String → Summary → Memory → Option RoastContext
    shown_with o e m = elim o [ none ↦ none | some rid ↦ some (load_roast_context rid e m) ]

    each :
        (o : Option String) → Fades (shown_with o d l.session.mem) (shown_with o d' l'.session.mem)
    each none = tt
    each (some rid) = load_roast_context-Fades rid d d' l.session.mem l'.session.mem turns h
