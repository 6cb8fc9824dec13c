-- ===== src/Roast/SettleExamples.antt =====
-- The end of a debate, and the theorems about it.
use pigugu_server.Common.{none, ◌≡◌, refl, ◌∷◌, []}
use pigugu_server.Common.Dict.{get}
use pigugu_server.Roast.State.{
  debate, active, closing, settled, RoastState, no_extra, to_dict, from_dict, read_mode, read_phase,
  mode_name, phase_name,
}
use pigugu_server.Roast.Storage.{up, load_active}
use pigugu_server.Roast.Settle.{Ledger, already_over, completed_as, mark_roast_complete}
use pigugu_server.Roast.Overlap.{after_reply, settled_unless_overtaken}

abbrev a_debate : RoastState
a_debate = record {
  user_id = "u1";
  persona_id = 4;
  roast_id = "r1";
  mode = debate;
  roast_instance_id = "s1";
  phase = closing;
  turn_count = 7;
  started_at = 100;
  extra = no_extra;
}

abbrev a_ledger : Ledger
a_ledger = record {
  store = record {
    redis = up;
    pg = up;
    sessions = ("u1", to_dict a_debate) ∷ [];
    pending = [];
    published = [];
    history = [];
  };
  rows = [];
  pushed = [];
}

abbrev an_active_debate : RoastState
an_active_debate = record a_debate { phase = active }

abbrev an_active_ledger : Ledger
an_active_ledger = record a_ledger {
  store = record a_ledger.store { sessions = ("u1", to_dict an_active_debate) ∷ [] };
}

settled_unless_overtaken_example :
    let (l', outcome) = mark_roast_complete "u1" "completed" an_active_ledger in
    let after = record l' { store = after_reply none none [] an_active_debate l'.store } in
    (outcome ≡ completed_as "completed")
    × (mark_roast_complete "u1" "quit" l' ≡ (l', already_over settled))
    × ((mark_roast_complete "u1" "quit" after).1 ≡ completed_as "quit")
unfolding load_active to_dict from_dict read_mode read_phase mode_name phase_name get
settled_unless_overtaken_example =
    settled_unless_overtaken "u1" "completed" "quit" an_active_debate an_active_ledger refl refl
      refl refl refl none none []
