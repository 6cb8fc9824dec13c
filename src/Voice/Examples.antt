-- ===== src/Voice/Examples.antt =====
-- A short turn and a small buffer, and the theorems about voice turns at them.
use pigugu_server.Common.{refl, String, Bool, true, false, List, [], ◌∷◌}
use pigugu_server.Voice.Segments.{compute_voice_segments}
use pigugu_server.Voice.SegmentResults.{
  IsCovered, IsApart, compute_voice_segments-IsCovered, compute_voice_segments-IsApart,
}

abbrev a_turn : List Bool
a_turn = false ∷ true ∷ false ∷ false ∷ true ∷ []

compute_voice_segments-IsCovered_example : IsCovered 32 4 (compute_voice_segments a_turn 32 2)
compute_voice_segments-IsCovered_example = compute_voice_segments-IsCovered a_turn 32 2 4 refl

compute_voice_segments-IsApart_example : IsApart 64 0 (compute_voice_segments a_turn 32 2)
compute_voice_segments-IsApart_example = compute_voice_segments-IsApart a_turn 32 2

abbrev some_texts : List String
some_texts = "a" ∷ "" ∷ "b" ∷ "c" ∷ []
