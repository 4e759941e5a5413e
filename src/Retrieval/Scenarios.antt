-- ===== src/Retrieval/Scenarios.antt =====
-- The reordering of blocks on a concrete list (internal/retrieval), and its theorem at work.
use opspilot_go_dev_kit.Prelude.{
  ℕ, ◌≡◌, refl, true, false, List, [], ◌∷◌, ◌++◌, Permᴰ, leb, length, if◌then◌else◌,
}
use opspilot_go_dev_kit.Retrieval.Reorder.{
  reorder_lost_in_the_middle, place, every_other, backwards, reorder_lem,
}

abbrev ranks : List ℕ
ranks = 1 ∷ 2 ∷ 3 ∷ 4 ∷ 5 ∷ []

reorder_test : reorder_lost_in_the_middle ranks ≡ 1 ∷ 3 ∷ 5 ∷ 4 ∷ 2 ∷ []
unfolding reorder_lost_in_the_middle place
reorder_test = refl

reorder_lem_example :
    Permᴰ (reorder_lost_in_the_middle ranks) ranks
    × (reorder_lost_in_the_middle ranks ≡ (
        if leb (length ranks) 2
        then ranks
        else every_other true ranks ++ backwards (every_other false ranks)))
reorder_lem_example = reorder_lem ranks
