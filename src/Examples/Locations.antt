-- ===== src/Examples/Locations.antt =====
-- A question for a post is resolved behind the insertion of the post.
use shamichan.Prelude.{◌≡◌, List, [], ◌∷◌, some, none, arith}
use shamichan.Server.Locations.{PostLocationCache, Answer, Begun, begin, cache_locations}
use shamichan.Server.Locations.Fresh.{Step, run, begin-run}

abbrev empty : PostLocationCache
empty = record { entries = []; cells = []; next = 0 }

-- A task asks for the post 5 and gets the cell 0.
abbrev asked : PostLocationCache
asked = (begin empty 5).0

abbrev steps : List Step
steps =
    Step.begins 6
    ∷ Step.resolves 0 (some none)
    ∷ Step.caches (record { id = 7; thread = 3; page = 1 })
    ∷ []

begin-run_example :
    (begin (run (cache_locations asked (record { id = 5; thread = 3; page = 1 } ∷ [])) steps) 5).1
    ≡ Begun.answered (Answer.located (some (3, 1)))
begin-run_example = begin-run 5 3 1 asked steps ((λ e. ground arith), tt)
