-- ===== src/Export/Tests.antt =====
-- claude_tap/export.py: a run of the theorem on three records.
use claude_tap.Base.{List, [], ◌∷◌, ◌≡◌, codes}
use claude_tap.Json.{pos, num, str, Fields, end, field}
use claude_tap.Export.{sort_by_turn}
use claude_tap.Export.Sorting.{IsSorted, of_turn, sort_by_turn-IsStable}

abbrev three_records : List Fields
three_records =
    field "turn" (num (pos 2)) end
    ∷ field "turn" (num (pos 1)) (field "path" (str (codes "a")) end)
    ∷ field "turn" (num (pos 1)) (field "path" (str (codes "b")) end)
    ∷ []

sort_by_turn-IsStable_example :
    IsSorted (sort_by_turn three_records)
    × (of_turn (pos 1) (sort_by_turn three_records) ≡ of_turn (pos 1) three_records)
sort_by_turn-IsStable_example = sort_by_turn-IsStable (pos 1) three_records
