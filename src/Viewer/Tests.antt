-- ===== src/Viewer/Tests.antt =====
-- claude_tap/viewer.py: a run of the theorem on two lines.
use claude_tap.Base.{false, [], ◌∷◌, ◌≡◌, codes, has_part}
use claude_tap.Viewer.Embedding.{embedded_lines, records_block}
use claude_tap.Viewer.Embedding.Closing.{records_block-Closed}

records_block-Closed_example :
    has_part (codes "</") (
      records_block
        (embedded_lines (λ s. s) (codes "\"</script>\"" ∷ codes " " ∷ codes "\"<\"" ∷ [])))
    ≡ false
records_block-Closed_example =
    records_block-Closed (λ s. s) (codes "\"</script>\"" ∷ codes " " ∷ codes "\"<\"" ∷ [])
