-- ===== src/Examples/Edits.antt =====
-- edit_result_helpers.go and patch_edit_tool.go: a file that is read back with other line endings.
use cursor_byok_lite.Prelude.{◌≡◌, ◌↔◌, ◌≢◌, true}
use cursor_byok_lite.Prelude.Text.{codes}
use cursor_byok_lite.LineEndings.{reconcile_patch_edit_observed_content}
use cursor_byok_lite.LineEndings.Lines.{lines_of, reconcile_patch_edit_observed_content_lem}

reconcile_patch_edit_observed_content_lem_example :
    (let expected = codes "a\nb" in
      let observed = codes "a\r\nb" in
      let result = reconcile_patch_edit_observed_content expected observed in
      (result.0 ≡ observed)
      × ((result.2 ≡ true) ↔ (lines_of expected ≡ lines_of observed))
      × ((result.1 ≡ true) ↔ ((lines_of expected ≡ lines_of observed) × (observed ≢ expected))))
reconcile_patch_edit_observed_content_lem_example =
    reconcile_patch_edit_observed_content_lem (codes "a\nb") (codes "a\r\nb")
