-- ===== src/Snip.antt =====
-- internal/snip/snip.go: `Snip`, on the text of an error.
use manipulate.Prelude.{String, if◌then◌else◌, ◌==◌}
use manipulate.Prelude.Text.{replace_all}

unfoldable pub snip : String → String → String
unfolding replace_all
snip text token = if token == "" then text else replace_all text token "[snip]"
