-- ===== src/Truncate.antt =====
-- apps/api/internal/service/scrape_scheduler.go, `truncateErr`: error texts are cut at 500 bytes. A
-- character that the cut would split is dropped whole.
use Prim.Native.String.{len, slice, ◌++◌}
use jg_smm.Prelude.{String, leb, if◌then◌else◌}

unfoldable pub truncate_err : String → String
truncate_err s = if leb (len s) 500 then s else slice s 0 500 ++ "..."
