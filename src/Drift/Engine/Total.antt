-- ===== src/Drift/Engine/Total.antt =====
-- When `nctl drift` reports at all.
use nctl.Prelude.Dict.{Dict}
