-- ===== src/Storage/Untouched.antt =====
-- server/storage/sqlite/db.py: what a rolled back transaction and a refused write leave behind.
use mini_im.Prelude.{◌≡◌}
use mini_im.Storage.Db.{Db}

-- Every table is as it was; identifiers may have been drawn.
abbrev pub Untouched : Db → Db → Type 0
Untouched before after = after ≡ record before { issued = after.issued }
