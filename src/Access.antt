-- ===== src/Access.antt =====
-- enum AccessLevel and its names, of src/auth.h.
use graphserv.Prelude.{ℕ, Bool, ltb, Text, codes}

pub data AccessLevel : Type 0 where
  access_read access_write access_admin : AccessLevel

-- the value of the enumerator, by which levels are compared
abbrev pub level_value : AccessLevel → ℕ
level_value access_read = 0
level_value access_write = 1
level_value access_admin = 2

-- a > b
abbrev pub level_above : AccessLevel → AccessLevel → Bool
level_above a b = ltb (level_value b) (level_value a)

-- gAccessLevelNames
unfoldable pub access_level_name : AccessLevel → Text
access_level_name access_read = codes "read"
access_level_name access_write = codes "write"
access_level_name access_admin = codes "admin"
