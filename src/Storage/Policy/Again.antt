-- ===== src/Storage/Policy/Again.antt =====
-- An override that is resolved once more against what it resolved to.
use rdev.Base.{Bool, Option, none, some, if◌then◌else◌}
use rdev.Base.Int.{ℤ}
use rdev.Storage.Policy.{whole_seconds}

-- The seconds of a merged scope: those of the duration, where there is one that parses.
abbrev seconds : Bool → Option ℤ → ℤ → ℤ
seconds none_given parsed n =
    if none_given then n else elim parsed [ none ↦ n | some d ↦ whole_seconds d ]
