-- ===== src/Log.antt =====
-- src/logger.hpp and src/logger.cpp: the log. `lines` are the lines put on the error output, without
-- what the formatting library adds.
use occase.Base.{ℕ, Bool, List, [], ◌∷◌, ◌++◌, Str, codes, str_eq, ltb, if◌then◌else◌}

pub data Level : Type 0 where
  emerg alert crit err warning notice info debug : Level

-- The place of a level in the enumeration.
abbrev pub rank : Level → ℕ
rank emerg = 0
rank alert = 1
rank crit = 2
rank err = 3
rank warning = 4
rank notice = 5
rank info = 6
rank debug = 7

pub record Log : Type 0 where
  pub filter : Level
  pub lines : List Str

abbrev pub new_log : Log
new_log = record { filter = notice; lines = [] }

unfoldable pub to_level : Str → Level
to_level ll =
    if str_eq ll (codes "emerg")
    then emerg
    else if str_eq ll (codes "alert")
    then alert
    else if str_eq ll (codes "crit")
    then crit
    else if str_eq ll (codes "err")
    then err
    else if str_eq ll (codes "warning")
    then warning
    else if str_eq ll (codes "notice")
    then notice
    else if str_eq ll (codes "info")
    then info
    else if str_eq ll (codes "debug")
    then debug
    else debug

unfoldable pub upto : Level → Log → Log
upto ll l = record l { filter = ll }

unfoldable pub ignore : Level → Log → Bool
ignore ll l = ltb (rank l.filter) (rank ll)

unfoldable pub write : Level → Str → Log → Log
write ll text l =
    if ltb (rank l.filter) (rank ll) then l else record l { lines = l.lines ++ text ∷ [] }
