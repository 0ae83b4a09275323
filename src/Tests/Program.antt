-- ===== src/Tests/Program.antt =====
-- A small program, from its text to its machine.
use esma.Base.{some}
use esma.Engine.Load.{codes}
use esma.Engine.Parser.Arrows.{Arrow}

abbrev from_idle : Arrow
from_idle = record { src = codes "idle"; dst = some (codes "work"); code = 12 }
