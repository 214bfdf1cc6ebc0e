-- ===== src/Os/Walk/Laws.antt =====
-- smbclient/_os.py, `walk`: the two orders visit the same.
use mathlib.Core.List.Perm
use mathlib.Core.List.{Perm}
use smbprotocol.Prelude.{◌≡◌, List, ◌∷◌, some, All}
use smbprotocol.Os.{Location}
use smbprotocol.Os.Walk.{Found, Listing, Outcome, no_fuel, finished}

-- The same steps in some order, both to the end, or out of fuel both.
abbrev pub SameSteps : Outcome → Outcome → Type 0
SameSteps no_fuel no_fuel = Unit {0}
SameSteps (finished xs) (finished ys) = Perm xs ys
SameSteps _ _ = ⊥

-- `lstat` answers for every path that is listed, as the entry does of itself.
abbrev pub Agrees : Listing → Type 0
Agrees listing =
    (top : Location) (entries : List Found)
    → listing.scandir top ≡ some entries
    → All (λ (e : Found). listing.is_link (e.name ∷ top) ≡ some e.is_symlink) entries
