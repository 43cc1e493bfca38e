-- ===== src/Exec/Closure.antt =====
-- infra/exec/closureverify.py: the check of the files that a step will read against the digests that
-- the grant pins. The directory is a parameter: its regular files by relative path, in order, and the
-- SHA-256 of each. The items of the grant's object are taken in the order of their names.
pub mod Intact
use cyberware.Prelude.{
  Bool, true, false, ◌||◌, Option, none, some, List, [], ◌∷◌, ◌++◌, map, Text, codes, same_text,
  any, if◌then◌else◌,
}
use cyberware.Govern.Principals.{among}

pub record Snip : Type 0 where
  pub files : List Text
  pub digest_file : Text → Option Text

abbrev pub unpinned_by_design : Text
unpinned_by_design = codes "contracts.json"

abbrev pub names : List (Text × Text) → List Text
names = map (λ p. p.0)

-- The first file that is not allowed, with the reason.
unfoldable pub stray : Text → List Text → List Text → Option Text
stray why [] allowed = none
stray why (name ∷ rest) allowed =
    if among name allowed || same_text name unpinned_by_design
    then stray why rest allowed
    else some (why ++ name)

-- `not os.path.isfile(fp)`, and the comparison of the digests.
unfoldable pub check_pin : Snip → Text × Text → Option Text
check_pin d (name, want) = elim (d.digest_file name) [
  | none ↦ some (codes "closure:missing:" ++ name)
  | some digest ↦ if same_text digest want then none else some (codes "closure:mismatch:" ++ name)
]

-- The first pin that fails, and then the strays.
unfoldable pub check_pins : List (Text × Text) → Snip → List Text → Option Text
unfolding check_pin stray
check_pins [] d pinned = stray (codes "closure:smuggled:") d.files pinned
check_pins (p ∷ ps) d pinned =
    let rest = check_pins ps d pinned in elim (check_pin d p) [ some why ↦ some why | none ↦ rest ]

-- `closure_decision`; `none` is `(False, "ok")`.
unfoldable pub closure_decision : List (Text × Text) → Snip → Option Text
unfolding check_pins stray
closure_decision [] d = stray (codes "closure:unpinned:") d.files []
closure_decision (p ∷ ps) d = check_pins (p ∷ ps) d (names (p ∷ ps))
