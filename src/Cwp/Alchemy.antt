-- ===== src/Cwp/Alchemy.antt =====
-- infra/cwp/alchemy.py: the gate of a publish. The engine that extracts a blueprint and balances its
-- resources is not in the repository: a blueprint is the findings that the gate takes from it, the number of
-- families out of balance, the callees of its calls, and its control flow graph.
pub mod Clean
use cyberware.Prelude.{
  ℕ, zero, suc, Bool, true, false, not, ◌&&◌, ◌||◌, Option, none, some, List, [], ◌∷◌, Text,
  same_text, any, if◌then◌else◌, ltb,
}

pub record Cfg : Type 0 where
  pub states : List Text
  pub edges : List (Text × Text)

pub record Blueprint : Type 0 where
  pub imbalance : ℕ
  pub callees : List Text
  pub graph : Cfg

-- The engine's table of named families, and the last part of a dotted name.
pub record Names : Type 0 where
  pub in_leaf_map : Text → Bool
  pub simple_name : Text → Text

abbrev pub is_unnamed : Names → Text → Bool
is_unnamed n [] = false
is_unnamed n (c ∷ cs) = not (n.in_leaf_map (c ∷ cs)) && not (n.in_leaf_map (n.simple_name (c ∷ cs)))

-- `classify(bp)["unnamed"]`
unfoldable pub unnamed : Names → List Text → ℕ
unnamed n [] = 0
unnamed n (c ∷ cs) = let later = unnamed n cs in if is_unnamed n c then suc later else later

abbrev pub same_edge : Text × Text → Text × Text → Bool
same_edge (a, b) (c, d) = same_text a c && same_text b d

abbrev pub undeclared_state : List Text → Text → Bool
undeclared_state declared s = not (any (same_text s) declared)

abbrev pub undeclared_edge : List (Text × Text) → Text × Text → Bool
undeclared_edge declared e = not (any (same_edge e) declared)

-- `concord(extracted, declared)["pass"]`
unfoldable pub concord : Cfg → Cfg → Bool
concord extracted declared =
    not (any (undeclared_state declared.states) extracted.states)
    && not (any (undeclared_edge declared.edges) extracted.edges)

pub data PublishGate : Type 0 where
  citrinitas_clean conservation_defect unnamed_shape cfg_mismatch : PublishGate

-- `declared_cfg or ex`, where an empty blueprint counts as none
abbrev pub declared_or : Option Cfg → Cfg → Cfg
declared_or none ex = ex
declared_or (some c) ex = c

unfoldable pub publish_gate : Names → Blueprint → Option Cfg → PublishGate
unfolding concord unnamed
publish_gate n bp declared =
    if ltb 0 bp.imbalance
    then conservation_defect
    else if ltb 0 (unnamed n bp.callees)
    then unnamed_shape
    else if not (concord bp.graph (declared_or declared bp.graph))
    then cfg_mismatch
    else citrinitas_clean
