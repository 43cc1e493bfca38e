-- ===== src/Tests/Settle/Publish.antt =====
-- Tests of the gate of a publish and of its royalty: 15 of 100 units go to the lineage.
use cyberware.Prelude.{◌≡◌, refl, ℕ, none, some, [], ◌∷◌, Text, codes, same_text, pos, ok}
use cyberware.Cwp.Alchemy.{
  Cfg, Blueprint, Names, citrinitas_clean, conservation_defect, unnamed_shape, cfg_mismatch,
  unnamed, concord, publish_gate,
}
use cyberware.Settle.RewardLedger.{open_ledger}
use cyberware.Settle.Royalties.{blocked, publish_with_royalty}
use cyberware.Tests.Settle.{digests, fraction, usd}

abbrev names : Names
names = record { in_leaf_map = λ t. same_text t (codes "open"); simple_name = λ t. t }

abbrev line : Cfg
line = record { states = codes "a" ∷ codes "b" ∷ []; edges = (codes "a", codes "b") ∷ [] }

abbrev back : Cfg
back = record { states = codes "a" ∷ codes "b" ∷ []; edges = (codes "b", codes "a") ∷ [] }

abbrev calls : Text → ℕ → Blueprint
calls callee imbalance = record { imbalance = imbalance; callees = callee ∷ []; graph = line }

clean_admitted : publish_gate names (calls (codes "open") 0) none ≡ citrinitas_clean
unfolding publish_gate unnamed concord same_text
clean_admitted = refl

leak_blocked : publish_gate names (calls (codes "open") 1) none ≡ conservation_defect
unfolding publish_gate
leak_blocked = refl

exotic_blocked : publish_gate names (calls (codes "weird") 0) none ≡ unnamed_shape
unfolding publish_gate unnamed same_text
exotic_blocked = refl

undeclared_blocked : publish_gate names (calls (codes "open") 0) (some back) ≡ cfg_mismatch
unfolding publish_gate unnamed concord same_text
undeclared_blocked = refl

nothing_paid :
    publish_with_royalty digests fraction
      (open_ledger (codes "run") (codes "plan"))
      (codes "ann")
      unnamed_shape
      (usd 100)
      (pos 15)
      (pos 85)
    ≡ ok (blocked unnamed_shape, open_ledger (codes "run") (codes "plan"))
unfolding publish_with_royalty
nothing_paid = refl
