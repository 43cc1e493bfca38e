-- ===== src/Store/Reconcile.antt =====
-- infra/store/reconcile.py: the comparison of the index of a run with its chain. The chain is taken as
-- read from its file, the rows of the index as read in the order of their numbers.
pub mod Faithful
pub mod Indexed
use cyberware.Prelude.{
  ℕ, Bool, true, false, not, ◌&&◌, ◌||◌, Option, none, some, List, [], ◌∷◌, ◌++◌, ℤ, negsuc, ltb_ℤ,
  leb_ℤ, eqb_ℤ, Text, same_text, any, if◌then◌else◌,
}
use cyberware.Cwp.Chain.{
  Entry, Item, object, junk, Digests, Problem, Link, is_text, seq_int, genesis_type, current_major,
  link_digest, verify_chain,
}

pub data Divergence : Type 0 where
  no_chain chain_broken origin_missing : Divergence
  digest_mismatch gap_below_head index_behind index_ahead : ℤ → Divergence

-- Numbers with their digests, of the chain or of the index.
abbrev pub Table : Type 0
Table = List (ℤ × Text)

abbrev pub lookup : ℤ → Table → Option Text
lookup seq [] = none
lookup seq ((k, v) ∷ rest) = let later = lookup seq rest in if eqb_ℤ k seq then some v else later

-- `d[seq] = digest`, with the items in the order of `sorted`.
unfoldable pub insert : ℤ → Text → Table → Table
insert seq digest [] = (seq, digest) ∷ []
insert seq digest ((k, v) ∷ rest) =
    let later = insert seq digest rest in
    if eqb_ℤ k seq
    then (k, digest) ∷ rest
    else if ltb_ℤ seq k
    then (seq, digest) ∷ (k, v) ∷ rest
    else (k, v) ∷ later

-- `max(idx_rows) if idx_rows else -1`
unfoldable pub index_head : Table → ℤ
index_head [] = negsuc 0
index_head ((k, v) ∷ []) = k
index_head ((k, v) ∷ r ∷ rest) =
    let later = index_head (r ∷ rest) in if ltb_ℤ later k then k else later

-- A record of the chain against its row, if the index has one.
abbrev pub check_record : Option Text → ℤ → ℤ → Text → List Divergence
check_record (some d) head seq digest = if same_text d digest then [] else digest_mismatch seq ∷ []
check_record none head seq digest =
    if leb_ℤ seq head then gap_below_head seq ∷ [] else index_behind seq ∷ []

unfoldable pub check_records : Table → ℤ → Table → List Divergence
check_records rows head [] = []
check_records rows head ((seq, digest) ∷ rest) =
    check_record (lookup seq rows) head seq digest ++ check_records rows head rest

-- A row of the index against its record, if the chain has one.
abbrev pub check_row : Option Text → ℤ → List Divergence
check_row (some digest) seq = []
check_row none seq = index_ahead seq ∷ []

unfoldable pub check_rows : Table → Table → List Divergence
check_rows chain [] = []
check_rows chain ((seq, digest) ∷ rest) = check_row (lookup seq chain) seq ++ check_rows chain rest

abbrev pub check_origin : Option Text → Table → List Divergence
check_origin none (r ∷ rows) = origin_missing ∷ []
check_origin plan rows = []

abbrev pub is_alarm : Divergence → Bool
is_alarm (index_behind seq) = false
is_alarm no_chain = false
is_alarm chain_broken = true
is_alarm origin_missing = true
is_alarm (digest_mismatch seq) = true
is_alarm (gap_below_head seq) = true
is_alarm (index_ahead seq) = true

-- The divergences of an index from the digests of a chain that verifies.
unfoldable pub divergences : Option Text → Table → Table → List Divergence
unfolding check_records check_rows
divergences origin chain rows =
    check_origin origin rows
    ++ (check_records rows (index_head rows) chain ++ check_rows chain rows)

pub record Verdict : Type 0 where
  pub ok : Bool
  pub chain_ok : Bool
  pub found : List Divergence

abbrev pub compared : Option Text → Table → Option Table → Option Verdict
compared origin rows none = none
compared origin rows (some chain) =
    let found = divergences origin chain rows in
    some record { ok = not (any is_alarm found); chain_ok = true; found = found }

module _ {P : Type 0} where
  -- The loop of the digests of the records behind the genesis; `none` is an exception.
  unfoldable pub digests_from : Digests P → ℕ → List (Item P) → Table → Option Table
  unfolding link_digest insert is_text
  digests_from d schema [] t = some t
  digests_from d schema (junk ∷ es) t = none
  digests_from d schema (object e ∷ es) t = elim (link_digest d schema e.link) [
    | none ↦ none
    | some digest ↦
        if is_text e.link.kind genesis_type
        then digests_from d schema es t
        else elim (seq_int e.link.seq) [
          | none ↦ none
          | some seq ↦ digests_from d schema es (insert seq digest t)
        ]
  ]

  abbrev pub chain_digests : Digests P → ℕ → List (Item P) → Option Table
  chain_digests d schema items = digests_from d schema items []

  abbrev pub after_chain :
      Digests P → ℕ → Option Text → Table → List (Item P) → Option (List Problem) → Option Verdict
  after_chain d schema origin rows items none = none
  after_chain d schema origin rows items (some (p ∷ ps)) =
      some record { ok = false; chain_ok = false; found = chain_broken ∷ [] }
  after_chain d schema origin rows items (some []) =
      compared origin rows (chain_digests d schema items)

  -- `reconcile_run` without repair, and without the counts; `none` is an exception.
  unfoldable pub reconcile_run :
      Digests P → ℕ → Option Text → Option Text → Table → List (Item P) → Option Verdict
  unfolding verify_chain digests_from divergences
  reconcile_run d schema run origin rows [] =
      some record { ok = false; chain_ok = false; found = no_chain ∷ [] }
  reconcile_run d schema run origin rows (i ∷ items) =
      after_chain d schema origin rows (i ∷ items) (verify_chain d (i ∷ items) schema run origin)
