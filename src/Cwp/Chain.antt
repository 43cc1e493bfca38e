-- ===== src/Cwp/Chain.antt =====
-- infra/cwp/chainverify.py (verification of a ledger) and the linking of records in
-- infra/cwp/ledger.py. A record is a JSON object, held as the fields that the code reads and a
-- payload for the rest. The two digest forms (SHA-256 over json.dumps, and over RFC 8785) are the
-- parameter `Digests`. `int(seq)` is modelled on integers and booleans, and fails on the rest.
pub mod Spec
pub mod Append
pub mod Tamper
use cyberware.Prelude.{
  ℕ, zero, suc, ◌+◌, ◌-◌, Bool, true, false, not, ◌&&◌, ◌||◌, Option, none, some, List, [], ◌∷◌,
  ◌++◌, ℤ, pos, ◌+ℤ◌, eqb_ℤ, Text, codes, same_text, length, last, is_zero, ltb, ◌==◌,
  if◌then◌else◌,
}

-- A JSON value, as `dict.get` returns it; `other` is a float, a list or an object, with its truth.
pub data Value : Type 0 where
  missing null : Value
  flag : Bool → Value
  int : ℤ → Value
  text : Text → Value
  other : Bool → Value

-- A record without its `prev`: what `link_of` keeps.
pub record Link (P : Type 0) : Type 0 where
  pub kind : Value
  pub seq : Value
  pub run_id : Value
  pub plan_sha : Value
  pub supersedes_head : Value
  pub supersedes : Value
  pub payload : Option P

pub record Entry (P : Type 0) : Type 0 where
  pub link : Link P
  pub prev : Value

-- What stands in a ledger file: an object, or some other JSON value.
pub data Item (P : Type 0) : Type 0 where
  object : Entry P → Item P
  junk : Item P

pub record Digests (P : Type 0) : Type 0 where
  pub v1 : Link P → Text
  pub v2 : Link P → Text

pub data Problem : Type 0 where
  empty_chain genesis_not_object not_genesis prev_not_zero no_origin run_mismatch plan_mismatch :
      Problem
  not_object second_genesis prev_mismatch seq_not_int seq_gap : ℕ → Problem

abbrev pub current_major : ℕ
current_major = 2

abbrev pub zero_root : Text
zero_root = codes "0000000000000000000000000000000000000000000000000000000000000000"

abbrev pub genesis_type : Text
genesis_type = codes "genesis"

unfoldable pub is_text : Value → Text → Bool
is_text (text a) t = same_text a t
is_text _ t = false

-- Python's truth of a value.
unfoldable pub truthy : Value → Bool
truthy (flag b) = b
truthy (int n) = not (is_zero n)
truthy (text []) = false
truthy (text (c ∷ cs)) = true
truthy (other b) = b
truthy _ = false

-- `_seq_int`, with the number: a bool is no sequence number.
abbrev pub seq_int : Value → Option ℤ
seq_int (int n) = some n
seq_int _ = none

-- One `if … problems.append(…)`.
abbrev pub report : Bool → Problem → List Problem
report b p = if b then p ∷ [] else []

abbrev pub differs : Option Text → Value → Bool
differs none v = false
differs (some t) v = not (is_text v t)

-- The checks on one record: the problem that ends the walk, or the sequence number to go on from.
pub data Check : Type 0 where
  stop : Problem → Check
  next : Option ℤ → Check

abbrev pub gap : Option ℤ → ℤ → Bool
gap none n = false
gap (some l) n = not (eqb_ℤ n (l +ℤ pos 1))

abbrev pub check_seq : ℕ → Option ℤ → Value → Check
check_seq i last (int n) = if gap last n then stop (seq_gap i) else next (some n)
check_seq i last v = stop (seq_not_int i)

-- `int(prev.get("seq", default))`
abbrev pub seq_or : ℕ → Value → Option ℤ
seq_or n missing = some (pos n)
seq_or n (flag b) = some (pos (if b then 1 else 0))
seq_or n (int k) = some k
seq_or n _ = none

module _ {P : Type 0} where
  -- `link_digest`; `none` is the ValueError of an unknown schema.
  unfoldable pub link_digest : Digests P → ℕ → Link P → Option Text
  link_digest d schema l =
      if schema == 1 then some (d.v1 l) else if schema == 2 then some (d.v2 l) else none

  unfoldable pub head_from : Digests P → ℕ → Text → List (Entry P) → Option Text
  unfolding link_digest
  head_from d schema head [] = some head
  head_from d schema head (e ∷ es) = elim (link_digest d schema e.link) [
    | none ↦ none
    | some h ↦ head_from d schema h es
  ]

  unfoldable pub head_of : Digests P → ℕ → List (Entry P) → Option Text
  unfolding head_from
  head_of d schema = head_from d schema zero_root

  unfoldable pub genesis_problems : Option Text → Option Text → Entry P → List Problem
  unfolding is_text truthy
  genesis_problems run plan g =
      report (not (is_text g.link.kind genesis_type)) not_genesis
      ++ report (not (is_text g.prev zero_root)) prev_not_zero
      ++ report
          (not (
            (truthy g.link.run_id && truthy g.link.plan_sha)
            || (truthy g.link.supersedes_head || truthy g.link.supersedes)))
          no_origin
      ++ report (differs run g.link.run_id) run_mismatch
      ++ report (differs plan g.link.plan_sha) plan_mismatch

  unfoldable pub check : ℕ → Text → Option ℤ → Entry P → Check
  unfolding is_text
  check zero prev last e =
      if not (is_text e.prev prev) then stop (prev_mismatch 0) else next (seq_int e.link.seq)
  check (suc i) prev last e =
      if is_text e.link.kind genesis_type || is_text e.prev zero_root
      then stop (second_genesis (suc i))
      else if not (is_text e.prev prev)
      then stop (prev_mismatch (suc i))
      else check_seq (suc i) last e.link.seq

  -- The loop of `verify_chain`, from record `i` on; `none` is a ValueError.
  unfoldable pub walk : Digests P → ℕ → ℕ → Text → Option ℤ → List (Item P) → Option (List Problem)
  unfolding check link_digest
  walk d schema i prev last [] = some []
  walk d schema i prev last (junk ∷ es) = some (not_object i ∷ [])
  walk d schema i prev last (object e ∷ es) = elim (check i prev last e) [
    | stop p ↦ some (p ∷ [])
    | next l ↦ elim (link_digest d schema e.link) [
      | none ↦ none
      | some h ↦ walk d schema (suc i) h l es
    ]
  ]

  -- The verdict is ok if the list of problems is empty.
  unfoldable pub verify_chain :
      Digests P → List (Item P) → ℕ → Option Text → Option Text → Option (List Problem)
  unfolding genesis_problems walk
  verify_chain d [] schema run plan = some (empty_chain ∷ [])
  verify_chain d (junk ∷ es) schema run plan = some (genesis_not_object ∷ [])
  verify_chain d (object g ∷ es) schema run plan = elim (genesis_problems run plan g) [
    | p ∷ ps ↦ some (p ∷ ps)
    | [] ↦ walk d schema 0 zero_root none (object g ∷ es)
  ]

  -- infra/cwp/ledger.py
  abbrev pub genesis : Text → Text → Entry P
  genesis run plan = record {
    link = record {
      kind = text genesis_type;
      seq = int (pos 0);
      run_id = text run;
      plan_sha = text plan;
      supersedes_head = missing;
      supersedes = missing;
      payload = none;
    };
    prev = text zero_root;
  }

  abbrev pub linked : Link P → ℤ → Text → Entry P
  linked rec n h = record { link = record rec { seq = int (n +ℤ pos 1) }; prev = text h }

  -- The entry that `append` writes after `tip`, in a ledger of `size` entries.
  unfoldable pub link_after : Digests P → ℕ → Entry P → Link P → ℕ → Option (Entry P)
  unfolding link_digest
  link_after d size tip rec schema = elim (seq_or (size - 1) tip.link.seq) [
    | none ↦ none
    | some n ↦ elim (link_digest d schema tip.link) [ none ↦ none | some h ↦ some (linked rec n h) ]
  ]

  -- `append`; `none` is an exception, with the ledger left alone.
  unfoldable pub append : Digests P → List (Entry P) → Link P → ℕ → Option (List (Entry P))
  unfolding link_after
  append d entries rec schema = elim (last entries) [
    | none ↦ none
    | some tip ↦ elim (link_after d (length entries) tip rec schema) [
      | none ↦ none
      | some e ↦ some (entries ++ e ∷ [])
    ]
  ]
