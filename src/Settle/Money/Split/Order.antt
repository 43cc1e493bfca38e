-- ===== src/Settle/Money/Split/Order.antt =====
-- The sorted order of the shares names only shares that exist, and as many as there are.
use cyberware.Prelude.{
  ℕ, zero, suc, ◌+◌, ◌≤◌, ◌<◌, ◌≡◌, List, [], ◌∷◌, some, ℤ, length, get_elem?, All, arith, refl,
  inl, inr, Bool-cases,
}
use cyberware.Settle.Money.Split.{index, keys, insert_key, sort_keys, precedes}

abbrev pub Below : ℕ → List (ℕ × ℕ) → Type 0
Below n = All (λ k. index k < n)

length-insert_key : (k : ℕ × ℕ) (ks : List (ℕ × ℕ)) → length (insert_key k ks) ≡ suc (length ks)
unfolding insert_key
length-insert_key k [] = refl
length-insert_key k (j ∷ js) = ground (arith, length-insert_key k js)

insert_key-Below :
    (n : ℕ) (k : ℕ × ℕ) (ks : List (ℕ × ℕ)) → index k < n → Below n ks → Below n (insert_key k ks)
unfolding insert_key
insert_key-Below n k [] h b = (h, tt)
insert_key-Below n k (j ∷ js) h b = elim (Bool-cases (precedes k j)) [
  | inl first ↦ rw first (h, b)
  | inr later ↦ rw later (b.0, insert_key-Below n k js h b.1)
]

pub length-sort_keys : (ks : List (ℕ × ℕ)) → length (sort_keys ks) ≡ length ks
unfolding sort_keys
length-sort_keys [] = refl
length-sort_keys (k ∷ ks) = rw (length-insert_key k (sort_keys ks), length-sort_keys ks)

pub sort_keys-Below : (n : ℕ) (ks : List (ℕ × ℕ)) → Below n ks → Below n (sort_keys ks)
unfolding sort_keys
sort_keys-Below n [] b = tt
sort_keys-Below n (k ∷ ks) b = insert_key-Below n k (sort_keys ks) b.0 (sort_keys-Below n ks b.1)

pub length-keys : (fraction : ℤ → ℕ) (i : ℕ) (ws : List ℤ) → length (keys fraction i ws) ≡ length ws
unfolding keys
length-keys fraction i [] = refl
length-keys fraction i (w ∷ ws) = rw (length-keys fraction (suc i) ws)

pub keys-Below :
    (fraction : ℤ → ℕ) (i n : ℕ) (ws : List ℤ) → i + length ws ≤ n → Below n (keys fraction i ws)
unfolding keys
keys-Below fraction i n [] h = tt
keys-Below fraction i n (w ∷ ws) h = (omega arith, keys-Below fraction (suc i) n ws (omega arith))

-- An entry that is read from such an order exists and is below the bound.
pub get_elem?-Below :
    (n : ℕ) (ks : List (ℕ × ℕ)) (i : ℕ)
    → Below n ks
    → i < length ks
    → (k : ℕ × ℕ) × (get_elem? ks i ≡ some k) × (index k < n)
get_elem?-Below n [] i b h = absurd (omega arith)
get_elem?-Below n (k ∷ ks) zero b h = (k, refl, b.0)
get_elem?-Below n (k ∷ ks) (suc i) b h = get_elem?-Below n ks i b.1 (omega arith)
