-- ===== src/Cache/Nodes.antt =====
-- `std::list<std::string> lruList_` of server/Db.h and server/lruMap.h. A list is its nodes, front
-- first; an iterator is the identity of the node that it points to. Identities are handed out in
-- increasing order and never again, so an erased node's iterator dangles for ever.
use pp_d_scache.Base.{
  ℕ, ◌≤◌, ◌<◌, ◌≡◌, refl, ◌≢◌, ite, if_pos, if_neg, List, [], ◌∷◌, map, Option, none, some, arith,
  ℕ_discrete, All,
}

pub record Node {ℓ} (K : Type ℓ) : Type ℓ where
  pub node : ℕ
  pub key : K

module _ {ℓ} {K : Type ℓ} where
  -- `*it`; an iterator whose node is gone has none.
  unfoldable pub deref : ℕ → List (Node K) → Option K
  deref i [] = none
  deref i (x ∷ l) = ite (ℕ_discrete x.node i) (some x.key) (deref i l)

  -- `list.erase(it)`; the caller tests that the node is there.
  unfoldable pub erase_node : ℕ → List (Node K) → List (Node K)
  erase_node i [] = []
  erase_node i (x ∷ l) = ite (ℕ_discrete x.node i) l (x ∷ erase_node i l)

  -- `list.back()`
  unfoldable pub back : List (Node K) → Option (Node K)
  back [] = none
  back (x ∷ []) = some x
  back (x ∷ y ∷ l) = back (y ∷ l)

  -- `list.pop_back()`
  unfoldable pub pop_back : List (Node K) → List (Node K)
  pop_back [] = []
  pop_back (x ∷ []) = []
  pop_back (x ∷ y ∷ l) = x ∷ pop_back (y ∷ l)

  abbrev pub keys : List (Node K) → List K
  keys = map (λ x. x.key)

  -- The identities fall along the list and stay under the next one.
  abbrev pub Below : ℕ → List (Node K) → Type 0
  Below n [] = Unit {0}
  Below n (x ∷ l) = (x.node < n) × Below x.node l

  pub Below-mono : {m n : ℕ} (l : List (Node K)) → m ≤ n → Below m l → Below n l
  Below-mono [] h b = tt
  Below-mono (x ∷ l) h b = (omega arith, b.1)

  pub Below-erase_node : (i n : ℕ) (l : List (Node K)) → Below n l → Below n (erase_node i l)
  unfolding erase_node
  Below-erase_node i n [] b = tt
  Below-erase_node i n (x ∷ l) b =
      ground (arith, Below-erase_node i x.node l b.1, Below-mono {m = x.node} {n = n} l)

  pub deref_above : (i n : ℕ) (l : List (Node K)) → Below n l → n ≤ i → deref i l ≡ none
  unfolding deref
  deref_above i n [] b h = refl
  deref_above i n (x ∷ l) b h = ground (arith, deref_above i x.node l b.1)

  pub deref-lt : (i n : ℕ) (k : K) (l : List (Node K)) → Below n l → deref i l ≡ some k → i < n
  unfolding deref
  deref-lt i n k [] b e = cc
  deref-lt i n k (x ∷ l) b e = ground (arith, deref-lt i x.node k l b.1)

  pub deref-erase_node_ne :
      (i j : ℕ) (l : List (Node K)) → j ≢ i → deref j (erase_node i l) ≡ deref j l
  unfolding deref erase_node
  deref-erase_node_ne i j [] h = refl
  deref-erase_node_ne i j (x ∷ l) h = ground (arith, deref-erase_node_ne i j l)

  -- The last node's iterator is good, and `pop_back` erases that node.
  pub back-erase_node :
      (n : ℕ) (l : List (Node K)) (x : Node K)
      → Below n l
      → back l ≡ some x
      → (deref x.node l ≡ some x.key) × (pop_back l ≡ erase_node x.node l)
  unfolding back pop_back deref erase_node
  back-erase_node n [] x b e = cc
  back-erase_node n (y ∷ []) x b e = ground arith
  back-erase_node n (y ∷ z ∷ l) x b e =
      ground
        (arith, back-erase_node y.node (z ∷ l) x b.1 e, deref-lt x.node y.node x.key (z ∷ l) b.1)

-- What the map says of the list: the iterator that it holds for a node's key is that node's.
abbrev pub Owned {ℓ} : {K : Type ℓ} → (K → Option ℕ) → List (Node K) → Type 0
Owned at l = All (λ x. at x.key ≡ some x.node) l

module _ {ℓ} {K : Type ℓ} (dec : Discrete K) where
  -- A list of keys without the first occurrence of one.
  unfoldable pub remove : K → List K → List K
  remove k [] = []
  remove k (j ∷ l) = ite (dec j k) l (j ∷ remove k l)

  module _ (at : K → Option ℕ) (k : K) (i : ℕ) (here : at k ≡ some i) where
    -- Nodes with other identities carry other keys.
    abbrev pub Others : List (Node K) → Type ℓ
    Others l = All (λ x. (at x.key ≡ some x.node) × (x.key ≢ k)) l

    key-ne : (x : Node K) → at x.key ≡ some x.node → x.node ≢ i → x.key ≢ k
    key-ne x e h p = ground arith

    Others-Below : (l : List (Node K)) → Below i l → Owned at l → Others l
    Others-Below [] b o = tt
    Others-Below (x ∷ l) b o =
        ((o.0, key-ne x o.0 (omega arith)), Others-Below l (Below-mono l (omega arith) b.1) o.1)

    pub Others-erase_node :
        (n : ℕ) (l : List (Node K)) → Below n l → Owned at l → Others (erase_node i l)
    unfolding erase_node
    Others-erase_node n [] b o = tt
    Others-erase_node n (x ∷ l) b o = elim (ℕ_discrete x.node i) [
      | yes p ↦ rw (if_pos _ p) (Others-Below l (rw p at b.1) o.1)
      | no p ↦ rw (if_neg _ p) ((o.0, key-ne x o.0 p), Others-erase_node x.node l b.1 o.1)
    ]

    -- Erasing the node that the map knows removes its key.
    pub keys-erase_node :
        (l : List (Node K))
        → Owned at l
        → deref i l ≡ some k
        → keys (erase_node i l) ≡ remove k (keys l)
    unfolding erase_node deref remove
    keys-erase_node [] o e = cc
    keys-erase_node (x ∷ l) o e = elim (ℕ_discrete x.node i) [
      | yes p ↦ ground arith
      | no p ↦ ground (arith, key-ne x o.0 p, keys-erase_node l o.1)
    ]
