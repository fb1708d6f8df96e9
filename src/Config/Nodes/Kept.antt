-- ===== src/Config/Nodes/Kept.antt =====
-- What an edit of nodes leaves as it is (internal/config/yamledit.go).
use matrixctrl.Common.{
  ◌≡◌, refl, ap, ◌∙◌, String, false, Bool-cases, inl, inr, eq_iff, str_eq_self, Option, some, List,
  [], ◌∷◌, str_eq, arith, if◌then◌else◌,
}
use matrixctrl.Config.Nodes.{
  Key, YamlNode, Pairs, no_pairs, pair, find_node, new_key, upsert, in_place_of, pairs_of, as_block,
  set_in,
}

-- The keys of a mapping in their order, each with its comments.
unfoldable pub keys : Pairs → List Key
keys no_pairs = []
keys (pair k n m) = k ∷ keys m

-- The keys after a value is set: the same, or one new key behind them.
unfoldable pub with_key : String → List Key → List Key
with_key key [] = new_key key ∷ []
with_key key (k ∷ ks) = if str_eq k.text key then k ∷ ks else k ∷ with_key key ks

keys-upsert :
    (key : String) (f : Option YamlNode → YamlNode) (m : Pairs)
    → keys (upsert key f m) ≡ with_key key (keys m)
unfolding keys upsert with_key
keys-upsert key f no_pairs = refl
keys-upsert key f (pair k n m) = elim (Bool-cases (str_eq k.text key)) [
  | inl e ↦ rw e refl
  | inr e ↦ rw e (ap (λ ks. k ∷ ks) (keys-upsert key f m))
]

find_node-upsert :
    (key other : String) (f : Option YamlNode → YamlNode) (m : Pairs)
    → find_node other (upsert key f m)
      ≡ (if str_eq key other then some (f (find_node key m)) else find_node other m)
unfolding find_node upsert
find_node-upsert key other f no_pairs = refl
find_node-upsert key other f (pair k n m) = ground (
  arith,
  find_node-upsert key other f m,
  eq_iff k.text key,
  eq_iff k.text other,
  eq_iff key other,
)

-- Setting a value keeps every key of the mapping with its comments and its place, and what stands under
-- every other key.
pub set_in-kept :
    (k : String) (path : List String) (n : YamlNode) (m : Pairs)
    → (keys (set_in k path n m) ≡ with_key k (keys m))
      × ((other : String)
          → str_eq k other ≡ false
          → find_node other (set_in k path n m) ≡ find_node other m)
unfolding set_in
set_in-kept k [] n m = (
  keys-upsert k (in_place_of n) m,
  λ other ne. find_node-upsert k other (in_place_of n) m ∙ rw ne refl,
)
set_in-kept k (j ∷ path) n m = (
  keys-upsert k (λ old. as_block old (set_in j path n (pairs_of old))) m,
  λ other ne.
      find_node-upsert k other (λ old. as_block old (set_in j path n (pairs_of old))) m
      ∙ rw ne refl,
)

-- What stands at a key after a value was set there, or below it: the new node with the comments
-- of the old, or the old mapping with its comments, as a block.
pub find_node-set_in :
    (k : String) (path : List String) (n : YamlNode) (m : Pairs)
    → find_node k (set_in k path n m)
      ≡ some (elim path [
        | [] ↦ in_place_of n (find_node k m)
        | j ∷ rest ↦ as_block (find_node k m) (set_in j rest n (pairs_of (find_node k m)))
      ])
unfolding set_in
find_node-set_in k [] n m = find_node-upsert k k (in_place_of n) m ∙ rw (str_eq_self k) refl
find_node-set_in k (j ∷ path) n m =
    find_node-upsert k k (λ old. as_block old (set_in j path n (pairs_of old))) m
    ∙ rw (str_eq_self k) refl
