-- ===== src/C5Store/Branches.antt =====
-- Branches of branches (`C5StoreBranch` of c5store_rust/src/lib.rs).
use c5store.Base.{◌≡◌, refl, subst, none, some, List, [], ◌∷◌, ◌++◌, ℕ}
use c5store.Text.{Str}
use c5store.Crates.SkipMap.{SkipMap}
use c5store.Crates.ListMultiMap.{ListMultiMap}
use c5store.Value.{C5DataValue}
use c5store.C5Store.{
  State, C5StoreBranch, root_branch, branch, merge_key_path, branch_current_key_path, branch_get,
  branch_get_ref, branch_exists, branch_subscribe, branch_key_paths_with_prefix, root_get,
  root_get_ref, root_exists, root_subscribe, root_key_paths_with_prefix,
}

-- A branch taken for each of the keys in turn.
abbrev pub descend : C5StoreBranch → List Str → C5StoreBranch
descend b [] = b
descend b (key ∷ keys) = descend (branch b key) keys

-- The keys behind a first one, with dots between.
abbrev pub joined : Str → List Str → Str
joined key [] = key
joined key (next ∷ keys) = joined (key ++ (b'.' ∷ next)) keys

descend-key_path :
    (b : C5StoreBranch) (keys : List Str) → (descend b keys).key_path ≡ joined b.key_path keys
unfolding branch
descend-key_path b [] = refl
descend-key_path b (key ∷ keys) = descend-key_path (branch b key) keys

module _ {L : Type 0} (s : SkipMap C5DataValue) (sha256 : List ℕ → List ℕ)
    (m : ListMultiMap L) where
  -- Each operation of the branch is that of the root with the path in front of the key.
  pub record ActsAtRoot (a : State s sha256 m) (b : C5StoreBranch) (path : Str) : Type 0 where
    pub current : branch_current_key_path b ≡ path
    pub gets :
        (key : Str) → branch_get s sha256 m a b key ≡ root_get s sha256 m a (path ++ (b'.' ∷ key))
    pub gets_ref :
        (key : Str)
        → branch_get_ref s sha256 m a b key ≡ root_get_ref s sha256 m a (path ++ (b'.' ∷ key))
    pub exists_there :
        (key : Str)
        → branch_exists s sha256 m a b key ≡ root_exists s sha256 m a (path ++ (b'.' ∷ key))
    pub subscribes :
        (key : Str) (listener : L)
        → branch_subscribe s sha256 m a b key listener
          ≡ root_subscribe s sha256 m a (path ++ (b'.' ∷ key)) listener
    pub searches :
        (key : Str)
        → branch_key_paths_with_prefix s sha256 m a b (some key)
          ≡ root_key_paths_with_prefix s sha256 m a (some (path ++ (b'.' ∷ key)))
    pub searches_all :
        branch_key_paths_with_prefix s sha256 m a b none
        ≡ root_key_paths_with_prefix s sha256 m a none

  at_key_path : (a : State s sha256 m) (b : C5StoreBranch) → ActsAtRoot a b b.key_path
  unfolding branch_current_key_path branch_get branch_get_ref branch_exists branch_subscribe
      branch_key_paths_with_prefix merge_key_path
  at_key_path a b = record {
    current = refl;
    gets = λ key. refl;
    gets_ref = λ key. refl;
    exists_there = λ key. refl;
    subscribes = λ key listener. refl;
    searches = λ key. refl;
    searches_all = refl;
  }

  -- Through any nesting of branches each operation acts on the root at the keys joined by dots, and
  -- a search with no key path is a search of the whole root.
  pub nested_branches :
      (a : State s sha256 m) (key : Str) (keys : List Str)
      → ActsAtRoot a (descend (root_branch key) keys) (joined key keys)
  unfolding root_branch
  nested_branches a key keys =
      subst (ActsAtRoot a (descend (root_branch key) keys))
        (descend-key_path (root_branch key) keys) (at_key_path a (descend (root_branch key) keys))
