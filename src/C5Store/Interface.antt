-- ===== src/C5Store/Interface.antt =====
-- `trait C5Store` of c5store_rust/src/lib.rs, which the root and its branches implement: what a client
-- may rely on, whichever of the two it is given.
use c5store.Base.{
  ℕ, Bool, Option, some, is_some, List, [], ◌∷◌, ◌++◌, ◌==◌, ◌≡◌, refl, ap, append_assoc,
  if◌then◌else◌,
}
use c5store.Text.{Str, str_eq}
use c5store.Crates.SkipMap as SkipMap
use c5store.Crates.SkipMap.{SkipMap}
use c5store.Crates.ListMultiMap.{ListMultiMap, IsLawful, or_empty}
use c5store.Value.{C5DataValue}
use c5store.Value.Path.{and_then}
use c5store.DataStore.{ref_value}
use c5store.DataStore.Plain.{exists_lem}
use c5store.Subscriptions.{add}
use c5store.C5Store.{
  State, C5StoreBranch, root_get, root_get_ref, root_exists, root_subscribe, root_branch,
  root_key_paths_with_prefix, root_current_key_path, branch, branch_get, branch_get_ref,
  branch_exists, branch_subscribe, branch_key_paths_with_prefix, branch_current_key_path,
  merge_key_path,
}

-- The trait: a store acts on the state that it shares.
pub record C5Store (S L : Type 0) : Type 0 where
  pub get : S → Str → Option C5DataValue
  pub get_ref : S → Str → Option Str
  pub exists : S → Str → Bool
  pub subscribe : S → Str → L → S
  pub branch : Str → C5StoreBranch
  pub key_paths_with_prefix : S → Option Str → List Str
  pub current_key_path : Str

module _ {L : Type 0} (s : SkipMap C5DataValue) (sha256 : List ℕ → List ℕ)
    (m : ListMultiMap L) where
  -- `impl C5Store for C5StoreRoot`
  abbrev pub of_root : C5Store (State s sha256 m) L
  of_root = record {
    get = root_get s sha256 m;
    get_ref = root_get_ref s sha256 m;
    exists = root_exists s sha256 m;
    subscribe = root_subscribe s sha256 m;
    branch = root_branch;
    key_paths_with_prefix = root_key_paths_with_prefix s sha256 m;
    current_key_path = root_current_key_path;
  }

  -- `impl C5Store for C5StoreBranch`
  abbrev pub of_branch : C5StoreBranch → C5Store (State s sha256 m) L
  of_branch b = record {
    get = λ a. branch_get s sha256 m a b;
    get_ref = λ a. branch_get_ref s sha256 m a b;
    exists = λ a. branch_exists s sha256 m a b;
    subscribe = λ a. branch_subscribe s sha256 m a b;
    branch = branch b;
    key_paths_with_prefix = λ a. branch_key_paths_with_prefix s sha256 m a b;
    current_key_path = branch_current_key_path b;
  }

  -- The keys of the store are those of the root under these.
  pub record IsStore (ops : C5Store (State s sha256 m) L) (at_root : Str → Str) : Type 0 where
    pub exists_get : (a : State s sha256 m) (key : Str) → ops.exists a key ≡ is_some (ops.get a key)
    pub get_ref_get :
        (a : State s sha256 m) (key : Str)
        → and_then (ops.get_ref a key) (ref_value s sha256 a.data_store) ≡ ops.get a key
    pub get_subscribe :
        (a : State s sha256 m) (key j : Str) (listener : L)
        → ops.get (ops.subscribe a key listener) j ≡ ops.get a j
    pub listens :
        (a : State s sha256 m) (key j : Str) (listener : L)
        → m.get_vec (at_root j) (ops.subscribe a key listener).subscriptions ≡ (
            if at_root key == at_root j
            then some (or_empty (m.get_vec (at_root j) a.subscriptions) ++ (listener ∷ []))
            else m.get_vec (at_root j) a.subscriptions)
    pub get_branch :
        (a : State s sha256 m) (key j : Str)
        → (of_branch (ops.branch key)).get a j ≡ ops.get a (key ++ (b'.' ∷ j))
    pub exists_branch :
        (a : State s sha256 m) (key j : Str)
        → (of_branch (ops.branch key)).exists a j ≡ ops.exists a (key ++ (b'.' ∷ j))

module _ {L : Type 0} (s : SkipMap C5DataValue) (lawful : SkipMap.IsLawful s)
    (sha256 : List ℕ → List ℕ) (m : ListMultiMap L) (listeners : IsLawful m) where
  -- The keys of the root are the keys themselves.
  pub root-IsStore : IsStore s sha256 m (of_root s sha256 m) (λ key. key)
  unfolding root_get root_get_ref root_exists root_subscribe root_branch branch_get branch_exists
      add merge_key_path
  root-IsStore = record {
    exists_get = λ a key. (exists_lem s lawful sha256 a.data_store key).0;
    get_ref_get = λ a key. (exists_lem s lawful sha256 a.data_store key).1;
    get_subscribe = λ a key j listener. refl;
    listens = λ a key j listener. listeners.get_vec-insert key j listener a.subscriptions;
    get_branch = λ a key j. refl;
    exists_branch = λ a key j. refl;
  }

  -- The keys of a branch stand under its key path at the root: a key exists exactly when it has a value,
  -- which a reference to it shows; a subscription changes no value, and is the last under its key; and
  -- a branch of it reads at the joined keys. Nothing is said of a search with a prefix.
  pub branch-IsStore :
      (b : C5StoreBranch) → IsStore s sha256 m (of_branch s sha256 m b) (merge_key_path b)
  unfolding branch branch_get branch_get_ref branch_exists branch_subscribe root_subscribe add
      merge_key_path
  branch-IsStore b = record {
    exists_get = λ a key. root-IsStore.exists_get a (merge_key_path b key);
    get_ref_get = λ a key. root-IsStore.get_ref_get a (merge_key_path b key);
    get_subscribe = λ a key j listener.
        root-IsStore.get_subscribe a (merge_key_path b key) (merge_key_path b j) listener;
    listens = λ a key j listener.
        listeners.get_vec-insert (merge_key_path b key) (merge_key_path b j) listener
          a.subscriptions;
    get_branch =
        λ a key j. ap (root_get s sha256 m a) (append_assoc b.key_path (b'.' ∷ key) (b'.' ∷ j));
    exists_branch =
        λ a key j. ap (root_exists s sha256 m a) (append_assoc b.key_path (b'.' ∷ key) (b'.' ∷ j));
  }
