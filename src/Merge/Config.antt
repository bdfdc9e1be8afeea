-- ===== src/Merge/Config.antt =====
-- Configurations without the order in which their maps happen to be iterated, as a quotient, and
-- `_merge` and the loop over the files (c5store_rust/src/lib.rs) on them.
use c5store.Base.{◌≡◌, refl, sym, ◌∙◌, Option, none, some, List, [], ◌∷◌}
use c5store.Text.{Str}
use c5store.Value.{map, Fields}
use c5store.Value.Path.{value_at, IsWellFormed}
use c5store.Value.Seen.{Seen, nothing, a_map, leaf, seen, Seen-set, SameMap}
use c5store.Merge.{merge, merge_files}
use c5store.Merge.WellFormed.{merge-IsWellFormed, AllWellFormed}
use c5store.Merge.Overlay.{overlay, seen-merge}
use mathlib.Core.Quot
use mathlib.Core.Quot.{Quot, Quot-set}

-- The maps of both are seen alike, so those of the merged maps are.
pub merge-SameMap :
    (dest dest' src src' : Fields)
    → IsWellFormed (map src)
    → IsWellFormed (map src')
    → SameMap dest dest'
    → SameMap src src'
    → SameMap (merge dest src) (merge dest' src')
merge-SameMap dest dest' src src' w w' p q ks =
    seen-merge ks dest src w
    ∙ (λ i. overlay ks (λ js. p js i) (λ js. q js i))
    ∙ sym (seen-merge ks dest' src' w')

-- The files hold the same maps, whatever the order of their entries.
abbrev pub AllSame : List (Option Fields) → List (Option Fields) → Type 0
AllSame [] [] = Unit
AllSame (none ∷ files) (none ∷ files') = AllSame files files'
AllSame (some file ∷ files) (some file' ∷ files') = SameMap file file' × AllSame files files'
AllSame _ _ = ⊥

pub merge_files-SameMap :
    (files files' : List (Option Fields)) (raw raw' : Fields)
    → AllWellFormed files
    → AllWellFormed files'
    → SameMap raw raw'
    → AllSame files files'
    → SameMap (merge_files raw files) (merge_files raw' files')
unfolding merge_files
merge_files-SameMap [] [] raw raw' w w' p h = p
merge_files-SameMap (none ∷ files) (none ∷ files') raw raw' w w' p h =
    merge_files-SameMap files files' raw raw' w w' p h
merge_files-SameMap (some file ∷ files) (some file' ∷ files') raw raw' w w' p h =
    merge_files-SameMap files files' (merge raw file) (merge raw' file') w.1 w'.1
      (merge-SameMap raw raw' file file' w.0 w'.0 p h.0) h.1
merge_files-SameMap _ _ raw raw' w w' p h = elim h [ ]

-- A map without a key that stands twice.
abbrev pub HashedMap : Type 0
HashedMap = (m : Fields) × IsWellFormed (map m)

abbrev Alike : HashedMap → HashedMap → Type 0
Alike a b = SameMap a.0 b.0

abbrev pub Config : Type 0
Config = Quot Alike

unfoldable pub merge_maps : HashedMap → HashedMap → HashedMap
merge_maps dest src = (merge dest.0 src.0, merge-IsWellFormed dest.0 src.0 dest.1 src.1.1)

abbrev pub of_map : HashedMap → Config
of_map = Quot.mk

-- What is seen of a configuration.
unfoldable pub view : List Str → Config → Seen
view ks = Quot.lift Seen-set (λ a. seen ks (map a.0)) (λ a b h. h ks)

-- A configuration is what is seen of it.
pub ext : (c c' : Config) → ((ks : List Str) → view ks c ≡ view ks c') → c ≡ c'
unfolding view
ext = Quot.ind (λ _. hlevel Quot-set) λ a. Quot.ind (λ _. hlevel Quot-set) λ b. Quot.sound

merge_into : HashedMap → Config → Config
unfolding merge_maps
merge_into src =
    Quot.lift Quot-set (λ dest. of_map (merge_maps dest src))
      (λ dest dest' h.
        Quot.sound (merge-SameMap dest.0 dest'.0 src.0 src.0 src.1 src.1 h (λ ks. refl)))

merge_into-Alike :
    (src src' : HashedMap) → Alike src src' → (c : Config) → merge_into src c ≡ merge_into src' c
unfolding merge_into merge_maps
merge_into-Alike src src' h =
    Quot.ind (λ _. Quot-set _ _)
      λ dest. Quot.sound (merge-SameMap dest.0 dest.0 src.0 src'.0 src.1 src'.1 (λ ks. refl) h)

-- The second configuration laid over the first.
unfoldable pub merge_configs : Config → Config → Config
unfolding merge_into merge_into-Alike merge_maps
merge_configs c =
    Quot.lift Quot-set (λ src. merge_into src c) (λ src src' h. merge_into-Alike src src' h c)

view-merge_configs :
    (ks : List Str) (c c' : Config)
    → view ks (merge_configs c c') ≡ overlay ks (λ js. view js c) (λ js. view js c')
unfolding view merge_configs
view-merge_configs ks =
    Quot.ind (λ _. hlevel)
      λ dest. Quot.ind (λ _. Seen-set _ _) λ src. seen-merge ks dest.0 src.0 src.1

-- A map laid over itself.
overlay_self : (ks : List Str) (f : List Str → Seen) → f [] ≡ a_map → overlay ks f f ≡ f ks
overlay_self [] f h = sym h
overlay_self (k ∷ ks) f h = overlaid_again (f (k ∷ [])) refl (overlay_self ks (λ js. f (k ∷ js)))
  where
    overlaid_again :
        (x : Seen)
        → f (k ∷ []) ≡ x
        → (f (k ∷ []) ≡ a_map → overlay ks (λ js. f (k ∷ js)) (λ js. f (k ∷ js)) ≡ f (k ∷ ks))
        → overlay (k ∷ ks) f f ≡ f (k ∷ ks)
    overlaid_again nothing e rest = rw e refl
    overlaid_again (leaf v) e rest = rw e refl
    overlaid_again a_map e rest = rw e (rest e)

view_root : (c : Config) → view [] c ≡ a_map
unfolding view value_at
view_root = Quot.ind (λ _. Seen-set _ _) λ a. refl

-- What is laid over a map again adds nothing to it.
overlay_again :
    (ks : List Str) (f g : List Str → Seen)
    → g [] ≡ a_map
    → overlay ks (λ js. overlay js f g) g ≡ overlay ks f g
overlay_again [] f g h = refl
overlay_again (k ∷ ks) f g h =
    again (f (k ∷ [])) (g (k ∷ [])) refl refl
      (overlay_again ks (λ js. f (k ∷ js)) (λ js. g (k ∷ js)))
  where
    again :
        (x y : Seen)
        → f (k ∷ []) ≡ x
        → g (k ∷ []) ≡ y
        → (g (k ∷ []) ≡ a_map
            → overlay ks (λ js. overlay js (λ ls. f (k ∷ ls)) (λ ls. g (k ∷ ls))) (λ js. g (k ∷ js))
              ≡ overlay ks (λ js. f (k ∷ js)) (λ js. g (k ∷ js)))
        → overlay (k ∷ ks) (λ js. overlay js f g) g ≡ overlay (k ∷ ks) f g
    again x nothing ef eg rest = rw eg refl
    again x (leaf v) ef eg rest = rw eg refl
    again a_map a_map ef eg rest = rw (ef, eg) (rest eg)
    again nothing a_map ef eg rest = rw (ef, eg) (overlay_self ks (λ js. g (k ∷ js)) eg)
    again (leaf v) a_map ef eg rest = rw (ef, eg) (overlay_self ks (λ js. g (k ∷ js)) eg)

-- A configuration that is laid over another a second time changes nothing.
pub merge_configs_again :
    (c c' : Config) → merge_configs (merge_configs c c') c' ≡ merge_configs c c'
merge_configs_again c c' = ext (merge_configs (merge_configs c c') c') (merge_configs c c') λ ks.
    view-merge_configs ks (merge_configs c c') c'
    ∙ (λ i. overlay ks (λ js. view-merge_configs js c c' i) (λ js. view js c'))
    ∙ overlay_again ks (λ js. view js c) (λ js. view js c') (view_root c')
    ∙ sym (view-merge_configs ks c c')
