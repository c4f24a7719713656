-- ===== src/Lsm/Manifest.antt =====
-- src/lsm/manifest.cpp: the lists of the tables' files, the next file number and the checkpoint. The
-- JSON text of the file is left out: what `save` wrote is a copy of the manifest.
use amind.Prelude.{ℕ, Bool, false, List, [], ◌∷◌, ◌==◌, if◌then◌else◌}

-- The names `sst_<id>.sst`, `L1_<id>.sst` and `L2_<id>.sst`
pub data FileName : Type 0 where
  sst : (id : ℕ) → FileName
  l1_sst : (id : ℕ) → FileName
  l2_sst : (id : ℕ) → FileName

abbrev pub same_name : FileName → FileName → Bool
same_name (sst i) (sst j) = i == j
same_name (l1_sst i) (l1_sst j) = i == j
same_name (l2_sst i) (l2_sst j) = i == j
same_name f g = false

pub record Manifest : Type 0 where
  pub checkpoint_seq : ℕ
  pub next_sst_id : ℕ
  pub l0_files : List FileName
  pub l1_files : List FileName
  pub l2_files : List FileName

-- `addL0File`
abbrev pub add_l0_file : FileName → Manifest → Manifest
add_l0_file f m = record m { l0_files = f ∷ m.l0_files }

-- `find`, then `erase` of what is found
unfoldable pub erase_file : FileName → List FileName → List FileName
erase_file f [] = []
erase_file f (g ∷ gs) = let rest = erase_file f gs in if same_name g f then gs else g ∷ rest

unfoldable pub erase_files : List FileName → List FileName → List FileName
erase_files [] gs = gs
erase_files (f ∷ fs) gs = erase_files fs (erase_file f gs)

-- `compactL0ToL1`
abbrev pub compact_l0_to_l1 :
    (old_l0_files : List FileName) (new_l1_file : FileName) → Manifest → Manifest
compact_l0_to_l1 old file m = record m {
  l0_files = erase_files old m.l0_files;
  l1_files = file ∷ m.l1_files;
}

-- `compactL1ToL2`
abbrev pub compact_l1_to_l2 :
    (old_l1_files : List FileName) (new_l2_file : FileName) → Manifest → Manifest
compact_l1_to_l2 old file m = record m {
  l1_files = erase_files old m.l1_files;
  l2_files = file ∷ m.l2_files;
}
